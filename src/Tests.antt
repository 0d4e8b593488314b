-- ===== src/Tests.antt =====
-- Tests on concrete inputs, and an instance of each theorem where its hypotheses hold.
pub mod Memory
pub mod Data
mod Names
pub mod Table
mod Provisioning
mod Api
mod Middleware
pub mod Pagination
mod Desk
mod Documented
mod Listing
mod Seeding
mod LocalTable
mod Paired
mod Lossy
mod Newest
mod Openapi
