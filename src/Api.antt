-- ===== src/Api.antt =====
-- src/projects_api/api: the request's correlation id, the caller's identity, the problem responses
-- and the routes.
pub mod Context
pub mod Deps
pub mod Errors
pub mod Pagination
pub mod Openapi
pub mod Application
pub mod Routes
