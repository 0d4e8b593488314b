-- ===== src/Scripts.antt =====
-- The programs of scripts/, which developers run.
pub mod Integers
pub mod SeedIssues
pub mod LocalTable
