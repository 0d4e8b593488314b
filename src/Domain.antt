-- ===== src/Domain.antt =====
-- src/projects_api/domain: the exceptions, the name rules and the models.
pub mod Exceptions
pub mod Validation
pub mod Models
