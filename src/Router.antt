-- ===== src/Router.antt =====
-- The package packages/natricine/src/natricine/router.
pub mod Types
pub mod Middleware
pub mod Shutdown
pub mod Core
pub mod Examples
