-- ===== src/Router/Middleware.antt =====
-- packages/natricine/src/natricine/router/middleware.py.
pub mod Retry
pub mod Poison
