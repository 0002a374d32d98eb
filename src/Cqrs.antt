-- ===== src/Cqrs.antt =====
-- The package packages/natricine/src/natricine/cqrs.
pub mod Types
pub mod Depends
pub mod Handling
pub mod CommandBus
pub mod EventBus
pub mod Routers
pub mod Interleaving
pub mod Examples
