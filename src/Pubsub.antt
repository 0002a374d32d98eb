-- ===== src/Pubsub.antt =====
-- The package packages/natricine/src/natricine/pubsub.
pub mod Message
pub mod World
pub mod Memory
pub mod Examples
