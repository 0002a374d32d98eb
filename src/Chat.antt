-- ===== src/Chat.antt =====
-- examples/chat/src/chat_example: an application of the command bus and the event bus.
pub mod Models
pub mod Store
pub mod Handlers
pub mod App
mod Examples
