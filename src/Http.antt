-- ===== src/Http.antt =====
-- packages/natricine-http: messages as HTTP requests.
pub mod Marshaling
pub mod Publisher
pub mod Subscriber
pub mod Queues
pub mod Examples
