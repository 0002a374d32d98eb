-- ===== src/Kafka.antt =====
-- packages/natricine-kafka: messages as records of Kafka.
pub mod Marshaling
pub mod Publisher
pub mod Subscriber
pub mod Examples
