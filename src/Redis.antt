-- ===== src/Redis.antt =====
-- packages/natricine-redisstream/src/natricine_redis.
pub mod Entry
pub mod Publisher
pub mod Subscriber
pub mod Group
mod Examples
