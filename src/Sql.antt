-- ===== src/Sql.antt =====
-- packages/natricine-sql: messages in the tables of a database.
pub mod Dialect
pub mod Connection
pub mod Publisher
pub mod Subscriber
pub mod Competing
pub mod Examples
