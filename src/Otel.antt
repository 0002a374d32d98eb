-- ===== src/Otel.antt =====
-- packages/natricine-otel/src/natricine_otel.
pub mod Propagation
pub mod Tracing
pub mod Metrics
mod Examples
