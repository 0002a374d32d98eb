-- ===== src/Router/Middleware/Retry/Bound.antt =====
-- How often `retry` calls the handler.
use natricine.Pubsub.Message.{Message}
use natricine.Pubsub.World.{World}
