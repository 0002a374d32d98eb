-- ===== src/Sql/Publisher.antt =====
-- packages/natricine-sql/src/natricine_sql/publisher.py.
pub mod Insertion
use natricine.Prelude.{ℕ, String, Bool, if◌then◌else◌, List, [], ◌∷◌}
use natricine.Runtime.{Exn, error, Result, ok, Exec, pure, raise, ◌>>=◌, ◌>>◌}
use natricine.Pubsub.Message.{Message}
use natricine.Sql.Dialect.{insert}
use natricine.Sql.Connection.{
  Connection, Encoding, SqlConfig, Client, table_name, on_backend, ensure_table,
}

abbrev pub publisher_closed : Exn
publisher_closed = error "RuntimeError" "Publisher is closed"

module _ {B : Type 0} (conn : Connection B) (encoding : Encoding) (config : SqlConfig) where
  -- The loop over the messages.
  unfoldable pub insert_each : String → List (Message B) → Exec B (Unit {0})
  insert_each name [] = pure tt
  insert_each name (m ∷ ms) = do
    conn.execute name (
        insert (encoding.uuid_str m.uuid) m.payload (encoding.dumps m.metadata)
          config.consumer_group)
    insert_each name ms

  unfoldable pub publish : String → List (Message B) → Exec (Client B) (Unit {0})
  publish topic ms s =
      if s.is_closed
      then raise publisher_closed s
      else (do
        ensure_table conn config topic
        on_backend (insert_each (table_name config topic) ms)
        on_backend conn.commit)
          s
