-- ===== src/Sql/Subscriber.antt =====
-- packages/natricine-sql/src/natricine_sql/subscriber.py. A payload is bytes, as the column's type says.
pub mod Delivery
use natricine.Prelude.{
  ℕ, zero, suc, String, Bool, ◌==◌, string_eq, Option, none, some, if◌then◌else◌, List, [], ◌∷◌,
}
use natricine.Prelude.Dict.{Dict}
use natricine.Runtime.{Exn, error, Result, ok, Exec, pure, raise, lift, ◌>>=◌, ◌>>◌}
use natricine.Pubsub.Message.{Message, AckFunc, fresh}
use natricine.Sql.Dialect.{Row, Statement, claim_message, ack_message, nack_message}
use natricine.Sql.Connection.{
  Connection, Encoding, SqlConfig, Client, table_name, on_backend, ensure_table,
}

abbrev pub subscriber_closed : Exn
subscriber_closed = error "RuntimeError" "Subscriber is closed"

module _ {B : Type 0} (conn : Connection B) (encoding : Encoding) (config : SqlConfig) where
  -- `make_ack` and `make_nack`
  abbrev pub committed : String → Statement → AckFunc B
  committed name s = do conn.execute name s; conn.commit

  abbrev pub read_metadata : String → Result (Dict String String)
  read_metadata text = if text == "" then ok [] else encoding.loads text

  abbrev pub read_uuid : String → Exec B ℕ
  read_uuid text env =
      if text == ""
      then (let (u, env') = conn.uuid4 env in (ok u, env'))
      else (encoding.parse_uuid text, env)

  abbrev pub message_of : String → Row → Dict String String → ℕ → Message B
  message_of name row metadata uuid = record (fresh row.payload metadata uuid) {
    ack_func = some (committed name (ack_message row.id));
    nack_func = some (committed name (nack_message row.id));
  }

  -- The body of the loop over the rows, up to the `yield`.
  unfoldable pub deliver : String → Row → Exec B (Message B)
  deliver name row = do
    committed name (claim_message config.ack_deadline row.id)
    metadata ← lift (read_metadata row.metadata)
    uuid ← read_uuid row.uuid
    pure (message_of name row metadata uuid)

  -- `body` is what the reader of the iterator does with a message before it asks for the next one, and
  -- `sleep` the wait between polls.
  module _ (sleep : Exec B (Unit {0})) (body : Message B → Exec (Client B) (Unit {0})) where
    unfoldable pub deliver_each : String → List Row → Exec (Client B) (Unit {0})
    deliver_each name [] = pure tt
    deliver_each name (row ∷ rows) = do
      m ← on_backend (deliver name row)
      body m
      deliver_each name rows

    abbrev pub after_fetch : String → List Row → Exec (Client B) (Unit {0})
    after_fetch name [] = on_backend sleep
    after_fetch name (row ∷ rows) = deliver_each name (row ∷ rows)

    -- `while not self._closed`, for a number of rounds after which the reader asks no more.
    unfoldable pub polls : ℕ → String → Exec (Client B) (Unit {0})
    polls zero name s = (ok tt, s)
    polls (suc rounds) name s =
        let next =
          (do
            rows ← on_backend (conn.fetch_all name config.consumer_group config.batch_size)
            after_fetch name rows
            polls rounds name)
            s in
        if s.is_closed then (ok tt, s) else next

    -- `subscribe`, and the iterator that it returns.
    unfoldable pub subscribe : ℕ → String → Exec (Client B) (Unit {0})
    subscribe rounds topic s =
        if s.is_closed
        then raise subscriber_closed s
        else (do ensure_table conn config topic; polls rounds (table_name config topic)) s
