-- ===== src/Sql/Subscriber/Delivery.antt =====
-- A delivered message and the row that it came from.
use natricine.Prelude.{ℕ, ◌≤◌, ◌≢◌, String, ◌≡◌, refl, ap, ◌∙◌, List, All, string_eq}
use natricine.Prelude.Dict.{Dict}
use natricine.Runtime.{ok}
use natricine.Runtime.Laws.{>>=-eq-ok}
use natricine.Pubsub.Message.{Cell, ack}
use natricine.Sql.Dialect.{
  Row, Statement, claim_message, ack_message, effect, sqlite, postgres, select_pending,
}
use natricine.Sql.Dialect.Redelivery.{effects, acked_never_selected}
use natricine.Sql.Connection.{Connection, ConnectionLaws, Encoding, EncodingLaws, SqlConfig}
use natricine.Sql.Subscriber.{committed, message_of, deliver, read_metadata, read_uuid}

module _ {B : Type 0} (conn : Connection B) (laws : ConnectionLaws conn) where
  table-committed :
      (encoding : Encoding) (config : SqlConfig) (name : String) (s : Statement) (env : B)
      → (committed conn encoding config name s env).0 ≡ ok tt
      → laws.table name (committed conn encoding config name s env).1
        ≡ effect (laws.now env) s (laws.table name env)
  table-committed encoding config name s env h =
      let (u, done, then_) = >>=-eq-ok (conn.execute name s) (λ _. conn.commit) env h in
      ap (λ r. laws.table name r.1) then_
      ∙ laws.table-commit name (conn.execute name s env).1
      ∙ laws.table-execute name s env done

  module _ (encoding : Encoding) (config : SqlConfig) (name : String) where
    metadata_written :
        (text : String) (metadata : Dict String String) (uuid : ℕ)
        (written : EncodingLaws encoding metadata uuid)
        → text ≡ encoding.dumps metadata
        → read_metadata conn encoding config text ≡ ok metadata
    metadata_written text metadata uuid written e = rw (e, written.dumps_ne) (written.loads-dumps)

    uuid_written :
        (text : String) (metadata : Dict String String) (uuid : ℕ) (env : B)
        (written : EncodingLaws encoding metadata uuid)
        → text ≡ encoding.uuid_str uuid
        → read_uuid conn encoding config text env ≡ (ok uuid, env)
    uuid_written text metadata uuid env written e =
        rw (e, written.uuid_str_ne, written.parse_uuid-uuid_str) refl

    -- A row whose columns were written for a metadata and a uuid that `json` and `uuid` read back: if the
    -- claim and its commit return, it is delivered as a message with its payload, that metadata and
    -- that uuid, and the table has the claim.
    pub deliver_lem :
        (row : Row) (metadata : Dict String String) (uuid : ℕ) (env : B)
        (written : EncodingLaws encoding metadata uuid)
        → row.metadata ≡ encoding.dumps metadata
        → row.uuid ≡ encoding.uuid_str uuid
        → (committed conn encoding config name (claim_message config.ack_deadline row.id) env).0
          ≡ ok tt
        → let (r, env') = deliver conn encoding config name row env in
          (r ≡ ok (message_of conn encoding config name row metadata uuid))
          × (laws.table name env'
              ≡ effect
                  (laws.now env)
                  (claim_message config.ack_deadline row.id)
                  (laws.table name env))
    unfolding deliver
    deliver_lem row metadata uuid env written em eu h =
        let t =
          table-committed encoding config name (claim_message config.ack_deadline row.id) env h in
        let m = metadata_written row.metadata metadata uuid written em in
        let u =
          uuid_written row.uuid metadata uuid
            (committed conn encoding config name (claim_message config.ack_deadline row.id) env).1
            written eu in
        rw (h, m, u) (refl, t)

    -- Once the ack of a message that was delivered for a row has returned, no later poll selects a row
    -- with its id, in either dialect, whatever statements follow, if the table has given that id.
    pub ack_ends_delivery :
        (row : Row) (metadata : Dict String String) (uuid : ℕ) (env : B) (ss : List (ℕ × Statement))
        (group : String) (later limit : ℕ)
        → row.id ≤ (laws.table name env).last_id
        → let c : Cell B = record {
          self = message_of conn encoding config name row metadata uuid;
          env = env;
        } in
          (ack c).0 ≡ ok tt
          → let after = effects ss (laws.table name (ack c).1.env) in
            All (λ r. r.id ≢ row.id) (select_pending sqlite group later limit after)
            × All (λ r. r.id ≢ row.id) (select_pending postgres group later limit after)
    unfolding ack
    ack_ends_delivery row metadata uuid env ss group later limit le h =
        rw (table-committed encoding config name (ack_message row.id) env h)
          (acked_never_selected row.id (laws.now env) (laws.table name env) ss group later limit le)
