-- ===== src/Sql/Publisher/Insertion.antt =====
-- What `publish` leaves in the table.
use natricine.Prelude.{
  ℕ, String, ◌≡◌, refl, sym, ap, ◌∙◌, List, [], ◌∷◌, ◌++◌, map, ◌||◌, not, if_elim,
}
use mathlib.Core.List.{map-append, append_assoc, append-nil}
use natricine.Runtime.{Result, ok, err, cancelled, Exec, pure, recover, ◌>>◌, try_except}
use natricine.Runtime.Laws.{>>=-eq-ok}
use natricine.Pubsub.Message.{Message}
use natricine.Sql.Dialect.{Row, Table, Statement, insert, create_table, create_index, effect}
use natricine.Sql.Connection.{
  Connection, ConnectionLaws, Encoding, SqlConfig, Client, table_name, created, on_backend, create,
  ensure_table,
}
use natricine.Sql.Publisher.{insert_each, publish}

-- The columns that a message fills: uuid, payload, metadata, consumer group.
abbrev pub columns : Row → String × List ℕ × String × String
columns r = (r.uuid, r.payload, r.metadata, r.consumer_group)

module _ {B : Type 0} (conn : Connection B) (laws : ConnectionLaws conn) where
  keeps :
      (name : String) (s : Statement) (env : B) (r : Result (Unit {0}))
      → ((t : Table) → effect (laws.now env) s t ≡ t)
      → (conn.execute name s env).0 ≡ r
      → laws.table name (conn.execute name s env).1 ≡ laws.table name env
  keeps name s env (ok u) same e = laws.table-execute name s env e ∙ same (laws.table name env)
  keeps name s env (err x) same e = laws.table-execute_failed name s env (λ f. cc (e, f))
  keeps name s env cancelled same e = laws.table-execute_failed name s env (λ f. cc (e, f))

  caught : (r : Result (Unit {0})) (env : B) → (recover {S = B} r (λ e. pure tt) env).1 ≡ env
  caught (ok u) env = refl
  caught (err e) env = refl
  caught cancelled env = refl

  -- Creating a table leaves the rows of one that exists.
  table-create :
      (name : String) (env : B)
      → (create conn name env).0 ≡ ok tt
      → laws.table name (create conn name env).1 ≡ laws.table name env
  unfolding effect
  table-create name env h =
      let index : Exec B (Unit {0}) = try_except (conn.execute name create_index) (λ e. pure tt) in
      let (u, made, then_) =
        >>=-eq-ok (conn.execute name create_table) (λ _. index >> conn.commit) env h in
      let env1 = (conn.execute name create_table env).1 in
      let (v, tried, last) =
        >>=-eq-ok index (λ _. conn.commit) env1 (ap (λ r. r.0) (sym then_) ∙ h) in
      ap (λ r. laws.table name r.1) (then_ ∙ last)
      ∙ laws.table-commit name (index env1).1
      ∙ ap (laws.table name)
          (caught (conn.execute name create_index env1).0 (conn.execute name create_index env1).1)
      ∙ keeps name create_index env1 (conn.execute name create_index env1).0 (λ t. refl) refl
      ∙ keeps name create_table env (conn.execute name create_table env).0 (λ t. refl) refl

  module _ (encoding : Encoding) (config : SqlConfig) where
    abbrev pub columns_of : Message B → String × List ℕ × String × String
    columns_of m =
        (encoding.uuid_str m.uuid, m.payload, encoding.dumps m.metadata, config.consumer_group)

    insert_each_lem :
        (name : String) (ms : List (Message B)) (env : B)
        → (insert_each conn encoding config name ms env).0 ≡ ok tt
        → map columns (laws.table name (insert_each conn encoding config name ms env).1).rows
          ≡ map columns (laws.table name env).rows ++ map columns_of ms
    unfolding insert_each effect
    insert_each_lem name [] env h = sym (append-nil (map columns (laws.table name env).rows))
    insert_each_lem name (m ∷ ms) env h =
        let one =
          insert (encoding.uuid_str m.uuid) m.payload (encoding.dumps m.metadata)
            config.consumer_group in
        let (u, done, then_) =
          >>=-eq-ok (conn.execute name one) (λ _. insert_each conn encoding config name ms) env h in
        let rest =
          insert_each_lem name ms (conn.execute name one env).1 (ap (λ r. r.0) (sym then_) ∙ h) in
        let written = laws.table-execute name one env done in
        ap (λ r. map columns (laws.table name r.1).rows) then_
        ∙ rest
        ∙ ap (λ t. map columns t.rows ++ map columns_of ms) written
        ∙ ap (λ cs. cs ++ map columns_of ms) (map-append columns (laws.table name env).rows _)
        ∙ append_assoc (map columns (laws.table name env).rows) (columns_of m ∷ [])
            (map columns_of ms)

    table-ensure_table :
        (topic : String) (s : Client B)
        → (ensure_table conn config topic s).0 ≡ ok tt
        → laws.table (table_name config topic) (ensure_table conn config topic s).1.env
          ≡ laws.table (table_name config topic) s.env
    unfolding ensure_table
    table-ensure_table topic s =
        let name = table_name config topic in
        let mark : Unit {0} → Exec (Client B) (Unit {0}) =
          λ _ t. (ok tt, record t { tables_created = name ∷ t.tables_created }) in
        if_elim
          (λ (r : Result (Unit {0}) × Client B).
            r.0 ≡ ok tt → laws.table name r.1.env ≡ laws.table name s.env)
          (not config.auto_create_tables || created name s.tables_created) (λ _ h. refl)
          (λ _ h.
            let (u, made, then_) = >>=-eq-ok (on_backend (create conn name)) mark s h in
            ap (λ r. laws.table name r.1.env) then_ ∙ table-create name s.env made)

    abbrev open_publish : String → List (Message B) → Exec (Client B) (Unit {0})
    open_publish topic ms = do
      ensure_table conn config topic
      on_backend (insert_each conn encoding config (table_name config topic) ms)
      on_backend conn.commit

    -- What a call that returned says of its topic's table.
    abbrev Inserts : String → List (Message B) → Client B → Result (Unit {0}) × Client B → Type 0
    Inserts topic ms s r =
        r.0 ≡ ok tt
        → map columns (laws.table (table_name config topic) r.1.env).rows
          ≡ map columns (laws.table (table_name config topic) s.env).rows ++ map columns_of ms

    Inserts-open_publish :
        (topic : String) (ms : List (Message B)) (s : Client B)
        → Inserts topic ms s (open_publish topic ms s)
    Inserts-open_publish topic ms s h =
        let name = table_name config topic in
        let insertion : Exec (Client B) (Unit {0}) =
          on_backend (insert_each conn encoding config name ms) in
        let (u, ensured, then_) =
          >>=-eq-ok (ensure_table conn config topic) (λ _. insertion >> on_backend conn.commit) s
            h in
        let s1 = (ensure_table conn config topic s).1 in
        let (v, inserted, last) =
          >>=-eq-ok insertion (λ _. on_backend conn.commit) s1 (ap (λ r. r.0) (sym then_) ∙ h) in
        ap (λ r. map columns (laws.table name r.1.env).rows) (then_ ∙ last)
        ∙ ap (λ t. map columns t.rows) (laws.table-commit name (insertion s1).1.env)
        ∙ insert_each_lem name ms s1.env inserted
        ∙ ap (λ t. map columns t.rows ++ map columns_of ms) (table-ensure_table topic s ensured)

    -- A `publish` that returns has put behind the rows of the topic's table one row for each message, in
    -- order, with its uuid, payload and metadata as text and the group of the configuration.
    pub publish_inserts :
        (topic : String) (ms : List (Message B)) (s : Client B)
        → (publish conn encoding config topic ms s).0 ≡ ok tt
        → let name = table_name config topic in
          map columns (laws.table name (publish conn encoding config topic ms s).1.env).rows
          ≡ map columns (laws.table name s.env).rows ++ map columns_of ms
    unfolding publish
    publish_inserts topic ms s =
        if_elim (Inserts topic ms s) s.is_closed (λ _ h. cc h)
          (λ _. Inserts-open_publish topic ms s)
