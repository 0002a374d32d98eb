-- ===== src/Sql/Connection.antt =====
-- What natricine-sql takes from a database driver, from `json` and from `uuid`, its settings
-- (packages/natricine-sql/src/natricine_sql/config.py), and what its publisher and its subscriber both do.
use natricine.Prelude.{
  ℕ, ◌≡◌, ◌≢◌, String, Bool, true, false, ◌||◌, not, List, [], ◌∷◌, if◌then◌else◌, ◌==◌, string_eq,
}
use Prim.Native.String.{◌++◌}
use natricine.Prelude.Dict.{Dict}
use natricine.Runtime.{Result, ok, Exec, pure, try_except, ◌>>◌}
use natricine.Sql.Dialect.{Row, Table, Statement, create_table, create_index, effect}

-- A connection: `execute` and `fetch_all` take the table, and the parameters of the query. A commit does
-- nothing where the connection has none.
pub record Connection (B : Type 0) : Type 0 where
  pub execute : String → Statement → Exec B (Unit {0})
  -- select_pending for a group and a limit
  pub fetch_all : String → String → ℕ → Exec B (List Row)
  pub commit : Exec B (Unit {0})
  pub uuid4 : B → ℕ × B

pub record Encoding : Type 0 where
  pub dumps : Dict String String → String
  pub loads : String → Result (Dict String String)
  pub uuid_str : ℕ → String
  pub parse_uuid : String → Result ℕ

-- What the documentation of the driver says: a statement that returns has done what its text says,
-- a failed one nothing, and a connection reads what it wrote.
pub record ConnectionLaws {B : Type 0} (conn : Connection B) : Type 0 where
  pub table : String → B → Table
  pub now : B → ℕ
  pub table-execute :
      (name : String) (s : Statement) (env : B)
      → (conn.execute name s env).0 ≡ ok tt
      → table name (conn.execute name s env).1 ≡ effect (now env) s (table name env)
  pub table-execute_failed :
      (name : String) (s : Statement) (env : B)
      → (conn.execute name s env).0 ≢ ok tt
      → table name (conn.execute name s env).1 ≡ table name env
  pub table-commit : (name : String) (env : B) → table name (conn.commit env).1 ≡ table name env
  pub table-uuid4 : (name : String) (env : B) → table name (conn.uuid4 env).1 ≡ table name env

-- What `json` and `uuid` promise, for one dictionary and one uuid: what was written is read back, and
-- no text of either is empty.
pub record EncodingLaws (encoding : Encoding) (d : Dict String String) (u : ℕ) : Type 0 where
  pub loads-dumps : encoding.loads (encoding.dumps d) ≡ ok d
  pub parse_uuid-uuid_str : encoding.parse_uuid (encoding.uuid_str u) ≡ ok u
  pub dumps_ne : (encoding.dumps d == "") ≡ false
  pub uuid_str_ne : (encoding.uuid_str u == "") ≡ false

pub record SqlConfig : Type 0 where
  pub consumer_group : String
  pub ack_deadline : ℕ
  pub batch_size : ℕ
  pub table_prefix : String
  pub auto_create_tables : Bool

-- The state of a publisher and of a subscriber, with the backend.
pub record Client (B : Type 0) : Type 0 where
  pub is_closed : Bool
  pub tables_created : List String
  pub env : B

abbrev pub table_name : SqlConfig → String → String
table_name config topic = config.table_prefix ++ topic

abbrev pub created : String → List String → Bool
created name [] = false
created name (t ∷ ts) = t == name || created name ts

module _ {B : Type 0} where
  abbrev pub on_backend : {A : Type 0} → Exec B A → Exec (Client B) A
  on_backend act s = let (r, env) = act s.env in (r, record s { env = env })

  abbrev pub close : Client B → Client B
  close s = record s { is_closed = true }

  module _ (conn : Connection B) where
    -- The statements of `_ensure_table`, in order.
    abbrev pub create : String → Exec B (Unit {0})
    create name = do
      conn.execute name create_table
      try_except (conn.execute name create_index) (λ e. pure tt)
      conn.commit

    unfoldable pub ensure_table : SqlConfig → String → Exec (Client B) (Unit {0})
    ensure_table config topic s =
        let name = table_name config topic in
        if not config.auto_create_tables || created name s.tables_created
        then (ok tt, s)
        else (do
          on_backend (create name)
          λ t. (ok tt, record t { tables_created = name ∷ t.tables_created }))
            s
