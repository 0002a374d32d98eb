-- ===== src/Sql/Dialect.antt =====
-- packages/natricine-sql/src/natricine_sql/dialect.py: what the queries of the two dialects do to a
-- table. Times are seconds; the column `created_at`, which no query reads, is left out.
pub mod Selection
pub mod Redelivery
use natricine.Prelude.{
  ℕ, zero, suc, ◌+◌, String, Bool, true, false, ◌&&◌, ◌||◌, not, Option, none, some, List, [], ◌∷◌,
  ◌++◌, if◌then◌else◌, ltb, leb, ◌==◌, nat_eq, string_eq, is_some,
}

pub record Row : Type 0 where
  pub id : ℕ
  pub uuid : String
  pub payload : List ℕ
  pub metadata : String
  pub consumer_group : String
  pub claimed_at : Option ℕ
  pub acked_at : Option ℕ
  pub delivery_count : ℕ
  pub next_delivery_at : ℕ

-- The rows in the order of their insertion, and the highest id that was given.
pub record Table : Type 0 where
  pub rows : List Row
  pub last_id : ℕ

-- The queries that change a table, with their parameters.
pub data Statement : Type 0 where
  create_table : Statement
  create_index : Statement
  insert : String → List ℕ → String → String → Statement
  claim_message : ℕ → ℕ → Statement
  ack_message : ℕ → Statement
  nack_message : ℕ → Statement

abbrev pub claim : ℕ → ℕ → Row → Row
claim now ack_deadline r = record r {
  claimed_at = some now;
  next_delivery_at = now + ack_deadline;
  delivery_count = r.delivery_count + 1;
}

abbrev pub acknowledge : ℕ → Row → Row
acknowledge now r = record r { acked_at = some now }

abbrev pub release : ℕ → Row → Row
release now r = record r { next_delivery_at = now; claimed_at = none }

-- UPDATE t SET … WHERE id = ?
abbrev pub update : (Row → Row) → ℕ → List Row → List Row
update set i [] = []
update set i (r ∷ rs) = (if r.id == i then set r else r) ∷ update set i rs

-- A new row, with the defaults of the columns.
abbrev pub new_row : ℕ → ℕ → String → List ℕ → String → String → Row
new_row now i uuid payload metadata group = record {
  id = i;
  uuid = uuid;
  payload = payload;
  metadata = metadata;
  consumer_group = group;
  claimed_at = none;
  acked_at = none;
  delivery_count = 0;
  next_delivery_at = now;
}

-- What a statement does at a time, in either dialect.
unfoldable pub effect : ℕ → Statement → Table → Table
effect now create_table t = t
effect now create_index t = t
effect now (insert uuid payload metadata group) t = record {
  rows = t.rows ++ new_row now (suc t.last_id) uuid payload metadata group ∷ [];
  last_id = suc t.last_id;
}
effect now (claim_message ack_deadline i) t = record t {
  rows = update (claim now ack_deadline) i t.rows;
}
effect now (ack_message i) t = record t { rows = update (acknowledge now) i t.rows }
effect now (nack_message i) t = record t { rows = update (release now) i t.rows }

-- The condition of a dialect's `select_pending`, for a group and a time.
abbrev pub Dialect : Type 0
Dialect = String → ℕ → Row → Bool

unfoldable pub sqlite : Dialect
sqlite group now r =
    r.consumer_group == group
    && leb r.next_delivery_at now
    && not (is_some r.acked_at)
    && not (is_some r.claimed_at)

unfoldable pub postgres : Dialect
postgres group now r =
    r.consumer_group == group && leb r.next_delivery_at now && not (is_some r.acked_at)

-- WHERE, ORDER BY next_delivery_at, id, and LIMIT
abbrev pub where_rows : (Row → Bool) → List Row → List Row
where_rows test [] = []
where_rows test (r ∷ rs) = if test r then r ∷ where_rows test rs else where_rows test rs

abbrev pub comes_before : Row → Row → Bool
comes_before a b =
    ltb a.next_delivery_at b.next_delivery_at
    || (a.next_delivery_at == b.next_delivery_at && leb a.id b.id)

abbrev pub insert_row : Row → List Row → List Row
insert_row r [] = r ∷ []
insert_row r (s ∷ rs) = if comes_before r s then r ∷ s ∷ rs else s ∷ insert_row r rs

abbrev pub order_rows : List Row → List Row
order_rows [] = []
order_rows (r ∷ rs) = insert_row r (order_rows rs)

abbrev pub limit_rows : ℕ → List Row → List Row
limit_rows zero rs = []
limit_rows (suc n) [] = []
limit_rows (suc n) (r ∷ rs) = r ∷ limit_rows n rs

unfoldable pub select_pending : Dialect → String → ℕ → ℕ → Table → List Row
select_pending dialect group now limit t =
    limit_rows limit (order_rows (where_rows (dialect group now) t.rows))
