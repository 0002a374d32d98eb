-- ===== src/Sql/Competing.antt =====
-- Several subscribers of one group on one table, in any order: a step is what a subscriber, a publisher or a reader
-- does up to its next wait (packages/natricine-sql/src/natricine_sql/subscriber.py). Each statement is
-- committed on its own, so a lock that SELECT … FOR UPDATE takes is gone when the rows are returned.
pub mod Deliveries
mod Examples
use natricine.Prelude.{
  ℕ, String, ◌≡◌, ◌⊎◌, Bool, List, [], ◌∷◌, Listed, ◌==◌, nat_eq, if◌then◌else◌,
}
use natricine.Sql.Dialect.{
  Row, Table, Statement, insert, claim_message, ack_message, nack_message, effect, Dialect,
  select_pending,
}

-- `batches i` are the rows that are left in the loop of the subscriber `i`; `delivered` has the subscriber and
-- the id of each row that was yielded, the last first.
pub record Consumers : Type 0 where
  pub table : Table
  pub batches : ℕ → List Row
  pub delivered : List (ℕ × ℕ)

abbrev pub set_batch : ℕ → List Row → (ℕ → List Row) → ℕ → List Row
set_batch i rows batches j = if i == j then rows else batches j

unfoldable pub fetch : Dialect → String → ℕ → ℕ → ℕ → Consumers → Consumers
fetch dialect group limit now i s = record s {
  batches = set_batch i (select_pending dialect group now limit s.table) s.batches;
}

-- The claim of a row, and its `yield`.
unfoldable pub claim_next : ℕ → ℕ → ℕ → Row → List Row → Consumers → Consumers
claim_next ack_deadline now i row rest s = record s {
  table = effect now (claim_message ack_deadline row.id) s.table;
  batches = set_batch i rest s.batches;
  delivered = (i, row.id) ∷ s.delivered;
}

module _ (dialect : Dialect) (group : String) (limit ack_deadline : ℕ) where
  pub data Step (s : Consumers) : Consumers → Type 0 where
    -- the loop over the rows is at its end, and asks for more
    fetches : (i now : ℕ) → s.batches i ≡ [] → Step s (fetch dialect group limit now i s)
    claims :
        (i now : ℕ) (row : Row) (rest : List Row)
        → s.batches i ≡ row ∷ rest
        → Step s (claim_next ack_deadline now i row rest s)
    -- a reader acks or nacks what was delivered to it
    acked :
        (i j now : ℕ)
        → Listed (i, j) s.delivered
        → Step s (record s { table = effect now (ack_message j) s.table })
    nacked :
        (i j now : ℕ)
        → Listed (i, j) s.delivered
        → Step s (record s { table = effect now (nack_message j) s.table })
    published :
        (now : ℕ) (uuid : String) (payload : List ℕ) (metadata other : String)
        → Step s (record s { table = effect now (insert uuid payload metadata other) s.table })

  pub data Steps (s : Consumers) : Consumers → Type 0 where
    here : Steps s s
    next : {t u : Consumers} → Steps s t → Step t u → Steps s u
