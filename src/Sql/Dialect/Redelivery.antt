-- ===== src/Sql/Dialect/Redelivery.antt =====
-- Which rows a later poll selects.
use natricine.Prelude.{
  Listed, ℕ, suc, ◌+◌, ◌≤◌, String, ◌≡◌, ◌≢◌, refl, true, none, List, [], ◌∷◌, nat_eq, string_eq,
  eq_refl, All, arith, length, is_some, ◌<◌,
}
use natricine.Sql.Dialect.{
  Row, Table, Statement, create_table, create_index, insert, claim_message, ack_message,
  nack_message, claim, acknowledge, release, new_row, effect, sqlite, postgres, select_pending,
}
use natricine.Sql.Dialect.Selection.{
  All-select_pending, All-snoc, All-update, All-weaken, Listed-select_pending, Listed-update,
  length-update, marked,
}

-- Statements at their times, in order.
abbrev pub effects : List (ℕ × Statement) → Table → Table
effects [] t = t
effects ((now, s) ∷ ss) t = effects ss (effect now s t)

-- The id has been given, and every row that has it meets `P`.
abbrev pub HoldsAt : (Row → Type 0) → ℕ → Table → Type 0
HoldsAt P i t = (i ≤ t.last_id) × All (λ r. r.id ≡ i → P r) t.rows

abbrev IsClaimed : Row → Type 0
IsClaimed r = is_some r.claimed_at ≡ true

abbrev pub IsAcked : Row → Type 0
IsAcked r = is_some r.acked_at ≡ true

-- The statement does not nack the row.
abbrev pub IsNotNackOf : ℕ → Statement → Type 0
IsNotNackOf i (nack_message j) = j ≢ i
IsNotNackOf i s = Unit

-- A row that is claimed stays claimed under everything but its own nack.
HoldsAt-IsClaimed :
    (i now : ℕ) (s : Statement) (t : Table)
    → IsNotNackOf i s
    → HoldsAt IsClaimed i t
    → HoldsAt IsClaimed i (effect now s t)
unfolding effect
HoldsAt-IsClaimed i now create_table t n h = h
HoldsAt-IsClaimed i now create_index t n h = h
HoldsAt-IsClaimed i now (insert uuid payload metadata group) t n (le, h) = (
  omega arith,
  All-snoc _ t.rows (new_row now (suc t.last_id) uuid payload metadata group) h
      (λ e. let no : ⊥ = omega arith in elim no [ ]),
)
HoldsAt-IsClaimed i now (claim_message d j) t n (le, h) =
    (le, All-update _ (claim now d) j t.rows (λ r e p same. refl) h)
HoldsAt-IsClaimed i now (ack_message j) t n (le, h) =
    (le, All-update _ (acknowledge now) j t.rows (λ r e p same. p same) h)
HoldsAt-IsClaimed i now (nack_message j) t n (le, h) =
    (le, All-update _ (release now) j t.rows (λ r e p same. elim (n (cc (e, same))) [ ]) h)

-- A row that is acked stays acked.
pub HoldsAt-IsAcked :
    (i now : ℕ) (s : Statement) (t : Table)
    → HoldsAt IsAcked i t
    → HoldsAt IsAcked i (effect now s t)
unfolding effect
HoldsAt-IsAcked i now create_table t h = h
HoldsAt-IsAcked i now create_index t h = h
HoldsAt-IsAcked i now (insert uuid payload metadata group) t (le, h) = (
  omega arith,
  All-snoc _ t.rows (new_row now (suc t.last_id) uuid payload metadata group) h
      (λ e. let no : ⊥ = omega arith in elim no [ ]),
)
HoldsAt-IsAcked i now (claim_message d j) t (le, h) =
    (le, All-update _ (claim now d) j t.rows (λ r e p same. p same) h)
HoldsAt-IsAcked i now (ack_message j) t (le, h) =
    (le, All-update _ (acknowledge now) j t.rows (λ r e p same. refl) h)
HoldsAt-IsAcked i now (nack_message j) t (le, h) =
    (le, All-update _ (release now) j t.rows (λ r e p same. p same) h)

HoldsAt-effects-IsClaimed :
    (i : ℕ) (ss : List (ℕ × Statement)) (t : Table)
    → All (λ s. IsNotNackOf i s.1) ss
    → HoldsAt IsClaimed i t
    → HoldsAt IsClaimed i (effects ss t)
HoldsAt-effects-IsClaimed i [] t n h = h
HoldsAt-effects-IsClaimed i ((now, s) ∷ ss) t (n, ns) h =
    HoldsAt-effects-IsClaimed i ss (effect now s t) ns (HoldsAt-IsClaimed i now s t n h)

HoldsAt-effects-IsAcked :
    (i : ℕ) (ss : List (ℕ × Statement)) (t : Table)
    → HoldsAt IsAcked i t
    → HoldsAt IsAcked i (effects ss t)
HoldsAt-effects-IsAcked i [] t h = h
HoldsAt-effects-IsAcked i ((now, s) ∷ ss) t h =
    HoldsAt-effects-IsAcked i ss (effect now s t) (HoldsAt-IsAcked i now s t h)

claimed_not_pending : (group : String) (now : ℕ) (r : Row) → IsClaimed r → sqlite group now r ≢ true
unfolding sqlite
claimed_not_pending group now r h e = ground (arith, h, e)

-- In SQLite a row that was claimed, with an id that the table has given, is never selected again by
-- any poll at any time, whatever statements follow at whatever times, unless one of them nacks it.
pub claimed_never_selected :
    (i claimed_at ack_deadline : ℕ) (t : Table) (ss : List (ℕ × Statement)) (group : String)
    (now limit : ℕ)
    → i ≤ t.last_id
    → All (λ s. IsNotNackOf i s.1) ss
    → All
        (λ r. r.id ≢ i)
        (select_pending sqlite group now limit
          (effects ss (effect claimed_at (claim_message ack_deadline i) t)))
unfolding effect
claimed_never_selected i claimed_at ack_deadline t ss group now limit le n =
    All-select_pending _ sqlite group now limit _ (
      All-weaken _ (λ r held e same. claimed_not_pending group now r (held same) e)
        (HoldsAt-effects-IsClaimed i ss _ n
          (le, marked IsClaimed (claim claimed_at ack_deadline) i t.rows (λ r e. refl))).1)

pub acked_not_pending :
    (group : String) (now : ℕ) (r : Row)
    → IsAcked r
    → (sqlite group now r ≢ true) × (postgres group now r ≢ true)
unfolding sqlite postgres
acked_not_pending group now r h = (λ e. ground (arith, h, e), λ e. ground (arith, h, e))

-- In both dialects a row that was acked, with an id that the table has given, is never selected again,
-- whatever statements follow.
pub acked_never_selected :
    (i acked_at : ℕ) (t : Table) (ss : List (ℕ × Statement)) (group : String) (now limit : ℕ)
    → i ≤ t.last_id
    → let after = effects ss (effect acked_at (ack_message i) t) in
      All (λ r. r.id ≢ i) (select_pending sqlite group now limit after)
      × All (λ r. r.id ≢ i) (select_pending postgres group now limit after)
unfolding effect
acked_never_selected i acked_at t ss group now limit le =
    let held =
      (HoldsAt-effects-IsAcked i ss _
        (le, marked IsAcked (acknowledge acked_at) i t.rows (λ r e. refl))).1 in
    (
      All-select_pending _ sqlite group now limit _
          (All-weaken _ (λ r h e same. (acked_not_pending group now r (h same)).0 e) held),
      All-select_pending _ postgres group now limit _
          (All-weaken _ (λ r h e same. (acked_not_pending group now r (h same)).1 e) held),
    )

due_postgres :
    (now : ℕ) (x : Row)
    → x.acked_at ≡ none
    → x.next_delivery_at ≤ now
    → postgres x.consumer_group now x ≡ true
unfolding postgres
due_postgres now x unacked due = rw (eq_refl x.consumer_group, unacked) (ground (arith, due))

selected_due :
    (group : String) (now : ℕ) (x : Row) → postgres group now x ≡ true → x.next_delivery_at ≤ now
unfolding postgres
selected_due group now x h = ground (arith, h)

-- In PostgreSQL, once a row of the table that is not acked is claimed, it is selected by every poll of its
-- group from the deadline of the claim on, if the limit is not below the number of rows, and no row
-- with its id is selected before.
pub claim_expires :
    (x : Row) (claimed_at ack_deadline now limit : ℕ) (t : Table)
    → Listed x t.rows
    → x.acked_at ≡ none
    → length t.rows ≤ limit
    → let after = effect claimed_at (claim_message ack_deadline x.id) t in
      (claimed_at + ack_deadline ≤ now
        → Listed
            (claim claimed_at ack_deadline x)
            (select_pending postgres x.consumer_group now limit after))
      × (now < claimed_at + ack_deadline
          → All (λ r. r.id ≢ x.id) (select_pending postgres x.consumer_group now limit after))
unfolding effect
claim_expires x claimed_at ack_deadline now limit t h unacked room = (
  (λ due.
      Listed-select_pending postgres x.consumer_group now limit _ (claim claimed_at ack_deadline x)
        (due_postgres now (claim claimed_at ack_deadline x) unacked due)
        (Listed-update (claim claimed_at ack_deadline) x t.rows h) (rw length-update room)),
  (λ early. All-select_pending _ postgres x.consumer_group now limit _ (
      All-weaken _
        (λ r late passes same.
          let due = selected_due x.consumer_group now r passes in
          let later = late same in omega arith)
        (marked (λ r. claimed_at + ack_deadline ≤ r.next_delivery_at)
          (claim claimed_at ack_deadline) x.id t.rows (λ r e. omega arith)))),
)
