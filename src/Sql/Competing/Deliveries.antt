-- ===== src/Sql/Competing/Deliveries.antt =====
-- How often a row is delivered.
use natricine.Prelude.{ℕ, String, ◌≡◌, ◌≢◌, refl, true, List, [], ◌∷◌, ◌++◌, All, nat_eq}
use natricine.Sql.Dialect.{Row, Dialect, select_pending, sqlite, postgres}
use natricine.Sql.Dialect.Redelivery.{HoldsAt, IsAcked, acked_not_pending}
use natricine.Sql.Competing.{Consumers, fetch, claim_next, fetches, claims, Steps, here, next}

-- The dialect selects no row that is acked.
abbrev SkipsAcked : Dialect → Type 0
SkipsAcked dialect = (group : String) (now : ℕ) (r : Row) → IsAcked r → dialect group now r ≢ true

-- The row is acked, and no subscriber has it in its batch.
abbrev IsGone : ℕ → Consumers → Type 0
IsGone j s = HoldsAt IsAcked j s.table × ((i : ℕ) → All (λ r. r.id ≢ j) (s.batches i))

module _ (dialect : Dialect) (skips : SkipsAcked dialect) (group : String)
    (limit ack_deadline : ℕ) where
  -- What is delivered from one state to another: nothing of it is the row.
  abbrev Passes : ℕ → Consumers → Consumers → Type 0
  Passes j s t =
      (more : List (ℕ × ℕ)) × (t.delivered ≡ more ++ s.delivered) × All (λ d. d.1 ≢ j) more

-- Two subscribers of one group, both at the end of their batches, can each be delivered the same row, in
-- either dialect: the first row that is pending is claimed twice if both fetch before one claims.
pub delivered_twice :
    (dialect : Dialect) (group : String) (limit ack_deadline now : ℕ) (s : Consumers) (row : Row)
    (rest : List Row)
    → s.batches 0 ≡ []
    → s.batches 1 ≡ []
    → select_pending dialect group now limit s.table ≡ row ∷ rest
    → (t : Consumers) × Steps dialect group limit ack_deadline s t
      × (t.delivered ≡ (1, row.id) ∷ (0, row.id) ∷ s.delivered)
unfolding fetch claim_next
delivered_twice dialect group limit ack_deadline now s row rest first second pending =
    let one = fetch dialect group limit now 0 s in
    let two = fetch dialect group limit now 1 one in
    let three = claim_next ack_deadline now 0 row rest two in
    (
      claim_next ack_deadline now 1 row rest three,
      next
          (next (next (next here (fetches 0 now first)) (fetches 1 now second))
            (claims 0 now row rest pending))
          (claims 1 now row rest pending),
      refl,
    )

pub sqlite-SkipsAcked : SkipsAcked sqlite
sqlite-SkipsAcked group now r h = (acked_not_pending group now r h).0

pub postgres-SkipsAcked : SkipsAcked postgres
postgres-SkipsAcked group now r h = (acked_not_pending group now r h).1
