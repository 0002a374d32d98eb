-- ===== src/Sql/Examples.antt =====
-- Tests of natricine-sql, and its theorems at concrete inputs.
use natricine.Prelude.{◌≡◌, ◌≢◌, refl, [], ◌∷◌, arith, inl, All, Listed}
use natricine.Runtime.{ok}
use natricine.Sql.Dialect.{
  Row, Table, claim_message, nack_message, effect, claim, new_row, sqlite, postgres, select_pending,
}
use natricine.Sql.Dialect.Redelivery.{effects, claimed_never_selected, claim_expires}
use natricine.Sql.Connection.{Connection}

abbrev first_row : Row
first_row = new_row 3 1 "7" (1 ∷ 2 ∷ []) "{}" "default"

abbrev orders : Table
orders = record { rows = first_row ∷ new_row 4 2 "7" (5 ∷ []) "{}" "default" ∷ []; last_id = 2 }

-- Of two rows the one that is due first comes first, and the limit is kept.
in_order : select_pending sqlite "default" 9 1 orders ≡ first_row ∷ []
unfolding select_pending sqlite
in_order = refl

-- After its nack a claimed row is selected again.
nack_brings_back :
    select_pending sqlite "default" 9 1 (
      effects ((6, claim_message 30 1) ∷ (6, claim_message 30 2) ∷ (8, nack_message 2) ∷ []) orders)
    ≡ record (new_row 8 2 "7" (5 ∷ []) "{}" "default") { delivery_count = 1 } ∷ []
unfolding select_pending sqlite effect
nack_brings_back = refl

claimed_never_selected_example :
    All
      (λ r. r.id ≢ 1)
      (select_pending sqlite "default" 100 10 (
        effects
          ((7, nack_message 2) ∷ (8, claim_message 30 1) ∷ [])
          (effect 6 (claim_message 30 1) orders)))
claimed_never_selected_example =
    claimed_never_selected 1 6 30 orders ((7, nack_message 2) ∷ (8, claim_message 30 1) ∷ [])
      "default" 100 10 (omega arith) ((λ e. omega arith), (tt, tt))

claim_expires_example :
    Listed
      (claim 6 30 first_row)
      (select_pending postgres "default" 36 10 (effect 6 (claim_message 30 1) orders))
claim_expires_example =
    (claim_expires first_row 6 30 36 10 orders (inl refl) refl (omega arith)).0 (omega arith)

-- A database of one table whose clock stands still.
abbrev database : Connection Table
database = record {
  execute = λ name s t. (ok tt, effect 5 s t);
  fetch_all = λ name group limit t. (ok (select_pending sqlite group 5 limit t), t);
  commit = λ t. (ok tt, t);
  uuid4 = λ t. (9, t);
}
