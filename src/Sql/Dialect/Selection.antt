-- ===== src/Sql/Dialect/Selection.antt =====
-- What the lists behind `select_pending` and UPDATE keep.
use natricine.Prelude.{
  Listed, ℕ, zero, suc, ◌≤◌, String, ◌≡◌, refl, Bool, true, List, [], ◌∷◌, ◌++◌, ◌==◌, nat_eq,
  string_eq, eq_iff, All, if_elim, arith, length, inl, inr, sym, ap, ◌∙◌,
}
use natricine.Sql.Dialect.{
  Row, Table, update, Dialect, where_rows, comes_before, insert_row, order_rows, limit_rows,
  select_pending,
}

module _ (P : Row → Type 0) where
  pub All-update :
      (set : Row → Row) (i : ℕ) (rs : List Row)
      → ((r : Row) → r.id ≡ i → P r → P (set r))
      → All P rs
      → All P (update set i rs)
  All-update set i [] keeps h = tt
  All-update set i (r ∷ rs) keeps (p, h) = (
    if_elim P (r.id == i) (λ e. keeps r ((eq_iff r.id i).0 e) p) (λ _. p),
    All-update set i rs keeps h,
  )

  pub All-snoc : (rs : List Row) (r : Row) → All P rs → P r → All P (rs ++ r ∷ [])
  All-snoc [] r h p = (p, tt)
  All-snoc (s ∷ rs) r (q, h) p = (q, All-snoc rs r h p)

  pub All-where_rows :
      (test : Row → Bool) (rs : List Row)
      → All (λ r. test r ≡ true → P r) rs
      → All P (where_rows test rs)
  All-where_rows test [] h = tt
  All-where_rows test (r ∷ rs) (p, h) =
      let rest = All-where_rows test rs h in
      if_elim (All P) (test r) {x = r ∷ where_rows test rs} {y = where_rows test rs}
        (λ e. (p e, rest)) (λ _. rest)

  pub All-insert_row : (r : Row) (rs : List Row) → P r → All P rs → All P (insert_row r rs)
  All-insert_row r [] p h = (p, tt)
  All-insert_row r (s ∷ rs) p (q, h) =
      let rest = All-insert_row r rs p h in
      if_elim (All P) (comes_before r s) {x = r ∷ s ∷ rs} {y = s ∷ insert_row r rs}
        (λ _. (p, (q, h))) (λ _. (q, rest))

  pub All-order_rows : (rs : List Row) → All P rs → All P (order_rows rs)
  All-order_rows [] h = tt
  All-order_rows (r ∷ rs) (p, h) = All-insert_row r (order_rows rs) p (All-order_rows rs h)

  pub All-limit_rows : (n : ℕ) (rs : List Row) → All P rs → All P (limit_rows n rs)
  All-limit_rows zero rs h = tt
  All-limit_rows (suc n) [] h = tt
  All-limit_rows (suc n) (r ∷ rs) (p, h) = (p, All-limit_rows n rs h)

  pub All-select_pending :
      (dialect : Dialect) (group : String) (now limit : ℕ) (t : Table)
      → All (λ r. dialect group now r ≡ true → P r) t.rows
      → All P (select_pending dialect group now limit t)
  unfolding select_pending
  All-select_pending dialect group now limit t h =
      All-limit_rows limit (order_rows (where_rows (dialect group now) t.rows)) (
        All-order_rows (where_rows (dialect group now) t.rows)
          (All-where_rows (dialect group now) t.rows h))

module _ {P Q : Row → Type 0} where
  pub All-weaken : (rs : List Row) → ((r : Row) → P r → Q r) → All P rs → All Q rs
  All-weaken [] f h = tt
  All-weaken (r ∷ rs) f (p, h) = (f r p, All-weaken rs f h)

pub marked :
    (Q : Row → Type 0) (set : Row → Row) (i : ℕ) (rs : List Row)
    → ((r : Row) → r.id ≡ i → Q (set r))
    → All (λ r. r.id ≡ i → Q r) (update set i rs)
marked Q set i [] h = tt
marked Q set i (r ∷ rs) h = (
  if_elim (λ s. s.id ≡ i → Q s) (r.id == i) (λ e _. h r ((eq_iff r.id i).0 e))
      (λ e same. let no : ⊥ = ground (arith, eq_iff r.id i, e, same) in elim no [ ]),
  marked Q set i rs h,
)

-- Every row that the limit leaves room for is selected.
pub Listed-insert_row_self : (r : Row) (rs : List Row) → Listed r (insert_row r rs)
Listed-insert_row_self r [] = inl refl
Listed-insert_row_self r (s ∷ rs) =
    let rest = Listed-insert_row_self r rs in
    if_elim (Listed r) (comes_before r s) {x = r ∷ s ∷ rs} {y = s ∷ insert_row r rs} (λ _. inl refl)
      (λ _. inr rest)

pub Listed-insert_row : (x r : Row) (rs : List Row) → Listed x rs → Listed x (insert_row r rs)
Listed-insert_row x r (s ∷ rs) h =
    let rest : Listed x rs → Listed x (insert_row r rs) = Listed-insert_row x r rs in
    if_elim (Listed x) (comes_before r s) {x = r ∷ s ∷ rs} {y = s ∷ insert_row r rs} (λ _. inr h)
      (λ _. elim h [ inl e ↦ inl e | inr later ↦ inr (rest later) ])
Listed-insert_row x r [] h = elim h [ ]

pub Listed-order_rows : (x : Row) (rs : List Row) → Listed x rs → Listed x (order_rows rs)
Listed-order_rows x (r ∷ rs) (inl e) = rw e (Listed-insert_row_self r (order_rows rs))
Listed-order_rows x (r ∷ rs) (inr h) =
    Listed-insert_row x r (order_rows rs) (Listed-order_rows x rs h)
Listed-order_rows x [] h = elim h [ ]

pub Listed-where_rows :
    (test : Row → Bool) (x : Row) (rs : List Row)
    → test x ≡ true
    → Listed x rs
    → Listed x (where_rows test rs)
Listed-where_rows test x (r ∷ rs) passes (inl e) =
    let kept : test r ≡ true = ap test (sym e) ∙ passes in rw kept (inl e)
Listed-where_rows test x (r ∷ rs) passes (inr h) =
    let rest = Listed-where_rows test x rs passes h in
    if_elim (Listed x) (test r) {x = r ∷ where_rows test rs} {y = where_rows test rs}
      (λ _. inr rest) (λ _. rest)
Listed-where_rows test x [] passes h = elim h [ ]

pub length-insert_row : (r : Row) (rs : List Row) → length (insert_row r rs) ≡ suc (length rs)
length-insert_row r [] = refl
length-insert_row r (s ∷ rs) = ground (arith, length-insert_row r rs)

pub length-order_rows : (rs : List Row) → length (order_rows rs) ≡ length rs
length-order_rows [] = refl
length-order_rows (r ∷ rs) =
    ground (arith, length-order_rows rs, length-insert_row r (order_rows rs))

pub length-where_rows :
    (test : Row → Bool) (rs : List Row) → length (where_rows test rs) ≤ length rs
length-where_rows test [] = omega arith
length-where_rows test (r ∷ rs) = ground (arith, length-where_rows test rs)

pub length-update : (set : Row → Row) (i : ℕ) (rs : List Row) → length (update set i rs) ≡ length rs
length-update set i [] = refl
length-update set i (r ∷ rs) = ap suc (length-update set i rs)

pub limit_rows_all : (n : ℕ) (rs : List Row) → length rs ≤ n → limit_rows n rs ≡ rs
limit_rows_all zero [] le = refl
limit_rows_all zero (r ∷ rs) le = let no : ⊥ = omega arith in elim no [ ]
limit_rows_all (suc n) [] le = refl
limit_rows_all (suc n) (r ∷ rs) le = ap (λ s. r ∷ s) (limit_rows_all n rs (omega arith))

pub Listed-select_pending :
    (dialect : Dialect) (group : String) (now limit : ℕ) (t : Table) (x : Row)
    → dialect group now x ≡ true
    → Listed x t.rows
    → length t.rows ≤ limit
    → Listed x (select_pending dialect group now limit t)
unfolding select_pending
Listed-select_pending dialect group now limit t x passes h le =
    rw
      (limit_rows_all limit (order_rows (where_rows (dialect group now) t.rows)) (
        omega (
          arith,
          length-order_rows (where_rows (dialect group now) t.rows),
          length-where_rows (dialect group now) t.rows,
        )))
      (Listed-order_rows x (where_rows (dialect group now) t.rows)
        (Listed-where_rows (dialect group now) x t.rows passes h))

pub Listed-update :
    (set : Row → Row) (x : Row) (rs : List Row) → Listed x rs → Listed (set x) (update set x.id rs)
Listed-update set x (r ∷ rs) (inl e) =
    let same : (r.id == x.id) ≡ true = (eq_iff r.id x.id).1 (ap (λ y. y.id) (sym e)) in
    rw same (inl (ap set e))
Listed-update set x (r ∷ rs) (inr h) = inr (Listed-update set x rs h)
Listed-update set x [] h = elim h [ ]
