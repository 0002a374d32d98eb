-- ===== src/Redis/Group.antt =====
-- The abstract view of a consumer of a group: the entries that it has been given and has not acked, and those
-- that the group has given to no one yet. What the rounds of the subscriber come to on it.
pub mod Draining
use natricine.Prelude.{
  ℕ, zero, suc, ◌+◌, ◌-◌, ◌*◌, ◌≤◌, String, ◌≡◌, refl, sym, ap, ◌∙◌, Bool, true, false,
  if◌then◌else◌, ◌==◌, string_eq, eq_refl, List, [], ◌∷◌, ◌++◌, length, take, drop,
  append-take-drop, length-drop, All, if_elim, arith,
}

pub record Group (E : Type 0) : Type 0 where
  pub pending : List E
  pub unread : List E

module _ {E : Type 0} (mid : E → String) where
  -- XACK: the entry with an id is pending no more.
  unfoldable pub remove : String → List E → List E
  remove k [] = []
  remove k (e ∷ es) = let rest = remove k es in if mid e == k then rest else e ∷ rest

  module _ (accepts : E → Bool) where
    -- What the reader does with an entry that is delivered.
    abbrev pub settle_entry : E → List E → List E
    settle_entry e pending = if accepts e then remove (mid e) pending else pending

    abbrev pub settle_entries : List E → List E → List E
    settle_entries [] pending = pending
    settle_entries (e ∷ es) pending = settle_entries es (settle_entry e pending)

    -- Up to `count` pending entries are delivered, and then up to `count` new ones.
    abbrev pub round : ℕ → Group E → Group E
    round count g =
        let left = settle_entries (take count g.pending) g.pending in
        let new = take count g.unread in
        record { pending = settle_entries new (left ++ new); unread = drop count g.unread }

    abbrev pub rounds : ℕ → ℕ → Group E → Group E
    rounds count zero g = g
    rounds count (suc n) g = rounds count n (round count g)
