-- ===== src/Otel/Propagation/Injection.antt =====
-- What `inject_context` leaves of a message.
use natricine.Prelude.{
  is_some, String, ◌≡◌, refl, sym, ap, ◌∙◌, false, Bool-cases, inl, inr, Option, none, some, [],
  ◌∷◌, ◌==◌, string_eq, eq_iff,
}
use natricine.Prelude.Dict.{Dict, get, put, get-put, contains, HasKeysOnce}
use natricine.Pubsub.Message.{Message}
use natricine.Otel.Propagation.{merge, inject_context}

-- The first option, or else the second.
abbrev pub or_else : Option String → Option String → Option String
or_else none o = o
or_else (some s) o = some s

absent : (o : Option String) (s : String) → is_some o ≡ false → or_else o (some s) ≡ some s
absent none s h = refl
absent (some t) s h = cc h

get-merge :
    (k : String) (d carrier : Dict String String)
    → HasKeysOnce carrier
    → get k (merge d carrier) ≡ or_else (get k carrier) (get k d)
unfolding merge get
get-merge k d [] once = refl
get-merge k d ((key, value) ∷ carrier) (new, once) =
    get-merge k (put key value d) carrier once
    ∙ ap (or_else (get k carrier)) (get-put key k value d)
    ∙ elim (Bool-cases (key == k)) [
      | inl same ↦ rw same (
          absent (get k carrier) value
            (ap (λ j. contains j carrier) (sym ((eq_iff key k).0 same)) ∙ new))
      | inr other ↦ rw other refl
    ]

-- A message with an injected context has the payload and the uuid that it had, and its metadata but for what the
-- carrier says.
pub inject_context_lem :
    {B : Type 0} (carrier : Dict String String) (m : Message B)
    → HasKeysOnce carrier
    → let m' = inject_context carrier m in
      (m'.payload ≡ m.payload)
      × (m'.uuid ≡ m.uuid)
      × ((k : String) → get k m'.metadata ≡ or_else (get k carrier) (get k m.metadata))
unfolding inject_context get
inject_context_lem [] m once = (refl, refl, λ k. refl)
inject_context_lem (entry ∷ carrier) m once =
    (refl, refl, λ k. get-merge k m.metadata (entry ∷ carrier) once)
