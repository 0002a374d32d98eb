-- ===== src/Redis/Entry/Written.antt =====
-- The dictionary of the two or three fields of an entry.
use natricine.Prelude.{String, ◌≡◌, refl, false, ◌==◌, string_eq, eq_refl, none, some, [], ◌∷◌}
use natricine.Prelude.Dict.{Dict, get, put}
use natricine.Redis.Entry.{Keys}

-- The keys of the three fields differ.
pub record AreDistinct (keys : Keys) : Type 0 where
  pub uuid_payload : (keys.uuid_key == keys.payload_key) ≡ false
  pub uuid_metadata : (keys.uuid_key == keys.metadata_key) ≡ false
  pub payload_metadata : (keys.payload_key == keys.metadata_key) ≡ false

module _ (keys : Keys) where
  abbrev pub two : {V : Type 0} → V → V → Dict String V
  two u p = (keys.uuid_key, u) ∷ (keys.payload_key, p) ∷ []

  abbrev pub three : {V : Type 0} → V → V → V → Dict String V
  three u p d = (keys.uuid_key, u) ∷ (keys.payload_key, p) ∷ (keys.metadata_key, d) ∷ []

module _ (keys : Keys) (distinct : AreDistinct keys) where
  pub put-two :
      {V : Type 0} (u p : V) → put keys.payload_key p (put keys.uuid_key u []) ≡ two keys u p
  unfolding put
  put-two u p = rw distinct.uuid_payload refl

  pub put-three :
      {V : Type 0} (u p d : V) → put keys.metadata_key d (two keys u p) ≡ three keys u p d
  unfolding put
  put-three u p d = rw (distinct.uuid_metadata, distinct.payload_metadata) refl

  pub get_uuid :
      {V : Type 0} (u : V) (d : Dict String V) → get keys.uuid_key ((keys.uuid_key, u) ∷ d) ≡ some u
  unfolding get
  get_uuid u d = rw (eq_refl keys.uuid_key) refl

  pub get_payload :
      {V : Type 0} (u p : V) (d : Dict String V)
      → get keys.payload_key ((keys.uuid_key, u) ∷ (keys.payload_key, p) ∷ d) ≡ some p
  unfolding get
  get_payload u p d = rw (distinct.uuid_payload, eq_refl keys.payload_key) refl

  pub get_metadata_missing : {V : Type 0} (u p : V) → get keys.metadata_key (two keys u p) ≡ none
  unfolding get
  get_metadata_missing u p = rw (distinct.uuid_metadata, distinct.payload_metadata) refl

  pub get_metadata : {V : Type 0} (u p d : V) → get keys.metadata_key (three keys u p d) ≡ some d
  unfolding get
  get_metadata u p d =
      rw (distinct.uuid_metadata, distinct.payload_metadata, eq_refl keys.metadata_key) refl
