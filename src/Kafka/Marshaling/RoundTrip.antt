-- ===== src/Kafka/Marshaling/RoundTrip.antt =====
-- What is written to headers is read back.
use natricine.Prelude.{
  All, ℕ, ◌≡◌, refl, sym, ap, String, false, ◌==◌, eq_refl, string_eq, Option, none, some, [], ◌∷◌,
  ◌++◌, arith,
}
use mathlib.Core.List.{append-nil, append_assoc}
use natricine.Prelude.Dict.{Dict, get, put}
use natricine.Runtime.{Result, ok, continue}
use natricine.Pubsub.Message.{Message}
use natricine.Kafka.Marshaling.{
  Texts, TextsLaws, Extracted, nothing, encode_each, to_kafka_headers, read_header, read_each,
  from_kafka_headers,
}

-- No key is listed twice, as in every dictionary, and none is one of `taken`.
abbrev pub HasNewKeys : Dict String String → Dict String String → Type 0
HasNewKeys taken [] = Unit
HasNewKeys taken ((key, value) ∷ d) =
    (get key taken ≡ none) × HasNewKeys (taken ++ (key, value) ∷ []) d

put_new :
    (key value : String) (d : Dict String String)
    → get key d ≡ none
    → put key value d ≡ d ++ (key, value) ∷ []
unfolding get put
put_new key value [] h = refl
put_new key value ((k, v) ∷ d) h = ground (arith, put_new key value d, h)

not_there :
    (key k value : String) (d : Dict String String)
    → get k ((key, value) ∷ d) ≡ none
    → ((key == k) ≡ false) × (get k d ≡ none)
unfolding get
not_there key k value d h = (ground (arith, h), ground (arith, h))

module _ (texts : Texts) where
  uuid_read :
      (h : String) (d : Dict String String) (u : ℕ) (laws : TextsLaws texts d u) (s : Extracted)
      → read_header texts h h (texts.encode (texts.uuid_str u)) s
        ≡ (ok tt, record s { uuid_value = some u })
  uuid_read h d u laws s = rw (eq_refl h, laws.uuid_text, laws.parse_uuid-uuid_str) refl

  value_read :
      (h key value : String) (s : Extracted)
      → texts.decode (texts.encode value) ≡ ok value
      → (key == h) ≡ false
      → read_header texts h key (texts.encode value) s
        ≡ (ok tt, record s { metadata = put key value s.metadata })
  value_read h key value s readable ne = rw (ne, readable) refl

  read_each-encode_each :
      (uuid_header : String) (d taken : Dict String String) (u : Option ℕ)
      → All (λ entry. texts.decode (texts.encode entry.1) ≡ ok entry.1) d
      → HasNewKeys taken d
      → get uuid_header d ≡ none
      → read_each texts uuid_header
          (encode_each texts d)
          (record { uuid_value = u; metadata = taken })
        ≡ (ok tt, record { uuid_value = u; metadata = taken ++ d })
  unfolding read_each encode_each get
  read_each-encode_each uuid_header [] taken u values new free =
      ap (λ d. (ok tt, record { uuid_value = u; metadata = d })) (sym (append-nil taken))
  read_each-encode_each uuid_header ((key, value) ∷ d) taken u (readable, values) (fresh, new)
        free =
      let (ne, later) = not_there key uuid_header value d free in
      let rest =
        read_each-encode_each uuid_header d (taken ++ (key, value) ∷ []) u values new later in
      rw
        (
          value_read uuid_header key value (record { uuid_value = u; metadata = taken }) readable
              ne,
          put_new key value taken fresh,
          rest,
          append_assoc taken ((key, value) ∷ []) d,
        )
        refl

  all_read :
      {B : Type 0} (m : Message B) (h : String)
      → TextsLaws texts m.metadata m.uuid
      → HasNewKeys [] m.metadata
      → get h m.metadata ≡ none
      → read_each texts h (to_kafka_headers texts m h) nothing
        ≡ (ok tt, record { uuid_value = some m.uuid; metadata = m.metadata })
  unfolding read_each to_kafka_headers
  all_read m h laws new free =
      rw (uuid_read h m.metadata m.uuid laws nothing)
        (read_each-encode_each h m.metadata [] (some m.uuid) laws.values new free)

  -- The headers that were written for a message give back its uuid and its metadata, if the metadata
  -- does not use the key of the uuid.
  pub from_kafka_headers-to_kafka_headers :
      {B : Type 0} (m : Message B) (uuid_header : String)
      → TextsLaws texts m.metadata m.uuid
      → HasNewKeys [] m.metadata
      → get uuid_header m.metadata ≡ none
      → from_kafka_headers texts (to_kafka_headers texts m uuid_header) uuid_header
        ≡ ok (record { uuid_value = some m.uuid; metadata = m.metadata })
  unfolding from_kafka_headers
  from_kafka_headers-to_kafka_headers m uuid_header laws new free =
      ap
        (λ (r : Result (Unit {0}) × Extracted).
          (continue r.0 (λ _ (s : Extracted). (ok s, s)) r.1).0)
        (all_read m uuid_header laws new free)
