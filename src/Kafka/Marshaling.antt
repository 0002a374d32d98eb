-- ===== src/Kafka/Marshaling.antt =====
-- packages/natricine-kafka/src/natricine_kafka/marshaling.py.
pub mod RoundTrip
use natricine.Prelude.{
  All, ℕ, ◌≡◌, String, Bool, if◌then◌else◌, ◌==◌, string_eq, Option, none, some, List, [], ◌∷◌,
}
use natricine.Prelude.Dict.{Dict, put}
use natricine.Runtime.{Result, ok, Exec, pure, lift, ◌>>=◌, ◌>>◌}
use natricine.Pubsub.Message.{Message}

-- What Python gives: `str.encode`, `bytes.decode`, `str(uuid)` and `UUID(text)`.
pub record Texts : Type 0 where
  pub encode : String → List ℕ
  pub decode : List ℕ → Result String
  pub uuid_str : ℕ → String
  pub parse_uuid : String → Result ℕ

-- What Python promises of them, for the values of one dictionary and for one uuid.
pub record TextsLaws (texts : Texts) (d : Dict String String) (u : ℕ) : Type 0 where
  pub values : All (λ entry. texts.decode (texts.encode entry.1) ≡ ok entry.1) d
  pub uuid_text : texts.decode (texts.encode (texts.uuid_str u)) ≡ ok (texts.uuid_str u)
  pub parse_uuid-uuid_str : texts.parse_uuid (texts.uuid_str u) ≡ ok u

abbrev pub Headers : Type 0
Headers = List (String × List ℕ)

-- The variables of `from_kafka_headers`.
pub record Extracted : Type 0 where
  pub uuid_value : Option ℕ
  pub metadata : Dict String String

abbrev pub nothing : Extracted
nothing = record { uuid_value = none; metadata = [] }

module _ (texts : Texts) where
  encode_each : Dict String String → Headers
  encode_each [] = []
  encode_each ((key, value) ∷ d) = (key, texts.encode value) ∷ encode_each d

  unfoldable pub to_kafka_headers : {B : Type 0} → Message B → String → Headers
  unfolding encode_each
  to_kafka_headers m uuid_header =
      (uuid_header, texts.encode (texts.uuid_str m.uuid)) ∷ encode_each m.metadata

  -- The body of the loop over the headers.
  abbrev pub read_header : String → String → List ℕ → Exec Extracted (Unit {0})
  read_header uuid_header key value =
      if key == uuid_header
      then (do
        text ← lift (texts.decode value)
        u ← lift (texts.parse_uuid text)
        λ s. (ok tt, record s { uuid_value = some u }))
      else (do
        text ← lift (texts.decode value)
        λ s. (ok tt, record s { metadata = put key text s.metadata }))

  read_each : String → Headers → Exec Extracted (Unit {0})
  read_each uuid_header [] = pure tt
  read_each uuid_header ((key, value) ∷ headers) = do
    read_header uuid_header key value
    read_each uuid_header headers

  unfoldable pub from_kafka_headers : Headers → String → Result Extracted
  unfolding read_each
  from_kafka_headers headers uuid_header =
      ((read_each uuid_header headers >>= λ _ s. (ok s, s)) nothing).0
