-- ===== src/Http/Marshaling.antt =====
-- packages/natricine-http/src/natricine_http/marshaling.py.
pub mod RoundTrip
use natricine.Prelude.{ℕ, String, Bool, if◌then◌else◌, is_empty, ◌==◌, string_eq, List, [], ◌∷◌}
use natricine.Prelude.Dict.{Dict, put}
use natricine.Runtime.{Result, ok, err, cancelled, Exec, pure, lift}
use natricine.Pubsub.Message.{Message}

-- What Python gives: `str.lower`, `json`, and the texts of a UUID. `loads` fails where `json.loads` does.
pub record Python (B : Type 0) : Type 0 where
  pub lower : String → String
  pub dumps : Dict String String → String
  pub loads : String → Result (Dict String String)
  pub uuid_str : ℕ → String
  pub parse_uuid : String → Result ℕ
  pub uuid4 : B → ℕ × B

-- `except (json.JSONDecodeError, TypeError): return {}`
abbrev pub or_nothing : Result (Dict String String) → Dict String String
or_nothing (ok d) = d
or_nothing (err e) = []
or_nothing cancelled = []

module _ {B : Type 0} (python : Python B) where
  unfoldable pub extract_metadata : Dict String String → String → Dict String String
  extract_metadata [] metadata_header = []
  extract_metadata ((key, value) ∷ headers) metadata_header =
      if python.lower key == python.lower metadata_header
      then or_nothing (python.loads value)
      else extract_metadata headers metadata_header

  unfoldable pub extract_uuid : Dict String String → String → Exec B ℕ
  extract_uuid [] uuid_header env = let (u, env') = python.uuid4 env in (ok u, env')
  extract_uuid ((key, value) ∷ headers) uuid_header env =
      if python.lower key == python.lower uuid_header
      then (python.parse_uuid value, env)
      else extract_uuid headers uuid_header env

  abbrev pub metadata_to_header : Dict String String → String
  metadata_to_header d = if is_empty d then "{}" else python.dumps d

  -- publisher.py: the headers of the request for a message
  unfoldable pub request_headers : String → String → Message B → Dict String String
  request_headers uuid_header metadata_header m = put "Content-Type" "application/octet-stream" (
      put metadata_header (metadata_to_header m.metadata)
        (put uuid_header (python.uuid_str m.uuid) []))
