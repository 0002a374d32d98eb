-- ===== src/Http/Marshaling/RoundTrip.antt =====
-- The headers of a request are read back.
use natricine.Prelude.{◌≡◌, refl, String, false, ◌==◌, string_eq, eq_iff, eq_refl, [], ◌∷◌, arith}
use natricine.Prelude.Dict.{Dict, put}
use natricine.Runtime.{ok}
use natricine.Pubsub.Message.{Message}
use natricine.Http.Marshaling.{
  Python, extract_metadata, extract_uuid, metadata_to_header, request_headers,
}

-- The names of the headers as the server gives them, which may differ in case.
abbrev pub received : (String → String) → Dict String String → Dict String String
received wire [] = []
received wire ((key, value) ∷ headers) = (wire key, value) ∷ received wire headers

module _ {B : Type 0} (python : Python B) where
  distinct : (a b : String) → (python.lower a == python.lower b) ≡ false → (a == b) ≡ false
  distinct a b h = ground (arith, eq_iff a b, eq_iff (python.lower a) (python.lower b), h)

  three_headers :
      (uuid_header metadata_header : String) (m : Message B)
      → (uuid_header == metadata_header) ≡ false
      → (uuid_header == "Content-Type") ≡ false
      → (metadata_header == "Content-Type") ≡ false
      → request_headers python uuid_header metadata_header m
        ≡ (uuid_header, python.uuid_str m.uuid)
          ∷ (metadata_header, metadata_to_header python m.metadata)
          ∷ ("Content-Type", "application/octet-stream")
          ∷ []
  unfolding request_headers put
  three_headers uuid_header metadata_header m n1 n2 n3 = simp (n1, n2, n3)

  -- The headers that are sent for a message give back its metadata and its uuid, if `json` and `uuid`
  -- read back what they wrote, the two header names differ in more than case, neither is
  -- Content-Type, and the way to the server changes only the case of names.
  pub extract-request_headers :
      (wire : String → String) (uuid_header metadata_header : String) (m : Message B) (env : B)
      → ((key : String) → python.lower (wire key) ≡ python.lower key)
      → python.loads (metadata_to_header python m.metadata) ≡ ok m.metadata
      → python.parse_uuid (python.uuid_str m.uuid) ≡ ok m.uuid
      → (python.lower uuid_header == python.lower metadata_header) ≡ false
      → (uuid_header == "Content-Type") ≡ false
      → (metadata_header == "Content-Type") ≡ false
      → let headers = received wire (request_headers python uuid_header metadata_header m) in
        (extract_metadata python headers metadata_header ≡ m.metadata)
        × (extract_uuid python headers uuid_header env ≡ (ok m.uuid, env))
  unfolding extract_metadata extract_uuid
  extract-request_headers wire uuid_header metadata_header m env case loaded parsed n1 n2 n3 =
      rw
        (
          three_headers uuid_header metadata_header m (distinct uuid_header metadata_header n1) n2
              n3,
          case uuid_header,
          case metadata_header,
          n1,
          eq_refl (python.lower metadata_header),
          eq_refl (python.lower uuid_header),
          loaded,
          parsed,
        )
        (refl, refl)
