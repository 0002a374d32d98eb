-- ===== src/Aws/Marshaling/Body.antt =====
-- The body of a message: what `decode_message_body` makes of what `encode_message_body` wrote.
use natricine.Prelude.{arith, ℕ, String, ◌≡◌, ◌≢◌, refl, ap, ◌∙◌, false, List, string_eq, eq_iff}
use natricine.Runtime.{Exn, Result, ok, err, cancelled}
use natricine.Aws.Marshaling.{Python, encode_message_body, decode_message_body, detect}

-- What Python promises for one payload: UTF-8 and base64 give back what they wrote.
pub record BodyLaws {B : Type 0} (python : Python B) (payload : List ℕ) : Type 0 where
  pub encode-decode : (s : String) → python.decode payload ≡ ok s → python.encode s ≡ payload
  pub b64decode-b64encode : python.b64decode_strict (python.b64encode payload) ≡ ok payload

module _ {B : Type 0} (python : Python B) where
  -- The text is what base64 writes for some bytes.
  abbrev pub IsBase64 : String → List ℕ → Type 0
  IsBase64 s bytes = (python.b64decode_strict s ≡ ok bytes) × (python.b64encode bytes ≡ s)

  detect_base64 :
      (s : String) (bytes : List ℕ)
      → IsBase64 s bytes
      → detect python s (python.b64decode_strict s) ≡ bytes
  detect_base64 s bytes (decoded, same) =
      rw (decoded, (eq_iff (python.b64encode bytes) s).1 same) refl

  detect_text :
      (s : String) (r : Result (List ℕ))
      → ((bytes : List ℕ) → r ≡ ok bytes → python.b64encode bytes ≢ s)
      → detect python s r ≡ python.encode s
  detect_text s (ok bytes) other =
      ground (arith, other bytes refl, eq_iff (python.b64encode bytes) s)
  detect_text s (err e) other = refl
  detect_text s cancelled other = refl

  -- A payload that is not UTF-8 comes back as it was. One that is UTF-8 comes back as it was if base64
  -- writes its text for no bytes; if base64 writes it for some bytes, these come back in its place.
  pub decode-encode_message_body :
      (payload : List ℕ)
      → BodyLaws python payload
      → let body = decode_message_body python (encode_message_body python payload) false in
        ((e : Exn) → python.decode payload ≡ err e → body ≡ ok payload)
        × ((s : String)
            → python.decode payload ≡ ok s
            → ((bytes : List ℕ) → python.b64decode_strict s ≡ ok bytes → python.b64encode bytes ≢ s)
            → body ≡ ok payload)
        × ((s : String) (bytes : List ℕ)
            → python.decode payload ≡ ok s
            → IsBase64 s bytes
            → body ≡ ok bytes)
  unfolding encode_message_body decode_message_body
  decode-encode_message_body payload laws = (
    λ e binary.
        rw binary (
          ap ok
            (detect_base64 (python.b64encode payload) payload (laws.b64decode-b64encode, refl))),
    λ s text other.
        rw text
          (ap ok (detect_text s (python.b64decode_strict s) other ∙ laws.encode-decode s text)),
    λ s bytes text written. rw text (ap ok (detect_base64 s bytes written)),
  )
