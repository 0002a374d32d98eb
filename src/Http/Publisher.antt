-- ===== src/Http/Publisher.antt =====
-- packages/natricine-http/src/natricine_http/publisher.py, over a client of httpx, which is a parameter
-- and carries the settings that its constructor takes.
use natricine.Prelude.{ℕ, String, Bool, true, false, if◌then◌else◌, List, [], ◌∷◌}
use natricine.Prelude.Dict.{Dict}
use natricine.Runtime.{Exn, error, Result, ok, Exec, pure, raise, lift, ◌>>=◌, ◌>>◌}
use natricine.Pubsub.Message.{Message}
use natricine.Http.Marshaling.{Python, request_headers}

pub record AsyncClient (B R : Type 0) : Type 0 where
  pub post : String → List ℕ → Dict String String → Exec B R
  pub raise_for_status : R → Result (Unit {0})
  pub aclose : Exec B (Unit {0})

pub record HttpPublisher (B : Type 0) : Type 0 where
  pub has_client : Bool
  pub closed : Bool
  pub env : B

abbrev pub publisher_closed : Exn
publisher_closed = error "RuntimeError" "Publisher is closed"

module _ {B R : Type 0} (client : AsyncClient B R) where
  abbrev pub on_client : {A : Type 0} → Exec B A → Exec (HttpPublisher B) A
  on_client act s = let (r, env) = act s.env in (r, record s { env = env })

  -- `url_of` is `topic_path.format`.
  module _ (python : Python B) (uuid_header metadata_header : String)
      (url_of : String → String) where
    unfoldable pub post_each : String → List (Message B) → Exec B (Unit {0})
    post_each url [] = pure tt
    post_each url (m ∷ ms) = do
      response ← client.post url m.payload (request_headers python uuid_header metadata_header m)
      lift (client.raise_for_status response)
      post_each url ms

    unfoldable pub publish : String → List (Message B) → Exec (HttpPublisher B) (Unit {0})
    publish topic ms s =
        if s.closed
        then raise publisher_closed s
        else on_client (post_each (url_of topic) ms) (record s { has_client = true })

  unfoldable pub close : Exec (HttpPublisher B) (Unit {0})
  close s =
      let t = record s { closed = true } in
      if t.has_client
      then (do on_client client.aclose; λ u. (ok tt, record u { has_client = false })) t
      else (ok tt, t)
