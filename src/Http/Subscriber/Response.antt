-- ===== src/Http/Subscriber/Response.antt =====
-- The response to a request.
use natricine.Prelude.{String, ℕ, ◌≡◌, refl, ap, true, false, Option, none, some, List, [], ◌∷◌}
use natricine.Prelude.Dict.{Dict}
use natricine.Runtime.{ok}
use natricine.Pubsub.Message.{Message, Cell, fresh}
use natricine.Pubsub.Message.Settle.{Call, acks, nacks, calls, settle_once}
use natricine.Http.Marshaling.{Python, extract_metadata, extract_uuid}
use natricine.Http.Subscriber.{PendingMessage, waiting, signal, request_message, response}

-- The status that the first call decides.
abbrev pub first_decides : List Call → Option ℕ
first_decides [] = none
first_decides (acks ∷ os) = some 200
first_decides (nacks ∷ os) = some 500

abbrev signalling : List ℕ → Dict String String → ℕ → Message PendingMessage
signalling body metadata u = record (fresh body metadata u) {
  ack_func = some (signal true);
  nack_func = some (signal false);
}

response-calls :
    (body : List ℕ) (metadata : Dict String String) (u : ℕ) (os : List Call)
    → response (calls os (record { self = signalling body metadata u; env = waiting })).env
      ≡ first_decides os
unfolding response
response-calls body metadata u [] = refl
response-calls body metadata u (acks ∷ os) =
    let c : Cell PendingMessage = record { self = signalling body metadata u; env = waiting } in
    ap (λ (d : Cell PendingMessage). response d.env) (settle_once acks os c (refl, refl)).0
response-calls body metadata u (nacks ∷ os) =
    let c : Cell PendingMessage = record { self = signalling body metadata u; env = waiting } in
    ap (λ (d : Cell PendingMessage). response d.env) (settle_once nacks os c (refl, refl)).0

-- A request whose uuid is read becomes a message with its body. Whatever calls of ack and nack are made
-- on it, the first decides the response, 200 for an ack and 500 for a nack; before it the request waits.
pub first_call_responds :
    (python : Python PendingMessage) (uuid_header metadata_header : String) (body : List ℕ)
    (headers : Dict String String) (u : ℕ)
    → extract_uuid python headers uuid_header waiting ≡ (ok u, waiting)
    → (m : Message PendingMessage) × (request_message python uuid_header metadata_header body
          headers waiting
        ≡ (ok m, waiting))
      × (m.payload ≡ body)
      × ((os : List Call)
          → response (calls os (record { self = m; env = waiting })).env ≡ first_decides os)
unfolding request_message
first_call_responds python uuid_header metadata_header body headers u h = (
  signalling body (extract_metadata python headers metadata_header) u,
  rw h refl,
  refl,
  response-calls body (extract_metadata python headers metadata_header) u,
)
