-- ===== src/Http/Examples.antt =====
-- Tests of natricine-http, and its theorems at concrete inputs.
use natricine.Prelude.{true, none, ◌≡◌, refl, String, [], ◌∷◌, if◌then◌else◌, ◌==◌, string_eq}
use natricine.Http.Subscriber.{waiting, response}
use natricine.Http.Queues.{Server, enqueue, request, Steps, here, next}
use natricine.Http.Queues.Answers.{response-Steps}

-- The server writes one name in lower case; the texts are those of one message.
abbrev lower : String → String
lower s = if s == "Message-Uuid" then "message-uuid" else s

-- One request waits in the queue of a subscriber that is closed.
abbrev deserted : Server
deserted = record {
  queues = ("orders", 0 ∷ []) ∷ [];
  pendings = λ n. waiting;
  issued = 1;
  getting = [];
  delivered = [];
  responses = [];
  closed = true;
}

one_more : Steps deserted (enqueue "orders" deserted)
one_more = next here (request "orders")

response-Steps_example : response ((enqueue "orders" deserted).pendings 0) ≡ none
response-Steps_example = response-Steps 0 one_more (refl, refl) (refl, λ h. h)
