-- ===== src/Http/Queues/Answers.antt =====
-- Which requests are answered.
use natricine.Prelude.{
  ℕ, ◌≡◌, refl, sym, String, true, false, ◌==◌, nat_eq, eq_iff, if_elim, none, List, [], ◌∷◌, ◌++◌,
  Listed,
}
use natricine.Http.Subscriber.{PendingMessage, waiting, response}
use natricine.Http.Queues.{
  Server, set_pending, enqueue, deliver, settle, Step, request, poll, took, timed_out, settled,
  answered, shut, Steps, here, next,
}

-- No reader has the request, and its event is not set.
abbrev pub IsForgotten : ℕ → Server → Type 0
IsForgotten n s = ((s.pendings n).result ≡ false) × (Listed n s.delivered → ⊥)

-- The subscriber is closed, and no reader waits for a queue any more.
abbrev pub IsOver : Server → Type 0
IsOver s = (s.closed ≡ true) × (s.getting ≡ [])

no_one :
    (topic : String) (before after l : List String) → l ≡ [] → l ≡ before ++ (topic ∷ after) → ⊥
no_one topic [] after l e h = cc (e, h)
no_one topic (x ∷ before) after l e h = cc (e, h)

still_waiting :
    (n m : ℕ) (pendings : ℕ → PendingMessage)
    → (pendings n).result ≡ false
    → (set_pending m waiting pendings n).result ≡ false
still_waiting n m pendings h =
    if_elim (λ (p : PendingMessage). p.result ≡ false) (m == n) (λ _. refl) (λ _. h)

another :
    (n m : ℕ) (p : PendingMessage) (pendings : ℕ → PendingMessage) (delivered : List ℕ)
    → (pendings n).result ≡ false
    → (Listed n delivered → ⊥)
    → Listed m delivered
    → (set_pending m p pendings n).result ≡ false
another n m p pendings delivered h new old =
    if_elim (λ (q : PendingMessage). q.result ≡ false) (m == n)
      (λ same. let no : ⊥ = new (rw (sym ((eq_iff m n).0 same)) old) in elim no [ ]) (λ _. h)

Step-IsForgotten :
    (n : ℕ) {s t : Server} → Step s t → IsOver s × IsForgotten n s → IsOver t × IsForgotten n t
unfolding enqueue settle deliver
Step-IsForgotten n {s} (request topic) (over, (h, new)) =
    (over, (still_waiting n s.issued s.pendings h, new))
Step-IsForgotten n (poll topic open_) ((closed, none_), h) = cc (closed, open_)
Step-IsForgotten n {s} (took topic m rest before after e q) ((closed, none_), h) =
    elim (no_one topic before after s.getting none_ e) [ ]
Step-IsForgotten n {s} (timed_out topic before after e) ((closed, none_), h) =
    elim (no_one topic before after s.getting none_ e) [ ]
Step-IsForgotten n {s} (settled m acked old) (over, (h, new)) =
    let kept =
      if_elim (λ (p : ℕ → PendingMessage). (p n).result ≡ false) (s.pendings m).result (λ _. h)
        (λ _. another n m _ s.pendings s.delivered h new old) in
    (over, (kept, new))
Step-IsForgotten n (answered m code e) (over, h) = (over, h)
Step-IsForgotten n shut ((closed, none_), h) = ((refl, none_), h)

Steps-IsForgotten :
    (n : ℕ) {s t : Server} → Steps s t → IsOver s × IsForgotten n s → IsOver t × IsForgotten n t
Steps-IsForgotten n here h = h
Steps-IsForgotten n (next steps step) h = Step-IsForgotten n step (Steps-IsForgotten n steps h)

-- Once the subscriber is closed and its readers have left, a request that no reader got is not answered in
-- any order of the steps, neither one that waits in a queue nor one that comes later.
pub response-Steps :
    (n : ℕ) {s t : Server} → Steps s t → IsOver s → IsForgotten n s → response (t.pendings n) ≡ none
unfolding response
response-Steps n steps over h = rw (Steps-IsForgotten n steps (over, h)).1.0 refl
