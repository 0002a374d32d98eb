-- ===== src/Redis/Subscriber/Outcomes.antt =====
-- What becomes of the entries of a stream in the rounds of a subscriber.
use natricine.Prelude.{
  ℕ, zero, suc, ◌≤◌, String, ◌≡◌, refl, ap, sym, ◌∙◌, false, List, [], ◌∷◌, ◌++◌, map, length, take,
  drop, All, if_elim, or_default, string_eq,
}
use mathlib.Core.List.{append-nil}
use natricine.Runtime.{Result, ok, Exec, ◌>>◌}
use natricine.Pubsub.Message.{Message}
use natricine.Pubsub.Message.Settle.{acks, nacks}
use natricine.Pubsub.Message.Callbacks.{calls-HasFuncs}
use natricine.Redis.Entry.{Python}
use natricine.Redis.Group.{Group}
use natricine.Redis.Group.Draining.{rounds_drain}
use natricine.Redis.Subscriber.{
  Response, RedisClient, RedisConfig, RedisStreamSubscriber, deliver_each, deliver_streams,
  read_and_deliver, polls,
}
use natricine.Redis.Subscriber.Streams.{entries_of, deliver_streams-eq-deliver_each}
use natricine.Redis.Subscriber.Refinement.{
  Readable, id_of, GroupLaws, reader, polls-rounds, Leads, >>-Leads,
}

module _ {B : Type 0} (client : RedisClient B) (config : RedisConfig) (python : Python)
    (topic : String) (laws : GroupLaws client config python topic) where
  -- Every entry is delivered and acked in the end: with a reader that acks each message and a count of at least
  -- one, as many rounds as there are pending entries and as there are unread ones return and leave
  -- neither.
  pub polls_drain :
      (n : ℕ) (s : RedisStreamSubscriber B)
      → s.closed ≡ false
      → 1 ≤ config.count
      → length (laws.view s.env).pending ≤ n
      → length (laws.view s.env).unread ≤ n
      → let (r, s') =
          polls client config python (reader client config python topic (λ m. acks)) topic n s in
        (r ≡ ok tt) × (laws.view s'.env ≡ record { pending = []; unread = [] })
  polls_drain n s is_open some_ pending unread =
      let (returned, there) =
        polls-rounds client config python topic laws (λ m. acks) n s is_open in
      (
        returned,
        there
            ∙ rounds_drain (id_of client config python topic) config.count n (laws.view s.env) some_
                pending unread,
      )

  -- The reader nacks the message of the entry.
  abbrev pub IsRefused :
      (Message B → Exec (RedisStreamSubscriber B) (Unit {0}))
      → Readable client config python topic
      → Type 0
  IsRefused body e = body e.message ≡ reader client config python topic (λ m. nacks) e.message

  module _ (body : Message B → Exec (RedisStreamSubscriber B) (Unit {0}))
      (g : Group (Readable client config python topic)) where
    abbrev Stays : Exec (RedisStreamSubscriber B) (Unit {0}) → Type 0
    Stays m = Leads client config python topic laws m g g

    body-Stays :
        (e : Readable client config python topic) → IsRefused body e → Stays (body e.message)
    body-Stays e refused = rw refused (λ s is_open same. (
      refl,
      is_open,
      ap laws.view (calls-HasFuncs e.message _ _ (nacks ∷ []) s.env e.has_funcs) ∙ same,
    ))

    deliver_each-Stays :
        (es : List (Readable client config python topic))
        → All (IsRefused body) es
        → Stays (deliver_each client config python body topic (map (λ e. e.entry) es))
    unfolding deliver_each
    deliver_each-Stays [] refused s is_open same = (refl, is_open, same)
    deliver_each-Stays (e ∷ es) (refused, rest) s is_open same = rw (e.parses s.env) (
        >>-Leads client config python topic laws (body e.message)
          (deliver_each client config python body topic (map (λ e. e.entry) es)) g g g
          (body-Stays e refused) (deliver_each-Stays es rest) s is_open same)

    streams-Stays :
        (r : Response) (es : List (Readable client config python topic))
        → entries_of (or_default [] r) ≡ map (λ e. e.entry) es
        → All (IsRefused body) es
        → Stays (deliver_streams client config python body topic (or_default [] r))
    streams-Stays r es same refused =
        rw (deliver_streams-eq-deliver_each client config python topic body (or_default [] r), same)
          (deliver_each-Stays es refused)

    pending-Stays :
        All (IsRefused body) (take config.count g.pending)
        → Stays (read_and_deliver client config python body topic "0" 0)
    pending-Stays refused s is_open same =
        let (r, reads, holds) = laws.read_pending s.env in
        rw reads (
          streams-Stays r (take config.count g.pending)
            (holds
              ∙ ap
                  (λ (h : Group (Readable client config python topic)).
                    map (λ e. e.entry) (take config.count h.pending))
                  same)
            refused s is_open same)

  take_nil : {A : Type 0} (n : ℕ) → take {A = A} n [] ≡ []
  take_nil zero = refl
  take_nil (suc n) = refl

  drop_nil : {A : Type 0} (n : ℕ) → drop {A = A} n [] ≡ []
  drop_nil zero = refl
  drop_nil (suc n) = refl

  module _ (body : Message B → Exec (RedisStreamSubscriber B) (Unit {0}))
      (pending : List (Readable client config python topic)) where
    abbrev held : Group (Readable client config python topic)
    held = record { pending = pending; unread = [] }

    new-Stays :
        Stays body held (read_and_deliver client config python body topic ">" config.block_ms)
    new-Stays s is_open same =
        let (r, env', reads, holds, then_) = laws.read_new s.env in
        let none_new : entries_of (or_default [] r) ≡ [] =
          holds
          ∙ ap
              (λ (h : Group (Readable client config python topic)).
                map (λ e. e.entry) (take config.count h.unread))
              same
          ∙ ap (map (λ (e : Readable client config python topic). e.entry))
              (take_nil config.count) in
        let still : laws.view env' ≡ held =
          then_
          ∙ ap
              (λ (h : Group (Readable client config python topic)). record {
                pending = h.pending ++ take config.count h.unread;
                unread = drop config.count h.unread;
              })
              same
          ∙ rw
              (
                take_nil {A = Readable client config python topic} config.count,
                drop_nil {A = Readable client config python topic} config.count,
                append-nil pending,
              )
              refl in
        rw reads (streams-Stays body held r [] none_new tt (record s { env = env' }) is_open still)

    polls-Stays :
        (n : ℕ)
        → All (IsRefused body) (take config.count pending)
        → Stays body held (polls client config python body topic n)
    unfolding polls
    polls-Stays zero refused s is_open same = (refl, is_open, same)
    polls-Stays (suc n) refused s is_open same =
        let old = read_and_deliver client config python body topic "0" 0 in
        let new = read_and_deliver client config python body topic ">" config.block_ms in
        let rest = polls client config python body topic n in
        if_elim
          (λ (r : Result (Unit {0}) × RedisStreamSubscriber B).
            (r.0 ≡ ok tt) × (r.1.closed ≡ false) × (laws.view r.1.env ≡ held))
          s.closed (λ closed. cc (closed, is_open))
          (λ _.
            >>-Leads client config python topic laws old (new >> rest) held held held
              (pending-Stays body held refused)
              (>>-Leads client config python topic laws new rest held held held new-Stays
                (polls-Stays n refused))
              s is_open same)

  -- Pending entries past the first `count` wait for these: while nothing is unread and the reader nacks each of
  -- the first `count`, any number of rounds return and leave what is pending as it is, whatever the reader
  -- would do with any other message, also ack it or raise. So the other entries are not delivered again.
  pub polls_stuck :
      (body : Message B → Exec (RedisStreamSubscriber B) (Unit {0}))
      (pending : List (Readable client config python topic)) (n : ℕ) (s : RedisStreamSubscriber B)
      → s.closed ≡ false
      → laws.view s.env ≡ record { pending = pending; unread = [] }
      → All (IsRefused body) (take config.count pending)
      → let (r, s') = polls client config python body topic n s in
        (r ≡ ok tt) × (laws.view s'.env ≡ laws.view s.env)
  polls_stuck body pending n s is_open same refused =
      let (returned, still, there) = polls-Stays body pending n refused s is_open same in
      (returned, there ∙ sym same)
