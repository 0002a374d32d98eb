-- ===== src/Redis/Subscriber/Refinement.antt =====
-- The subscriber's rounds, as rounds of the abstract view of its consumer.
use natricine.Prelude.{
  ℕ, zero, suc, String, Bool, true, false, ◌≡◌, refl, ap, ◌∙◌, some, List, [], ◌∷◌, ◌++◌, map, take,
  drop, if◌then◌else◌, string_eq, or_default, if_elim,
}
use natricine.Runtime.{Result, ok, Exec, pure, ◌>>◌}
use natricine.Pubsub.Message.{Message}
use natricine.Pubsub.Message.Settle.{Call, acks, nacks, calls}
use natricine.Pubsub.Message.Callbacks.{HasFuncs, calls-HasFuncs}
use natricine.Redis.Entry.{Entry, Python}
use natricine.Redis.Group.{Group, remove, settle_entry, settle_entries, round, rounds}
use natricine.Redis.Subscriber.{
  Response, RedisClient, RedisConfig, RedisStreamSubscriber, read, ack_of, parse, deliver_each,
  deliver_streams, read_and_deliver, polls,
}
use natricine.Redis.Subscriber.Streams.{entries_of, deliver_streams-eq-deliver_each}

abbrev pub is_ack : Call → Bool
is_ack acks = true
is_ack nacks = false

module _ {B : Type 0} (client : RedisClient B) (config : RedisConfig) (python : Python)
    (topic : String) where
  -- An entry that is parsed to a message, whatever the environment.
  pub record Readable : Type 0 where
    pub entry : Entry
    pub message : Message B
    pub mid : String
    pub parses : (env : B) → parse client config python topic entry env ≡ (ok message, env)
    pub has_funcs : HasFuncs message (some (ack_of client config topic mid)) (some (pure tt))

  abbrev pub entry_of : Readable → Entry
  entry_of e = e.entry

  abbrev pub id_of : Readable → String
  id_of e = e.mid

  -- What Redis documents of a group, seen by one consumer while no one else adds to the stream or reads for the
  -- group: an id "0" gives the first of its pending entries, ">" the first that the group has not given
  -- to anyone, which are pending from then on, and XACK ends that.
  pub record GroupLaws : Type 0 where
    pub view : B → Group Readable
    pub read_pending :
        (env : B)
        → (r : Response) × (read client config topic "0" 0 env ≡ (ok r, env))
          × (entries_of (or_default [] r) ≡ map entry_of (take config.count (view env).pending))
    pub read_new :
        (env : B)
        → (r : Response) × (env' : B) × (read client config topic ">" config.block_ms env
            ≡ (ok r, env'))
          × (entries_of (or_default [] r) ≡ map entry_of (take config.count (view env).unread))
          × (view env' ≡ record {
            pending = (view env).pending ++ take config.count (view env).unread;
            unread = drop config.count (view env).unread;
          })
    pub view-xack :
        (k : String) (env : B)
        → view (ack_of client config topic k env).1
          ≡ record (view env) { pending = remove id_of k (view env).pending }

  -- A reader that acks or nacks each message before it asks for the next one.
  abbrev pub reader : (Message B → Call) → Message B → Exec (RedisStreamSubscriber B) (Unit {0})
  reader wants m s =
      (ok tt, record s { env = (calls (wants m ∷ []) (record { self = m; env = s.env })).env })

  abbrev pub accepted : (Message B → Call) → Readable → Bool
  accepted wants e = is_ack (wants e.message)

  module _ (laws : GroupLaws) where
    -- From the one view of an open subscriber an action returns, with the other.
    abbrev pub Leads :
        Exec (RedisStreamSubscriber B) (Unit {0}) → Group Readable → Group Readable → Type 0
    Leads m g g' =
        (s : RedisStreamSubscriber B)
        → s.closed ≡ false
        → laws.view s.env ≡ g
        → ((m s).0 ≡ ok tt) × ((m s).1.closed ≡ false) × (laws.view (m s).1.env ≡ g')

    pub >>-Leads :
        (m n : Exec (RedisStreamSubscriber B) (Unit {0})) (g g' g'' : Group Readable)
        → Leads m g g'
        → Leads n g' g''
        → Leads (m >> n) g g''
    >>-Leads m n g g' g'' first next s is_open same =
        let (returned, still, there) = first s is_open same in
        rw returned (next (m s).1 still there)

    module _ (wants : Message B → Call) where
      abbrev settled : Readable → Group Readable → Group Readable
      settled e g = record g { pending = settle_entry id_of (accepted wants) e g.pending }

      call-settle_entry :
          (o : Call) (e : Readable) (env : B)
          → laws.view (calls (o ∷ []) (record { self = e.message; env = env })).env
            ≡ record (laws.view env) {
              pending =
                  if is_ack o
                  then remove id_of e.mid (laws.view env).pending
                  else (laws.view env).pending;
            }
      call-settle_entry acks e env =
          ap laws.view (calls-HasFuncs e.message _ _ (acks ∷ []) env e.has_funcs)
          ∙ laws.view-xack e.mid env
      call-settle_entry nacks e env =
          ap laws.view (calls-HasFuncs e.message _ _ (nacks ∷ []) env e.has_funcs)

      reader-Leads :
          (e : Readable) (g : Group Readable) → Leads (reader wants e.message) g (settled e g)
      reader-Leads e g s is_open same =
          (refl, is_open, call-settle_entry (wants e.message) e s.env ∙ ap (settled e) same)

      deliver_each-Leads :
          (es : List Readable) (g : Group Readable)
          → Leads
              (deliver_each client config python (reader wants) topic (map entry_of es))
              g
              (record g { pending = settle_entries id_of (accepted wants) es g.pending })
      unfolding deliver_each
      deliver_each-Leads [] g s is_open same = (refl, is_open, same)
      deliver_each-Leads (e ∷ es) g s is_open same =
          let rest = deliver_each client config python (reader wants) topic (map entry_of es) in
          rw (e.parses s.env) (
            >>-Leads (reader wants e.message) rest g (settled e g) _ (reader-Leads e g)
              (deliver_each-Leads es (settled e g)) s is_open same)

      streams-Leads :
          (r : Response) (es : List Readable) (g : Group Readable)
          → entries_of (or_default [] r) ≡ map entry_of es
          → Leads
              (deliver_streams client config python (reader wants) topic (or_default [] r))
              g
              (record g { pending = settle_entries id_of (accepted wants) es g.pending })
      streams-Leads r es g same =
          rw
            (
              deliver_streams-eq-deliver_each client config python topic (reader wants)
                  (or_default [] r),
              same,
            )
            (deliver_each-Leads es g)

      pending-Leads :
          (g : Group Readable)
          → Leads (read_and_deliver client config python (reader wants) topic "0" 0) g (record g {
            pending = settle_entries id_of (accepted wants) (take config.count g.pending) g.pending;
          })
      pending-Leads g s is_open same =
          let (r, reads, holds) = laws.read_pending s.env in
          rw reads (
            streams-Leads r (take config.count g.pending) g
              (holds ∙ ap (λ (h : Group Readable). map entry_of (take config.count h.pending)) same)
              s is_open same)

      new-Leads :
          (g : Group Readable)
          → let new = take config.count g.unread in
            Leads
              (read_and_deliver client config python (reader wants) topic ">" config.block_ms)
              g
              (record {
                pending = settle_entries id_of (accepted wants) new (g.pending ++ new);
                unread = drop config.count g.unread;
              })
      new-Leads g s is_open same =
          let (r, env', reads, holds, then_) = laws.read_new s.env in
          rw reads (
            streams-Leads r (take config.count g.unread)
              (record {
                pending = g.pending ++ take config.count g.unread;
                unread = drop config.count g.unread;
              })
              (holds ∙ ap (λ (h : Group Readable). map entry_of (take config.count h.unread)) same)
              (record s { env = env' }) is_open
              (then_
                ∙ ap
                    (λ (h : Group Readable). record {
                      pending = h.pending ++ take config.count h.unread;
                      unread = drop config.count h.unread;
                    })
                    same))

      polls-Leads :
          (n : ℕ) (g : Group Readable)
          → Leads
              (polls client config python (reader wants) topic n)
              g
              (rounds id_of (accepted wants) config.count n g)
      unfolding polls
      polls-Leads zero g s is_open same = (refl, is_open, same)
      polls-Leads (suc n) g s is_open same =
          let old = read_and_deliver client config python (reader wants) topic "0" 0 in
          let new =
            read_and_deliver client config python (reader wants) topic ">" config.block_ms in
          let rest = polls client config python (reader wants) topic n in
          if_elim
            (λ (r : Result (Unit {0}) × RedisStreamSubscriber B).
              (r.0 ≡ ok tt)
              × (r.1.closed ≡ false)
              × (laws.view r.1.env ≡ rounds id_of (accepted wants) config.count (suc n) g))
            s.closed (λ closed. cc (closed, is_open))
            (λ _.
              >>-Leads old (new >> rest) g _ _ (pending-Leads g)
                (>>-Leads new rest _ (round id_of (accepted wants) config.count g) _ (new-Leads _)
                  (polls-Leads n _))
                s is_open same)

      -- The subscriber implements the abstract view of a consumer of a group: as many rounds as the reader
      -- waits for return and come to as many rounds of the view, if Redis keeps to what it documents of groups,
      -- the entries can be parsed, and the reader acks or nacks each message before the next.
      pub polls-rounds :
          (n : ℕ) (s : RedisStreamSubscriber B)
          → s.closed ≡ false
          → let (r, s') = polls client config python (reader wants) topic n s in
            (r ≡ ok tt)
            × (laws.view s'.env ≡ rounds id_of (accepted wants) config.count n (laws.view s.env))
      polls-rounds n s is_open =
          let (returned, still, there) = polls-Leads n (laws.view s.env) s is_open refl in
          (returned, there)
