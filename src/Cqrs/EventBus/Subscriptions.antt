-- ===== src/Cqrs/EventBus/Subscriptions.antt =====
-- How events reach their handlers: registration, topics and tasks.
use natricine.Prelude.{
  Listed, Listed-append_left, Listed-append_right, ℕ, String, ◌≡◌, ◌≢◌, refl, sym, ◌∙◌, none, some,
  List, [], ◌∷◌, ◌++◌, arith, if◌then◌else◌, ◌==◌, eq_iff, Bool-cases, inl, inr, string_eq,
}
use mathlib.Core.List.{append-nil}
use natricine.Prelude.Dict.{Dict, get, get-put}
use natricine.Runtime.{Result, ok, cancelled, Exec}
use natricine.Pubsub.Message.{fresh}
use natricine.Pubsub.World.{World}
use natricine.Pubsub.World.Settled.{IsSettledAt, IsFreshAt}
use natricine.Router.Core.{Run}
use natricine.Cqrs.Types.{PyType, type_eq, Func, name_of}
use natricine.Cqrs.Handling.{Config, subscriber_from_again}
use natricine.Cqrs.Routers.{listed_for}
use natricine.Cqrs.CommandBus
use natricine.Cqrs.CommandBus.Dispatch
use natricine.Cqrs.EventBus.{
  Registry, set_prefix, extend, include_router, topic_for_type, publish, each_task, tasks,
  get_subscriber, invoke, attempt, process_message,
}

module _ {V B : Type 0} where
  abbrev pub handlers_of : PyType → Dict PyType (List (Func V (World B))) → List (Func V (World B))
  handlers_of t d = listed_for (get t d)

  -- No type is listed twice, as in every dictionary.
  abbrev pub HasKeysOnce : Dict PyType (List (Func V (World B))) → Type 0
  HasKeysOnce [] = Unit
  HasKeysOnce ((t, fs) ∷ rest) = (get t rest ≡ none) × HasKeysOnce rest

  handlers-set_prefix :
      (t : PyType) (prefix : String) (r : Registry V B)
      → (set_prefix t prefix r).handlers ≡ r.handlers
  handlers-set_prefix t prefix r = ground arith

  handlers_of-extend :
      (t u : PyType) (fs : List (Func V (World B))) (prefix : String) (r : Registry V B)
      → handlers_of u (set_prefix t prefix (extend t fs r)).handlers
        ≡ (if t == u then handlers_of t r.handlers ++ fs else handlers_of u r.handlers)
  handlers_of-extend t u fs prefix r =
      rw (handlers-set_prefix t prefix (extend t fs r), get-put) (ground arith)

  after_extend :
      (t u : PyType) (fs : List (Func V (World B))) (rest : Dict PyType (List (Func V (World B))))
      (prefix : String) (r : Registry V B)
      → get t rest ≡ none
      → handlers_of u (set_prefix t prefix (extend t fs r)).handlers ++ handlers_of u rest
        ≡ handlers_of u r.handlers ++ handlers_of u ((t, fs) ∷ rest)
  unfolding get
  after_extend t u fs rest prefix r new =
      rw handlers_of-extend
        (ground (arith, eq_iff t u, append-nil (handlers_of t r.handlers ++ fs)))

  -- After `include_router` each type has the handlers that it had, then those of the router, in order.
  pub include_router_extends :
      (rs : Dict PyType (List (Func V (World B)))) (prefix : String) (r : Registry V B) (u : PyType)
      → HasKeysOnce rs
      → handlers_of u (include_router rs prefix r).handlers
        ≡ handlers_of u r.handlers ++ handlers_of u rs
  unfolding include_router get
  include_router_extends [] prefix r u once = sym (append-nil _)
  include_router_extends ((t, fs) ∷ rest) prefix r u (new, once) =
      include_router_extends rest prefix (set_prefix t prefix (extend t fs r)) u once
      ∙ after_extend t u fs rest prefix r new

  prefix_kept :
      (t u : PyType) (fs : List (Func V (World B))) (prefix old : String) (r : Registry V B)
      → get u r.prefixes ≡ some old
      → get u (set_prefix t prefix (extend t fs r)).prefixes ≡ some old
  prefix_kept t u fs prefix old r had = ground (arith, get-put t u prefix r.prefixes, eq_iff t u)

  same_topic :
      {S : Type 0} (config : Config V S B) (q r : Registry V B) (u : PyType)
      → get u q.prefixes ≡ get u r.prefixes
      → topic_for_type config q u ≡ topic_for_type config r u
  unfolding topic_for_type
  same_topic config q r u same = ground arith

  -- A type that has a prefix keeps it: a router that is included later, with another prefix, does not
  -- move the topic of the type, to which its own handlers are then bound.
  pub later_prefix_ignored :
      {S : Type 0} (config : Config V S B) (rs : Dict PyType (List (Func V (World B))))
      (prefix old : String) (r : Registry V B) (u : PyType)
      → get u r.prefixes ≡ some old
      → (get u (include_router rs prefix r).prefixes ≡ some old)
        × (topic_for_type config (include_router rs prefix r) u ≡ topic_for_type config r u)
  unfolding include_router
  later_prefix_ignored config [] prefix old r u had = (had, refl)
  later_prefix_ignored config ((t, fs) ∷ rest) prefix old r u had =
      let next_ = set_prefix t prefix (extend t fs r) in
      let kept = prefix_kept t u fs prefix old r had in
      let (later, topic) = later_prefix_ignored config rest prefix old next_ u kept in
      (later, topic ∙ same_topic config next_ r u (kept ∙ sym had))

module _ {V S B : Type 0} (config : Config V S B) where
  each_task-Listed :
      (topic : String) (t : PyType) (fs : List (Func V (World B))) (f : Func V (World B))
      → Listed f fs
      → Listed (topic, t, f) (each_task config topic t fs)
  each_task-Listed topic t [] f h = elim h [ ]
  each_task-Listed topic t (g ∷ fs) f (inl e) = inl (cc e)
  each_task-Listed topic t (g ∷ fs) f (inr h) = inr (each_task-Listed topic t fs f h)

  tasks-Listed :
      (r : Registry V B) (d : Dict PyType (List (Func V (World B)))) (t : PyType)
      (f : Func V (World B))
      → Listed f (handlers_of t d)
      → Listed (topic_for_type config r t, t, f) (tasks config r d)
  unfolding tasks get
  tasks-Listed r [] t f h = elim h [ ]
  tasks-Listed r ((u, gs) ∷ rest) t f h = elim (Bool-cases (u == t)) [
    | inl same ↦
        let here = rw same at h in
        let topic = topic_for_type config r u in
        rw (← (eq_iff u t).0 same) (
          Listed-append_left (topic, u, f) (each_task config topic u gs) (tasks config r rest)
            (each_task-Listed topic u gs f here))
    | inr other ↦
        Listed-append_right (topic_for_type config r t, t, f)
          (each_task config (topic_for_type config r u) u gs) (tasks config r rest)
          (tasks-Listed r rest t f (rw other at h))
  ]

  -- An event is published, as one message with the marshalled payload, to a topic on which `run`
  -- starts a task for every handler of its type.
  pub publish_reaches_handlers :
      (type_of : V → PyType) (uuid4 : B → ℕ × B) (r : Registry V B) (event : V) (payload : List ℕ)
      (env : B)
      → config.marshaler.marshal event ≡ ok payload
      → (topic : String) × ((f : Func V (World B))
          → Listed f (handlers_of (type_of event) r.handlers)
          → Listed (topic, type_of event, f) (tasks config r r.handlers))
        × (publish config type_of uuid4 r event env
            ≡ config.publisher.publish topic (fresh payload [] (uuid4 env).0 ∷ []) (uuid4 env).1)
  unfolding publish
  publish_reaches_handlers type_of uuid4 r event payload env dumped = (
    topic_for_type config r (type_of event),
    tasks-Listed r r.handlers (type_of event),
    rw dumped,
  )

  -- Two handlers of one name get one subscriber, though each is meant to have its own: the factory is
  -- not called for the second, and both subscribe with what was made for the first.
  pub same_name_shares :
      (f g : Func V (World B)) (made made' : Dict String S) (s : S)
      → name_of f ≡ name_of g
      → get_subscriber config f made ≡ (ok s, made')
      → get_subscriber config g made' ≡ (ok s, made')
  unfolding get_subscriber
  same_name_shares f g made made' s same got = rw (← same) (
      subscriber_from_again config.subscriber_factory config.subscriber (name_of f) made made' s
        got)

  module _ (run_sync : Exec (World B) V → Exec (World B) V) (msg : ℕ) (t : PyType)
      (f : Func V (World B)) where
    invoke-same : invoke config run_sync msg t f ≡ CommandBus.invoke config run_sync msg t f
    unfolding invoke CommandBus.invoke
    invoke-same = refl

    process_message-same :
        process_message config run_sync msg t f ≡ CommandBus.process_message config run_sync msg t f
    unfolding process_message attempt invoke CommandBus.process_message CommandBus.attempt
        CommandBus.invoke
    process_message-same = refl

    -- Unless its task is cancelled, an event's message is settled when a handler has processed it,
    -- whatever the marshaler, the dependencies and the handler do, and the bus has as many messages
    -- in flight as before, on every way out.
    pub event_message-IsSettled :
        (s : Run B)
        → ((process_message config run_sync msg t f s).0 ≢ cancelled
            → IsSettledAt msg (process_message config run_sync msg t f s).1.world)
          × ((process_message config run_sync msg t f s).1.flags ≡ s.flags)
    event_message-IsSettled s =
        rw process_message-same (Dispatch.process_message-IsSettled config run_sync msg t f s)

    -- An event's message that is not settled by others, by how the call of the handler ends: it
    -- returned, and the message is acked; it raised, and the message is nacked and the exception goes
    -- on; it was cancelled, and nothing more is done.
    pub process_message_lem :
        (s : Run B) (r : Result V) (v : World B)
        → invoke config run_sync msg t f s.world ≡ (r, v)
        → IsFreshAt msg v
        → Dispatch.Processed config run_sync msg t f r v
            (process_message config run_sync msg t f s).0
            (process_message config run_sync msg t f s).1.world
    process_message_lem s r v ran fresh =
        rw process_message-same
          (Dispatch.processed config run_sync msg t f s r v (rw invoke-same at ran) fresh)
