-- ===== src/Cqrs/Handling.antt =====
-- What the two buses share: their settings, the topics, and the processing of one message.
use natricine.Prelude.{◌≡◌, refl, ap, String, Option, none, some, string_eq}
use natricine.Prelude.Dict.{Dict, get, put, get-put_self}
use natricine.Runtime.{Exn, error, ok, err, Exec}
use natricine.Pubsub.World.{Publisher}
use natricine.Cqrs.Types.{Marshaler}

-- The arguments of a bus, once `__init__` has accepted them.
pub record Config (V S B : Type 0) : Type 0 where
  pub publisher : Publisher B
  pub subscriber : Option S
  pub subscriber_factory : Option (String → S)
  pub marshaler : Marshaler V
  pub generate_topic : Option (String → String)
  pub topic_prefix : String

abbrev pub no_source : Exn
no_source = error "ValueError" "Must provide either subscriber or subscriber_factory"

abbrev pub no_marshaler : Exn
no_marshaler = error "ValueError" "marshaler is required"

-- `assert self._subscriber is not None`
abbrev pub assertion : Exn
assertion = error "AssertionError" ""

-- `prefixes.get(type, "")`
abbrev pub or_empty : Option String → String
or_empty none = ""
or_empty (some s) = s

-- The `Func`s act on the world, and a bus keeps what `subscriber_factory` has made by the name of the
-- handler.
module _ {S : Type 0} where
  abbrev pub cached : (String → S) → String → Option S → Exec (Dict String S) S
  cached factory name (some s) made = (ok s, made)
  cached factory name none made = (ok (factory name), put name (factory name) made)

  abbrev pub shared : Option S → Exec (Dict String S) S
  shared (some s) made = (ok s, made)
  shared none made = (err assertion, made)

  -- `_get_subscriber_for_handler`, by the factory and the shared subscriber.
  abbrev pub subscriber_from : Option (String → S) → Option S → String → Exec (Dict String S) S
  subscriber_from (some factory) subscriber name made = cached factory name (get name made) made
  subscriber_from none subscriber name made = shared subscriber made

  cached_again :
      (factory : String → S) (name : String) (o : Option S) (made made' : Dict String S) (s : S)
      → get name made ≡ o
      → cached factory name o made ≡ (ok s, made')
      → get name made' ≡ some s
  cached_again factory name (some a) made made' s here got =
      cc (here, ap (λ r. r.0) got, ap (λ r. r.1) got)
  cached_again factory name none made made' s here got =
      cc (get-put_self name (factory name) made, ap (λ r. r.0) got, ap (λ r. r.1) got)

  -- What was given once for a name is given again, and nothing more is made.
  pub subscriber_from_again :
      (factory : Option (String → S)) (subscriber : Option S) (name : String)
      (made made' : Dict String S) (s : S)
      → subscriber_from factory subscriber name made ≡ (ok s, made')
      → subscriber_from factory subscriber name made' ≡ (ok s, made')
  subscriber_from_again (some factory) subscriber name made made' s got =
      rw (cached_again factory name (get name made) made made' s refl got)
  subscriber_from_again none (some a) name made made' s got = cc (ap (λ r. r.0) got)
  subscriber_from_again none none name made made' s got = cc (ap (λ r. r.0) got)
