-- ===== src/Router/Middleware/Poison/Metadata.antt =====
-- The metadata of a message in the poison queue.
use natricine.Prelude.{
  String, ◌≡◌, Bool, true, false, Option, none, some, arith, ◌==◌, string_eq, if◌then◌else◌, ◌||◌,
  refl,
}
use natricine.Prelude.Dict.{Dict, get, get-put}
use natricine.Runtime.{Exn}
use natricine.Router.Types.{str}
use natricine.Router.Middleware.Poison.{put_unless_empty, put_topic, put_traceback, poison_metadata}

-- The keys that `poison_queue` may write.
abbrev pub is_poison_key : String → Bool
is_poison_key k =
    "reason_poisoned" == k
    || ("handler_poisoned" == k
        || ("subscriber_poisoned" == k || ("topic_poisoned" == k || "traceback" == k)))

get-put_unless_empty :
    (k j v : String) (d : Dict String String)
    → get j (put_unless_empty k v d)
      ≡ (if v == "" then get j d else if k == j then some v else get j d)
get-put_unless_empty k j v d = ground (arith, get-put k j v d)

-- What `d.get(j)` is after `put_topic` and `put_traceback`.
abbrev or_topic : Option String → String → Option String → Option String
or_topic none j old = old
or_topic (some t) j old = if t == "" then old else if "topic_poisoned" == j then some t else old

get-put_topic :
    (t : Option String) (j : String) (d : Dict String String)
    → get j (put_topic t d) ≡ or_topic t j (get j d)
get-put_topic none j d = refl
get-put_topic (some t) j d = get-put_unless_empty "topic_poisoned" j t d

get-put_traceback :
    (k j text : String) (b : Bool) (d : Dict String String)
    → get j (put_traceback k b text d)
      ≡ (if b then (if k == j then some text else get j d) else get j d)
get-put_traceback k j text true d = get-put k j text d
get-put_traceback k j text false d = refl

if_same : {A : Type 0} (b : Bool) (x : A) → (if b then x else x) ≡ x
if_same true x = refl
if_same false x = refl

or_topic_other :
    (t : Option String) (j : String) (old : Option String)
    → ("topic_poisoned" == j) ≡ false
    → or_topic t j old ≡ old
or_topic_other none j old h = refl
or_topic_other (some t) j old h = rw h (if_same (t == "") old)

or_false : (a b : Bool) → (a || b) ≡ false → (a ≡ false) × (b ≡ false)
or_false a b h = ground arith

module _ (handler subscriber : String) (with_traceback : Bool) (e : Exn) (traceback : String)
    (metadata : Dict String String) where
  abbrev written : Dict String String
  written = poison_metadata handler subscriber with_traceback e traceback metadata

  ruleset lookups = (get-put, get-put_unless_empty, get-put_topic, get-put_traceback)

  -- The metadata of a poisoned message: the reason is the text of the exception, the original topic,
  -- where the message had one, is kept as such, and every other key of the original is kept.
  pub get-poison_metadata :
      (get "reason_poisoned" written ≡ some (str e))
      × ((t : String)
          → get "_topic" metadata ≡ some t
          → (t == "") ≡ false
          → get "topic_poisoned" written ≡ some t)
      × ((k : String) → is_poison_key k ≡ false → get k written ≡ get k metadata)
  unfolding poison_metadata
  get-poison_metadata = (
    simp lookups (ground arith),
    (λ t here full. simp lookups (ground arith)),
    λ k plain.
        let (a, bcde) = or_false ("reason_poisoned" == k) _ plain in
        let (b, cde) = or_false ("handler_poisoned" == k) _ bcde in
        let (c, de) = or_false ("subscriber_poisoned" == k) _ cde in
        let (d, f) = or_false ("topic_poisoned" == k) _ de in
        let topic = or_topic_other (get "_topic" metadata) k in
        simp (lookups, a, b, c, topic, d, f, if_same),
  )
