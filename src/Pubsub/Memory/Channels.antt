-- ===== src/Pubsub/Memory/Channels.antt =====
-- The streams of anyio with their buffers, as its documentation has them: a send to one that has room returns at
-- once, and so does a receive where an item waits.
use natricine.Prelude.{
  ℕ, ◌≡◌, refl, ap, ◌≢◌, ◌<◌, eq_refl, arith, Option, none, some, List, [], ◌∷◌, ◌++◌, ◌==◌, nat_eq,
  if◌then◌else◌, length,
}
use mathlib.Core.List.{append-nil, append_assoc}
use natricine.Runtime.{ok}
use natricine.Pubsub.Memory.Anyio.{Streams}

-- What joins two streams: the items that wait, and how many may.
pub record Channel (M : Type 0) : Type 0 where
  pub items : List M
  pub size : ℕ

abbrev pub grow : {M : Type 0} → List M → Option (Channel M) → Option (Channel M)
grow new none = none
grow new (some c) = some (record c { items = c.items ++ new })

module _ {M : Type 0} where
  pub grow-nil : (o : Option (Channel M)) → grow [] o ≡ o
  grow-nil none = refl
  grow-nil (some c) = ap (λ items. some (record c { items = items })) (append-nil c.items)

  pub grow-grow :
      (xs ys : List M) (o : Option (Channel M)) → grow ys (grow xs o) ≡ grow (xs ++ ys) o
  grow-grow xs ys none = refl
  grow-grow xs ys (some c) =
      ap (λ items. some (record c { items = items })) (append_assoc c.items xs ys)

abbrev pub if_same : {A : Type 0} → ℕ → ℕ → A → A → A
if_same a b x y = if a == b then x else y

pub if_same_refl : {A : Type 0} (a : ℕ) (x y : A) → if_same a a x y ≡ x
if_same_refl a x y = rw (eq_refl a)

pub if_same_ne : {A : Type 0} (a b : ℕ) (x y : A) → a ≢ b → if_same a b x y ≡ y
if_same_ne a b x y ne = ground arith

-- `channel j env` is the channel `j`, where it has been made and neither of its ends is closed.
pub record ChannelLaws {M : Type 0} (streams : Streams M) : Type 0 where
  pub of_send : ℕ → ℕ
  pub of_receive : ℕ → ℕ
  pub channel : ℕ → streams.Env → Option (Channel M)
  pub new_ends :
      (size : ℕ) (env : streams.Env)
      → of_receive (streams.create size env).1 ≡ of_send (streams.create size env).0
  pub not_made :
      (size : ℕ) (env : streams.Env) → channel (of_send (streams.create size env).0) env ≡ none
  pub channel-create :
      (size j : ℕ) (env : streams.Env)
      → channel j (streams.create size env).2
        ≡ if_same
            (of_send (streams.create size env).0)
            j
            (some (record { items = []; size = size }))
            (channel j env)
  pub send_returns :
      (h : ℕ) (m : M) (env : streams.Env) (c : Channel M)
      → channel (of_send h) env ≡ some c
      → length c.items < c.size
      → (streams.send h m env).0 ≡ ok tt
  pub channel-send :
      (h j : ℕ) (m : M) (env : streams.Env) (c : Channel M)
      → channel (of_send h) env ≡ some c
      → length c.items < c.size
      → channel j (streams.send h m env).1
        ≡ grow (if_same (of_send h) j (m ∷ []) []) (channel j env)
  pub receive_returns :
      (h : ℕ) (m : M) (rest : List M) (size : ℕ) (env : streams.Env)
      → channel (of_receive h) env ≡ some (record { items = m ∷ rest; size = size })
      → (streams.receive h env).0 ≡ ok (some m)
  pub channel-receive :
      (h j : ℕ) (m : M) (rest : List M) (size : ℕ) (env : streams.Env)
      → channel (of_receive h) env ≡ some (record { items = m ∷ rest; size = size })
      → channel j (streams.receive h env).1
        ≡ if_same (of_receive h) j (some (record { items = rest; size = size })) (channel j env)
