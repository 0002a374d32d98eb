-- ===== src/Pubsub/Examples.antt =====
-- Tests of the package pubsub, and its theorems at concrete inputs.
use natricine.Prelude.{
  ℕ, suc, ◌≡◌, ◌≢◌, refl, false, none, some, List, [], ◌∷◌, ◌++◌, arith, ltb, ◌==◌, nat_eq,
  if◌then◌else◌, string_eq, All,
}
use natricine.Prelude.Dict.{get, put}
use natricine.Runtime.{ok}
use natricine.Pubsub.Message.{Message, Cell, fresh, copy, ack, nack}
use natricine.Pubsub.Message.Settle.{
  acks, nacks, call, calls, results, settle, IsValueError, settle_once,
}
use natricine.Pubsub.Memory.{PubSub, init, publish, subscribe}
use natricine.Pubsub.Memory.Anyio.{Streams, StreamLaws}
use natricine.Pubsub.Memory.Delivery.{deliveries, copies, publish_delivers}

-- A message whose callbacks count on the backend, a number.
abbrev order : Message ℕ
order = record (fresh (1 ∷ 2 ∷ []) (("kind", "order") ∷ []) 7) {
  ack_func = some (λ n. (ok tt, suc n));
  nack_func = some (λ n. (ok tt, suc (suc n)));
}

abbrev at_hand : Cell ℕ
at_hand = record { self = order; env = 0 }

nack_then_ack : (calls (nacks ∷ acks ∷ []) at_hand).env ≡ 2
unfolding ack nack
nack_then_ack = refl

settle_once_example :
    (calls (nacks ∷ acks ∷ nacks ∷ []) at_hand ≡ (settle nacks at_hand).1)
    × ((call nacks at_hand).0 ≡ (settle nacks at_hand).0)
    × All IsValueError (results (acks ∷ nacks ∷ []) (call nacks at_hand).1)
settle_once_example = settle_once nacks (acks ∷ nacks ∷ []) at_hand (refl, refl)

-- Streams that never block: what each has taken, for the streams made so far.
record Buffers : Type 0 where
  made : ℕ
  items : ℕ → List (Message ℕ)

abbrev add : ℕ → List (Message ℕ) → (ℕ → List (Message ℕ)) → ℕ → List (Message ℕ)
add h new items j = if h == j then new else items j

abbrev buffers : Streams (Message ℕ)
buffers = record {
  Env = Buffers;
  create = λ size e. (e.made, e.made, record { made = suc e.made; items = add e.made [] e.items });
  send = λ h m e. (ok tt, record e { items = add h (e.items h ++ m ∷ []) e.items });
  receive = λ h e. (ok none, e);
  close_send = λ h e. (ok tt, e);
  close_receive = λ h e. (ok tt, e);
}

add_self : (h : ℕ) (new : List (Message ℕ)) (items : ℕ → List (Message ℕ)) → add h new items h ≡ new
add_self h new items = ground arith

add_ne :
    (h j : ℕ) (new : List (Message ℕ)) (items : ℕ → List (Message ℕ))
    → h ≢ j
    → add h new items j ≡ items j
add_ne h j new items ne = ground arith

not_yet : (n : ℕ) → ltb n n ≡ false
not_yet n = ground arith

abbrev buffers_laws : StreamLaws buffers
buffers_laws = record {
  sent = λ h e. e.items h;
  exists_in = λ h e. ltb h e.made;
  sent-send_self = λ h m e _. add_self h (e.items h ++ m ∷ []) e.items;
  sent-send_ne = λ h j m e. add_ne h j (e.items h ++ m ∷ []) e.items;
  create_new = λ size e. not_yet e.made;
  sent-create = λ size e. add_self e.made [] e.items;
}

abbrev start : PubSub Buffers
start = init 100 (record { made = 0; items = λ _. [] })

abbrev joined : PubSub Buffers
joined = (subscribe buffers "orders" start).1

publish_delivers_example :
    ((publish buffers "orders" (order ∷ []) joined).1.env.items 0 ≡ copy order ∷ [])
unfolding publish subscribe get put deliveries copies copy
publish_delivers_example = (publish_delivers buffers_laws "orders" (order ∷ []) joined refl).0 0
