-- ===== src/Conformance/Examples.antt =====
-- Streams with a buffer, and the theorems about the suite at them.
use natricine.Prelude.{
  ℕ, suc, ◌≡◌, refl, sym, ◌∙◌, Bool-cases, inl, inr, true, Option, none, some, List, [], ◌∷◌, arith,
  ltb, ◌==◌, nat_eq, eq_iff, if◌then◌else◌, map, All,
}
use natricine.Runtime.{ok, Result}
use natricine.Pubsub.Message.{Message, fresh, copy, ack}
use natricine.Pubsub.Memory.{init}
use natricine.Pubsub.Memory.Anyio.{Streams}
use natricine.Pubsub.Memory.Channels.{Channel, ChannelLaws, grow, grow-nil, if_same}
use natricine.Conformance.{one_subscriber, on_message}
use natricine.Conformance.Core.{acks}
use natricine.Conformance.Suite.{suite}
use natricine.Conformance.Memory.{memory, memory_features}
use natricine.Conformance.Memory.Subscribers.{one_subscriber_lem}
use natricine.Conformance.Memory.Conforming.{passes_suite}

record Buffers : Type 0 where
  made : ℕ
  channels : ℕ → Option (Channel (Message ℕ))

abbrev channel_of : ℕ → Buffers → Option (Channel (Message ℕ))
channel_of j e = if ltb j e.made then e.channels j else none

abbrev set : ℕ → Option (Channel (Message ℕ)) → Buffers → Buffers
set h c e = record e { channels = λ j. if_same h j c (e.channels j) }

abbrev take_item : ℕ → ℕ → List (Message ℕ) → Buffers → Result (Option (Message ℕ)) × Buffers
take_item h size [] e = (ok none, e)
take_item h size (m ∷ rest) e = (ok (some m), set h (some (record { items = rest; size = size })) e)

abbrev take_first :
    ℕ → Option (Channel (Message ℕ)) → Buffers → Result (Option (Message ℕ)) × Buffers
take_first h none e = (ok none, e)
take_first h (some c) e = take_item h c.size c.items e

abbrev buffers : Streams (Message ℕ)
buffers = record {
  Env = Buffers;
  create = λ size e. (
    e.made,
    e.made,
    record (set e.made (some (record { items = []; size = size })) e) { made = suc e.made },
  );
  send = λ h m e. (ok tt, set h (grow (m ∷ []) (channel_of h e)) e);
  receive = λ h e. take_first h (channel_of h e) e;
  close_send = λ h e. (ok tt, e);
  close_receive = λ h e. (ok tt, e);
}

made-channel_of :
    (h : ℕ) (e : Buffers) (c : Channel (Message ℕ)) → channel_of h e ≡ some c → ltb h e.made ≡ true
made-channel_of h e c here = ground arith

channel_of-set :
    (h j : ℕ) (c : Option (Channel (Message ℕ))) (e : Buffers)
    → ltb h e.made ≡ true
    → channel_of j (set h c e) ≡ if_same h j c (channel_of j e)
channel_of-set h j c e made = ground (arith, eq_iff h j)

not_yet : (e : Buffers) → channel_of e.made e ≡ none
not_yet e = ground arith

channel_of-create :
    (j : ℕ) (c : Option (Channel (Message ℕ))) (e : Buffers)
    → channel_of j (record (set e.made c e) { made = suc e.made })
      ≡ if_same e.made j c (channel_of j e)
channel_of-create j c e = ground (arith, eq_iff e.made j)

grow_same :
    (h j : ℕ) (m : Message ℕ) (e : Buffers)
    → if_same h j (grow (m ∷ []) (channel_of h e)) (channel_of j e)
      ≡ grow (if_same h j (m ∷ []) []) (channel_of j e)
grow_same h j m e = elim (Bool-cases (h == j)) [
  | inl same ↦ rw (same, (eq_iff h j).0 same)
  | inr other ↦ rw (other) (sym (grow-nil (channel_of j e)))
]

abbrev buffers_laws : ChannelLaws buffers
buffers_laws = record {
  of_send = λ h. h;
  of_receive = λ h. h;
  channel = channel_of;
  new_ends = λ size e. refl;
  not_made = λ size e. not_yet e;
  channel-create = λ size j e. channel_of-create j (some (record { items = []; size = size })) e;
  send_returns = λ h m e c here room. refl;
  channel-send = λ h j m e c here room.
      channel_of-set h j (grow (m ∷ []) (channel_of h e)) e (made-channel_of h e c here)
      ∙ grow_same h j m e;
  receive_returns = λ h m rest size e here. rw here;
  channel-receive = λ h j m rest size e here. rw here (
      channel_of-set h j (some (record { items = rest; size = size })) e
        (made-channel_of h e _ here));
}

abbrev acked_copy : Message ℕ → Message ℕ
acked_copy m = record (copy m) { acked = true }

abbrev empty : Buffers
empty = record { made = 0; channels = λ _. none }

abbrev two : List (Message ℕ)
two = fresh (1 ∷ []) [] 4 ∷ fresh (2 ∷ []) [] 5 ∷ []

one_subscriber_lem_example :
    (one_subscriber (memory buffers) "orders" two 2 (acks (memory buffers)) (init 100 empty, 0)).0
    ≡ ok (map acked_copy two)
unfolding on_message ack copy
one_subscriber_lem_example =
    one_subscriber_lem buffers_laws acked_copy (acks (memory buffers)) "orders" two 100 empty 0
      (λ m w. refl) (omega arith)

passes_suite_example :
    All
      (λ test. (test (init 100 empty, 0)).0 ≡ ok tt)
      (suite (memory buffers) (λ i. i) memory_features)
passes_suite_example = passes_suite buffers_laws (λ i. i) 100 empty 0 (omega arith)
