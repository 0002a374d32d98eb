-- ===== src/Conformance/Core.antt =====
-- `PubSubConformance.Core`: what every backend has to do.
use natricine.Prelude.{
  ℕ, String, Bool, true, false, ◌&&◌, List, [], ◌∷◌, ◌==◌, nat_eq, string_eq, length,
}
use natricine.Prelude.Dict.{Dict}
use natricine.Runtime.{Exn, error, Exec, pure, raise, ◌>>=◌}
use natricine.Pubsub.Message.{Message, fresh, ack}
use natricine.Conformance.{PubSub, check, on_message, one_subscriber}

-- `==` on bytes
abbrev pub same_bytes : List ℕ → List ℕ → Bool
same_bytes [] [] = true
same_bytes (a ∷ as_) (b ∷ bs) = a == b && same_bytes as_ bs
same_bytes as_ bs = false

-- `==` on dictionaries, in the order of their keys: the metadata that is compared has been copied
abbrev same_metadata : Dict String String → Dict String String → Bool
same_metadata [] [] = true
same_metadata ((k, v) ∷ d) ((j, w) ∷ e) = k == j && v == w && same_metadata d e
same_metadata d e = false

abbrev key_error : Exn
key_error = error "IndexError" "list index out of range"

-- `received[0]`
abbrev pub first_of : {W A : Type 0} → List A → Exec W A
first_of [] = raise key_error
first_of (a ∷ as_) = pure a

-- await msg.ack()
abbrev pub acks : {W I B : Type 0} → PubSub W I B → Message B → Exec W (Message B)
acks ps = on_message ps ack

-- `uuid` is the uuid that a message of the test is made with.
module _ {W I B : Type 0} (ps : PubSub W I B) (uuid : ℕ → ℕ) where
  unfoldable pub test_publish_single_message : Exec W (Unit {0})
  test_publish_single_message =
      ps.publish "conformance.core.single"
        (fresh (104 ∷ 101 ∷ 108 ∷ 108 ∷ 111 ∷ []) [] (uuid 0) ∷ [])

  unfoldable pub test_publish_multiple_messages : Exec W (Unit {0})
  test_publish_multiple_messages = ps.publish "conformance.core.multiple" (
      fresh (111 ∷ 110 ∷ 101 ∷ []) [] (uuid 0)
      ∷ fresh (116 ∷ 119 ∷ 111 ∷ []) [] (uuid 1)
      ∷ fresh (116 ∷ 104 ∷ 114 ∷ 101 ∷ 101 ∷ []) [] (uuid 2)
      ∷ [])

  unfoldable pub test_subscribe_receives_message : Exec W (Unit {0})
  test_subscribe_receives_message = do
    let sent =
        fresh (116 ∷ 101 ∷ 115 ∷ 116 ∷ 32 ∷ 109 ∷ 101 ∷ 115 ∷ 115 ∷ 97 ∷ 103 ∷ 101 ∷ []) [] (uuid 0)
    received ← one_subscriber ps "conformance.core.receive" (sent ∷ []) 1 (acks ps)
    check (length received == 1)

  unfoldable pub test_message_payload_preserved : Exec W (Unit {0})
  test_message_payload_preserved = do
    let payload =
        98 ∷ 105 ∷ 110 ∷ 97 ∷ 114 ∷ 121 ∷ 0 ∷ 112 ∷ 97 ∷ 121 ∷ 108 ∷ 111 ∷ 97 ∷ 100 ∷ 255 ∷ []
    received ←
        one_subscriber ps "conformance.core.payload" (fresh payload [] (uuid 0) ∷ []) 1 (acks ps)
    m ← first_of received
    check (same_bytes m.payload payload)

  unfoldable pub test_message_metadata_preserved : Exec W (Unit {0})
  test_message_metadata_preserved = do
    let metadata = ("key1", "value1") ∷ ("key2", "value2") ∷ []
    received ←
        one_subscriber ps "conformance.core.metadata"
          (fresh (116 ∷ 101 ∷ 115 ∷ 116 ∷ []) metadata (uuid 0) ∷ []) 1 (acks ps)
    m ← first_of received
    check (same_metadata m.metadata metadata)

  unfoldable pub test_message_uuid_preserved : Exec W (Unit {0})
  test_message_uuid_preserved = do
    received ←
        one_subscriber ps "conformance.core.uuid"
          (fresh (116 ∷ 101 ∷ 115 ∷ 116 ∷ []) [] (uuid 0) ∷ []) 1 (acks ps)
    m ← first_of received
    check (m.uuid == uuid 0)
