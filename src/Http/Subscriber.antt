-- ===== src/Http/Subscriber.antt =====
-- packages/natricine-http/src/natricine_http/subscriber.py: a request, which waits for its message.
pub mod Response
use natricine.Prelude.{ℕ, String, Bool, true, false, if◌then◌else◌, Option, none, some, List, []}
use natricine.Prelude.Dict.{Dict}
use natricine.Runtime.{Result, ok, Exec, pure, ◌>>=◌}
use natricine.Pubsub.Message.{Message, fresh}
use natricine.Http.Marshaling.{Python, extract_metadata, extract_uuid}

-- `_PendingMessage` without its message: whether the event is set, and how.
pub record PendingMessage : Type 0 where
  pub result : Bool
  pub acked : Bool

abbrev pub waiting : PendingMessage
waiting = record { result = false; acked = false }

-- The closures of `_handle_request`.
abbrev pub signal : Bool → Exec PendingMessage (Unit {0})
signal acked p = (ok tt, record { result = true; acked = acked })

module _ (python : Python PendingMessage) (uuid_header metadata_header : String) where
  -- `_handle_request`, up to the wait: the message that is put in the queue.
  unfoldable pub request_message :
      List ℕ → Dict String String → Exec PendingMessage (Message PendingMessage)
  request_message body headers = do
    uuid ← extract_uuid python headers uuid_header
    pure (record (fresh body (extract_metadata python headers metadata_header) uuid) {
      ack_func = some (signal true);
      nack_func = some (signal false);
    })

-- The rest of it: the status of the response, or none while the request waits.
unfoldable pub response : PendingMessage → Option ℕ
response p = if p.result then some (if p.acked then 200 else 500) else none
