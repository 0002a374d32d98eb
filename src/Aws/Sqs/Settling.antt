-- ===== src/Aws/Sqs/Settling.antt =====
-- What the calls of `ack` and `nack` on a delivered message do to the queue.
use natricine.Prelude.{or_default, String, ◌≡◌, List}
use natricine.Runtime.{ok}
use natricine.Pubsub.Message.{Message}
use natricine.Pubsub.Message.Settle.{Call, calls}
use natricine.Pubsub.Message.Callbacks.{settled_env, calls-HasFuncs}
use natricine.Aws.Marshaling.{Python, SqsMessage}
use natricine.Aws.Marshaling.Callbacks.{from_sqs_message-HasFuncs}
use natricine.Aws.Sqs.{SqsClient, SqsConfig, deliver}

-- Whatever calls of `ack` and `nack` are made on a delivered message, the first alone reaches the queue: an
-- ack deletes the message by its receipt handle, a nack makes it visible at once.
pub calls-deliver :
    {B : Type 0} (client : SqsClient B) (python : Python B) (config : SqsConfig) (url : String)
    (msg : SqsMessage) (env now : B) (m : Message B) (os : List Call)
    → (deliver client python config url msg env).0 ≡ ok m
    → let handle = or_default "" msg.receipt_handle in
      (calls os (record { self = m; env = now })).env
      ≡ settled_env
          (client.delete_message url handle)
          (client.change_message_visibility url handle 0)
          os
          now
unfolding deliver
calls-deliver client python config url msg env now m os h =
    calls-HasFuncs m _ _ os now (from_sqs_message-HasFuncs python _ _ msg config.uuid_attr env m h)
