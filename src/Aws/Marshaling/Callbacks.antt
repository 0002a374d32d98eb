-- ===== src/Aws/Marshaling/Callbacks.antt =====
-- The callbacks of the messages that are made of what SQS and SNS deliver.
use natricine.Prelude.{ℕ, String, ◌≡◌, string_eq, false, Option, []}
use natricine.Prelude.Dict.{Dict, get}
use natricine.Runtime.{Result, ok, err, cancelled, continue, ◌>>=◌, lift}
use natricine.Pubsub.Message.{Message, AckFunc, fresh}
use natricine.Pubsub.Message.Callbacks.{HasFuncs}
use natricine.Aws.Marshaling.{
  Unwrapped, found, Python, SqsMessage, from_sqs_message, from_sns_sqs_message, uuid_from,
  decode_message_body, collect_sns,
}

module _ {B : Type 0} (python : Python B) (ack_func nack_func : Option (AckFunc B)) where
  finished :
      (body : String) (metadata : Dict String String) (r : Result ℕ) (env : B) (m : Message B)
      → (continue r
          (λ u. lift (decode_message_body python body false) >>= λ payload. λ e. (
            ok (record (fresh payload metadata u) { ack_func = ack_func; nack_func = nack_func }),
            e,
          ))
          env).0
        ≡ ok m
      → HasFuncs m ack_func nack_func
  unfolding decode_message_body
  finished body metadata (ok u) env m h = record {
    acks_by = cc h;
    nacks_by = cc h;
    not_acked = cc h;
    not_nacked = cc h;
  }
  finished body metadata (err e) env m h = cc h
  finished body metadata cancelled env m h = cc h

  pub from_sqs_message-HasFuncs :
      (msg : SqsMessage) (uuid_attr : String) (env : B) (m : Message B)
      → (from_sqs_message python msg ack_func nack_func uuid_attr env).0 ≡ ok m
      → HasFuncs m ack_func nack_func
  unfolding from_sqs_message
  from_sqs_message-HasFuncs msg uuid_attr env m h = finished _ _ _ _ m h

  unwrapped-HasFuncs :
      (r : Result Unwrapped) (uuid_attr : String) (env : B) (m : Message B)
      → (continue r
          (λ u. uuid_from python (found (get uuid_attr u.1)) >>= λ uuid.
            lift (decode_message_body python u.0 false) >>= λ payload. λ e. (
              ok (record (fresh payload (collect_sns uuid_attr u.1 []) uuid) {
                ack_func = ack_func;
                nack_func = nack_func;
              }),
              e,
            ))
          env).0
        ≡ ok m
      → HasFuncs m ack_func nack_func
  unwrapped-HasFuncs (ok u) uuid_attr env m h = finished _ _ _ _ m h
  unwrapped-HasFuncs (err e) uuid_attr env m h = cc h
  unwrapped-HasFuncs cancelled uuid_attr env m h = cc h

  pub from_sns_sqs_message-HasFuncs :
      (msg : SqsMessage) (uuid_attr : String) (env : B) (m : Message B)
      → (from_sns_sqs_message python msg ack_func nack_func uuid_attr env).0 ≡ ok m
      → HasFuncs m ack_func nack_func
  unfolding from_sns_sqs_message
  from_sns_sqs_message-HasFuncs msg uuid_attr env m h = unwrapped-HasFuncs _ uuid_attr env m h
