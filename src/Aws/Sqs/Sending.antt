-- ===== src/Aws/Sqs/Sending.antt =====
-- What `publish` sends.
use natricine.Prelude.{String, ◌≡◌, some, List, [], ◌∷◌, ◌++◌, map, string_eq}
use natricine.Prelude.Dict.{get}
use natricine.Runtime.{Result, ok, ◌>>◌}
use natricine.Pubsub.Message.{Message}
use natricine.Aws.Marshaling.{Python}
use natricine.Aws.Sqs.{SqsClient, Sqs, SqsConfig, SendArgs, args_of}

-- What AWS documents: `sent env` is what has been sent so far. A send that returns adds its arguments, and
-- the calls that find a queue or make one add nothing.
pub record SendLaws {B : Type 0} (client : SqsClient B) : Type 0 where
  pub sent : B → List SendArgs
  pub sent-send_message :
      (args : SendArgs) (env : B)
      → (client.send_message args env).0 ≡ ok tt
      → sent (client.send_message args env).1 ≡ sent env ++ args ∷ []
  pub sent-enter : (env : B) → sent (client.enter env).1 ≡ sent env
  pub sent-get_queue_url :
      (name : String) (env : B) → sent (client.get_queue_url name env).1 ≡ sent env
  pub sent-create_queue :
      (name : String) (env : B) → sent (client.create_queue name env).1 ≡ sent env

module _ {B : Type 0} (client : SqsClient B) (laws : SendLaws client) where
  abbrev sent_by : Sqs B → List SendArgs
  sent_by s = laws.sent s.env

  module _ (python : Python B) (config : SqsConfig) where
    -- What a call that returned tells.
    abbrev pub Sends : String → List (Message B) → Sqs B → Result (Unit {0}) × Sqs B → Type 0
    Sends topic ms s r =
        r.0 ≡ ok tt
        → (url : String) × (get topic r.1.queue_urls ≡ some url)
          × (laws.sent r.1.env ≡ laws.sent s.env ++ map (args_of client python config url) ms)
