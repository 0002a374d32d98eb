-- ===== src/Aws/Sns/Subscriber/Setup.antt =====
-- Setting up the queue of a topic.
use natricine.Prelude.{String, ◌≡◌, ◌≢◌, refl, ap, ◌∙◌, Option, none, some, string_eq, if_elim}
use natricine.Prelude.Dict.{Dict, get, get-put_self}
use natricine.Runtime.{Result, ok, err, cancelled, Exec, continue, ◌>>=◌}
use natricine.Runtime.Laws.{Keeps, >>=-Keeps}
use natricine.Aws.Sqs.{SqsClient}
use natricine.Aws.Sns.{SnsClient, QueueAttributes, SnsConfig, SnsSubscriber}
use natricine.Aws.Sns.Subscriber.{
  on_clients, get_sns_client, get_sqs_client, get_topic_arn, create_queue, set_up,
  setup_subscription,
}

module _ (topic : String) where
  -- A result with the queue of the topic has entered it in the dictionary; any other has left that as it was.
  abbrev Enters :
      Dict String (String × String)
      → Result (String × String)
      → Dict String (String × String)
      → Type 0
  Enters d (ok queue) d' = get topic d' ≡ some queue
  Enters d (err e) d' = d' ≡ d
  Enters d cancelled d' = d' ≡ d

  Enters-from :
      (d d' : Dict String (String × String)) (r : Result (String × String))
      (d'' : Dict String (String × String))
      → d' ≡ d
      → Enters d' r d''
      → Enters d r d''
  Enters-from d d' (ok queue) d'' e h = h
  Enters-from d d' (err x) d'' e h = h ∙ e
  Enters-from d d' cancelled d'' e h = h ∙ e

module _ {B : Type 0} (topic : String) where
  abbrev queues : SnsSubscriber B → Dict String (String × String)
  queues s = s.setup_complete

  abbrev EntersBy : Exec (SnsSubscriber B) (String × String) → Type 0
  EntersBy m = (s : SnsSubscriber B) → Enters topic s.setup_complete (m s).0 (m s).1.setup_complete

  continue-Enters :
      {A : Type 0} (r : Result A) (f : A → Exec (SnsSubscriber B) (String × String))
      (s : SnsSubscriber B)
      → ((a : A) → EntersBy (f a))
      → Enters topic s.setup_complete (continue r f s).0 (continue r f s).1.setup_complete
  continue-Enters (ok a) f s enters = enters a s
  continue-Enters (err e) f s enters = refl
  continue-Enters cancelled f s enters = refl

  >>=-EntersBy :
      {A : Type 0} (m : Exec (SnsSubscriber B) A) (f : A → Exec (SnsSubscriber B) (String × String))
      → Keeps queues m
      → ((a : A) → EntersBy (f a))
      → EntersBy (m >>= f)
  >>=-EntersBy m f keeps enters s =
      Enters-from topic s.setup_complete (m s).1.setup_complete (continue (m s).0 f (m s).1).0 _
        (keeps s) (continue-Enters (m s).0 f (m s).1 enters)

  module _ (sns : SnsClient B) (sqs : SqsClient B) (attributes : QueueAttributes B)
      (config : SnsConfig) where
    get_sns_client-Keeps : Keeps queues (get_sns_client sns sqs attributes)
    unfolding get_sns_client
    get_sns_client-Keeps s =
        if_elim (λ (r : Result (Unit {0}) × SnsSubscriber B). r.1.setup_complete ≡ s.setup_complete)
          s.has_sns_client (λ _. refl)
          (λ _.
            >>=-Keeps queues (on_clients sns sqs attributes sns.enter) _ (λ t. refl) (λ _ t. refl)
              s)

    get_sqs_client-Keeps : Keeps queues (get_sqs_client sns sqs attributes)
    unfolding get_sqs_client
    get_sqs_client-Keeps s =
        if_elim (λ (r : Result (Unit {0}) × SnsSubscriber B). r.1.setup_complete ≡ s.setup_complete)
          s.has_sqs_client (λ _. refl)
          (λ _.
            >>=-Keeps queues (on_clients sns sqs attributes sqs.enter) _ (λ t. refl) (λ _ t. refl)
              s)

    get_topic_arn-Keeps :
        (resolver : Option (String → String))
        → Keeps queues (get_topic_arn sns sqs attributes config topic resolver)
    get_topic_arn-Keeps (some arn_of) s = refl
    get_topic_arn-Keeps none s =
        >>=-Keeps queues (get_sns_client sns sqs attributes) _ get_sns_client-Keeps (λ _ t. refl) s

    set_up-EntersBy :
        (resolver : Option (String → String))
        → EntersBy (set_up sns sqs attributes config resolver topic none)
    set_up-EntersBy resolver =
        >>=-EntersBy (get_sns_client sns sqs attributes) _ get_sns_client-Keeps (λ _.
          >>=-EntersBy (get_sqs_client sns sqs attributes) _ get_sqs_client-Keeps (λ _.
            >>=-EntersBy (get_topic_arn sns sqs attributes config topic resolver) _
              (get_topic_arn-Keeps resolver)
              (λ arn.
                >>=-EntersBy
                  (on_clients sns sqs attributes (create_queue sns sqs attributes config topic arn))
                  _ (λ t. refl) (λ queue t. get-put_self topic queue t.setup_complete))))

    set_up-Enters :
        (resolver : Option (String → String)) (o : Option (String × String)) (s : SnsSubscriber B)
        → get topic s.setup_complete ≡ o
        → let (r, s') = set_up sns sqs attributes config resolver topic o s in
          Enters topic s.setup_complete r s'.setup_complete
    set_up-Enters resolver (some queue) s e = e
    set_up-Enters resolver none s e = set_up-EntersBy resolver s

    again :
        (resolver : Option (String → String)) (r : Result (String × String)) (s' : SnsSubscriber B)
        (d : Dict String (String × String)) (queue : String × String)
        → Enters topic d r s'.setup_complete
        → r ≡ ok queue
        → setup_subscription sns sqs attributes config resolver topic s' ≡ (ok queue, s')
    unfolding setup_subscription
    again resolver (ok q) s' d queue entered e =
        ap (λ o. set_up sns sqs attributes config resolver topic o s') entered ∙ ap (λ r. (r, s')) e
    again resolver (err x) s' d queue entered e = cc e
    again resolver cancelled s' d queue entered e = cc e

    unchanged :
        (r : Result (String × String)) (d d' : Dict String (String × String))
        → Enters topic d r d'
        → ((queue : String × String) → r ≢ ok queue)
        → d' ≡ d
    unchanged (ok q) d d' entered fails = elim (fails q refl) [ ]
    unchanged (err x) d d' entered fails = entered
    unchanged cancelled d d' entered fails = entered

    -- A call that has set up a topic's queue leaves it in the dictionary of the queues that are set up: the
    -- same call right after it gives the same queue and changes nothing, neither in AWS nor in the
    -- subscriber. A call that fails half-way or is cancelled leaves that dictionary as it was; what it
    -- has done in AWS until then stays.
    pub setup_subscription_lem :
        (resolver : Option (String → String)) (s : SnsSubscriber B)
        → let (r, s') = setup_subscription sns sqs attributes config resolver topic s in
          ((queue : String × String)
            → r ≡ ok queue
            → setup_subscription sns sqs attributes config resolver topic s' ≡ (ok queue, s'))
          × (((queue : String × String) → r ≢ ok queue) → s'.setup_complete ≡ s.setup_complete)
    unfolding setup_subscription
    setup_subscription_lem resolver s =
        let o = get topic s.setup_complete in
        let (r, s') = set_up sns sqs attributes config resolver topic o s in
        let entered = set_up-Enters resolver o s refl in
        (
          λ queue e. again resolver r s' s.setup_complete queue entered e,
          unchanged r s.setup_complete s'.setup_complete entered,
        )
