-- ===== src/Aws/Sqs/Queue.antt =====
-- The URL of a topic's queue.
use natricine.Prelude.{String, ◌≡◌, refl, sym, ap, ◌∙◌, Option, none, some, string_eq}
use natricine.Prelude.Dict.{get, get-put_self}
use natricine.Runtime.{ok, Exec, ◌>>=◌, try_except}
use natricine.Runtime.Laws.{>>=-eq-ok}
use natricine.Aws.Sqs.{
  SqsClient, Sqs, SqsConfig, on_client, get_client, remember, create_missing, resolve, cached_or,
  queue_url_of,
}

module _ {B : Type 0} (client : SqsClient B) (config : SqsConfig) (topic : String) where
  get-resolve :
      (resolver : Option (String → String)) (s : Sqs B) (url : String)
      → (resolve client config topic resolver s).0 ≡ ok url
      → get topic (resolve client config topic resolver s).1.queue_urls ≡ some url
  get-resolve (some url_of) s url h = cc (get-put_self topic (url_of topic) s.queue_urls, h)
  get-resolve none s url h =
      let ask =
        on_client client
          (try_except (client.get_queue_url topic) (create_missing client config topic)) in
      let keep : String → Exec (Sqs B) String = remember client topic in
      let (u, entered, then_) = >>=-eq-ok (get_client client) (λ _. ask >>= keep) s h in
      let s1 = (get_client client s).1 in
      let (found, asked, last) = >>=-eq-ok ask keep s1 (ap (λ r. r.0) (sym then_) ∙ h) in
      let same : ok found ≡ ok url = ap (λ r. r.0) (sym (then_ ∙ last)) ∙ h in
      ap (λ r. get topic r.1.queue_urls) (then_ ∙ last)
      ∙ cc (get-put_self topic found (ask s1).1.queue_urls, same)

  get-cached_or :
      (resolver : Option (String → String)) (o : Option String) (s : Sqs B) (url : String)
      → get topic s.queue_urls ≡ o
      → (cached_or client config resolver topic o s).0 ≡ ok url
      → get topic (cached_or client config resolver topic o s).1.queue_urls ≡ some url
  get-cached_or resolver (some u) s url e h = cc (e, h)
  get-cached_or resolver none s url e h = get-resolve resolver s url h

  -- The URL that a topic resolves to is kept.
  pub get-queue_url_of :
      (resolver : Option (String → String)) (s : Sqs B) (url : String)
      → (queue_url_of client config resolver topic s).0 ≡ ok url
      → get topic (queue_url_of client config resolver topic s).1.queue_urls ≡ some url
  unfolding queue_url_of
  get-queue_url_of resolver s url h = get-cached_or resolver (get topic s.queue_urls) s url refl h

  -- A topic's URL is asked for once: every later call gives the same one and changes nothing, neither in
  -- AWS nor in the object.
  pub queue_url_of_again :
      (resolver : Option (String → String)) (s : Sqs B) (url : String)
      → (queue_url_of client config resolver topic s).0 ≡ ok url
      → let s' = (queue_url_of client config resolver topic s).1 in
        queue_url_of client config resolver topic s' ≡ (ok url, s')
  unfolding queue_url_of
  queue_url_of_again resolver s url h =
      let kept = get-queue_url_of resolver s url h in
      ap
        (λ o.
          cached_or client config resolver topic o (queue_url_of client config resolver topic s).1)
        kept
