-- ===== src/Redis/Subscriber/Streams.antt =====
-- The entries of a response, whatever streams they come in.
use natricine.Prelude.{String, ◌≡◌, refl, sym, ap, fun_ext, ◌∙◌, List, [], ◌∷◌, ◌++◌, string_eq}
use natricine.Runtime.Laws.{>>=_assoc}
use natricine.Runtime.{Exec, ◌>>=◌, ◌>>◌}
use natricine.Pubsub.Message.{Message}
use natricine.Redis.Entry.{Entry, Python}
use natricine.Redis.Subscriber.{
  RedisClient, RedisConfig, RedisStreamSubscriber, on_redis, parse, deliver_each, deliver_streams,
}

-- The entries of a response, in order.
abbrev pub entries_of : List (String × List Entry) → List Entry
entries_of [] = []
entries_of ((name, es) ∷ streams) = es ++ entries_of streams

module _ {B : Type 0} (client : RedisClient B) (config : RedisConfig) (python : Python)
    (topic : String) where
  module _ (body : Message B → Exec (RedisStreamSubscriber B) (Unit {0})) where
    abbrev pub deliver_all : List Entry → Exec (RedisStreamSubscriber B) (Unit {0})
    deliver_all es = deliver_each client config python body topic es

    deliver_each-append :
        (xs ys : List Entry) → deliver_all (xs ++ ys) ≡ deliver_all xs >> deliver_all ys
    unfolding deliver_each
    deliver_each-append [] ys = refl
    deliver_each-append (x ∷ xs) ys =
        let first = on_redis client config (parse client config python topic x) in
        ap (λ n. first >>= λ m. body m >> n) (deliver_each-append xs ys)
        ∙ ap (λ f. first >>= f)
            (fun_ext λ m. sym (>>=_assoc (body m) (λ _. deliver_all xs) (λ _. deliver_all ys)))
        ∙ sym (>>=_assoc first (λ m. body m >> deliver_all xs) (λ _. deliver_all ys))

    -- What streams an entry came in makes no difference.
    pub deliver_streams-eq-deliver_each :
        (streams : List (String × List Entry))
        → deliver_streams client config python body topic streams ≡ deliver_all (entries_of streams)
    unfolding deliver_streams deliver_each
    deliver_streams-eq-deliver_each [] = refl
    deliver_streams-eq-deliver_each ((name, es) ∷ streams) =
        ap (λ n. deliver_all es >> n) (deliver_streams-eq-deliver_each streams)
        ∙ sym (deliver_each-append es (entries_of streams))
