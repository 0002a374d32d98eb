-- ===== src/Lib.antt =====
-- natricine: publishing, routing and handling messages in Python, after Watermill. This library models
-- the core package, packages/natricine, and its backends.
--
-- The parts and how they interact. A publisher puts messages on a topic; a subscriber yields them as
-- `Message` objects, whose `ack` and `nack` call back into its backend. The router runs a handler, wrapped
-- in middlewares, on every message of a subscription, settles the message, and publishes the handler's
-- output. The buses of CQRS do the same for typed commands and events, with dependency injection.
--
-- Which file models which part:
--   Prelude    Boolean tests, lists, equality, Python's dict (insertion order) and integers
--   Runtime    Python's exceptions and cancellation: an `Exec S A` takes a state and gives a result and
--              the state after it, so what was written before a raise stays written
--   Pubsub     packages/natricine/src/natricine/pubsub: Message (message.py: ack, nack, copy), World (the
--              store of shared message objects, and Publisher of publisher.py), Memory (memory.py:
--              InMemoryPubSub.publish, subscribe, _subscribe_iter, close)
--   Router     packages/natricine/src/natricine/router: Types (types.py, handler.py), Middleware
--              (middleware.py: retry, poison_queue, dead_letter_queue, recoverer, timeout), Core
--              (router.py: registration, _run_handler, run, close), Shutdown (shutdown.py)
--   Cqrs       packages/natricine/src/natricine/cqrs: Types (marshaler.py, and what `inspect` shows of a
--              function), Depends (depends.py; Graph has functions that may depend on one another in a
--              circle), Handling (what both buses share), CommandBus
--              (command_bus.py), EventBus (event_bus.py), Routers (router.py), Interleaving (the tasks
--              of a bus as a step relation)
--   Sql        packages/natricine-sql/src/natricine_sql: Dialect (dialect.py, each query as a function on
--              a table), Connection (config.py and the part that publisher.py and subscriber.py share),
--              Publisher (publisher.py), Subscriber (subscriber.py), Competing (several subscribers of a
--              group as a step relation)
--   Kafka      packages/natricine-kafka/src/natricine_kafka: Marshaling (marshaling.py), Publisher
--              (publisher.py), Subscriber (subscriber.py)
--   Http       packages/natricine-http/src/natricine_http: Marshaling (marshaling.py), Publisher
--              (publisher.py), Subscriber and Queues (subscriber.py: a request and its
--              response; the requests and the readers as a step relation)
--   Aws        packages/natricine-aws/src/natricine_aws: Marshaling (marshaling.py), Sqs (sqs.py and
--              config.py), Sns (sns.py: SNSPublisher), Sns/Subscriber (sns.py: SNSSubscriber)
--   Redis      packages/natricine-redisstream/src/natricine_redis: Entry (the fields of an entry), Publisher
--              (publisher.py), Subscriber (subscriber.py), Group (the abstract view of a consumer of a
--              group, which the subscriber refines)
--   Otel       packages/natricine-otel/src/natricine_otel: Propagation (propagation.py), Tracing
--              (middleware.py and publisher.py), Metrics (metrics.py)
--   Chat       examples/chat/src/chat_example: Models (models.py), Store (store.py; Rooms is what is seen of
--              it), Handlers (handlers.py and dependencies.py), App (app.py: the endpoints)
--   Conformance packages/natricine-conformance/src/natricine_conformance/pubsub.py: the suite of tests as
--              actions over a backend (Core, FanOut, Acknowledgment, Robustness, Suite),
--              and InMemoryPubSub as such a backend (Memory)
-- In each part the module Examples holds the tests and the theorems at concrete inputs.
--
-- State and operations. A record stands for the attributes of an object, and a method is a function on
-- it with the name of the method, without its leading underscore. Message objects are shared: the
-- router and the buses reach them by a number in the store `heap` of a World, so that an ack by a
-- handler is seen by the router. `except Exception` does not catch a cancelled task.
--
-- Parameters. Code of other packages is a parameter, with what its documentation says as named
-- hypotheses where a theorem needs them: the streams of anyio (Pubsub/Memory/Anyio), floats, sleep,
-- deadlines, tracebacks and uuid4 (Router/Middleware), worker threads, Pydantic, a database connection
-- and json (Sql/Connection), the producer and the consumer of aiokafka (Kafka), the client of httpx
-- (Http), the clients of aioboto3 (Aws), the client of redis and msgpack (Redis), the tracer and the
-- instruments of opentelemetry (Otel), and signals and task groups (Router/Shutdown).
--
-- Bounds and fuel. The loop of `retry` runs by the rounds that are left, max_retries + 1 of them as in
-- `range`, so it needs no fuel. A loop over a subscription runs by the list of its waits; the polls of
-- Sql, Kafka, Aws and Redis by the number of rounds that the reader waits for. The fuel of
-- Cqrs/Depends/Graph is the number of levels that the resolution may go down; it is enough where it is
-- greater than the rank of a function. Its end is the model's own marker: Python's limit of the stack,
-- near which `except Exception` of depends.py swallows a RecursionError, is not modelled. Numbers of
-- Python are unbounded, and so are they here; times of Sql are whole seconds.
--
-- Not modelled: threads and the event loop, apart from the steps of Cqrs/Interleaving, Http/Queues and
-- Sql/Competing; a change of a topic's subscribers while a publish of InMemoryPubSub waits; the quoting
-- of identifiers and the row locks of PostgreSQL; logging. Of natricine-conformance, the tests of
-- Redelivery, Persistence and ConcurrentClose, and the one that finds a message object shared by two
-- subscribers, as messages are values there; of examples/chat, the routing of FastAPI and the reading of requests.
pub mod Prelude
pub mod Runtime
pub mod Pubsub
pub mod Router
pub mod Cqrs
pub mod Sql
pub mod Kafka
pub mod Http
pub mod Aws
pub mod Redis
pub mod Otel
pub mod Chat
pub mod Conformance
