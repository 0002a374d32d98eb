-- ===== src/Otel/Propagation.antt =====
-- packages/natricine-otel/src/natricine_otel/propagation.py.
pub mod Injection
use natricine.Prelude.{String, List, [], ◌∷◌, string_eq}
use natricine.Prelude.Dict.{Dict, put}
use natricine.Pubsub.Message.{Message, fresh}

-- `propagate` of opentelemetry: what it writes into an empty carrier, and the context that it reads from one,
-- or else the current one.
pub record Propagator (Context S : Type 0) : Type 0 where
  pub inject : S → Dict String String
  pub extract : Dict String String → S → Context

-- {**d, **carrier}
unfoldable pub merge : Dict String String → Dict String String → Dict String String
merge d [] = d
merge d ((key, value) ∷ carrier) = merge (put key value d) carrier

-- `inject_context`, by the carrier
unfoldable pub inject_context : {B : Type 0} → Dict String String → Message B → Message B
inject_context [] m = m
inject_context (entry ∷ carrier) m = fresh m.payload (merge m.metadata (entry ∷ carrier)) m.uuid
