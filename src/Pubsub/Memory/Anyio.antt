-- ===== src/Pubsub/Memory/Anyio.antt =====
-- The memory object streams of anyio, as memory.py uses them: a parameter of the model.
use natricine.Prelude.{ℕ, ◌≡◌, ◌≢◌, Bool, false, Option, List, [], ◌∷◌, ◌++◌}
use natricine.Runtime.{ok, Exec}

-- A stream is named by a number, the identity of its object.
pub record Streams (M : Type 0) : Type 1 where
  pub Env : Type 0
  -- anyio.create_memory_object_stream(size): the send stream, the receive stream
  pub create : ℕ → Env → ℕ × ℕ × Env
  pub send : ℕ → M → Exec Env (Unit {0})
  -- `none` at the end of the stream
  pub receive : ℕ → Exec Env (Option M)
  pub close_send : ℕ → Exec Env (Unit {0})
  pub close_receive : ℕ → Exec Env (Unit {0})

-- What anyio documents of them. `sent h env` is what the send stream `h` has taken so far, oldest
-- first, and `exists_in h env` tells whether the object `h` has been made.
pub record StreamLaws {M : Type 0} (streams : Streams M) : Type 0 where
  pub sent : ℕ → streams.Env → List M
  pub exists_in : ℕ → streams.Env → Bool
  -- A send that returns has put the item behind the others, and touched no other stream.
  pub sent-send_self :
      (h : ℕ) (m : M) (env : streams.Env)
      → (streams.send h m env).0 ≡ ok tt
      → sent h (streams.send h m env).1 ≡ sent h env ++ m ∷ []
  pub sent-send_ne :
      (h j : ℕ) (m : M) (env : streams.Env) → h ≢ j → sent j (streams.send h m env).1 ≡ sent j env
  -- A new stream is a new object, and is empty.
  pub create_new :
      (size : ℕ) (env : streams.Env) → exists_in (streams.create size env).0 env ≡ false
  pub sent-create :
      (size : ℕ) (env : streams.Env)
      → sent (streams.create size env).0 (streams.create size env).2 ≡ []
