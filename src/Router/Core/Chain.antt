-- ===== src/Router/Core/Chain.antt =====
-- The order of the middlewares.
use natricine.Prelude.{◌≡◌, refl, sym, ap, ◌∙◌, List, [], ◌∷◌, ◌++◌}
use mathlib.Core.List.{reverse, reverse-append}
use natricine.Router.Types.{HandlerFunc, Middleware, Handler}
use natricine.Router.Core.{Router, wrap_each, build_chain}

module _ {B : Type 0} where
  -- The first middleware of the list is the outermost.
  abbrev pub compose : List (Middleware B) → HandlerFunc B → HandlerFunc B
  compose [] func = func
  compose (m ∷ ms) func = m (compose ms func)

  wrap_each-append :
      (ms ns : List (Middleware B)) (func : HandlerFunc B)
      → wrap_each (ms ++ ns) func ≡ wrap_each ns (wrap_each ms func)
  unfolding wrap_each
  wrap_each-append [] ns func = refl
  wrap_each-append (m ∷ ms) ns func = wrap_each-append ms ns (m func)

  compose-append :
      (ms ns : List (Middleware B)) (func : HandlerFunc B)
      → compose (ms ++ ns) func ≡ compose ms (compose ns func)
  compose-append [] ns func = refl
  compose-append (m ∷ ms) ns func = ap m (compose-append ms ns func)

  wrap_each-reverse :
      (ms : List (Middleware B)) (func : HandlerFunc B)
      → wrap_each (reverse ms) func ≡ compose ms func
  unfolding wrap_each
  wrap_each-reverse [] func = refl
  wrap_each-reverse (m ∷ ms) func =
      ap (λ l. wrap_each l func) (reverse-append (m ∷ []) ms)
      ∙ wrap_each-append (reverse ms) (m ∷ []) func
      ∙ ap m (wrap_each-reverse ms func)

  -- The loops over the reversed lists build one chain: the router's middlewares in the order in
  -- which they were added, the first outermost, then the handler's own, then the handler.
  pub build_chain-eq-compose :
      {S : Type 0} (router : Router S B) (handler : Handler S B)
      → build_chain router handler
        ≡ compose (router.middlewares ++ handler.middlewares) handler.handler_func
  unfolding build_chain
  build_chain-eq-compose router handler =
      rw (wrap_each-reverse handler.middlewares handler.handler_func) (
        wrap_each-reverse router.middlewares (compose handler.middlewares handler.handler_func)
        ∙ sym (compose-append router.middlewares handler.middlewares handler.handler_func))
