-- ===== src/Server/Load/Chains.antt =====
-- server/server.go: the chain at the end of a route's handler, and that of a backend that was built.
use traefik.Prelude.{
  Bool, Option, none, some, Str, Dict, ◌≡◌, refl, arith, Bool-cases, inl, inr, is_some,
  Result-cases,
}
use traefik.HealthCheck.{Options}
use traefik.Types.Balancing.{LoadBalancerMethod, new_load_balancer_method}
use traefik.Types.{Frontend, Backend}
use traefik.Rules.Route.{ServerRoute}
use traefik.Server.Settings.{GlobalConfiguration}
use traefik.Server.Handlers.{
  Handler, BackendChain, to_backend, to_redirect, with_add_prefix, with_strip_prefix,
  with_strip_prefix_regex, with_replace_path, wire_frontend_backend,
}
use traefik.Server.Load.{Platform, RouteEntry}
use traefik.Server.Load.Backends.{
  Built, built, skipped, fatal, build_backend, finish_chain, limit_ok, limit_of, add_servers,
  is_sticky, frontend_auth, breaker_ok,
}

-- The backend at the end of the handlers.
unfoldable pub innermost : Handler → Option BackendChain
innermost (to_backend c) = some c
innermost (to_redirect _ _ _) = none
innermost (with_add_prefix _ h) = innermost h
innermost (with_strip_prefix _ h) = innermost h
innermost (with_strip_prefix_regex _ h) = innermost h
innermost (with_replace_path _ h) = innermost h

module _ {R : Type 0} where
  unfoldable pub chain_of : RouteEntry R → Option BackendChain
  chain_of entry = elim entry.handler [ none ↦ none | some h ↦ innermost h ]

  pub innermost-wire_frontend_backend :
      (sr : ServerRoute R) (h : Handler) → innermost (wire_frontend_backend sr h) ≡ innermost h
  unfolding innermost wire_frontend_backend
  innermost-wire_frontend_backend sr h = ground arith

pub redirect_innermost : (re to name : Str) → innermost (to_redirect re to name) ≡ none
unfolding innermost
redirect_innermost re to name = refl

-- The handler that was built for a backend is its chain.
abbrev pub IsChainOf : Str → Handler → Type 0
IsChainOf k h = (c : BackendChain) × (h ≡ to_backend c) × (c.backend_name ≡ k)

abbrev pub BuiltFor : Str → Built → Type 0
BuiltFor k (built h) = IsChainOf k h
BuiltFor k skipped = Unit
BuiltFor k fatal = Unit

module _ (platform : Platform) (gc : GlobalConfiguration) where
  finish_chain-BuiltFor :
      (name : Str) (f : Frontend) (b : Backend) (m : LoadBalancerMethod) (sticky : Bool)
      → BuiltFor f.backend (finish_chain platform gc name f b m sticky)
  unfolding finish_chain
  finish_chain-BuiltFor name f b m sticky =
      elim (Bool-cases (limit_ok platform gc (limit_of platform gc b.max_conn))) [
        | inr n ↦ rw n tt
        | inl y ↦ rw y (elim (Result-cases (frontend_auth platform gc f.basic_auth)) [
          | inr (e, q) ↦ rw q tt
          | inl (a, q) ↦ rw q (elim (Bool-cases (breaker_ok platform gc b.circuit_breaker)) [
            | inr n ↦ rw n tt
            | inl z ↦ rw z (_, refl, refl)
          ])
        ])
      ]

  pub build_backend-BuiltFor :
      (name : Str) (f : Frontend) (b : Option Backend) (checks : Dict Options)
      → BuiltFor f.backend (build_backend platform gc name f b checks).1
  unfolding build_backend
  build_backend-BuiltFor name f none checks = tt
  build_backend-BuiltFor name f (some b) checks =
      let method = (new_load_balancer_method b.load_balancer).0 in
      elim (Bool-cases (is_some (new_load_balancer_method b.load_balancer).1)) [
        | inl y ↦ rw y tt
        | inr n ↦ rw n (elim (Bool-cases (add_servers platform gc method f.backend b checks).1) [
          | inr m ↦ rw m tt
          | inl y ↦ rw y (finish_chain-BuiltFor name f b method (is_sticky platform gc b))
        ])
      ]
