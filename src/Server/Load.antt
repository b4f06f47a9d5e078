-- ===== src/Server/Load.antt =====
-- server/server.go: loadConfig, which makes routers and handlers of the configurations of all
-- providers.
pub mod Backends
pub mod Frontends
pub mod Loops
pub mod Chains
pub mod Kept
pub mod Keys
pub mod Sharing
use traefik.Prelude.{
  Bool, true, false, Option, none, some, List, [], ◌∷◌, ◌++◌, Str, Dict, str_eq, if◌then◌else◌, ℤ,
  Result,
}
use traefik.HealthCheck.{Options}
use traefik.Rules.Route.{Mux, ServerRoute}
use traefik.Server.Handlers.{Handler}

-- What the packages that the program calls accept: forwarders, URLs, servers with their weight,
-- extractors and limits of connections, circuit breakers, expressions; and what they read.
pub record Platform : Type 0 where
  pub forward_ok : Bool → Bool
  pub url_ok : Str → Bool
  pub upsert_ok : Str → ℤ → Bool
  pub extractor_ok : Str → Bool
  pub conn_limit_ok : Str → ℤ → Bool
  pub circuit_breaker_ok : Str → Bool
  pub compiles : Str → Bool
  pub parse_duration : Str → Option ℤ
  pub read_file : Str → Result Str Str

-- A route of a router, with the frontend that it belongs to.
pub record RouteEntry (R : Type 0) : Type 0 where
  pub frontend_name : Str
  pub server_route : ServerRoute R
  pub handler : Option Handler

-- The maps that loadConfig fills, the routers under the names of their entry points.
pub record LoadState (R : Type 0) : Type 0 where
  pub routers : Dict (List (RouteEntry R))
  pub redirect_handlers : Dict Handler
  pub backends : Dict Handler
  pub health_checks : Dict Options

-- How a step ends: the next one follows, the frontend is skipped, or the program panics or exits.
pub data Signal : Type 0 where
  go_on skip abort : Signal

abbrev pub then_next {ℓ} : {S : Type ℓ} → S × Signal → (S → S × Signal) → S × Signal
then_next (s, go_on) next = next s
then_next (s, skip) next = (s, skip)
then_next (s, abort) next = (s, abort)

-- On to the next frontend, but where the program ends.
abbrev pub after_frontend {ℓ} : {S : Type ℓ} → S × Signal → (S → S × Signal) → S × Signal
after_frontend (s, go_on) next = next s
after_frontend (s, skip) next = next s
after_frontend (s, abort) next = (s, abort)
