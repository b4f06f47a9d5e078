-- ===== src/Server/Load/Backends.antt =====
-- server/server.go: the part of loadConfig that builds the handler of a backend.
use traefik.Prelude.{
  Bool, true, false, not, ◌&&◌, Option, none, some, List, [], ◌∷◌, map, Str, Dict, insert, is_some,
  if◌then◌else◌, ℤ, pos, is_positive, is_zero, length, Result, ok, err,
}
use mathlib.Core.Option
use mathlib.Core.Option.{get_or}
use traefik.Types.{Backend, Frontend, Server, MaxConn, CircuitBreaker, Auth, Basic}
use traefik.Types.Balancing.{LoadBalancerMethod, wrr, drr, new_load_balancer_method}
use traefik.HealthCheck.{Options}
use traefik.Middlewares.Auth.{Authenticator, AuthError, new_authenticator}
use traefik.Server.Settings.{GlobalConfiguration, Retry}
use traefik.Server.Handlers.{Handler, to_backend, parse_health_check_options}
use traefik.Server.Load.{Platform}

-- A handler, or why there is none: the frontend is skipped, or the program exits.
pub data Built : Type 0 where
  built : Handler → Built
  skipped : Built
  fatal : Built

module _ (platform : Platform) (gc : GlobalConfiguration) where
  open platform use {url_ok, upsert_ok, extractor_ok, conn_limit_ok, circuit_breaker_ok}

  abbrev pub server_ok : Server → Bool
  server_ok s = url_ok s.url && upsert_ok s.url s.weight

  -- The health check of a backend is set, where it has options.
  abbrev pub set_check : Str → Backend → Dict Options → Dict Options
  set_check name backend checks =
      elim (parse_health_check_options platform.parse_duration backend.health_check
        gc.health_check_interval) [ none ↦ checks | some o ↦ insert name o checks ]

  -- The loop of the method Drr: the check is set behind each server that is added.
  unfoldable pub drr_servers : Str → Backend → Dict Server → Dict Options → Dict Options × Bool
  drr_servers name backend [] checks = (checks, true)
  drr_servers name backend ((_, s) ∷ servers) checks =
      let rest = drr_servers name backend servers (set_check name backend checks) in
      if server_ok s then rest else (checks, false)

  -- The loop of the method Wrr.
  unfoldable pub wrr_servers : Dict Server → Bool
  wrr_servers [] = true
  wrr_servers ((_, s) ∷ servers) = server_ok s && wrr_servers servers

  -- The servers of a backend are added to its load balancer.
  unfoldable pub add_servers :
      LoadBalancerMethod → Str → Backend → Dict Options → Dict Options × Bool
  add_servers drr name backend checks = drr_servers name backend backend.servers checks
  add_servers wrr name backend checks =
      if wrr_servers backend.servers then (set_check name backend checks, true) else (checks, false)

  -- A limit of connections applies where its amount is not zero.
  unfoldable pub limit_of : Option MaxConn → Option MaxConn
  limit_of none = none
  limit_of (some m) = if is_zero m.amount then none else some m

  unfoldable pub limit_ok : Option MaxConn → Bool
  limit_ok none = true
  limit_ok (some m) = extractor_ok m.extractor_func && conn_limit_ok m.extractor_func m.amount

  -- Retries, as many as there are servers where the configuration gives no number.
  unfoldable pub retries_of : Option Retry → Backend → Option ℤ
  retries_of none backend = none
  retries_of (some retry) backend =
      some (if is_positive retry.attempts then retry.attempts else pos (length backend.servers))

  -- Basic authentication over the users of a frontend; `err` ends the program.
  unfoldable pub frontend_auth : List Str → Result AuthError (Option Authenticator)
  frontend_auth [] = ok none
  frontend_auth (u ∷ us) =
      let basic : Basic = record { users = u ∷ us; users_file = [] } in
      let auth : Auth = record { basic = some basic; digest = none; header_field = [] } in
      elim (new_authenticator platform.read_file (some auth)) [ err e ↦ err e | ok a ↦ ok (some a) ]

  unfoldable pub breaker_ok : Option CircuitBreaker → Bool
  breaker_ok none = true
  breaker_ok (some c) = circuit_breaker_ok c.expression

  -- The rest of the chain, behind the load balancer.
  unfoldable pub finish_chain : Str → Frontend → Backend → LoadBalancerMethod → Bool → Built
  finish_chain frontend_name frontend backend method sticky =
      if not (limit_ok (limit_of backend.max_conn))
      then skipped
      else elim (frontend_auth frontend.basic_auth) [
        | err _ ↦ fatal
        | ok authenticator ↦
            if not (breaker_ok backend.circuit_breaker)
            then skipped
            else built (
                to_backend (record {
                  frontend_name = frontend_name;
                  backend_name = frontend.backend;
                  pass_host_header = frontend.pass_host_header;
                  method = method;
                  sticky = sticky;
                  servers = map (λ (p : Str × Server). (p.1.url, p.1.weight)) backend.servers;
                  max_conn = limit_of backend.max_conn;
                  retries = retries_of gc.retry backend;
                  prometheus = gc.prometheus;
                  authenticator = authenticator;
                  circuit_breaker =
                      Option.map (λ (c : CircuitBreaker). c.expression) backend.circuit_breaker;
                }))
      ]

  abbrev pub is_sticky : Backend → Bool
  is_sticky backend = elim backend.load_balancer [ none ↦ false | some lb ↦ lb.sticky ]

  -- The handler of the backend that a frontend names, and the health checks that are set on the way.
  unfoldable pub build_backend :
      Str → Frontend → Option Backend → Dict Options → Dict Options × Built
  build_backend frontend_name frontend none checks = (checks, skipped)
  build_backend frontend_name frontend (some backend) checks =
      let (method, failure) = new_load_balancer_method backend.load_balancer in
      if is_some failure
      then (checks, skipped)
      else let (checks', added) = add_servers method frontend.backend backend checks in
        if added
        then (checks', finish_chain frontend_name frontend backend method (is_sticky backend))
        else (checks', skipped)
