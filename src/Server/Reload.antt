-- ===== src/Server/Reload.antt =====
-- server/server.go: listenConfigurations, which replaces the handlers of the running entry points.
pub mod Current
use traefik.Prelude.{
  update, Bool, true, false, Option, none, some, List, [], ◌∷◌, ◌++◌, Str, str_eq, Dict, lookup,
  insert, lookup-insert, if◌then◌else◌, ◌≡◌, refl, sym, ap, ◌∙◌, subst, All, inl, inr, Bool-cases,
}
use mathlib.Core.Option.{get_or}
use traefik.HealthCheck.{Options}
use traefik.Types.{Configuration, ConfigMessage}
use traefik.Rules.Route.{Mux}
use traefik.Server.Settings.{GlobalConfiguration}
use traefik.Server.Load.{Platform, RouteEntry, LoadState, Signal, go_on, skip, abort}
use traefik.Server.Load.Frontends.{load_config, build_entry_points}
use traefik.Server.Load.Keys.{keys}

-- What the server keeps: the configuration of each provider, the handlers of the entry points, the
-- health checks that were set last, and whether the program still runs. The configuration of a
-- message that gets here is never nil.
pub record ServerState (R : Type 0) : Type 0 where
  pub current_configurations : Dict Configuration
  pub server_entry_points : Dict (List (RouteEntry R))
  pub health_checks : Dict Options
  pub is_running : Bool

module _ {R : Type 0} where
  -- `m[k].UpdateHandler(h)` for each router that was loaded.
  unfoldable pub update_handlers :
      Dict (List (RouteEntry R)) → Dict (List (RouteEntry R)) → Dict (List (RouteEntry R))
  update_handlers [] m = m
  update_handlers ((k, router) ∷ loaded) m = update_handlers loaded (update k (λ _. router) m)

module _ (mux : Mux) (new_route : Str → mux.Route) (platform : Platform)
    (gc : GlobalConfiguration) where
  -- startHTTPServers: empty routers, before any configuration has come.
  unfoldable pub server_start : ServerState mux.Route
  server_start = record {
    current_configurations = [];
    server_entry_points = build_entry_points gc.entry_points;
    health_checks = [];
    is_running = true;
  }

  unfoldable pub replace_handlers :
      Dict Configuration
      → LoadState mux.Route × Signal
      → ServerState mux.Route
      → ServerState mux.Route
  replace_handlers configurations (loaded, abort) s = record s { is_running = false }
  replace_handlers configurations (loaded, _) s = record s {
    current_configurations = configurations;
    server_entry_points = update_handlers loaded.routers s.server_entry_points;
    health_checks = loaded.health_checks;
  }

  -- The body of the loop of listenConfigurations, for a message of a provider. loadConfig never
  -- returns an error: it ends, or the program does.
  unfoldable pub reload : Str → Configuration → ServerState mux.Route → ServerState mux.Route
  reload name configuration s =
      let configurations = insert name configuration s.current_configurations in
      if s.is_running
      then replace_handlers configurations (load_config mux new_route platform gc configurations) s
      else s

  unfoldable pub reload_all :
      List (Str × Configuration) → ServerState mux.Route → ServerState mux.Route
  reload_all [] s = s
  reload_all ((name, c) ∷ messages) s = reload_all messages (reload name c s)
