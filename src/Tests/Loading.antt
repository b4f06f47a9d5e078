-- ===== src/Tests/Loading.antt =====
-- Configurations that are loaded.
use traefik.Prelude.{
  update, true, false, none, some, [], ◌∷◌, Str, codes, str_eq, Dict, lookup, insert, ◌≡◌, refl, ℤ,
  pos, err,
}
use traefik.Types.{Backend, Frontend, Configuration}
use traefik.Types.Balancing.{wrr, new_load_balancer_method}
use traefik.Rules.Route.Sizes.{sort_texts, sort_texts-perm, sort_texts-IsBySize}
use traefik.Rules.Route.{Mux}
use traefik.Server.Settings.{GlobalConfiguration, EntryPoint}
use traefik.Server.Handlers.{
  BackendChain, to_backend, wire_frontend_backend, parse_health_check_options,
}
use traefik.Server.Load.{Platform, RouteEntry}
use traefik.Server.Load.Backends.{
  build_backend, add_servers, wrr_servers, finish_chain, limit_of, limit_ok, retries_of,
  frontend_auth, breaker_ok,
}
use traefik.Server.Load.Frontends.{
  build_entry_points, add_routes, register, with_backend, with_built, give_handler, after_routes,
  wire_entry_point, wire_entry_points, load_frontend, load_frontends, load_configurations,
  load_start, load_config, sorted_frontend_names,
}
use traefik.Server.Load.Chains.{innermost, chain_of}
use traefik.Server.Load.Sharing.{load_config_shares_backends}
use traefik.Server.Reload.{server_start, reload_all}
use traefik.Server.Reload.Current.{IsCurrent, reload_all-IsCurrent}

abbrev a_mux : Mux
a_mux = record {
  Route = ℤ;
  matcher_func = λ m r. r;
  subrouter = λ m r. r;
  methods = λ m r. r;
  headers = λ m r. r;
  headers_regexp = λ m r. r;
  get_error = λ r. none;
  get_priority = λ r. r;
  set_priority = λ p r. p;
  sort_by_size = sort_texts;
  sort_by_size-perm = sort_texts-perm;
  sort_by_size-IsBySize = sort_texts-IsBySize;
}

abbrev new_route : Str → ℤ
new_route name = pos 0

abbrev a_platform : Platform
a_platform = record {
  forward_ok = λ b. true;
  url_ok = λ u. true;
  upsert_ok = λ u w. true;
  extractor_ok = λ e. true;
  conn_limit_ok = λ e n. true;
  circuit_breaker_ok = λ e. true;
  compiles = λ e. true;
  parse_duration = λ d. none;
  read_file = λ f. err f;
}

abbrev plain : EntryPoint
plain = record {
  network = [];
  address = codes ":80";
  tls = none;
  redirect = none;
  auth = none;
  compress = false;
}

abbrev settings : GlobalConfiguration
settings = record {
  entry_points = (codes "http", plain) ∷ (codes "web", plain) ∷ [];
  default_entry_points = codes "http" ∷ [];
  providers_throttle_duration = 2;
  retry = none;
  health_check_interval = pos 30;
  prometheus = false;
}

abbrev a_backend : Backend
a_backend = record {
  servers = (codes "s", record { url = codes "http://a"; weight = pos 1 }) ∷ [];
  circuit_breaker = none;
  load_balancer = some (record { method = codes "wrr"; sticky = false });
  max_conn = none;
  health_check = none;
}

abbrev a_frontend : Frontend
a_frontend = record {
  entry_points = codes "http" ∷ codes "web" ∷ [];
  backend = codes "b";
  routes = [];
  pass_host_header = true;
  priority = pos 0;
  basic_auth = [];
}

abbrev a_configuration : Configuration
a_configuration = record {
  backends = some ((codes "b", a_backend) ∷ []);
  frontends = some ((codes "f", a_frontend) ∷ []);
}

abbrev configurations : Dict Configuration
configurations = (codes "file", a_configuration) ∷ []

abbrev a_chain : BackendChain
a_chain = record {
  frontend_name = codes "f";
  backend_name = codes "b";
  pass_host_header = true;
  method = wrr;
  sticky = false;
  servers = (codes "http://a", pos 1) ∷ [];
  max_conn = none;
  retries = none;
  prometheus = false;
  authenticator = none;
  circuit_breaker = none;
}

abbrev an_entry : RouteEntry ℤ
an_entry = record {
  frontend_name = codes "f";
  server_route = record {
    route = pos 0;
    strip_prefixes = [];
    strip_prefixes_regex = [];
    add_prefix = [];
    replace_path = [];
  };
  handler = some (to_backend a_chain);
}

load_config_shares_backends_example : a_chain ≡ a_chain
unfolding load_config load_configurations load_start load_frontends load_frontend wire_entry_points
    wire_entry_point after_routes give_handler with_backend with_built register add_routes
    build_entry_points sorted_frontend_names build_backend add_servers wrr_servers finish_chain
    limit_of limit_ok retries_of frontend_auth breaker_ok new_load_balancer_method
    parse_health_check_options wire_frontend_backend update lookup insert str_eq chain_of innermost
    traefik.Text.equal_fold
load_config_shares_backends_example =
    load_config_shares_backends a_mux new_route a_platform settings configurations (codes "http")
      (codes "web") [] [] [] [] an_entry an_entry a_chain a_chain refl refl refl refl refl

reload_all-IsCurrent_example : IsCurrent a_mux new_route a_platform settings (
    reload_all a_mux new_route a_platform settings
      ((codes "file", a_configuration) ∷ (codes "docker", a_configuration) ∷ [])
      (server_start a_mux new_route a_platform settings))
unfolding str_eq
reload_all-IsCurrent_example =
    reload_all-IsCurrent a_mux new_route a_platform settings
      ((codes "file", a_configuration) ∷ (codes "docker", a_configuration) ∷ [])
      ((refl, tt), (tt, tt))
