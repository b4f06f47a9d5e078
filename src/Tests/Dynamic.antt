-- ===== src/Tests/Dynamic.antt =====
-- Messages of providers, and requests to wired routes.
use traefik.Prelude.{
  ℕ, ◌<◌, length, Bool, true, false, Option, none, some, List, [], ◌∷◌, ◌++◌, Str, codes, lookup,
  insert, All, ◌≡◌, refl, pos, arith,
}
use traefik.Text.{after_prefix, trim_space, trim_left, trim_right}
use traefik.Types.{Configuration, ConfigMessage}
use traefik.Types.Balancing.{wrr}
use traefik.Middlewares.{Request}
use traefik.Rules.Route.{ServerRoute}
use traefik.Server.Defaults.{default_configuration_values}
use traefik.Server.Throttle.{
  State, Event, received, woken, start, steps, with_defaults, is_same, receive, accept,
}
use traefik.Server.Throttle.Delivery.{FromSome, steps-FromSome}
use mathlib.Core.List.{Mem}
use traefik.Server.Throttle.Progress.{IsSchedule, last_delivered}
use traefik.Server.Throttle.Lost.{IsNew, first_provider_lost}
use traefik.Server.Handlers.{Handler, BackendChain, to_backend, wire_frontend_backend}
use traefik.Server.Handlers.Wiring.{serve-wire_frontend_backend}

abbrev no_frontends : Configuration
no_frontends = record { backends = some []; frontends = none }

abbrev from_docker : ConfigMessage
from_docker = record { provider_name = codes "docker"; configuration = some no_frontends }

abbrev from_file : ConfigMessage
from_file = record { provider_name = codes "file"; configuration = some no_frontends }

abbrev never : Configuration → Configuration → Bool
never c d = false

abbrev events : List Event
events = received 10 [] from_docker ∷ received 11 [] from_file ∷ woken 12 0 ∷ woken 14 0 ∷ []

steps-FromSome_example : All (FromSome [] 2 never events) (steps [] 2 never events start).validated
steps-FromSome_example = steps-FromSome [] 2 never events

docker-IsNew : IsNew [] 2 never [] from_docker
unfolding is_same lookup default_configuration_values
docker-IsNew = record { not_empty = refl; not_same = refl }

file-IsNew : IsNew [] 2 never [] from_file
unfolding is_same lookup default_configuration_values
file-IsNew = record { not_empty = refl; not_same = refl }

abbrev at_nine : State
at_nine = record { last_received = 9; last_configs = []; timers = []; validated = [] }

first_provider_lost_example :
    let after =
      steps [] 2 never
        (received 10 [] from_docker ∷ received 11 [] from_file ∷ woken 12 0 ∷ woken 14 0 ∷ [])
        at_nine in
    (after.validated ≡ with_defaults [] from_file ∷ []) × (after.timers ≡ [])
first_provider_lost_example =
    first_provider_lost [] 2 never at_nine from_docker from_file 10 11 12 14 [] [] refl docker-IsNew
      file-IsNew (omega arith) (omega arith) (omega arith) (omega arith) (omega arith)

one_waits :
    12 < 13
    → IsSchedule 12 (length (receive [] 2 never 10 [] from_docker at_nine).timers) (woken 13 0 ∷ [])
unfolding receive accept is_same lookup default_configuration_values
one_waits h = (h, omega arith, tt)

last_delivered_example :
    let after = steps [] 2 never (received 10 [] from_docker ∷ woken 13 0 ∷ []) at_nine in
    (after.timers ≡ []) × Mem (with_defaults [] from_docker) after.validated
last_delivered_example =
    last_delivered [] 2 never 10 [] from_docker at_nine (woken 13 0 ∷ []) docker-IsNew tt
      (one_waits (omega arith))

abbrev web : BackendChain
web = record {
  frontend_name = codes "f";
  backend_name = codes "web";
  pass_host_header = true;
  method = wrr;
  sticky = false;
  servers = (codes "http://a", pos 1) ∷ [];
  max_conn = none;
  retries = none;
  prometheus = false;
  authenticator = none;
  circuit_breaker = none;
}

abbrev a_request : Request
a_request = record {
  method = codes "GET";
  host = codes "foo.com";
  path = codes "/api/users";
  query = [];
  request_uri = codes "/api/users";
  header = [];
}

abbrev join_uri : Str → Str → Str
join_uri path query = path ++ query

abbrev no_prefix : List Str → Request → Option (Option Str)
no_prefix ps r = none

abbrev seen : Handler → Request → Request
seen h r = r

serve-wire_frontend_backend_example :
    let sr : ServerRoute ℕ = record {
      route = 0;
      strip_prefixes = codes "/admin" ∷ codes "/api" ∷ [];
      strip_prefixes_regex = [];
      add_prefix = codes "/v1";
      replace_path = [];
    } in
    traefik.Server.Handlers.serve join_uri a_request a_request no_prefix seen
      (wire_frontend_backend sr (to_backend web))
      a_request
    ≡ record a_request {
      path = codes "/v1/users";
      request_uri = join_uri (codes "/v1/users") [];
      header = insert (codes "X-Forwarded-Prefix") (codes "/api" ∷ []) a_request.header;
    }
unfolding trim_space trim_left trim_right after_prefix
serve-wire_frontend_backend_example =
    serve-wire_frontend_backend join_uri a_request a_request no_prefix seen 0 (codes "/admin" ∷ [])
      [] (codes "/api") (codes "/v1") (codes "/users") web a_request ((refl, refl), tt) (refl, refl)
      (refl, tt) refl
