-- ===== src/Server/PostLoad.antt =====
-- server/server.go: postLoadConfig, which asks for certificates for the hosts of the rules.
pub mod Requests
use traefik.Prelude.{
  Bool, true, false, not, Option, none, some, List, [], ◌∷◌, ◌++◌, Str, Dict, lookup, is_some,
  if◌then◌else◌, Result, ok, err,
}
use mathlib.Core.Option.{get_or}
use traefik.Types.{Route, Frontend, Configuration}
use traefik.Rules.Domains.{parse_domains}
use traefik.Server.Settings.{EntryPoint}

-- The loop over the entry points of a frontend; `none` is a panic, at an entry point that is nil.
unfoldable pub tls_enabled : Dict EntryPoint → List Str → Option Bool
tls_enabled entry_points [] = some false
tls_enabled entry_points (e ∷ es) = elim (lookup e entry_points) [
  | none ↦ none
  | some ep ↦ if is_some ep.tls then some true else tls_enabled entry_points es
]

-- The calls of LoadCertificateForDomains for the routes of a frontend.
unfoldable pub route_requests : Dict Route → List (List Str)
route_requests [] = []
route_requests ((_, r) ∷ routes) = elim (parse_domains r.rule) [
  | err _ ↦ route_requests routes
  | ok domains ↦ domains ∷ route_requests routes
]

-- The calls of a loop, and whether it ran to its end; those of the rest follow where it did.
unfoldable pub and_then : List (List Str) × Bool → List (List Str) × Bool → List (List Str) × Bool
and_then (calls, true) (rest, completed) = (calls ++ rest, completed)
and_then (calls, false) _ = (calls, false)

unfoldable pub frontend_requests : Dict EntryPoint → Frontend → List (List Str) × Bool
frontend_requests entry_points frontend = elim (tls_enabled entry_points frontend.entry_points) [
  | none ↦ ([], false)
  | some enabled ↦ (if enabled then route_requests frontend.routes else [], true)
]

unfoldable pub frontends_requests : Dict EntryPoint → Dict Frontend → List (List Str) × Bool
frontends_requests entry_points [] = ([], true)
frontends_requests entry_points ((_, f) ∷ frontends) =
    and_then (frontend_requests entry_points f) (frontends_requests entry_points frontends)

unfoldable pub configurations_requests :
    Dict EntryPoint → Dict Configuration → List (List Str) × Bool
configurations_requests entry_points [] = ([], true)
configurations_requests entry_points ((_, c) ∷ configurations) =
    and_then (frontends_requests entry_points (get_or c.frontends []))
      (configurations_requests entry_points configurations)

-- postLoadConfig: `on_host_rule` is that of ACME, where ACME is set, and `is_leader` what the
-- leadership says, where there is one.
unfoldable pub post_load_config :
    Option Bool → Option Bool → Dict EntryPoint → Dict Configuration → List (List Str) × Bool
post_load_config none is_leader entry_points configurations = ([], true)
post_load_config (some on_host_rule) is_leader entry_points configurations =
    if not (get_or is_leader true)
    then ([], true)
    else if on_host_rule
    then configurations_requests entry_points configurations
    else ([], true)
