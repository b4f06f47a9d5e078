-- ===== src/Server/Load/Frontends.antt =====
-- server/server.go: the loops of loadConfig over the configurations, their frontends, the entry
-- points of a frontend and its routes.
use traefik.Prelude.{
  update, Bool, true, false, not, Option, none, some, List, [], ◌∷◌, ◌++◌, Str, Dict, lookup,
  insert, ltb, ◌==◌, if◌then◌else◌, ℤ, is_positive, is_empty, ok, err,
}
use mathlib.Core.Option.{get_or}
use traefik.Types.{Route, Frontend, Backend, Configuration}
use traefik.Rules.Route.{Mux, ServerRoute, routed, failed, panicked, get_route}
use traefik.HealthCheck.{Options}
use traefik.Server.Settings.{GlobalConfiguration, EntryPoint, Redirect}
use traefik.Server.Handlers.{Handler, to_redirect, wire_frontend_backend, load_entry_point_config}
use traefik.Server.Load.{
  Platform, RouteEntry, LoadState, Signal, go_on, skip, abort, then_next, after_frontend,
}
use traefik.Server.Load.Backends.{Built, built, skipped, fatal, build_backend}

-- `a <= b` of two strings, which Go compares by their bytes: in UTF-8 that is the order of the code
-- points.
abbrev pub str_leb : Str → Str → Bool
str_leb [] t = true
str_leb (c ∷ s) [] = false
str_leb (c ∷ s) (d ∷ t) =
    let rest = str_leb s t in if ltb c d then true else if c == d then rest else false

abbrev pub insert_name : Str → List Str → List Str
insert_name a [] = a ∷ []
insert_name a (b ∷ bs) = let rest = insert_name a bs in if str_leb a b then a ∷ b ∷ bs else b ∷ rest

-- sortedFrontendNamesForConfig
unfoldable pub sorted_frontend_names : Dict Frontend → List Str
sorted_frontend_names [] = []
sorted_frontend_names ((name, _) ∷ m) = insert_name name (sorted_frontend_names m)

-- buildEntryPoints: an empty router for each entry point.
unfoldable pub build_entry_points {ℓ} : {A : Type ℓ} → Dict EntryPoint → Dict (List A)
build_entry_points [] = []
build_entry_points ((name, _) ∷ m) = (name, []) ∷ build_entry_points m

-- `new_route` is the route that NewRoute and Name give, for the name of a frontend.
module _ (mux : Mux) (new_route : Str → mux.Route) (platform : Platform)
    (gc : GlobalConfiguration) where
  open mux use {set_priority}

  -- The loop over the routes of a frontend.
  unfoldable pub add_routes : Dict Route → ServerRoute mux.Route → ServerRoute mux.Route × Signal
  add_routes [] sr = (sr, go_on)
  add_routes ((_, r) ∷ routes) sr =
      let (sr', outcome) = get_route mux r.rule sr in
      let rest = add_routes routes sr' in
      elim outcome [ routed ↦ rest | failed _ ↦ (sr', skip) | panicked ↦ (sr', abort) ]

  -- The route is on the router of its entry point, with the handler it was given.
  unfoldable pub register : Str → RouteEntry mux.Route → LoadState mux.Route → LoadState mux.Route
  register entry_point entry s = record s {
    routers = update entry_point (λ es. es ++ entry ∷ []) s.routers;
  }

  abbrev pub entry_of : Str → ServerRoute mux.Route → Option Handler → RouteEntry mux.Route
  entry_of name sr h = record { frontend_name = name; server_route = sr; handler = h }

  -- The priority that a frontend asks for, above what its rules gave.
  abbrev pub prioritized : ℤ → ServerRoute mux.Route → ServerRoute mux.Route
  prioritized priority sr =
      if is_positive priority then record sr { route = set_priority priority sr.route } else sr

  -- An entry point that redirects: its first route makes the handler.
  unfoldable pub with_redirect :
      Str
      → Str
      → Redirect
      → ServerRoute mux.Route
      → LoadState mux.Route
      → LoadState mux.Route × Signal
  with_redirect name entry_point redirect sr s = elim (lookup entry_point s.redirect_handlers) [
    | some h ↦ (register entry_point (entry_of name sr (some h)) s, go_on)
    | none ↦
        elim (load_entry_point_config platform.compiles gc.entry_points redirect.entry_point
          redirect.regex redirect.replacement) [
            | err _ ↦ (register entry_point (entry_of name sr none) s, skip)
            | ok (regex, replacement) ↦
                let h = to_redirect regex replacement name in
                (
                  register entry_point (entry_of name sr (some h))
                      (record s { redirect_handlers = insert entry_point h s.redirect_handlers }),
                  go_on,
                )
          ]
  ]

  -- The route of a frontend is wired to the handler of its backend.
  abbrev pub wire :
      Str
      → Frontend
      → Str
      → ServerRoute mux.Route
      → Handler
      → LoadState mux.Route
      → LoadState mux.Route
  wire name frontend entry_point sr h s =
      let h' = wire_frontend_backend sr h in
      register entry_point (entry_of name (prioritized frontend.priority sr) (some h')) s

  -- Where the handler of the backend had to be built.
  unfoldable pub with_built :
      Str
      → Frontend
      → Str
      → ServerRoute mux.Route
      → LoadState mux.Route
      → Dict Options × Built
      → LoadState mux.Route × Signal
  with_built name frontend entry_point sr s (checks, fatal) = (s, abort)
  with_built name frontend entry_point sr s (checks, skipped) =
      (register entry_point (entry_of name sr none) (record s { health_checks = checks }), skip)
  with_built name frontend entry_point sr s (checks, built h) = (
    wire name frontend entry_point sr h
        (record s { health_checks = checks; backends = insert frontend.backend h s.backends }),
    go_on,
  )

  unfoldable pub with_backend :
      Str
      → Frontend
      → Dict Backend
      → Str
      → ServerRoute mux.Route
      → LoadState mux.Route
      → LoadState mux.Route × Signal
  with_backend name frontend backends entry_point sr s = elim (lookup frontend.backend s.backends) [
    | some h ↦ (wire name frontend entry_point sr h s, go_on)
    | none ↦
        with_built name frontend entry_point sr s (
          build_backend platform gc name frontend (lookup frontend.backend backends)
            s.health_checks)
  ]

  -- What follows the rules of a route, by whether the entry point redirects; a nil entry point
  -- panics.
  unfoldable pub give_handler :
      Str
      → Frontend
      → Dict Backend
      → Str
      → ServerRoute mux.Route
      → LoadState mux.Route
      → LoadState mux.Route × Signal
  give_handler name frontend backends entry_point sr s = elim (lookup entry_point gc.entry_points) [
    | none ↦ (s, abort)
    | some ep ↦ elim ep.redirect [
      | some redirect ↦ with_redirect name entry_point redirect sr s
      | none ↦ with_backend name frontend backends entry_point sr s
    ]
  ]

  unfoldable pub after_routes :
      Str
      → Frontend
      → Dict Backend
      → Str
      → ServerRoute mux.Route × Signal
      → LoadState mux.Route
      → LoadState mux.Route × Signal
  after_routes name frontend backends entry_point (sr, go_on) s =
      give_handler name frontend backends entry_point sr s
  after_routes name frontend backends entry_point (sr, skip) s =
      (register entry_point (entry_of name sr none) s, skip)
  after_routes name frontend backends entry_point (sr, abort) s = (s, abort)

  abbrev pub new_server_route : Str → ServerRoute mux.Route
  new_server_route name = record {
    route = new_route name;
    strip_prefixes = [];
    strip_prefixes_regex = [];
    add_prefix = [];
    replace_path = [];
  }

  -- The body of the loop over the entry points of a frontend.
  unfoldable pub wire_entry_point :
      Str → Frontend → Dict Backend → Str → LoadState mux.Route → LoadState mux.Route × Signal
  wire_entry_point name frontend backends entry_point s = elim (lookup entry_point s.routers) [
    | none ↦ (s, skip)
    | some _ ↦
        after_routes name frontend backends entry_point
          (add_routes frontend.routes (new_server_route name)) s
  ]

  unfoldable pub wire_entry_points :
      Str → Frontend → Dict Backend → List Str → LoadState mux.Route → LoadState mux.Route × Signal
  wire_entry_points name frontend backends [] s = (s, go_on)
  wire_entry_points name frontend backends (e ∷ es) s =
      then_next (wire_entry_point name frontend backends e s)
        (λ t. wire_entry_points name frontend backends es t)

  -- The body of the loop over the frontends of a configuration.
  unfoldable pub load_frontend :
      Str → Frontend → Dict Backend → LoadState mux.Route → LoadState mux.Route × Signal
  load_frontend name frontend backends s =
      if not (platform.forward_ok frontend.pass_host_header)
      then (s, skip)
      else if is_empty frontend.entry_points
      then (s, skip)
      else wire_entry_points name frontend backends frontend.entry_points s

  -- The loop over the sorted names; the nil frontend of a name that is not a key panics.
  unfoldable pub load_frontends :
      Dict Frontend → Dict Backend → List Str → LoadState mux.Route → LoadState mux.Route × Signal
  load_frontends frontends backends [] s = (s, go_on)
  load_frontends frontends backends (name ∷ names) s =
      after_frontend
        (elim (lookup name frontends) [
          | none ↦ (s, abort)
          | some frontend ↦ load_frontend name frontend backends s
        ])
        (λ t. load_frontends frontends backends names t)

  -- The loop over the configurations of the providers. A nil map reads like an empty one.
  unfoldable pub load_configurations :
      Dict Configuration → LoadState mux.Route → LoadState mux.Route × Signal
  load_configurations [] s = (s, go_on)
  load_configurations ((_, c) ∷ configurations) s =
      let frontends = get_or c.frontends [] in
      after_frontend
        (load_frontends frontends (get_or c.backends []) (sorted_frontend_names frontends) s)
        (λ t. load_configurations configurations t)

  unfoldable pub load_start : LoadState mux.Route
  load_start = record {
    routers = build_entry_points gc.entry_points;
    redirect_handlers = [];
    backends = [];
    health_checks = [];
  }

  -- loadConfig, up to the sort of the routes by priority: `abort` where the program ends.
  unfoldable pub load_config : Dict Configuration → LoadState mux.Route × Signal
  load_config configurations = load_configurations configurations load_start
