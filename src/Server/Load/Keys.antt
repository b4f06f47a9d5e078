-- ===== src/Server/Load/Keys.antt =====
-- server/server.go: the routers that loadConfig fills.
use traefik.Prelude.{
  update, List, [], ◌∷◌, Str, str_eq, Dict, lookup, map, ◌≡◌, refl, ap, ◌∙◌, Option-cases,
  Bool-cases, inl, inr, Result-cases,
}
use traefik.HealthCheck.{Options}
use traefik.Types.{Frontend, Backend, Configuration}
use traefik.Rules.Route.{Mux, ServerRoute}
use traefik.Server.Settings.{GlobalConfiguration, Redirect, EntryPoint}
use traefik.Server.Handlers.{load_entry_point_config}
use traefik.Server.Load.{Platform, RouteEntry, LoadState, Signal, go_on, skip, abort}
use traefik.Server.Load.Frontends.{
  wire_entry_point, register, with_redirect, with_backend, with_built, give_handler, after_routes,
  load_config, load_start, build_entry_points, add_routes, new_server_route,
}
use traefik.Server.Load.Backends.{Built, built, skipped, fatal, build_backend}
use traefik.Server.Load.Loops.{load_configurations-keeps}

abbrev pub keys {ℓ} : {A : Type ℓ} → Dict A → List Str
keys m = map (λ p. p.0) m

keys-update {ℓ} : {A : Type ℓ} (k : Str) (f : A → A) (m : Dict A) → keys (update k f m) ≡ keys m
unfolding update
keys-update k f [] = refl
keys-update k f ((j, a) ∷ m) = elim (Bool-cases (str_eq j k)) [
  | inl y ↦ rw y (ap (◌∷◌ j) (keys-update k f m))
  | inr n ↦ rw n (ap (◌∷◌ j) (keys-update k f m))
]

keys-build_entry_points {ℓ} :
    (A : Type ℓ) (m : Dict EntryPoint) → keys (build_entry_points {A = A} m) ≡ keys m
unfolding build_entry_points
keys-build_entry_points A [] = refl
keys-build_entry_points A ((k, e) ∷ m) = ap (◌∷◌ k) (keys-build_entry_points A m)

module _ (mux : Mux) (new_route : Str → mux.Route) (platform : Platform)
    (gc : GlobalConfiguration) where
  abbrev HasKeys : LoadState mux.Route → Type 0
  HasKeys s = keys s.routers ≡ keys gc.entry_points

  register-HasKeys :
      (ep : Str) (entry : RouteEntry mux.Route) (s : LoadState mux.Route)
      → HasKeys s
      → HasKeys (register mux new_route platform gc ep entry s)
  unfolding register
  register-HasKeys ep entry s v = keys-update ep _ s.routers ∙ v

  with_redirect-HasKeys :
      (name ep : Str) (r : Redirect) (sr : ServerRoute mux.Route) (s : LoadState mux.Route)
      → HasKeys s
      → HasKeys (with_redirect mux new_route platform gc name ep r sr s).0
  unfolding with_redirect register
  with_redirect-HasKeys name ep r sr s v = elim (Option-cases (lookup ep s.redirect_handlers)) [
    | inr (h, e) ↦ rw (e, with_redirect) (keys-update ep _ s.routers ∙ v)
    | inl e ↦
        rw (e, with_redirect)
          (elim (Result-cases (
            load_entry_point_config platform.compiles gc.entry_points r.entry_point r.regex
              r.replacement)) [
                | inr (x, q) ↦ rw q (keys-update ep _ s.routers ∙ v)
                | inl (_, q) ↦ rw q (keys-update ep _ s.routers ∙ v)
              ])
  ]

  with_built-HasKeys :
      (name : Str) (f : Frontend) (ep : Str) (sr : ServerRoute mux.Route) (s : LoadState mux.Route)
      (b : Dict Options × Built)
      → HasKeys s
      → HasKeys (with_built mux new_route platform gc name f ep sr s b).0
  unfolding with_built register
  with_built-HasKeys name f ep sr s (checks, fatal) v = v
  with_built-HasKeys name f ep sr s (checks, skipped) v = keys-update ep _ s.routers ∙ v
  with_built-HasKeys name f ep sr s (checks, built h) v = keys-update ep _ s.routers ∙ v

  with_backend-HasKeys :
      (name : Str) (f : Frontend) (bs : Dict Backend) (ep : Str) (sr : ServerRoute mux.Route)
      (s : LoadState mux.Route)
      → HasKeys s
      → HasKeys (with_backend mux new_route platform gc name f bs ep sr s).0
  unfolding with_backend register
  with_backend-HasKeys name f bs ep sr s v = elim (Option-cases (lookup f.backend s.backends)) [
    | inr (h, e) ↦ rw (e, with_backend) (keys-update ep _ s.routers ∙ v)
    | inl e ↦
        rw (e, with_backend)
          (with_built-HasKeys name f ep sr s
            (build_backend platform gc name f (lookup f.backend bs) s.health_checks) v)
  ]

  after_routes-HasKeys :
      (name : Str) (f : Frontend) (bs : Dict Backend) (ep : Str)
      (r : ServerRoute mux.Route × Signal) (s : LoadState mux.Route)
      → HasKeys s
      → HasKeys (after_routes mux new_route platform gc name f bs ep r s).0
  unfolding after_routes give_handler
  after_routes-HasKeys name f bs ep (sr, abort) s v = v
  after_routes-HasKeys name f bs ep (sr, skip) s v = register-HasKeys ep _ s v
  after_routes-HasKeys name f bs ep (sr, go_on) s v =
      elim (Option-cases (lookup ep gc.entry_points)) [
        | inl e ↦ rw (e, after_routes, give_handler) v
        | inr (entry, e) ↦
            rw (e, after_routes, give_handler)
              (elim (Option-cases entry.redirect) [
                | inl q ↦ rw q (with_backend-HasKeys name f bs ep sr s v)
                | inr (r, q) ↦ rw q (with_redirect-HasKeys name ep r sr s v)
              ])
      ]

  wire_entry_point-HasKeys :
      (name : Str) (f : Frontend) (bs : Dict Backend) (ep : Str) (s : LoadState mux.Route)
      → HasKeys s
      → HasKeys (wire_entry_point mux new_route platform gc name f bs ep s).0
  unfolding wire_entry_point
  wire_entry_point-HasKeys name f bs ep s v = elim (Option-cases (lookup ep s.routers)) [
    | inl e ↦ rw (e, wire_entry_point) v
    | inr (_, e) ↦
        rw (e, wire_entry_point)
          (after_routes-HasKeys name f bs ep
            (add_routes mux new_route platform gc f.routes
              (new_server_route mux new_route platform gc name))
            s v)
  ]

  -- Whatever the providers send, the routers that are loaded are those of the entry points of the
  -- static configuration, in their order.
  pub keys-load_config :
      (cs : Dict Configuration)
      → keys (load_config mux new_route platform gc cs).0.routers ≡ keys gc.entry_points
  unfolding load_config load_start
  keys-load_config cs =
      load_configurations-keeps mux new_route platform gc HasKeys
        (λ name f bs ep s v. wire_entry_point-HasKeys name f bs ep s v) cs
        (load_start mux new_route platform gc)
        (keys-build_entry_points (RouteEntry mux.Route) gc.entry_points)
