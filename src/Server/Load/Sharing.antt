-- ===== src/Server/Load/Sharing.antt =====
-- server/server.go: the handlers that loadConfig shares between the routes of one backend.
use traefik.Prelude.{
  none, some, List, [], ◌∷◌, ◌++◌, Str, Dict, lookup, insert, found-insert, subst, ◌≡◌, refl, ap,
  ◌∙◌, Option-cases, inl, inr, Result-cases,
}
use traefik.HealthCheck.{Options}
use traefik.Types.{Frontend, Backend, Configuration}
use traefik.Rules.Route.{Mux, ServerRoute}
use traefik.Server.Settings.{GlobalConfiguration, Redirect, EntryPoint}
use traefik.Server.Handlers.{
  Handler, BackendChain, to_backend, to_redirect, wire_frontend_backend, load_entry_point_config,
}
use traefik.Server.Load.{Platform, RouteEntry, LoadState, Signal, go_on, skip, abort}
use traefik.Server.Load.Frontends.{
  wire_entry_point, register, with_redirect, with_backend, with_built, give_handler, after_routes,
  load_config, load_start, build_entry_points, entry_of, prioritized, add_routes, new_server_route,
}
use traefik.Server.Load.Backends.{Built, built, skipped, fatal, build_backend}
use traefik.Server.Load.Loops.{load_configurations-keeps}
use traefik.Server.Load.Chains.{
  innermost, chain_of, innermost-wire_frontend_backend, redirect_innermost, IsChainOf, BuiltFor,
  build_backend-BuiltFor,
}
use traefik.Server.Load.Kept.{
  lookup-insert_same, Kept, AllKept, IsShared, IsShared-lookup, update-AllKept, insert-AllKept,
  no_chain-Kept,
}

module _ (mux : Mux) where
  module _ (new_route : Str → mux.Route) (platform : Platform) (gc : GlobalConfiguration) where
    register-IsShared :
        (ep : Str) (entry : RouteEntry mux.Route) (s : LoadState mux.Route)
        → Kept mux s.backends entry
        → IsShared mux s
        → IsShared mux (register mux new_route platform gc ep entry s)
    unfolding register
    register-IsShared ep entry s p v = record {
      named = v.named;
      redirects = v.redirects;
      kept = update-AllKept mux s.backends ep entry s.routers p v.kept;
    }

    no_handler :
        (name : Str) (sr : ServerRoute mux.Route)
        → chain_of (entry_of mux new_route platform gc name sr none) ≡ none
    unfolding chain_of
    no_handler name sr = refl

    some-chain :
        (name : Str) (sr : ServerRoute mux.Route) (h : Handler)
        → innermost h ≡ none
        → chain_of (entry_of mux new_route platform gc name sr (some h)) ≡ none
    unfolding chain_of
    some-chain name sr h e = e

    insert_redirect-IsShared :
        (ep re to name : Str) (s : LoadState mux.Route)
        → IsShared mux s
        → IsShared mux (record s {
          redirect_handlers = insert ep (to_redirect re to name) s.redirect_handlers;
        })
    unfolding innermost
    insert_redirect-IsShared ep re to name s v = record {
      named = v.named;
      redirects = λ k h e.
          elim (found-insert ep k (to_redirect re to name) h s.redirect_handlers e) [
            | inl (_, q) ↦ subst (λ x. innermost x ≡ none) q refl
            | inr q ↦ v.redirects k h q
          ];
      kept = v.kept;
    }

    with_redirect-IsShared :
        (name ep : Str) (r : Redirect) (sr : ServerRoute mux.Route) (s : LoadState mux.Route)
        → IsShared mux s
        → IsShared mux (with_redirect mux new_route platform gc name ep r sr s).0
    unfolding with_redirect
    with_redirect-IsShared name ep r sr s v = elim (Option-cases (lookup ep s.redirect_handlers)) [
      | inr (h, e) ↦
          rw (e, with_redirect)
            (register-IsShared ep (entry_of mux new_route platform gc name sr (some h)) s
              (no_chain-Kept mux s.backends _ (some-chain name sr h (v.redirects ep h e))) v)
      | inl e ↦
          rw (e, with_redirect)
            (elim (Result-cases (
              load_entry_point_config platform.compiles gc.entry_points r.entry_point r.regex
                r.replacement)) [
                  | inr (x, q) ↦ rw q (
                      register-IsShared ep (entry_of mux new_route platform gc name sr none) s
                        (no_chain-Kept mux s.backends _ (no_handler name sr)) v)
                  | inl ((re, to), q) ↦
                      let h = to_redirect re to name in
                      rw q (
                        register-IsShared ep (entry_of mux new_route platform gc name sr (some h))
                          (record s { redirect_handlers = insert ep h s.redirect_handlers })
                          (no_chain-Kept mux s.backends _
                            (some-chain name sr h (redirect_innermost re to name)))
                          (insert_redirect-IsShared ep re to name s v))
                ])
    ]

    wired-Kept :
        (name : Str) (f : Frontend) (sr : ServerRoute mux.Route) (h : Handler)
        (backends : Dict Handler)
        → IsChainOf f.backend h
        → lookup f.backend backends ≡ some h
        → Kept mux backends (
            entry_of mux new_route platform gc name
              (prioritized mux new_route platform gc f.priority sr)
              (some (wire_frontend_backend sr h)))
    unfolding chain_of innermost
    wired-Kept name f sr h backends (d, p, q) e c r =
        let w : innermost (wire_frontend_backend sr h) ≡ some d =
          innermost-wire_frontend_backend sr h ∙ ap innermost p in
        let same : d ≡ c = cc in
        subst (λ (x : BackendChain). lookup x.backend_name backends ≡ some (to_backend x)) same
          (ap (λ k. lookup k backends) q ∙ (e ∙ ap some p))

    with_built-IsShared :
        (name : Str) (f : Frontend) (ep : Str) (sr : ServerRoute mux.Route)
        (s : LoadState mux.Route) (b : Dict Options × Built)
        → lookup f.backend s.backends ≡ none
        → BuiltFor f.backend b.1
        → IsShared mux s
        → IsShared mux (with_built mux new_route platform gc name f ep sr s b).0
    unfolding with_built
    with_built-IsShared name f ep sr s (checks, fatal) e p v = v
    with_built-IsShared name f ep sr s (checks, skipped) e p v =
        register-IsShared ep (entry_of mux new_route platform gc name sr none)
          (record s { health_checks = checks })
          (no_chain-Kept mux s.backends _ (no_handler name sr))
          (record { named = v.named; redirects = v.redirects; kept = v.kept })
    with_built-IsShared name f ep sr s (checks, built h) e p v =
        register-IsShared ep
          (entry_of mux new_route platform gc name
            (prioritized mux new_route platform gc f.priority sr)
            (some (wire_frontend_backend sr h)))
          (record s { health_checks = checks; backends = insert f.backend h s.backends })
          (wired-Kept name f sr h (insert f.backend h s.backends) p
            (lookup-insert_same f.backend h s.backends))
          (record {
            named = λ k g q. elim (found-insert f.backend k h g s.backends q) [
              | inl (i, j) ↦ subst (λ x. IsChainOf k x) j (subst (λ x. IsChainOf x h) i p)
              | inr o ↦ v.named k g o
            ];
            redirects = v.redirects;
            kept = insert-AllKept mux s.backends f.backend h s.routers e v.kept;
          })

    with_backend-IsShared :
        (name : Str) (f : Frontend) (bs : Dict Backend) (ep : Str) (sr : ServerRoute mux.Route)
        (s : LoadState mux.Route)
        → IsShared mux s
        → IsShared mux (with_backend mux new_route platform gc name f bs ep sr s).0
    unfolding with_backend
    with_backend-IsShared name f bs ep sr s v = elim (Option-cases (lookup f.backend s.backends)) [
      | inr (h, e) ↦
          rw (e, with_backend)
            (register-IsShared ep
              (entry_of mux new_route platform gc name
                (prioritized mux new_route platform gc f.priority sr)
                (some (wire_frontend_backend sr h)))
              s (wired-Kept name f sr h s.backends (v.named f.backend h e) e) v)
      | inl e ↦
          rw (e, with_backend)
            (with_built-IsShared name f ep sr s
              (build_backend platform gc name f (lookup f.backend bs) s.health_checks) e
              (build_backend-BuiltFor platform gc name f (lookup f.backend bs) s.health_checks) v)
    ]

    after_routes-IsShared :
        (name : Str) (f : Frontend) (bs : Dict Backend) (ep : Str)
        (r : ServerRoute mux.Route × Signal) (s : LoadState mux.Route)
        → IsShared mux s
        → IsShared mux (after_routes mux new_route platform gc name f bs ep r s).0
    unfolding after_routes give_handler
    after_routes-IsShared name f bs ep (sr, abort) s v = v
    after_routes-IsShared name f bs ep (sr, skip) s v =
        register-IsShared ep (entry_of mux new_route platform gc name sr none) s
          (no_chain-Kept mux s.backends _ (no_handler name sr)) v
    after_routes-IsShared name f bs ep (sr, go_on) s v =
        elim (Option-cases (lookup ep gc.entry_points)) [
          | inl e ↦ rw (e, after_routes, give_handler) v
          | inr (entry, e) ↦
              rw (e, after_routes, give_handler)
                (elim (Option-cases entry.redirect) [
                  | inl q ↦ rw q (with_backend-IsShared name f bs ep sr s v)
                  | inr (r, q) ↦ rw q (with_redirect-IsShared name ep r sr s v)
                ])
        ]

    wire_entry_point-IsShared :
        (name : Str) (f : Frontend) (bs : Dict Backend) (ep : Str) (s : LoadState mux.Route)
        → IsShared mux s
        → IsShared mux (wire_entry_point mux new_route platform gc name f bs ep s).0
    unfolding wire_entry_point
    wire_entry_point-IsShared name f bs ep s v = elim (Option-cases (lookup ep s.routers)) [
      | inl e ↦ rw (e, wire_entry_point) v
      | inr (_, e) ↦
          rw (e, wire_entry_point)
            (after_routes-IsShared name f bs ep
              (add_routes mux new_route platform gc f.routes
                (new_server_route mux new_route platform gc name))
              s v)
    ]

    build_entry_points-AllKept : (eps : Dict EntryPoint) → AllKept mux [] (build_entry_points eps)
    unfolding build_entry_points
    build_entry_points-AllKept [] = tt
    build_entry_points-AllKept ((k, e) ∷ eps) = (tt, build_entry_points-AllKept eps)

    load_start-IsShared : IsShared mux (load_start mux new_route platform gc)
    unfolding load_start lookup
    load_start-IsShared = record {
      named = λ k h e. cc;
      redirects = λ k h e. cc;
      kept = build_entry_points-AllKept gc.entry_points;
    }

    load_config-IsShared :
        (cs : Dict Configuration) → IsShared mux (load_config mux new_route platform gc cs).0
    unfolding load_config
    load_config-IsShared cs =
        load_configurations-keeps mux new_route platform gc (IsShared mux)
          (λ name f bs ep s v. wire_entry_point-IsShared name f bs ep s v) cs
          (load_start mux new_route platform gc) load_start-IsShared

    -- Two routes of a loaded configuration, on whatever entry points and from whatever providers,
    -- that end with the chains of backends of one name end with the same chain.
    pub load_config_shares_backends :
        (cs : Dict Configuration) (ep₁ ep₂ : Str)
        (before₁ after₁ before₂ after₂ : List (RouteEntry mux.Route))
        (entry₁ entry₂ : RouteEntry mux.Route) (c₁ c₂ : BackendChain)
        → lookup ep₁ (load_config mux new_route platform gc cs).0.routers
          ≡ some (before₁ ++ entry₁ ∷ after₁)
        → lookup ep₂ (load_config mux new_route platform gc cs).0.routers
          ≡ some (before₂ ++ entry₂ ∷ after₂)
        → chain_of entry₁ ≡ some c₁
        → chain_of entry₂ ≡ some c₂
        → c₁.backend_name ≡ c₂.backend_name
        → c₁ ≡ c₂
    load_config_shares_backends cs ep₁ ep₂ b₁ a₁ b₂ a₂ en₁ en₂ c₁ c₂ m₁ m₂ e₁ e₂ q =
        let s = (load_config mux new_route platform gc cs).0 in
        let v = load_config-IsShared cs in
        let k₁ = IsShared-lookup mux s v ep₁ b₁ a₁ en₁ m₁ c₁ e₁ in
        let k₂ = IsShared-lookup mux s v ep₂ b₂ a₂ en₂ m₂ c₂ e₂ in cc
