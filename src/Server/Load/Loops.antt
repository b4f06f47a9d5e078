-- ===== src/Server/Load/Loops.antt =====
-- server/server.go: what the loops of loadConfig keep, given that their innermost body does.
use traefik.Prelude.{
  none, some, List, [], ◌∷◌, Str, Dict, lookup, is_empty, Option-cases, Bool-cases, inl, inr,
}
use mathlib.Core.Option.{get_or}
use traefik.Types.{Frontend, Backend, Configuration}
use traefik.Rules.Route.{Mux}
use traefik.Server.Settings.{GlobalConfiguration}
use traefik.Server.Load.{Platform, LoadState, Signal, go_on, skip, abort, then_next, after_frontend}
use traefik.Server.Load.Frontends.{
  wire_entry_point, wire_entry_points, load_frontend, load_frontends, load_configurations,
  sorted_frontend_names,
}

module _ {ℓ κ} {S : Type ℓ} (P : S → Type κ) where
  pub then_next-keeps :
      (r : S × Signal) (next : S → S × Signal)
      → P r.0
      → ((t : S) → P t → P (next t).0)
      → P (then_next r next).0
  then_next-keeps (s, go_on) next p k = k s p
  then_next-keeps (s, skip) next p k = p
  then_next-keeps (s, abort) next p k = p

  pub after_frontend-keeps :
      (r : S × Signal) (next : S → S × Signal)
      → P r.0
      → ((t : S) → P t → P (next t).0)
      → P (after_frontend r next).0
  after_frontend-keeps (s, go_on) next p k = k s p
  after_frontend-keeps (s, skip) next p k = k s p
  after_frontend-keeps (s, abort) next p k = p

module _ {κ} (mux : Mux) (new_route : Str → mux.Route) (platform : Platform)
    (gc : GlobalConfiguration) (P : LoadState mux.Route → Type κ) where
  abbrev BodyKeeps : Type κ
  BodyKeeps =
      (name : Str) (frontend : Frontend) (backends : Dict Backend) (entry_point : Str)
      (s : LoadState mux.Route)
      → P s
      → P (wire_entry_point mux new_route platform gc name frontend backends entry_point s).0

  wire_entry_points-keeps :
      BodyKeeps
      → (name : Str) (frontend : Frontend) (backends : Dict Backend) (es : List Str)
        (s : LoadState mux.Route)
      → P s
      → P (wire_entry_points mux new_route platform gc name frontend backends es s).0
  unfolding wire_entry_points
  wire_entry_points-keeps body name frontend backends [] s p = p
  wire_entry_points-keeps body name frontend backends (e ∷ es) s p =
      then_next-keeps P (wire_entry_point mux new_route platform gc name frontend backends e s) _
        (body name frontend backends e s p)
        (λ t q. wire_entry_points-keeps body name frontend backends es t q)

  load_frontend-keeps :
      BodyKeeps
      → (name : Str) (frontend : Frontend) (backends : Dict Backend) (s : LoadState mux.Route) → P s
      → P (load_frontend mux new_route platform gc name frontend backends s).0
  unfolding load_frontend
  load_frontend-keeps body name frontend backends s p =
      elim (Bool-cases (platform.forward_ok frontend.pass_host_header)) [
        | inr n ↦ rw n p
        | inl y ↦ rw y (elim (Bool-cases (is_empty frontend.entry_points)) [
          | inl e ↦ rw e p
          | inr n ↦
              rw n (wire_entry_points-keeps body name frontend backends frontend.entry_points s p)
        ])
      ]

  load_frontends-keeps :
      BodyKeeps
      → (frontends : Dict Frontend) (backends : Dict Backend) (names : List Str)
        (s : LoadState mux.Route)
      → P s
      → P (load_frontends mux new_route platform gc frontends backends names s).0
  unfolding load_frontends
  load_frontends-keeps body frontends backends [] s p = p
  load_frontends-keeps body frontends backends (name ∷ names) s p =
      after_frontend-keeps P
        (elim (lookup name frontends) [
          | none ↦ (s, abort)
          | some f ↦ load_frontend mux new_route platform gc name f backends s
        ])
        (λ t. load_frontends mux new_route platform gc frontends backends names t)
        (elim (Option-cases (lookup name frontends)) [
          | inl e ↦ rw e p
          | inr (f, e) ↦ rw e (load_frontend-keeps body name f backends s p)
        ])
        (λ t q. load_frontends-keeps body frontends backends names t q)

  -- What each wiring to an entry point keeps, the load of all configurations keeps.
  pub load_configurations-keeps :
      BodyKeeps
      → (cs : Dict Configuration) (s : LoadState mux.Route) → P s
      → P (load_configurations mux new_route platform gc cs s).0
  unfolding load_configurations
  load_configurations-keeps body [] s p = p
  load_configurations-keeps body ((_, c) ∷ cs) s p =
      let frontends = get_or c.frontends [] in
      let names = sorted_frontend_names frontends in
      after_frontend-keeps P
        (load_frontends mux new_route platform gc frontends (get_or c.backends []) names s) _
        (load_frontends-keeps body frontends (get_or c.backends []) names s p)
        (λ t q. load_configurations-keeps body cs t q)
