-- ===== src/Server/Reload/Current.antt =====
-- server/server.go: which handlers run, after any messages.
use traefik.Prelude.{
  update, Bool, true, false, List, [], ◌∷◌, Str, str_eq, str_eq_iff, Dict, insert, if◌then◌else◌,
  ◌≡◌, refl, sym, ap, ◌∙◌, subst, All, arith,
}
use traefik.Types.{Configuration}
use traefik.Rules.Route.{Mux}
use traefik.Server.Settings.{GlobalConfiguration}
use traefik.Server.Load.{Platform, RouteEntry, LoadState, Signal, go_on, skip, abort}
use traefik.Server.Load.Frontends.{load_config, load_start, load_configurations}
use traefik.Server.Load.Keys.{keys, keys-load_config}
use traefik.Server.Reload.{
  ServerState, update_handlers, server_start, replace_handlers, reload, reload_all,
}

-- No two keys of a map are the same.
abbrev pub AreDistinct : List Str → Type 0
AreDistinct [] = Unit
AreDistinct (k ∷ ks) = All (λ j. str_eq k j ≡ false) ks × AreDistinct ks

if-keeps {ℓ κ} :
    {A : Type ℓ} (P : A → Type κ) (b : Bool) {x y : A} → P x → P y → P (if b then x else y)
if-keeps P true p q = p
if-keeps P false p q = q

module _ {R : Type 0} where
  update-missing :
      (k : Str) (f : List (RouteEntry R) → List (RouteEntry R)) (m : Dict (List (RouteEntry R)))
      → All (λ j. str_eq k j ≡ false) (keys m)
      → update k f m ≡ m
  unfolding update
  update-missing k f [] p = refl
  update-missing k f ((j, r) ∷ m) (n, p) =
      let m' : str_eq j k ≡ false = ground (arith, str_eq_iff k j, str_eq_iff j k) in
      rw m' (ap (◌∷◌ (j, r)) (update-missing k f m p))

  update_handlers-past :
      (k : Str) (r : List (RouteEntry R)) (loaded m : Dict (List (RouteEntry R)))
      → All (λ j. str_eq k j ≡ false) (keys loaded)
      → update_handlers loaded ((k, r) ∷ m) ≡ (k, r) ∷ update_handlers loaded m
  unfolding update_handlers update
  update_handlers-past k r [] m p = refl
  update_handlers-past k r ((j, x) ∷ loaded) m (n, p) =
      rw n (update_handlers-past k r loaded (update j (λ _. x) m) p)

  -- Where the routers that were loaded have the keys of the running ones, they replace them all.
  update_handlers_all :
      (loaded m : Dict (List (RouteEntry R)))
      → keys loaded ≡ keys m
      → AreDistinct (keys loaded)
      → update_handlers loaded m ≡ loaded
  unfolding update_handlers update
  update_handlers_all [] [] e d = refl
  update_handlers_all [] (_ ∷ _) e d = cc
  update_handlers_all (_ ∷ _) [] e d = cc
  update_handlers_all ((k, r) ∷ loaded) ((j, x) ∷ m) e (d, ds) =
      let head : k ≡ j = cc in
      let tail : keys loaded ≡ keys m = cc in
      let same : str_eq j k ≡ true = (str_eq_iff j k).1 (sym head) in
      let kept : update k (λ _. r) m ≡ m =
        update-missing k (λ _. r) m (subst (All (λ i. str_eq k i ≡ false)) tail d) in
      rw (same, sym head, kept)
        (update_handlers-past k r loaded m d
          ∙ ap (◌∷◌ (k, r)) (update_handlers_all loaded m tail ds))

module _ (mux : Mux) (new_route : Str → mux.Route) (platform : Platform)
    (gc : GlobalConfiguration) where
  -- The handlers and the health checks that run are those that loadConfig makes of the current
  -- configurations.
  pub record IsCurrent (s : ServerState mux.Route) : Type 0 where
    pub handlers :
        s.server_entry_points
        ≡ (load_config mux new_route platform gc s.current_configurations).0.routers
    pub checks :
        s.health_checks
        ≡ (load_config mux new_route platform gc s.current_configurations).0.health_checks

  server_start-IsCurrent : IsCurrent (server_start mux new_route platform gc)
  unfolding server_start load_config load_configurations load_start
  server_start-IsCurrent = record { handlers = refl; checks = refl }

  keys-loaded :
      (cs : Dict Configuration) (r : LoadState mux.Route × Signal)
      → load_config mux new_route platform gc cs ≡ r
      → keys r.0.routers ≡ keys gc.entry_points
  keys-loaded cs r e =
      sym (ap (λ (x : LoadState mux.Route × Signal). keys x.0.routers) e)
      ∙ keys-load_config mux new_route platform gc cs

  -- The loaded handlers, where the running ones have the keys of the entry points.
  replaced :
      (cs : Dict Configuration) (s : ServerState mux.Route) (r : LoadState mux.Route × Signal)
      → AreDistinct (keys gc.entry_points)
      → IsCurrent s
      → load_config mux new_route platform gc cs ≡ r
      → update_handlers r.0.routers s.server_entry_points
        ≡ (load_config mux new_route platform gc cs).0.routers
  replaced cs s r d v e =
      update_handlers_all r.0.routers s.server_entry_points
        (keys-loaded cs r e
          ∙ sym (
              ap keys v.handlers
              ∙ keys-load_config mux new_route platform gc s.current_configurations))
        (subst AreDistinct (sym (keys-loaded cs r e)) d)
      ∙ sym (ap (λ (x : LoadState mux.Route × Signal). x.0.routers) e)

  replace_handlers-IsCurrent :
      (cs : Dict Configuration) (s : ServerState mux.Route) (r : LoadState mux.Route × Signal)
      → AreDistinct (keys gc.entry_points)
      → IsCurrent s
      → load_config mux new_route platform gc cs ≡ r
      → IsCurrent (replace_handlers mux new_route platform gc cs r s)
  unfolding replace_handlers
  replace_handlers-IsCurrent cs s (loaded, abort) d v e = record {
    handlers = v.handlers;
    checks = v.checks;
  }
  replace_handlers-IsCurrent cs s (loaded, go_on) d v e = record {
    handlers = replaced cs s (loaded, go_on) d v e;
    checks = sym (ap (λ (x : LoadState mux.Route × Signal). x.0.health_checks) e);
  }
  replace_handlers-IsCurrent cs s (loaded, skip) d v e = record {
    handlers = replaced cs s (loaded, skip) d v e;
    checks = sym (ap (λ (x : LoadState mux.Route × Signal). x.0.health_checks) e);
  }

  reload-IsCurrent :
      (name : Str) (c : Configuration) (s : ServerState mux.Route)
      → AreDistinct (keys gc.entry_points)
      → IsCurrent s
      → IsCurrent (reload mux new_route platform gc name c s)
  unfolding reload
  reload-IsCurrent name c s d v =
      let cs = insert name c s.current_configurations in
      if-keeps IsCurrent s.is_running
        (replace_handlers-IsCurrent cs s (load_config mux new_route platform gc cs) d v refl) v

  reload_all-keeps :
      (messages : List (Str × Configuration)) (s : ServerState mux.Route)
      → AreDistinct (keys gc.entry_points)
      → IsCurrent s
      → IsCurrent (reload_all mux new_route platform gc messages s)
  unfolding reload_all
  reload_all-keeps [] s d v = v
  reload_all-keeps ((name, c) ∷ messages) s d v =
      reload_all-keeps messages (reload mux new_route platform gc name c s) d
        (reload-IsCurrent name c s d v)

  -- After any messages since the start, the handlers that run on the entry points, and the health
  -- checks that are set, are those that a load of the current configurations gives; the entry points
  -- have distinct names, as the keys of a map do.
  pub reload_all-IsCurrent :
      (messages : List (Str × Configuration))
      → AreDistinct (keys gc.entry_points)
      → IsCurrent
          (reload_all mux new_route platform gc messages (server_start mux new_route platform gc))
  reload_all-IsCurrent messages d =
      reload_all-keeps messages (server_start mux new_route platform gc) d server_start-IsCurrent
