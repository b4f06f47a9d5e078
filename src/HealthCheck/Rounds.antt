-- ===== src/HealthCheck/Rounds.antt =====
-- What rounds of checks do to the servers of a backend.
use traefik.Prelude.{
  Bool, true, false, not, ◌&&◌, ◌||◌, List, [], ◌∷◌, ◌++◌, Str, str_eq, str_eq_iff, ◌≡◌, refl, ap,
  ◌∙◌, arith, Bool-cases, inl, inr,
}
use traefik.HealthCheck.{
  has, LoadBalancer, Answer, check_health, BackendHealthCheck, recheck, check_enabled,
  check_backend, execute,
}

has-append : (u : Str) (xs ys : List Str) → has u (xs ++ ys) ≡ (has u xs || has u ys)
unfolding has
has-append u [] ys = refl
has-append u (x ∷ xs) ys = ground (arith, has-append u xs ys)

has-nil : (u : Str) → has u [] ≡ false
unfolding has
has-nil u = refl

module _ (balancer : LoadBalancer) where
  open balancer use {State, servers, servers-upsert, servers-remove}

  recheck_lem :
      (health : Str → Bool) (u : Str) (urls : List Str) (lb : State) (disabled : List Str)
      → let after = recheck balancer health urls (lb, disabled) in
        (has u (servers after.0) ≡ ((health u && has u urls) || has u (servers lb)))
        × (has u after.1 ≡ ((not (health u) && has u urls) || has u disabled))
  unfolding recheck has
  recheck_lem health u [] lb disabled = ground arith
  recheck_lem health u (url ∷ urls) lb disabled = elim (Bool-cases (health url)) [
    | inl y ↦
        let same : str_eq u url ≡ true → health u ≡ true =
          λ e. ap health ((str_eq_iff u url).0 e) ∙ y in
        let ih = recheck_lem health u urls (balancer.upsert_server url lb) disabled in
        rw (y, recheck) (ground (arith, ih, same, servers-upsert u url lb))
    | inr n ↦
        let same : str_eq u url ≡ true → health u ≡ false =
          λ e. ap health ((str_eq_iff u url).0 e) ∙ n in
        let ih = recheck_lem health u urls lb (disabled ++ url ∷ []) in
        rw (n, recheck) (ground (arith, ih, same, has-append u disabled (url ∷ [])))
  ]

  check_enabled_lem :
      (health : Str → Bool) (u : Str) (urls : List Str) (lb : State) (disabled : List Str)
      → let after = check_enabled balancer health urls (lb, disabled) in
        (has u (servers after.0) ≡ (not (not (health u) && has u urls) && has u (servers lb)))
        × (has u after.1 ≡ ((not (health u) && has u urls) || has u disabled))
  unfolding check_enabled has
  check_enabled_lem health u [] lb disabled = ground arith
  check_enabled_lem health u (url ∷ urls) lb disabled = elim (Bool-cases (health url)) [
    | inl y ↦
        let same : str_eq u url ≡ true → health u ≡ true =
          λ e. ap health ((str_eq_iff u url).0 e) ∙ y in
        let ih = check_enabled_lem health u urls lb disabled in
        rw (y, check_enabled) (ground (arith, ih, same))
    | inr n ↦
        let same : str_eq u url ≡ true → health u ≡ false =
          λ e. ap health ((str_eq_iff u url).0 e) ∙ n in
        let ih =
          check_enabled_lem health u urls (balancer.remove_server url lb) (disabled ++ url ∷ []) in
        rw (n, check_enabled)
          (ground (arith, ih, same, servers-remove u url lb, has-append u disabled (url ∷ [])))
  ]

  -- A URL that the backend knows: one that is enabled or disabled.
  abbrev pub known : Str → BackendHealthCheck balancer → Bool
  known u b = has u (servers b.lb) || has u b.disabled_urls

  -- After a check the enabled URLs are those of the known ones that answer, and the disabled ones
  -- those that do not.
  pub check_backend_lem :
      (probe : Str → Answer) (b : BackendHealthCheck balancer) (u : Str)
      → let after = check_backend balancer probe b in
        let up = check_health probe b.options u in
        (has u (servers after.lb) ≡ (up && known u b))
        × (has u after.disabled_urls ≡ (not up && known u b))
        × (after.options ≡ b.options)
  unfolding check_backend
  check_backend_lem probe b u =
      let health = check_health probe b.options in
      let first = recheck balancer health b.disabled_urls (b.lb, []) in
      ground (
        arith,
        has-nil u,
        recheck_lem health u b.disabled_urls b.lb [],
        check_enabled_lem health u (servers b.lb) first.0 first.1,
      )

  abbrev pub last_probe : (Str → Answer) → List (Str → Answer) → Str → Answer
  last_probe probe [] = probe
  last_probe probe (p ∷ ps) = last_probe p ps

  -- However many checks there were, no URL is lost or made up, and the answers to the last one decide
  -- which of the URLs known at the start are enabled.
  pub execute_lem :
      (probe : Str → Answer) (probes : List (Str → Answer)) (b : BackendHealthCheck balancer)
      (u : Str)
      → let after = execute balancer probe probes b in
        let up = check_health (last_probe probe probes) b.options u in
        (has u (servers after.lb) ≡ (up && known u b))
        × (has u after.disabled_urls ≡ (not up && known u b))
  unfolding execute check_backend
  execute_lem probe [] b u = let (e, d, _) = check_backend_lem probe b u in (e, d)
  execute_lem probe (p ∷ ps) b u =
      let (e, d, o) = check_backend_lem probe b u in
      let same : known u (check_backend balancer probe b) ≡ known u b = ground (arith, e, d) in
      let (e', d') = execute_lem p ps (check_backend balancer probe b) u in
      (rw (o, same) at e', rw (o, same) at d')
