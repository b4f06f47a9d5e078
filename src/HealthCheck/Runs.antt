-- ===== src/HealthCheck/Runs.antt =====
-- Which goroutines of the health check run.
use traefik.Prelude.{
  ℕ, suc, ◌<◌, ◌==◌, Bool, true, false, not, List, [], ◌∷◌, Dict, any, map, keep, keep-append, ◌≡◌,
  refl, ap, ◌∙◌, arith, All, All-append,
}
use traefik.HealthCheck.{
  LoadBalancer, BackendHealthCheck, Run, HealthCheck, new_health_check, runs_of, cancel_old,
  set_backends_configuration, live,
}

module _ (balancer : LoadBalancer) where
  -- The configurations are set one after the other.
  unfoldable pub set_all :
      List (Dict (BackendHealthCheck balancer)) → HealthCheck balancer → HealthCheck balancer
  set_all [] hc = hc
  set_all (c ∷ cs) hc = set_all cs (set_backends_configuration balancer c hc)

  abbrev stopped : List ℕ → Run balancer → Bool
  stopped cancelled r = any (λ c. c == r.context) cancelled

  -- Contexts are numbered in order, and all runs but those of the newest are stopped.
  record IsCurrent (hc : HealthCheck balancer) : Type 0 where
    runs_below : All (λ (r : Run balancer). r.context < hc.contexts) hc.runs
    cancelled_below : All (λ c. c < hc.contexts) (cancel_old balancer hc.cancel hc.cancelled)
    old_stopped :
        All
          (λ (r : Run balancer). stopped (cancel_old balancer hc.cancel hc.cancelled) r ≡ true)
          hc.runs

  keep-stopped :
      (cs : List ℕ) (rs : List (Run balancer))
      → All (λ (r : Run balancer). stopped cs r ≡ true) rs
      → keep (λ (r : Run balancer). not (stopped cs r)) rs ≡ []
  keep-stopped cs [] h = refl
  keep-stopped cs (r ∷ rs) (y, h) = rw y (keep-stopped cs rs h)

  not-stopped : (n : ℕ) (cs : List ℕ) → All (λ c. c < n) cs → any (λ c. c == n) cs ≡ false
  not-stopped n [] h = refl
  not-stopped n (c ∷ cs) (l, h) = ground (arith, not-stopped n cs h)

  keep-runs_of :
      (n : ℕ) (cs : List ℕ) (bs : Dict (BackendHealthCheck balancer))
      → All (λ c. c < n) cs
      → keep (λ (r : Run balancer). not (stopped cs r)) (runs_of balancer n bs)
        ≡ runs_of balancer n bs
  keep-runs_of n cs [] h = refl
  keep-runs_of n cs ((id, b) ∷ bs) h =
      rw (not-stopped n cs h) (
        ap (λ l. record { context = n; backend_id = id; backend = b } ∷ l) (keep-runs_of n cs bs h))

  live-set :
      (hc : HealthCheck balancer) (bs : Dict (BackendHealthCheck balancer))
      → IsCurrent hc
      → live balancer (set_backends_configuration balancer bs hc) ≡ runs_of balancer hc.contexts bs
  unfolding live set_backends_configuration
  live-set hc bs v =
      let cs = cancel_old balancer hc.cancel hc.cancelled in
      keep-append _ hc.runs (runs_of balancer hc.contexts bs)
      ∙ rw (keep-stopped cs hc.runs v.old_stopped)
          (keep-runs_of hc.contexts cs bs v.cancelled_below)

  module _ (n : ℕ) where
    runs_of-below :
        (bs : Dict (BackendHealthCheck balancer))
        → All (λ (r : Run balancer). r.context < suc n) (runs_of balancer n bs)
    runs_of-below [] = tt
    runs_of-below ((id, b) ∷ bs) = (omega arith, runs_of-below bs)

    runs_of-stopped :
        (cs : List ℕ) (bs : Dict (BackendHealthCheck balancer))
        → All (λ (r : Run balancer). stopped (n ∷ cs) r ≡ true) (runs_of balancer n bs)
    runs_of-stopped cs [] = tt
    runs_of-stopped cs ((id, b) ∷ bs) = (ground arith, runs_of-stopped cs bs)

    below-suc : (cs : List ℕ) → All (λ c. c < n) cs → All (λ c. c < suc n) cs
    below-suc [] h = tt
    below-suc (c ∷ cs) (l, h) = (omega arith, below-suc cs h)

    runs_below-suc :
        (rs : List (Run balancer))
        → All (λ (r : Run balancer). r.context < n) rs
        → All (λ (r : Run balancer). r.context < suc n) rs
    runs_below-suc [] h = tt
    runs_below-suc (r ∷ rs) (l, h) = (omega arith, runs_below-suc rs h)

    stopped-cons :
        (cs : List ℕ) (rs : List (Run balancer))
        → All (λ (r : Run balancer). stopped cs r ≡ true) rs
        → All (λ (r : Run balancer). stopped (n ∷ cs) r ≡ true) rs
    stopped-cons cs [] h = tt
    stopped-cons cs (r ∷ rs) (y, h) = (ground arith, stopped-cons cs rs h)

  set-IsCurrent :
      (hc : HealthCheck balancer) (bs : Dict (BackendHealthCheck balancer))
      → IsCurrent hc
      → IsCurrent (set_backends_configuration balancer bs hc)
  unfolding set_backends_configuration
  set-IsCurrent hc bs v =
      let n = hc.contexts in
      let cs = cancel_old balancer hc.cancel hc.cancelled in
      record {
        runs_below =
            All-append _ hc.runs (runs_of balancer n bs) (runs_below-suc n hc.runs v.runs_below)
              (runs_of-below n bs);
        cancelled_below = (omega arith, below-suc n cs v.cancelled_below);
        old_stopped =
            All-append _ hc.runs (runs_of balancer n bs) (stopped-cons n cs hc.runs v.old_stopped)
              (runs_of-stopped n cs bs);
      }

  set_all-IsCurrent :
      (cs : List (Dict (BackendHealthCheck balancer))) (hc : HealthCheck balancer)
      → IsCurrent hc
      → IsCurrent (set_all cs hc)
  unfolding set_all
  set_all-IsCurrent [] hc v = v
  set_all-IsCurrent (c ∷ cs) hc v =
      set_all-IsCurrent cs (set_backends_configuration balancer c hc) (set-IsCurrent hc c v)

  new-IsCurrent : IsCurrent (new_health_check balancer)
  unfolding new_health_check
  new-IsCurrent = record { runs_below = tt; cancelled_below = tt; old_stopped = tt }

  runs_of-map :
      (n : ℕ) (bs : Dict (BackendHealthCheck balancer))
      → runs_of balancer n bs
        ≡ map (λ b. record { context = n; backend_id = b.0; backend = b.1 }) bs
  runs_of-map n [] = refl
  runs_of-map n ((id, b) ∷ bs) =
      ap (λ l. record { context = n; backend_id = id; backend = b } ∷ l) (runs_of-map n bs)

  -- Whatever configurations were set before, setting one leaves running exactly one goroutine for
  -- each of its backends, in order, with the name and the options of the backend; the context of
  -- these is later than that of every goroutine started before.
  pub live-set_backends_configuration :
      (cs : List (Dict (BackendHealthCheck balancer))) (c : Dict (BackendHealthCheck balancer))
      → let before = set_all cs (new_health_check balancer) in
        (live balancer (set_backends_configuration balancer c before)
          ≡ map (λ b. record { context = before.contexts; backend_id = b.0; backend = b.1 }) c)
        × All (λ (r : Run balancer). r.context < before.contexts) before.runs
  live-set_backends_configuration cs c =
      let before = set_all cs (new_health_check balancer) in
      let current = set_all-IsCurrent cs (new_health_check balancer) new-IsCurrent in
      (live-set before c current ∙ runs_of-map before.contexts c, current.runs_below)
