-- ===== src/Tests/HealthCheck.antt =====
-- Backends whose health is checked.
use traefik.Prelude.{
  not, ◌&&◌, ◌||◌, List, [], ◌∷◌, Str, codes, str_eq, str_eq_iff, Dict, map, All, ◌<◌, keep, ◌≡◌,
  refl, pos, if◌then◌else◌, arith,
}
use traefik.HealthCheck.{
  has, LoadBalancer, Answer, answered, failed, check_health, BackendHealthCheck, execute,
  new_health_check, Run, set_backends_configuration, live,
}
use traefik.HealthCheck.Rounds.{known, last_probe, execute_lem}
use traefik.HealthCheck.Runs.{set_all, live-set_backends_configuration}

has-keep :
    (u v : Str) (us : List Str)
    → has u (keep (λ w. not (str_eq v w)) us) ≡ (not (str_eq u v) && has u us)
unfolding has
has-keep u v [] = ground arith
has-keep u v (w ∷ us) =
    ground (arith, has-keep u v us, str_eq_iff u v, str_eq_iff v w, str_eq_iff u w)

has-cons : (u v : Str) (us : List Str) → has u (v ∷ us) ≡ (str_eq u v || has u us)
unfolding has
has-cons u v us = refl

-- A balancer that is the list of its servers.
abbrev list_balancer : LoadBalancer
list_balancer = record {
  State = List Str;
  servers = λ us. us;
  upsert_server = λ u us. u ∷ us;
  remove_server = λ u us. keep (λ w. not (str_eq u w)) us;
  servers-upsert = λ u v us. has-cons u v us;
  servers-remove = λ u v us. has-keep u v us;
}

abbrev a_backend : BackendHealthCheck list_balancer
a_backend = record {
  options = record { path = codes "/up"; interval = pos 30 };
  lb = codes "http://a" ∷ codes "http://b" ∷ [];
  disabled_urls = codes "http://c" ∷ [];
}

abbrev only_a : Str → Answer
only_a url = if str_eq url (codes "http://a/up") then answered 200 else failed

abbrev nothing_up : Str → Answer
nothing_up url = answered 503

execute_lem_example :
    let after = execute list_balancer nothing_up (only_a ∷ []) a_backend in
    let up =
      check_health
        (last_probe list_balancer nothing_up (only_a ∷ []))
        a_backend.options
        (codes "http://a") in
    (has (codes "http://a") after.lb ≡ (up && known list_balancer (codes "http://a") a_backend))
    × (has (codes "http://a") after.disabled_urls
        ≡ (not up && known list_balancer (codes "http://a") a_backend))
execute_lem_example =
    execute_lem list_balancer nothing_up (only_a ∷ []) a_backend (codes "http://a")

abbrev one_backend : Dict (BackendHealthCheck list_balancer)
one_backend = (codes "web", a_backend) ∷ []

live-set_backends_configuration_example :
    let before = set_all list_balancer (one_backend ∷ []) (new_health_check list_balancer) in
    (live list_balancer (set_backends_configuration list_balancer one_backend before)
      ≡ map
          (λ b. record { context = before.contexts; backend_id = b.0; backend = b.1 })
          one_backend)
    × All (λ (r : Run list_balancer). r.context < before.contexts) before.runs
live-set_backends_configuration_example =
    live-set_backends_configuration list_balancer (one_backend ∷ []) one_backend
