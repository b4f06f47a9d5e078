-- ===== src/HealthCheck.antt =====
-- healthcheck/healthcheck.go: servers that fail their check leave the load balancer, and come back
-- when they answer again.
pub mod Rounds
pub mod Runs
use traefik.Prelude.{
  ℕ, suc, ◌+◌, ◌==◌, Bool, true, false, not, ◌&&◌, ◌||◌, Option, none, some, List, [], ◌∷◌, ◌++◌,
  map, Str, str_eq, Dict, ℤ, any, keep, if◌then◌else◌, ◌≡◌,
}

-- Whether a list of URLs holds one.
unfoldable pub has : Str → List Str → Bool
has u = any (str_eq u)

-- The interface of a load balancer, with what the check relies on of its servers.
pub record LoadBalancer : Type 1 where
  pub State : Type 0
  pub servers : State → List Str
  pub upsert_server : Str → State → State
  pub remove_server : Str → State → State
  pub servers-upsert :
      (u v : Str) (lb : State)
      → has u (servers (upsert_server v lb)) ≡ (str_eq u v || has u (servers lb))
  pub servers-remove :
      (u v : Str) (lb : State)
      → has u (servers (remove_server v lb)) ≡ (not (str_eq u v) && has u (servers lb))

-- Options, but for the load balancer, which is the state that a check changes.
pub record Options : Type 0 where
  pub path : Str
  pub interval : ℤ

-- An answer to a probe: the status code, or the error of the request.
pub data Answer : Type 0 where
  answered : ℕ → Answer
  failed : Answer

-- checkHealth: `probe` is the answer to a GET of a URL.
unfoldable pub check_health : (Str → Answer) → Options → Str → Bool
check_health probe options url = elim (probe (url ++ options.path)) [
  | answered code ↦ code == 200
  | failed ↦ false
]

module _ (balancer : LoadBalancer) where
  open balancer use {State, servers, upsert_server, remove_server}

  -- BackendHealthCheck, with its load balancer.
  pub record BackendHealthCheck : Type 0 where
    pub options : Options
    pub lb : State
    pub disabled_urls : List Str

  unfoldable pub new_backend_health_check : Options → State → BackendHealthCheck
  new_backend_health_check options lb = record { options = options; lb = lb; disabled_urls = [] }

  -- The loop over the disabled URLs; the second part is newDisabledURLs.
  unfoldable pub recheck : (Str → Bool) → List Str → State × List Str → State × List Str
  recheck health [] s = s
  recheck health (url ∷ urls) (lb, disabled) =
      recheck health urls
        (if health url then (upsert_server url lb, disabled) else (lb, disabled ++ url ∷ []))

  -- The loop over the URLs that were enabled before.
  unfoldable pub check_enabled : (Str → Bool) → List Str → State × List Str → State × List Str
  check_enabled health [] s = s
  check_enabled health (url ∷ urls) (lb, disabled) =
      check_enabled health urls
        (if not (health url) then (remove_server url lb, disabled ++ url ∷ []) else (lb, disabled))

  -- checkBackend
  unfoldable pub check_backend : (Str → Answer) → BackendHealthCheck → BackendHealthCheck
  check_backend probe b =
      let health = check_health probe b.options in
      let enabled = servers b.lb in
      let after = check_enabled health enabled (recheck health b.disabled_urls (b.lb, [])) in
      record b { lb = after.0; disabled_urls = after.1 }

  -- The checks of `execute`: one at once, and one at each tick, with the answers of its time.
  unfoldable pub execute :
      (Str → Answer) → List (Str → Answer) → BackendHealthCheck → BackendHealthCheck
  execute probe [] b = check_backend probe b
  execute probe (p ∷ ps) b = execute p ps (check_backend probe b)

  -- A goroutine of `execute`: the context that stops it, and its backend.
  pub record Run : Type 0 where
    pub context : ℕ
    pub backend_id : Str
    pub backend : BackendHealthCheck

  -- HealthCheck, with the contexts made and cancelled so far and the goroutines that were started.
  pub record HealthCheck : Type 0 where
    pub backends : Dict BackendHealthCheck
    pub cancel : Option ℕ
    pub contexts : ℕ
    pub cancelled : List ℕ
    pub runs : List Run

  unfoldable pub new_health_check : HealthCheck
  new_health_check = record {
    backends = [];
    cancel = none;
    contexts = 0;
    cancelled = [];
    runs = [];
  }

  abbrev pub runs_of : ℕ → Dict BackendHealthCheck → List Run
  runs_of ctx [] = []
  runs_of ctx ((id, b) ∷ bs) =
      record { context = ctx; backend_id = id; backend = b } ∷ runs_of ctx bs

  abbrev pub cancel_old : Option ℕ → List ℕ → List ℕ
  cancel_old none cancelled = cancelled
  cancel_old (some ctx) cancelled = ctx ∷ cancelled

  -- SetBackendsConfiguration
  unfoldable pub set_backends_configuration : Dict BackendHealthCheck → HealthCheck → HealthCheck
  set_backends_configuration backends hc = record {
    backends = backends;
    cancel = some hc.contexts;
    contexts = suc hc.contexts;
    cancelled = cancel_old hc.cancel hc.cancelled;
    runs = hc.runs ++ runs_of hc.contexts backends;
  }

  -- The goroutines whose context is not cancelled.
  unfoldable pub live : HealthCheck → List Run
  live hc = keep (λ r. not (any (λ c. c == r.context) hc.cancelled)) hc.runs
