-- ===== src/Server/Handlers/Intervals.antt =====
-- Health checks are made at intervals that are positive.
use traefik.Prelude.{
  true, false, Option, some, Str, ℤ, is_positive, is_empty, ◌≡◌, arith, Option-cases, inl, inr,
}
use traefik.Types.{HealthCheck}
use traefik.HealthCheck.{Options}
use traefik.Server.Handlers.{parse_health_check_options, interval_of}

interval_of-pos :
    (parse_duration : Str → Option ℤ) (interval : ℤ) (text : Str)
    → is_positive interval ≡ true
    → is_positive (interval_of parse_duration interval text) ≡ true
unfolding interval_of
interval_of-pos parse_duration interval text h = elim (Option-cases (parse_duration text)) [
  | inl n ↦ ground arith
  | inr (i, y) ↦ ground arith
]

-- Where the interval of the static configuration is positive, a backend is checked at a positive
-- interval, whatever its own text for it says, and at its own path, which is not empty.
pub parse_health_check_options_lem :
    (parse_duration : Str → Option ℤ) (hc : HealthCheck) (interval : ℤ) (o : Options)
    → is_positive interval ≡ true
    → parse_health_check_options parse_duration (some hc) interval ≡ some o
    → (is_positive o.interval ≡ true) × (o.path ≡ hc.path) × (is_empty o.path ≡ false)
unfolding parse_health_check_options
parse_health_check_options_lem parse_duration hc interval o h e =
    ground (arith, interval_of-pos parse_duration interval hc.interval)
