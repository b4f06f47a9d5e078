-- ===== src/Server/Handlers.antt =====
-- server/server.go: the handlers of a route, of a redirection and of a health check.
pub mod Wiring
pub mod Redirection
pub mod Intervals
use traefik.Prelude.{
  ℕ, ◌==◌, Bool, true, false, ◌&&◌, Option, none, some, List, [], ◌∷◌, ◌++◌, Str, codes, Dict,
  lookup, is_empty, if◌then◌else◌, ℤ, is_positive, not, Result, ok, err, leb, is_some,
}
use traefik.Types.{Server, HealthCheck, MaxConn}
use traefik.Types.Balancing.{LoadBalancerMethod}
use traefik.Middlewares.{Request}
use traefik.Middlewares.Paths.{add_prefix, strip_prefix, strip_prefix_regex, replace_path}
use traefik.Middlewares.Auth.{Authenticator}
use traefik.HealthCheck.{Options}
use traefik.Rules.Route.{ServerRoute}
use traefik.Server.Settings.{EntryPoint}

-- What a route hands a request to, as it was put together: the chain of a backend, a redirection, or
-- another handler behind one that changes the path.
pub record BackendChain : Type 0 where
  pub frontend_name : Str
  pub backend_name : Str
  pub pass_host_header : Bool
  pub method : LoadBalancerMethod
  pub sticky : Bool
  pub servers : List (Str × ℤ)
  pub max_conn : Option MaxConn
  pub retries : Option ℤ
  pub prometheus : Bool
  pub authenticator : Option Authenticator
  pub circuit_breaker : Option Str

pub data Handler : Type 0 where
  to_backend : BackendChain → Handler
  to_redirect : Str → Str → Str → Handler
  with_add_prefix : Str → Handler → Handler
  with_strip_prefix : List Str → Handler → Handler
  with_strip_prefix_regex : List Str → Handler → Handler
  with_replace_path : Str → Handler → Handler

module _ {R : Type 0} where
  -- wireFrontendBackend: the handler that the route gets; the later a handler is put in front, the
  -- earlier it sees the request.
  unfoldable pub wire_frontend_backend : ServerRoute R → Handler → Handler
  wire_frontend_backend sr h =
      let h₁ = if is_empty sr.add_prefix then h else with_add_prefix sr.add_prefix h in
      let h₂ = if is_empty sr.strip_prefixes then h₁ else with_strip_prefix sr.strip_prefixes h₁ in
      let h₃ =
        if is_empty sr.strip_prefixes_regex
        then h₂
        else with_strip_prefix_regex sr.strip_prefixes_regex h₂ in
      if is_empty sr.replace_path then h₃ else with_replace_path sr.replace_path h₃

-- The answer of a handler to a request, given that of the innermost ones.
module _ {ℓ} {A : Type ℓ} (uri_of : Str → Str → Str) (not_found silent : A)
    (prefix_of : List Str → Request → Option (Option Str)) (inner : Handler → Request → A) where
  unfoldable pub serve : Handler → Request → A
  serve (to_backend b) r = inner (to_backend b) r
  serve (to_redirect re to f) r = inner (to_redirect re to f) r
  serve (with_add_prefix p h) r = add_prefix uri_of p (λ q. serve h q) r
  serve (with_strip_prefix ps h) r = strip_prefix uri_of not_found silent ps (λ q. serve h q) r
  serve (with_strip_prefix_regex ps h) r =
      strip_prefix_regex uri_of not_found silent prefix_of ps (λ q. serve h q) r
  serve (with_replace_path p h) r = replace_path p (λ q. serve h q) r

abbrev pub is_digit : ℕ → Bool
is_digit c = leb b'0' c && leb c b'9'

unfoldable pub take_digits : Str → Str
take_digits [] = []
take_digits (c ∷ s) = let rest = take_digits s in if is_digit c then c ∷ rest else []

-- The first match of the expression `(:\d+)`.
unfoldable pub find_port : Str → Option Str
find_port [] = none
find_port (c ∷ s) =
    let later = find_port s in
    if c == b':' && not (is_empty (take_digits s)) then some (c ∷ take_digits s) else later

pub data RedirectError : Type 0 where
  unknown_entry_point bad_address bad_regex : Str → RedirectError

abbrev pub redirect_regex : Str
redirect_regex = codes "^(?:https?:\\/\\/)?([\\w\\._-]+)(?::\\d+)?(.*)$"

-- The replacement of a redirection to an entry point.
replacement_to : EntryPoint → Option Str → Result RedirectError Str
replacement_to entry_point none = err (bad_address entry_point.address)
replacement_to entry_point (some port) =
    let protocol = if is_some entry_point.tls then codes "https" else codes "http" in
    ok (protocol ++ (codes "://$1" ++ (port ++ codes "$2")))

-- `compiles` says whether regexp.Compile accepts an expression, for NewRewrite.
module _ (compiles : Str → Bool) where
  rewrite : Str → Str → Result RedirectError (Str × Str)
  rewrite regex replacement =
      if compiles regex then ok (regex, replacement) else err (bad_regex regex)

  redirect_to : Str → Option EntryPoint → Result RedirectError (Str × Str)
  redirect_to name none = err (unknown_entry_point name)
  redirect_to name (some entry_point) =
      elim (replacement_to entry_point (find_port entry_point.address)) [
        | err e ↦ err e
        | ok replacement ↦ rewrite redirect_regex replacement
      ]

  -- loadEntryPointConfig: the expression and the replacement of the redirection.
  unfoldable pub load_entry_point_config :
      Dict EntryPoint → Str → Str → Str → Result RedirectError (Str × Str)
  unfolding redirect_to replacement_to rewrite
  load_entry_point_config entry_points entry_point regex replacement =
      if is_empty entry_point
      then rewrite regex replacement
      else redirect_to entry_point (lookup entry_point entry_points)

-- The interval of a health check; `parse_duration` is time.ParseDuration, `none` an error.
interval_of : (Str → Option ℤ) → ℤ → Str → ℤ
interval_of parse_duration interval text =
    if is_empty text then interval else elim (parse_duration text) [
      | none ↦ interval
      | some i ↦ if is_positive i then i else interval
    ]

-- parseHealthCheckOptions, over the interval of the static configuration.
unfoldable pub parse_health_check_options :
    (Str → Option ℤ) → Option HealthCheck → ℤ → Option Options
unfolding interval_of
parse_health_check_options parse_duration none interval = none
parse_health_check_options parse_duration (some hc) interval =
    if is_empty hc.path
    then none
    else some
        (record { path = hc.path; interval = interval_of parse_duration interval hc.interval })
