-- ===== src/Rules/Route.antt =====
-- server/rules.go and getRoute of server/server.go: what the functions of a rule do to a route.
pub mod Sizes
pub mod Effects
use traefik.Prelude.{
  ℕ, Bool, true, false, ◌||◌, Option, none, some, List, [], ◌∷◌, ◌++◌, map, Str, str_eq, ◌≤◌, All,
  if◌then◌else◌, any, is_empty, Result, ok, err, ℤ, add_length,
}
use mathlib.Core.List.{Perm}
use mathlib.Core.Option.{get_or}
use traefik.Text.{trim_space, byte_length}
use traefik.Types.{canonical_domain}
use traefik.Net.{split_host_port}
use traefik.Rules.{
  Function, host, host_regexp, path, path_strip, path_strip_regex, path_prefix, path_prefix_strip,
  path_prefix_strip_regex, method, headers, headers_regexp, add_prefix, replace_path, RuleError,
  parse_rules,
}

-- A matcher that is registered on a subrouter.
pub data SubMatcher : Type 0 where
  sub_host sub_path sub_path_prefix : Str → SubMatcher

-- No text is longer than one that stands before it: the order bySize.
abbrev pub IsBySize : List Str → Type 0
IsBySize [] = Unit
IsBySize (a ∷ bs) = All (λ b. byte_length b ≤ byte_length a) bs × IsBySize bs

-- The packages that the functions of a rule call. The operations of the package mux on a route, where
-- a subrouter is given with the matchers that are registered on it, in order; and sort.Sort on texts
-- in the order bySize, which says nothing of the order of texts of the same size.
pub record Mux : Type 1 where
  pub Route : Type 0
  pub matcher_func : (Str → Bool) → Route → Route
  pub subrouter : List SubMatcher → Route → Route
  pub methods : List Str → Route → Route
  pub headers : List Str → Route → Route
  pub headers_regexp : List Str → Route → Route
  pub get_error : Route → Option Str
  pub get_priority : Route → ℤ
  pub set_priority : ℤ → Route → Route
  pub sort_by_size : List Str → List Str
  pub sort_by_size-perm : (paths : List Str) → Perm (sort_by_size paths) paths
  pub sort_by_size-IsBySize : (paths : List Str) → IsBySize (sort_by_size paths)

-- serverRoute of server/server.go
pub record ServerRoute (R : Type 0) : Type 0 where
  pub route : R
  pub strip_prefixes : List Str
  pub strip_prefixes_regex : List Str
  pub add_prefix : Str
  pub replace_path : Str

-- The matcher of Host: the request's host, its port taken off, against each name.
unfoldable pub host_matches : List Str → Str → Bool
host_matches hosts request_host =
    let req_host = get_or (split_host_port request_host) request_host in
    any (λ h. str_eq (canonical_domain req_host) (canonical_domain h)) hosts

-- `for _, path := range paths { field = path }`
abbrev pub last_of : List Str → Str → Str
last_of [] s = s
last_of (p ∷ ps) s = last_of ps p

pub data Routing : Type 0 where
  routed : Routing
  failed : RuleError Str → Routing
  -- A method is called on the nil route.
  panicked : Routing

module _ (mux : Mux) where
  open mux use {Route, matcher_func, subrouter, get_error, get_priority, set_priority}

  abbrev add_subrouter : List SubMatcher → ServerRoute Route → ServerRoute Route
  add_subrouter ms sr = record sr { route = subrouter ms sr.route }

  -- The function of a rule, called with its arguments.
  unfoldable pub apply : Function → List Str → ServerRoute Route → ServerRoute Route
  apply host hosts sr = record sr { route = matcher_func (host_matches hosts) sr.route }
  apply host_regexp hosts sr = add_subrouter (map (λ h. sub_host (canonical_domain h)) hosts) sr
  apply path paths sr = add_subrouter (map (λ p. sub_path (trim_space p)) paths) sr
  apply path_prefix paths sr = add_subrouter (map (λ p. sub_path_prefix (trim_space p)) paths) sr
  apply path_strip paths sr =
      let sorted = mux.sort_by_size paths in
      add_subrouter (map (λ p. sub_path (trim_space p)) sorted)
        (record sr { strip_prefixes = sorted })
  apply path_strip_regex paths sr =
      let sorted = mux.sort_by_size paths in
      add_subrouter (map (λ p. sub_path (trim_space p)) sorted)
        (record sr { strip_prefixes_regex = sorted })
  apply path_prefix_strip paths sr =
      let sorted = mux.sort_by_size paths in
      add_subrouter (map (λ p. sub_path_prefix (trim_space p)) sorted)
        (record sr { strip_prefixes = sorted })
  apply path_prefix_strip_regex paths sr =
      let sorted = mux.sort_by_size paths in
      add_subrouter (map (λ p. sub_path_prefix (trim_space p)) sorted)
        (record sr { strip_prefixes_regex = sorted })
  apply replace_path paths sr = record sr { replace_path = last_of paths sr.replace_path }
  apply add_prefix paths sr = record sr { add_prefix = last_of paths sr.add_prefix }
  apply method methods sr = record sr { route = mux.methods methods sr.route }
  apply headers hs sr = record sr { route = mux.headers hs sr.route }
  apply headers_regexp hs sr = record sr { route = mux.headers_regexp hs sr.route }

  -- The server route, and whether the route that Parse returns is set: nil until a function ran.
  pub record Parsing : Type 0 where
    pub server_route : ServerRoute Route
    pub has_result : Bool

  -- The callback of Parse. The field `err` of Rules is never set.
  unfoldable pub call : Function → List Str → Parsing → Parsing × Option Str
  call f arguments p =
      let sr = apply f arguments p.server_route in
      (record { server_route = sr; has_result = true }, get_error sr.route)

  unfoldable pub parse : Str → ServerRoute Route → Parsing × Option (RuleError Str)
  parse expression sr =
      parse_rules call expression (record { server_route = sr; has_result = false })

  with_priority : Str → Parsing × Option (RuleError Str) → ServerRoute Route × Routing
  with_priority rule (p, some e) = (p.server_route, failed e)
  with_priority rule (p, none) =
      let sr = p.server_route in
      let priority = add_length (get_priority sr.route) (byte_length rule) in
      if p.has_result
      then (record sr { route = set_priority priority sr.route }, routed)
      else (sr, panicked)

  -- getRoute
  unfoldable pub get_route : Str → ServerRoute Route → ServerRoute Route × Routing
  unfolding with_priority
  get_route rule sr = with_priority rule (parse rule sr)
