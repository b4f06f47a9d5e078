-- ===== src/Tests/Rules.antt =====
-- Rules that are printed, read and applied.
use traefik.Prelude.{
  false, Option, none, some, List, [], ◌∷◌, ◌++◌, Str, codes, ok, ◌≡◌, ◌↔◌, refl, map, ℤ, pos, zero,
  add_length, is_empty,
}
use traefik.Text.{
  is, byte_length, fields_func, trim_space, split_by, split, join, trim_left, trim_right,
}
use traefik.Types.{canonical_domain}
use traefik.Tests.{by_search}
use traefik.Rules.{Function, host, path_prefix_strip, parse_rules}
use traefik.Rules.Parse.{IsPrintable, ArePrintable, print_rules, run, parse_rules-print_rules}
use traefik.Rules.Domains.{parse_domains, hosts, parse_domains-print_rules}
use traefik.Rules.Route.Sizes.{sort_texts, sort_texts-perm, sort_texts-IsBySize}
use traefik.Rules.Route.{Mux, ServerRoute, apply, routed, panicked, get_route}
use traefik.Rules.Route.Effects.{apply_all, get_route-print_rules, get_route_panics_iff}

abbrev host_args : List Str
host_args = codes "Foo.com" ∷ []

abbrev prefix_args : List Str
prefix_args = codes "/a" ∷ codes "/api" ∷ []

abbrev strip_rules : List (Function × List Str)
strip_rules = (path_prefix_strip, prefix_args) ∷ []

abbrev a_rule : Function × List Str
a_rule = (host, host_args)

host_args-IsPrintable : IsPrintable host_args
unfolding split join trim_space trim_left trim_right split_by
host_args-IsPrintable = record {
  some_args = refl;
  no_comma = (by_search (is b',') (codes "Foo.com") refl, tt);
  non_empty = (refl, tt);
  trimmed = (refl, tt);
  no_semicolon = by_search (is b';') (join (codes ",") host_args) refl;
  colons_apart = (refl, tt);
}

prefix_args-IsPrintable : IsPrintable prefix_args
unfolding split trim_space trim_left trim_right join split_by
prefix_args-IsPrintable = record {
  some_args = refl;
  no_comma = (by_search (is b',') (codes "/a") refl, (by_search (is b',') (codes "/api") refl, tt));
  non_empty = (refl, (refl, tt));
  trimmed = (refl, (refl, tt));
  no_semicolon = by_search (is b';') (join (codes ",") prefix_args) refl;
  colons_apart = (refl, tt);
}

both-ArePrintable : ArePrintable (a_rule ∷ strip_rules)
both-ArePrintable = (host_args-IsPrintable, (prefix_args-IsPrintable, tt))

-- The functions are noted, and the second rule is refused.
abbrev noted : Function → List Str → List Function → List Function × Option Str
noted host args fs = (fs ++ host ∷ [], none)
noted f args fs = (fs ++ f ∷ [], some (codes "no"))

parse_rules-print_rules_example :
    parse_rules noted (print_rules (a_rule ∷ strip_rules)) [] ≡ run noted (a_rule ∷ strip_rules) []
parse_rules-print_rules_example =
    parse_rules-print_rules noted a_rule strip_rules [] both-ArePrintable

parse_domains-print_rules_example :
    parse_domains (print_rules (a_rule ∷ strip_rules))
    ≡ ok (map canonical_domain (hosts (a_rule ∷ strip_rules)))
parse_domains-print_rules_example = parse_domains-print_rules a_rule strip_rules both-ArePrintable

-- A router that keeps the priority, and finds a fault in one of zero.
abbrev faulty : ℤ → Option Str
faulty (pos zero) = some (codes "no priority")
faulty r = none

abbrev a_mux : Mux
a_mux = record {
  Route = ℤ;
  matcher_func = λ m r. r;
  subrouter = λ m r. r;
  methods = λ m r. r;
  headers = λ m r. r;
  headers_regexp = λ m r. r;
  get_error = faulty;
  get_priority = λ r. r;
  set_priority = λ p r. p;
  sort_by_size = sort_texts;
  sort_by_size-perm = sort_texts-perm;
  sort_by_size-IsBySize = sort_texts-IsBySize;
}

abbrev a_route : ServerRoute ℤ
a_route = record {
  route = pos 3;
  strip_prefixes = codes "/long" ∷ codes "/s" ∷ [];
  strip_prefixes_regex = [];
  add_prefix = [];
  replace_path = [];
}

get_route-print_rules_example :
    let after = apply_all a_mux (a_rule ∷ strip_rules) a_route in
    let length = byte_length (print_rules (a_rule ∷ strip_rules)) in
    get_route a_mux (print_rules (a_rule ∷ strip_rules)) a_route
    ≡ (record after { route = add_length after.route length }, routed)
unfolding apply
get_route-print_rules_example =
    get_route-print_rules a_mux a_rule strip_rules a_route (refl, (refl, tt)) both-ArePrintable

get_route_panics_iff_example :
    ((get_route a_mux (codes ";") a_route).1 ≡ panicked)
    ↔ ((is_empty (codes ";") ≡ false) × (fields_func (is b';') (codes ";") ≡ []))
get_route_panics_iff_example = get_route_panics_iff a_mux (codes ";") a_route
