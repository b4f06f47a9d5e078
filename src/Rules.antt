-- ===== src/Rules.antt =====
-- server/rules.go: the rules of a frontend's routes. A rule is `Name:arg,arg;Name:arg`.
pub mod Parse
pub mod Route
pub mod Domains
use traefik.Prelude.{
  ℕ, ◌==◌, Bool, true, false, Option, none, some, List, [], ◌∷◌, ◌++◌, map, Str, codes, Dict,
  lookup, is_empty, if◌then◌else◌, Result, ok, err, is_some, not,
}
use traefik.Text.{is, fields_func, join, trim_space}

-- The functions that a rule can name.
pub data Function : Type 0 where
  host host_regexp path path_strip path_strip_regex : Function
  path_prefix path_prefix_strip path_prefix_strip_regex : Function
  method headers headers_regexp add_prefix replace_path : Function

abbrev pub functions : Dict Function
functions =
    (codes "Host", host)
    ∷ (codes "HostRegexp", host_regexp)
    ∷ (codes "Path", path)
    ∷ (codes "PathStrip", path_strip)
    ∷ (codes "PathStripRegex", path_strip_regex)
    ∷ (codes "PathPrefix", path_prefix)
    ∷ (codes "PathPrefixStrip", path_prefix_strip)
    ∷ (codes "PathPrefixStripRegex", path_prefix_strip_regex)
    ∷ (codes "Method", method)
    ∷ (codes "Headers", headers)
    ∷ (codes "HeadersRegexp", headers_regexp)
    ∷ (codes "AddPrefix", add_prefix)
    ∷ (codes "ReplacePath", replace_path)
    ∷ []

-- Why a rule is refused, with the rule; `on_rule` carries the error of the callback.
pub data RuleError {ℓ} (E : Type ℓ) : Type ℓ where
  empty_rule : RuleError E
  no_function : Str → RuleError E
  unknown_function : Str → Str → RuleError E
  no_arguments : Str → RuleError E
  rejected : E → RuleError E

-- The arguments of a rule, trimmed: there has to be one.
parse_args {ℓ} :
    {E : Type ℓ} → Str → Function → List Str → Result (RuleError E) (Function × List Str)
parse_args rule function [] = err (no_arguments rule)
parse_args rule function (arg ∷ args) = ok (function, map trim_space (arg ∷ args))

-- What stands behind the name is joined again at colons, and split at commas.
parse_named {ℓ} :
    {E : Type ℓ}
    → Str
    → Str
    → Option Function
    → List Str
    → Result (RuleError E) (Function × List Str)
parse_named rule name none parsed = err (unknown_function rule name)
parse_named rule name (some function) parsed =
    parse_args rule function (fields_func (is b',') (join (codes ":") parsed))

parse_parts {ℓ} : {E : Type ℓ} → Str → List Str → Result (RuleError E) (Function × List Str)
parse_parts rule [] = err (no_function rule)
parse_parts rule (name ∷ parsed) = parse_named rule name (lookup (trim_space name) functions) parsed

-- One rule: the function that it names, and its arguments.
unfoldable pub parse_rule {ℓ} : {E : Type ℓ} → Str → Result (RuleError E) (Function × List Str)
unfolding parse_args parse_named parse_parts
parse_rule rule = parse_parts rule (fields_func (is b':') rule)

-- On to the next rule, unless the callback returned an error.
abbrev pub proceed {ℓ κ} :
    {E : Type ℓ} {S : Type κ}
    → S × Option E
    → (S → S × Option (RuleError E))
    → S × Option (RuleError E)
proceed (s, some e) next = (s, some (rejected e))
proceed (s, none) next = next s

-- What the callback makes of the state: the calls before a failure keep their effect.
module _ {ℓ κ} {E : Type ℓ} {S : Type κ} (on_rule : Function → List Str → S → S × Option E) where
  -- The loop over the rules.
  unfoldable pub parse_loop : List Str → S → S × Option (RuleError E)
  parse_loop [] s = (s, none)
  parse_loop (rule ∷ rules) s = elim (parse_rule {E = E} rule) [
    | err e ↦ (s, some e)
    | ok (function, args) ↦ proceed (on_rule function args s) (parse_loop rules)
  ]

  unfoldable pub parse_rules : Str → S → S × Option (RuleError E)
  parse_rules [] s = (s, some empty_rule)
  parse_rules (c ∷ expression) s = parse_loop (fields_func (is b';') (c ∷ expression)) s
