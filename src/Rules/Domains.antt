-- ===== src/Rules/Domains.antt =====
-- server/rules.go: the domains that the Host functions of a rule name.
use traefik.Prelude.{
  false, Option, none, some, List, [], ◌∷◌, ◌++◌, map, Str, Result, ok, err, ◌≡◌, refl, sym, ap,
  ◌∙◌, All, arith, ◌↔◌, is_empty, append-nil, append_assoc, Result-cases, inl, inr,
}
use traefik.Text.{is, fields_func}
use traefik.Types.{canonical_domain}
use traefik.Rules.{Function, host, RuleError, proceed, parse_rule, parse_loop, parse_rules}
use traefik.Rules.Parse.{print_rules, ArePrintable, run, parse_rules-print_rules}

-- The callback never fails.
collect : Function → List Str → List Str → List Str × Option ⊥
collect host arguments domains = (domains ++ arguments, none)
collect _ arguments domains = (domains, none)

finish : List Str × Option (RuleError ⊥) → Result (RuleError ⊥) (List Str)
finish (domains, some e) = err e
finish (domains, none) = ok (map canonical_domain domains)

unfoldable pub parse_domains : Str → Result (RuleError ⊥) (List Str)
unfolding collect finish
parse_domains expression = finish (parse_rules collect expression [])

-- The arguments of the Host functions among rules, in order.
abbrev pub hosts : List (Function × List Str) → List Str
hosts [] = []
hosts ((host, args) ∷ rs) = args ++ hosts rs
hosts (_ ∷ rs) = hosts rs

run-collect :
    (rs : List (Function × List Str)) (ds : List Str) → run collect rs ds ≡ (ds ++ hosts rs, none)
unfolding collect run
run-collect [] ds = ap (λ r. (r, none)) (sym (append-nil ds))
run-collect ((host, args) ∷ rs) ds =
    run-collect rs (ds ++ args) ∙ ap (λ r. (r, none)) (append_assoc ds args (hosts rs))
run-collect (_ ∷ rs) ds = run-collect rs ds

-- Where each of one or more rules has arguments, which are trimmed, not empty and without comma and
-- semicolon, and where, with commas between them, every colon stands between two characters that are
-- no colons: the domains of the printed rules are the canonical forms of the arguments of their Host
-- functions, in the order in which they stand.
pub parse_domains-print_rules :
    (r : Function × List Str) (rs : List (Function × List Str))
    → ArePrintable (r ∷ rs)
    → parse_domains (print_rules (r ∷ rs)) ≡ ok (map canonical_domain (hosts (r ∷ rs)))
unfolding parse_domains
parse_domains-print_rules r rs h =
    ap finish (parse_rules-print_rules collect r rs [] h ∙ run-collect (r ∷ rs) [])

-- The rule names a function and has arguments.
abbrev pub IsRule : Str → Type 0
IsRule rule = (r : Function × List Str) × (parse_rule {E = ⊥} rule ≡ ok r)

proceed-collect :
    (f : Function) (args ds : List Str) (next : List Str → List Str × Option (RuleError ⊥))
    → proceed (collect f args ds) next ≡ next (collect f args ds).0
unfolding collect
proceed-collect host args ds next = refl
proceed-collect _ args ds next = refl

parse_loop-collect_to :
    (rules : List Str) (ds : List Str) → (parse_loop collect rules ds).1 ≡ none → All IsRule rules
unfolding parse_loop
parse_loop-collect_to [] ds h = tt
parse_loop-collect_to (rule ∷ rules) ds h = elim (Result-cases (parse_rule {E = ⊥} rule)) [
  | inl ((f, args), y) ↦ (
    ((f, args), y),
    parse_loop-collect_to rules (collect f args ds).0
        (rw (y, parse_loop, proceed-collect f args ds (parse_loop collect rules)) at h),
  )
  | inr (e, n) ↦ absurd (ground arith)
]

parse_loop-collect_from :
    (rules : List Str) (ds : List Str) → All IsRule rules → (parse_loop collect rules ds).1 ≡ none
unfolding parse_loop
parse_loop-collect_from [] ds h = refl
parse_loop-collect_from (rule ∷ rules) ds (((f, args), y), h) =
    rw (y, parse_loop, proceed-collect f args ds (parse_loop collect rules))
      (parse_loop-collect_from rules (collect f args ds).0 h)

finish_iff :
    (p : List Str × Option (RuleError ⊥)) → ((ds : List Str) × (finish p ≡ ok ds)) ↔ (p.1 ≡ none)
unfolding finish
finish_iff (ds, some e) = (λ h. absurd (ground (arith, h.1)), λ h. cc)
finish_iff (ds, none) = (λ h. refl, λ h. (map canonical_domain ds, refl))

-- The domains of an expression are found exactly if it is not empty and each of its fields between
-- semicolons names a function and has arguments.
pub parse_domains_iff :
    (expression : Str)
    → ((ds : List Str) × (parse_domains expression ≡ ok ds))
      ↔ ((is_empty expression ≡ false) × All IsRule (fields_func (is b';') expression))
unfolding parse_domains parse_rules
parse_domains_iff [] = (λ h. absurd (ground (arith, h.1)), λ h. cc h.0)
parse_domains_iff (c ∷ s) =
    let rules = fields_func (is b';') (c ∷ s) in
    let found = finish_iff (parse_loop collect rules []) in
    (
      λ h. (refl, parse_loop-collect_to rules [] (found.0 h)),
      λ h. found.1 (parse_loop-collect_from rules [] h.1),
    )
