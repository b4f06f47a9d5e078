-- ===== src/Rules/Parse.antt =====
-- What the parser of rules makes of printed rules, and which rules it accepts.
use traefik.Prelude.{
  false, Option, none, some, List, [], ◌∷◌, ◌++◌, map, Str, codes, lookup, is_empty, ok, ◌≡◌, refl,
  ap, ap₂, ◌∙◌, All, All-append, fun_ext, Result-cases, inl, inr, arith, str_eq,
}
use traefik.Text.{is, fields_func, split, join, trim_space}
use traefik.Text.Split.{
  Lacks, NonEmpty, split_by_at, fields_func-join, join-split, keep_of_NonEmpty,
}
use traefik.Text.Trim.{IsTrimmed}
use traefik.Rules.{
  Function, host, host_regexp, path, path_strip, path_strip_regex, path_prefix, path_prefix_strip,
  path_prefix_strip_regex, method, headers, headers_regexp, add_prefix, replace_path, functions,
  RuleError, proceed, parse_rule, parse_loop, parse_rules,
}

-- The name under which a function is registered.
abbrev pub function_name : Function → Str
function_name host = codes "Host"
function_name host_regexp = codes "HostRegexp"
function_name path = codes "Path"
function_name path_strip = codes "PathStrip"
function_name path_strip_regex = codes "PathStripRegex"
function_name path_prefix = codes "PathPrefix"
function_name path_prefix_strip = codes "PathPrefixStrip"
function_name path_prefix_strip_regex = codes "PathPrefixStripRegex"
function_name method = codes "Method"
function_name headers = codes "Headers"
function_name headers_regexp = codes "HeadersRegexp"
function_name add_prefix = codes "AddPrefix"
function_name replace_path = codes "ReplacePath"

-- `Name:arg,arg`
pub print_rule : Function × List Str → Str
print_rule (f, args) = function_name f ++ b':' ∷ join (codes ",") args

-- `Name:arg,arg;Name:arg`
pub print_rules : List (Function × List Str) → Str
print_rules rs = join (codes ";") (map print_rule rs)

abbrev pub NonEmptyList : List Str → Type 0
NonEmptyList args = is_empty args ≡ false

-- Arguments that a rule can carry: trimmed texts that are not empty and hold neither comma nor
-- semicolon; with commas between them, every colon stands between two characters that are no colons.
pub record IsPrintable (args : List Str) : Type 0 where
  pub some_args : NonEmptyList args
  pub no_comma : All (Lacks (is b',')) args
  pub non_empty : All NonEmpty args
  pub trimmed : All IsTrimmed args
  pub no_semicolon : Lacks (is b';') (join (codes ",") args)
  pub colons_apart : All NonEmpty (split b':' (join (codes ",") args))

name_lem :
    (f : Function)
    → (lookup (trim_space (function_name f)) functions ≡ some f)
      × Lacks (is b':') (function_name f)
      × Lacks (is b';') (function_name f)
      × NonEmpty (function_name f)
unfolding lookup str_eq trim_space
name_lem host = (refl, ground arith, ground arith, refl)
name_lem _ = (refl, ground arith, ground arith, refl)

-- The fields of a printed rule: the name, and what stands between the colons of the rest.
fields-print_rule :
    (f : Function) (args : List Str)
    → IsPrintable args
    → fields_func (is b':') (print_rule (f, args))
      ≡ function_name f ∷ split b':' (join (codes ",") args)
unfolding fields_func print_rule split
fields-print_rule f args v =
    let (_, no_colon, _, nonempty) = name_lem f in
    rw (split_by_at (is b':') (function_name f) b':' (join (codes ",") args) no_colon refl) (
      keep_of_NonEmpty (function_name f ∷ split b':' (join (codes ",") args))
        (nonempty, v.colons_apart))

map-trimmed : (args : List Str) → All IsTrimmed args → map trim_space args ≡ args
map-trimmed [] h = refl
map-trimmed (a ∷ args) (t, h) = ap₂ (◌∷◌) t (map-trimmed args h)

-- A printed rule is read as the function and the arguments that it was printed from.
pub parse_rule-print_rule {ℓ} :
    {E : Type ℓ} (f : Function) (args : List Str)
    → IsPrintable args
    → parse_rule {E = E} (print_rule (f, args)) ≡ ok (f, args)
unfolding parse_rule
parse_rule-print_rule f [] v = absurd (ground (arith, v.some_args))
parse_rule-print_rule f (arg ∷ args) v = rw (
  fields-print_rule f (arg ∷ args) v,
  (name_lem f).0,
  join-split b':' (join (codes ",") (arg ∷ args)),
  fields_func-join b',' (arg ∷ args) v.no_comma v.non_empty,
  map-trimmed (arg ∷ args) v.trimmed,
)

print_rule-Lacks :
    (f : Function) (args : List Str) → IsPrintable args → Lacks (is b';') (print_rule (f, args))
unfolding print_rule
print_rule-Lacks f args v =
    All-append (λ c. is b';' c ≡ false) (function_name f) (b':' ∷ join (codes ",") args)
      (name_lem f).2 (refl, v.no_semicolon)

print_rule-NonEmpty : (f : Function) (args : List Str) → NonEmpty (print_rule (f, args))
unfolding print_rule
print_rule-NonEmpty host args = refl
print_rule-NonEmpty _ args = refl

abbrev pub ArePrintable : List (Function × List Str) → Type 0
ArePrintable = All (λ r. IsPrintable r.1)

map-print_rule :
    (rs : List (Function × List Str))
    → ArePrintable rs
    → All (Lacks (is b';')) (map print_rule rs) × All NonEmpty (map print_rule rs)
map-print_rule [] h = (tt, tt)
map-print_rule ((f, args) ∷ rs) (v, h) =
    let (lacks, nonempty) = map-print_rule rs h in
    ((print_rule-Lacks f args v, lacks), (print_rule-NonEmpty f args, nonempty))

join-NonEmpty : (sep w : Str) (ws : List Str) → NonEmpty w → NonEmpty (join sep (w ∷ ws))
unfolding join
join-NonEmpty sep w [] h = h
join-NonEmpty sep [] (v ∷ ws) h = cc
join-NonEmpty sep (c ∷ w) (v ∷ ws) h = refl

-- The callback is called on every rule in turn, up to the first that it refuses.
module _ {ℓ κ} {E : Type ℓ} {S : Type κ} (on_rule : Function → List Str → S → S × Option E) where
  unfoldable pub run : List (Function × List Str) → S → S × Option (RuleError E)
  run [] s = (s, none)
  run ((f, args) ∷ rs) s = proceed (on_rule f args s) (run rs)

  parse_loop-map :
      (rs : List (Function × List Str)) (s : S)
      → ArePrintable rs
      → parse_loop on_rule (map print_rule rs) s ≡ run rs s
  unfolding parse_loop run
  parse_loop-map [] s h = refl
  parse_loop-map ((f, args) ∷ rs) s (v, h) =
      rw (parse_rule-print_rule {E = E} f args v, parse_loop)
        (ap (proceed (on_rule f args s)) (fun_ext λ s'. parse_loop-map rs s' h))

  parse_rules_of_NonEmpty :
      (t : Str) (s : S)
      → NonEmpty t
      → parse_rules on_rule t s ≡ parse_loop on_rule (fields_func (is b';') t) s
  unfolding parse_rules
  parse_rules_of_NonEmpty [] s h = cc
  parse_rules_of_NonEmpty (c ∷ t) s h = refl

  -- Where each of one or more rules has arguments, which are trimmed, not empty and without comma and
  -- semicolon, and where, with commas between them, every colon stands between two characters that
  -- are no colons: parsing the printed rules runs the callback on exactly the functions and arguments
  -- that they were printed from, in order, up to the first that it refuses.
  pub parse_rules-print_rules :
      (r : Function × List Str) (rs : List (Function × List Str)) (s : S)
      → ArePrintable (r ∷ rs)
      → parse_rules on_rule (print_rules (r ∷ rs)) s ≡ run (r ∷ rs) s
  unfolding print_rules
  parse_rules-print_rules r rs s h =
      let (lacks, nonempty) = map-print_rule (r ∷ rs) h in
      parse_rules_of_NonEmpty (print_rules (r ∷ rs)) s
        (join-NonEmpty (codes ";") (print_rule r) (map print_rule rs) nonempty.0)
      ∙ rw (fields_func-join b';' (map print_rule (r ∷ rs)) lacks nonempty)
          (parse_loop-map (r ∷ rs) s h)

-- What every call of the callback keeps holds when parsing ends, by an error too.
module _ {ℓ κ μ} {E : Type ℓ} {S : Type κ} (on_rule : Function → List Str → S → S × Option E)
    (P : S → Type μ)
    (keeps : (f : Function) (args : List Str) (s : S) → P s → P (on_rule f args s).0) where
  pub parse_loop_inv : (rules : List Str) (s : S) → P s → P (parse_loop on_rule rules s).0
  unfolding parse_loop
  parse_loop_inv [] s h = h
  parse_loop_inv (rule ∷ rules) s h = elim (Result-cases (parse_rule {E = E} rule)) [
    | inl ((f, args), y) ↦
        rw (y, parse_loop)
          (proceed_inv (on_rule f args s) (keeps f args s h) (λ s' h'. parse_loop_inv rules s' h'))
    | inr (e, n) ↦ rw (n, parse_loop) h
  ]
    where
      proceed_inv :
          (p : S × Option E)
          → P p.0
          → ((s' : S) → P s' → P (parse_loop on_rule rules s').0)
          → P (proceed p (parse_loop on_rule rules)).0
      proceed_inv (s', some e) h' next = h'
      proceed_inv (s', none) h' next = next s' h'

  pub parse_rules_inv : (t : Str) (s : S) → P s → P (parse_rules on_rule t s).0
  unfolding parse_rules
  parse_rules_inv [] s h = h
  parse_rules_inv (c ∷ t) s h = parse_loop_inv (fields_func (is b';') (c ∷ t)) s h
