-- ===== src/Types/Constraint.antt =====
-- types/types.go: constraints on tags, read from text and printed.
use traefik.Prelude.{
  Bool, true, false, ◌≡◌, refl, sym, ap, ◌∙◌, Option, none, some, List, [], ◌∷◌, ◌++◌, Str, codes,
  str_eq, str_eq_iff, arith, if◌then◌else◌, Bool-cases, inl, inr, Result, ok, err, ◌↔◌, All, map,
  append-nil, append_assoc,
}
use traefik.Text.{contains, cut, split, after_prefix, join, is}
use traefik.Text.Split.{Lacks, split-join}
use traefik.Text.Cut.{cut_sound, cut-append}

pub record Constraint : Type 0 where
  pub key : Str
  pub must_match : Bool
  pub regex : Str

pub data ConstraintError : Type 0 where
  missing_operator : ConstraintError
  not_tag_based : ConstraintError
  incorrect : Str → ConstraintError

abbrev pub eq_op : Str
eq_op = codes "=="

abbrev pub ne_op : Str
ne_op = codes "!="

abbrev pub tag : Str
tag = codes "tag"

-- The part of the function behind the choice of the operator; the cut is strings.SplitN at 2, which
-- returns one part where the separator is missing.
with_operator : Str → Bool → Option (Str × Str) → Result ConstraintError Constraint
with_operator exp must_match none = err (incorrect exp)
with_operator exp must_match (some (key, regex)) =
    if str_eq key tag
    then ok (record { key = key; must_match = must_match; regex = regex })
    else err not_tag_based

unfoldable pub new_constraint : Str → Result ConstraintError Constraint
unfolding with_operator
new_constraint exp =
    if contains exp eq_op
    then with_operator exp true (cut eq_op exp)
    else if contains exp ne_op
    then with_operator exp false (cut ne_op exp)
    else err missing_operator

-- Constraint.String
unfoldable pub to_string : Constraint → Str
to_string c = if c.must_match then c.key ++ (eq_op ++ c.regex) else c.key ++ (ne_op ++ c.regex)

-- Constraint.UnmarshalText: the constraint is left as it was where the text is refused.
unfoldable pub unmarshal_text : Str → Constraint → Constraint × Option ConstraintError
unmarshal_text text c = elim (new_constraint text) [
  | err e ↦ (c, some e)
  | ok constraint ↦ (
    record c { key = constraint.key; must_match = constraint.must_match; regex = constraint.regex },
    none,
  )
]

-- The matcher of the package go-glob: pattern, subject.
module _ (glob : Str → Str → Bool) where
  unfoldable pub match_constraint_with_at_least_one_tag : Constraint → List Str → Bool
  match_constraint_with_at_least_one_tag c [] = false
  match_constraint_with_at_least_one_tag c (t ∷ tags) =
      if glob c.regex t then true else match_constraint_with_at_least_one_tag c tags

-- The loop of Constraints.Set: what was read before a failure stays appended.
set_from : List Constraint → List Str → List Constraint × Option ConstraintError
set_from cs [] = (cs, none)
set_from cs (exp ∷ exps) = elim (new_constraint exp) [
  | err e ↦ (cs, some e)
  | ok c ↦ set_from (cs ++ c ∷ []) exps
]

-- Constraints.Set: the parts of a split are never none, so the test for that is passed over.
unfoldable pub set : Str → List Constraint → List Constraint × Option ConstraintError
unfolding set_from
set str cs = set_from cs (split b',' str)

-- The operator and the key of a text that is read.
with_operator_sound :
    (exp op : Str) (must_match : Bool) (o : Option (Str × Str)) {c : Constraint}
    → cut op exp ≡ o
    → with_operator exp must_match o ≡ ok c
    → (exp ≡ tag ++ (op ++ c.regex)) × (c.key ≡ tag) × (c.must_match ≡ must_match)
unfolding with_operator
with_operator_sound exp op must_match none e h = absurd (ground arith)
with_operator_sound exp op must_match (some (key, regex)) e h =
    let found = cut_sound op exp e in ground (arith, str_eq_iff key tag)

-- A text that is read as a constraint is what the constraint prints.
pub to_string-new_constraint :
    (exp : Str) (c : Constraint) → new_constraint exp ≡ ok c → to_string c ≡ exp
unfolding to_string new_constraint
to_string-new_constraint exp c h = elim (Bool-cases (contains exp eq_op)) [
  | inl y ↦
      let f = with_operator_sound exp eq_op true (cut eq_op exp) {c = c} refl (rw y at h) in
      rw f.2 (rw f.1 (sym f.0))
  | inr n ↦ elim (Bool-cases (contains exp ne_op)) [
    | inl y ↦
        let f = with_operator_sound exp ne_op false (cut ne_op exp) {c = c} refl (rw (n, y) at h) in
        rw f.2 (rw f.1 (sym f.0))
    | inr m ↦ absurd (ground arith)
  ]
]

-- Every constraint on tags with `==` is read back from what it prints.
pub new_constraint-to_string_eq :
    (regex : Str)
    → let c : Constraint = record { key = tag; must_match = true; regex = regex } in
      new_constraint (to_string c) ≡ ok c
unfolding to_string new_constraint contains str_eq
new_constraint-to_string_eq regex =
    let found = cut-append eq_op tag regex (unfold after_prefix in (refl, (refl, (refl, tt)))) in
    rw found refl

-- One with `!=` is read back exactly if no `==` can be seen in what it prints.
pub new_constraint-to_string_ne :
    (regex : Str)
    → let c : Constraint = record { key = tag; must_match = false; regex = regex } in
      (new_constraint (to_string c) ≡ ok c) ↔ (contains (tag ++ (ne_op ++ regex)) eq_op ≡ false)
unfolding to_string new_constraint str_eq
new_constraint-to_string_ne regex = (
  λ e. elim (Bool-cases (contains (tag ++ (ne_op ++ regex)) eq_op)) [
    | inl y ↦
        let f = with_operator_sound (tag ++ (ne_op ++ regex)) eq_op true _ refl (rw y at e) in
        cc f.2
    | inr n ↦ n
  ],
  λ h.
      let found = cut-append ne_op tag regex (unfold after_prefix in (refl, (refl, (refl, tt)))) in
      let seen : contains (tag ++ (ne_op ++ regex)) ne_op ≡ true =
        unfold contains in rw found refl in
      rw (h, seen, found) refl,
)

-- A constraint that is read back from what it prints, in a list at commas.
abbrev pub IsListed : Constraint → Type 0
IsListed c = (new_constraint (to_string c) ≡ ok c) × Lacks (is b',') (to_string c)

set_from-map :
    (old cs : List Constraint)
    → All IsListed cs
    → set_from old (map to_string cs) ≡ (old ++ cs, none)
unfolding set_from
set_from-map old [] h = ap (λ r. (r, none)) (sym (append-nil old))
set_from-map old (c ∷ cs) ((r, _), h) =
    rw (r, set_from)
      (set_from-map (old ++ c ∷ []) cs h ∙ ap (λ r. (r, none)) (append_assoc old (c ∷ []) cs))

map-Lacks : (cs : List Constraint) → All IsListed cs → All (Lacks (is b',')) (map to_string cs)
map-Lacks [] h = tt
map-Lacks (c ∷ cs) ((_, l), h) = (l, map-Lacks cs h)

-- Setting the texts of constraints, joined by commas, appends those constraints, in order: each of
-- them must be one that is read back, and print no comma.
pub set-join :
    (old : List Constraint) (c : Constraint) (cs : List Constraint)
    → All IsListed (c ∷ cs)
    → set (join (b',' ∷ []) (map to_string (c ∷ cs))) old ≡ (old ++ c ∷ cs, none)
unfolding set split
set-join old c cs h =
    rw (split-join b',' (to_string c) (map to_string cs) (map-Lacks (c ∷ cs) h))
      (set_from-map old (c ∷ cs) h)
