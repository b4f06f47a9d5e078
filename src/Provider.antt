-- ===== src/Provider.antt =====
-- provider/provider.go: what all providers share.
pub mod Names
pub mod Matching
pub mod Kubernetes
pub mod Docker
pub mod Marathon
pub mod Rancher
pub mod ConsulCatalog
pub mod Ecs
pub mod Mesos
pub mod Eureka
use traefik.Prelude.{
  map, ◌==◌, ℕ, Bool, true, false, not, ◌&&◌, ◌||◌, Option, none, some, List, [], ◌∷◌, ◌++◌, Str,
  codes, is_empty, if◌then◌else◌, zero, suc, length, ltb, leb, ◌-◌, ◌+◌,
}
use traefik.Text.{fields_func, join, cut, split, contains}
use traefik.Types.Constraint.{Constraint, match_constraint_with_at_least_one_tag}

abbrev pub bool_eq : Bool → Bool → Bool
bool_eq true b = b
bool_eq false b = not b

-- Replace, of all of one character by another
abbrev pub replace : ℕ → ℕ → Str → Str
replace old new s = map (λ c. if c == old then new else c) s

-- ReverseStringSlice
abbrev pub reverse_string_slice : List Str → List Str
reverse_string_slice [] = []
reverse_string_slice (s ∷ ss) = reverse_string_slice ss ++ s ∷ []

-- BaseProvider.MatchConstraints, over the matcher of the package go-glob: whether all constraints
-- hold, and the first that does not.
module _ (glob : Str → Str → Bool) where
  -- The loop over the constraints.
  unfoldable pub first_violated : List Str → List Constraint → Bool × Option Constraint
  first_violated tags [] = (true, none)
  first_violated tags (c ∷ cs) =
      let ok = match_constraint_with_at_least_one_tag glob c tags in
      if not (bool_eq ok c.must_match) then (false, some c) else first_violated tags cs

  unfoldable pub match_constraints : List Constraint → List Str → Bool × Option Constraint
  match_constraints constraints tags =
      if is_empty tags && is_empty constraints
      then (true, none)
      else first_violated tags constraints

-- Normalize. `is_letter` and `is_number` are the classes of the package unicode.
module _ (is_letter is_number : ℕ → Bool) where
  abbrev pub fargs : ℕ → Bool
  fargs c = not (is_letter c) && not (is_number c)

  unfoldable pub normalize : Str → Str
  normalize name = join (codes "-") (fields_func fargs name)
