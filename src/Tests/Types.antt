-- ===== src/Tests/Types.antt =====
-- Constraints and names.
use traefik.Prelude.{true, none, [], ◌∷◌, codes, str_eq, map, ◌≡◌, refl}
use traefik.Text.{is, join}
use traefik.Tests.{by_search}
use traefik.Types.Constraint.{
  Constraint, to_string, set, tag, IsListed, new_constraint-to_string_eq, set-join,
}
use traefik.Provider.{match_constraints}
use traefik.Provider.Matching.{Checked, match_constraints_lem}

abbrev a_constraint : Constraint
a_constraint = record { key = tag; must_match = true; regex = codes "us-*" }

abbrev other_constraint : Constraint
other_constraint = record { key = tag; must_match = true; regex = codes "eu-*" }

a_constraint-IsListed : IsListed a_constraint
unfolding to_string
a_constraint-IsListed =
    (new_constraint-to_string_eq (codes "us-*"), by_search (is b',') (codes "tag==us-*") refl)

other_constraint-IsListed : IsListed other_constraint
unfolding to_string
other_constraint-IsListed =
    (new_constraint-to_string_eq (codes "eu-*"), by_search (is b',') (codes "tag==eu-*") refl)

set-join_example :
    set (join (b',' ∷ []) (map to_string (a_constraint ∷ other_constraint ∷ []))) []
    ≡ (a_constraint ∷ other_constraint ∷ [], none)
set-join_example =
    set-join [] a_constraint (other_constraint ∷ [])
      (a_constraint-IsListed, (other_constraint-IsListed, tt))

-- A pattern without stars.
match_constraints_lem_example :
    Checked str_eq
      (codes "us-*" ∷ [])
      (a_constraint ∷ other_constraint ∷ [])
      (match_constraints str_eq (a_constraint ∷ other_constraint ∷ []) (codes "us-*" ∷ []))
match_constraints_lem_example =
    match_constraints_lem str_eq (a_constraint ∷ other_constraint ∷ []) (codes "us-*" ∷ [])
