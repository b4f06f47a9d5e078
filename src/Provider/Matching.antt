-- ===== src/Provider/Matching.antt =====
-- Which tags pass the constraints of a provider.
use traefik.Prelude.{
  Bool, true, false, Option, none, some, List, [], ◌∷◌, ◌++◌, Str, ◌≡◌, ◌⊎◌, refl, ap, ◌∙◌, All,
  any, arith, Bool-cases, inl, inr, ◌↔◌,
}
use traefik.Types.Constraint.{Constraint, match_constraint_with_at_least_one_tag}
use traefik.Provider.{bool_eq, first_violated, match_constraints}

module _ (glob : Str → Str → Bool) where
  -- Some tag matches the pattern, exactly if the constraint asks for one.
  abbrev pub Holds : List Str → Constraint → Type 0
  Holds tags c = any (λ t. glob c.regex t) tags ≡ c.must_match

  match-any :
      (c : Constraint) (tags : List Str)
      → match_constraint_with_at_least_one_tag glob c tags ≡ any (λ t. glob c.regex t) tags
  unfolding match_constraint_with_at_least_one_tag
  match-any c [] = refl
  match-any c (t ∷ tags) = ground (arith, match-any c tags)

  bool_eq_iff : (a b : Bool) → (bool_eq a b ≡ true) ↔ (a ≡ b)
  bool_eq_iff a b = ground arith

  -- What the check of constraints returns: either all of them hold, or one does not hold while all
  -- that stand before it do.
  abbrev pub Checked : List Str → List Constraint → Bool × Option Constraint → Type 0
  Checked tags cs r =
      ((r ≡ (true, none)) × All (Holds tags) cs)
      ⊎ ((before : List Constraint) × (c : Constraint) × (after : List Constraint) × (cs
            ≡ before ++ c ∷ after)
          × (r ≡ (false, some c))
          × All (Holds tags) before
          × (¬ Holds tags c))

  Checked-cons :
      (tags : List Str) (c : Constraint) (cs : List Constraint) (r : Bool × Option Constraint)
      → Holds tags c
      → Checked tags cs r
      → Checked tags (c ∷ cs) r
  Checked-cons tags c cs r h (inl (e, hs)) = inl (e, (h, hs))
  Checked-cons tags c cs r h (inr (before, d, after, e, q, hs, n)) =
      inr (c ∷ before, d, after, ap (λ l. c ∷ l) e, q, (h, hs), n)

  first_violated-Checked :
      (tags : List Str) (cs : List Constraint) → Checked tags cs (first_violated glob tags cs)
  unfolding first_violated
  first_violated-Checked tags [] = inl (refl, tt)
  first_violated-Checked tags (c ∷ cs) =
      elim (Bool-cases
        (bool_eq (match_constraint_with_at_least_one_tag glob c tags) c.must_match)) [
          | inl y ↦
              rw (y, first_violated)
                (Checked-cons tags c cs (first_violated glob tags cs)
                  (rw (← match-any c tags) ((bool_eq_iff _ _).0 y))
                  (first_violated-Checked tags cs))
          | inr n ↦ inr (
            [],
            c,
            cs,
            refl,
            rw (n, first_violated),
            tt,
            λ h. cc (n, (bool_eq_iff _ _).1 (match-any c tags ∙ h)),
          )
        ]

  -- The check passes if all constraints hold of the tags, and else returns the first that does not.
  pub match_constraints_lem :
      (cs : List Constraint) (tags : List Str) → Checked tags cs (match_constraints glob cs tags)
  unfolding match_constraints
  match_constraints_lem [] [] = inl (refl, tt)
  match_constraints_lem [] (t ∷ tags) = first_violated-Checked (t ∷ tags) []
  match_constraints_lem (c ∷ cs) [] = first_violated-Checked [] (c ∷ cs)
  match_constraints_lem (c ∷ cs) (t ∷ tags) = first_violated-Checked (t ∷ tags) (c ∷ cs)
