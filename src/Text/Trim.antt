-- ===== src/Text/Trim.antt =====
-- Trimming white space and folding case.
use traefik.Prelude.{
  ℕ, false, ◌≡◌, refl, ap, ap₂, ◌∙◌, [], ◌∷◌, map, Str, arith, Bool-cases, inl, inr,
}
use traefik.Text.{is_space, trim_left, trim_right, trim_space, keep_before, lower, to_lower}

-- A text that neither begins nor ends with white space.
abbrev pub IsTrimmed : Str → Type 0
IsTrimmed s = trim_space s ≡ s

keep_before_space : (c : ℕ) (s : Str) → is_space c ≡ false → keep_before c s ≡ c ∷ s
keep_before_space c [] h = rw h
keep_before_space c (d ∷ s) h = refl

trim_right-trim_right : (s : Str) → trim_right (trim_right s) ≡ trim_right s
unfolding trim_right
trim_right-trim_right [] = refl
trim_right-trim_right (c ∷ s) = go (trim_right s) (trim_right-trim_right s)
  where
    go : (t : Str) → trim_right t ≡ t → trim_right (keep_before c t) ≡ keep_before c t
    go [] h = elim (Bool-cases (is_space c)) [ inl y ↦ rw y refl | inr n ↦ rw n (rw n refl) ]
    go (d ∷ t) h = ap (keep_before c) h

-- The text begins with no white space.
abbrev StartsPlain : Str → Type 0
StartsPlain [] = Unit
StartsPlain (c ∷ s) = is_space c ≡ false

trim_left-StartsPlain : (s : Str) → StartsPlain (trim_left s)
unfolding trim_left
trim_left-StartsPlain [] = tt
trim_left-StartsPlain (c ∷ s) = elim (Bool-cases (is_space c)) [
  | inl y ↦ rw y (trim_left-StartsPlain s)
  | inr n ↦ rw n n
]

trim_right-StartsPlain : (s : Str) → StartsPlain s → StartsPlain (trim_right s)
unfolding trim_right
trim_right-StartsPlain [] h = tt
trim_right-StartsPlain (c ∷ s) h = rw (keep_before_space c (trim_right s) h) h

trim_left_of_StartsPlain : (s : Str) → StartsPlain s → trim_left s ≡ s
unfolding trim_left
trim_left_of_StartsPlain [] h = refl
trim_left_of_StartsPlain (c ∷ s) h = rw h

pub trim_space_idem : (s : Str) → IsTrimmed (trim_space s)
unfolding trim_space
trim_space_idem s =
    ap trim_right (
      trim_left_of_StartsPlain (trim_right (trim_left s))
        (trim_right-StartsPlain (trim_left s) (trim_left-StartsPlain s)))
    ∙ trim_right-trim_right (trim_left s)

lower_idem : (c : ℕ) → lower (lower c) ≡ lower c
lower_idem c = ground arith

lower-is_space : (c : ℕ) → is_space (lower c) ≡ is_space c
lower-is_space c = ground arith

pub to_lower_idem : (s : Str) → to_lower (to_lower s) ≡ to_lower s
unfolding to_lower
to_lower_idem [] = refl
to_lower_idem (c ∷ s) = ap₂ (◌∷◌) (lower_idem c) (to_lower_idem s)

keep_before-lower :
    (c : ℕ) (s : Str) → keep_before (lower c) (map lower s) ≡ map lower (keep_before c s)
keep_before-lower c [] = elim (Bool-cases (is_space c)) [
  | inl y ↦ rw (lower-is_space c, y) refl
  | inr n ↦ rw (lower-is_space c, n) refl
]
keep_before-lower c (d ∷ s) = refl

trim_right-lower : (s : Str) → trim_right (map lower s) ≡ map lower (trim_right s)
unfolding trim_right
trim_right-lower [] = refl
trim_right-lower (c ∷ s) =
    ap (keep_before (lower c)) (trim_right-lower s) ∙ keep_before-lower c (trim_right s)

trim_left-lower : (s : Str) → trim_left (map lower s) ≡ map lower (trim_left s)
unfolding trim_left
trim_left-lower [] = refl
trim_left-lower (c ∷ s) = elim (Bool-cases (is_space c)) [
  | inl y ↦ rw (lower-is_space c, y) (trim_left-lower s)
  | inr n ↦ rw (lower-is_space c, n) refl
]

-- Trimming and folding commute.
pub trim_space-to_lower : (s : Str) → trim_space (to_lower s) ≡ to_lower (trim_space s)
unfolding trim_space to_lower
trim_space-to_lower s = ap trim_right (trim_left-lower s) ∙ trim_right-lower (trim_left s)
