-- ===== src/Text/Cut.antt =====
-- Prefixes, and the first occurrence of a separator.
use traefik.Prelude.{
  ◌==◌, ==_iff, ◌≡◌, refl, sym, ap, ap₂, ◌∙◌, [], ◌∷◌, ◌++◌, Str, arith, Bool-cases, Option-cases,
  inl, inr, none, some,
}
use traefik.Text.{after_prefix, trim_prefix, cut}

pub after_prefix-append : (p s : Str) → after_prefix p (p ++ s) ≡ some s
unfolding after_prefix
after_prefix-append [] s = refl
after_prefix-append (c ∷ p) s = rw ((==_iff c c).1 refl) (after_prefix-append p s)

pub after_prefix_sound : (p s : Str) {r : Str} → after_prefix p s ≡ some r → s ≡ p ++ r
unfolding after_prefix
after_prefix_sound [] s h = cc
after_prefix_sound (c ∷ p) [] h = cc
after_prefix_sound (c ∷ p) (d ∷ s) {r} h = elim (Bool-cases (c == d)) [
  | inl y ↦ ap₂ (◌∷◌) (sym ((==_iff c d).0 y)) (after_prefix_sound p s (rw y at h))
  | inr n ↦ absurd (ground arith)
]

-- Trimming a prefix makes the text shorter exactly when a prefix that is not empty was there.
pub trim_prefix-append : (p s : Str) → trim_prefix (p ++ s) p ≡ s
unfolding trim_prefix
trim_prefix-append p s = rw (after_prefix-append p s, trim_prefix)

pub trim_prefix_missing : (p s : Str) → after_prefix p s ≡ none → trim_prefix s p ≡ s
unfolding trim_prefix
trim_prefix_missing p s h = rw (h, trim_prefix)

-- The separator begins at no place of `a` in the text `a`, separator, `b`.
abbrev pub NotWithin : Str → Str → Str → Type 0
NotWithin sep [] b = Unit
NotWithin sep (c ∷ a) b = (after_prefix sep (c ∷ (a ++ (sep ++ b))) ≡ none) × NotWithin sep a b

-- What a cut finds is the text, taken apart at the separator.
pub cut_sound : (sep s : Str) {a b : Str} → cut sep s ≡ some (a, b) → s ≡ a ++ (sep ++ b)
unfolding cut
cut_sound sep [] {a} {b} h = elim (Option-cases (after_prefix sep [])) [
  | inl n ↦ absurd (ground arith)
  | inr (r, y) ↦ after_prefix_sound sep [] y ∙ ground arith
]
cut_sound sep (c ∷ s) {a} {b} h = elim (Option-cases (after_prefix sep (c ∷ s))) [
  | inl n ↦ elim (Option-cases (cut sep s)) [
    | inl m ↦ absurd (ground arith)
    | inr ((a', b'), y) ↦ ap (λ r. c ∷ r) (cut_sound sep s y) ∙ ground arith
  ]
  | inr (r, y) ↦ after_prefix_sound sep (c ∷ s) y ∙ ground arith
]

-- Where the separator stands is found, if it occurs nowhere before.
pub cut-append : (sep a b : Str) → NotWithin sep a b → cut sep (a ++ (sep ++ b)) ≡ some (a, b)
unfolding cut
cut-append sep [] b h = here (sep ++ b) (after_prefix-append sep b)
  where
    here : (s : Str) → after_prefix sep s ≡ some b → cut sep s ≡ some ([], b)
    here [] e = rw e
    here (c ∷ s) e = rw (e, cut)
cut-append sep (c ∷ a) b (n, h) = rw (n, cut) (rw (cut-append sep a b h))
