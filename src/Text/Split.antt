-- ===== src/Text/Split.antt =====
-- Splitting and joining: each undoes the other, and what a split leaves in its parts.
use traefik.Prelude.{
  ℕ, ◌==◌, ==_iff, Bool, true, false, not, ◌≡◌, refl, sym, ap, ap₂, ◌∙◌, ◌≢◌, List, [], ◌∷◌, ◌++◌,
  Str, All, is_empty, keep, Bool-cases, inl, inr, append-nil,
}
use traefik.Text.{is, split_by, split, fields_func, join, attach}

-- No character of the text passes the test.
abbrev pub Lacks : (ℕ → Bool) → Str → Type 0
Lacks p = All (λ c. p c ≡ false)

-- A text is put in front of the first part.
abbrev prepend : Str → List Str → List Str
prepend w [] = w ∷ []
prepend w (v ∷ vs) = (w ++ v) ∷ vs

split_by-ne-nil : (p : ℕ → Bool) (s : Str) → split_by p s ≢ []
unfolding split_by
split_by-ne-nil p [] h = cc
split_by-ne-nil p (c ∷ s) h = elim (Bool-cases (p c)) [
  | inl y ↦ cc (h, y)
  | inr n ↦ attach-ne-nil c (split_by p s) (rw n at h)
]
  where
    attach-ne-nil : (c : ℕ) (ws : List Str) → attach c ws ≢ []
    attach-ne-nil c [] h = cc
    attach-ne-nil c (w ∷ ws) h = cc

split_by-append :
    (p : ℕ → Bool) (w s : Str) → Lacks p w → split_by p (w ++ s) ≡ prepend w (split_by p s)
unfolding split_by
split_by-append p [] s h = go (split_by p s) (split_by-ne-nil p s)
  where
    go : (ws : List Str) → ws ≢ [] → ws ≡ prepend [] ws
    go [] h = absurd (h refl)
    go (v ∷ vs) h = refl
split_by-append p (c ∷ w) s (n, h) = rw (n, split_by-append p w s h) (attach-prepend (split_by p s))
  where
    attach-prepend : (ws : List Str) → attach c (prepend w ws) ≡ prepend (c ∷ w) ws
    attach-prepend [] = refl
    attach-prepend (v ∷ vs) = refl

pub split_by_of_Lacks : (p : ℕ → Bool) (w : Str) → Lacks p w → split_by p w ≡ w ∷ []
split_by_of_Lacks p w h =
    rw (ap (split_by p) (sym (append-nil w)))
      (split_by-append p w [] h ∙ unfold split_by in ap (λ v. v ∷ []) (append-nil w))

pub split_by_at :
    (p : ℕ → Bool) (w : Str) (c : ℕ) (s : Str)
    → Lacks p w
    → p c ≡ true
    → split_by p (w ++ c ∷ s) ≡ w ∷ split_by p s
split_by_at p w c s h y =
    split_by-append p w (c ∷ s) h
    ∙ unfold split_by in rw y (ap (λ v. v ∷ split_by p s) (append-nil w))

-- Splitting what was joined at a separator gives the parts back.
pub split_by-join :
    (p : ℕ → Bool) (c : ℕ) (w : Str) (ws : List Str)
    → p c ≡ true
    → All (Lacks p) (w ∷ ws)
    → split_by p (join (c ∷ []) (w ∷ ws)) ≡ w ∷ ws
unfolding join
split_by-join p c w [] y (h, _) = split_by_of_Lacks p w h
split_by-join p c w (v ∷ ws) y (h, hs) =
    split_by_at p w c (join (c ∷ []) (v ∷ ws)) h y ∙ ap (λ r. w ∷ r) (split_by-join p c v ws y hs)

pub split-join :
    (c : ℕ) (w : Str) (ws : List Str)
    → All (Lacks (is c)) (w ∷ ws)
    → split_by (is c) (join (c ∷ []) (w ∷ ws)) ≡ w ∷ ws
split-join c w ws h = split_by-join (is c) c w ws ((==_iff c c).1 refl) h

abbrev pub NonEmpty : Str → Type 0
NonEmpty w = is_empty w ≡ false

-- No field is dropped if none is empty.
pub keep_of_NonEmpty : (ws : List Str) → All NonEmpty ws → keep (λ w. not (is_empty w)) ws ≡ ws
keep_of_NonEmpty [] h = refl
keep_of_NonEmpty (w ∷ ws) (n, h) = rw n (ap (λ r. w ∷ r) (keep_of_NonEmpty ws h))

-- So does taking the fields, if none is empty.
pub fields_func-join_by :
    (p : ℕ → Bool) (c : ℕ) (ws : List Str)
    → p c ≡ true
    → All (Lacks p) ws
    → All NonEmpty ws
    → fields_func p (join (c ∷ []) ws) ≡ ws
unfolding fields_func split_by
fields_func-join_by p c [] y h n = unfold join in refl
fields_func-join_by p c (w ∷ ws) y h n =
    rw (split_by-join p c w ws y h) (keep_of_NonEmpty (w ∷ ws) n)

pub fields_func-join :
    (c : ℕ) (ws : List Str)
    → All (Lacks (is c)) ws
    → All NonEmpty ws
    → fields_func (is c) (join (c ∷ []) ws) ≡ ws
fields_func-join c ws h n = fields_func-join_by (is c) c ws ((==_iff c c).1 refl) h n

attach-join :
    (sep : Str) (c : ℕ) (ws : List Str) → ws ≢ [] → join sep (attach c ws) ≡ c ∷ join sep ws
unfolding join
attach-join sep c [] h = absurd (h refl)
attach-join sep c (w ∷ []) h = refl
attach-join sep c (w ∷ v ∷ ws) h = refl

join_cons : (sep : Str) (ws : List Str) → ws ≢ [] → join sep ([] ∷ ws) ≡ sep ++ join sep ws
unfolding join
join_cons sep [] h = absurd (h refl)
join_cons sep (w ∷ ws) h = refl

-- Joining what was split gives the text back.
pub join-split : (c : ℕ) (s : Str) → join (c ∷ []) (split c s) ≡ s
unfolding split split_by
join-split c [] = unfold join in refl
join-split c (x ∷ s) = elim (Bool-cases (x == c)) [
  | inl y ↦ rw y (
      join_cons (c ∷ []) (split c s) (split_by-ne-nil _ s)
      ∙ ap₂ (◌∷◌) (sym ((==_iff x c).0 y)) (join-split c s))
  | inr n ↦
      rw n (
        attach-join (c ∷ []) x (split c s) (split_by-ne-nil _ s) ∙ ap (λ r. x ∷ r) (join-split c s))
]

-- The parts of a split hold no separator.
split_by-Lacks : (p : ℕ → Bool) (s : Str) → All (Lacks p) (split_by p s)
unfolding split_by
split_by-Lacks p [] = (tt, tt)
split_by-Lacks p (c ∷ s) = elim (Bool-cases (p c)) [
  | inl y ↦ rw y (tt, split_by-Lacks p s)
  | inr n ↦ rw n (attach-Lacks (split_by p s) n (split_by-Lacks p s))
]
  where
    attach-Lacks : (ws : List Str) → p c ≡ false → All (Lacks p) ws → All (Lacks p) (attach c ws)
    attach-Lacks [] n h = ((n, tt), tt)
    attach-Lacks (w ∷ ws) n (h, hs) = ((n, h), hs)

keep-All :
    (P : Str → Type 0) (ws : List Str)
    → All P ws
    → All (λ w. P w × NonEmpty w) (keep (λ w. not (is_empty w)) ws)
keep-All P [] h = tt
keep-All P ([] ∷ ws) (p, h) = keep-All P ws h
keep-All P ((c ∷ w) ∷ ws) (p, h) = ((p, refl), keep-All P ws h)

-- The fields of a text are not empty and hold no separator.
pub fields_func-Lacks :
    (p : ℕ → Bool) (s : Str) → All (λ w. Lacks p w × NonEmpty w) (fields_func p s)
unfolding fields_func
fields_func-Lacks p s = keep-All (Lacks p) (split_by p s) (split_by-Lacks p s)
