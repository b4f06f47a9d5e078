-- ===== src/Provider/Marathon/Filtering.antt =====
-- The filters of provider/marathon/marathon.go, whose tests may panic.
use mathlib.Core.List.{Memᴰ}
use traefik.Prelude.{
  Bool, true, false, Option, none, some, List, [], ◌∷◌, any, if◌then◌else◌, ◌≡◌, refl, sym, ◌∙◌,
  subst, ap, All, Option-cases, inl, inr, arith,
}
use traefik.Provider.Marathon.Tasks.{filter_all}

module _ {ℓ} {A : Type ℓ} where
  pub any-mem : (p : A → Bool) (x : A) (xs : List A) → Memᴰ x xs → p x ≡ true → any p xs ≡ true
  any-mem p x [] m h = elim m [ ]
  any-mem p x (y ∷ xs) (Memᴰ.head e) h = rw (sym (ap p e) ∙ h) refl
  any-mem p x (y ∷ xs) (Memᴰ.tail m) h = ground (arith, any-mem p x xs m h)

  pub All-mem : (P : A → Type 0) (x : A) (xs : List A) → Memᴰ x xs → All P xs → P x
  All-mem P x [] m h = elim m [ ]
  All-mem P x (y ∷ xs) (Memᴰ.head e) (h, hs) = subst P (sym e) h
  All-mem P x (y ∷ xs) (Memᴰ.tail m) (h, hs) = All-mem P x xs m hs

module _ {ℓ} {A : Type ℓ} (test : A → Option Bool) where
  -- A filter that does not panic at a list did not panic at its head, nor at the rest.
  filter_all-cons :
      (x : A) (xs ys : List A)
      → filter_all test (x ∷ xs) ≡ some ys
      → (passes : Bool) × (rest : List A) × (test x ≡ some passes)
        × (filter_all test xs ≡ some rest)
        × ((if passes then x ∷ rest else rest) ≡ ys)
  unfolding filter_all
  filter_all-cons x xs ys e = elim (Option-cases (test x)) [
    | inl q ↦ let panics : filter_all test (x ∷ xs) ≡ none = rw (filter_all, q) refl in cc
    | inr (passes, q) ↦ elim (Option-cases (filter_all test xs)) [
      | inl r ↦ let panics : filter_all test (x ∷ xs) ≡ none = rw (filter_all, q, r) refl in cc
      | inr (rest, r) ↦
          let here : filter_all test (x ∷ xs) ≡ some (if passes then x ∷ rest else rest) =
            rw (filter_all, q, r) refl in
          (passes, rest, q, r, cc)
    ]
  ]

  pub filter_all-All :
      {P : A → Type 0}
      → ((x : A) → test x ≡ some true → P x)
      → (xs ys : List A) → filter_all test xs ≡ some ys
      → All P ys
  unfolding filter_all
  filter_all-All {P} h [] ys e = let nobody : [] ≡ ys = cc in subst (All P) nobody tt
  filter_all-All {P} h (x ∷ xs) ys e =
      let (passes, rest, q, r, same) = filter_all-cons x xs ys e in
      subst (All P) same (with_first passes q rest (filter_all-All h xs rest r))
    where
      with_first :
          (passes : Bool)
          → test x ≡ some passes
          → (rest : List A) → All P rest
          → All P (if passes then x ∷ rest else rest)
      with_first true q rest k = (h x q, k)
      with_first false q rest k = k

  pub filter_all-mem :
      (x : A) (xs ys : List A)
      → Memᴰ x xs
      → test x ≡ some true
      → filter_all test xs ≡ some ys
      → Memᴰ x ys
  filter_all-mem x [] ys m h e = elim m [ ]
  filter_all-mem x (y ∷ xs) ys m h e =
      let (passes, rest, q, r, same) = filter_all-cons y xs ys e in
      let later : Memᴰ x xs → Memᴰ x rest = λ k. filter_all-mem x xs rest k h r in
      subst (Memᴰ x) same (among passes rest q m later)
    where
      among :
          (passes : Bool) (rest : List A)
          → test y ≡ some passes
          → Memᴰ x (y ∷ xs)
          → (Memᴰ x xs → Memᴰ x rest)
          → Memᴰ x (if passes then y ∷ rest else rest)
      among true rest q (Memᴰ.head k) later = Memᴰ.head k
      among true rest q (Memᴰ.tail k) later = Memᴰ.tail (later k)
      among false rest q (Memᴰ.head k) later =
          let passed : test y ≡ some true = sym (ap test k) ∙ h in cc
      among false rest q (Memᴰ.tail k) later = later k
