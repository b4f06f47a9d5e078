-- ===== src/Prelude/Results.antt =====
-- Calls that follow one another while none returns an error.
use mathlib.Core.Path.{◌≡◌, refl, subst}
use mathlib.Core.Option.{Option, none, some}
use mathlib.Core.List.{List, [], ◌∷◌}
use traefik.Prelude.Int.{Result, ok, err}

-- What a call returns goes to the next one, but an error.
abbrev pub and_next {ℓ κ μ} :
    {E : Type ℓ} {A : Type κ} {B : Type μ} → Result E A → (A → Result E B) → Result E B
and_next (ok a) next = next a
and_next (err e) next = err e

abbrev pub map_err {ℓ κ μ} :
    {E : Type ℓ} {F : Type κ} {A : Type μ} → (E → F) → Result E A → Result F A
map_err f (ok a) = ok a
map_err f (err e) = err (f e)

-- A loop that an error ends.
abbrev pub fold_ok {ℓ κ μ} :
    {E : Type ℓ} {A : Type κ} {S : Type μ} → (A → S → Result E S) → List A → S → Result E S
fold_ok body [] s = ok s
fold_ok body (a ∷ as') s = and_next (body a s) (fold_ok body as')

-- Where a chain of calls returned a value, the first call did.
pub and_next-inv {ℓ κ μ} :
    {E : Type ℓ} {A : Type κ} {B : Type μ} (r : Result E A) (next : A → Result E B) (b : B)
    → and_next r next ≡ ok b
    → (a : A) × (r ≡ ok a) × (next a ≡ ok b)
and_next-inv (ok a) next b h = (a, refl, h)
and_next-inv (err e) next b h = cc

pub map_err-inv {ℓ κ μ} :
    {E : Type ℓ} {F : Type κ} {A : Type μ} (f : E → F) (r : Result E A) (a : A)
    → map_err f r ≡ ok a
    → r ≡ ok a
map_err-inv f (ok a) b h = cc
map_err-inv f (err e) b h = cc

module _ {ℓ μ ν} {E : Type ℓ} {S : Type μ} (P : S → Type ν) where
  -- What holds of the result, where there is one.
  abbrev pub Holding : Result E S → Type ν
  Holding (ok s) = P s
  Holding (err e) = Unit

  pub Holding-ok : (r : Result E S) (s : S) → r ≡ ok s → Holding r → P s
  Holding-ok r s e h = subst Holding e h

  pub and_next-Holding {κ} :
      {B : Type κ} (r : Result E B) (next : B → Result E S)
      → ((b : B) → r ≡ ok b → Holding (next b))
      → Holding (and_next r next)
  and_next-Holding (ok b) next h = h b refl
  and_next-Holding (err e) next h = tt

  pub fold_ok-Holding {κ} :
      {A : Type κ} (body : A → S → Result E S)
      → ((a : A) (s : S) → P s → Holding (body a s))
      → (as' : List A) (s : S) → P s
      → Holding (fold_ok body as' s)
  fold_ok-Holding body keeps [] s p = p
  fold_ok-Holding body keeps (a ∷ as') s p =
      and_next-Holding (body a s) (fold_ok body as')
        (λ t e. fold_ok-Holding body keeps as' t (Holding-ok (body a s) t e (keeps a s p)))

module _ {ℓ κ} {A : Type ℓ} (P : A → Type κ) where
  -- What an option holds, if it holds something, satisfies `P`.
  abbrev pub IfSome : Option A → Type κ
  IfSome none = Unit
  IfSome (some x) = P x
