-- ===== src/Prelude/Strings.antt =====
-- Go's strings, as the code points of their text, and the test for equality.
use Prim.Native.Char.{code}
use Prim.Native.Nat.{ℕ}
use Prim.Native.String.{String}
use mathlib.Core.Path.{◌≡◌, refl, ap₂}
use mathlib.Core.Logic.{◌↔◌}
use mathlib.Core.Bool.{Bool, true, false, ◌&&◌}
use mathlib.Core.List.{List, [], ◌∷◌}
use traefik.Prelude.Tests.{◌==◌, ==_iff, &&-true}

abbrev pub Str : Type 0
Str = List ℕ

-- The text of a literal.
abbrev pub codes : String → Str
codes String.[] = []
codes (String.◌∷◌ c s) = code c ∷ codes s

unfoldable pub str_eq : Str → Str → Bool
str_eq [] [] = true
str_eq (x ∷ xs) (y ∷ ys) = (x == y) && str_eq xs ys
str_eq _ _ = false

pub str_eq_sound : (s t : Str) → str_eq s t ≡ true → s ≡ t
unfolding str_eq
str_eq_sound [] [] h = refl
str_eq_sound (x ∷ xs) (y ∷ ys) h =
    ap₂ (◌∷◌) ((==_iff x y).0 (&&-true h).0) (str_eq_sound xs ys (&&-true h).1)
str_eq_sound _ _ h = cc

pub str_eq_refl : (s : Str) → str_eq s s ≡ true
unfolding str_eq
str_eq_refl [] = refl
str_eq_refl (x ∷ xs) = rw ((==_iff x x).1 refl) (str_eq_refl xs)

pub str_eq_iff : (s t : Str) → (str_eq s t ≡ true) ↔ (s ≡ t)
str_eq_iff s t = (str_eq_sound s t, λ e. rw e (str_eq_refl t))
