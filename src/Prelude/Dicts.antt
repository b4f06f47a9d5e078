-- ===== src/Prelude/Dicts.antt =====
-- Go's maps, as association lists in the order in which a loop over the map visits them. A missing
-- key reads as `none`.
use mathlib.Core.Path.{◌≡◌, refl}
use mathlib.Core.List.{List, [], ◌∷◌}
use mathlib.Core.Bool.{Bool, ◌||◌}
use mathlib.Core.Option
use mathlib.Core.Option.{Option, none, some}
use native.Mathlib.Omega.{arith}
use mathlib.Core.Logic.{◌⊎◌, inl, inr}
use traefik.Prelude.Tests.{if◌then◌else◌, Bool-cases, Option-cases, is_some}
use traefik.Prelude.Strings.{Str, str_eq, str_eq_iff}

abbrev pub Dict {ℓ} : Type ℓ → Type ℓ
Dict V = List (Str × V)

module _ {ℓ} {V : Type ℓ} where
  -- `v, ok := m[k]`
  unfoldable pub lookup : Str → Dict V → Option V
  lookup k [] = none
  lookup k ((j, v) ∷ m) = if str_eq j k then some v else lookup k m

  -- `m[k] = v`
  unfoldable pub insert : Str → V → Dict V → Dict V
  insert k v [] = (k, v) ∷ []
  insert k v ((j, w) ∷ m) = if str_eq j k then (j, v) ∷ m else (j, w) ∷ insert k v m

  -- `delete(m, k)`
  unfoldable pub delete : Str → Dict V → Dict V
  delete k [] = []
  delete k ((j, w) ∷ m) = let rest = delete k m in if str_eq j k then rest else (j, w) ∷ rest

  pub lookup-insert :
      (k j : Str) (v : V) (m : Dict V)
      → lookup j (insert k v m) ≡ (if str_eq k j then some v else lookup j m)
  unfolding lookup insert
  lookup-insert k j v [] = refl
  lookup-insert k j v ((i, w) ∷ m) =
      ground (arith, str_eq_iff k j, str_eq_iff i k, str_eq_iff i j, lookup-insert k j v m)

  pub lookup-delete :
      (k j : Str) (m : Dict V) → lookup j (delete k m) ≡ (if str_eq k j then none else lookup j m)
  unfolding lookup delete
  lookup-delete k j [] = ground arith
  lookup-delete k j ((i, w) ∷ m) =
      ground (arith, str_eq_iff k j, str_eq_iff i k, str_eq_iff i j, lookup-delete k j m)

  -- What is found in a map with one more key is the new value, or was there before.
  pub found-insert :
      (j k : Str) (v w : V) (m : Dict V)
      → lookup k (insert j v m) ≡ some w
      → ((j ≡ k) × (v ≡ w)) ⊎ (lookup k m ≡ some w)
  found-insert j k v w m e = elim (Bool-cases (str_eq j k)) [
    | inl y ↦ inl ((str_eq_iff j k).0 y, ground (arith, lookup-insert j k v m))
    | inr n ↦ inr (ground (arith, lookup-insert j k v m))
  ]

  -- `m[k].f()`: the value under a key is changed in place, where there is one.
  unfoldable pub update : Str → (V → V) → Dict V → Dict V
  update k f [] = []
  update k f ((j, a) ∷ m) =
      let rest = update k f m in (if str_eq j k then (j, f a) else (j, a)) ∷ rest

  pub lookup-update :
      (j k : Str) (f : V → V) (m : Dict V)
      → lookup k (update j f m) ≡ (if str_eq j k then Option.map f (lookup k m) else lookup k m)
  unfolding lookup update
  lookup-update j k f [] = ground arith
  lookup-update j k f ((i, a) ∷ m) =
      ground (arith, str_eq_iff i j, str_eq_iff i k, str_eq_iff j k, lookup-update j k f m)

  -- What is found in a map whose value at `j` was changed.
  pub found-update :
      (j k : Str) (f : V → V) (w : V) (m : Dict V)
      → lookup k (update j f m) ≡ some w
      → ((j ≡ k) × ((v : V) × (lookup k m ≡ some v) × (f v ≡ w))) ⊎ (lookup k m ≡ some w)
  found-update j k f w m e = elim (Bool-cases (str_eq j k)) [
    | inl y ↦ elim (Option-cases (lookup k m)) [
      | inl n ↦ absurd (ground (arith, lookup-update j k f m))
      | inr (v, q) ↦ inl ((str_eq_iff j k).0 y, (v, q, ground (arith, lookup-update j k f m)))
    ]
    | inr n ↦ inr (ground (arith, lookup-update j k f m))
  ]

  pub found-delete :
      (j k : Str) (w : V) (m : Dict V) → lookup k (delete j m) ≡ some w → lookup k m ≡ some w
  found-delete j k w m e = ground (arith, lookup-delete j k m)

  -- Whether a key is in a map.
  abbrev pub has_key : Str → Dict V → Bool
  has_key k m = is_some (lookup k m)

  pub has_key-insert :
      (j k : Str) (v : V) (m : Dict V) → has_key k (insert j v m) ≡ (str_eq j k || has_key k m)
  has_key-insert j k v m = ground (arith, lookup-insert j k v m)

  pub has_key-update : (j k : Str) (f : V → V) (m : Dict V) → has_key k (update j f m) ≡ has_key k m
  has_key-update j k f m = ground (arith, lookup-update j k f m)
