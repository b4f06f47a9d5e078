-- ===== src/Rules/Route/Sizes.antt =====
-- Sorting prefixes by size, and matching hosts.
use mathlib.Core.List.{Perm}
use mathlib.Core.List.Perm
use traefik.Prelude.{
  ℕ, ◌≤◌, List, [], ◌∷◌, ◌++◌, Str, leb, if◌then◌else◌, ◌≡◌, arith, All, Bool-cases, inl, inr,
}
use traefik.Text.{byte_length}
use traefik.Net.Port.{IsPlain, split_host_port_plain, split_host_port-append}
use traefik.Rules.Route.{IsBySize, host_matches}

-- A sort that keeps the conditions on sort.Sort.
insert_by_size : Str → List Str → List Str
insert_by_size a [] = a ∷ []
insert_by_size a (b ∷ bs) =
    let rest = insert_by_size a bs in
    if leb (byte_length b) (byte_length a) then a ∷ b ∷ bs else b ∷ rest

unfoldable pub sort_texts : List Str → List Str
unfolding insert_by_size
sort_texts [] = []
sort_texts (a ∷ texts) = insert_by_size a (sort_texts texts)

insert_by_size-perm : (a : Str) (bs : List Str) → Perm (insert_by_size a bs) (a ∷ bs)
unfolding insert_by_size
insert_by_size-perm a [] = Perm.refl _
insert_by_size-perm a (b ∷ bs) = elim (Bool-cases (leb (byte_length b) (byte_length a))) [
  | inl y ↦ rw y (Perm.refl _)
  | inr n ↦ rw n (Perm.trans (Perm.cons b (insert_by_size-perm a bs)) (Perm.swap a b bs))
]

pub sort_texts-perm : (l : List Str) → Perm (sort_texts l) l
unfolding sort_texts
sort_texts-perm [] = Perm.refl _
sort_texts-perm (a ∷ l) =
    Perm.trans (insert_by_size-perm a (sort_texts l)) (Perm.cons a (sort_texts-perm l))

All-weaken :
    (m n : ℕ) (bs : List Str)
    → m ≤ n
    → All (λ b. byte_length b ≤ m) bs
    → All (λ b. byte_length b ≤ n) bs
All-weaken m n [] h k = tt
All-weaken m n (b ∷ bs) h (p, k) = (omega arith, All-weaken m n bs h k)

insert_by_size-All :
    (n : ℕ) (a : Str) (bs : List Str)
    → byte_length a ≤ n
    → All (λ b. byte_length b ≤ n) bs
    → All (λ b. byte_length b ≤ n) (insert_by_size a bs)
unfolding insert_by_size
insert_by_size-All n a [] h k = (h, tt)
insert_by_size-All n a (b ∷ bs) h (p, k) = elim (Bool-cases (leb (byte_length b) (byte_length a))) [
  | inl y ↦ rw y (h, (p, k))
  | inr m ↦ rw m (p, insert_by_size-All n a bs h k)
]

insert_by_size-IsBySize : (a : Str) (bs : List Str) → IsBySize bs → IsBySize (insert_by_size a bs)
unfolding insert_by_size
insert_by_size-IsBySize a [] h = (tt, tt)
insert_by_size-IsBySize a (b ∷ bs) (h, k) =
    elim (Bool-cases (leb (byte_length b) (byte_length a))) [
      | inl y ↦
          let le : byte_length b ≤ byte_length a = ground arith in
          rw y ((le, All-weaken (byte_length b) (byte_length a) bs le h), (h, k))
      | inr n ↦
          let le : byte_length a ≤ byte_length b = ground arith in
          rw n (insert_by_size-All (byte_length b) a bs le h, insert_by_size-IsBySize a bs k)
    ]

pub sort_texts-IsBySize : (l : List Str) → IsBySize (sort_texts l)
unfolding sort_texts
sort_texts-IsBySize [] = tt
sort_texts-IsBySize (a ∷ l) = insert_by_size-IsBySize a (sort_texts l) (sort_texts-IsBySize l)

-- The port of a request's host has no say in whether it matches.
pub host_matches-port :
    (hosts : List Str) (host port : Str)
    → IsPlain host
    → IsPlain port
    → host_matches hosts (host ++ b':' ∷ port) ≡ host_matches hosts host
unfolding host_matches
host_matches-port hosts host port h k =
    rw (split_host_port-append host port h k, split_host_port_plain host h)
