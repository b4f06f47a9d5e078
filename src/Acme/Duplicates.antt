-- ===== src/Acme/Duplicates.antt =====
-- acme/account.go: what removeDuplicates leaves.
use traefik.Prelude.{
  ℕ, zero, suc, ◌≤◌, false, Option, List, [], ◌∷◌, Str, length, All, ◌≡◌, refl, ◌∙◌, arith,
  Bool-cases, inl, inr,
}
use traefik.Acme.Equality.{domain_eq_iff}
use traefik.Acme.{
  Domain, TlsCertificate, DomainsCertificate, domain_eq, exists, drop_equal, drop_duplicates,
  remove_duplicates,
}

-- No certificate behind another is for the same domains.
abbrev pub AreUnique : List DomainsCertificate → Type 0
AreUnique [] = Unit
AreUnique (c ∷ cs) =
    All (λ (d : DomainsCertificate). domain_eq c.domains d.domains ≡ false) cs × AreUnique cs

length-drop_equal :
    (d : Domain) (cs : List DomainsCertificate) → length (drop_equal d cs) ≤ length cs
unfolding drop_equal
length-drop_equal d [] = omega arith
length-drop_equal d (c ∷ cs) = ground (arith, length-drop_equal d cs)

All-drop_equal :
    (P : DomainsCertificate → Type 0) (d : Domain) (cs : List DomainsCertificate)
    → All P cs
    → All P (drop_equal d cs)
unfolding drop_equal
All-drop_equal P d [] p = tt
All-drop_equal P d (c ∷ cs) (p, ps) = elim (Bool-cases (domain_eq d c.domains)) [
  | inl y ↦ rw y (All-drop_equal P d cs ps)
  | inr n ↦ rw n (p, All-drop_equal P d cs ps)
]

drop_equal-apart :
    (d : Domain) (cs : List DomainsCertificate)
    → All (λ (c : DomainsCertificate). domain_eq d c.domains ≡ false) (drop_equal d cs)
unfolding drop_equal
drop_equal-apart d [] = tt
drop_equal-apart d (c ∷ cs) = elim (Bool-cases (domain_eq d c.domains)) [
  | inl y ↦ rw y (drop_equal-apart d cs)
  | inr n ↦ rw n (n, drop_equal-apart d cs)
]

All-drop_duplicates :
    (P : DomainsCertificate → Type 0) (n : ℕ) (cs : List DomainsCertificate)
    → All P cs
    → All P (drop_duplicates n cs)
unfolding drop_duplicates
All-drop_duplicates P zero cs p = p
All-drop_duplicates P (suc n) [] p = tt
All-drop_duplicates P (suc n) (c ∷ cs) (p, ps) =
    (p, All-drop_duplicates P n (drop_equal c.domains cs) (All-drop_equal P c.domains cs ps))

drop_duplicates-AreUnique :
    (n : ℕ) (cs : List DomainsCertificate) → length cs ≤ n → AreUnique (drop_duplicates n cs)
unfolding drop_duplicates
drop_duplicates-AreUnique zero [] l = tt
drop_duplicates-AreUnique zero (_ ∷ _) l = absurd (omega (arith, l))
drop_duplicates-AreUnique (suc n) [] l = tt
drop_duplicates-AreUnique (suc n) (c ∷ cs) l = (
  All-drop_duplicates _ n (drop_equal c.domains cs) (drop_equal-apart c.domains cs),
  drop_duplicates-AreUnique n (drop_equal c.domains cs)
      (omega (arith, l, length-drop_equal c.domains cs)),
)

exists-drop_equal :
    (domain d : Domain) (cs : List DomainsCertificate)
    → domain_eq domain d ≡ false
    → exists domain (drop_equal d cs) ≡ exists domain cs
unfolding exists drop_equal
exists-drop_equal domain d [] n = refl
exists-drop_equal domain d (c ∷ cs) n = ground (
  arith,
  exists-drop_equal domain d cs n,
  domain_eq_iff domain d,
  domain_eq_iff d c.domains,
  domain_eq_iff domain c.domains,
)

exists-drop_duplicates :
    (domain : Domain) (n : ℕ) (cs : List DomainsCertificate)
    → exists domain (drop_duplicates n cs) ≡ exists domain cs
unfolding exists drop_duplicates
exists-drop_duplicates domain zero cs = refl
exists-drop_duplicates domain (suc n) [] = refl
exists-drop_duplicates domain (suc n) (c ∷ cs) = elim (Bool-cases (domain_eq domain c.domains)) [
  | inl y ↦ rw y refl
  | inr m ↦ rw m (
      exists-drop_duplicates domain n (drop_equal c.domains cs)
      ∙ exists-drop_equal domain c.domains cs m)
]

module _ (sort : List DomainsCertificate → List DomainsCertificate)
    (key_pair : Str → Str → Option TlsCertificate) (not_after : Str → Option ℕ) where
  -- Once duplicates are removed, no two certificates are for the same domains, and for any domain the
  -- certificate that is found is the one that came first in the sorted list, if there was one.
  pub remove_duplicates_lem :
      (cs : List DomainsCertificate)
      → AreUnique (remove_duplicates sort key_pair not_after cs)
        × ((domain : Domain)
            → exists domain (remove_duplicates sort key_pair not_after cs)
              ≡ exists domain (sort cs))
  unfolding remove_duplicates
  remove_duplicates_lem cs = (
    drop_duplicates-AreUnique (length (sort cs)) (sort cs) (omega arith),
    λ domain. exists-drop_duplicates domain (length (sort cs)) (sort cs),
  )
