-- ===== src/Acme/Equality.antt =====
-- acme/account.go: the test for the domains of a certificate is equality.
use traefik.Prelude.{
  true, &&-true, Option, none, some, List, [], ◌∷◌, Str, str_eq_iff, ◌≡◌, ◌↔◌, refl, ap, ap₂,
}
use traefik.Acme.{Domain, texts_eq, sans_eq, domain_eq}

texts_eq_sound : (ss ts : List Str) → texts_eq ss ts ≡ true → ss ≡ ts
texts_eq_sound [] [] h = refl
texts_eq_sound (s ∷ ss) (t ∷ ts) h =
    ap₂ (◌∷◌) ((str_eq_iff s t).0 (&&-true h).0) (texts_eq_sound ss ts (&&-true h).1)
texts_eq_sound [] (_ ∷ _) h = cc
texts_eq_sound (_ ∷ _) [] h = cc

texts_eq_refl : (ss : List Str) → texts_eq ss ss ≡ true
texts_eq_refl [] = refl
texts_eq_refl (s ∷ ss) = rw ((str_eq_iff s s).1 refl) (texts_eq_refl ss)

sans_eq_sound : (s t : Option (List Str)) → sans_eq s t ≡ true → s ≡ t
sans_eq_sound none none h = refl
sans_eq_sound (some s) (some t) h = ap some (texts_eq_sound s t h)
sans_eq_sound none (some _) h = cc
sans_eq_sound (some _) none h = cc

sans_eq_refl : (s : Option (List Str)) → sans_eq s s ≡ true
sans_eq_refl none = refl
sans_eq_refl (some s) = texts_eq_refl s

abbrev domain_of : Str → Option (List Str) → Domain
domain_of m s = record { main = m; sans = s }

domain_eq_sound : (d e : Domain) → domain_eq d e ≡ true → d ≡ e
unfolding domain_eq
domain_eq_sound d e h =
    let m : d.main ≡ e.main = (str_eq_iff d.main e.main).0 (&&-true h).0 in
    let n : d.sans ≡ e.sans = sans_eq_sound d.sans e.sans (&&-true h).1 in ap₂ domain_of m n

domain_eq_refl : (d : Domain) → domain_eq d d ≡ true
unfolding domain_eq
domain_eq_refl d = rw ((str_eq_iff d.main d.main).1 refl) (sans_eq_refl d.sans)

pub domain_eq_iff : (d e : Domain) → (domain_eq d e ≡ true) ↔ (d ≡ e)
domain_eq_iff d e = (domain_eq_sound d e, λ q. rw q (domain_eq_refl e))
