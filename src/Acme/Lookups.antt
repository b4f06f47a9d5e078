-- ===== src/Acme/Lookups.antt =====
-- acme/account.go: what is found once a certificate was added or renewed.
use traefik.Prelude.{
  ℕ, Option, none, some, List, [], ◌∷◌, ◌++◌, Str, str_eq, any, if◌then◌else◌, ◌≡◌, ◌≢◌, ◌⊎◌, All,
  sym, ap, refl, arith, Bool-cases, inl, inr,
}
use traefik.Acme.Equality.{domain_eq_iff}
use traefik.Acme.{
  Domain, Certificate, TlsCertificate, DomainsCertificate, not_found, domain_eq, names_of,
  get_certificate_for_domain, renew_certificates, add_certificate_for_domains,
}

pub get-append :
    (name : Str) (cs : List DomainsCertificate) (c : DomainsCertificate)
    → get_certificate_for_domain name (cs ++ c ∷ []) ≡ elim (get_certificate_for_domain name cs) [
      | some old ↦ some old
      | none ↦ if any (λ n. str_eq n name) (names_of c.domains) then some c else none
    ]
unfolding get_certificate_for_domain
get-append name [] c = refl
get-append name (d ∷ cs) c = elim (Bool-cases (any (λ n. str_eq n name) (names_of d.domains))) [
  | inl y ↦ rw y refl
  | inr n ↦ rw n (get-append name cs c)
]

module _ (sort : List DomainsCertificate → List DomainsCertificate)
    (key_pair : Str → Str → Option TlsCertificate) (not_after : Str → Option ℕ) where
  -- A certificate that is added, with a key that fits it, is found for each name of its domain that
  -- no earlier certificate has; all that was found before is found as before.
  pub add_certificate_for_domains_lem :
      (cert : Certificate) (domain : Domain) (cs : List DomainsCertificate) (tls : TlsCertificate)
      (name : Str)
      → key_pair cert.certificate cert.private_key ≡ some tls
      → let added : DomainsCertificate = record {
        domains = domain;
        certificate = cert;
        tls_cert = some tls;
      } in
        get_certificate_for_domain name
          (add_certificate_for_domains sort key_pair not_after cert domain cs).0
        ≡ elim (get_certificate_for_domain name cs) [
          | some old ↦ some old
          | none ↦ if any (λ n. str_eq n name) (names_of domain) then some added else none
        ]
  unfolding add_certificate_for_domains
  add_certificate_for_domains_lem cert domain cs tls name e =
      rw (e, add_certificate_for_domains)
        (get-append name cs (record { domains = domain; certificate = cert; tls_cert = some tls }))

  abbrev pub renewed : Certificate → TlsCertificate → DomainsCertificate → DomainsCertificate
  renewed cert tls c = record c { certificate = cert; tls_cert = some tls }

  -- Where the key fits the renewed certificate: if no certificate has exactly that domain, the
  -- renewal fails and changes nothing; otherwise it replaces the first certificate of that domain,
  -- which keeps its domain, and leaves all before and after it as they are.
  pub renew_certificates_lem :
      (cert : Certificate) (domain : Domain) (cs : List DomainsCertificate) (tls : TlsCertificate)
      → key_pair cert.certificate cert.private_key ≡ some tls
      → let result = renew_certificates sort key_pair not_after cert domain cs in
        (All (λ c. c.domains ≢ domain) cs × (result ≡ (cs, some (not_found domain.main))))
        ⊎ ((before after : List DomainsCertificate) × (c : DomainsCertificate) × (cs
              ≡ before ++ c ∷ after)
            × All (λ d. d.domains ≢ domain) before
            × (c.domains ≡ domain)
            × (result ≡ (before ++ renewed cert tls c ∷ after, none)))
  unfolding renew_certificates
  renew_certificates_lem cert domain [] tls e = inl (tt, refl)
  renew_certificates_lem cert domain (c ∷ cs) tls e =
      let (to, from) = domain_eq_iff domain c.domains in
      elim (Bool-cases (domain_eq domain c.domains)) [
        | inl y ↦ inr ([], cs, c, refl, tt, sym (to y), rw (y, e) refl)
        | inr n ↦
            let other : c.domains ≢ domain = λ q. absurd (ground (arith, from (sym q))) in
            elim (renew_certificates_lem cert domain cs tls e) [
              | inl (none_has, r) ↦ inl ((other, none_has), rw (n, r) refl)
              | inr (before, after, d, split, none_has, has, r) ↦ inr (
                c ∷ before,
                after,
                d,
                ap (λ l. c ∷ l) split,
                (other, none_has),
                has,
                rw (n, r) refl,
              )
            ]
      ]
