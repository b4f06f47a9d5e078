-- ===== src/Acme/Jobs/Retrieval.antt =====
-- acme/acme.go: the job that retrieves the certificates of the configured domains.
use traefik.Prelude.{
  ℕ, true, false, ◌||◌, Option, some, List, [], ◌∷◌, ◌++◌, map, Str, All, any, is_some, ◌≡◌, refl,
  ap, ◌∙◌, Bool-cases, inl, inr, arith,
}
use traefik.Acme.Equality.{domain_eq_iff}
use traefik.Acme.{
  Domain, Certificate, TlsCertificate, DomainsCertificate, exists, domain_eq, names_of,
}
use traefik.Acme.Jobs.{Outcome, Store, ask, commit, retrieve, retrieve_certificates}
use traefik.Acme.Jobs.Once.{get-unlocked, add_obtained_lem}

exists-append :
    (d : Domain) (cs : List DomainsCertificate) (c : DomainsCertificate)
    → is_some (exists d (cs ++ c ∷ [])) ≡ is_some (exists d cs) || domain_eq d c.domains
unfolding exists
exists-append d [] c = elim (Bool-cases (domain_eq d c.domains)) [
  | inl y ↦ rw y refl
  | inr n ↦ rw n refl
]
exists-append d (e ∷ cs) c = elim (Bool-cases (domain_eq d e.domains)) [
  | inl y ↦ rw y refl
  | inr n ↦ rw n (exists-append d cs c)
]

-- What holds of each domain that equals one of the list holds of all of the list.
covered :
    (ds : List (Domain × Outcome)) (P : Domain → Type 0)
    → ((e : Domain) → any (λ p. domain_eq e p.0) ds ≡ true → P e)
    → All P (map (λ p. p.0) ds)
covered [] P h = tt
covered ((d, o) ∷ ds) P h =
    (h d (rw ((domain_eq_iff d d).1 refl) refl), covered ds P (λ e y. h e (ground (arith, y))))

module _ (sort : List DomainsCertificate → List DomainsCertificate)
    (key_pair : Str → Str → Option TlsCertificate) (not_after : Str → Option ℕ) where
  -- A certificate is obtained whose key fits it, and a transaction is begun and committed.
  abbrev pub Succeeds : Outcome → Type 0
  Succeeds o =
      (cert : Certificate) × (tls : TlsCertificate) × (o.obtained ≡ some cert)
      × (key_pair cert.certificate cert.private_key ≡ some tls)
      × (o.begins ≡ true)
      × (o.commits ≡ true)

  retrieve-known :
      (o : Outcome) (d : Domain) (s : Store)
      → s.locked ≡ false
      → is_some (exists d s.certs) ≡ true
      → retrieve sort key_pair not_after o d s ≡ s
  unfolding retrieve
  retrieve-known o d s l k = rw (retrieve, get-unlocked s l, k) refl

  retrieve-new :
      (o : Outcome) (d : Domain) (s : Store)
      → Succeeds o
      → s.locked ≡ false
      → is_some (exists d s.certs) ≡ false
      → (retrieve sort key_pair not_after o d s).locked ≡ false
        × ((e : Domain)
            → is_some (exists e (retrieve sort key_pair not_after o d s).certs)
              ≡ is_some (exists e s.certs) || domain_eq e d)
  unfolding retrieve commit ask
  retrieve-new o d s (cert, tls, q, k, b, c) l n =
      let asked = ask sort key_pair not_after (names_of d) s in
      rw
        (
          retrieve,
          get-unlocked s l,
          n,
          add_obtained_lem sort key_pair not_after o cert tls d asked q b c k,
        )
        (
          refl,
          λ e.
              exists-append e s.certs
                (record { domains = d; certificate = cert; tls_cert = some tls }),
        )

  -- The domains that have a certificate after a round, with the lock, where it succeeds if it has to.
  retrieve_lem :
      (o : Outcome) (d : Domain) (s : Store)
      → Succeeds o
      → s.locked ≡ false
      → (retrieve sort key_pair not_after o d s).locked ≡ false
        × ((e : Domain)
            → is_some (exists e (retrieve sort key_pair not_after o d s).certs)
              ≡ is_some (exists e s.certs) || domain_eq e d)
  retrieve_lem o d s h l = elim (Bool-cases (is_some (exists d s.certs))) [
    | inr n ↦ retrieve-new o d s h l n
    | inl k ↦ rw (retrieve-known o d s l k) (
      l,
      λ e. elim (Bool-cases (domain_eq e d)) [
        | inr m ↦ rw m (ground arith)
        | inl m ↦
            let same : e ≡ d = (domain_eq_iff e d).0 m in
            let known : is_some (exists e s.certs) ≡ true = rw same k in ground (arith, known)
      ],
    )
  ]

  -- Where a certificate is obtained for each configured domain that has none, with a key that fits
  -- it, and is committed, the job ends with the lock free, and the domains with a certificate are
  -- those that had one and those that are configured.
  pub retrieve_certificates_lem :
      (ds : List (Domain × Outcome)) (s : Store)
      → All (λ p. Succeeds p.1) ds
      → s.locked ≡ false
      → let after = retrieve_certificates sort key_pair not_after ds s in
        (after.locked ≡ false)
        × ((e : Domain)
            → is_some (exists e after.certs)
              ≡ is_some (exists e s.certs) || any (λ p. domain_eq e p.0) ds)
  unfolding retrieve_certificates
  retrieve_certificates_lem [] s h l = (l, λ e. ground arith)
  retrieve_certificates_lem ((d, o) ∷ ds) s (h, hs) l =
      let (free, first) = retrieve_lem o d s h l in
      let (ends, rest) =
        retrieve_certificates_lem ds (retrieve sort key_pair not_after o d s) hs free in
      (ends, λ e. ground (arith, first e, rest e))

  -- A job over domains that all have a certificate asks for nothing and changes nothing, whatever the
  -- client would obtain.
  retrieve_certificates-known :
      (ds : List Domain) (later : Domain → Outcome) (s : Store)
      → s.locked ≡ false
      → All (λ d. is_some (exists d s.certs) ≡ true) ds
      → retrieve_certificates sort key_pair not_after (map (λ d. (d, later d)) ds) s ≡ s
  unfolding retrieve_certificates
  retrieve_certificates-known [] later s l h = refl
  retrieve_certificates-known (d ∷ ds) later s l (k, h) =
      ap (retrieve_certificates sort key_pair not_after (map (λ e. (e, later e)) ds))
        (retrieve-known (later d) d s l k)
      ∙ retrieve_certificates-known ds later s l h

  -- The second job: after a job that obtains and commits a certificate, with a key that fits it, for
  -- each configured domain that has none, another job over those domains asks for nothing and changes
  -- nothing, whatever the client would obtain.
  pub retrieve_certificates-again :
      (ds : List (Domain × Outcome)) (later : Domain → Outcome) (s : Store)
      → All (λ p. Succeeds p.1) ds
      → s.locked ≡ false
      → let after = retrieve_certificates sort key_pair not_after ds s in
        retrieve_certificates sort key_pair not_after
          (map (λ d. (d, later d)) (map (λ p. p.0) ds))
          after
        ≡ after
  retrieve_certificates-again ds later s h l =
      let (free, known) = retrieve_certificates_lem ds s h l in
      let after = retrieve_certificates sort key_pair not_after ds s in
      retrieve_certificates-known (map (λ p. p.0) ds) later after free (
        covered ds (λ e. is_some (exists e after.certs) ≡ true)
          (λ e y. known e ∙ ground (arith, y)))
