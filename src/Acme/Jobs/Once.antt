-- ===== src/Acme/Jobs/Once.antt =====
-- acme/acme.go: when the client is asked for a certificate on demand, and how a job ends.
use traefik.Prelude.{
  ℕ, Bool, true, false, Option, none, some, List, [], ◌∷◌, ◌++◌, map, Str, str_eq_iff, ◌≡◌, refl,
  ap, ◌∙◌, Bool-cases, Option-cases, inl, inr,
}
use traefik.Types.{canonical_domain}
use traefik.Acme.{
  Domain, Certificate, TlsCertificate, DomainsCertificate, exists, get_certificate_for_domain,
  add_certificate_for_domains,
}
use traefik.Acme.Lookups.{get-append}
use traefik.Acme.Jobs.{
  Outcome, Store, waits, answered, get, begin, commit, ask, add_obtained, domain_of,
  load_certificate_for_domains, load_certificate_on_demand, get_certificate,
}

get-locked : (s : Store) → s.locked ≡ true → get s ≡ none
unfolding get
get-locked s l = rw l refl

pub get-unlocked : (s : Store) → s.locked ≡ false → get s ≡ some s.certs
unfolding get
get-unlocked s l = rw l refl

module _ (sort : List DomainsCertificate → List DomainsCertificate)
    (key_pair : Str → Str → Option TlsCertificate) (not_after : Str → Option ℕ) where
  -- A job whose certificate was obtained, with a key that does not fit it, leaves the lock held.
  add_obtained-locked :
      (outcome : Outcome) (cert : Certificate) (domain : Domain) (s : Store)
      → outcome.obtained ≡ some cert
      → outcome.begins ≡ true
      → key_pair cert.certificate cert.private_key ≡ none
      → (add_obtained sort key_pair not_after outcome domain s).0.locked ≡ true
  unfolding add_obtained add_certificate_for_domains begin
  add_obtained-locked outcome cert domain s e b k =
      rw (e, add_obtained, b, k, add_certificate_for_domains) refl

  -- A store whose lock is held makes every handshake wait, whatever it asks for.
  get_certificate-locked :
      (wildcard challenge : Str → Option TlsCertificate) (on_demand : Bool)
      (allowed : Option (Str → Bool)) (outcome : Outcome) (name : Str) (s : Store)
      → s.locked ≡ true
      → get_certificate sort key_pair not_after wildcard challenge on_demand allowed outcome name s
        ≡ (s, waits)
  unfolding get_certificate get
  get_certificate-locked wildcard challenge on_demand allowed outcome name s l = rw l refl

  -- Once LoadCertificateForDomains has obtained a certificate for new domains whose key does not fit
  -- it, and the store has begun a transaction, every later handshake waits for the lock, whatever its
  -- name is and whatever the client would obtain for it.
  pub load_certificate_for_domains-waits :
      (outcome later : Outcome) (cert : Certificate) (domains : List Str) (domain : Domain)
      (s : Store) (wildcard challenge : Str → Option TlsCertificate) (on_demand : Bool)
      (allowed : Option (Str → Bool)) (name : Str)
      → s.locked ≡ false
      → domain_of sort key_pair not_after (map canonical_domain domains) ≡ some domain
      → exists domain s.certs ≡ none
      → outcome.obtained ≡ some cert
      → outcome.begins ≡ true
      → key_pair cert.certificate cert.private_key ≡ none
      → (get_certificate sort key_pair not_after wildcard challenge on_demand allowed later name
          (load_certificate_for_domains sort key_pair not_after true outcome domains s)).1
        ≡ waits
  unfolding load_certificate_for_domains get
  load_certificate_for_domains-waits outcome later cert domains domain s wildcard challenge
        on_demand allowed name l d n e b k =
      let asked = ask sort key_pair not_after (map canonical_domain domains) s in
      let after = (add_obtained sort key_pair not_after outcome domain asked).0 in
      let held = add_obtained-locked outcome cert domain asked e b k in
      rw (l, d, n)
        (ap (λ r. r.1)
          (get_certificate-locked wildcard challenge on_demand allowed later name after held))

  abbrev added : Certificate → TlsCertificate → Domain → DomainsCertificate
  added cert tls domain = record { domains = domain; certificate = cert; tls_cert = some tls }

  -- The store once a certificate was added and committed.
  abbrev pub with_added : Certificate → TlsCertificate → Domain → Store → Store
  with_added cert tls domain s =
      commit true (record (begin s) { certs = s.certs ++ added cert tls domain ∷ [] })

  pub add_obtained_lem :
      (outcome : Outcome) (cert : Certificate) (tls : TlsCertificate) (domain : Domain) (s : Store)
      → outcome.obtained ≡ some cert
      → outcome.begins ≡ true
      → outcome.commits ≡ true
      → key_pair cert.certificate cert.private_key ≡ some tls
      → add_obtained sort key_pair not_after outcome domain s
        ≡ (with_added cert tls domain s, some (added cert tls domain))
  unfolding add_obtained add_certificate_for_domains
  add_obtained_lem outcome cert tls domain s e b c k =
      rw (e, add_obtained, b, k, add_certificate_for_domains, k, c) refl

  on_demand-locked :
      (outcome : Outcome) (name : Str) (s : Store)
      → s.locked ≡ true
      → load_certificate_on_demand sort key_pair not_after outcome name s ≡ (s, waits)
  unfolding load_certificate_on_demand
  on_demand-locked outcome name s l = rw (load_certificate_on_demand, get-locked s l) refl

  on_demand-found :
      (outcome : Outcome) (name : Str) (s : Store) (c : DomainsCertificate)
      → s.locked ≡ false
      → get_certificate_for_domain (canonical_domain name) s.certs ≡ some c
      → load_certificate_on_demand sort key_pair not_after outcome name s ≡ (s, answered c.tls_cert)
  unfolding load_certificate_on_demand
  on_demand-found outcome name s c l q = rw (load_certificate_on_demand, get-unlocked s l, q) refl

  on_demand-new :
      (outcome : Outcome) (cert : Certificate) (tls : TlsCertificate) (name : Str) (s : Store)
      → outcome.obtained ≡ some cert
      → outcome.begins ≡ true
      → outcome.commits ≡ true
      → key_pair cert.certificate cert.private_key ≡ some tls
      → s.locked ≡ false
      → get_certificate_for_domain (canonical_domain name) s.certs ≡ none
      → load_certificate_on_demand sort key_pair not_after outcome name s ≡ (
        with_added cert tls
            (record { main = canonical_domain name; sans = none })
            (ask sort key_pair not_after (canonical_domain name ∷ []) s),
        answered (some tls),
      )
  unfolding load_certificate_on_demand
  on_demand-new outcome cert tls name s e b c k l q =
      let domain : Domain = record { main = canonical_domain name; sans = none } in
      let asked = ask sort key_pair not_after (canonical_domain name ∷ []) s in
      rw
        (
          load_certificate_on_demand,
          get-unlocked s l,
          q,
          add_obtained_lem outcome cert tls domain asked e b c k,
        )
        refl

  -- What is obtained on demand, with a key that fits it, is committed and found at the next handshake
  -- for that name: it is answered alike, and nothing is asked for, whatever the client would obtain.
  pub load_certificate_on_demand-again :
      (outcome later : Outcome) (cert : Certificate) (tls : TlsCertificate) (name : Str) (s : Store)
      → outcome.obtained ≡ some cert
      → outcome.begins ≡ true
      → outcome.commits ≡ true
      → key_pair cert.certificate cert.private_key ≡ some tls
      → load_certificate_on_demand sort key_pair not_after later name
          (load_certificate_on_demand sort key_pair not_after outcome name s).0
        ≡ load_certificate_on_demand sort key_pair not_after outcome name s
  unfolding begin commit ask
  load_certificate_on_demand-again outcome later cert tls name s e b c k =
      let main = canonical_domain name in
      let domain : Domain = record { main = main; sans = none } in
      elim (Bool-cases s.locked) [
        | inl l ↦ rw (on_demand-locked outcome name s l) (on_demand-locked later name s l)
        | inr l ↦ elim (Option-cases (get_certificate_for_domain main s.certs)) [
          | inr (old, q) ↦
              rw (on_demand-found outcome name s old l q) (on_demand-found later name s old l q)
          | inl q ↦
              let after = with_added cert tls domain (ask sort key_pair not_after (main ∷ []) s) in
              let found : get_certificate_for_domain main after.certs
                  ≡ some (added cert tls domain) =
                get-append main s.certs (added cert tls domain)
                ∙ rw (q, (str_eq_iff main main).1 refl) refl in
              rw (on_demand-new outcome cert tls name s e b c k l q)
                (on_demand-found later name after (added cert tls domain) refl found)
        ]
      ]
