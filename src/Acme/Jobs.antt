-- ===== src/Acme/Jobs.antt =====
-- acme/acme.go: the domains of the static configuration, and the jobs that ask for certificates.
pub mod Once
pub mod Retrieval
use traefik.Prelude.{
  ℕ, ◌==◌, Bool, true, false, not, ◌&&◌, ◌||◌, Option, none, some, List, [], ◌∷◌, ◌++◌, map, Str,
  codes, is_empty, is_some, if◌then◌else◌, Result, ok, err, length,
}
use mathlib.Core.Option.{get_or}
use traefik.Text.{fields_func}
use traefik.Types.{canonical_domain}
use traefik.Acme.{
  Domain, Certificate, TlsCertificate, DomainsCertificate, AcmeError, exists, names_of,
  get_certificate_for_domain, renew_certificates, add_certificate_for_domains, need_renew,
}

-- The test of Domains.Set for a separator.
abbrev pub is_separator : ℕ → Bool
is_separator c = c == b',' || c == b';'

-- Domains.Set: the error is the text that cannot be parsed.
unfoldable pub set_domains : Str → List Domain → List Domain × Option Str
set_domains str ds = elim (fields_func is_separator str) [
  | [] ↦ (ds, some str)
  | main ∷ sans ↦ (ds ++ record { main = main; sans = some sans } ∷ [], none)
]

-- What the services of a job answer: the certificate that the client obtains, if it does, and whether
-- the store begins a transaction and commits it.
pub record Outcome : Type 0 where
  pub obtained : Option Certificate
  pub begins : Bool
  pub commits : Bool

-- The local store: the certificates of its account, those that were committed last, whether its
-- lock is held, and the domains that the client was asked for, the last ones first.
pub record Store : Type 0 where
  pub certs : List DomainsCertificate
  pub committed : List DomainsCertificate
  pub locked : Bool
  pub asked : List (List Str)

-- LocalStore.Get: `none` where it waits for the lock.
unfoldable pub get : Store → Option (List DomainsCertificate)
get s = if s.locked then none else some s.certs

-- LocalStore.Begin, which takes the lock.
unfoldable pub begin : Store → Store
begin s = record s { locked = true }

-- localTransaction.Commit, or its failure, which leaves the account as it was changed; the lock is
-- released.
unfoldable pub commit : Bool → Store → Store
commit commits s = record s { committed = if commits then s.certs else s.committed; locked = false }

-- What a handshake gets: it waits for the lock, or has an answer.
pub data Handshake : Type 0 where
  waits : Handshake
  answered : Option TlsCertificate → Handshake

-- The parameters of the certificates, `sort`, `key_pair` and `not_after`, are those of the account.
module _ (sort : List DomainsCertificate → List DomainsCertificate)
    (key_pair : Str → Str → Option TlsCertificate) (not_after : Str → Option ℕ) where
  -- The client is asked for the canonical names.
  unfoldable pub ask : List Str → Store → Store
  ask domains s = record s { asked = map canonical_domain domains ∷ s.asked }

  -- A certificate that was obtained is added to the account of a transaction; the account is changed
  -- though the commit may fail, and without a commit the lock stays. The result is what was added and
  -- committed.
  unfoldable pub add_obtained : Outcome → Domain → Store → Store × Option DomainsCertificate
  add_obtained outcome domain s = elim outcome.obtained [
    | none ↦ (s, none)
    | some cert ↦
        if not outcome.begins
        then (s, none)
        else elim (add_certificate_for_domains sort key_pair not_after cert domain s.certs).1 [
          | err _ ↦ (begin s, none)
          | ok added ↦
              let cs =
                (add_certificate_for_domains sort key_pair not_after cert domain s.certs).0 in
              (
                commit outcome.commits (record (begin s) { certs = cs }),
                if outcome.commits then some added else none,
              )
        ]
  ]

  -- The body of the loop of retrieveCertificates.
  unfoldable pub retrieve : Outcome → Domain → Store → Store
  retrieve outcome domain s = elim (get s) [
    | none ↦ s
    | some certs ↦
        if is_some (exists domain certs)
        then s
        else (add_obtained outcome domain (ask (names_of domain) s)).0
  ]

  -- The job of retrieveCertificates, over the domains of the static configuration.
  unfoldable pub retrieve_certificates : List (Domain × Outcome) → Store → Store
  retrieve_certificates [] s = s
  retrieve_certificates ((domain, outcome) ∷ ds) s =
      retrieve_certificates ds (retrieve outcome domain s)

  -- The domain that LoadCertificateForDomains makes of names; a slice of one name leaves SANs nil.
  unfoldable pub domain_of : List Str → Option Domain
  domain_of [] = none
  domain_of (main ∷ []) = some (record { main = main; sans = none })
  domain_of (main ∷ san ∷ sans) = some (record { main = main; sans = some (san ∷ sans) })

  -- The job of LoadCertificateForDomains; `ready` says whether the client was built in time.
  unfoldable pub load_certificate_for_domains : Bool → Outcome → List Str → Store → Store
  load_certificate_for_domains ready outcome domains s =
      let names = map canonical_domain domains in
      if not ready then s else elim (get s) [
        | none ↦ s
        | some certs ↦ elim (domain_of names) [
          | none ↦ s
          | some domain ↦
              if is_some (exists domain certs)
              then s
              else (add_obtained outcome domain (ask names s)).0
        ]
      ]

  -- loadCertificateOnDemand: the certificate for the handshake, if there is one.
  unfoldable pub load_certificate_on_demand : Outcome → Str → Store → Store × Handshake
  load_certificate_on_demand outcome server_name s =
      let name = canonical_domain server_name in
      elim (get s) [
        | none ↦ (s, waits)
        | some certs ↦ elim (get_certificate_for_domain name certs) [
          | some c ↦ (s, answered c.tls_cert)
          | none ↦
              let r =
                add_obtained outcome (record { main = name; sans = none }) (ask (name ∷ []) s) in
              (r.0, answered (elim r.1 [ none ↦ none | some c ↦ c.tls_cert ]))
        ]
      ]

  -- getCertificate: `wildcard` is the certificate of the TLS configuration whose name fits, and
  -- `challenge` that of a challenge; `allowed` is checkOnDemandDomain, where it is set.
  unfoldable pub get_certificate :
      (Str → Option TlsCertificate)
      → (Str → Option TlsCertificate)
      → Bool
      → Option (Str → Bool)
      → Outcome
      → Str
      → Store
      → Store × Handshake
  get_certificate wildcard challenge on_demand allowed outcome server_name s =
      let name = canonical_domain server_name in
      elim (get s) [
        | none ↦ (s, waits)
        | some certs ↦ elim (wildcard name) [
          | some c ↦ (s, answered (some c))
          | none ↦ elim (challenge name) [
            | some c ↦ (s, answered (some c))
            | none ↦ elim (get_certificate_for_domain name certs) [
              | some c ↦ (s, answered c.tls_cert)
              | none ↦
                  if not on_demand
                  then (s, answered none)
                  else if not (get_or allowed (λ _. true) name)
                  then (s, answered none)
                  else load_certificate_on_demand outcome server_name s
            ]
          ]
        ]
      ]

  -- The chain of a certificate that was initialised.
  abbrev pub chain_of : DomainsCertificate → List Str
  chain_of c = elim c.tls_cert [ none ↦ [] | some tls ↦ tls.chain ]

  -- The body of the loop of the job of renewCertificates, at a time; what is obtained is what the
  -- client renews.
  unfoldable pub renew : ℕ → Outcome → DomainsCertificate → Store → Store
  renew now outcome c s =
      if not (need_renew sort key_pair not_after now (chain_of c))
      then s
      else elim outcome.obtained [
        | none ↦ s
        | some cert ↦
            if not outcome.begins
            then s
            else let r = renew_certificates sort key_pair not_after cert c.domains s.certs in
              elim r.1 [
                | some _ ↦ record (begin s) { certs = r.0 }
                | none ↦ commit outcome.commits (record (begin s) { certs = r.0 })
              ]
      ]
