-- ===== src/Tests/Acme.antt =====
-- Certificates of an account.
use traefik.Prelude.{
  ℕ, true, false, Option, none, some, List, [], ◌∷◌, Str, codes, ◌++◌, All, ◌≢◌, ◌⊎◌, ◌≡◌, refl,
}
use traefik.Acme.{
  Domain, Certificate, TlsCertificate, DomainsCertificate, not_found, exists, renew_certificates,
  remove_duplicates,
}
use traefik.Acme.Lookups.{renewed, renew_certificates_lem}
use traefik.Text.{to_lower, trim_space}
use traefik.Types.{canonical_domain}
use traefik.Acme.Jobs.{
  Outcome, Store, waits, domain_of, load_certificate_for_domains, load_certificate_on_demand,
  get_certificate, retrieve_certificates,
}
use traefik.Acme.Jobs.Once.{load_certificate_for_domains-waits, load_certificate_on_demand-again}
use traefik.Acme.Jobs.Retrieval.{retrieve_certificates-again}
use traefik.Acme.Duplicates.{AreUnique, remove_duplicates_lem}

abbrev as_sorted : List DomainsCertificate → List DomainsCertificate
as_sorted cs = cs

abbrev pair : Str → Str → Option TlsCertificate
pair cert key = some (record { chain = cert ∷ [] })

abbrev at_noon : Str → Option ℕ
at_noon cert = some 12

abbrev foo : Domain
foo = record { main = codes "foo.com"; sans = some (codes "www.foo.com" ∷ []) }

abbrev bar : Domain
bar = record { main = codes "bar.com"; sans = none }

abbrev a_certificate : Certificate
a_certificate = record {
  domain = codes "foo.com";
  cert_url = [];
  cert_stable_url = [];
  private_key = codes "key";
  certificate = codes "cert";
}

abbrev certificate_for : Domain → DomainsCertificate
certificate_for d = record { domains = d; certificate = a_certificate; tls_cert = none }

abbrev account : List DomainsCertificate
account = certificate_for foo ∷ certificate_for bar ∷ certificate_for foo ∷ []

abbrev tls : TlsCertificate
tls = record { chain = codes "cert" ∷ [] }

remove_duplicates_lem_example :
    AreUnique (remove_duplicates as_sorted pair at_noon account)
    × ((domain : Domain)
        → exists domain (remove_duplicates as_sorted pair at_noon account) ≡ exists domain account)
remove_duplicates_lem_example = remove_duplicates_lem as_sorted pair at_noon account

renew_certificates_lem_example :
    let result = renew_certificates as_sorted pair at_noon a_certificate bar account in
    (All (λ c. c.domains ≢ bar) account × (result ≡ (account, some (not_found bar.main))))
    ⊎ ((before after : List DomainsCertificate) × (c : DomainsCertificate) × (account
          ≡ before ++ c ∷ after)
        × All (λ d. d.domains ≢ bar) before
        × (c.domains ≡ bar)
        × (result ≡ (before ++ renewed as_sorted pair at_noon a_certificate tls c ∷ after, none)))
renew_certificates_lem_example =
    renew_certificates_lem as_sorted pair at_noon a_certificate bar account tls refl

abbrev none_fits : Str → Str → Option TlsCertificate
none_fits cert key = none

abbrev gets_one : Outcome
gets_one = record { obtained = some a_certificate; begins = true; commits = true }

abbrev empty_store : Store
empty_store = record { certs = []; committed = []; locked = false; asked = [] }

abbrev nothing : Str → Option TlsCertificate
nothing name = none

load_certificate_for_domains-waits_example :
    (get_certificate as_sorted none_fits at_noon nothing nothing false none gets_one
      (codes "bar.com")
      (load_certificate_for_domains as_sorted none_fits at_noon true gets_one
        (codes "foo.com" ∷ [])
        empty_store)).1
    ≡ waits
unfolding domain_of canonical_domain exists to_lower trim_space
load_certificate_for_domains-waits_example =
    load_certificate_for_domains-waits as_sorted none_fits at_noon gets_one gets_one a_certificate
      (codes "foo.com" ∷ []) (record { main = codes "foo.com"; sans = none }) empty_store nothing
      nothing false none (codes "bar.com") refl refl refl refl refl refl

load_certificate_on_demand-again_example :
    load_certificate_on_demand as_sorted pair at_noon gets_one
      (codes "foo.com")
      (load_certificate_on_demand as_sorted pair at_noon gets_one (codes "foo.com") empty_store).0
    ≡ load_certificate_on_demand as_sorted pair at_noon gets_one (codes "foo.com") empty_store
load_certificate_on_demand-again_example =
    load_certificate_on_demand-again as_sorted pair at_noon gets_one gets_one a_certificate tls
      (codes "foo.com") empty_store refl refl refl refl

abbrev both : List (Domain × Outcome)
both = (foo, gets_one) ∷ (bar, gets_one) ∷ []

abbrev fails_later : Domain → Outcome
fails_later d = record { obtained = none; begins = false; commits = false }

retrieve_certificates-again_example :
    let after = retrieve_certificates as_sorted pair at_noon both empty_store in
    retrieve_certificates as_sorted pair at_noon
      ((foo, fails_later foo) ∷ (bar, fails_later bar) ∷ [])
      after
    ≡ after
retrieve_certificates-again_example =
    retrieve_certificates-again as_sorted pair at_noon both fails_later empty_store
      (
        (a_certificate, tls, refl, refl, refl, refl),
        ((a_certificate, tls, refl, refl, refl, refl), tt),
      )
      refl
