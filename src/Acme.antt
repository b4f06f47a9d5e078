-- ===== src/Acme.antt =====
-- acme/account.go: the certificates of an account, each for a domain and its alternative names.
pub mod Equality
pub mod Lookups
pub mod Duplicates
pub mod Jobs
use traefik.Prelude.{
  ℕ, zero, suc, ◌+◌, Bool, true, false, ◌&&◌, ◌||◌, Option, none, some, List, [], ◌∷◌, ◌++◌, Str,
  codes, str_eq, ltb, any, length, if◌then◌else◌, Result, ok, err,
}
use mathlib.Core.Option.{get_or}

-- A nil slice of alternative names is `none`: DeepEqual tells it from an empty one.
pub record Domain : Type 0 where
  pub main : Str
  pub sans : Option (List Str)

pub record Certificate : Type 0 where
  pub domain : Str
  pub cert_url : Str
  pub cert_stable_url : Str
  pub private_key : Str
  pub certificate : Str

-- tls.Certificate, as far as it is read: the certificates of the chain, each as its bytes.
pub record TlsCertificate : Type 0 where
  pub chain : List Str

pub record DomainsCertificate : Type 0 where
  pub domains : Domain
  pub certificate : Certificate
  pub tls_cert : Option TlsCertificate

pub data AcmeError : Type 0 where
  bad_key_pair bad_leaf : AcmeError
  not_found : Str → AcmeError

abbrev pub texts_eq : List Str → List Str → Bool
texts_eq [] [] = true
texts_eq (s ∷ ss) (t ∷ ts) = str_eq s t && texts_eq ss ts
texts_eq _ _ = false

abbrev pub sans_eq : Option (List Str) → Option (List Str) → Bool
sans_eq none none = true
sans_eq (some ss) (some ts) = texts_eq ss ts
sans_eq _ _ = false

-- reflect.DeepEqual of two domains
unfoldable pub domain_eq : Domain → Domain → Bool
domain_eq d e = str_eq d.main e.main && sans_eq d.sans e.sans

-- exists
unfoldable pub exists : Domain → List DomainsCertificate → Option DomainsCertificate
exists domain [] = none
exists domain (c ∷ cs) = if domain_eq domain c.domains then some c else exists domain cs

-- `domains = append([]string{Main}, SANs...)`
abbrev pub names_of : Domain → List Str
names_of d = d.main ∷ get_or d.sans []

-- getCertificateForDomain
unfoldable pub get_certificate_for_domain :
    Str → List DomainsCertificate → Option DomainsCertificate
get_certificate_for_domain name [] = none
get_certificate_for_domain name (c ∷ cs) =
    if any (λ n. str_eq n name) (names_of c.domains)
    then some c
    else get_certificate_for_domain name cs

-- The inner loop of removeDuplicates: those behind a certificate that are for the same domains go.
unfoldable pub drop_equal : Domain → List DomainsCertificate → List DomainsCertificate
drop_equal d [] = []
drop_equal d (c ∷ cs) =
    let rest = drop_equal d cs in if domain_eq d c.domains then rest else c ∷ rest

-- The outer loop, of at most as many rounds as there are certificates.
unfoldable pub drop_duplicates : ℕ → List DomainsCertificate → List DomainsCertificate
drop_duplicates zero cs = cs
drop_duplicates (suc n) [] = []
drop_duplicates (suc n) (c ∷ cs) = c ∷ drop_duplicates n (drop_equal c.domains cs)

-- `sort` is sort.Sort of the certificates, `key_pair` is tls.X509KeyPair of a certificate and a key,
-- and `not_after` is when a certificate ends, in nanoseconds, where x509.ParseCertificate reads it.
module _ (sort : List DomainsCertificate → List DomainsCertificate)
    (key_pair : Str → Str → Option TlsCertificate) (not_after : Str → Option ℕ) where
  unfoldable pub remove_duplicates : List DomainsCertificate → List DomainsCertificate
  remove_duplicates cs = let sorted = sort cs in drop_duplicates (length sorted) sorted

  -- The leaf of a pair is the first of its chain, which X509KeyPair leaves unread; a chain is never
  -- empty.
  unfoldable pub has_leaf : List Str → Bool
  has_leaf [] = false
  has_leaf (c ∷ cs) = elim (not_after c) [ none ↦ false | some _ ↦ true ]

  -- The loop of Init.
  unfoldable pub init_all : List DomainsCertificate → List DomainsCertificate × Option AcmeError
  init_all [] = ([], none)
  init_all (c ∷ cs) =
      let (rest, failure) = init_all cs in
      elim (key_pair c.certificate.certificate c.certificate.private_key) [
        | none ↦ (c ∷ cs, some bad_key_pair)
        | some tls ↦
            let c' = record c { tls_cert = some tls } in
            if has_leaf tls.chain then (c' ∷ rest, failure) else (c' ∷ cs, some bad_leaf)
      ]

  -- Init
  unfoldable pub init : List DomainsCertificate → List DomainsCertificate × Option AcmeError
  init cs = elim (init_all cs).1 [
    | some e ↦ ((init_all cs).0, some e)
    | none ↦ (remove_duplicates (init_all cs).0, none)
  ]

  -- renewCertificates
  unfoldable pub renew_certificates :
      Certificate → Domain → List DomainsCertificate → List DomainsCertificate × Option AcmeError
  renew_certificates acme_cert domain [] = ([], some (not_found domain.main))
  renew_certificates acme_cert domain (c ∷ cs) =
      let (rest, failure) = renew_certificates acme_cert domain cs in
      if domain_eq domain c.domains
      then elim (key_pair acme_cert.certificate acme_cert.private_key) [
        | none ↦ (c ∷ cs, some bad_key_pair)
        | some tls ↦ (record c { certificate = acme_cert; tls_cert = some tls } ∷ cs, none)
      ]
      else (c ∷ rest, failure)

  -- addCertificateForDomains
  unfoldable pub add_certificate_for_domains :
      Certificate
      → Domain
      → List DomainsCertificate
      → List DomainsCertificate × Result AcmeError DomainsCertificate
  add_certificate_for_domains acme_cert domain cs =
      elim (key_pair acme_cert.certificate acme_cert.private_key) [
        | none ↦ (cs, err bad_key_pair)
        | some tls ↦
            let cert : DomainsCertificate = record {
              domains = domain;
              certificate = acme_cert;
              tls_cert = some tls;
            } in
            (cs ++ cert ∷ [], ok cert)
      ]

  -- `24 * 30 * time.Hour`
  abbrev pub thirty_days : ℕ
  thirty_days = 2592000000000000

  -- needRenew, at a time
  unfoldable pub need_renew : ℕ → List Str → Bool
  need_renew now [] = false
  need_renew now (c ∷ cs) = elim (not_after c) [
    | none ↦ true
    | some end ↦ ltb end (now + thirty_days) || need_renew now cs
  ]
