-- ===== src/Server/Settings.antt =====
-- server/configuration.go: the options of the static configuration, and their texts.
pub mod Texts
use traefik.Prelude.{
  ℕ, Bool, true, false, Option, none, some, List, [], ◌∷◌, ◌++◌, Str, codes, Dict, Result, ok, err,
  ℤ, map,
}
use traefik.Text.{split, join}
use traefik.Types.{Auth}

pub record Redirect : Type 0 where
  pub entry_point : Str
  pub regex : Str
  pub replacement : Str

pub record Certificate : Type 0 where
  pub cert_file : Str
  pub key_file : Str

pub record Tls : Type 0 where
  pub min_version : Str
  pub cipher_suites : Option (List Str)
  pub certificates : List Certificate
  pub client_ca_files : List Str

pub record EntryPoint : Type 0 where
  pub network : Str
  pub address : Str
  pub tls : Option Tls
  pub redirect : Option Redirect
  pub auth : Option Auth
  pub compress : Bool

pub record Retry : Type 0 where
  pub attempts : ℤ

-- The part of GlobalConfiguration that the server reads when it loads a dynamic configuration.
-- `prometheus` says whether Web, its metrics and their exporter are all set; times are in
-- nanoseconds.
pub record GlobalConfiguration : Type 0 where
  pub entry_points : Dict EntryPoint
  pub default_entry_points : List Str
  pub providers_throttle_duration : ℕ
  pub retry : Option Retry
  pub health_check_interval : ℤ
  pub prometheus : Bool

-- DefaultEntryPoints.String
unfoldable pub default_entry_points_string : List Str → Str
default_entry_points_string dep = join (codes ",") dep

-- DefaultEntryPoints.Set: the parts of a split are never none, so the test for that is passed over.
unfoldable pub default_entry_points_set : Str → List Str → List Str
default_entry_points_set value dep = dep ++ split b',' value

-- `certificate.CertFile + "," + certificate.KeyFile`
abbrev pub certificate_text : Certificate → Str
certificate_text c = c.cert_file ++ b',' ∷ c.key_file

-- Certificates.String
unfoldable pub certificates_string : List Certificate → Str
certificates_string certs = join (codes ";") (map certificate_text certs)

pub data FormatError : Type 0 where
  bad_certificates : Str → FormatError

-- The files of one certificate, of exactly two parts.
certificate_of : List Str → Option Certificate
certificate_of (cert ∷ key ∷ []) = some (record { cert_file = cert; key_file = key })
certificate_of _ = none

-- The loop of Certificates.Set: what was read before a failure stays appended.
certificates_from : Str → List Str → List Certificate → List Certificate × Option FormatError
certificates_from value [] certs = (certs, none)
certificates_from value (c ∷ cs) certs = elim (certificate_of (split b',' c)) [
  | none ↦ (certs, some (bad_certificates value))
  | some certificate ↦ certificates_from value cs (certs ++ certificate ∷ [])
]

-- Certificates.Set
unfoldable pub certificates_set : Str → List Certificate → List Certificate × Option FormatError
unfolding certificate_of certificates_from
certificates_set value certs = certificates_from value (split b';' value) certs
