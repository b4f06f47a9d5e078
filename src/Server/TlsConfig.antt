-- ===== src/Server/TlsConfig.antt =====
-- server/server.go and server/configuration.go: the TLS configuration of an entry point.
pub mod Checks
use traefik.Prelude.{
  and_next, map_err, Bool, true, false, ◌||◌, Option, none, some, List, [], ◌∷◌, ◌++◌, Str, codes,
  str_eq, any, is_empty, if◌then◌else◌, Result, ok, err, All,
}
use traefik.Server.Settings.{Certificate, Tls}

-- The keys of the maps minVersion and cipherSuites. Each key is the name of the constant of
-- crypto/tls that it stands for, so a constant is given by its name.
abbrev pub min_versions : List Str
min_versions = codes "VersionTLS10" ∷ codes "VersionTLS11" ∷ codes "VersionTLS12" ∷ []

abbrev pub known_cipher_suites : List Str
known_cipher_suites =
    codes "TLS_RSA_WITH_RC4_128_SHA"
    ∷ codes "TLS_RSA_WITH_3DES_EDE_CBC_SHA"
    ∷ codes "TLS_RSA_WITH_AES_128_CBC_SHA"
    ∷ codes "TLS_RSA_WITH_AES_256_CBC_SHA"
    ∷ codes "TLS_RSA_WITH_AES_128_CBC_SHA256"
    ∷ codes "TLS_RSA_WITH_AES_128_GCM_SHA256"
    ∷ codes "TLS_RSA_WITH_AES_256_GCM_SHA384"
    ∷ codes "TLS_ECDHE_ECDSA_WITH_RC4_128_SHA"
    ∷ codes "TLS_ECDHE_ECDSA_WITH_AES_128_CBC_SHA"
    ∷ codes "TLS_ECDHE_ECDSA_WITH_AES_256_CBC_SHA"
    ∷ codes "TLS_ECDHE_RSA_WITH_RC4_128_SHA"
    ∷ codes "TLS_ECDHE_RSA_WITH_3DES_EDE_CBC_SHA"
    ∷ codes "TLS_ECDHE_RSA_WITH_AES_128_CBC_SHA"
    ∷ codes "TLS_ECDHE_RSA_WITH_AES_256_CBC_SHA"
    ∷ codes "TLS_ECDHE_ECDSA_WITH_AES_128_CBC_SHA256"
    ∷ codes "TLS_ECDHE_RSA_WITH_AES_128_CBC_SHA256"
    ∷ codes "TLS_ECDHE_RSA_WITH_AES_128_GCM_SHA256"
    ∷ codes "TLS_ECDHE_ECDSA_WITH_AES_128_GCM_SHA256"
    ∷ codes "TLS_ECDHE_RSA_WITH_AES_256_GCM_SHA384"
    ∷ codes "TLS_ECDHE_ECDSA_WITH_AES_256_GCM_SHA384"
    ∷ codes "TLS_ECDHE_RSA_WITH_CHACHA20_POLY1305"
    ∷ codes "TLS_ECDHE_ECDSA_WITH_CHACHA20_POLY1305"
    ∷ []

abbrev pub is_among : Str → List Str → Bool
is_among s ss = any (λ t. str_eq t s) ss

-- `cipherSuites[s]` exists.
unfoldable pub is_known_suite : Str → Bool
is_known_suite s = is_among s known_cipher_suites

pub data TlsError (E : Type 0) : Type 0 where
  bad_key_file : TlsError E
  bad_pair read_failed acme_failed : E → TlsError E
  invalid_certificates unknown_entry_point no_certificates invalid_cipher_suite : Str → TlsError E

-- tls.Config, as far as it is set; `client_cas` is the pool, if clients have to be verified.
pub record TlsConfig (C P : Type 0) : Type 0 where
  pub certificates : List C
  pub next_protos : List Str
  pub client_cas : Option P
  pub requires_client_cert : Bool
  pub prefers_server_cipher_suites : Bool
  pub min_version : Option Str
  pub cipher_suites : Option (List Str)

-- `stat_ok` says whether os.Stat finds a path, `load_pair` and `parse_pair` are LoadX509KeyPair and
-- X509KeyPair, `append_pem` is AppendCertsFromPEM (`none` where it fails) on a pool of NewCertPool.
pub record TlsPlatform (E C P : Type 0) : Type 0 where
  pub stat_ok : Str → Bool
  pub load_pair : Str → Str → Result E C
  pub parse_pair : Str → Str → Result E C
  pub read_file : Str → Result E Str
  pub new_pool : P
  pub append_pem : Str → P → Option P

module _ {E C P : Type 0} (platform : TlsPlatform E C P) where
  open platform use {stat_ok, load_pair, parse_pair, read_file, new_pool, append_pem}

  -- The pair of a certificate, of two paths or of two texts.
  unfoldable pub pair_of : Certificate → Result (TlsError E) C
  pair_of c =
      if stat_ok c.cert_file
      then if stat_ok c.key_file
        then map_err bad_pair (load_pair c.cert_file c.key_file)
        else err bad_key_file
      else if stat_ok c.key_file
      then err bad_key_file
      else map_err bad_pair (parse_pair c.cert_file c.key_file)

  -- The loop of Certificates.CreateTLSConfig.
  unfoldable pub pairs_of : List Certificate → List C → Result (TlsError E) (List C)
  pairs_of [] made = ok made
  pairs_of (c ∷ cs) made = and_next (pair_of c) (λ p. pairs_of cs (made ++ p ∷ []))

  unfoldable pub certificates_config : List Certificate → Result (TlsError E) (TlsConfig C P)
  certificates_config cs = and_next (pairs_of cs []) (λ made. ok (record {
    certificates = made;
    next_protos = [];
    client_cas = none;
    requires_client_cert = false;
    prefers_server_cipher_suites = false;
    min_version = none;
    cipher_suites = none;
  }))

  -- The loop over the files of client authorities.
  unfoldable pub pool_of : List Str → P → Result (TlsError E) P
  pool_of [] pool = ok pool
  pool_of (f ∷ fs) pool = and_next (map_err read_failed (read_file f)) (λ data_.
      elim (append_pem data_ pool) [
        | none ↦ err (invalid_certificates f)
        | some pool' ↦ pool_of fs pool'
      ])

  unfoldable pub with_client_cas : List Str → TlsConfig C P → Result (TlsError E) (TlsConfig C P)
  with_client_cas [] config = ok config
  with_client_cas (f ∷ fs) config =
      and_next (pool_of (f ∷ fs) new_pool)
        (λ pool. ok (record config { client_cas = some pool; requires_client_cert = true }))

  unfoldable pub with_certificates : Str → TlsConfig C P → Result (TlsError E) (TlsConfig C P)
  with_certificates name config =
      if is_empty config.certificates then err (no_certificates name) else ok config

  unfoldable pub with_min_version : Str → TlsConfig C P → TlsConfig C P
  with_min_version version config =
      if is_among version min_versions
      then record config { prefers_server_cipher_suites = true; min_version = some version }
      else config

  -- The loop over the cipher suites.
  unfoldable pub suites_of : List Str → List Str → Result (TlsError E) (List Str)
  suites_of [] chosen = ok chosen
  suites_of (s ∷ ss) chosen =
      let rest = suites_of ss (chosen ++ s ∷ []) in
      if is_known_suite s then rest else err (invalid_cipher_suite s)

  unfoldable pub with_cipher_suites :
      Option (List Str) → TlsConfig C P → Result (TlsError E) (TlsConfig C P)
  with_cipher_suites none config = ok config
  with_cipher_suites (some ss) config =
      and_next (suites_of ss []) (λ chosen. ok (record config { cipher_suites = some chosen }))

  -- ACME, on the entry point it names; `create_acme` is CreateLocalConfig, or CreateClusterConfig
  -- where there is a leadership.
  module _ (create_acme : TlsConfig C P → Result E (TlsConfig C P)) where
    unfoldable pub with_acme :
        Option Str → List Str → Str → TlsConfig C P → Result (TlsError E) (TlsConfig C P)
    with_acme none entry_points name config = ok config
    with_acme (some acme) entry_points name config =
        if is_among acme entry_points
        then if str_eq name acme then map_err acme_failed (create_acme config) else ok config
        else err (unknown_entry_point acme)

    -- createTLSConfig: `configured` is the TLS of the entry point of that name in the static
    -- configuration.
    unfoldable pub create_tls_config :
        Option Str
        → List Str
        → Str
        → Tls
        → Option Tls
        → Result (TlsError E) (Option (TlsConfig C P))
    create_tls_config acme entry_points name configured none = ok none
    create_tls_config acme entry_points name configured (some tls) =
        and_next (certificates_config tls.certificates) (λ c₁.
          and_next
            (with_client_cas tls.client_ca_files
              (record c₁ { next_protos = codes "h2" ∷ codes "http/1.1" ∷ [] }))
            (λ c₂. and_next (with_acme acme entry_points name c₂) (λ c₃.
              and_next (with_certificates name c₃) (λ c₄.
                and_next
                  (with_cipher_suites configured.cipher_suites
                    (with_min_version configured.min_version c₄))
                  (λ c₅. ok (some c₅))))))
