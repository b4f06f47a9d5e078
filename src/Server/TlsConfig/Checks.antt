-- ===== src/Server/TlsConfig/Checks.antt =====
-- server/server.go: what a TLS configuration that is made guarantees.
use traefik.Prelude.{
  and_next-inv, map_err-inv, true, false, not, Option, none, some, List, [], ◌∷◌, ◌++◌, Str, str_eq,
  is_empty, codes, Result, ok, All, ◌≡◌, refl, sym, ap, ◌∙◌, arith, Bool-cases, inl, inr,
  append_assoc, append-nil,
}
use mathlib.Core.Option.{get_or}
use traefik.Server.Settings.{Certificate, Tls}
use traefik.Server.TlsConfig.{
  acme_failed, TlsConfig, TlsPlatform, is_among, min_versions, is_known_suite, certificates_config,
  pairs_of, pool_of, with_client_cas, with_certificates, with_min_version, suites_of,
  with_cipher_suites, with_acme, create_tls_config,
}

module _ {E C P : Type 0} (platform : TlsPlatform E C P) where
  suites_of-inv :
      (ss chosen result : List Str)
      → suites_of platform ss chosen ≡ ok result
      → (result ≡ chosen ++ ss) × All (λ s. is_known_suite s ≡ true) ss
  unfolding suites_of
  suites_of-inv [] chosen result h =
      let same : chosen ≡ result = cc in (sym same ∙ sym (append-nil chosen), tt)
  suites_of-inv (s ∷ ss) chosen result h = elim (Bool-cases (is_known_suite s)) [
    | inl y ↦
        let rest : suites_of platform ss (chosen ++ s ∷ []) ≡ ok result = ground arith in
        let (e, a) = suites_of-inv ss (chosen ++ s ∷ []) result rest in
        (e ∙ append_assoc chosen (s ∷ []) ss, (y, a))
    | inr n ↦ absurd (ground arith)
  ]

  with_client_cas-inv :
      (fs : List Str) (config made : TlsConfig C P)
      → config.requires_client_cert ≡ false
      → with_client_cas platform fs config ≡ ok made
      → (made.requires_client_cert ≡ not (is_empty fs))
        × (made.cipher_suites ≡ config.cipher_suites)
  unfolding with_client_cas
  with_client_cas-inv [] config made q h =
      let same : config ≡ made = cc in (rw⁻¹ same q, rw⁻¹ same refl)
  with_client_cas-inv (f ∷ fs) config made q h =
      let (pool, _, e) = and_next-inv (pool_of platform (f ∷ fs) platform.new_pool) _ made h in
      let same : record config { client_cas = some pool; requires_client_cert = true } ≡ made =
        cc in
      (
        sym (ap (λ (x : TlsConfig C P). x.requires_client_cert) same),
        sym (ap (λ (x : TlsConfig C P). x.cipher_suites) same),
      )

  with_cipher_suites-inv :
      (suites : Option (List Str)) (config made : TlsConfig C P)
      → config.cipher_suites ≡ none
      → with_cipher_suites platform suites config ≡ ok made
      → (made.requires_client_cert ≡ config.requires_client_cert)
        × (made.certificates ≡ config.certificates)
        × (made.cipher_suites ≡ suites)
        × All (λ s. is_known_suite s ≡ true) (get_or suites [])
  unfolding with_cipher_suites
  with_cipher_suites-inv none config made q h =
      let same : config ≡ made = cc in
      (
        sym (ap (λ (x : TlsConfig C P). x.requires_client_cert) same),
        sym (ap (λ (x : TlsConfig C P). x.certificates) same),
        sym (ap (λ (x : TlsConfig C P). x.cipher_suites) same) ∙ q,
        tt,
      )
  with_cipher_suites-inv (some ss) config made q h =
      let (chosen, r, e) = and_next-inv (suites_of platform ss []) _ made h in
      let (same, known) = suites_of-inv ss [] chosen r in
      let made_by : record config { cipher_suites = some chosen } ≡ made = cc in
      (
        sym (ap (λ (x : TlsConfig C P). x.requires_client_cert) made_by),
        sym (ap (λ (x : TlsConfig C P). x.certificates) made_by),
        sym (ap (λ (x : TlsConfig C P). x.cipher_suites) made_by) ∙ ap some same,
        known,
      )

  certificates_config-plain :
      (cs : List Certificate) (made : TlsConfig C P)
      → certificates_config platform cs ≡ ok made
      → (made.requires_client_cert ≡ false) × (made.cipher_suites ≡ none)
  unfolding certificates_config
  certificates_config-plain cs made h =
      let (pairs, _, e) = and_next-inv (pairs_of platform cs []) _ made h in
      let as_made : TlsConfig C P = record {
        certificates = pairs;
        next_protos = [];
        client_cas = none;
        requires_client_cert = false;
        prefers_server_cipher_suites = false;
        min_version = none;
        cipher_suites = none;
      } in
      let same : as_made ≡ made = cc in
      (
        sym (ap (λ (x : TlsConfig C P). x.requires_client_cert) same),
        sym (ap (λ (x : TlsConfig C P). x.cipher_suites) same),
      )

  with_certificates-inv :
      (name : Str) (config made : TlsConfig C P)
      → with_certificates platform name config ≡ ok made
      → (is_empty config.certificates ≡ false) × (config ≡ made)
  unfolding with_certificates
  with_certificates-inv name config made h = elim (Bool-cases (is_empty config.certificates)) [
    | inl y ↦ absurd (ground arith)
    | inr n ↦ (n, ground arith)
  ]

  same_demands :
      (config made : TlsConfig C P)
      → config ≡ made
      → (made.requires_client_cert ≡ config.requires_client_cert)
        × (made.cipher_suites ≡ config.cipher_suites)
  same_demands config made same = (
    sym (ap (λ (x : TlsConfig C P). x.requires_client_cert) same),
    sym (ap (λ (x : TlsConfig C P). x.cipher_suites) same),
  )

  with_min_version_lem :
      (version : Str) (config : TlsConfig C P)
      → ((with_min_version platform version config).requires_client_cert
          ≡ config.requires_client_cert)
        × ((with_min_version platform version config).cipher_suites ≡ config.cipher_suites)
        × ((with_min_version platform version config).certificates ≡ config.certificates)
  unfolding with_min_version
  with_min_version_lem version config = elim (Bool-cases (is_among version min_versions)) [
    | inl y ↦ rw (y, with_min_version) (refl, refl, refl)
    | inr n ↦ rw (n, with_min_version) (refl, refl, refl)
  ]

  module _ (create_acme : TlsConfig C P → Result E (TlsConfig C P)) where
    -- ACME leaves the demands on clients and the cipher suites as they are.
    abbrev pub KeepsDemands : Type 0
    KeepsDemands =
        (c d : TlsConfig C P)
        → create_acme c ≡ ok d
        → (d.requires_client_cert ≡ c.requires_client_cert) × (d.cipher_suites ≡ c.cipher_suites)

    with_acme-inv :
        KeepsDemands
        → (acme : Option Str) (entry_points : List Str) (name : Str) (config made : TlsConfig C P)
        → with_acme platform create_acme acme entry_points name config ≡ ok made
        → (made.requires_client_cert ≡ config.requires_client_cert)
          × (made.cipher_suites ≡ config.cipher_suites)
    unfolding with_acme
    with_acme-inv keeps none entry_points name config made h =
        let same : config ≡ made = cc in same_demands config made same
    with_acme-inv keeps (some acme) entry_points name config made h =
        elim (Bool-cases (is_among acme entry_points)) [
          | inr n ↦ absurd (ground arith)
          | inl y ↦ elim (Bool-cases (str_eq name acme)) [
            | inl z ↦
                keeps config made (map_err-inv acme_failed (create_acme config) made (ground arith))
            | inr m ↦ let same : config ≡ made = ground arith in same_demands config made same
          ]
        ]

    -- A configuration that is made for an entry point has a certificate; it verifies the certificates
    -- of clients exactly if files of client authorities are configured; and its cipher suites are
    -- those that are configured, all of them known. Of ACME it is asked that it changes neither.
    pub create_tls_config_lem :
        KeepsDemands
        → (acme : Option Str) (entry_points : List Str) (name : Str) (configured tls : Tls)
          (made : TlsConfig C P)
        → create_tls_config platform create_acme acme entry_points name configured (some tls)
          ≡ ok (some made)
        → (is_empty made.certificates ≡ false)
          × (made.requires_client_cert ≡ not (is_empty tls.client_ca_files))
          × (made.cipher_suites ≡ configured.cipher_suites)
          × All (λ s. is_known_suite s ≡ true) (get_or configured.cipher_suites [])
    unfolding create_tls_config with_min_version
    create_tls_config_lem keeps acme entry_points name configured tls made h =
        let (c₁, e₁, h₁) =
          and_next-inv (certificates_config platform tls.certificates) _ (some made) h in
        let p₁ = certificates_config-plain tls.certificates c₁ e₁ in
        let asked : TlsConfig C P = record c₁ {
          next_protos = codes "h2" ∷ codes "http/1.1" ∷ [];
        } in
        let (c₂, e₂, h₂) =
          and_next-inv (with_client_cas platform tls.client_ca_files asked) _ (some made) h₁ in
        let p₂ = with_client_cas-inv tls.client_ca_files asked c₂ p₁.0 e₂ in
        let (c₃, e₃, h₃) =
          and_next-inv (with_acme platform create_acme acme entry_points name c₂) _ (some made)
            h₂ in
        let p₃ = with_acme-inv keeps acme entry_points name c₂ c₃ e₃ in
        let (c₄, e₄, h₄) = and_next-inv (with_certificates platform name c₃) _ (some made) h₃ in
        let p₄ = with_certificates-inv name c₃ c₄ e₄ in
        let versioned = with_min_version platform configured.min_version c₄ in
        let v = with_min_version_lem configured.min_version c₄ in
        let (c₅, e₅, h₅) =
          and_next-inv (with_cipher_suites platform configured.cipher_suites versioned) _
            (some made) h₄ in
        let s₄ = same_demands c₃ c₄ p₄.1 in
        let none_yet : versioned.cipher_suites ≡ none = v.1 ∙ (s₄.1 ∙ (p₃.1 ∙ (p₂.1 ∙ p₁.1))) in
        let p₅ = with_cipher_suites-inv configured.cipher_suites versioned c₅ none_yet e₅ in
        let same : c₅ ≡ made = cc in
        let s₅ = same_demands c₅ made same in
        (
          ap (λ (x : TlsConfig C P). is_empty x.certificates) (sym same)
              ∙ (ap is_empty (p₅.1 ∙ v.2)
                  ∙ (ap (λ (x : TlsConfig C P). is_empty x.certificates) (sym p₄.1) ∙ p₄.0)),
          s₅.0 ∙ (p₅.0 ∙ (v.0 ∙ (s₄.0 ∙ (p₃.0 ∙ p₂.0)))),
          s₅.1 ∙ p₅.2,
          p₅.3,
        )
