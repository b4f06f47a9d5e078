-- ===== src/Tests/Static.antt =====
-- The static configuration, and what is made of it.
use mathlib.Core.Option.{get_or}
use traefik.Prelude.{
  Bool, true, false, not, Option, none, some, List, [], ◌∷◌, ◌++◌, Str, codes, Dict, lookup, str_eq,
  Result, ok, err, All, ℤ, pos, is_positive, is_empty, ◌≡◌, refl, sym, ap,
}
use traefik.Types.{Backend, Frontend, Configuration, HealthCheck}
use traefik.HealthCheck.{Options}
use traefik.Server.Settings.{Certificate, Tls, EntryPoint}
use traefik.Server.Handlers.{redirect_regex, load_entry_point_config, parse_health_check_options}
use traefik.Server.Handlers.Redirection.{load_entry_point_config_port}
use traefik.Server.Handlers.Intervals.{parse_health_check_options_lem}
use traefik.Server.TlsConfig.{
  TlsConfig, TlsPlatform, create_tls_config, is_known_suite, with_acme, with_certificates,
  with_client_cas, with_cipher_suites, with_min_version, pool_of, suites_of, certificates_config,
  pairs_of, pair_of,
}
use traefik.Server.TlsConfig.Checks.{KeepsDemands, create_tls_config_lem}
use traefik.Server.PostLoad.{post_load_config}
use traefik.Server.PostLoad.Requests.{
  wanted, frontends_of, post_load_config_lem, post_load_config_panics,
}

abbrev a_pair : Certificate
a_pair = record { cert_file = codes "a.crt"; key_file = codes "a.key" }

abbrev a_backend : Backend
a_backend = record {
  servers = [];
  circuit_breaker = none;
  load_balancer = some (record { method = codes "other"; sticky = true });
  max_conn = none;
  health_check = none;
}

abbrev tls : Tls
tls = record {
  min_version = codes "VersionTLS12";
  cipher_suites = some (codes "TLS_RSA_WITH_RC4_128_SHA" ∷ []);
  certificates = a_pair ∷ [];
  client_ca_files = codes "ca" ∷ [];
}

abbrev https : EntryPoint
https = record {
  network = [];
  address = codes ":443";
  tls = some tls;
  redirect = none;
  auth = none;
  compress = false;
}

abbrev http : EntryPoint
http = record https { address = codes ":80"; tls = none }

abbrev entry_points : Dict EntryPoint
entry_points = (codes "http", http) ∷ (codes "https", https) ∷ []

abbrev a_frontend : List Str → Frontend
a_frontend es = record {
  entry_points = es;
  backend = codes "web";
  routes = (codes "r", record { rule = codes "Host:foo.com" }) ∷ [];
  pass_host_header = true;
  priority = pos 0;
  basic_auth = [];
}

abbrev configuration_of : Dict Frontend → Configuration
configuration_of fs = record {
  backends = some ((codes "web", a_backend) ∷ []);
  frontends = some fs;
}

abbrev compiles : Str → Bool
compiles s = true

load_entry_point_config_port_example :
    load_entry_point_config compiles entry_points (codes "https") [] []
    ≡ ok (redirect_regex, codes "https" ++ (codes "://$1" ++ ((b':' ∷ codes "443") ++ codes "$2")))
unfolding lookup str_eq
load_entry_point_config_port_example =
    load_entry_point_config_port compiles entry_points b'h' (codes "ttps") [] [] https []
      (codes "443") refl refl refl tt (refl, (refl, (refl, tt))) refl

abbrev no_duration : Str → Option ℤ
no_duration s = none

abbrev a_check : HealthCheck
a_check = record { path = codes "/up"; interval = codes "soon" }

abbrev checked : Options
checked = record { path = codes "/up"; interval = pos 30 }

parse_health_check_options_lem_example :
    (is_positive checked.interval ≡ true)
    × (checked.path ≡ a_check.path)
    × (is_empty checked.path ≡ false)
unfolding parse_health_check_options
parse_health_check_options_lem_example =
    parse_health_check_options_lem no_duration a_check (pos 30) checked refl refl

-- A platform whose certificates and pools are texts.
abbrev text_platform : TlsPlatform Str Str Str
text_platform = record {
  stat_ok = λ f. true;
  load_pair = λ cert key. ok cert;
  parse_pair = λ cert key. err cert;
  read_file = λ f. ok f;
  new_pool = [];
  append_pem = λ pem pool. some (pool ++ pem);
}

abbrev one_more : TlsConfig Str Str → Result Str (TlsConfig Str Str)
one_more c = ok (record c { certificates = codes "acme" ∷ c.certificates })

one_more-KeepsDemands : KeepsDemands text_platform one_more
one_more-KeepsDemands c d e =
    let same : record c { certificates = codes "acme" ∷ c.certificates } ≡ d = cc in
    (
      sym (ap (λ (x : TlsConfig Str Str). x.requires_client_cert) same),
      sym (ap (λ (x : TlsConfig Str Str). x.cipher_suites) same),
    )

abbrev made_config : TlsConfig Str Str
made_config = record {
  certificates = codes "acme" ∷ codes "a.crt" ∷ [];
  next_protos = codes "h2" ∷ codes "http/1.1" ∷ [];
  client_cas = some (codes "ca");
  requires_client_cert = true;
  prefers_server_cipher_suites = true;
  min_version = some (codes "VersionTLS12");
  cipher_suites = some (codes "TLS_RSA_WITH_RC4_128_SHA" ∷ []);
}

create_tls_config_lem_example :
    (is_empty made_config.certificates ≡ false)
    × (made_config.requires_client_cert ≡ not (is_empty tls.client_ca_files))
    × (made_config.cipher_suites ≡ tls.cipher_suites)
    × All (λ s. is_known_suite s ≡ true) (get_or tls.cipher_suites [])
unfolding create_tls_config with_acme with_certificates with_client_cas with_cipher_suites
    with_min_version pool_of suites_of certificates_config pairs_of pair_of is_known_suite str_eq
create_tls_config_lem_example =
    create_tls_config_lem text_platform one_more one_more-KeepsDemands (some (codes "https"))
      (codes "http" ∷ codes "https" ∷ []) (codes "https") tls tls made_config refl

abbrev both : List Str
both = codes "http" ∷ codes "https" ∷ []

abbrev good : Dict Configuration
good = (codes "file", configuration_of ((codes "f", a_frontend both) ∷ [])) ∷ []

post_load_config_lem_example :
    post_load_config (some true) none entry_points good
    ≡ (wanted entry_points (frontends_of good), true)
unfolding lookup str_eq
post_load_config_lem_example =
    post_load_config_lem entry_points (some true) none good
      (((http, refl), ((https, refl), tt)), tt)

abbrev lost : List Str
lost = codes "http" ∷ codes "gone" ∷ codes "https" ∷ []

abbrev bad : Dict Configuration
bad =
    (
      codes "file",
      configuration_of ((codes "f", a_frontend both) ∷ (codes "g", a_frontend lost) ∷ []),
    )
    ∷ []

post_load_config_panics_example :
    post_load_config (some true) (some true) entry_points bad
    ≡ (wanted entry_points ((codes "f", a_frontend both) ∷ []), false)
unfolding lookup str_eq
post_load_config_panics_example =
    post_load_config_panics entry_points bad ((codes "f", a_frontend both) ∷ []) [] (codes "g")
      (a_frontend lost) (codes "http" ∷ []) (codes "https" ∷ []) (codes "gone") refl
      (((http, refl), ((https, refl), tt)), tt) refl ((http, refl, refl), tt) refl
