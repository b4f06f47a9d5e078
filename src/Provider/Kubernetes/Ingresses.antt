-- ===== src/Provider/Kubernetes/Ingresses.antt =====
-- provider/kubernetes/kubernetes.go: loadIngresses, and the credentials of an ingress.
use traefik.Prelude.{
  Bool, true, false, not, ◌||◌, Option, none, some, List, [], ◌∷◌, ◌++◌, map, keep, Str, codes,
  str_eq, Dict, lookup, insert, delete, update, has_key, is_empty, if◌then◌else◌, ℤ, pos, int_eq,
  Result, ok, err, and_next, map_err, fold_ok,
}
use mathlib.Core.Option.{get_or}
use traefik.Text.{to_lower, byte_length}
use traefik.Types.{Frontend, Route}
use traefik.Provider.Kubernetes.{
  IngressPort, IngressPath, IngressRule, Ingress, ServicePort, Service, Address, Subset, Client,
  KubernetesError, realm_customized, unsupported_auth_type, no_auth_secret, no_credentials,
  secret_not_found, nil_secret, secret_not_single, api_error, annotation, should_process_ingress,
  equal_ports, endpoint_port_number, host_rule, path_rule, Templates, new_backend, insert_new,
  annotate, add_subset_servers,
}

-- `scan_lines` is a bufio.Scanner over a text, and `itoa` is strconv.Itoa.
module _ (client : Client) (scan_lines : Str → List Str) (itoa : ℤ → Str) where
  open client use {get_service, get_endpoints, get_secret}

  credentials_of : Option (Option (Dict Str)) → Result KubernetesError (List Str)
  credentials_of none = err secret_not_found
  credentials_of (some none) = err nil_secret
  credentials_of (some (some ((_, v) ∷ []))) = ok (keep (λ l. not (is_empty l)) (scan_lines v))
  credentials_of (some (some _)) = err secret_not_single

  -- loadAuthCredentials
  unfoldable pub load_auth_credentials : Str → Str → Result KubernetesError (List Str)
  unfolding credentials_of
  load_auth_credentials namespace secret_name =
      and_next (map_err api_error (get_secret namespace secret_name)) credentials_of

  -- handleBasicAuthConfig
  unfoldable pub handle_basic_auth_config : Ingress → Result KubernetesError (List Str)
  handle_basic_auth_config i =
      elim (lookup (codes "ingress.kubernetes.io/auth-type") i.annotations) [
        | none ↦ ok []
        | some auth_type ↦
            if not (str_eq (to_lower auth_type) (codes "basic"))
            then err unsupported_auth_type
            else let auth_secret =
                annotation (codes "ingress.kubernetes.io/auth-secret") i.annotations in
              if is_empty auth_secret
              then err no_auth_secret
              else and_next (load_auth_credentials i.namespace auth_secret)
                  (λ creds. if is_empty creds then err no_credentials else ok creds)
      ]

  -- The name and the URL of the server at an address.
  abbrev pub address_server : Str → ServicePort → Subset → Address → Str × Str
  address_server protocol port subset address =
      let url =
        protocol
        ++ (codes "://" ++ (address.ip ++ b':' ∷ itoa (endpoint_port_number port subset.ports))) in
      let ref = get_or address.target_ref [] in (if is_empty ref then url else ref, url)

  abbrev pub subset_servers : Str → ServicePort → List Subset → List (Str × Str)
  subset_servers protocol port [] = []
  subset_servers protocol port (s ∷ ss) =
      map (address_server protocol port s) s.addresses ++ subset_servers protocol port ss

  -- The servers behind a port of a service; `none` where the service has no endpoints object.
  unfoldable pub port_servers :
      Str → Service → ServicePort → Result KubernetesError (Option (List (Str × Str)))
  port_servers protocol service port =
      if str_eq service.service_type (codes "ExternalName")
      then (let url = protocol ++ (codes "://" ++ service.external_name) in
          ok (some ((url, url) ∷ [])))
      else and_next (map_err api_error (get_endpoints service.namespace service.name)) (λ found.
        ok (elim found [
          | none ↦ none
          | some [] ↦ some (
              (
                service.uid,
                protocol ++ (codes "://" ++ (service.cluster_ip ++ b':' ∷ itoa port.port)),
              )
              ∷ [])
          | some (s ∷ ss) ↦ some (subset_servers protocol port (s ∷ ss))
        ]))

  -- The loop over the ports of a service, which ends at the first port of the ingress that has
  -- endpoints; a port 443 changes the protocol for those behind it too.
  unfoldable pub service_servers :
      Service → IngressPort → Str → List ServicePort → Result KubernetesError (List (Str × Str))
  service_servers service wanted protocol [] = ok []
  service_servers service wanted protocol (port ∷ ports) =
      let protocol' = if int_eq port.port (pos 443) then codes "https" else protocol in
      let rest = service_servers service wanted protocol ports in
      let rest' = service_servers service wanted protocol' ports in
      if not (equal_ports port wanted)
      then rest
      else and_next (port_servers protocol' service port)
          (λ found. elim found [ none ↦ rest' | some ss ↦ ok ss ])

  -- The backend and the frontend of a path are made, where they are not there.
  unfoldable pub with_path_backend : Str → Templates → Templates
  with_path_backend key s = record s { backends = insert_new key new_backend s.backends }

  -- The value of the annotation, and else that of the provider.
  unfoldable pub pass_host_header : Bool → Dict Str → Bool
  pass_host_header disabled annotations =
      let value = annotation (codes "traefik.frontend.passHostHeader") annotations in
      if str_eq value (codes "true")
      then true
      else if str_eq value (codes "false")
      then false
      else not disabled

  unfoldable pub with_frontend :
      Bool → Ingress → Str → Str → Templates → Result KubernetesError Templates
  with_frontend disabled i key path s =
      if has_key key s.frontends
      then ok s
      else and_next (handle_basic_auth_config i) (λ creds.
        let f : Frontend = record {
          entry_points = [];
          backend = key;
          routes = [];
          pass_host_header = pass_host_header disabled i.annotations;
          priority = pos (byte_length path);
          basic_auth = creds;
        } in
        ok (record s { frontends = insert key f s.frontends }))

  -- The routes of the host and of the path.
  unfoldable pub add_rules : Dict Str → Str → Str → Frontend → Frontend
  add_rules annotations host path f =
      let with_host : Dict Route =
        if is_empty host
        then f.routes
        else insert_new host (record { rule = host_rule host }) f.routes in
      let with_path : Dict Route =
        if is_empty path
        then with_host
        else insert path (record { rule = path_rule annotations path }) with_host in
      record f { routes = with_path }

  unfoldable pub with_rules : Dict Str → Str → Str → Str → Templates → Templates
  with_rules annotations key host path s = record s {
    frontends = update key (add_rules annotations host path) s.frontends;
  }

  -- The backend gets what the service says of it, and its servers. A service that is not there takes
  -- the frontend away.
  unfoldable pub with_service :
      Str → IngressPath → Option Service → Templates → Result KubernetesError Templates
  with_service key pa none s = ok (record s { frontends = delete key s.frontends })
  with_service key pa (some service) s =
      and_next (service_servers service pa.service_port (codes "http") service.ports) (λ servers.
        ok (record s {
          backends =
              update key
                (λ b. record (annotate service.annotations b) {
                  servers = add_subset_servers servers (annotate service.annotations b).servers;
                })
                s.backends;
        }))

  unfoldable pub realm_ok : Dict Str → Bool
  realm_ok annotations =
      let realm = annotation (codes "ingress.kubernetes.io/auth-realm") annotations in
      is_empty realm || str_eq realm (codes "traefik")

  -- The body of the loop over the paths of a rule.
  unfoldable pub load_path :
      Bool → Ingress → Str → IngressPath → Templates → Result KubernetesError Templates
  load_path disabled i host pa s =
      let key = host ++ pa.path in
      if not (realm_ok i.annotations)
      then err realm_customized
      else and_next (with_frontend disabled i key pa.path (with_path_backend key s)) (λ s₂.
        and_next (map_err api_error (get_service i.namespace pa.service_name))
          (λ service. with_service key pa service (with_rules i.annotations key host pa.path s₂)))

  unfoldable pub load_rule :
      Bool → Ingress → IngressRule → Templates → Result KubernetesError Templates
  load_rule disabled i r s = elim r.http [
    | none ↦ ok s
    | some paths ↦ fold_ok (load_path disabled i r.host) paths s
  ]

  unfoldable pub load_ingress : Bool → Ingress → Templates → Result KubernetesError Templates
  load_ingress disabled i s =
      if should_process_ingress (annotation (codes "kubernetes.io/ingress.class") i.annotations)
      then fold_ok (load_rule disabled i) i.rules s
      else ok s

  -- loadIngresses, for the ingresses of the namespaces; `disabled` is DisablePassHostHeaders.
  unfoldable pub load_ingresses : Bool → List Ingress → Result KubernetesError Templates
  load_ingresses disabled ingresses =
      fold_ok (load_ingress disabled) ingresses (record { backends = []; frontends = [] })
