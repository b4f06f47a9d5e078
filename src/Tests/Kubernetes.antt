-- ===== src/Tests/Kubernetes.antt =====
-- Ingresses of Kubernetes.
use traefik.Prelude.{
  false, none, some, List, [], ◌∷◌, Str, codes, str_eq, lookup, ℤ, pos, Result, ok, err, ◌≡◌, refl,
}
use traefik.Provider.Kubernetes.{
  Ingress, Client, Service, Templates, KubernetesError, should_process_ingress, equal_ports,
}
use traefik.Provider.Kubernetes.Ingresses.{
  load_ingresses, load_ingress, load_rule, load_path, realm_ok, with_frontend, with_path_backend,
  handle_basic_auth_config, with_service, service_servers, port_servers,
}
use traefik.Provider.Kubernetes.Consistent.{IsConsistent, load_ingresses-IsConsistent}

abbrev api : Service
api = record {
  namespace = codes "default";
  name = codes "api";
  uid = codes "1";
  annotations = [];
  service_type = [];
  external_name = [];
  cluster_ip = codes "10.0.0.1";
  ports = record { name = []; port = pos 80 } ∷ [];
}

abbrev one_service : Client
one_service = record {
  get_service = λ namespace name. ok (some api);
  get_endpoints = λ namespace name. ok (some []);
  get_secret = λ namespace name. ok none;
}

abbrev one_line : Str → List Str
one_line s = s ∷ []

abbrev one : ℤ → Str
one n = codes "1"

abbrev ingress : Ingress
ingress = record {
  namespace = codes "default";
  annotations = [];
  rules =
      record {
        host = codes "foo.com";
        http = some (
            record {
              path = codes "/api";
              service_name = codes "api";
              service_port = record { int_value = pos 80; text = [] };
            }
            ∷ []);
      }
      ∷ [];
}

abbrev made_of : Result KubernetesError Templates → Templates
made_of (ok made_templates) = made_templates
made_of (err e) = record { backends = []; frontends = [] }

abbrev made_templates : Templates
made_templates = made_of (load_ingresses one_service one_line one false (ingress ∷ []))

runs : load_ingresses one_service one_line one false (ingress ∷ []) ≡ ok made_templates
unfolding load_ingresses load_ingress should_process_ingress lookup load_rule load_path realm_ok
    with_frontend with_path_backend handle_basic_auth_config with_service service_servers
    equal_ports port_servers str_eq
runs = refl

load_ingresses-IsConsistent_example : IsConsistent made_templates
load_ingresses-IsConsistent_example =
    load_ingresses-IsConsistent one_service one_line one false (ingress ∷ []) made_templates runs
