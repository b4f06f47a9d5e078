-- ===== src/Provider/Kubernetes.antt =====
-- provider/kubernetes/kubernetes.go: the configuration that the ingresses of a cluster give.
pub mod Ingresses
pub mod Consistent
use traefik.Prelude.{
  ℕ, ◌==◌, Bool, true, false, not, ◌&&◌, ◌||◌, Option, none, some, List, [], ◌∷◌, ◌++◌, Str, codes,
  str_eq, Dict, lookup, insert, delete, update, has_key, is_empty, if◌then◌else◌, ℤ, pos, int_eq,
  Result, ok, err, and_next, fold_ok,
}
use mathlib.Core.Option
use mathlib.Core.Option.{get_or}
use traefik.Text.{to_lower, cut, byte_length, contains}
use traefik.Types.{Server, Backend, Frontend, Route, LoadBalancer, CircuitBreaker}

-- The objects of the API, as far as they are read. A port of an ingress is a number or a name; it is
-- given by IntValue and String of the package intstr.
pub record IngressPort : Type 0 where
  pub int_value : ℤ
  pub text : Str

pub record IngressPath : Type 0 where
  pub path : Str
  pub service_name : Str
  pub service_port : IngressPort

pub record IngressRule : Type 0 where
  pub host : Str
  pub http : Option (List IngressPath)

pub record Ingress : Type 0 where
  pub namespace : Str
  pub annotations : Dict Str
  pub rules : List IngressRule

pub record ServicePort : Type 0 where
  pub name : Str
  pub port : ℤ

pub record Service : Type 0 where
  pub namespace : Str
  pub name : Str
  pub uid : Str
  pub annotations : Dict Str
  pub service_type : Str
  pub external_name : Str
  pub cluster_ip : Str
  pub ports : List ServicePort

pub record Address : Type 0 where
  pub ip : Str
  pub target_ref : Option Str

pub record Subset : Type 0 where
  pub addresses : List Address
  pub ports : List ServicePort

-- The client of the API: an object, whether there is one, or the error of the request.
pub record Client : Type 0 where
  pub get_service : Str → Str → Result Str (Option Service)
  pub get_endpoints : Str → Str → Result Str (Option (List Subset))
  pub get_secret : Str → Str → Result Str (Option (Option (Dict Str)))

pub data KubernetesError : Type 0 where
  realm_customized unsupported_auth_type no_auth_secret no_credentials secret_not_found nil_secret
        secret_not_single :
      KubernetesError
  api_error : Str → KubernetesError

-- `m[k]` of a map of texts
abbrev pub annotation : Str → Dict Str → Str
annotation k m = get_or (lookup k m) []

-- shouldProcessIngress
unfoldable pub should_process_ingress : Str → Bool
should_process_ingress ingress_class =
    is_empty ingress_class || str_eq ingress_class (codes "traefik")

abbrev pub rule_types : List Str
rule_types = codes "PathPrefixStrip" ∷ codes "PathStrip" ∷ codes "Path" ∷ codes "PathPrefix" ∷ []

abbrev pub find_rule_type : List Str → Str → Option Str
find_rule_type [] rule_type = none
find_rule_type (known ∷ ks) rule_type =
    if str_eq (to_lower rule_type) (to_lower known) then some known else find_rule_type ks rule_type

-- getRuleTypeFromAnnotation
unfoldable pub get_rule_type_from_annotation : Dict Str → Str × Bool
get_rule_type_from_annotation annotations =
    let rule_type = annotation (codes "traefik.frontend.rule.type") annotations in
    elim (find_rule_type rule_types rule_type) [
      | some known ↦ (known, false)
      | none ↦ (rule_type, not (is_empty rule_type))
    ]

-- equalPorts
unfoldable pub equal_ports : ServicePort → IngressPort → Bool
equal_ports service_port ingress_port =
    int_eq service_port.port ingress_port.int_value
    || (not (is_empty service_port.name) && str_eq service_port.name ingress_port.text)

-- The loop of endpointPortNumber: the last port of the name, if there is one.
abbrev pub last_named : Str → List ServicePort → ServicePort → ServicePort
last_named name [] port = port
last_named name (p ∷ ps) port =
    let rest = last_named name ps in rest (if str_eq name p.name then p else port)

-- endpointPortNumber
unfoldable pub endpoint_port_number : ServicePort → List ServicePort → ℤ
endpoint_port_number service_port [] = service_port.port
endpoint_port_number service_port (p ∷ ps) = (last_named service_port.name (p ∷ ps) p).port

-- The first `*` of a host becomes a variable of an expression.
abbrev pub with_subdomain : Str → Str
with_subdomain host = elim (cut (codes "*") host) [
  | none ↦ host
  | some (before, after) ↦ before ++ (codes "{subdomain:[A-Za-z0-9-_]+}" ++ after)
]

-- The rule for a host.
unfoldable pub host_rule : Str → Str
host_rule host =
    if contains host (codes "*")
    then codes "HostRegexp:" ++ with_subdomain host
    else codes "Host:" ++ host

-- The rule for a path.
unfoldable pub path_rule : Dict Str → Str → Str
path_rule annotations path =
    let (rule_type, unknown) = get_rule_type_from_annotation annotations in
    (if unknown || is_empty rule_type then codes "PathPrefix" else rule_type) ++ b':' ∷ path

-- The part of the configuration that loadIngresses fills.
pub record Templates : Type 0 where
  pub backends : Dict Backend
  pub frontends : Dict Frontend

abbrev pub new_backend : Backend
new_backend = record {
  servers = [];
  circuit_breaker = none;
  load_balancer = some (record { method = codes "wrr"; sticky = false });
  max_conn = none;
  health_check = none;
}

-- A key that is there keeps its value.
abbrev pub insert_new {ℓ} : {V : Type ℓ} → Str → V → Dict V → Dict V
insert_new k v m = if has_key k m then m else insert k v m

abbrev pub on_balancer : (LoadBalancer → LoadBalancer) → Backend → Backend
on_balancer f b = record b { load_balancer = Option.map f b.load_balancer }

unfoldable pub set_breaker : Dict Str → Backend → Backend
set_breaker annotations b =
    let expression = annotation (codes "traefik.backend.circuitbreaker") annotations in
    if is_empty expression
    then b
    else record b { circuit_breaker = some (record { expression = expression }) }

unfoldable pub set_method : Dict Str → Backend → Backend
set_method annotations b =
    if str_eq (annotation (codes "traefik.backend.loadbalancer.method") annotations) (codes "drr")
    then on_balancer (λ lb. record lb { method = codes "drr" }) b
    else b

unfoldable pub set_sticky : Dict Str → Backend → Backend
set_sticky annotations b =
    if str_eq (annotation (codes "traefik.backend.loadbalancer.sticky") annotations) (codes "true")
    then on_balancer (λ lb. record lb { sticky = true }) b
    else b

-- What the annotations of a service say of its backend.
unfoldable pub annotate : Dict Str → Backend → Backend
annotate annotations b = set_sticky annotations (set_method annotations (set_breaker annotations b))

abbrev pub server_at : Str → Server
server_at url = record { url = url; weight = pos 1 }

-- The servers go into the map of a backend, in order.
unfoldable pub add_subset_servers : List (Str × Str) → Dict Server → Dict Server
add_subset_servers [] m = m
add_subset_servers ((name, url) ∷ ss) m = add_subset_servers ss (insert name (server_at url) m)
