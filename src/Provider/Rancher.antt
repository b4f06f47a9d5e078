-- ===== src/Provider/Rancher.antt =====
-- provider/rancher/rancher.go: the labels of services, the filters of services and containers, and
-- what the template gets.
pub mod Stacks
use traefik.Prelude.{
  ℕ, ◌==◌, Bool, true, false, not, ◌&&◌, ◌||◌, Option, none, some, List, [], ◌∷◌, ◌++◌, map, Str,
  codes, str_eq, Dict, lookup, insert, is_empty, is_some, keep, any, if◌then◌else◌, ℤ, pos,
}
use mathlib.Core.Option.{get_or}
use traefik.Text.{split, to_lower}
use traefik.Types.Constraint.{Constraint}
use traefik.Provider.{replace, match_constraints, normalize}

-- The fields of Provider that the configuration depends on.
pub record Provider : Type 0 where
  pub exposed_by_default : Bool
  pub domain : Str
  pub enable_service_health_filter : Bool
  pub constraints : List Constraint

pub record RancherData : Type 0 where
  pub name : Str
  pub labels : Dict Str
  pub containers : List Str
  pub health : Str
  pub state : Str

-- getServiceLabel, whose only error says that there is none.
unfoldable pub get_service_label : RancherData → Str → Option Str
get_service_label service label = lookup label service.labels

abbrev pub label_or : Str → RancherData → Str → Str
label_or default service label = get_or (get_service_label service label) default

unfoldable pub get_pass_host_header : RancherData → Str
get_pass_host_header service =
    label_or (codes "true") service (codes "traefik.frontend.passHostHeader")

unfoldable pub get_priority : RancherData → Str
get_priority service = label_or (codes "0") service (codes "traefik.frontend.priority")

-- The texts between the commas of a label, none where there is no label.
abbrev pub listed : RancherData → Str → List Str
listed service label = elim (get_service_label service label) [ none ↦ [] | some t ↦ split b',' t ]

unfoldable pub get_entry_points : RancherData → List Str
get_entry_points service = listed service (codes "traefik.frontend.entryPoints")

unfoldable pub get_basic_auth : RancherData → List Str
get_basic_auth service = listed service (codes "traefik.frontend.auth.basic")

unfoldable pub get_frontend_rule : Provider → RancherData → Str
get_frontend_rule p service =
    get_or (get_service_label service (codes "traefik.frontend.rule"))
      (codes "Host:" ++ to_lower (replace b'/' b'.' service.name) ++ codes "." ++ p.domain)

unfoldable pub get_load_balancer_method : RancherData → Str
get_load_balancer_method service =
    label_or (codes "wrr") service (codes "traefik.backend.loadbalancer.method")

unfoldable pub has_load_balancer_label : RancherData → Bool
has_load_balancer_label service =
    is_some (get_service_label service (codes "traefik.backend.loadbalancer.method"))
    || is_some (get_service_label service (codes "traefik.backend.loadbalancer.sticky"))

unfoldable pub has_circuit_breaker_label : RancherData → Bool
has_circuit_breaker_label service =
    is_some (get_service_label service (codes "traefik.backend.circuitbreaker.expression"))

unfoldable pub get_circuit_breaker_expression : RancherData → Str
get_circuit_breaker_expression service =
    label_or (codes "NetworkErrorRatio() > 1") service
      (codes "traefik.backend.circuitbreaker.expression")

unfoldable pub get_sticky : RancherData → Str
get_sticky service =
    elim (get_service_label service (codes "traefik.backend.loadbalancer.sticky")) [
      | some _ ↦ codes "true"
      | none ↦ codes "false"
    ]

unfoldable pub get_port : RancherData → Str
get_port service = label_or [] service (codes "traefik.port")

unfoldable pub get_protocol : RancherData → Str
get_protocol service = label_or (codes "http") service (codes "traefik.protocol")

unfoldable pub get_weight : RancherData → Str
get_weight service = label_or (codes "0") service (codes "traefik.weight")

unfoldable pub get_domain : Provider → RancherData → Str
get_domain p service = label_or p.domain service (codes "traefik.domain")

unfoldable pub has_max_conn_labels : RancherData → Bool
has_max_conn_labels service =
    is_some (get_service_label service (codes "traefik.backend.maxconn.amount"))
    && is_some (get_service_label service (codes "traefik.backend.maxconn.extractorfunc"))

-- `parse_int` is strconv.ParseInt of 64 bits to the base 10.
unfoldable pub get_max_conn_amount : (Str → Option ℤ) → RancherData → ℤ
get_max_conn_amount parse_int service =
    elim (get_service_label service (codes "traefik.backend.maxconn.amount")) [
      | none ↦ pos 9223372036854775807
      | some label ↦ get_or (parse_int label) (pos 9223372036854775807)
    ]

unfoldable pub get_max_conn_extractor_func : RancherData → Str
get_max_conn_extractor_func service =
    label_or (codes "request.host") service (codes "traefik.backend.maxconn.extractorfunc")

-- The value is one of these texts, or empty.
abbrev pub is_one_of : List Str → Str → Bool
is_one_of allowed value = is_empty value || any (λ a. str_eq value a) allowed

-- rancher.Container, as far as it is read.
pub record Container : Type 0 where
  pub labels : Dict Str
  pub health_state : Str
  pub state : Str
  pub primary_ip_address : Str

unfoldable pub container_filter : Container → Bool
container_filter container =
    is_one_of (codes "healthy" ∷ codes "updating-healthy" ∷ []) container.health_state
    && is_one_of (codes "running" ∷ codes "updating-running" ∷ []) container.state

unfoldable pub is_service_enabled : RancherData → Bool → Bool
is_service_enabled service exposed_by_default =
    let v = label_or [] service (codes "traefik.enable") in
    if not (is_empty v)
    then exposed_by_default && not (str_eq v (codes "false")) || str_eq v (codes "true")
    else exposed_by_default

-- The health and the state of a service, where they count.
abbrev pub is_healthy : Provider → RancherData → Bool
is_healthy p service =
    not p.enable_service_health_filter
    || (is_one_of (codes "healthy" ∷ codes "updating-healthy" ∷ []) service.health
        && is_one_of (codes "active" ∷ codes "updating-active" ∷ codes "upgraded" ∷ [])
            service.state)

-- `glob` is the matcher of constraints.
unfoldable pub service_filter : (Str → Str → Bool) → Provider → RancherData → Bool
service_filter glob p service =
    if is_empty (label_or [] service (codes "traefik.port"))
    then false
    else if not (is_service_enabled service p.exposed_by_default)
    then false
    else if not
        (match_constraints glob p.constraints
          (split b',' (label_or [] service (codes "traefik.tags")))).0
    then false
    else is_healthy p service

-- An environment, which is a stack, and a service of one; the labels of its launch configuration are
-- texts, and there are none where that is a nil pointer.
pub record Environment : Type 0 where
  pub id : Str
  pub name : Str

pub record Service : Type 0 where
  pub environment_id : Str
  pub name : Str
  pub health_state : Str
  pub state : Str
  pub launch_labels : Option (Dict Str)

-- The containers of a service, by the name of their stack and service.
abbrev pub addresses_of : Str → List Container → List Str
addresses_of name containers =
    map (λ c. c.primary_ip_address)
      (keep
        (λ c.
          str_eq (get_or (lookup (codes "io.rancher.stack_service.name") c.labels) []) name
          && container_filter c)
        containers)

-- A service of an environment; `none` where its launch configuration is a nil pointer.
unfoldable pub parse_service : Environment → List Container → Service → Option RancherData
parse_service environment containers service = elim service.launch_labels [
  | none ↦ none
  | some labels ↦
      let name = environment.name ++ codes "/" ++ service.name in
      some (record {
        name = name;
        labels = labels;
        containers = addresses_of name containers;
        health = service.health_state;
        state = service.state;
      })
]

-- The loop over the services for one environment.
unfoldable pub parse_services :
    Environment → List Container → List Service → Option (List RancherData)
parse_services environment containers [] = some []
parse_services environment containers (s ∷ services) =
    let later = parse_services environment containers services in
    if not (str_eq s.environment_id environment.id)
    then later
    else elim (parse_service environment containers s) [
      | none ↦ none
      | some found ↦ elim later [ none ↦ none | some rest ↦ some (found ∷ rest) ]
    ]

-- parseRancherData
unfoldable pub parse_rancher_data :
    List Environment → List Service → List Container → Option (List RancherData)
parse_rancher_data [] services containers = some []
parse_rancher_data (e ∷ environments) services containers =
    let later = parse_rancher_data environments services containers in
    elim (parse_services e containers services) [
      | none ↦ none
      | some here ↦ elim later [ none ↦ none | some rest ↦ some (here ++ rest) ]
    ]

-- What the template of loadRancherConfig gets.
pub record TemplateObjects : Type 0 where
  pub frontends : Dict RancherData
  pub backends : Dict RancherData
  pub domain : Str

-- Normalize is over the classes of the package unicode.
module _ (is_letter is_number : ℕ → Bool) where
  unfoldable pub get_frontend_name : Provider → RancherData → Str
  get_frontend_name p service = normalize is_letter is_number (get_frontend_rule p service)

  unfoldable pub get_backend : RancherData → Str
  get_backend service =
      normalize is_letter is_number
        (get_or (get_service_label service (codes "traefik.backend")) service.name)

  -- The loop over the services that pass the filter.
  unfoldable pub group : Provider → List RancherData → TemplateObjects → TemplateObjects
  group p [] t = t
  group p (service ∷ rest) t = group p rest (record t {
    frontends = insert (get_frontend_name p service) service t.frontends;
    backends = insert (get_backend service) service t.backends;
  })

  -- loadRancherConfig, up to the template.
  unfoldable pub template_objects :
      (Str → Str → Bool) → Provider → List RancherData → TemplateObjects
  template_objects glob p services =
      group p (keep (service_filter glob p) services)
        (record { frontends = []; backends = []; domain = p.domain })
