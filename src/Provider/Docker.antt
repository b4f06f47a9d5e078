-- ===== src/Provider/Docker.antt =====
-- provider/docker/docker.go: what the provider reads of the labels and the networks of a container.
pub mod Services
pub mod Listing
pub mod Swarm
pub mod Addresses
pub mod Groups
use traefik.Prelude.{
  ℕ, zero, suc, ◌+◌, ◌==◌, ◌≤◌, Bool, true, false, not, ◌&&◌, ◌||◌, Option, none, some, List, [],
  ◌∷◌, ◌++◌, map, Str, codes, str_eq, Dict, lookup, is_empty, is_some, if◌then◌else◌, ℤ, pos,
}
use mathlib.Core.Option.{get_or}
use traefik.Text.{split, trim_prefix}
use traefik.Types.Constraint.{Constraint}
use traefik.Provider.{replace, match_constraints, normalize}

-- The fields of Provider that the configuration depends on.
pub record Provider : Type 0 where
  pub domain : Str
  pub exposed_by_default : Bool
  pub use_bind_port_ip : Bool
  pub constraints : List Constraint

pub record NetworkData : Type 0 where
  pub name : Str
  pub addr : Str
  pub id : Str

-- The ports of a container with the addresses to which each is bound, and its networks. Go takes the
-- entries of a map in any order; here it is that of the list.
pub record NetworkSettings : Type 0 where
  pub network_mode : Str
  pub ports : List (Str × List Str)
  pub networks : Dict NetworkData

pub record DockerData : Type 0 where
  pub service_name : Str
  pub name : Str
  pub labels : Dict Str
  pub network_settings : NetworkSettings
  pub health : Str

-- getLabel, whose only error says that there is none.
unfoldable pub get_label : DockerData → Str → Option Str
get_label container label = lookup label container.labels

-- What getLabel gives, or else a default.
abbrev pub label_or : Str → DockerData → Str → Str
label_or default container label = get_or (get_label container label) default

-- `container.Labels[label]`
abbrev pub label_of : DockerData → Str → Str
label_of container label = label_or [] container label

-- getLabels of the project and the service of Docker Compose: the service, then the project.
unfoldable pub compose_labels : DockerData → Option (Str × Str)
compose_labels container = elim (get_label container (codes "com.docker.compose.project")) [
  | none ↦ none
  | some project ↦ elim (get_label container (codes "com.docker.compose.service")) [
    | none ↦ none
    | some service ↦ some (service, project)
  ]
]

unfoldable pub has_circuit_breaker_label : DockerData → Bool
has_circuit_breaker_label container =
    is_some (get_label container (codes "traefik.backend.circuitbreaker.expression"))

unfoldable pub has_load_balancer_label : DockerData → Bool
has_load_balancer_label container =
    is_some (get_label container (codes "traefik.backend.loadbalancer.method"))
    || is_some (get_label container (codes "traefik.backend.loadbalancer.sticky"))

unfoldable pub has_max_conn_labels : DockerData → Bool
has_max_conn_labels container =
    is_some (get_label container (codes "traefik.backend.maxconn.amount"))
    && is_some (get_label container (codes "traefik.backend.maxconn.extractorfunc"))

unfoldable pub get_circuit_breaker_expression : DockerData → Str
get_circuit_breaker_expression container =
    label_or (codes "NetworkErrorRatio() > 1") container
      (codes "traefik.backend.circuitbreaker.expression")

unfoldable pub get_load_balancer_method : DockerData → Str
get_load_balancer_method container =
    label_or (codes "wrr") container (codes "traefik.backend.loadbalancer.method")

-- `math.MaxInt64`
abbrev pub max_int64 : ℤ
max_int64 = pos 9223372036854775807

-- `parse_int` is strconv.ParseInt of 64 bits to the base 10.
unfoldable pub get_max_conn_amount : (Str → Option ℤ) → DockerData → ℤ
get_max_conn_amount parse_int container =
    elim (get_label container (codes "traefik.backend.maxconn.amount")) [
      | none ↦ max_int64
      | some label ↦ get_or (parse_int label) max_int64
    ]

unfoldable pub get_max_conn_extractor_func : DockerData → Str
get_max_conn_extractor_func container =
    label_or (codes "request.host") container (codes "traefik.backend.maxconn.extractorfunc")

unfoldable pub get_weight : DockerData → Str
get_weight container = label_or (codes "0") container (codes "traefik.weight")

unfoldable pub get_sticky : DockerData → Str
get_sticky container =
    label_or (codes "false") container (codes "traefik.backend.loadbalancer.sticky")

unfoldable pub get_is_backend_lb_swarm : DockerData → Str
get_is_backend_lb_swarm container =
    label_or (codes "false") container (codes "traefik.backend.loadbalancer.swarm")

unfoldable pub get_domain : Provider → DockerData → Str
get_domain p container = label_or p.domain container (codes "traefik.domain")

unfoldable pub get_protocol : DockerData → Str
get_protocol container = label_or (codes "http") container (codes "traefik.protocol")

unfoldable pub get_pass_host_header : DockerData → Str
get_pass_host_header container =
    label_or (codes "true") container (codes "traefik.frontend.passHostHeader")

unfoldable pub get_priority : DockerData → Str
get_priority container = label_or (codes "0") container (codes "traefik.frontend.priority")

-- The texts between the commas of a label, none where there is no label.
abbrev pub listed : DockerData → Str → List Str
listed container label = elim (get_label container label) [ none ↦ [] | some t ↦ split b',' t ]

unfoldable pub get_entry_points : DockerData → List Str
get_entry_points container = listed container (codes "traefik.frontend.entryPoints")

unfoldable pub get_basic_auth : DockerData → List Str
get_basic_auth container = listed container (codes "traefik.frontend.auth.basic")

unfoldable pub is_container_enabled : DockerData → Bool → Bool
is_container_enabled container exposed_by_default =
    exposed_by_default && not (str_eq (label_of container (codes "traefik.enable")) (codes "false"))
    || str_eq (label_of container (codes "traefik.enable")) (codes "true")

unfoldable pub get_sub_domain : Str → Str
get_sub_domain name = replace b'_' b'-' (replace b'/' b'-' (trim_prefix name (codes "/")))

unfoldable pub get_frontend_rule : Provider → DockerData → Str
get_frontend_rule p container = elim (get_label container (codes "traefik.frontend.rule")) [
  | some label ↦ label
  | none ↦ elim (compose_labels container) [
    | some (service, project) ↦
        codes "Host:" ++ get_sub_domain (service ++ codes "." ++ project) ++ codes "." ++ p.domain
    | none ↦ codes "Host:" ++ get_sub_domain container.service_name ++ codes "." ++ p.domain
  ]
]

-- Normalize is over the classes of the package unicode.
module _ (is_letter is_number : ℕ → Bool) where
  unfoldable pub get_frontend_name : Provider → DockerData → Str
  get_frontend_name p container = normalize is_letter is_number (get_frontend_rule p container)

  unfoldable pub get_backend : DockerData → Str
  get_backend container = elim (get_label container (codes "traefik.backend")) [
    | some label ↦ normalize is_letter is_number label
    | none ↦ elim (compose_labels container) [
      | some (service, project) ↦ normalize is_letter is_number (service ++ codes "_" ++ project)
      | none ↦ normalize is_letter is_number container.service_name
    ]
  ]

-- `sort_ports` is nat.Sort of ports, by their numbers, and `port_text` is Port of one.
module _ (sort_ports : List Str → List Str) (port_text : Str → Str) where
  unfoldable pub get_port : DockerData → Str
  get_port container = elim (get_label container (codes "traefik.port")) [
    | some label ↦ label
    | none ↦ elim (sort_ports (map (λ e. e.0) container.network_settings.ports)) [
      | [] ↦ []
      | first ∷ _ ↦ port_text first
    ]
  ]

  -- The loops over the ports and their bindings: the address of the first binding of a port that is
  -- bound.
  unfoldable pub bound_ip : Str → List (Str × List Str) → Option Str
  bound_ip port [] = none
  bound_ip port ((net_port, bindings) ∷ rest) =
      let later = bound_ip port rest in
      if str_eq net_port (port ++ codes "/TCP") || str_eq net_port (port ++ codes "/UDP")
      then elim bindings [ [] ↦ later | ip ∷ _ ↦ some ip ]
      else later

  -- The address in the network that a label names, if it does and there is that network.
  unfoldable pub labelled_ip : DockerData → Option Str
  labelled_ip container = elim (get_label container (codes "traefik.docker.network")) [
    | none ↦ none
    | some label ↦
        if is_empty label then none else elim (lookup label container.network_settings.networks) [
          | none ↦ none
          | some network ↦ some network.addr
        ]
  ]

  -- `for _, network := range ...`: the address in the first network.
  unfoldable pub first_ip : Dict NetworkData → Str
  first_ip [] = []
  first_ip ((_, network) ∷ _) = network.addr

  unfoldable pub get_ip_address : Provider → DockerData → Str
  get_ip_address p container = elim (labelled_ip container) [
    | some addr ↦ addr
    | none ↦
        if str_eq container.network_settings.network_mode (codes "host")
        then codes "127.0.0.1"
        else get_or
            (if p.use_bind_port_ip
              then bound_ip (get_port container) container.network_settings.ports
              else none)
            (first_ip container.network_settings.networks)
  ]

-- `glob` is the matcher of constraints, and `is_int` says what strconv.Atoi reads.
module _ (glob : Str → Str → Bool) (is_int : Str → Bool) where
  unfoldable pub container_filter : Provider → DockerData → Bool
  container_filter p container =
      if is_empty container.network_settings.ports
        && not (is_int (label_of container (codes "traefik.port")))
      then false
      else if not (is_container_enabled container p.exposed_by_default)
      then false
      else if not
          (match_constraints glob p.constraints
            (split b',' (label_of container (codes "traefik.tags")))).0
      then false
      else is_empty container.health || str_eq container.health (codes "healthy")
