-- ===== src/Provider/Marathon.antt =====
-- provider/marathon/marathon.go: the labels of applications, and the ports of their tasks.
pub mod Tasks
pub mod Filtering
pub mod Bounds
pub mod Served
use traefik.Prelude.{
  ℕ, zero, suc, ◌==◌, Bool, true, false, not, ◌&&◌, ◌||◌, Option, none, some, List, [], ◌∷◌, ◌++◌,
  map, length, Str, codes, str_eq, Dict, lookup, is_empty, is_some, if◌then◌else◌, ltb, ℤ, pos,
  negsuc, is_positive, get_elem?,
}
use mathlib.Core.Option
use mathlib.Core.Option.{get_or}
use traefik.Text.{split, join, trim_prefix}
use traefik.Types.Constraint.{Constraint}
use traefik.Provider.{replace, reverse_string_slice}

-- The fields of Provider that the configuration depends on.
pub record Provider : Type 0 where
  pub domain : Str
  pub exposed_by_default : Bool
  pub groups_as_sub_domains : Bool
  pub marathon_lb_compatibility : Bool
  pub force_task_hostname : Bool
  pub constraints : List Constraint

-- marathon.Application, as far as it is read. `none` is a nil pointer: to the labels, to the entry of
-- an address for each task, to the discovery of that entry, and to the ports of that discovery.
pub record Application : Type 0 where
  pub id : Str
  pub labels : Option (Dict Str)
  pub port_definitions : List (Option ℤ)
  pub ip_address_per_task : Option (Option (Option (List ℤ)))
  pub has_health_checks : Bool

-- marathon.Task; its results of health checks say whether it was alive. No pointer in its lists of
-- addresses and results is nil.
pub record Task : Type 0 where
  pub id : Str
  pub app_id : Str
  pub host : Str
  pub ports : List ℤ
  pub ip_addresses : List Str
  pub health_check_results : List Bool

unfoldable pub get_application : Task → List Application → Option Application
get_application task [] = none
get_application task (a ∷ apps) =
    if str_eq a.id task.app_id then some a else get_application task apps

-- The functions below use the labels without asking for nil; their `none` is the panic.

-- getLabel, and `(*application.Labels)[label]`
unfoldable pub get_label : Application → Str → Option (Option Str)
get_label application label = Option.map (lookup label) application.labels

abbrev pub label_or : Str → Application → Str → Option Str
label_or default application label =
    Option.map (λ value. get_or value default) (get_label application label)

unfoldable pub is_application_enabled : Application → Bool → Option Bool
is_application_enabled application exposed_by_default =
    Option.map
      (λ value.
        exposed_by_default && not (str_eq value (codes "false")) || str_eq value (codes "true"))
      (label_or [] application (codes "traefik.enable"))

unfoldable pub get_domain : Provider → Application → Option Str
get_domain p application = label_or p.domain application (codes "traefik.domain")

-- What a label of the application of a task says, or a default, also if there is no application.
abbrev pub task_label : Str → Str → Task → List Application → Option Str
task_label default label task applications = elim (get_application task applications) [
  | none ↦ some default
  | some application ↦ label_or default application label
]

unfoldable pub get_weight : Task → List Application → Option Str
get_weight task applications = task_label (codes "0") (codes "traefik.weight") task applications

unfoldable pub get_protocol : Task → List Application → Option Str
get_protocol task applications =
    task_label (codes "http") (codes "traefik.protocol") task applications

unfoldable pub get_sticky : Application → Option Str
get_sticky application =
    label_or (codes "false") application (codes "traefik.backend.loadbalancer.sticky")

unfoldable pub get_pass_host_header : Application → Option Str
get_pass_host_header application =
    label_or (codes "true") application (codes "traefik.frontend.passHostHeader")

unfoldable pub get_priority : Application → Option Str
get_priority application = label_or (codes "0") application (codes "traefik.frontend.priority")

unfoldable pub get_entry_points : Application → Option (List Str)
get_entry_points application =
    Option.map (λ label. elim label [ none ↦ [] | some entry_points ↦ split b',' entry_points ])
      (get_label application (codes "traefik.frontend.entryPoints"))

unfoldable pub get_sub_domain : Provider → Str → Str
get_sub_domain p name =
    let trimmed = trim_prefix name (codes "/") in
    if p.groups_as_sub_domains
    then join (codes ".") (reverse_string_slice (split b'/' trimmed))
    else replace b'/' b'-' trimmed

-- The label HAPROXY_0_VHOST, where it counts.
abbrev pub virtual_host : Provider → Application → Option (Option Str)
virtual_host p application =
    if p.marathon_lb_compatibility
    then get_label application (codes "HAPROXY_0_VHOST")
    else some none

unfoldable pub get_frontend_rule : Provider → Application → Option Str
get_frontend_rule p application = elim (get_label application (codes "traefik.frontend.rule")) [
  | none ↦ none
  | some (some label) ↦ some label
  | some none ↦
      Option.map
        (λ host. elim host [
          | some label ↦ codes "Host:" ++ label
          | none ↦ codes "Host:" ++ get_sub_domain p application.id ++ codes "." ++ p.domain
        ])
        (virtual_host p application)
]

unfoldable pub get_frontend_backend : Application → Option Str
get_frontend_backend application =
    Option.map
      (λ value. elim value [ some label ↦ label | none ↦ replace b'/' b'-' application.id ])
      (get_label application (codes "traefik.backend"))

unfoldable pub get_backend : Task → List Application → Option Str
get_backend task applications = elim (get_application task applications) [
  | none ↦ some []
  | some application ↦ get_frontend_backend application
]

abbrev pub has_label : Application → Str → Option Bool
has_label application label = Option.map is_some (get_label application label)

unfoldable pub has_circuit_breaker_labels : Application → Option Bool
has_circuit_breaker_labels application =
    has_label application (codes "traefik.backend.circuitbreaker.expression")

unfoldable pub has_load_balancer_labels : Application → Option Bool
has_load_balancer_labels application =
    elim (has_label application (codes "traefik.backend.loadbalancer.method")) [
      | none ↦ none
      | some method ↦
          Option.map (λ sticky. method || sticky)
            (has_label application (codes "traefik.backend.loadbalancer.sticky"))
    ]

unfoldable pub has_max_conn_labels : Application → Option Bool
has_max_conn_labels application =
    elim (has_label application (codes "traefik.backend.maxconn.amount")) [
      | none ↦ none
      | some false ↦ some false
      | some true ↦ has_label application (codes "traefik.backend.maxconn.extractorfunc")
    ]

-- `parse_int` is strconv.ParseInt of 64 bits to the base 10.
unfoldable pub get_max_conn_amount : (Str → Option ℤ) → Application → Option ℤ
get_max_conn_amount parse_int application =
    Option.map
      (λ value. elim value [
        | none ↦ pos 9223372036854775807
        | some label ↦ get_or (parse_int label) (pos 9223372036854775807)
      ])
      (get_label application (codes "traefik.backend.maxconn.amount"))

unfoldable pub get_max_conn_extractor_func : Application → Option Str
get_max_conn_extractor_func application =
    label_or (codes "request.host") application (codes "traefik.backend.maxconn.extractorfunc")

unfoldable pub get_load_balancer_method : Application → Option Str
get_load_balancer_method application =
    label_or (codes "wrr") application (codes "traefik.backend.loadbalancer.method")

unfoldable pub get_circuit_breaker_expression : Application → Option Str
get_circuit_breaker_expression application =
    label_or (codes "NetworkErrorRatio() > 1") application
      (codes "traefik.backend.circuitbreaker.expression")

unfoldable pub get_health_check_path : Application → Option Str
get_health_check_path application =
    label_or [] application (codes "traefik.backend.healthcheck.path")

unfoldable pub has_health_check_labels : Application → Option Bool
has_health_check_labels application =
    Option.map (λ path. not (is_empty path)) (get_health_check_path application)

unfoldable pub get_health_check_interval : Application → Option Str
get_health_check_interval application =
    label_or [] application (codes "traefik.backend.healthcheck.interval")
