-- ===== src/Provider/Marathon/Tasks.antt =====
-- provider/marathon/marathon.go: the ports and addresses of tasks, and which tasks and applications
-- pass the filters.
use traefik.Prelude.{
  ℕ, Bool, false, not, ◌&&◌, ◌||◌, Option, none, some, List, [], ◌∷◌, ◌++◌, length, Str, codes,
  str_eq, is_empty, is_some, any, all, Dict, lookup, if◌then◌else◌, ltb, ℤ, pos, negsuc,
  is_positive, get_elem?,
}
use mathlib.Core.Option
use mathlib.Core.Option.{get_or}
use traefik.Text.{split}
use traefik.Provider.{match_constraints}
use traefik.Provider.Marathon.{
  Provider, Application, Task, get_application, get_label, is_application_enabled,
}

-- What processPorts returns: a port, or an error; or it uses a nil pointer or an index that is out of
-- range.
pub data PortError : Type 0 where
  bad_port_label port_not_positive no_port bad_index : PortError

pub data Ports : Type 0 where
  found : ℤ → Ports
  failed : PortError → Ports
  panicked : Ports

-- The numbers of the port definitions that have one.
abbrev pub defined_ports : List (Option ℤ) → List ℤ
defined_ports [] = []
defined_ports (none ∷ rest) = defined_ports rest
defined_ports (some n ∷ rest) = n ∷ defined_ports rest

-- The ports of the discovery of an application with an address for each task; `none` if it panics, at
-- a discovery or at ports that are nil.
abbrev pub discovered : Option (Option (Option (List ℤ))) → Option (List ℤ)
discovered none = some []
discovered (some none) = none
discovered (some (some none)) = none
discovered (some (some (some ports))) = some ports

-- `none` in a panic.
unfoldable pub retrieve_available_ports : Application → Task → Option (List ℤ)
retrieve_available_ports application task =
    if not (is_empty task.ports)
    then some task.ports
    else if not (is_empty application.port_definitions)
    then some (defined_ports application.port_definitions)
    else discovered application.ip_address_per_task

-- fun.Filter with a test that may panic: `none`.
unfoldable pub filter_all {ℓ} : {A : Type ℓ} → (A → Option Bool) → List A → Option (List A)
filter_all test [] = some []
filter_all test (x ∷ xs) =
    let later = filter_all test xs in
    elim (test x) [
      | none ↦ none
      | some passes ↦ elim later [
        | none ↦ none
        | some rest ↦ some (if passes then x ∷ rest else rest)
      ]
    ]

-- The tags of an application that constraints are matched with.
abbrev pub constraint_tags : Provider → Dict Str → List Str
constraint_tags p labels =
    let tags = split b',' (get_or (lookup (codes "traefik.tags") labels) []) in
    elim (if p.marathon_lb_compatibility then lookup (codes "HAPROXY_GROUP") labels else none) [
      | none ↦ tags
      | some label ↦ tags ++ label ∷ []
    ]

-- `atoi` is strconv.Atoi.
module _ (atoi : Str → Option ℤ) where
  -- The index, if it can be read and is within the length.
  unfoldable pub parse_index : Str → ℕ → Option ℕ
  parse_index index len = elim (atoi index) [
    | none ↦ none
    | some parsed ↦ elim parsed [ pos n ↦ if ltb n len then some n else none | negsuc n ↦ none ]
  ]

  abbrev pub port_at : List ℤ → ℕ → Ports
  port_at ports i = elim (get_elem? ports i) [ none ↦ panicked | some port ↦ found port ]

  -- The port that the label of an index selects, or the first.
  unfoldable pub select_port : Option Str → List ℤ → Ports
  select_port port_index [] = failed no_port
  select_port none (port ∷ ports) = port_at (port ∷ ports) 0
  select_port (some label) (port ∷ ports) = elim (parse_index label (length (port ∷ ports))) [
    | none ↦ failed bad_index
    | some i ↦ port_at (port ∷ ports) i
  ]

  -- A port that a label sets.
  unfoldable pub labelled_port : Str → Ports
  labelled_port label = elim (atoi label) [
    | none ↦ failed bad_port_label
    | some port ↦ if is_positive port then found port else failed port_not_positive
  ]

  -- A port that the label sets, or one of those that are available.
  unfoldable pub ports_of : Option (Dict Str) → Application → Task → Ports
  ports_of none application task = panicked
  ports_of (some labels) application task = elim (lookup (codes "traefik.port") labels) [
    | some label ↦ labelled_port label
    | none ↦ elim (retrieve_available_ports application task) [
      | none ↦ panicked
      | some ports ↦ select_port (lookup (codes "traefik.portIndex") labels) ports
    ]
  ]

  unfoldable pub process_ports : Application → Task → Ports
  process_ports application task = ports_of application.labels application task

  -- The port as a text, empty where there is none; `none` in a panic.
  unfoldable pub get_port : (ℤ → Str) → Task → List Application → Option Str
  get_port itoa task applications = elim (get_application task applications) [
    | none ↦ some []
    | some application ↦ elim (process_ports application task) [
      | found port ↦ some (itoa port)
      | failed _ ↦ some []
      | panicked ↦ none
    ]
  ]

  -- The address of several that the label of an index selects.
  unfoldable pub select_address : Option Str → List Str → Option Str
  select_address none addresses = some []
  select_address (some label) addresses = elim (parse_index label (length addresses)) [
    | none ↦ some []
    | some i ↦ get_elem? addresses i
  ]

  unfoldable pub task_address : Application → List Str → Option Str
  task_address application [] = some []
  task_address application (address ∷ []) = some address
  task_address application (first ∷ second ∷ rest) =
      elim (get_label application (codes "traefik.ipAddressIdx")) [
        | none ↦ none
        | some index ↦ select_address index (first ∷ second ∷ rest)
      ]

  -- The address of a task, empty where there is none; `none` in a panic.
  unfoldable pub get_backend_server : Provider → Task → List Application → Option Str
  get_backend_server p task applications = elim (get_application task applications) [
    | none ↦ some []
    | some application ↦
        if not (is_some application.ip_address_per_task) || p.force_task_hostname
        then some task.host
        else task_address application task.ip_addresses
  ]

  -- `glob` is the matcher of constraints.
  module _ (glob : Str → Str → Bool) where
    -- What taskFilter asks for besides a port, of an application with labels.
    unfoldable pub admits_with : Dict Str → Provider → Application → Task → Bool
    admits_with labels p application task =
        if is_some (lookup (codes "traefik.portIndex") labels)
          && is_some (lookup (codes "traefik.port") labels)
        then false
        else if not (match_constraints glob p.constraints (constraint_tags p labels)).0
        then false
        else if not (get_or (is_application_enabled application p.exposed_by_default) false)
        then false
        else not application.has_health_checks || all (λ alive. alive) task.health_check_results

    -- What taskFilter asks for besides a port; `none` in a panic.
    unfoldable pub admits : Provider → Application → Task → Option Bool
    admits p application task =
        Option.map (λ labels. admits_with labels p application task) application.labels

    unfoldable pub task_filter : Provider → List Application → Task → Option Bool
    task_filter p applications task = elim (get_application task applications) [
      | none ↦ some false
      | some application ↦ elim (process_ports application task) [
        | found _ ↦ admits p application task
        | failed _ ↦ some false
        | panicked ↦ none
      ]
    ]

    unfoldable pub application_filter : Provider → List Task → Application → Option Bool
    application_filter p tasks application =
        Option.map
          (λ labels.
            if not (match_constraints glob p.constraints (constraint_tags p labels)).0
            then false
            else any (λ t. str_eq t.app_id application.id) tasks)
          application.labels

    -- loadMarathonConfig, up to the template: the applications and the tasks that it gets.
    unfoldable pub template_objects :
        Provider → List Application → List Task → Option (List Application × List Task)
    template_objects p applications tasks = elim (filter_all (task_filter p applications) tasks) [
      | none ↦ none
      | some passed ↦
          Option.map (λ apps. (apps, passed))
            (filter_all (application_filter p passed) applications)
    ]
