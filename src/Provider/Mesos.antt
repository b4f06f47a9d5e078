-- ===== src/Provider/Mesos.antt =====
-- provider/mesos/mesos.go: the labels of tasks, the filters, and the port of a task.
pub mod Ports
pub mod Labels
use traefik.Prelude.{
  ℕ, zero, suc, ◌==◌, Bool, true, false, not, ◌&&◌, ◌||◌, Option, none, some, List, [], ◌∷◌, ◌++◌,
  map, length, any, keep, Str, codes, str_eq, Dict, lookup, is_empty, is_some, if◌then◌else◌, ltb,
  ℤ, pos, negsuc, int_eq, get_elem?,
}
use mathlib.Core.Option.{get_or}
use traefik.Text.{split, trim_prefix}

-- The fields of Provider that the configuration depends on.
pub record Provider : Type 0 where
  pub domain : Str
  pub exposed_by_default : Bool
  pub groups_as_sub_domains : Bool

-- state.Task, as far as it is read: its identifier, the name and the ports of its discovery, its
-- labels, of which the first of a key counts, and whether its first status says that it is healthy,
-- if there is one that does.
pub record Task : Type 0 where
  pub id : Str
  pub name : Str
  pub ports : List ℤ
  pub labels : Dict Str
  pub healthy : Option Bool

-- getLabel, whose only error says that there is none.
unfoldable pub get_label : Task → Str → Option Str
get_label task label = lookup label task.labels

-- labels, which is empty where there is none
abbrev pub labels_of : Task → Str → Str
labels_of task key = get_or (get_label task key) []

unfoldable pub is_mesos_application_enabled : Task → Bool → Bool
is_mesos_application_enabled task exposed_by_default =
    exposed_by_default && not (str_eq (labels_of task (codes "traefik.enable")) (codes "false"))
    || str_eq (labels_of task (codes "traefik.enable")) (codes "true")

unfoldable pub task_in_slice : Task → List Task → Bool
task_in_slice a list = any (λ b. str_eq b.name a.name) list

unfoldable pub get_mesos : Task → List Task → Option Task
get_mesos task [] = none
get_mesos task (a ∷ apps) = if str_eq a.name task.name then some a else get_mesos task apps

-- `atoi` is strconv.Atoi.
module _ (atoi : Str → Option ℤ) where
  -- The index of a label is within the ports, where the label is not empty.
  unfoldable pub index_ok : Str → ℕ → Bool
  index_ok label len = if is_empty label then true else elim (atoi label) [
    | none ↦ false
    | some index ↦ elim index [ pos n ↦ ltb n len | negsuc n ↦ false ]
  ]

  -- The port of a label is one of the ports, where the label is not empty.
  unfoldable pub port_ok : Str → List ℤ → Bool
  port_ok label ports =
      if is_empty label
      then true
      else elim (atoi label) [ none ↦ false | some port ↦ any (λ q. int_eq port q) ports ]

  unfoldable pub mesos_task_filter : Task → Bool → Bool
  mesos_task_filter task exposed_by_default =
      let port_index = labels_of task (codes "traefik.portIndex") in
      let port_value = labels_of task (codes "traefik.port") in
      if is_empty task.ports
      then false
      else if not (is_mesos_application_enabled task exposed_by_default)
      then false
      else if not (is_empty port_index) && not (is_empty port_value)
      then false
      else if not (index_ok port_index (length task.ports))
      then false
      else if not (port_ok port_value task.ports)
      then false
      else get_or task.healthy true

  -- The port that an index selects; `none` where the index is out of range.
  unfoldable pub port_at : (ℤ → Str) → ℤ → List ℤ → Option Str
  port_at itoa (negsuc n) ports = none
  port_at itoa (pos n) ports = elim (get_elem? ports n) [
    | none ↦ none
    | some port ↦ some (itoa port)
  ]

  abbrev pub first_port : (ℤ → Str) → List ℤ → Str
  first_port itoa [] = []
  first_port itoa (port ∷ ports) = itoa port

  -- The index that the application's label gives, if there is one that can be read.
  abbrev pub label_index : Task → Option ℤ
  label_index application = elim (get_label application (codes "traefik.portIndex")) [
    | none ↦ none
    | some label ↦ atoi label
  ]

  -- getPort; `none` in a panic.
  unfoldable pub get_port : (ℤ → Str) → Task → List Task → Option Str
  get_port itoa task applications = elim (get_mesos task applications) [
    | none ↦ some []
    | some application ↦ elim (label_index application) [
      | some index ↦ port_at itoa index task.ports
      | none ↦
          some (get_or (get_label application (codes "traefik.port")) (first_port itoa task.ports))
    ]
  ]

-- The loop of loadMesosConfig that takes the first task of each name for an application.
unfoldable pub applications_of : List Task → List Task → List Task
applications_of apps [] = apps
applications_of apps (t ∷ tasks) =
    applications_of (if task_in_slice t apps then apps else apps ++ t ∷ []) tasks

-- loadMesosConfig, up to the template: the applications and the tasks that it gets.
unfoldable pub template_objects : (Str → Option ℤ) → Provider → List Task → List Task × List Task
template_objects atoi p tasks =
    let filtered = keep (λ t. mesos_task_filter atoi t p.exposed_by_default) tasks in
    (applications_of [] filtered, filtered)
