-- ===== src/Provider/Ecs.antt =====
-- provider/ecs/ecs.go: the instances of containers, which of them are served, and the chunks in which
-- tasks are described.
pub mod Chunks
pub mod Instances
use traefik.Prelude.{
  ℕ, zero, suc, ◌==◌, Bool, true, false, not, ◌&&◌, ◌||◌, Option, none, some, List, [], ◌∷◌, ◌++◌,
  map, length, take, drop, keep, any, Str, codes, str_eq, Dict, lookup, is_empty, is_some,
  if◌then◌else◌, ℤ,
}
use mathlib.Core.Option.{get_or}
use traefik.Text.{split, to_lower}
use traefik.Provider.{replace}

-- The fields of Provider that the configuration depends on.
pub record Provider : Type 0 where
  pub domain : Str
  pub exposed_by_default : Bool

-- The machine of an instance: the name of its state, if there is one, and its address.
pub record Machine : Type 0 where
  pub state_name : Option Str
  pub private_ip_address : Option Str

-- ecsInstance, as far as it is read: the host ports of the container, which are pointers, the
-- labels of its definition, and the machine, which may be nil.
pub record EcsInstance : Type 0 where
  pub name : Str
  pub id : Str
  pub host_ports : List (Option ℤ)
  pub docker_labels : Dict Str
  pub machine : Option Machine

-- label, which is empty where there is none
unfoldable pub label : EcsInstance → Str → Str
label i k = get_or (lookup k i.docker_labels) []

-- A label, or a default where it is empty.
abbrev pub label_or : Str → EcsInstance → Str → Str
label_or default i k = if not (is_empty (label i k)) then label i k else default

unfoldable pub get_frontend_rule : Provider → EcsInstance → Str
get_frontend_rule p i =
    label_or (codes "Host:" ++ to_lower (replace b'_' b'-' i.name) ++ codes "." ++ p.domain) i
      (codes "traefik.frontend.rule")

unfoldable pub protocol : EcsInstance → Str
protocol i = label_or (codes "http") i (codes "traefik.protocol")

unfoldable pub weight : EcsInstance → Str
weight i = label_or (codes "0") i (codes "traefik.weight")

unfoldable pub pass_host_header : EcsInstance → Str
pass_host_header i = label_or (codes "true") i (codes "traefik.frontend.passHostHeader")

unfoldable pub priority : EcsInstance → Str
priority i = label_or (codes "0") i (codes "traefik.frontend.priority")

unfoldable pub entry_points : EcsInstance → List Str
entry_points i =
    let list = label i (codes "traefik.frontend.entryPoints") in
    if not (is_empty list) then split b',' list else []

-- Host; `none` where it uses a nil pointer.
unfoldable pub host : EcsInstance → Option Str
host i = elim i.machine [ none ↦ none | some m ↦ m.private_ip_address ]

-- Port; `none` where it uses a nil pointer, or there is no binding.
unfoldable pub port : (ℤ → Str) → EcsInstance → Option Str
port format_int i = elim i.host_ports [
  | [] ↦ none
  | first ∷ _ ↦ elim first [ none ↦ none | some n ↦ some (format_int n) ]
]

-- The machine runs and has an address.
unfoldable pub is_reachable : Option Machine → Bool
is_reachable none = false
is_reachable (some m) = elim m.state_name [
  | none ↦ false
  | some state ↦ str_eq state (codes "running") && is_some m.private_ip_address
]

unfoldable pub filter_instance : Provider → EcsInstance → Bool
filter_instance p i =
    if is_empty i.host_ports
    then false
    else if not (is_reachable i.machine)
    then false
    else p.exposed_by_default && not (str_eq (label i (codes "traefik.enable")) (codes "false"))
      || str_eq (label i (codes "traefik.enable")) (codes "true")

-- filterFrontends, with the names that were met.
unfoldable pub first_of_names : List Str → List EcsInstance → List EcsInstance
first_of_names seen [] = []
first_of_names seen (i ∷ instances) =
    let passed = first_of_names seen instances in
    let noted = first_of_names (i.name ∷ seen) instances in
    if any (λ n. str_eq n i.name) seen then passed else i ∷ noted

unfoldable pub filter_frontends : List EcsInstance → List EcsInstance
filter_frontends instances = first_of_names [] instances

-- The loop of chunkedTaskArns over what is left, of at most as many rounds as there are tasks.
unfoldable pub chunks_of : ℕ → List Str → List (List Str)
chunks_of zero tasks = []
chunks_of (suc n) [] = []
chunks_of (suc n) (task ∷ tasks) = take 100 (task ∷ tasks) ∷ chunks_of n (drop 100 (task ∷ tasks))

unfoldable pub chunked_task_arns : List Str → List (List Str)
chunked_task_arns tasks = chunks_of (length tasks) tasks
