-- ===== src/Provider/Docker/Listing.antt =====
-- provider/docker/docker.go: the containers and the services of Docker, and how they are grouped.
use traefik.Prelude.{
  ℕ, Bool, true, false, Option, none, some, List, [], ◌∷◌, ◌++◌, map, Str, codes, Dict, lookup,
  insert, keep, if◌then◌else◌, ℤ,
}
use mathlib.Core.Option.{get_or}
use traefik.Provider.Docker.{
  Provider, NetworkData, NetworkSettings, DockerData, get_is_backend_lb_swarm, container_filter,
  get_frontend_name, get_backend,
}

-- dockertypes.ContainerJSON, as far as it is read; what is behind a pointer or in a map that may be
-- nil is an option.
pub record ContainerBase : Type 0 where
  pub name : Str
  pub network_mode : Option Str
  pub health : Option Str

pub record EndpointSettings : Type 0 where
  pub network_id : Str
  pub ip_address : Str

pub record ContainerNetworks : Type 0 where
  pub ports : Option (List (Str × List Str))
  pub networks : Option (Dict EndpointSettings)

pub record Container : Type 0 where
  pub base : Option ContainerBase
  pub labels : Option (Dict Str)
  pub network_settings : Option ContainerNetworks

abbrev pub no_networks : NetworkSettings
no_networks = record { network_mode = []; ports = []; networks = [] }

unfoldable pub parse_networks : Str → Option ContainerNetworks → NetworkSettings
parse_networks mode none = record no_networks { network_mode = mode }
parse_networks mode (some settings) = record {
  network_mode = mode;
  ports = get_or settings.ports [];
  networks =
      map (λ (name, n). (name, record { name = name; addr = n.ip_address; id = n.network_id }))
        (get_or settings.networks []);
}

unfoldable pub parse_container : Container → DockerData
parse_container container = elim container.base [
  | none ↦ record {
    service_name = [];
    name = [];
    labels = get_or container.labels [];
    network_settings = parse_networks [] container.network_settings;
    health = [];
  }
  | some base ↦ record {
    service_name = base.name;
    name = base.name;
    labels = get_or container.labels [];
    network_settings = parse_networks (get_or base.network_mode []) container.network_settings;
    health = get_or base.health [];
  }
]

-- listContainers: the identifiers that Docker lists, if it does, are inspected; those that cannot be
-- are left out.
unfoldable pub inspect_all : (Str → Option Container) → List Str → List DockerData
inspect_all inspect [] = []
inspect_all inspect (id ∷ ids) =
    let rest = inspect_all inspect ids in
    elim (inspect id) [ none ↦ rest | some c ↦ parse_container c ∷ rest ]

unfoldable pub list_containers :
    Option (List Str) → (Str → Option Container) → List DockerData × Bool
list_containers none inspect = ([], true)
list_containers (some ids) inspect = (inspect_all inspect ids, false)

-- The mode of the endpoint of a service.
pub data ResolutionMode : Type 0 where
  vip : ResolutionMode
  dnsrr : ResolutionMode
  other_mode : ResolutionMode

pub record VirtualIp : Type 0 where
  pub network_id : Str
  pub addr : Str

pub record Service : Type 0 where
  pub id : Str
  pub name : Str
  pub labels : Dict Str
  pub is_global : Bool
  pub endpoint_mode : Option ResolutionMode
  pub virtual_ips : List VirtualIp

pub record Attachment : Type 0 where
  pub network_id : Str
  pub addresses : List Str

pub record Task : Type 0 where
  pub id : Str
  pub slot : ℤ
  pub is_running : Bool
  pub attachments : List Attachment

-- `ip_text` is the text of the address that net.ParseCIDR reads, `itoa` is strconv.Itoa, and
-- `parse_bool` is strconv.ParseBool, false where it fails. The map of networks is from their
-- identifiers to their names.
module _ (ip_text : Str → Str) (itoa : ℤ → Str) (parse_bool : Str → Bool) where
  -- An address of a network that is known is put under the name of the network.
  unfoldable pub add_network : Dict Str → Str → Str → Dict NetworkData → Dict NetworkData
  add_network network_map id addr networks = elim (lookup id network_map) [
    | none ↦ networks
    | some name ↦ insert name (record { name = name; addr = ip_text addr; id = id }) networks
  ]

  unfoldable pub add_virtual_ips : Dict Str → List VirtualIp → Dict NetworkData → Dict NetworkData
  add_virtual_ips network_map [] networks = networks
  add_virtual_ips network_map (ip ∷ ips) networks =
      add_virtual_ips network_map ips (add_network network_map ip.network_id ip.addr networks)

  unfoldable pub service_networks : Dict Str → Service → Dict NetworkData
  service_networks network_map service = elim service.endpoint_mode [
    | none ↦ []
    | some mode ↦ elim mode [
      | vip ↦ add_virtual_ips network_map service.virtual_ips []
      | dnsrr ↦ []
      | other_mode ↦ []
    ]
  ]

  unfoldable pub parse_service : Dict Str → Service → DockerData
  parse_service network_map service = record {
    service_name = service.name;
    name = service.name;
    labels = service.labels;
    network_settings = record no_networks { networks = service_networks network_map service };
    health = [];
  }

  -- The loop over the addresses of one attachment.
  unfoldable pub add_addresses : Dict Str → Str → List Str → Dict NetworkData → Dict NetworkData
  add_addresses network_map id [] networks = networks
  add_addresses network_map id (addr ∷ addrs) networks =
      add_addresses network_map id addrs (add_network network_map id addr networks)

  unfoldable pub add_attachments : Dict Str → List Attachment → Dict NetworkData → Dict NetworkData
  add_attachments network_map [] networks = networks
  add_attachments network_map (a ∷ rest) networks =
      add_attachments network_map rest (add_addresses network_map a.network_id a.addresses networks)

  unfoldable pub parse_tasks : Dict Str → Bool → DockerData → Task → DockerData
  parse_tasks network_map is_global service task = record {
    service_name = service.name;
    name = service.name ++ codes "." ++ (if is_global then task.id else itoa task.slot);
    labels = service.labels;
    network_settings = record no_networks {
      networks = add_attachments network_map task.attachments [];
    };
    health = [];
  }

  -- listTasks, with whether it fails.
  unfoldable pub list_tasks :
      Dict Str → Bool → DockerData → Option (List Task) → List DockerData × Bool
  list_tasks network_map is_global service none = ([], true)
  list_tasks network_map is_global service (some tasks) =
      (map (parse_tasks network_map is_global service) (keep (λ t. t.is_running) tasks), false)

  -- The loop of listServices: what it has listed, and `err`. `tasks_of` is the answer of TaskList for
  -- the identifier of a service.
  unfoldable pub list_all :
      Dict Str
      → (Str → Option (List Task))
      → List Service
      → List DockerData × Bool
      → List DockerData × Bool
  list_all network_map tasks_of [] (listed, failed) = (listed, failed)
  list_all network_map tasks_of (s ∷ rest) (listed, failed) =
      let service = parse_service network_map s in
      let tasks = list_tasks network_map s.is_global service (tasks_of s.id) in
      list_all network_map tasks_of rest (
        if parse_bool (get_is_backend_lb_swarm service)
        then (listed ++ service ∷ [], failed)
        else (listed ++ tasks.0, tasks.1))

  -- listServices
  unfoldable pub list_services :
      Option (List Service)
      → Option (Dict Str)
      → (Str → Option (List Task))
      → List DockerData × Bool
  list_services none networks tasks_of = ([], true)
  list_services (some services) none tasks_of = ([], true)
  list_services (some services) (some network_map) tasks_of =
      list_all network_map tasks_of services ([], false)

-- What loadDockerConfig gives to the template.
pub record TemplateObjects : Type 0 where
  pub containers : List DockerData
  pub frontends : Dict (List DockerData)
  pub backends : Dict DockerData
  pub servers : Dict (List DockerData)
  pub domain : Str

-- `m[k] = append(m[k], v)`
abbrev pub append_to {ℓ} : {A : Type ℓ} → Str → A → Dict (List A) → Dict (List A)
append_to k v m = insert k (get_or (lookup k m) [] ++ v ∷ []) m

module _ (is_letter is_number : ℕ → Bool) where
  -- The loop over the containers that pass the filter.
  unfoldable pub group : Provider → List DockerData → TemplateObjects → TemplateObjects
  group p [] t = t
  group p (container ∷ rest) t =
      let backend = get_backend is_letter is_number container in
      group p rest (record t {
        frontends =
            append_to (get_frontend_name is_letter is_number p container) container t.frontends;
        backends = insert backend container t.backends;
        servers = append_to backend container t.servers;
      })

  -- loadDockerConfig, up to the template.
  unfoldable pub template_objects :
      (Str → Str → Bool) → (Str → Bool) → Provider → List DockerData → TemplateObjects
  template_objects glob is_int p inspected =
      let filtered = keep (container_filter glob is_int p) inspected in
      group p filtered (record {
        containers = filtered;
        frontends = [];
        backends = [];
        servers = [];
        domain = p.domain;
      })
