-- ===== src/Tests/Docker.antt =====
-- Containers and services of Docker.
use traefik.Prelude.{
  last_such, ℕ, Bool, true, false, Option, none, some, List, [], ◌∷◌, ◌++◌, Str, codes, lookup,
  str_eq, keep, ℤ, ◌≡◌, refl, if◌then◌else◌, Bool-cases, inl, inr, str_eq_iff, ap₂, ◌∙◌,
}
use traefik.Text.{to_lower}
use traefik.Provider.Docker.{
  Provider, DockerData, container_filter, get_backend, get_frontend_name, get_ip_address,
}
use traefik.Provider.Docker.Services.{
  TakesApart, get_container_service_label, get_container_service_label_lem,
}
use traefik.Provider.Docker.Listing.{Service, Task, list_services, template_objects}
use traefik.Provider.Docker.Addresses.{get_ip_address_unbound}
use traefik.Provider.Docker.Groups.{grouped, template_objects_lem}
use traefik.Provider.Docker.Swarm.{all_listed, last_failed, list_services_lem}

abbrev docker : Provider
docker = record {
  domain = codes "docker.localhost";
  exposed_by_default = true;
  use_bind_port_ip = true;
  constraints = [];
}

abbrev web : DockerData
web = record {
  service_name = codes "web";
  name = codes "web";
  labels = (codes "traefik.api.port", codes "8080") ∷ [];
  network_settings = record {
    network_mode = codes "bridge";
    ports = (codes "80/tcp", codes "10.0.0.1" ∷ []) ∷ [];
    networks =
        (
          codes "bridge",
          record { name = codes "bridge"; addr = codes "172.17.0.2"; id = codes "1" },
        )
        ∷ [];
  };
  health = [];
}

abbrev same_ports : List Str → List Str
same_ports ports = ports

abbrev whole : Str → Str
whole port = port

get_ip_address_unbound_example :
    get_ip_address same_ports whole docker web
    ≡ get_ip_address same_ports whole (record docker { use_bind_port_ip = false }) web
unfolding to_lower
get_ip_address_unbound_example = get_ip_address_unbound same_ports whole docker web (refl, tt)

-- A pattern that finds one label only.
abbrev api_port : Str → Option (Str × Str)
api_port index =
    if str_eq index (codes "traefik.api.port") then some (codes "api", codes "port") else none

api_port-TakesApart : TakesApart api_port
api_port-TakesApart index service entry e =
    elim (Bool-cases (str_eq index (codes "traefik.api.port"))) [
      | inl y ↦
          let found : api_port index ≡ some (codes "api", codes "port") = rw y refl in
          let first : codes "api" ≡ service = cc in
          let second : codes "port" ≡ entry = cc in
          (str_eq_iff index (codes "traefik.api.port")).0 y
          ∙ ap₂ (λ s t. codes "traefik." ++ s ++ codes "." ++ t) first second
      | inr n ↦ let nothing : api_port index ≡ none = rw n refl in cc
    ]

get_container_service_label_lem_example :
    get_container_service_label api_port web (codes "api") (codes "port")
    ≡ lookup (codes "traefik.api.port") web.labels
unfolding str_eq
get_container_service_label_lem_example =
    get_container_service_label_lem api_port web (codes "api") (codes "port") api_port-TakesApart
      refl

abbrev any_letter : ℕ → Bool
any_letter c = true

abbrev no_number : ℕ → Bool
no_number c = false

abbrev never : Str → Str → Bool
never pattern tag = false

abbrev no_int : Str → Bool
no_int s = false

template_objects_lem_example :
    let t = template_objects any_letter no_number never no_int docker (web ∷ web ∷ []) in
    let passed = keep (container_filter never no_int docker) (web ∷ web ∷ []) in
    let named : DockerData → Bool =
      λ c. str_eq (get_backend any_letter no_number c) (codes "web") in
    (grouped (codes "web") t.servers ≡ keep named passed)
    × (grouped (codes "web") t.frontends
        ≡ keep (λ c. str_eq (get_frontend_name any_letter no_number docker c) (codes "web")) passed)
    × (lookup (codes "web") t.backends ≡ last_such named none passed)
template_objects_lem_example =
    template_objects_lem any_letter no_number never no_int docker (web ∷ web ∷ []) (codes "web")

abbrev service : Service
service = record {
  id = codes "s";
  name = codes "api";
  labels = [];
  is_global = true;
  endpoint_mode = none;
  virtual_ips = [];
}

abbrev digits : ℤ → Str
digits n = codes "1"

abbrev is_yes : Str → Bool
is_yes s = str_eq s (codes "true")

abbrev no_tasks : Str → Option (List Task)
no_tasks id = none

list_services_lem_example :
    list_services whole digits is_yes (some (service ∷ service ∷ [])) (some []) no_tasks ≡ (
      all_listed whole digits is_yes [] no_tasks (service ∷ service ∷ []),
      last_failed whole digits is_yes [] no_tasks false (service ∷ service ∷ []),
    )
list_services_lem_example =
    list_services_lem whole digits is_yes [] no_tasks (service ∷ service ∷ [])
