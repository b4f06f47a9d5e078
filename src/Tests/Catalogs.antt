-- ===== src/Tests/Catalogs.antt =====
-- Applications of Marathon, and tags of the Consul catalog.
use mathlib.Core.List.{Memᴰ}
use traefik.Prelude.{
  Bool, true, false, Option, none, some, [], ◌∷◌, Str, codes, ◌==◌, str_eq, lookup, ℤ, pos, ◌≡◌,
  refl,
}
use traefik.Text.{split, split_by}
use traefik.Provider.{match_constraints, first_violated}
use traefik.Provider.Marathon.{
  Provider, Application, Task, get_application, get_label, is_application_enabled,
}
use traefik.Provider.Marathon.Tasks.{
  process_ports, retrieve_available_ports, select_port, admits, task_filter, application_filter,
  filter_all, ports_of, admits_with, template_objects,
}
use traefik.Provider.Marathon.Bounds.{is_panic, process_ports_panics}
use traefik.Provider.Marathon.Served.{IsAdmitted, template_objects-IsAdmitted}
use traefik.Provider.ConsulCatalog.{CatalogProvider, get_attribute, attribute_of, after_folded}
use traefik.Provider.ConsulCatalog.Attributes.{get_attribute-tag_for}
use traefik.Provider.Mesos
use traefik.Tests.{by_search}

abbrev reads_one : Str → Option ℤ
reads_one s = some (pos 1)

abbrev no_match : Str → Str → Bool
no_match pattern tag = false

abbrev app : Application
app = record {
  id = codes "/api";
  labels = some [];
  port_definitions = [];
  ip_address_per_task = some none;
  has_health_checks = false;
}

abbrev task : Task
task = record {
  id = codes "t";
  app_id = codes "/api";
  host = codes "h";
  ports = pos 80 ∷ pos 81 ∷ [];
  ip_addresses = [];
  health_check_results = [];
}

abbrev bare : Task
bare = record task { ports = [] }

process_ports_panics_example : is_panic (process_ports reads_one app bare) ≡ true
unfolding lookup
process_ports_panics_example = process_ports_panics reads_one app bare

abbrev marathon : Provider
marathon = record {
  domain = codes "marathon.localhost";
  exposed_by_default = true;
  groups_as_sub_domains = false;
  marathon_lb_compatibility = false;
  force_task_hostname = false;
  constraints = [];
}

filtered :
    template_objects reads_one no_match marathon (app ∷ []) (task ∷ []) ≡ some (app ∷ [], task ∷ [])
unfolding template_objects filter_all task_filter get_application str_eq process_ports ports_of
    get_label lookup retrieve_available_ports select_port application_filter admits admits_with
    match_constraints split split_by first_violated is_application_enabled
filtered = refl

template_objects-IsAdmitted_example :
    (h : IsAdmitted reads_one no_match marathon (app ∷ []) task) × Memᴰ h.application (app ∷ [])
template_objects-IsAdmitted_example =
    template_objects-IsAdmitted reads_one no_match marathon (app ∷ []) (app ∷ []) (task ∷ [])
      (task ∷ []) filtered task (Memᴰ.head refl)

abbrev catalog : CatalogProvider
catalog = record { domain = codes "consul.localhost"; prefix = codes "traefik"; constraints = [] }

other_tag : attribute_of catalog (codes "enable") (codes "v1") ≡ none
unfolding attribute_of after_folded
other_tag = refl

get_attribute-tag_for_example :
    get_attribute catalog
      (codes "enable")
      (codes "v1" ∷ codes "traefik.enable=false" ∷ [])
      (codes "true")
    ≡ codes "false"
get_attribute-tag_for_example =
    get_attribute-tag_for catalog (codes "enable") (codes "false") (codes "true") (codes "v1" ∷ [])
      [] (refl, (refl, (refl, (refl, (refl, (refl, (refl, (refl, tt))))))))
      (by_search (λ c. b'=' == c) (codes "enable") refl) (other_tag, tt)

abbrev index_one : Mesos.Task
index_one = record {
  id = codes "a";
  name = codes "api";
  ports = pos 80 ∷ pos 81 ∷ [];
  labels = (codes "traefik.portIndex", codes "1") ∷ [];
  healthy = none;
}

abbrev one_port : Mesos.Task
one_port = record {
  id = codes "b";
  name = codes "api";
  ports = pos 80 ∷ [];
  labels = [];
  healthy = some true;
}

abbrev mesos : Mesos.Provider
mesos = record {
  domain = codes "mesos.localhost";
  exposed_by_default = true;
  groups_as_sub_domains = false;
}

abbrev as_one : ℤ → Str
as_one n = codes "1"
