-- ===== src/Provider/Docker/Swarm.antt =====
-- provider/docker/docker.go: the error of a service is forgotten at the next one.
use traefik.Prelude.{
  Bool, false, Option, none, some, List, [], ◌∷◌, ◌++◌, Str, codes, Dict, lookup, map, keep,
  if◌then◌else◌, ℤ, ◌≡◌, refl, sym, ◌∙◌, ap, is_some, not, Bool-cases, inl, inr, append_assoc,
  append-nil,
}
use mathlib.Core.Option.{get_or}
use traefik.Provider.Docker.{DockerData, get_label, get_is_backend_lb_swarm}
use traefik.Provider.Docker.Listing.{
  Service, Task, parse_service, parse_tasks, list_tasks, list_all, list_services,
}

module _ (ip_text : Str → Str) (itoa : ℤ → Str) (parse_bool : Str → Bool) (network_map : Dict Str)
    (tasks_of : Str → Option (List Task)) where
  -- Docker balances the load of the service itself, as its label says.
  abbrev pub is_balanced : Service → Bool
  is_balanced s =
      parse_bool
        (get_or (lookup (codes "traefik.backend.loadbalancer.swarm") s.labels) (codes "false"))

  -- The running tasks of a service; nothing, if they cannot be listed.
  abbrev pub running_of : Bool → DockerData → Option (List Task) → List DockerData
  running_of is_global service none = []
  running_of is_global service (some tasks) =
      map (parse_tasks ip_text itoa parse_bool network_map is_global service)
        (keep (λ t. t.is_running) tasks)

  -- What a service contributes.
  abbrev pub listed_of : Service → List DockerData
  listed_of s =
      let service = parse_service ip_text itoa parse_bool network_map s in
      if is_balanced s then service ∷ [] else running_of s.is_global service (tasks_of s.id)

  abbrev pub all_listed : List Service → List DockerData
  all_listed [] = []
  all_listed (s ∷ rest) = listed_of s ++ all_listed rest

  -- Whether the tasks of the last service that has to be asked for them cannot be listed.
  abbrev pub last_failed : Bool → List Service → Bool
  last_failed failed [] = failed
  last_failed failed (s ∷ rest) =
      last_failed (if is_balanced s then failed else not (is_some (tasks_of s.id))) rest

  list_tasks_lem :
      (is_global : Bool) (service : DockerData) (o : Option (List Task))
      → list_tasks ip_text itoa parse_bool network_map is_global service o
        ≡ (running_of is_global service o, not (is_some o))
  unfolding list_tasks
  list_tasks_lem is_global service none = refl
  list_tasks_lem is_global service (some ts) = refl

  swarm_label :
      (s : Service)
      → parse_bool (get_is_backend_lb_swarm (parse_service ip_text itoa parse_bool network_map s))
        ≡ is_balanced s
  unfolding get_is_backend_lb_swarm parse_service get_label
  swarm_label s = refl

  list_all_lem :
      (services : List Service) (listed : List DockerData) (failed : Bool)
      → list_all ip_text itoa parse_bool network_map tasks_of services (listed, failed)
        ≡ (listed ++ all_listed services, last_failed failed services)
  unfolding list_all
  list_all_lem [] listed failed = ap (λ l. (l, failed)) (sym (append-nil listed))
  list_all_lem (s ∷ rest) listed failed = elim (Bool-cases (is_balanced s)) [
    | inl y ↦
        let service = parse_service ip_text itoa parse_bool network_map s in
        rw (list_all, swarm_label s ∙ y, y)
          (list_all_lem rest (listed ++ service ∷ []) failed
            ∙ ap (λ l. (l, last_failed failed rest))
                (append_assoc listed (service ∷ []) (all_listed rest)))
    | inr n ↦
        let service = parse_service ip_text itoa parse_bool network_map s in
        rw (list_all, swarm_label s ∙ n, n, list_tasks_lem s.is_global service (tasks_of s.id))
          (list_all_lem rest (listed ++ running_of s.is_global service (tasks_of s.id))
              (not (is_some (tasks_of s.id)))
            ∙ ap (λ l. (l, last_failed (not (is_some (tasks_of s.id))) rest))
                (append_assoc listed (running_of s.is_global service (tasks_of s.id))
                  (all_listed rest)))
  ]

  -- Where Docker lists services and networks, what is listed is, in order, what each service gives:
  -- itself, if its label traefik.backend.loadbalancer.swarm says that Docker balances its load; else
  -- its running tasks; and nothing, if these have to be listed and cannot be. The listing fails
  -- exactly if the tasks of the last service cannot be listed of those that Docker does not balance
  -- itself.
  pub list_services_lem :
      (services : List Service)
      → list_services ip_text itoa parse_bool (some services) (some network_map) tasks_of
        ≡ (all_listed services, last_failed false services)
  unfolding list_services
  list_services_lem services = list_all_lem services [] false
