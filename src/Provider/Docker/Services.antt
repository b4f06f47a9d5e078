-- ===== src/Provider/Docker/Services.antt =====
-- provider/docker/docker.go: labels that define several services of one container.
use traefik.Prelude.{
  ℕ, Bool, true, false, not, Option, none, some, List, [], ◌∷◌, ◌++◌, map, Str, codes, str_eq,
  str_eq_iff, str_eq_refl, Dict, lookup, insert, lookup-insert, is_empty, if◌then◌else◌, ◌≡◌, refl,
  sym, ◌∙◌, ap, Bool-cases, Option-cases, inl, inr, arith,
}
use mathlib.Core.Option.{get_or}
use traefik.Text.{split}
use traefik.Provider.{normalize}
use traefik.Provider.Docker.{
  Provider, DockerData, get_entry_points, get_basic_auth, get_pass_host_header, get_priority,
  get_backend, get_frontend_rule, get_port, get_weight, get_protocol,
}

-- `service_property` is what servicesPropertiesRegexp, by the package regexp, makes of the name of a
-- label: the name of a service and of a property of it.
module _ (service_property : Str → Option (Str × Str)) where
  -- The properties of a service are made when its first one is met. Go takes the labels in any order;
  -- here the last of the list is the first.
  unfoldable pub extract_services_labels : Dict Str → Dict (Dict Str)
  extract_services_labels [] = []
  extract_services_labels ((index, value) ∷ labels) =
      let v = extract_services_labels labels in
      elim (service_property index) [
        | none ↦ v
        | some (service, property) ↦
            insert service (insert property value (get_or (lookup service v) [])) v
      ]

  unfoldable pub has_services : DockerData → Bool
  has_services container = not (is_empty (extract_services_labels container.labels))

  -- A name that is missing in the map of a map is missing.
  abbrev pub lookup₂ : Str → Str → Dict (Dict Str) → Option Str
  lookup₂ service entry v = lookup entry (get_or (lookup service v) [])

  unfoldable pub get_container_service_label : DockerData → Str → Str → Option Str
  get_container_service_label container service entry =
      lookup₂ service entry (extract_services_labels container.labels)

  unfoldable pub get_service_names : DockerData → List Str
  get_service_names container = map (λ e. e.0) (extract_services_labels container.labels)

  unfoldable pub get_service_entry_points : DockerData → Str → List Str
  get_service_entry_points container service =
      elim (get_container_service_label container service (codes "frontend.entryPoints")) [
        | some entry_points ↦ split b',' entry_points
        | none ↦ get_entry_points container
      ]

  unfoldable pub get_service_basic_auth : DockerData → Str → List Str
  get_service_basic_auth container service =
      elim (get_container_service_label container service (codes "frontend.auth.basic")) [
        | some basic_auth ↦ split b',' basic_auth
        | none ↦ get_basic_auth container
      ]

  unfoldable pub get_service_pass_host_header : DockerData → Str → Str
  get_service_pass_host_header container service =
      get_or (get_container_service_label container service (codes "frontend.passHostHeader"))
        (get_pass_host_header container)

  unfoldable pub get_service_priority : DockerData → Str → Str
  get_service_priority container service =
      get_or (get_container_service_label container service (codes "frontend.priority"))
        (get_priority container)

  unfoldable pub get_service_backend : (ℕ → Bool) → (ℕ → Bool) → DockerData → Str → Str
  get_service_backend is_letter is_number container service =
      get_or (get_container_service_label container service (codes "frontend.backend")) (
        get_backend is_letter is_number container
        ++ codes "-"
        ++ normalize is_letter is_number service)

  unfoldable pub get_service_frontend_rule : Provider → DockerData → Str → Str
  get_service_frontend_rule p container service =
      get_or (get_container_service_label container service (codes "frontend.rule"))
        (get_frontend_rule p container)

  unfoldable pub get_service_port : (List Str → List Str) → (Str → Str) → DockerData → Str → Str
  get_service_port sort_ports port_text container service =
      get_or (get_container_service_label container service (codes "port"))
        (get_port sort_ports port_text container)

  unfoldable pub get_service_weight : DockerData → Str → Str
  get_service_weight container service =
      get_or (get_container_service_label container service (codes "weight")) (get_weight container)

  unfoldable pub get_service_protocol : DockerData → Str → Str
  get_service_protocol container service =
      get_or (get_container_service_label container service (codes "protocol"))
        (get_protocol container)

  -- The label of a property.
  abbrev pub service_label : Str → Str → Str
  service_label service entry = codes "traefik." ++ service ++ codes "." ++ entry

  lookup₂-insert :
      (s t e f value : Str) (v : Dict (Dict Str))
      → lookup₂ t f (insert s (insert e value (get_or (lookup s v) [])) v)
        ≡ (if str_eq s t then (if str_eq e f then some value else lookup₂ t f v) else lookup₂ t f v)
  lookup₂-insert s t e f value v = elim (Bool-cases (str_eq s t)) [
    | inr n ↦ rw (lookup-insert s t (insert e value (get_or (lookup s v) [])) v, n) refl
    | inl y ↦
        let same : s ≡ t = (str_eq_iff s t).0 y in
        rw (lookup-insert s t (insert e value (get_or (lookup s v) [])) v, y)
          (lookup-insert e f value (get_or (lookup s v) []) ∙ rw same refl)
  ]

  -- What the pattern takes apart is the label of what it finds.
  abbrev pub TakesApart : Type 0
  TakesApart =
      (index service entry : Str)
      → service_property index ≡ some (service, entry)
      → index ≡ service_label service entry

  index-service_label :
      (index service entry s e : Str)
      → TakesApart
      → service_property (service_label service entry) ≡ some (service, entry)
      → service_property index ≡ some (s, e)
      → str_eq index (service_label service entry)
        ≡ (if str_eq s service then str_eq e entry else false)
  index-service_label index service entry s e h m q =
      elim (Bool-cases (str_eq index (service_label service entry))) [
        | inl y ↦
            let same : index ≡ service_label service entry = (str_eq_iff _ _).0 y in
            let both : some (s, e) ≡ some (service, entry) = sym q ∙ ap service_property same ∙ m in
            let first : s ≡ service = cc in
            let second : e ≡ entry = cc in
            y ∙ rw (first, second, str_eq_refl service, str_eq_refl entry) refl
        | inr n ↦ elim (Bool-cases (str_eq s service)) [
          | inr o ↦ rw (n, o) refl
          | inl a ↦ elim (Bool-cases (str_eq e entry)) [
            | inr o ↦ rw (n, a, o) refl
            | inl b ↦
                let first : s ≡ service = (str_eq_iff s service).0 a in
                let second : e ≡ entry = (str_eq_iff e entry).0 b in
                let same : index ≡ service_label service entry =
                  h index s e q ∙ rw (first, second) refl in
                let equal : str_eq index (service_label service entry) ≡ true =
                  (str_eq_iff _ _).1 same in
                ground (arith, n, equal)
          ]
        ]
      ]

  lookup_none :
      (service entry : Str)
      → lookup₂ service entry (extract_services_labels []) ≡ lookup (service_label service entry) []
  unfolding lookup extract_services_labels
  lookup_none service entry = refl

  lookup-cons :
      (k j v : Str) (labels : Dict Str)
      → lookup k ((j, v) ∷ labels) ≡ (if str_eq j k then some v else lookup k labels)
  unfolding lookup
  lookup-cons k j v labels = refl

  extract-none :
      (index value : Str) (labels : Dict Str)
      → service_property index ≡ none
      → extract_services_labels ((index, value) ∷ labels) ≡ extract_services_labels labels
  unfolding extract_services_labels
  extract-none index value labels q = rw (q, extract_services_labels) refl

  extract-some :
      (index value service entry : Str) (labels : Dict Str)
      → service_property index ≡ some (service, entry)
      → let v = extract_services_labels labels in
        extract_services_labels ((index, value) ∷ labels)
        ≡ insert service (insert entry value (get_or (lookup service v) [])) v
  unfolding extract_services_labels
  extract-some index value service entry labels q = rw (q, extract_services_labels) refl

  unmatched :
      (index service entry : Str)
      → service_property (service_label service entry) ≡ some (service, entry)
      → service_property index ≡ none
      → str_eq index (service_label service entry) ≡ false
  unmatched index service entry m q =
      elim (Bool-cases (str_eq index (service_label service entry))) [
        | inr n ↦ n
        | inl y ↦
            let same : index ≡ service_label service entry = (str_eq_iff _ _).0 y in
            let both : none ≡ some (service, entry) = sym q ∙ ap service_property same ∙ m in cc
      ]

  flat :
      (a b : Bool) (u v : Option Str)
      → (if a then (if b then u else v) else v) ≡ (if (if a then b else false) then u else v)
  flat a b u v = ground arith

  -- Where the pattern finds a service and a property in the label of that property, the property of
  -- the service is what that label of the container says, whatever other labels there are, and is
  -- missing where that label is.
  pub get_container_service_label_lem :
      (container : DockerData) (service entry : Str)
      → TakesApart
      → service_property (service_label service entry) ≡ some (service, entry)
      → get_container_service_label container service entry
        ≡ lookup (service_label service entry) container.labels
  unfolding get_container_service_label
  get_container_service_label_lem container service entry h m = found container.labels
    where
      found :
          (labels : Dict Str)
          → lookup₂ service entry (extract_services_labels labels)
            ≡ lookup (service_label service entry) labels
      found [] = lookup_none service entry
      found ((index, value) ∷ labels) = elim (Option-cases (service_property index)) [
        | inl q ↦
            let other : str_eq index (service_label service entry) ≡ false =
              unmatched index service entry m q in
            rw
              (
                extract-none index value labels q,
                lookup-cons (service_label service entry) index value labels,
                other,
              )
              (found labels)
        | inr ((s, e), q) ↦
            rw
              (
                extract-some index value s e labels q,
                lookup-cons (service_label service entry) index value labels,
                index-service_label index service entry s e h m q,
                ← found labels,
              )
              (lookup₂-insert s service e entry value (extract_services_labels labels)
                ∙ flat (str_eq s service) (str_eq e entry) (some value)
                    (lookup₂ service entry (extract_services_labels labels)))
      ]
