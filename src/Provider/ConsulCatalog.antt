-- ===== src/Provider/ConsulCatalog.antt =====
-- provider/consul/consul_catalog.go: the tags of services, and the services and nodes that the
-- template gets.
pub mod Attributes
pub mod Nodes
use traefik.Prelude.{
  ℕ, ◌==◌, Bool, true, false, not, ◌&&◌, ◌||◌, Option, none, some, List, [], ◌∷◌, ◌++◌, map, Str,
  codes, str_eq, is_empty, any, keep, if◌then◌else◌, ltb, ℤ,
}
use traefik.Text.{split, to_lower, lower, cut, contains}
use traefik.Types.Constraint.{Constraint}
use traefik.Provider.{replace, match_constraints, normalize}

-- The fields of CatalogProvider that the configuration depends on.
pub record CatalogProvider : Type 0 where
  pub domain : Str
  pub prefix : Str
  pub constraints : List Constraint

-- api.ServiceEntry, as far as it is read: the address of the node, and the service.
pub record ServiceEntry : Type 0 where
  pub node_address : Str
  pub service : Str
  pub address : Str
  pub port : ℤ
  pub tags : List Str

pub record ServiceUpdate : Type 0 where
  pub service_name : Str
  pub attributes : List Str

pub record CatalogUpdate : Type 0 where
  pub service : ServiceUpdate
  pub nodes : List ServiceEntry

unfoldable pub get_entry_points : Str → List Str
get_entry_points list = split b',' list

unfoldable pub get_backend : ServiceEntry → Str
get_backend node = to_lower node.service

unfoldable pub get_backend_address : ServiceEntry → Str
get_backend_address node = if not (is_empty node.address) then node.address else node.node_address

-- What stands in a tag behind a prefix that its lower case begins with: the test by strings.Index,
-- and the slice.
unfoldable pub after_folded : Str → Str → Option Str
after_folded [] s = some s
after_folded (p ∷ ps) [] = none
after_folded (p ∷ ps) (c ∷ s) = if p == lower c then after_folded ps s else none

-- The value that a tag gives to a name, if it does.
unfoldable pub attribute_of : CatalogProvider → Str → Str → Option Str
attribute_of p name tag = elim (after_folded (p.prefix ++ codes ".") tag) [
  | none ↦ none
  | some rest ↦ elim (cut (codes "=") rest) [
    | none ↦ none
    | some (key, value) ↦ if str_eq (to_lower key) (to_lower name) then some value else none
  ]
]

unfoldable pub get_attribute : CatalogProvider → Str → List Str → Str → Str
get_attribute p name [] default_value = default_value
get_attribute p name (tag ∷ tags) default_value =
    let later = get_attribute p name tags default_value in
    elim (attribute_of p name tag) [ some value ↦ value | none ↦ later ]

unfoldable pub get_frontend_rule : CatalogProvider → ServiceUpdate → Str
get_frontend_rule p service =
    let custom = get_attribute p (codes "frontend.rule") service.attributes [] in
    if not (is_empty custom)
    then custom
    else codes "Host:" ++ service.service_name ++ codes "." ++ p.domain

unfoldable pub has_maxconn_attributes : CatalogProvider → List Str → Bool
has_maxconn_attributes p attributes =
    not (is_empty (get_attribute p (codes "backend.maxconn.amount") attributes []))
    && not (is_empty (get_attribute p (codes "backend.maxconn.extractorfunc") attributes []))

unfoldable pub get_constraint_tags : CatalogProvider → List Str → List Str
get_constraint_tags p [] = []
get_constraint_tags p (tag ∷ tags) =
    let later = get_constraint_tags p tags in
    elim (after_folded (p.prefix ++ codes ".tags=") tag) [
      | none ↦ later
      | some list ↦ split b',' list ++ later
    ]

-- The tags in the name of a backend; Normalize is over the classes of the package unicode.
abbrev pub tag_names : (ℕ → Bool) → (ℕ → Bool) → List Str → Str
tag_names is_letter is_number [] = []
tag_names is_letter is_number (tag ∷ tags) =
    codes "--" ++ normalize is_letter is_number tag ++ tag_names is_letter is_number tags

-- `itoa` is strconv.Itoa.
unfoldable pub get_backend_name : (ℕ → Bool) → (ℕ → Bool) → (ℤ → Str) → ServiceEntry → ℤ → Str
get_backend_name is_letter is_number itoa node index =
    replace b'=' b'-' (
      replace b'.' b'-' (
        to_lower node.service
        ++ codes "--"
        ++ node.address
        ++ codes "--"
        ++ itoa node.port
        ++ tag_names is_letter is_number node.tags))
    ++ codes "--"
    ++ itoa index

-- fun.Union of tags as sets; Go takes the keys of a map in any order, here it is that of the lists.
abbrev pub union : List Str → List Str → List Str
union set [] = set
union set (tag ∷ tags) = union (if any (λ t. str_eq t tag) set then set else set ++ tag ∷ []) tags

abbrev pub merged_tags : List Str → List ServiceEntry → List Str
merged_tags set [] = set
merged_tags set (node ∷ nodes) = merged_tags (union set node.tags) nodes

-- `glob` is the matcher of constraints, and `health` what Consul says of a service, unless it fails.
module _ (glob : Str → Str → Bool) (health : Str → Option (List ServiceEntry)) where
  -- The nodes of a service whose tags match the constraints.
  unfoldable pub matching_nodes : CatalogProvider → List ServiceEntry → List ServiceEntry
  matching_nodes p entries =
      keep (λ node. (match_constraints glob p.constraints (get_constraint_tags p node.tags)).0)
        entries

  unfoldable pub healthy_nodes : CatalogProvider → Str → Option CatalogUpdate
  healthy_nodes p service = elim (health service) [
    | none ↦ none
    | some entries ↦
        let nodes = matching_nodes p entries in
        some (record {
          service = record { service_name = service; attributes = merged_tags [] nodes };
          nodes = nodes;
        })
  ]

  -- The loop of getNodes over the names of the index, with those that were visited; `none` is the
  -- error of a request.
  unfoldable pub get_nodes : CatalogProvider → List Str → List Str → Option (List CatalogUpdate)
  get_nodes p visited [] = some []
  get_nodes p visited (service ∷ services) =
      let name = to_lower service in
      let skipped = get_nodes p visited services in
      let later = get_nodes p (name ∷ visited) services in
      if contains name (codes " ") || any (λ v. str_eq v name) visited
      then skipped
      else elim (healthy_nodes p name) [
        | none ↦ none
        | some healthy ↦ elim later [
          | none ↦ none
          | some rest ↦ some (if is_empty healthy.nodes then rest else healthy ∷ rest)
        ]
      ]

-- Some node of the service is not disabled by a tag.
unfoldable pub is_enabled : CatalogProvider → CatalogUpdate → Bool
is_enabled p info =
    any
      (λ node.
        not (str_eq (get_attribute p (codes "enable") node.tags (codes "true")) (codes "false")))
      info.nodes

-- The loop of buildConfig.
unfoldable pub enabled_services :
    CatalogProvider → List CatalogUpdate → List ServiceUpdate × List ServiceEntry
enabled_services p [] = ([], [])
enabled_services p (info ∷ catalog) =
    let (services, nodes) = enabled_services p catalog in
    if is_enabled p info then (info.service ∷ services, info.nodes ++ nodes) else (services, nodes)

-- buildConfig, up to the template; `sort` is sort.Sort with nodeSorter.
unfoldable pub build_config :
    (List ServiceEntry → List ServiceEntry)
    → CatalogProvider
    → List CatalogUpdate
    → List ServiceUpdate × List ServiceEntry
build_config sort p catalog =
    let (services, nodes) = enabled_services p catalog in (services, sort nodes)
