-- ===== src/Provider/Docker/Groups.antt =====
-- provider/docker/docker.go: the groups of containers that loadDockerConfig makes.
use traefik.Prelude.{
  last_such, ℕ, Bool, none, List, [], ◌∷◌, ◌++◌, Str, str_eq, str_eq_iff, Dict, lookup, insert,
  lookup-insert, keep, if◌then◌else◌, ◌≡◌, refl, sym, ◌∙◌, ap, Bool-cases, inl, inr, append_assoc,
  append-nil,
}
use mathlib.Core.Option.{get_or}
use traefik.Provider.Docker.{Provider, DockerData, container_filter, get_backend, get_frontend_name}
use traefik.Provider.Docker.Listing.{TemplateObjects, append_to, group, template_objects}

-- The group of a name, empty where there is none.
abbrev pub grouped : Str → Dict (List DockerData) → List DockerData
grouped name m = get_or (lookup name m) []

grouped-append_to :
    (name k : Str) (c : DockerData) (m : Dict (List DockerData))
    → grouped name (append_to k c m)
      ≡ (if str_eq k name then grouped name m ++ c ∷ [] else grouped name m)
grouped-append_to name k c m = elim (Bool-cases (str_eq k name)) [
  | inl y ↦
      let same : k ≡ name = (str_eq_iff k name).0 y in
      rw (lookup-insert k name (grouped k m ++ c ∷ []) m, y, same) refl
  | inr n ↦ rw (lookup-insert k name (grouped k m ++ c ∷ []) m, n) refl
]

keep-cons :
    (p : DockerData → Bool) (c : DockerData) (rest before : List DockerData)
    → (if p c then before ++ c ∷ [] else before) ++ keep p rest ≡ before ++ keep p (c ∷ rest)
keep-cons p c rest before = elim (Bool-cases (p c)) [
  | inl y ↦ rw y (append_assoc before (c ∷ []) (keep p rest))
  | inr n ↦ rw n refl
]

module _ (is_letter is_number : ℕ → Bool) where
  group_lem :
      (p : Provider) (cs : List DockerData) (t : TemplateObjects) (name : Str)
      → let after = group is_letter is_number p cs t in
        (grouped name after.servers
          ≡ grouped name t.servers
            ++ keep (λ c. str_eq (get_backend is_letter is_number c) name) cs)
        × (grouped name after.frontends
            ≡ grouped name t.frontends
              ++ keep (λ c. str_eq (get_frontend_name is_letter is_number p c) name) cs)
        × (lookup name after.backends
            ≡ last_such
                (λ c. str_eq (get_backend is_letter is_number c) name)
                (lookup name t.backends)
                cs)
  unfolding group
  group_lem p [] t name = (sym (append-nil _), sym (append-nil _), refl)
  group_lem p (c ∷ rest) t name =
      let backend = get_backend is_letter is_number c in
      let frontend = get_frontend_name is_letter is_number p c in
      let (servers, frontends, backends) =
        group_lem p rest
          (record t {
            frontends = append_to frontend c t.frontends;
            backends = insert backend c t.backends;
            servers = append_to backend c t.servers;
          })
          name in
      (
        servers
            ∙ ap (λ l. l ++ keep (λ d. str_eq (get_backend is_letter is_number d) name) rest)
                (grouped-append_to name backend c t.servers)
            ∙ keep-cons (λ d. str_eq (get_backend is_letter is_number d) name) c rest
                (grouped name t.servers),
        frontends
            ∙ ap
                (λ l. l ++ keep (λ d. str_eq (get_frontend_name is_letter is_number p d) name) rest)
                (grouped-append_to name frontend c t.frontends)
            ∙ keep-cons (λ d. str_eq (get_frontend_name is_letter is_number p d) name) c rest
                (grouped name t.frontends),
        backends
            ∙ ap (λ o. last_such (λ d. str_eq (get_backend is_letter is_number d) name) o rest)
                (lookup-insert backend name c t.backends),
      )

  -- Of the containers that pass the filter, in order, the servers of a backend are those that name
  -- it, the containers of a frontend are those that have its name, and the container of a backend
  -- is the last of its servers.
  pub template_objects_lem :
      (glob : Str → Str → Bool) (is_int : Str → Bool) (p : Provider) (inspected : List DockerData)
      (name : Str)
      → let t = template_objects is_letter is_number glob is_int p inspected in
        let passed = keep (container_filter glob is_int p) inspected in
        let named : DockerData → Bool = λ c. str_eq (get_backend is_letter is_number c) name in
        (grouped name t.servers ≡ keep named passed)
        × (grouped name t.frontends
            ≡ keep (λ c. str_eq (get_frontend_name is_letter is_number p c) name) passed)
        × (lookup name t.backends ≡ last_such named none passed)
  unfolding template_objects lookup
  template_objects_lem glob is_int p inspected name =
      group_lem p (keep (container_filter glob is_int p) inspected) _ name
