-- ===== src/Provider/Rancher/Stacks.antt =====
-- provider/rancher/rancher.go: which service stands for a frontend and for a backend.
use traefik.Prelude.{
  ℕ, Bool, none, List, [], ◌∷◌, Str, str_eq, lookup, insert, lookup-insert, keep, last_such, ◌≡◌,
  refl, ◌∙◌, ap,
}
use traefik.Provider.Rancher.{
  Provider, RancherData, TemplateObjects, get_frontend_name, get_backend, service_filter, group,
  template_objects,
}

module _ (is_letter is_number : ℕ → Bool) where
  group_lem :
      (p : Provider) (services : List RancherData) (t : TemplateObjects) (name : Str)
      → let after = group is_letter is_number p services t in
        (lookup name after.frontends
          ≡ last_such
              (λ s. str_eq (get_frontend_name is_letter is_number p s) name)
              (lookup name t.frontends)
              services)
        × (lookup name after.backends
            ≡ last_such
                (λ s. str_eq (get_backend is_letter is_number s) name)
                (lookup name t.backends)
                services)
  unfolding group
  group_lem p [] t name = (refl, refl)
  group_lem p (s ∷ rest) t name =
      let frontend = get_frontend_name is_letter is_number p s in
      let backend = get_backend is_letter is_number s in
      let (frontends, backends) =
        group_lem p rest
          (record t {
            frontends = insert frontend s t.frontends;
            backends = insert backend s t.backends;
          })
          name in
      (
        frontends
            ∙ ap
                (λ o.
                  last_such (λ r. str_eq (get_frontend_name is_letter is_number p r) name) o rest)
                (lookup-insert frontend name s t.frontends),
        backends
            ∙ ap (λ o. last_such (λ r. str_eq (get_backend is_letter is_number r) name) o rest)
                (lookup-insert backend name s t.backends),
      )

  -- Of the services that pass the filter, the last with the name of a frontend or of a backend stands
  -- for it; the others of that name are lost.
  pub template_objects_lasts :
      (glob : Str → Str → Bool) (p : Provider) (services : List RancherData) (name : Str)
      → let t = template_objects is_letter is_number glob p services in
        let passed = keep (service_filter glob p) services in
        (lookup name t.frontends
          ≡ last_such (λ s. str_eq (get_frontend_name is_letter is_number p s) name) none passed)
        × (lookup name t.backends
            ≡ last_such (λ s. str_eq (get_backend is_letter is_number s) name) none passed)
  unfolding template_objects lookup
  template_objects_lasts glob p services name =
      group_lem p (keep (service_filter glob p) services)
        (record { frontends = []; backends = []; domain = p.domain }) name
