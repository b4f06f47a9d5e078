-- ===== src/Provider/ConsulCatalog/Nodes.antt =====
-- provider/consul/consul_catalog.go: which nodes are served, once some node of their service is
-- enabled.
use mathlib.Core.List.{Memᴰ}
use traefik.Prelude.{true, List, [], ◌∷◌, ◌++◌, ◌≡◌, inl, inr, Bool-cases, subst}
use traefik.Provider.ConsulCatalog.{
  CatalogProvider, ServiceEntry, CatalogUpdate, is_enabled, enabled_services,
}

mem-append-left : (x : ServiceEntry) (xs ys : List ServiceEntry) → Memᴰ x xs → Memᴰ x (xs ++ ys)
mem-append-left x [] ys m = elim m [ ]
mem-append-left x (y ∷ xs) ys (Memᴰ.head e) = Memᴰ.head e
mem-append-left x (y ∷ xs) ys (Memᴰ.tail m) = Memᴰ.tail (mem-append-left x xs ys m)

mem-append-right : (x : ServiceEntry) (xs ys : List ServiceEntry) → Memᴰ x ys → Memᴰ x (xs ++ ys)
mem-append-right x [] ys m = m
mem-append-right x (y ∷ xs) ys m = Memᴰ.tail (mem-append-right x xs ys m)

-- All nodes of a service are served where one of them is enabled, the disabled ones among them.
pub enabled_services-nodes :
    (p : CatalogProvider) (catalog : List CatalogUpdate) (info : CatalogUpdate)
    (node : ServiceEntry)
    → Memᴰ info catalog
    → is_enabled p info ≡ true
    → Memᴰ node info.nodes
    → Memᴰ node (enabled_services p catalog).1
unfolding enabled_services
enabled_services-nodes p [] info node m y n = elim m [ ]
enabled_services-nodes p (i ∷ catalog) info node (Memᴰ.head e) y n =
    let here : is_enabled p i ≡ true = subst (λ j. is_enabled p j ≡ true) e y in
    rw (enabled_services, here)
      (mem-append-left node i.nodes (enabled_services p catalog).1
        (subst (λ j. Memᴰ node j.nodes) e n))
enabled_services-nodes p (i ∷ catalog) info node (Memᴰ.tail m) y n =
    let later = enabled_services-nodes p catalog info node m y n in
    elim (Bool-cases (is_enabled p i)) [
      | inl z ↦
          rw (enabled_services, z)
            (mem-append-right node i.nodes (enabled_services p catalog).1 later)
      | inr z ↦ rw (enabled_services, z) later
    ]
