-- ===== src/Provider/Kubernetes/Consistent.antt =====
-- provider/kubernetes/kubernetes.go: the configuration that is made of ingresses fits together.
use traefik.Prelude.{
  Bool, true, false, Option, none, some, List, [], ◌∷◌, ◌++◌, Str, codes, str_eq, str_eq_refl, Dict,
  lookup, insert, has_key, found-insert, found-update, found-delete, has_key-insert, has_key-update,
  if◌then◌else◌, ℤ, pos, ok, map_err, Holding, Holding-ok, and_next-Holding, fold_ok-Holding, ◌≡◌,
  refl, sym, ap, ◌∙◌, subst, Bool-cases, Option-cases, inl, inr, arith,
}
use mathlib.Core.Option
use traefik.Text.{equal_fold}
use traefik.Types.{Server, Backend, Frontend, LoadBalancer}
use traefik.Types.Balancing.{new_load_balancer_method}
use traefik.Provider.Kubernetes.{
  IngressPath, IngressRule, Ingress, Service, Client, annotation, Templates, new_backend, annotate,
  set_sticky, set_method, set_breaker, on_balancer, add_subset_servers, server_at, api_error,
  should_process_ingress,
}
use traefik.Provider.Kubernetes.Ingresses.{
  with_path_backend, with_frontend, add_rules, with_rules, with_service, load_path, load_rule,
  load_ingress, load_ingresses, service_servers, handle_basic_auth_config, realm_ok,
}

-- A backend whose method is read without an error and whose servers have the weight one.
pub record IsServing (b : Backend) : Type 0 where
  pub method : (new_load_balancer_method b.load_balancer).1 ≡ none
  pub weights : (k : Str) (s : Server) → lookup k b.servers ≡ some s → s.weight ≡ pos 1

-- Each frontend names the backend of its own key, which is there.
pub record IsConsistent (s : Templates) : Type 0 where
  pub serving : (k : Str) (b : Backend) → lookup k s.backends ≡ some b → IsServing b
  pub paired :
      (k : Str) (f : Frontend)
      → lookup k s.frontends ≡ some f
      → (f.backend ≡ k) × (has_key k s.backends ≡ true)

new_backend-IsServing : IsServing new_backend
unfolding new_load_balancer_method lookup equal_fold str_eq
new_backend-IsServing = record { method = refl; weights = λ k s e. cc }

add_subset_servers-weights :
    (ss : List (Str × Str)) (m : Dict Server)
    → ((k : Str) (s : Server) → lookup k m ≡ some s → s.weight ≡ pos 1)
    → (k : Str) (s : Server) → lookup k (add_subset_servers ss m) ≡ some s
    → s.weight ≡ pos 1
unfolding add_subset_servers
add_subset_servers-weights [] m w k s e = w k s e
add_subset_servers-weights ((name, url) ∷ ss) m w k s e =
    add_subset_servers-weights ss (insert name (server_at url) m)
      (λ j t q. elim (found-insert name j (server_at url) t m q) [
        | inl (_, p) ↦ subst (λ (x : Server). x.weight ≡ pos 1) p refl
        | inr p ↦ w j t p
      ])
      k s e

drr_method :
    (lb : LoadBalancer)
    → (new_load_balancer_method (some (record lb { method = codes "drr" }))).1 ≡ none
unfolding new_load_balancer_method equal_fold str_eq
drr_method lb = refl

same_method :
    (lb : LoadBalancer) (sticky : Bool)
    → (new_load_balancer_method (some lb)).1 ≡ none
    → (new_load_balancer_method (some (record lb { sticky = sticky }))).1 ≡ none
unfolding new_load_balancer_method
same_method lb sticky e = e

mapped :
    (f : LoadBalancer → LoadBalancer) (o : Option LoadBalancer)
    → ((lb : LoadBalancer)
        → (new_load_balancer_method (some lb)).1 ≡ none
        → (new_load_balancer_method (some (f lb))).1 ≡ none)
    → (new_load_balancer_method o).1 ≡ none
    → (new_load_balancer_method (Option.map f o)).1 ≡ none
mapped f none keeps e = e
mapped f (some lb) keeps e = keeps lb e

on_balancer-IsServing :
    (f : LoadBalancer → LoadBalancer) (b : Backend)
    → ((lb : LoadBalancer)
        → (new_load_balancer_method (some lb)).1 ≡ none
        → (new_load_balancer_method (some (f lb))).1 ≡ none)
    → IsServing b
    → IsServing (on_balancer f b)
on_balancer-IsServing f b keeps v = record {
  method = mapped f b.load_balancer keeps v.method;
  weights = v.weights;
}

if-IsServing :
    (c : Bool) (b d : Backend) → IsServing b → IsServing d → IsServing (if c then b else d)
if-IsServing true b d v w = v
if-IsServing false b d v w = w

annotate-IsServing :
    (annotations : Dict Str) (b : Backend) → IsServing b → IsServing (annotate annotations b)
unfolding annotate set_sticky set_method set_breaker
annotate-IsServing annotations b v =
    let b₁ = set_breaker annotations b in
    let b₂ = set_method annotations b₁ in
    let v₁ : IsServing b₁ =
      if-IsServing _ _ _ v (record { method = v.method; weights = v.weights }) in
    let v₂ : IsServing b₂ =
      if-IsServing _ _ _ (on_balancer-IsServing _ b₁ (λ lb e. drr_method lb) v₁) v₁ in
    if-IsServing _ _ _ (on_balancer-IsServing _ b₂ (λ lb e. same_method lb true e) v₂) v₂

annotate-servers :
    (annotations : Dict Str) (b : Backend) → (annotate annotations b).servers ≡ b.servers
unfolding annotate set_sticky set_method set_breaker
annotate-servers annotations b = ground arith

module _ (client : Client) (scan_lines : Str → List Str) (itoa : ℤ → Str) where
  with_path_backend-IsConsistent :
      (key : Str) (s : Templates)
      → IsConsistent s
      → IsConsistent (with_path_backend client scan_lines itoa key s)
        × (has_key key (with_path_backend client scan_lines itoa key s).backends ≡ true)
  unfolding with_path_backend
  with_path_backend-IsConsistent key s v = elim (Bool-cases (has_key key s.backends)) [
    | inl y ↦ rw y (record { serving = v.serving; paired = v.paired }, y)
    | inr n ↦ rw n (
      record {
        serving = λ k b e. elim (found-insert key k new_backend b s.backends e) [
          | inl (_, q) ↦ subst IsServing q new_backend-IsServing
          | inr q ↦ v.serving k b q
        ];
        paired = λ k f e.
            let (p, h) = v.paired k f e in
            (p, ground (arith, has_key-insert key k new_backend s.backends, h));
      },
      ground (arith, has_key-insert key key new_backend s.backends, str_eq_refl key),
    )
  ]

  with_frontend-IsConsistent :
      (disabled : Bool) (i : Ingress) (key path : Str) (s : Templates)
      → IsConsistent s
      → has_key key s.backends ≡ true
      → Holding IsConsistent (with_frontend client scan_lines itoa disabled i key path s)
  unfolding with_frontend
  with_frontend-IsConsistent disabled i key path s v h =
      elim (Bool-cases (has_key key s.frontends)) [
        | inl y ↦ rw (y, with_frontend) v
        | inr n ↦
            rw (n, with_frontend)
              (and_next-Holding IsConsistent (handle_basic_auth_config client scan_lines itoa i) _
                (λ creds _. record {
                  serving = v.serving;
                  paired = λ k f e. elim (found-insert key k _ f s.frontends e) [
                    | inl (p, q) ↦ (
                      ap (λ (x : Frontend). x.backend) (sym q) ∙ p,
                      subst (λ j. has_key j s.backends ≡ true) p h,
                    )
                    | inr q ↦ v.paired k f q
                  ];
                }))
      ]

  with_rules-IsConsistent :
      (annotations : Dict Str) (key host path : Str) (s : Templates)
      → IsConsistent s
      → IsConsistent (with_rules client scan_lines itoa annotations key host path s)
  unfolding with_rules add_rules
  with_rules-IsConsistent annotations key host path s v = record {
    serving = v.serving;
    paired = λ k f e.
        elim (found-update key k (add_rules client scan_lines itoa annotations host path) f
          s.frontends e) [
            | inl (_, (g, q, p)) ↦
                let (r, h) = v.paired k g q in (ap (λ (x : Frontend). x.backend) (sym p) ∙ r, h)
            | inr q ↦ v.paired k f q
          ];
  }

  with_service-IsConsistent :
      (key : Str) (pa : IngressPath) (found : Option Service) (s : Templates)
      → IsConsistent s
      → Holding IsConsistent (with_service client scan_lines itoa key pa found s)
  unfolding with_service
  with_service-IsConsistent key pa none s v = record {
    serving = v.serving;
    paired = λ k f e. v.paired k f (found-delete key k f s.frontends e);
  }
  with_service-IsConsistent key pa (some service) s v =
      and_next-Holding IsConsistent
        (service_servers client scan_lines itoa service pa.service_port (codes "http")
          service.ports)
        _
        (λ servers _. record {
          serving = λ k b e. elim (found-update key k _ b s.backends e) [
            | inl (_, (c, q, p)) ↦
                let w = annotate-IsServing service.annotations c (v.serving k c q) in
                subst IsServing p (record {
                  method = w.method;
                  weights = add_subset_servers-weights servers _ w.weights;
                })
            | inr q ↦ v.serving k b q
          ];
          paired =
              λ k f e. let (p, h) = v.paired k f e in (p, has_key-update key k _ s.backends ∙ h);
        })

  load_path-IsConsistent :
      (disabled : Bool) (i : Ingress) (host : Str) (pa : IngressPath) (s : Templates)
      → IsConsistent s
      → Holding IsConsistent (load_path client scan_lines itoa disabled i host pa s)
  unfolding load_path
  load_path-IsConsistent disabled i host pa s v =
      let key = host ++ pa.path in
      elim (Bool-cases (realm_ok client scan_lines itoa i.annotations)) [
        | inr n ↦ rw (n, load_path) tt
        | inl y ↦
            let (v₁, h) = with_path_backend-IsConsistent key s v in
            let s₁ = with_path_backend client scan_lines itoa key s in
            rw (y, load_path)
              (and_next-Holding IsConsistent
                (with_frontend client scan_lines itoa disabled i key pa.path s₁) _
                (λ s₂ e.
                  let v₂ =
                    Holding-ok IsConsistent _ s₂ e
                      (with_frontend-IsConsistent disabled i key pa.path s₁ v₁ h) in
                  and_next-Holding IsConsistent
                    (map_err api_error (client.get_service i.namespace pa.service_name)) _
                    (λ found _.
                      with_service-IsConsistent key pa found
                        (with_rules client scan_lines itoa i.annotations key host pa.path s₂)
                        (with_rules-IsConsistent i.annotations key host pa.path s₂ v₂))))
      ]

  load_rule-IsConsistent :
      (disabled : Bool) (i : Ingress) (r : IngressRule) (s : Templates)
      → IsConsistent s
      → Holding IsConsistent (load_rule client scan_lines itoa disabled i r s)
  unfolding load_rule
  load_rule-IsConsistent disabled i r s v = elim (Option-cases r.http) [
    | inl e ↦ rw (e, load_rule) v
    | inr (paths, e) ↦
        rw (e, load_rule)
          (fold_ok-Holding IsConsistent (load_path client scan_lines itoa disabled i r.host)
            (load_path-IsConsistent disabled i r.host) paths s v)
  ]

  load_ingress-IsConsistent :
      (disabled : Bool) (i : Ingress) (s : Templates)
      → IsConsistent s
      → Holding IsConsistent (load_ingress client scan_lines itoa disabled i s)
  unfolding load_ingress
  load_ingress-IsConsistent disabled i s v =
      elim (Bool-cases
        (should_process_ingress (annotation (codes "kubernetes.io/ingress.class") i.annotations))) [
          | inr n ↦ rw (n, load_ingress) v
          | inl y ↦
              rw (y, load_ingress)
                (fold_ok-Holding IsConsistent (load_rule client scan_lines itoa disabled i)
                  (load_rule-IsConsistent disabled i) i.rules s v)
        ]

  empty-IsConsistent : IsConsistent (record { backends = []; frontends = [] })
  unfolding lookup
  empty-IsConsistent = record { serving = λ k b e. cc; paired = λ k f e. cc }

  -- Where ingresses give a configuration, each frontend in it names the backend of its own key, which
  -- is there; the method of each backend is read without an error, and its servers weigh one.
  pub load_ingresses-IsConsistent :
      (disabled : Bool) (ingresses : List Ingress) (made : Templates)
      → load_ingresses client scan_lines itoa disabled ingresses ≡ ok made
      → IsConsistent made
  unfolding load_ingresses
  load_ingresses-IsConsistent disabled ingresses made e = Holding-ok IsConsistent _ made e (
      fold_ok-Holding IsConsistent (load_ingress client scan_lines itoa disabled)
        (load_ingress-IsConsistent disabled) ingresses (record { backends = []; frontends = [] })
        empty-IsConsistent)
