-- ===== src/Provider/Ecs/Instances.antt =====
-- provider/ecs/ecs.go: one instance stands for a frontend, and those that are served have an address.
use traefik.Prelude.{
  Bool, true, false, ◌&&◌, Option, none, some, List, [], ◌∷◌, take, keep, any, is_some, Str, codes,
  str_eq, str_eq_iff, if◌then◌else◌, ◌≡◌, refl, ◌∙◌, ap, subst, Bool-cases, Option-cases, inl, inr,
  arith,
}
use traefik.Provider.Ecs.{
  Provider, Machine, EcsInstance, host, is_reachable, filter_instance, first_of_names,
  filter_frontends,
}

abbrev named : Str → EcsInstance → Bool
named name i = str_eq i.name name

first_of_names_lem :
    (name : Str) (seen : List Str) (instances : List EcsInstance)
    → keep (named name) (first_of_names seen instances)
      ≡ (if any (λ n. str_eq n name) seen then [] else take 1 (keep (named name) instances))
unfolding first_of_names
first_of_names_lem name seen [] = elim (Bool-cases (any (λ n. str_eq n name) seen)) [
  | inl y ↦ rw y refl
  | inr n ↦ rw n refl
]
first_of_names_lem name seen (i ∷ instances) =
    let later = first_of_names_lem name seen instances in
    let noted = first_of_names_lem name (i.name ∷ seen) instances in
    elim (Bool-cases (any (λ n. str_eq n i.name) seen)) [
      | inl y ↦ elim (Bool-cases (str_eq i.name name)) [
        | inl m ↦
            let met : any (λ n. str_eq n name) seen ≡ true =
              subst (λ t. any (λ n. str_eq n t) seen ≡ true) ((str_eq_iff i.name name).0 m) y in
            rw (y, m, met) (later ∙ rw met refl)
        | inr o ↦ rw (y, o) later
      ]
      | inr n ↦ elim (Bool-cases (str_eq i.name name)) [
        | inl m ↦
            let unmet : any (λ n. str_eq n name) seen ≡ false =
              subst (λ t. any (λ n. str_eq n t) seen ≡ false) ((str_eq_iff i.name name).0 m) n in
            rw (n, m, unmet) (ap (λ l. i ∷ l) (noted ∙ rw m refl))
        | inr o ↦ rw (n, o) (noted ∙ rw o refl)
      ]
    ]

-- Of the instances of each name the first stands for its frontend, and no other.
pub filter_frontends_lem :
    (name : Str) (instances : List EcsInstance)
    → keep (λ i. str_eq i.name name) (filter_frontends instances)
      ≡ take 1 (keep (λ i. str_eq i.name name) instances)
unfolding filter_frontends
filter_frontends_lem name instances = first_of_names_lem name [] instances

-- An instance that passes the filter has an address that Host reads.
pub filter_instance-host :
    (p : Provider) (i : EcsInstance) → filter_instance p i ≡ true → is_some (host i) ≡ true
unfolding filter_instance host is_reachable
filter_instance-host p i h = of_machine i.machine (reached p i h)
  where
    reached :
        (q : Provider) (j : EcsInstance)
        → filter_instance q j ≡ true
        → is_reachable j.machine ≡ true
    reached q j e = ground arith

    of_machine :
        (m : Option Machine)
        → is_reachable m ≡ true
        → is_some (elim m [ none ↦ none | some n ↦ n.private_ip_address ]) ≡ true
    of_machine none e = cc
    of_machine (some m) e = elim (Option-cases m.state_name) [
      | inl q ↦ let unreached : is_reachable (some m) ≡ false = rw (is_reachable, q) refl in cc
      | inr (state, q) ↦
          let reached_by : is_reachable (some m)
              ≡ (str_eq state (codes "running") && is_some m.private_ip_address) =
            rw (is_reachable, q) refl in
          ground (arith, reached_by, e)
    ]
