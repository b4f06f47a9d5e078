-- ===== src/Provider/Marathon/Served.antt =====
-- provider/marathon/marathon.go: the applications and the tasks that pass fit together.
use mathlib.Core.List.{Memᴰ}
use mathlib.Core.Option
use traefik.Prelude.{
  Bool, true, false, Option, none, some, not, List, [], ◌∷◌, Str, Dict, str_eq, str_eq_iff, any,
  if◌then◌else◌, ℤ, ◌≡◌, refl, sym, ◌∙◌, subst, Bool-cases, Option-cases, inl, inr, arith,
}
use traefik.Provider.{match_constraints}
use traefik.Provider.Marathon.Filtering.{any-mem, All-mem, filter_all-All, filter_all-mem}
use traefik.Provider.Marathon.{Provider, Application, Task, get_application}
use traefik.Provider.Marathon.Tasks.{
  Ports, found, failed, panicked, process_ports, constraint_tags, admits_with, admits, task_filter,
  application_filter, filter_all, template_objects,
}

get_application-mem :
    (t : Task) (apps : List Application) (a : Application)
    → get_application t apps ≡ some a
    → Memᴰ a apps × (str_eq a.id t.app_id ≡ true)
unfolding get_application
get_application-mem t [] a e = cc
get_application-mem t (b ∷ apps) a e = elim (Bool-cases (str_eq b.id t.app_id)) [
  | inl y ↦
      let found_here : get_application t (b ∷ apps) ≡ some b = rw (get_application, y) refl in
      let same : a ≡ b = cc in
      (Memᴰ.head same, subst (λ c. str_eq c.id t.app_id ≡ true) (sym same) y)
  | inr n ↦
      let found_later : get_application t (b ∷ apps) ≡ get_application t apps =
        rw (get_application, n) refl in
      let (m, q) = get_application-mem t apps a (sym found_later ∙ e) in (Memᴰ.tail m, q)
]

module _ (atoi : Str → Option ℤ) (glob : Str → Str → Bool) where
  -- A task that passed: its application is found and admits it, and it has a port.
  pub record IsAdmitted (p : Provider) (applications : List Application) (t : Task) : Type 0 where
    pub application : Application
    pub port : ℤ
    pub its_application : get_application t applications ≡ some application
    pub its_port : process_ports atoi application t ≡ found port
    pub admitted : admits atoi glob p application t ≡ some true

  task_filter-IsAdmitted :
      (p : Provider) (applications : List Application) (t : Task)
      → task_filter atoi glob p applications t ≡ some true
      → IsAdmitted p applications t
  unfolding task_filter
  task_filter-IsAdmitted p applications t e = elim (Option-cases (get_application t applications)) [
    | inl q ↦
        let refused : task_filter atoi glob p applications t ≡ some false =
          rw (task_filter, q) refl in
        cc
    | inr (a, q) ↦ by_ports a q (process_ports atoi a t) refl
  ]
    where
      by_ports :
          (a : Application)
          → get_application t applications ≡ some a
          → (r : Ports) → process_ports atoi a t ≡ r
          → IsAdmitted p applications t
      by_ports a q (found n) r =
          let passes : task_filter atoi glob p applications t ≡ admits atoi glob p a t =
            rw (task_filter, q, r) refl in
          record {
            application = a;
            port = n;
            its_application = q;
            its_port = r;
            admitted = sym passes ∙ e;
          }
      by_ports a q (failed x) r =
          let refused : task_filter atoi glob p applications t ≡ some false =
            rw (task_filter, q, r) refl in
          cc
      by_ports a q panicked r =
          let panics : task_filter atoi glob p applications t ≡ none =
            rw (task_filter, q, r) refl in
          cc

  -- An application that admits a task has the tags that are asked for.
  admitted-passes :
      (p : Provider) (a : Application) (t : Task) (named : Bool) (labels : Option (Dict Str))
      → Option.map (λ l. admits_with atoi glob l p a t) labels ≡ some true
      → named ≡ true
      → Option.map
          (λ l.
            if not (match_constraints glob p.constraints (constraint_tags p l)).0
            then false
            else named)
          labels
        ≡ some true
  unfolding admits_with
  admitted-passes p a t named none h k = cc
  admitted-passes p a t named (some labels) h k =
      let admitted : admits_with atoi glob labels p a t ≡ true = cc in
      let matches : (match_constraints glob p.constraints (constraint_tags p labels)).0 ≡ true =
        ground (arith, admitted) in
      rw (matches, k) refl

  application_filter-admitted :
      (p : Provider) (a : Application) (t : Task) (passed : List Task)
      → admits atoi glob p a t ≡ some true
      → str_eq a.id t.app_id ≡ true
      → Memᴰ t passed
      → application_filter atoi glob p passed a ≡ some true
  unfolding application_filter admits
  application_filter-admitted p a t passed h q m =
      let same : t.app_id ≡ a.id = sym ((str_eq_iff a.id t.app_id).0 q) in
      let asked : str_eq t.app_id a.id ≡ true = (str_eq_iff t.app_id a.id).1 same in
      admitted-passes p a t (any (λ u. str_eq u.app_id a.id) passed) a.labels h
        (any-mem (λ u. str_eq u.app_id a.id) t passed m asked)

  -- Where the filters give applications and tasks, each of these tasks has a port, and the
  -- application that is found for it admits it and is among these applications.
  pub template_objects-IsAdmitted :
      (p : Provider) (applications apps : List Application) (tasks passed : List Task)
      → template_objects atoi glob p applications tasks ≡ some (apps, passed)
      → (t : Task) → Memᴰ t passed
      → (h : IsAdmitted p applications t) × Memᴰ h.application apps
  unfolding template_objects
  template_objects-IsAdmitted p applications apps tasks passed e t m =
      elim (Option-cases (filter_all (task_filter atoi glob p applications) tasks)) [
        | inl q ↦
            let panics : template_objects atoi glob p applications tasks ≡ none =
              rw (template_objects, q) refl in
            cc
        | inr (ts, q) ↦
            elim (Option-cases (filter_all (application_filter atoi glob p ts) applications)) [
              | inl r ↦
                  let panics : template_objects atoi glob p applications tasks ≡ none =
                    rw (template_objects, q, r) refl in
                  cc
              | inr (as_given, r) ↦
                  let made : template_objects atoi glob p applications tasks ≡ some (as_given, ts) =
                    rw (template_objects, q, r) refl in
                  let same_apps : as_given ≡ apps = cc in
                  let same_tasks : ts ≡ passed = cc in
                  let here : Memᴰ t ts = subst (Memᴰ t) (sym same_tasks) m in
                  let h = All-mem (IsAdmitted p applications) t ts here (
                    filter_all-All (task_filter atoi glob p applications)
                      (task_filter-IsAdmitted p applications) tasks ts q) in
                  let (there, named) =
                    get_application-mem t applications h.application h.its_application in
                  (
                    h,
                    subst (Memᴰ h.application) same_apps (
                        filter_all-mem (application_filter atoi glob p ts) h.application
                          applications as_given there
                          (application_filter-admitted p h.application t ts h.admitted named here)
                          r),
                  )
            ]
      ]
