-- ===== src/Provider/Marathon/Bounds.antt =====
-- provider/marathon/marathon.go: an index from a label never leaves the list.
use traefik.Prelude.{
  ℕ, zero, suc, ◌<◌, Bool, true, false, not, Option, none, some, List, [], ◌∷◌, length, Str, codes,
  Dict, lookup, is_empty, is_some, is_positive, ◌&&◌, if◌then◌else◌, ltb, ℤ, pos, negsuc, ◌≡◌, refl,
  sym, ◌∙◌, Bool-cases, Option-cases, inl, inr, arith,
}
use traefik.Provider.Marathon.{Application, Task}
use traefik.Provider.Marathon.Tasks.{
  Ports, found, failed, panicked, discovered, retrieve_available_ports, parse_index, port_at,
  select_port, labelled_port, ports_of, process_ports,
}

abbrev pub is_panic : Ports → Bool
is_panic (found port) = false
is_panic (failed e) = false
is_panic panicked = true

-- There is an address for each task, and no discovery, or one whose ports are nil.
abbrev pub lacks_ports : Option (Option (Option (List ℤ))) → Bool
lacks_ports none = false
lacks_ports (some none) = true
lacks_ports (some (some none)) = true
lacks_ports (some (some (some ports))) = false

retrieve_none :
    (a : Application) (t : Task)
    → not (is_some (retrieve_available_ports a t))
      ≡ (is_empty t.ports && is_empty a.port_definitions && lacks_ports a.ip_address_per_task)
unfolding retrieve_available_ports
retrieve_none a t = elim (Bool-cases (is_empty t.ports)) [
  | inr m ↦ rw (m, retrieve_available_ports) refl
  | inl y ↦ elim (Bool-cases (is_empty a.port_definitions)) [
    | inr m ↦ rw (y, m, retrieve_available_ports) refl
    | inl z ↦ rw (y, z, retrieve_available_ports) (of_discovery a.ip_address_per_task)
  ]
]
  where
    of_discovery :
        (o : Option (Option (Option (List ℤ)))) → not (is_some (discovered o)) ≡ lacks_ports o
    of_discovery none = refl
    of_discovery (some none) = refl
    of_discovery (some (some none)) = refl
    of_discovery (some (some (some ports))) = refl

module _ (atoi : Str → Option ℤ) where
  parse_index_lt : (index : Str) (len n : ℕ) → parse_index atoi index len ≡ some n → n < len
  unfolding parse_index
  parse_index_lt index len n e = by_parsed (atoi index) e
    where
      by_parsed :
          (o : Option ℤ)
          → elim o [
            | none ↦ none
            | some parsed ↦ elim parsed [
              | pos i ↦ if ltb i len then some i else none
              | negsuc i ↦ none
            ]
          ]
            ≡ some n
          → n < len
      by_parsed none q = cc
      by_parsed (some (negsuc i)) q = cc
      by_parsed (some (pos i)) q = ground (arith, q)

  port_at_found :
      (ports : List ℤ) (i : ℕ) → i < length ports → is_panic (port_at atoi ports i) ≡ false
  port_at_found [] i h = ground arith
  port_at_found (x ∷ ports) zero h = refl
  port_at_found (x ∷ ports) (suc i) h = port_at_found ports i (omega arith)

  select_port_found :
      (port_index : Option Str) (ports : List ℤ)
      → is_panic (select_port atoi port_index ports) ≡ false
  unfolding select_port
  select_port_found none [] = refl
  select_port_found (some label) [] = refl
  select_port_found none (port ∷ ports) = refl
  select_port_found (some label) (port ∷ ports) =
      elim (Option-cases (parse_index atoi label (length (port ∷ ports)))) [
        | inl q ↦ rw (select_port, q) refl
        | inr (i, q) ↦
            rw (select_port, q)
              (port_at_found (port ∷ ports) i (parse_index_lt label (length (port ∷ ports)) i q))
      ]

  labelled_port_found : (label : Str) → is_panic (labelled_port atoi label) ≡ false
  unfolding labelled_port
  labelled_port_found label = elim (Option-cases (atoi label)) [
    | inl q ↦ rw (labelled_port, q) refl
    | inr (n, q) ↦ elim (Bool-cases (is_positive n)) [
      | inl y ↦ rw (labelled_port, q, y) refl
      | inr m ↦ rw (labelled_port, q, m) refl
    ]
  ]

  -- What panics: labels that are nil; and, where no label sets a port, nil ports of a discovery or a
  -- nil discovery, if the task has no ports and none are defined.
  abbrev pub is_unsafe : Option (Dict Str) → Application → Task → Bool
  is_unsafe none application task = true
  is_unsafe (some labels) application task =
      not (is_some (lookup (codes "traefik.port") labels))
      && is_empty task.ports
      && is_empty application.port_definitions
      && lacks_ports application.ip_address_per_task

  ports_of_panics :
      (labels : Option (Dict Str)) (a : Application) (t : Task)
      → is_panic (ports_of atoi labels a t) ≡ is_unsafe labels a t
  unfolding ports_of
  ports_of_panics none a t = refl
  ports_of_panics (some labels) a t = elim (Option-cases (lookup (codes "traefik.port") labels)) [
    | inr (label, q) ↦ rw (ports_of, q) (labelled_port_found label)
    | inl q ↦
        rw (ports_of, q)
          (elim (Option-cases (retrieve_available_ports a t)) [
            | inl r ↦
                let none_there : not (is_some (retrieve_available_ports a t)) ≡ true = rw r refl in
                rw r (sym none_there ∙ retrieve_none a t)
            | inr (ports, r) ↦
                let some_there : not (is_some (retrieve_available_ports a t)) ≡ false = rw r refl in
                rw r (
                  select_port_found (lookup (codes "traefik.portIndex") labels) ports
                  ∙ sym some_there
                  ∙ retrieve_none a t)
          ])
  ]

  -- Whatever index a label gives, processPorts returns a port or an error, and uses a nil pointer in
  -- exactly these cases: the labels of the application are nil; or no label sets a port, the task has
  -- none, none are defined, and the application has an address for each task, and no discovery or one
  -- whose ports are nil.
  pub process_ports_panics :
      (application : Application) (task : Task)
      → is_panic (process_ports atoi application task)
        ≡ is_unsafe application.labels application task
  unfolding process_ports
  process_ports_panics application task = ports_of_panics application.labels application task
