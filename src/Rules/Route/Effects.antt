-- ===== src/Rules/Route/Effects.antt =====
-- What a rule as a whole does to the route of a frontend.
use traefik.Prelude.{
  Bool, true, false, ◌||◌, not, Option, none, some, List, [], ◌∷◌, Str, is_empty, add_length, ◌≡◌,
  ◌↔◌, refl, ap, ◌∙◌, arith, Result-cases, inl, inr, Bool-cases,
}
use traefik.Text.{is, byte_length, fields_func}
use traefik.Rules.{
  Function, path_strip, path_prefix_strip, path_strip_regex, path_prefix_strip_regex, RuleError,
  parse_rule, parse_loop, parse_rules, proceed,
}
use traefik.Rules.Parse.{
  print_rules, ArePrintable, run, parse_rules-print_rules, parse_loop_inv, parse_rules_inv,
}
use traefik.Rules.Route.{
  IsBySize, Mux, ServerRoute, apply, Parsing, call, parse, routed, panicked, with_priority,
  get_route,
}

module _ (mux : Mux) where
  open mux use {Route, get_error, get_priority, set_priority}

  -- The prefixes that are stripped are tried longest first.
  abbrev pub PrefixesBySize : ServerRoute Route → Type 0
  PrefixesBySize sr = IsBySize sr.strip_prefixes × IsBySize sr.strip_prefixes_regex

  apply-PrefixesBySize :
      (f : Function) (args : List Str) (sr : ServerRoute Route)
      → PrefixesBySize sr
      → PrefixesBySize (apply mux f args sr)
  unfolding apply
  apply-PrefixesBySize path_strip args sr h = (mux.sort_by_size-IsBySize args, h.1)
  apply-PrefixesBySize path_prefix_strip args sr h = (mux.sort_by_size-IsBySize args, h.1)
  apply-PrefixesBySize path_strip_regex args sr h = (h.0, mux.sort_by_size-IsBySize args)
  apply-PrefixesBySize path_prefix_strip_regex args sr h = (h.0, mux.sort_by_size-IsBySize args)
  apply-PrefixesBySize _ args sr h = h

  with_priority_same :
      (rule : Str) (o : Parsing mux × Option (RuleError Str))
      → PrefixesBySize o.0.server_route
      → PrefixesBySize (with_priority mux rule o).0
  unfolding with_priority
  with_priority_same rule (p, some e) h = h
  with_priority_same rule (p, none) h = elim (Bool-cases p.has_result) [
    | inl y ↦ rw y h
    | inr n ↦ rw n h
  ]

  -- Whatever a rule says, and whether it is refused or not, the prefixes of the route are ordered by
  -- size after it if they were before it.
  pub get_route-PrefixesBySize :
      (rule : Str) (sr : ServerRoute Route)
      → PrefixesBySize sr
      → PrefixesBySize (get_route mux rule sr).0
  unfolding get_route parse
  get_route-PrefixesBySize rule sr h = with_priority_same rule (parse mux rule sr) (
      parse_rules_inv (call mux) (λ p. PrefixesBySize p.server_route)
        (λ f args p k. unfold call in apply-PrefixesBySize f args p.server_route k) rule
        (record { server_route = sr; has_result = false }) h)

  -- The functions of the rules, applied in order.
  abbrev pub apply_all : List (Function × List Str) → ServerRoute Route → ServerRoute Route
  apply_all [] sr = sr
  apply_all ((f, args) ∷ rs) sr = apply_all rs (apply mux f args sr)

  -- The package mux reports no fault of the route after any of the functions.
  abbrev pub NoFault : List (Function × List Str) → ServerRoute Route → Type 0
  NoFault [] sr = Unit
  NoFault ((f, args) ∷ rs) sr =
      let next = apply mux f args sr in (get_error next.route ≡ none) × NoFault rs next

  run-call :
      (rs : List (Function × List Str)) (sr : ServerRoute Route) (b : Bool)
      → NoFault rs sr
      → run (call mux) rs (record { server_route = sr; has_result = b })
        ≡ (record { server_route = apply_all rs sr; has_result = b || not (is_empty rs) }, none)
  unfolding run call
  run-call [] sr true fine = refl
  run-call [] sr false fine = refl
  run-call ((f, args) ∷ rs) sr b (fine, later) =
      rw (fine, proceed)
        (run-call rs (apply mux f args sr) true later
          ∙ ap
              (λ c. (
                record { server_route = apply_all rs (apply mux f args sr); has_result = c },
                none,
              ))
              (true_lem b))
    where
      true_lem : (b : Bool) → true ≡ (b || true)
      true_lem true = refl
      true_lem false = refl

  -- Where each of one or more rules has arguments, which are trimmed, not empty and without comma and
  -- semicolon, and where, with commas between them, every colon stands between two characters that
  -- are no colons; and where the package mux reports no fault of the route after each of their
  -- functions: the printed rules call their functions on the route in order, and raise the priority
  -- that the route then has by the length of the text.
  pub get_route-print_rules :
      (r : Function × List Str) (rs : List (Function × List Str)) (sr : ServerRoute Route)
      → NoFault (r ∷ rs) sr
      → ArePrintable (r ∷ rs)
      → let after = apply_all (r ∷ rs) sr in
        let length = byte_length (print_rules (r ∷ rs)) in
        let priority = add_length (get_priority after.route) length in
        get_route mux (print_rules (r ∷ rs)) sr
        ≡ (record after { route = set_priority priority after.route }, routed)
  unfolding get_route parse
  get_route-print_rules r rs sr fine h =
      ap (with_priority mux (print_rules (r ∷ rs)))
        (parse_rules-print_rules (call mux) r rs _ h ∙ run-call (r ∷ rs) sr false fine)
      ∙ unfold with_priority in refl

  -- A function that ran leaves a result behind.
  loop_has_result :
      (rule : Str) (rules : List Str) (p : Parsing mux)
      → (parse_loop (call mux) (rule ∷ rules) p).1 ≡ none
      → (parse_loop (call mux) (rule ∷ rules) p).0.has_result ≡ true
  unfolding parse_loop
  loop_has_result rule rules p h = elim (Result-cases (parse_rule {E = Str} rule)) [
    | inr (e, n) ↦ absurd (ground arith)
    | inl ((f, args), y) ↦
        rw (y, parse_loop)
          (after (call mux f args p) (unfold call in refl) (rw (y, parse_loop) at h))
  ]
    where
      after :
          (o : Parsing mux × Option Str)
          → o.0.has_result ≡ true
          → (proceed o (parse_loop (call mux) rules)).1 ≡ none
          → (proceed o (parse_loop (call mux) rules)).0.has_result ≡ true
      after (q, some e) k h' = cc
      after (q, none) k h' =
          parse_loop_inv (call mux) (λ q'. q'.has_result ≡ true)
            (λ f args q' k'. unfold call in refl) rules q k

  panicked_iff :
      (rule : Str) (o : Parsing mux × Option (RuleError Str))
      → ((with_priority mux rule o).1 ≡ panicked) ↔ ((o.1 ≡ none) × (o.0.has_result ≡ false))
  unfolding with_priority
  panicked_iff rule (p, some e) = ground arith
  panicked_iff rule (p, none) = ground arith

  no_result_iff :
      (rules : List Str) (sr : ServerRoute Route)
      → let o = parse_loop (call mux) rules (record { server_route = sr; has_result = false }) in
        ((o.1 ≡ none) × (o.0.has_result ≡ false)) ↔ (rules ≡ [])
  no_result_iff [] sr = unfold parse_loop in (λ h. refl, λ h. (refl, refl))
  no_result_iff (rule ∷ rules) sr =
      let start : Parsing mux = record { server_route = sr; has_result = false } in
      (λ h. cc (h.1, loop_has_result rule rules start h.0), λ h. cc h)

  -- The nil route is used exactly for a rule that is not empty and holds nothing but semicolons.
  pub get_route_panics_iff :
      (rule : Str) (sr : ServerRoute Route)
      → ((get_route mux rule sr).1 ≡ panicked)
        ↔ ((is_empty rule ≡ false) × (fields_func (is b';') rule ≡ []))
  unfolding get_route parse parse_rules with_priority
  get_route_panics_iff [] sr = (λ h. cc h, λ h. cc h.0)
  get_route_panics_iff (c ∷ s) sr =
      let fields = fields_func (is b';') (c ∷ s) in
      let (to, from) = no_result_iff fields sr in
      let (out, back) = panicked_iff (c ∷ s) (parse mux (c ∷ s) sr) in
      (λ h. (refl, to (out h)), λ h. back (from h.1))
