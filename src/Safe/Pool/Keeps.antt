-- ===== src/Safe/Pool/Keeps.antt =====
-- safe/routine.go: what every step of a pool keeps of the wait group and the goroutines.
use traefik.Prelude.{
  ℕ, zero, suc, Bool, true, false, Option, some, List, [], ◌∷◌, ◌++◌, length, get_elem?, set_elem,
  ◌≡◌, refl, subst, Option-cases, inl, inr, IfSome,
}
use traefik.Safe.Pool.{
  empty, full, closed, with_stop, with_ctx, of_go, of_go_ctx, of_start, of_start_ctx, Closure, Call,
  Goroutine, pending, running, done, panicked, Phase, free, starting, starting_ctx, stopping,
  blocked, crashed, Pool, Action, add_go_ctx, go_ctx, go, stop, stopped, restart, next, run,
  receive_stop, complete, fail, call_of,
}
use traefik.Safe.Pool.Steps.{
  begin_call, next_routine, next_routine_ctx, if_next, hold_at, end_stop, set_goroutine,
  run_function, take_stop, return_call, fail_call, of_goroutine, step, steps,
}

-- A goroutine has neither returned nor panicked.
abbrev pub is_active : {G : Type 0} → Goroutine G → Bool
is_active (pending f) = true
is_active (running c) = true
is_active done = false
is_active panicked = false

module _ {G : Type 0} (Q : ℕ → List (Goroutine G) → Type 0)
    (launches : (n : ℕ) (rs : List (Goroutine G)) (f : Closure G)
      → Q n rs
      → Q (suc n) (rs ++ pending f ∷ []))
    (runs : (n : ℕ) (rs : List (Goroutine G)) (k : ℕ) (f : Closure G) (c : Call G)
      → get_elem? rs k ≡ some (pending f)
      → Q n rs
      → Q n (set_elem rs k (running c)))
    (panics : (n : ℕ) (rs : List (Goroutine G)) (k : ℕ) (r : Goroutine G)
      → get_elem? rs k ≡ some r
      → is_active r ≡ true
      → Q n rs
      → Q n (set_elem rs k panicked))
    (returns : (n : ℕ) (rs : List (Goroutine G)) (k : ℕ) (c : Call G)
      → get_elem? rs k ≡ some (running c)
      → Q (suc n) rs
      → Q n (set_elem rs k done)) where
  abbrev Keeps : Pool G → Type 0
  Keeps p = Q p.wait_group p.goroutines

  begin_call-Keeps : (a : Action G) (p : Pool G) → Keeps p → IfSome Keeps (begin_call a p)
  unfolding begin_call
  begin_call-Keeps (add_go_ctx g) p h = h
  begin_call-Keeps (go_ctx g) p h = launches p.wait_group p.goroutines (of_go_ctx g) h
  begin_call-Keeps (go g) p h = launches p.wait_group p.goroutines (of_go g (length p.channels)) h
  begin_call-Keeps stop p h = h
  begin_call-Keeps restart p h = h
  begin_call-Keeps stopped p h = tt
  begin_call-Keeps next p h = tt
  begin_call-Keeps (run k) p h = tt
  begin_call-Keeps (receive_stop k) p h = tt
  begin_call-Keeps (complete k) p h = tt
  begin_call-Keeps (fail k) p h = tt

  next_routine-Keeps : (cell i : ℕ) (p : Pool G) → Keeps p → Keeps (next_routine cell i p)
  unfolding next_routine
  next_routine-Keeps cell i p h = elim (Option-cases (get_elem? p.routines i)) [
    | inl e ↦ rw (e, next_routine) h
    | inr (r, e) ↦ rw (e, next_routine) (launches p.wait_group p.goroutines (of_start cell) h)
  ]

  next_routine_ctx-Keeps : (cell i : ℕ) (p : Pool G) → Keeps p → Keeps (next_routine_ctx cell i p)
  unfolding next_routine_ctx
  next_routine_ctx-Keeps cell i p h = elim (Option-cases (get_elem? p.routines_ctx i)) [
    | inl e ↦ rw (e, next_routine_ctx) h
    | inr (r, e) ↦
        rw (e, next_routine_ctx) (launches p.wait_group p.goroutines (of_start_ctx cell) h)
  ]

  run_function-Keeps :
      (k : ℕ) (r : Goroutine G) (p : Pool G)
      → get_elem? p.goroutines k ≡ some r
      → Keeps p
      → IfSome Keeps (run_function k r p)
  unfolding run_function
  run_function-Keeps k (pending f) p e h = elim (Option-cases (call_of f p)) [
    | inl q ↦ rw (q, IfSome) (panics p.wait_group p.goroutines k (pending f) e refl h)
    | inr (c, q) ↦ rw (q, IfSome) (runs p.wait_group p.goroutines k f c e h)
  ]
  run_function-Keeps k (running c) p e h = tt
  run_function-Keeps k done p e h = tt
  run_function-Keeps k panicked p e h = tt

  take_stop-Keeps : (r : Goroutine G) (p : Pool G) → Keeps p → IfSome Keeps (take_stop r p)
  unfolding take_stop
  take_stop-Keeps (running (with_stop g c)) p h = elim (Option-cases (get_elem? p.channels c)) [
    | inl q ↦ rw (q, IfSome) tt
    | inr (empty, q) ↦ rw (q, IfSome) tt
    | inr (full, q) ↦ rw (q, IfSome) h
    | inr (closed, q) ↦ rw (q, IfSome) h
  ]
  take_stop-Keeps (running (with_ctx g c)) p h = tt
  take_stop-Keeps (pending f) p h = tt
  take_stop-Keeps done p h = tt
  take_stop-Keeps panicked p h = tt

  return_call-Keeps :
      (k : ℕ) (r : Goroutine G) (p : Pool G)
      → get_elem? p.goroutines k ≡ some r
      → Keeps p
      → IfSome Keeps (return_call k r p)
  unfolding return_call
  return_call-Keeps k (running c) p e h = by_count p.wait_group h
    where
      by_count :
          (n : ℕ)
          → Q n p.goroutines
          → IfSome Keeps (elim n [
            | zero ↦ some (set_goroutine k panicked p)
            | suc m ↦ some (record p { wait_group = m; goroutines = set_elem p.goroutines k done })
          ])
      by_count zero q = panics p.wait_group p.goroutines k (running c) e refl h
      by_count (suc n) q = returns n p.goroutines k c e q
  return_call-Keeps k (pending f) p e h = tt
  return_call-Keeps k done p e h = tt
  return_call-Keeps k panicked p e h = tt

  fail_call-Keeps :
      (k : ℕ) (r : Goroutine G) (p : Pool G)
      → get_elem? p.goroutines k ≡ some r
      → Keeps p
      → IfSome Keeps (fail_call k r p)
  unfolding fail_call
  fail_call-Keeps k (running c) p e h = panics p.wait_group p.goroutines k (running c) e refl h
  fail_call-Keeps k (pending f) p e h = tt
  fail_call-Keeps k done p e h = tt
  fail_call-Keeps k panicked p e h = tt

  if_next-Keeps : (a : Action G) (p : Pool G) → Keeps p → IfSome Keeps (if_next a p)
  unfolding if_next
  if_next-Keeps next p h = h
  if_next-Keeps _ p h = tt

  hold_at-Keeps : (at : Phase) (a : Action G) (p : Pool G) → Keeps p → IfSome Keeps (hold_at at a p)
  unfolding hold_at
  hold_at-Keeps free a p h = begin_call-Keeps a p h
  hold_at-Keeps (starting cell i) a p h =
      if_next-Keeps a (next_routine cell i p) (next_routine-Keeps cell i p h)
  hold_at-Keeps (starting_ctx cell i) a p h =
      if_next-Keeps a (next_routine_ctx cell i p) (next_routine_ctx-Keeps cell i p h)
  hold_at-Keeps stopping a p h = tt
  hold_at-Keeps blocked a p h = tt
  hold_at-Keeps crashed a p h = tt

  end_stop-Keeps : (at : Phase) (n : ℕ) (p : Pool G) → Keeps p → IfSome Keeps (end_stop at n p)
  unfolding end_stop
  end_stop-Keeps stopping zero p h = h
  end_stop-Keeps stopping (suc n) p h = tt
  end_stop-Keeps _ n p h = tt

  of_goroutine-Keeps :
      (k : ℕ) (f : Goroutine G → Pool G → Option (Pool G)) (p : Pool G)
      → ((r : Goroutine G) → get_elem? p.goroutines k ≡ some r → IfSome Keeps (f r p))
      → IfSome Keeps (of_goroutine k f p)
  of_goroutine-Keeps k f p h = elim (Option-cases (get_elem? p.goroutines k)) [
    | inl q ↦ rw (q, IfSome) tt
    | inr (r, q) ↦ rw (q, IfSome) (h r q)
  ]

  step-Keeps : (a : Action G) (p : Pool G) → Keeps p → IfSome Keeps (step a p)
  unfolding step
  step-Keeps (run k) p h =
      of_goroutine-Keeps k (run_function k) p (λ r e. run_function-Keeps k r p e h)
  step-Keeps (receive_stop k) p h = of_goroutine-Keeps k take_stop p (λ r e. take_stop-Keeps r p h)
  step-Keeps (complete k) p h =
      of_goroutine-Keeps k (return_call k) p (λ r e. return_call-Keeps k r p e h)
  step-Keeps (fail k) p h = of_goroutine-Keeps k (fail_call k) p (λ r e. fail_call-Keeps k r p e h)
  step-Keeps stopped p h = end_stop-Keeps p.phase p.wait_group p h
  step-Keeps (add_go_ctx g) p h = hold_at-Keeps p.phase (add_go_ctx g) p h
  step-Keeps (go_ctx g) p h = hold_at-Keeps p.phase (go_ctx g) p h
  step-Keeps (go g) p h = hold_at-Keeps p.phase (go g) p h
  step-Keeps stop p h = hold_at-Keeps p.phase stop p h
  step-Keeps restart p h = hold_at-Keeps p.phase restart p h
  step-Keeps next p h = hold_at-Keeps p.phase next p h

  -- What the four changes of a goroutine keep, every step keeps.
  pub steps-Keeps :
      (actions : List (Action G)) (p : Pool G) → Keeps p → IfSome Keeps (steps actions p)
  unfolding steps
  steps-Keeps [] p h = h
  steps-Keeps (a ∷ rest) p h = elim (Option-cases (step a p)) [
    | inl q ↦ rw (q, IfSome) tt
    | inr (next_p, q) ↦
        let k : Keeps next_p = subst (IfSome Keeps) q (step-Keeps a p h) in
        rw (q, IfSome) (steps-Keeps rest next_p k)
  ]
