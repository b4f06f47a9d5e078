-- ===== src/Safe/Pool/Steps.antt =====
-- safe/routine.go: the calls of a pool and what its goroutines do, step by step.
use traefik.Prelude.{
  ℕ, zero, suc, Option, none, some, List, [], ◌∷◌, ◌++◌, length, get_elem?, set_elem,
}
use traefik.Safe.Pool.{
  Action, Goroutine, Phase, Pool, add_go_ctx, blocked, call_of, close_all, closed, complete,
  crashed, done, empty, fail, free, full, go, go_ctx, launch, next, of_go, of_go_ctx, of_start,
  of_start_ctx, panicked, pending, receive_stop, restart, run, running, send_all, starting,
  starting_ctx, stop, stopped, stopping, with_ctx, with_stop,
}

module _ {G : Type 0} where
  -- AddGoCtx, GoCtx, Go, and the beginnings of Stop and Start, by a caller that has the lock.
  unfoldable pub begin_call : Action G → Pool G → Option (Pool G)
  begin_call (add_go_ctx g) p = some (record p { routines_ctx = p.routines_ctx ++ g ∷ [] })
  begin_call (go_ctx g) p =
      some (launch (of_go_ctx g) (record p { routines_ctx = p.routines_ctx ++ g ∷ [] }))
  begin_call (go g) p =
      let c = length p.channels in
      some (
        launch (of_go g c) (record p {
          routines = p.routines ++ record { goroutine = g; stop = c } ∷ [];
          channels = p.channels ++ empty ∷ [];
        }))
  begin_call stop p =
      let (cs, at) = send_all p.routines p.channels in
      some (record p { cancelled = p.ctx ∷ p.cancelled; channels = cs; phase = at })
  begin_call restart p = some (record p {
    ctx = p.contexts;
    contexts = suc p.contexts;
    cells = p.cells ++ 0 ∷ [];
    phase = starting (length p.cells) 0;
  })
  begin_call stopped p = none
  begin_call next p = none
  begin_call (run k) p = none
  begin_call (receive_stop k) p = none
  begin_call (complete k) p = none
  begin_call (fail k) p = none

  -- A round of the first loop of Start, or the step to the second.
  unfoldable pub next_routine : ℕ → ℕ → Pool G → Pool G
  next_routine cell i p = elim (get_elem? p.routines i) [
    | none ↦ record p { cells = p.cells ++ 0 ∷ []; phase = starting_ctx (length p.cells) 0 }
    | some r ↦ launch (of_start cell) (record p {
      cells = set_elem p.cells cell i;
      routines =
          set_elem p.routines i (record { goroutine = r.goroutine; stop = length p.channels });
      channels = p.channels ++ empty ∷ [];
      phase = starting cell (suc i);
    })
  ]

  -- A round of the second loop of Start, or its end.
  unfoldable pub next_routine_ctx : ℕ → ℕ → Pool G → Pool G
  next_routine_ctx cell i p = elim (get_elem? p.routines_ctx i) [
    | none ↦ record p { phase = free }
    | some g ↦
        launch (of_start_ctx cell)
          (record p { cells = set_elem p.cells cell i; phase = starting_ctx cell (suc i) })
  ]

  -- The holder of the lock, in a loop of Start, takes no step but to its next round.
  unfoldable pub if_next : Action G → Pool G → Option (Pool G)
  if_next next q = some q
  if_next _ q = none

  -- What the holder of the lock, or a caller that finds it free, does next.
  unfoldable pub hold_at : Phase → Action G → Pool G → Option (Pool G)
  hold_at free a p = begin_call a p
  hold_at (starting cell i) a p = if_next a (next_routine cell i p)
  hold_at (starting_ctx cell i) a p = if_next a (next_routine_ctx cell i p)
  hold_at stopping a p = none
  hold_at blocked a p = none
  hold_at crashed a p = none

  -- The end of Stop, once the group is empty.
  unfoldable pub end_stop : Phase → ℕ → Pool G → Option (Pool G)
  end_stop stopping zero p =
      let (cs, at) = close_all p.routines p.channels in
      some (record p { channels = cs; phase = at })
  end_stop stopping (suc n) p = none
  end_stop _ n p = none

  abbrev pub set_goroutine : ℕ → Goroutine G → Pool G → Pool G
  set_goroutine k r p = record p { goroutines = set_elem p.goroutines k r }

  -- A goroutine runs its function.
  unfoldable pub run_function : ℕ → Goroutine G → Pool G → Option (Pool G)
  run_function k (pending f) p = elim (call_of f p) [
    | none ↦ some (set_goroutine k panicked p)
    | some c ↦ some (set_goroutine k (running c) p)
  ]
  run_function k (running c) p = none
  run_function k done p = none
  run_function k panicked p = none

  -- A goroutine takes what Stop has sent to it.
  unfoldable pub take_stop : Goroutine G → Pool G → Option (Pool G)
  take_stop (running (with_stop g c)) p = elim (get_elem? p.channels c) [
    | none ↦ none
    | some s ↦ elim s [
      | empty ↦ none
      | full ↦ some (record p { channels = set_elem p.channels c empty })
      | closed ↦ some p
    ]
  ]
  take_stop (running (with_ctx g c)) p = none
  take_stop (pending f) p = none
  take_stop done p = none
  take_stop panicked p = none

  -- A goroutine's call returns: `waitGroup.Done()`, which panics below zero.
  unfoldable pub return_call : ℕ → Goroutine G → Pool G → Option (Pool G)
  return_call k (running c) p = elim p.wait_group [
    | zero ↦ some (set_goroutine k panicked p)
    | suc n ↦ some (record p { wait_group = n; goroutines = set_elem p.goroutines k done })
  ]
  return_call k (pending f) p = none
  return_call k done p = none
  return_call k panicked p = none

  -- A goroutine's call panics; what is recovered does not reach `waitGroup.Done()`.
  unfoldable pub fail_call : ℕ → Goroutine G → Pool G → Option (Pool G)
  fail_call k (running c) p = some (set_goroutine k panicked p)
  fail_call k (pending f) p = none
  fail_call k done p = none
  fail_call k panicked p = none

  -- What the k-th goroutine does.
  abbrev pub of_goroutine : ℕ → (Goroutine G → Pool G → Option (Pool G)) → Pool G → Option (Pool G)
  of_goroutine k f p = elim (get_elem? p.goroutines k) [ none ↦ none | some r ↦ f r p ]

  -- A step, where the action can be taken.
  unfoldable pub step : Action G → Pool G → Option (Pool G)
  step (run k) p = of_goroutine k (run_function k) p
  step (receive_stop k) p = of_goroutine k take_stop p
  step (complete k) p = of_goroutine k (return_call k) p
  step (fail k) p = of_goroutine k (fail_call k) p
  step stopped p = end_stop p.phase p.wait_group p
  step (add_go_ctx g) p = hold_at p.phase (add_go_ctx g) p
  step (go_ctx g) p = hold_at p.phase (go_ctx g) p
  step (go g) p = hold_at p.phase (go g) p
  step stop p = hold_at p.phase stop p
  step restart p = hold_at p.phase restart p
  step next p = hold_at p.phase next p

  unfoldable pub steps : List (Action G) → Pool G → Option (Pool G)
  steps [] p = some p
  steps (a ∷ rest) p = elim (step a p) [ none ↦ none | some q ↦ steps rest q ]
