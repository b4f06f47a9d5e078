-- ===== src/Tests/Pool.antt =====
-- Goroutine pools.
use traefik.Prelude.{ℕ, List, [], ◌∷◌, none, some, All, ◌≡◌, refl}
use traefik.Safe.Pool.{
  Pool, pending, done, panicked, of_start, with_stop, call_of, Action, go, stop, stopped, restart,
  next, run, receive_stop, complete, fail, new_pool, free, stopping, full, empty, closed, send_all,
  close_all,
}
use traefik.Safe.Pool.Steps.{
  step, steps, hold_at, begin_call, run_function, take_stop, return_call, fail_call, end_stop,
}
use traefik.Safe.Pool.Counts.{stopped-done}
use traefik.Safe.Pool.Panics.{stopped-panicked}
use traefik.Safe.Pool.Restart.{times, start_runs_last}

abbrev one_stops : List (Action ℕ)
one_stops = go 7 ∷ run 0 ∷ stop ∷ receive_stop 0 ∷ complete 0 ∷ []

abbrev one_fails : List (Action ℕ)
one_fails = go 7 ∷ run 0 ∷ fail 0 ∷ []

abbrev stopping_pool : Pool ℕ
stopping_pool = record {
  routines = record { goroutine = 7; stop = 0 } ∷ [];
  routines_ctx = [];
  wait_group = 0;
  ctx = 0;
  contexts = 1;
  cancelled = 0 ∷ [];
  channels = empty ∷ [];
  cells = [];
  goroutines = done ∷ [];
  phase = stopping;
}

abbrev stopped_pool : Pool ℕ
stopped_pool = record stopping_pool { channels = closed ∷ []; phase = free }

abbrev failed_pool : Pool ℕ
failed_pool = record stopping_pool {
  wait_group = 1;
  cancelled = [];
  goroutines = panicked ∷ [];
  phase = free;
}

abbrev waiting_pool : Pool ℕ
waiting_pool = record failed_pool { cancelled = 0 ∷ []; channels = full ∷ []; phase = stopping }

run_one_stops : steps one_stops new_pool ≡ some stopping_pool
unfolding step steps hold_at new_pool begin_call run_function call_of take_stop send_all return_call
run_one_stops = refl

run_stopped : step stopped stopping_pool ≡ some stopped_pool
unfolding step end_stop close_all
run_stopped = refl

run_one_fails : steps one_fails new_pool ≡ some failed_pool
unfolding step steps hold_at new_pool begin_call run_function call_of fail_call
run_one_fails = refl

run_stop : steps (stop ∷ []) failed_pool ≡ some waiting_pool
unfolding step steps hold_at begin_call send_all
run_stop = refl

stopped-done_example : All (λ r. r ≡ done) stopping_pool.goroutines
stopped-done_example = stopped-done one_stops stopping_pool stopped_pool run_one_stops run_stopped

stopped-panicked_example : step stopped waiting_pool ≡ none
stopped-panicked_example =
    stopped-panicked one_fails (stop ∷ []) failed_pool waiting_pool 0 run_one_fails refl run_stop

abbrev two_routines : Pool ℕ
two_routines = record stopped_pool {
  routines = record { goroutine = 7; stop = 0 } ∷ record { goroutine = 8; stop = 1 } ∷ [];
  channels = closed ∷ closed ∷ [];
  goroutines = done ∷ done ∷ [];
}

start_runs_last_example :
    (q : Pool ℕ) × (steps (restart ∷ times 2 next) two_routines ≡ some q)
    × (q.goroutines ≡ done ∷ done ∷ times 2 (pending (of_start 0)))
    × ((c : ℕ) × (call_of (of_start 0) q ≡ some (with_stop 8 c)))
start_runs_last_example = start_runs_last two_routines 1 8 refl refl refl
