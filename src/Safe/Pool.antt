-- ===== src/Safe/Pool.antt =====
-- safe/routine.go: the pool as a state machine, whose steps are the calls, the rounds of the loops of
-- Start, and what the goroutines do meanwhile.
pub mod Steps
pub mod Keeps
pub mod Counts
pub mod Panics
pub mod Restart
use traefik.Prelude.{
  ℕ, zero, suc, ◌+◌, ◌-◌, Bool, true, false, Option, none, some, List, [], ◌∷◌, ◌++◌, length,
  get_elem?, set_elem, if◌then◌else◌, ltb,
}

-- A channel that buffers one value: it has none, has one, or is closed.
pub data Channel : Type 0 where
  empty : Channel
  full : Channel
  closed : Channel

-- The code of a goroutine is a `G`; a channel is a number.
pub record Routine (G : Type 0) : Type 0 where
  pub goroutine : G
  pub stop : ℕ

-- A function that was given to Go: what it has captured. That of a loop of Start has captured the
-- variable of the loop, which is a cell.
pub data Closure (G : Type 0) : Type 0 where
  of_go : G → ℕ → Closure G
  of_go_ctx : G → Closure G
  of_start : ℕ → Closure G
  of_start_ctx : ℕ → Closure G

-- The call of a routine, with its channel or its context.
pub data Call (G : Type 0) : Type 0 where
  with_stop : G → ℕ → Call G
  with_ctx : G → ℕ → Call G

-- A goroutine has yet to run its function, is in a call, has returned and told the wait group, or has
-- panicked, which is recovered.
pub data Goroutine (G : Type 0) : Type 0 where
  pending : Closure G → Goroutine G
  running : Call G → Goroutine G
  done : Goroutine G
  panicked : Goroutine G

-- Where the holder of the lock is: nobody has it; in the first or the second loop of Start, with
-- the variable of the loop and the next index; in Stop, where it waits for the group; in a send of
-- Stop that blocks; or in a panic of Stop.
pub data Phase : Type 0 where
  free : Phase
  starting : ℕ → ℕ → Phase
  starting_ctx : ℕ → ℕ → Phase
  stopping : Phase
  blocked : Phase
  crashed : Phase

-- Pool, with the channels, the contexts and the loop variables that its calls have made; a context
-- is a number.
pub record Pool (G : Type 0) : Type 0 where
  pub routines : List (Routine G)
  pub routines_ctx : List G
  pub wait_group : ℕ
  pub ctx : ℕ
  pub contexts : ℕ
  pub cancelled : List ℕ
  pub channels : List Channel
  pub cells : List ℕ
  pub goroutines : List (Goroutine G)
  pub phase : Phase

-- What happens next: a call of the pool, the next round of a loop of Start, the end of the wait of
-- Stop, or that the k-th goroutine runs its function, receives from its channel, returns or panics.
pub data Action (G : Type 0) : Type 0 where
  add_go_ctx : G → Action G
  go_ctx : G → Action G
  go : G → Action G
  stop : Action G
  stopped : Action G
  restart : Action G
  next : Action G
  run : ℕ → Action G
  receive_stop : ℕ → Action G
  complete : ℕ → Action G
  fail : ℕ → Action G

module _ {G : Type 0} where
  -- NewPool
  unfoldable pub new_pool : Pool G
  new_pool = record {
    routines = [];
    routines_ctx = [];
    wait_group = 0;
    ctx = 0;
    contexts = 1;
    cancelled = [];
    channels = [];
    cells = [];
    goroutines = [];
    phase = free;
  }

  -- `waitGroup.Add(1)`, and Go of a function.
  abbrev pub launch : Closure G → Pool G → Pool G
  launch f p = record p {
    wait_group = suc p.wait_group;
    goroutines = p.goroutines ++ pending f ∷ [];
  }

  -- The call that a function makes when it runs: it reads what it has captured then.
  unfoldable pub call_of : Closure G → Pool G → Option (Call G)
  call_of (of_go g c) p = some (with_stop g c)
  call_of (of_go_ctx g) p = some (with_ctx g p.ctx)
  call_of (of_start cell) p = elim (get_elem? p.cells cell) [
    | none ↦ none
    | some i ↦ elim (get_elem? p.routines i) [
      | none ↦ none
      | some r ↦ some (with_stop r.goroutine r.stop)
    ]
  ]
  call_of (of_start_ctx cell) p = elim (get_elem? p.cells cell) [
    | none ↦ none
    | some i ↦ elim (get_elem? p.routines_ctx i) [ none ↦ none | some g ↦ some (with_ctx g p.ctx) ]
  ]

  -- The sends of Stop, one after the other, and where they end.
  unfoldable pub send_all : List (Routine G) → List Channel → List Channel × Phase
  send_all [] cs = (cs, stopping)
  send_all (r ∷ rs) cs = elim (get_elem? cs r.stop) [
    | none ↦ (cs, blocked)
    | some c ↦ elim c [
      | empty ↦ send_all rs (set_elem cs r.stop full)
      | full ↦ (cs, blocked)
      | closed ↦ (cs, crashed)
    ]
  ]

  -- The loop of Stop that closes.
  unfoldable pub close_all : List (Routine G) → List Channel → List Channel × Phase
  close_all [] cs = (cs, free)
  close_all (r ∷ rs) cs = elim (get_elem? cs r.stop) [
    | none ↦ (cs, crashed)
    | some c ↦ elim c [
      | empty ↦ close_all rs (set_elem cs r.stop closed)
      | full ↦ close_all rs (set_elem cs r.stop closed)
      | closed ↦ (cs, crashed)
    ]
  ]
