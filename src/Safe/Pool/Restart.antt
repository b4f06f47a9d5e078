-- ===== src/Safe/Pool/Restart.antt =====
-- safe/routine.go: the goroutines of Start share the variable of its loop.
use traefik.Prelude.{
  ℕ, zero, suc, ◌+◌, ◌<◌, Option, none, some, List, [], ◌∷◌, ◌++◌, length, length-append, get_elem?,
  set_elem, append_assoc, append-nil, ◌≡◌, refl, sym, ap, ◌∙◌, subst, arith, Option-cases, inl, inr,
}
use traefik.Safe.Pool.{
  Routine, empty, of_start, with_stop, pending, free, starting, Pool, Action, restart, next, launch,
  call_of,
}
use traefik.Safe.Pool.Steps.{begin_call, next_routine, if_next, hold_at, step, steps}

module _ {ℓ} {A : Type ℓ} where
  abbrev pub times : ℕ → A → List A
  times zero x = []
  times (suc n) x = x ∷ times n x

  get_elem?-set_elem_same :
      (xs : List A) (i : ℕ) (y : A) → i < length xs → get_elem? (set_elem xs i y) i ≡ some y
  get_elem?-set_elem_same [] i y h = ground arith
  get_elem?-set_elem_same (x ∷ xs) zero y h = refl
  get_elem?-set_elem_same (x ∷ xs) (suc i) y h = get_elem?-set_elem_same xs i y (omega arith)

  length-set_elem : (xs : List A) (i : ℕ) (y : A) → length (set_elem xs i y) ≡ length xs
  length-set_elem [] i y = refl
  length-set_elem (x ∷ xs) zero y = refl
  length-set_elem (x ∷ xs) (suc i) y = ap suc (length-set_elem xs i y)

  get_elem?-length : (xs : List A) (i : ℕ) → i < length xs → (x : A) × (get_elem? xs i ≡ some x)
  get_elem?-length [] i h = ground arith
  get_elem?-length (x ∷ xs) zero h = (x, refl)
  get_elem?-length (x ∷ xs) (suc i) h = get_elem?-length xs i (omega arith)

-- The variable of the loop after so many more rounds.
abbrev last_index : ℕ → ℕ → Option ℕ → Option ℕ
last_index zero i old = old
last_index (suc m) i old = some (i + m)

last_index-suc : (m i : ℕ) (old : Option ℕ) → old ≡ some i → last_index m (suc i) old ≡ some (i + m)
last_index-suc zero i old e = e ∙ ap some (omega arith)
last_index-suc (suc m) i old e = ap some (omega arith)

module _ {G : Type 0} where
  -- The code of the i-th routine.
  abbrev pub code : List (Routine G) → ℕ → Option G
  code rs i = elim (get_elem? rs i) [ none ↦ none | some r ↦ some r.goroutine ]

  code-set_elem :
      (rs : List (Routine G)) (i j c : ℕ) (r : Routine G)
      → get_elem? rs i ≡ some r
      → code (set_elem rs i (record { goroutine = r.goroutine; stop = c })) j ≡ code rs j
  code-set_elem [] i j c r e = refl
  code-set_elem (t ∷ rs) zero zero c r e = ap some (
      ap (λ (o : Option (Routine G)). elim o [ none ↦ r.goroutine | some x ↦ x.goroutine ]) (sym e))
  code-set_elem (t ∷ rs) zero (suc j) c r e = refl
  code-set_elem (t ∷ rs) (suc i) zero c r e = refl
  code-set_elem (t ∷ rs) (suc i) (suc j) c r e = code-set_elem rs i j c r e

  -- The pool after a round of the first loop.
  abbrev launched : ℕ → ℕ → Routine G → Pool G → Pool G
  launched cell i r p = launch (of_start cell) (record p {
    cells = set_elem p.cells cell i;
    routines = set_elem p.routines i (record { goroutine = r.goroutine; stop = length p.channels });
    channels = p.channels ++ empty ∷ [];
    phase = starting cell (suc i);
  })

  step-next :
      (cell i : ℕ) (r : Routine G) (p : Pool G)
      → p.phase ≡ starting cell i
      → get_elem? p.routines i ≡ some r
      → step next p ≡ some (launched cell i r p)
  unfolding step hold_at if_next next_routine
  step-next cell i r p e f = ap (λ at. hold_at at next p) e ∙ ap some (rw (next_routine, f) refl)

  steps-cons :
      (a : Action G) (rest : List (Action G)) (p q : Pool G)
      → step a p ≡ some q
      → steps (a ∷ rest) p ≡ steps rest q
  unfolding steps
  steps-cons a rest p q e = ap (λ o. elim o [ none ↦ none | some r ↦ steps rest r ]) e

  rounds :
      (m i cell : ℕ) (p : Pool G)
      → p.phase ≡ starting cell i
      → cell < length p.cells
      → length p.routines ≡ i + m
      → (q : Pool G) × (steps (times m next) p ≡ some q)
        × (q.goroutines ≡ p.goroutines ++ times m (pending (of_start cell)))
        × (get_elem? q.cells cell ≡ last_index m i (get_elem? p.cells cell))
        × ((j : ℕ) → code q.routines j ≡ code p.routines j)
  unfolding steps
  rounds zero i cell p e c l = (p, refl, sym (append-nil _), refl, λ j. refl)
  rounds (suc m) i cell p e c l =
      let (r, f) = get_elem?-length p.routines i (omega arith) in
      let first = launched cell i r p in
      let (q, s, gs, v, k) =
        rounds m (suc i) cell first refl
          (subst (λ n. cell < n) (sym (length-set_elem p.cells cell i)) c)
          (length-set_elem p.routines i _ ∙ omega (arith, l)) in
      (
        q,
        steps-cons next (times m next) p first (step-next cell i r p e f) ∙ s,
        gs ∙ append_assoc p.goroutines (pending (of_start cell) ∷ []) _,
        v ∙ last_index-suc m i _ (get_elem?-set_elem_same p.cells cell i c),
        λ j. k j ∙ code-set_elem p.routines i j (length p.channels) r f,
      )

  call_of-code :
      (cell i : ℕ) (g : G) (q : Pool G)
      → get_elem? q.cells cell ≡ some i
      → code q.routines i ≡ some g
      → (c : ℕ) × (call_of (of_start cell) q ≡ some (with_stop g c))
  unfolding call_of
  call_of-code cell i g q e k = elim (Option-cases (get_elem? q.routines i)) [
    | inl f ↦ let nothing : code q.routines i ≡ none = rw (code, f) refl in cc
    | inr (r, f) ↦
        let found : code q.routines i ≡ some r.goroutine = rw (code, f) refl in
        let same : r.goroutine ≡ g = cc in (r.stop, rw (call_of, e, f, same) refl)
  ]

  -- Where no goroutine runs before the first loop of Start has ended, all that it launches will call
  -- one and the same routine, the last of the pool; the others are not started.
  pub start_runs_last :
      (p : Pool G) (n : ℕ) (g : G)
      → p.phase ≡ free
      → length p.routines ≡ suc n
      → code p.routines n ≡ some g
      → (q : Pool G) × (steps (restart ∷ times (suc n) next) p ≡ some q)
        × (q.goroutines ≡ p.goroutines ++ times (suc n) (pending (of_start (length p.cells))))
        × ((c : ℕ) × (call_of (of_start (length p.cells)) q ≡ some (with_stop g c)))
  unfolding steps step hold_at begin_call
  start_runs_last p n g free_p l k =
      let first : Pool G = record p {
        ctx = p.contexts;
        contexts = suc p.contexts;
        cells = p.cells ++ 0 ∷ [];
        phase = starting (length p.cells) 0;
      } in
      let begun : step restart p ≡ some first = ap (λ at. hold_at at restart p) free_p in
      let room : length p.cells < length (p.cells ++ 0 ∷ []) =
        omega (arith, length-append p.cells (0 ∷ [])) in
      let (q, s, gs, v, same) =
        rounds (suc n) 0 (length p.cells) first refl room (l ∙ omega arith) in
      (
        q,
        steps-cons restart (times (suc n) next) p first begun ∙ s,
        gs,
        call_of-code (length p.cells) n g q (v ∙ ap some (omega arith)) (same n ∙ k),
      )
