-- ===== src/Safe/Pool/Counts.antt =====
-- safe/routine.go: the wait group counts the goroutines that have not told it that they are done.
use traefik.Prelude.{
  ℕ, zero, suc, ◌+◌, true, some, List, [], ◌∷◌, ◌++◌, get_elem?, set_elem, All, ◌≡◌, refl, sym, ◌∙◌,
  subst, arith, IfSome,
}
use traefik.Safe.Pool.{
  Goroutine, pending, running, done, panicked, Phase, stopping, Pool, Action, stopped, new_pool,
}
use traefik.Safe.Pool.Steps.{end_stop, step, steps}
use traefik.Safe.Pool.Keeps.{is_active, steps-Keeps}

module _ {G : Type 0} where
  -- What a goroutine adds to the count.
  abbrev pub weight : Goroutine G → ℕ
  weight (pending f) = 1
  weight (running c) = 1
  weight done = 0
  weight panicked = 1

  -- The goroutines that have not returned.
  abbrev pub unfinished : List (Goroutine G) → ℕ
  unfinished [] = 0
  unfinished (r ∷ rs) = weight r + unfinished rs

  pub unfinished-append :
      (rs ss : List (Goroutine G)) → unfinished (rs ++ ss) ≡ unfinished rs + unfinished ss
  unfinished-append [] ss = omega arith
  unfinished-append (r ∷ rs) ss = omega (arith, unfinished-append rs ss)

  -- A goroutine goes on: its weight is replaced.
  pub unfinished-set_elem :
      (rs : List (Goroutine G)) (k : ℕ) (r s : Goroutine G)
      → get_elem? rs k ≡ some r
      → unfinished (set_elem rs k s) + weight r ≡ unfinished rs + weight s
  unfinished-set_elem [] k r s e = cc
  unfinished-set_elem (t ∷ rs) zero r s e = let same : t ≡ r = cc in rw same (omega arith)
  unfinished-set_elem (t ∷ rs) (suc k) r s e = omega (arith, unfinished-set_elem rs k r s e)

  abbrev Counted : ℕ → List (Goroutine G) → Type 0
  Counted n rs = n ≡ unfinished rs

  pub active-weight : (r : Goroutine G) → is_active r ≡ true → weight r ≡ 1
  active-weight (pending f) a = refl
  active-weight (running c) a = refl
  active-weight done a = cc
  active-weight panicked a = cc

  -- After any steps of a new pool, the wait group counts the goroutines that have not returned, those
  -- that have panicked among them.
  pub steps-Counted :
      (actions : List (Action G))
      → IfSome (λ p. p.wait_group ≡ unfinished p.goroutines) (steps actions new_pool)
  unfolding new_pool
  steps-Counted actions =
      steps-Keeps Counted (λ n rs f h. omega (arith, h, unfinished-append rs (pending f ∷ [])))
        (λ n rs k f c e h. omega (arith, h, unfinished-set_elem rs k (pending f) (running c) e))
        (λ n rs k r e a h.
          omega (arith, h, active-weight r a, unfinished-set_elem rs k r panicked e))
        (λ n rs k c e h. omega (arith, h, unfinished-set_elem rs k (running c) done e)) actions
        new_pool refl

  none_unfinished : (rs : List (Goroutine G)) → unfinished rs ≡ 0 → All (λ r. r ≡ done) rs
  none_unfinished [] h = tt
  none_unfinished (done ∷ rs) h = (refl, none_unfinished rs (omega (arith, h)))
  none_unfinished (pending f ∷ rs) h = ground arith
  none_unfinished (running c ∷ rs) h = ground arith
  none_unfinished (panicked ∷ rs) h = ground arith

  end_stop-zero : (at : Phase) (n : ℕ) (p q : Pool G) → end_stop at n p ≡ some q → n ≡ 0
  unfolding end_stop
  end_stop-zero stopping zero p q e = refl
  end_stop-zero stopping (suc n) p q e = cc
  end_stop-zero _ n p q e = cc

  -- Whatever was done to a new pool, when Stop stops to wait every goroutine of the pool has
  -- returned.
  pub stopped-done :
      (actions : List (Action G)) (p q : Pool G)
      → steps actions new_pool ≡ some p
      → step stopped p ≡ some q
      → All (λ r. r ≡ done) p.goroutines
  unfolding step
  stopped-done actions p q e s =
      let counted : p.wait_group ≡ unfinished p.goroutines =
        subst (IfSome (λ o. o.wait_group ≡ unfinished o.goroutines)) e (steps-Counted actions) in
      none_unfinished p.goroutines (sym counted ∙ end_stop-zero p.phase p.wait_group p q s)
