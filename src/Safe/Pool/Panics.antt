-- ===== src/Safe/Pool/Panics.antt =====
-- safe/routine.go: a goroutine that panics never tells the wait group.
use traefik.Prelude.{
  ℕ, zero, suc, ◌≤◌, Bool, true, false, Option, none, some, List, [], ◌∷◌, ◌++◌, get_elem?,
  set_elem, ◌≡◌, refl, sym, ◌∙◌, subst, arith, IfSome,
}
use traefik.Safe.Pool.{
  Goroutine, pending, running, done, panicked, Phase, stopping, Pool, Action, stopped, new_pool,
}
use traefik.Safe.Pool.Steps.{end_stop, step, steps}
use traefik.Safe.Pool.Keeps.{is_active, steps-Keeps}
use traefik.Safe.Pool.Counts.{
  unfinished, unfinished-append, unfinished-set_elem, active-weight, steps-Counted,
}

module _ {G : Type 0} where
  get_elem?-append :
      (rs ss : List (Goroutine G)) (k : ℕ) (r : Goroutine G)
      → get_elem? rs k ≡ some r
      → get_elem? (rs ++ ss) k ≡ some r
  get_elem?-append [] ss k r e = cc
  get_elem?-append (t ∷ rs) ss zero r e = e
  get_elem?-append (t ∷ rs) ss (suc k) r e = get_elem?-append rs ss k r e

  -- Another goroutine than one that has panicked goes on.
  get_elem?-set_elem :
      (rs : List (Goroutine G)) (k j : ℕ) (r s : Goroutine G)
      → get_elem? rs k ≡ some panicked
      → get_elem? rs j ≡ some r
      → is_active r ≡ true
      → get_elem? (set_elem rs j s) k ≡ some panicked
  get_elem?-set_elem [] k j r s e f a = cc
  get_elem?-set_elem (t ∷ rs) zero zero r s e f a =
      let same : some r ≡ some panicked = sym f ∙ e in
      let inactive : is_active r ≡ false =
        subst (λ o. is_active_option o ≡ false) (sym same) refl in
      cc
    where
      is_active_option : Option (Goroutine G) → Bool
      is_active_option none = false
      is_active_option (some x) = is_active x
  get_elem?-set_elem (t ∷ rs) zero (suc j) r s e f a = e
  get_elem?-set_elem (t ∷ rs) (suc k) zero r s e f a = e
  get_elem?-set_elem (t ∷ rs) (suc k) (suc j) r s e f a = get_elem?-set_elem rs k j r s e f a

  unfinished-panicked :
      (rs : List (Goroutine G)) (k : ℕ) → get_elem? rs k ≡ some panicked → 1 ≤ unfinished rs
  unfinished-panicked [] k e = cc
  unfinished-panicked (t ∷ rs) zero e = let same : t ≡ panicked = cc in rw same (omega arith)
  unfinished-panicked (t ∷ rs) (suc k) e = omega (arith, unfinished-panicked rs k e)

  abbrev Waits : ℕ → ℕ → List (Goroutine G) → Type 0
  Waits k n rs = (n ≡ unfinished rs) × (get_elem? rs k ≡ some panicked)

  steps-Waits :
      (k : ℕ) (rest : List (Action G)) (p : Pool G)
      → Waits k p.wait_group p.goroutines
      → IfSome (λ q. Waits k q.wait_group q.goroutines) (steps rest p)
  steps-Waits k rest p h =
      steps-Keeps (Waits k)
        (λ n rs f (c, e). (
          omega (arith, c, unfinished-append rs (pending f ∷ [])),
          get_elem?-append rs (pending f ∷ []) k panicked e,
        ))
        (λ n rs j f d g (c, e). (
          omega (arith, c, unfinished-set_elem rs j (pending f) (running d) g),
          get_elem?-set_elem rs k j (pending f) (running d) e g refl,
        ))
        (λ n rs j r g a (c, e). (
          omega (arith, c, active-weight r a, unfinished-set_elem rs j r panicked g),
          get_elem?-set_elem rs k j r panicked e g a,
        ))
        (λ n rs j d g (c, e). (
          omega (arith, c, unfinished-set_elem rs j (running d) done g),
          get_elem?-set_elem rs k j (running d) done e g refl,
        ))
        rest p h

  end_stop-waits : (at : Phase) (n : ℕ) (q : Pool G) → 1 ≤ n → end_stop at n q ≡ none
  unfolding end_stop
  end_stop-waits stopping zero q h = ground arith
  end_stop-waits stopping (suc n) q h = refl
  end_stop-waits _ n q h = refl

  -- Once a goroutine of a pool has panicked, no Stop of that pool ever returns: whatever is done
  -- afterwards, the wait of Stop cannot end.
  pub stopped-panicked :
      (actions rest : List (Action G)) (p q : Pool G) (k : ℕ)
      → steps actions new_pool ≡ some p
      → get_elem? p.goroutines k ≡ some panicked
      → steps rest p ≡ some q
      → step stopped q ≡ none
  unfolding step
  stopped-panicked actions rest p q k e f s =
      let counted : p.wait_group ≡ unfinished p.goroutines =
        subst (IfSome (λ o. o.wait_group ≡ unfinished o.goroutines)) e (steps-Counted actions) in
      let w : Waits k q.wait_group q.goroutines =
        subst (IfSome (λ o. Waits k o.wait_group o.goroutines)) s
          (steps-Waits k rest p (counted, f)) in
      end_stop-waits q.phase q.wait_group q
        (omega (arith, w.0, unfinished-panicked q.goroutines k w.1))
