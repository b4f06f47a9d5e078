-- ===== src/Server/Throttle/Progress.antt =====
-- What was received last is sent in the end.
use mathlib.Core.List.{Mem, mem-append_left, mem-append_right, mem-cons_self}
use traefik.Prelude.{
  ℕ, zero, suc, ◌+◌, ◌≤◌, ◌<◌, Bool, true, false, ◌||◌, some, List, [], ◌∷◌, ◌++◌, Str, Dict,
  lookup, insert, lookup-insert, ltb, ◌≡◌, refl, ◌∙◌, sym, All, All-append, any, length, arith,
  str_eq, str_eq_iff, str_eq_refl, Bool-cases, Option-cases, inl, inr, ◌⊎◌,
}
use traefik.Types.{Configuration, ConfigMessage}
use traefik.Server.Throttle.{
  Timer, State, Event, nth, remove_nth, with_defaults, accept, receive, wake_up, fire, received,
  woken, step, steps,
}
use traefik.Server.Throttle.Lost.{IsNew}

-- A goroutine of the provider waits.
abbrev waits : Str → List Timer → Bool
waits name ts = any (λ t. str_eq t.provider_name name) ts

-- All goroutines wake by then.
abbrev pub WakeBy : ℕ → List Timer → Type 0
WakeBy limit ts = All (λ t. t.wake ≤ limit) ts

-- As many goroutines go on, in any order, each later than the limit.
abbrev pub IsSchedule : ℕ → ℕ → List Event → Type 0
IsSchedule limit zero [] = Unit
IsSchedule limit zero (_ ∷ _) = ⊥
IsSchedule limit (suc n) (woken now i ∷ es) = (limit < now) × (i ≤ n) × IsSchedule limit n es
IsSchedule limit (suc n) (received now current msg ∷ es) = ⊥
IsSchedule limit (suc n) [] = ⊥

waits-append :
    (ts : List Timer) (name : Str) (wake : ℕ)
    → waits name (ts ++ record { provider_name = name; wake = wake } ∷ []) ≡ true
waits-append [] name wake = rw (str_eq_refl name) refl
waits-append (t ∷ ts) name wake = ground (arith, waits-append ts name wake)

nth-remove_nth :
    (ts : List Timer) (i n limit : ℕ) (name : Str)
    → length ts ≡ suc n
    → i ≤ n
    → WakeBy limit ts
    → (t : Timer) × (nth ts i ≡ some t)
      × (t.wake ≤ limit)
      × (length (remove_nth ts i) ≡ n)
      × WakeBy limit (remove_nth ts i)
      × (waits name ts ≡ str_eq t.provider_name name || waits name (remove_nth ts i))
nth-remove_nth [] i n limit name l h w = cc
nth-remove_nth (t ∷ ts) zero n limit name l h (w, ws) = (t, refl, w, omega arith, ws, refl)
nth-remove_nth (t ∷ u ∷ ts) (suc i) (suc n) limit name l h (w, ws) =
    let (v, e, b, k, r, q) =
      nth-remove_nth (u ∷ ts) i n limit name (omega arith) (omega arith) ws in
    (v, e, b, omega arith, (w, r), ground (arith, q))
nth-remove_nth (t ∷ []) (suc i) n limit name l h w = ground arith
nth-remove_nth (t ∷ u ∷ ts) (suc i) zero limit name l h w = ground arith

module _ (dep : List Str) (throttle : ℕ) (deep_equal : Configuration → Configuration → Bool) where
  -- So many goroutines wait, all wake by the limit, nothing was received since then, and the
  -- message is the last of its provider: it was sent, or one of its goroutines waits.
  record IsReady (limit n : ℕ) (m : ConfigMessage) (s : State) : Type 0 where
    number : length s.timers ≡ n
    all_wake : WakeBy limit s.timers
    quiet : s.last_received + throttle ≤ limit
    kept : lookup m.provider_name s.last_configs ≡ some m
    pending : Mem m s.validated ⊎ (waits m.provider_name s.timers ≡ true)

  wake_up-IsReady :
      (limit n now : ℕ) (m : ConfigMessage) (t : Timer) (s : State)
      → limit < now
      → length s.timers ≡ n
      → WakeBy limit s.timers
      → s.last_received + throttle ≤ limit
      → lookup m.provider_name s.last_configs ≡ some m
      → Mem m s.validated
        ⊎ (str_eq t.provider_name m.provider_name || waits m.provider_name s.timers ≡ true)
      → IsReady limit n m (wake_up dep throttle deep_equal now t.provider_name s)
  unfolding wake_up
  wake_up-IsReady limit n now m t s late number all_wake quiet kept pending =
      let after : ltb (s.last_received + throttle) now ≡ true = ground arith in
      elim (Bool-cases (str_eq t.provider_name m.provider_name)) [
        | inl y ↦
            let same : t.provider_name ≡ m.provider_name =
              (str_eq_iff t.provider_name m.provider_name).0 y in
            rw (after, same, kept)
              (record {
                number = number;
                all_wake = all_wake;
                quiet = quiet;
                kept = kept;
                pending = inl (mem-append_right s.validated mem-cons_self);
              })
        | inr other ↦ elim (Option-cases (lookup t.provider_name s.last_configs)) [
          | inl q ↦
              rw (after, q)
                (record {
                  number = number;
                  all_wake = all_wake;
                  quiet = quiet;
                  kept = kept;
                  pending = elim pending [ inl p ↦ inl p | inr w ↦ inr (ground (arith, w, other)) ];
                })
          | inr (c, q) ↦
              rw (after, q)
                (record {
                  number = number;
                  all_wake = all_wake;
                  quiet = quiet;
                  kept = kept;
                  pending = elim pending [
                    | inl p ↦ inl (mem-append_left (c ∷ []) p)
                    | inr w ↦ inr (ground (arith, w, other))
                  ];
                })
        ]
      ]

  fire-IsReady :
      (limit n now i : ℕ) (m : ConfigMessage) (s : State)
      → limit < now
      → i ≤ n
      → IsReady limit (suc n) m s
      → IsReady limit n m (fire dep throttle deep_equal now i s)
  unfolding fire
  fire-IsReady limit n now i m s late h r =
      let (t, e, by, left, rest, q) =
        nth-remove_nth s.timers i n limit m.provider_name r.number h r.all_wake in
      let awake : ltb now t.wake ≡ false = ground (arith, late, by) in
      rw (e, fire, awake)
        (wake_up-IsReady limit n now m t (record s { timers = remove_nth s.timers i }) late left
          rest r.quiet r.kept (elim r.pending [ inl p ↦ inl p | inr w ↦ inr (sym q ∙ w) ]))

  steps-IsReady :
      (limit n : ℕ) (es : List Event) (m : ConfigMessage) (s : State)
      → IsSchedule limit n es
      → IsReady limit n m s
      → IsReady limit 0 m (steps dep throttle deep_equal es s)
  unfolding steps step
  steps-IsReady limit zero [] m s h r = r
  steps-IsReady limit zero (e ∷ es) m s h r = absurd h
  steps-IsReady limit (suc n) [] m s h r = absurd h
  steps-IsReady limit (suc n) (received now current msg ∷ es) m s h r = absurd h
  steps-IsReady limit (suc n) (woken now i ∷ es) m s (late, i≤n, h) r =
      steps-IsReady limit n es m (fire dep throttle deep_equal now i s) h
        (fire-IsReady limit n now i m s late i≤n r)

  receive-IsReady :
      (now : ℕ) (current : Dict Configuration) (msg : ConfigMessage) (s : State)
      → IsNew dep throttle deep_equal current msg
      → WakeBy (now + throttle) s.timers
      → let after = receive dep throttle deep_equal now current msg s in
        IsReady (now + throttle) (length after.timers) (with_defaults dep msg) after
  unfolding receive accept
  receive-IsReady now current msg s v w =
      let m = with_defaults dep msg in
      let kept : lookup m.provider_name (insert m.provider_name m s.last_configs) ≡ some m =
        lookup-insert m.provider_name m.provider_name m s.last_configs
        ∙ rw (str_eq_refl m.provider_name) refl in
      elim (Bool-cases (ltb (s.last_received + throttle) now)) [
        | inl y ↦
            rw (v.not_empty, v.not_same, y)
              (record {
                number = refl;
                all_wake = w;
                quiet = omega arith;
                kept = kept;
                pending = inl (mem-append_right s.validated mem-cons_self);
              })
        | inr n ↦
            rw (v.not_empty, v.not_same, n)
              (record {
                number = refl;
                all_wake = All-append (λ t. t.wake ≤ now + throttle) s.timers _ w (omega arith, tt);
                quiet = omega arith;
                kept = kept;
                pending = inr (waits-append s.timers msg.provider_name (now + throttle));
              })
      ]

  ready-done :
      (limit : ℕ) (m : ConfigMessage) (s : State)
      → IsReady limit 0 m s
      → (s.timers ≡ []) × Mem m s.validated
  ready-done limit m s r = nobody s.timers r.number r.pending
    where
      nobody :
          (ts : List Timer)
          → length ts ≡ 0
          → Mem m s.validated ⊎ (waits m.provider_name ts ≡ true)
          → (ts ≡ []) × Mem m s.validated
      nobody [] l (inl p) = (refl, p)
      nobody [] l (inr w) = cc
      nobody (t ∷ ts) l p = ground arith

  -- A new configuration is received, no goroutine that waits wakes later than it is held back, and
  -- no other is received. Then, in whatever order the goroutines that wait go on, each once the
  -- duration is over, none is left, and the configuration has been sent with its default values.
  pub last_delivered :
      (now : ℕ) (current : Dict Configuration) (msg : ConfigMessage) (s : State) (es : List Event)
      → IsNew dep throttle deep_equal current msg
      → WakeBy (now + throttle) s.timers
      → let first = receive dep throttle deep_equal now current msg s in
        IsSchedule (now + throttle) (length first.timers) es
        → let after = steps dep throttle deep_equal (received now current msg ∷ es) s in
          (after.timers ≡ []) × Mem (with_defaults dep msg) after.validated
  unfolding steps step
  last_delivered now current msg s es v w h =
      let first = receive dep throttle deep_equal now current msg s in
      let r =
        steps-IsReady (now + throttle) (length first.timers) es (with_defaults dep msg) first h
          (receive-IsReady now current msg s v w) in
      ready-done (now + throttle) (with_defaults dep msg) (steps dep throttle deep_equal es first) r
