-- ===== src/Server/Throttle/Delivery.antt =====
-- Which configurations are sent on, and which are not.
use mathlib.Core.List.{Memᴰ}
use traefik.Prelude.{
  ℕ, ◌+◌, Bool, false, some, List, [], ◌∷◌, Str, Dict, lookup, insert, lookup-insert, ltb, ◌≡◌,
  refl, sym, ◌∙◌, All, All-append, Bool-cases, Option-cases, inl, inr, str_eq, subst,
}
use traefik.Types.{Configuration, ConfigMessage}
use traefik.Server.Throttle.{
  State, is_empty_configuration, nth, remove_nth, is_same, with_defaults, accept, receive, wake_up,
  fire, Event, received, woken, start, step, steps,
}

module _ (dep : List Str) (throttle : ℕ) (deep_equal : Configuration → Configuration → Bool) where
  -- The message is that of an event, with default values; its configuration is not empty, and was not
  -- the current one of its provider.
  abbrev pub ComesFrom : ConfigMessage → Event → Type 0
  ComesFrom m (received now current msg) =
      (m ≡ with_defaults dep msg)
      × (is_empty_configuration m.configuration ≡ false)
      × (is_same dep throttle deep_equal current m.provider_name m.configuration ≡ false)
  ComesFrom m (woken now i) = ⊥

  module _ (P : ConfigMessage → Type 0) where
    -- All that was sent, and all that is kept to be sent, satisfies `P`.
    abbrev Sound : State → Type 0
    Sound s =
        All P s.validated × ((k : Str) (m : ConfigMessage) → lookup k s.last_configs ≡ some m → P m)

    insert-Sound :
        (m : ConfigMessage) (l : Dict ConfigMessage)
        → P m
        → ((k : Str) (m' : ConfigMessage) → lookup k l ≡ some m' → P m')
        → (k : Str) (m' : ConfigMessage) → lookup k (insert m.provider_name m l) ≡ some m'
        → P m'
    insert-Sound m l p h k m' e = elim (Bool-cases (str_eq m.provider_name k)) [
      | inl y ↦
          let new : lookup k (insert m.provider_name m l) ≡ some m =
            lookup-insert m.provider_name k m l ∙ rw y in
          let same : m ≡ m' = cc in subst P same p
      | inr n ↦ h k m' (sym (lookup-insert m.provider_name k m l ∙ rw n) ∙ e)
    ]

    accept-Sound :
        (now : ℕ) (m : ConfigMessage) (s : State)
        → P m
        → Sound s
        → Sound (accept dep throttle deep_equal now m s)
    unfolding accept
    accept-Sound now m s p (v, l) = elim (Bool-cases (ltb (s.last_received + throttle) now)) [
      | inl y ↦
          rw y (All-append P s.validated (m ∷ []) v (p, tt), insert-Sound m s.last_configs p l)
      | inr n ↦ rw n (v, insert-Sound m s.last_configs p l)
    ]

    wake_up-Sound :
        (now : ℕ) (name : Str) (s : State)
        → Sound s
        → Sound (wake_up dep throttle deep_equal now name s)
    unfolding wake_up
    wake_up-Sound now name s (v, l) = elim (Bool-cases (ltb (s.last_received + throttle) now)) [
      | inr n ↦ rw n (v, l)
      | inl y ↦ elim (Option-cases (lookup name s.last_configs)) [
        | inl none_there ↦ rw (y, none_there) (v, l)
        | inr (m, found) ↦
            rw (y, found) (All-append P s.validated (m ∷ []) v (l name m found, tt), l)
      ]
    ]

    fire-Sound : (now i : ℕ) (s : State) → Sound s → Sound (fire dep throttle deep_equal now i s)
    unfolding fire
    fire-Sound now i s k = elim (Option-cases (nth s.timers i)) [
      | inl n ↦ rw (n, fire) k
      | inr (t, y) ↦ elim (Bool-cases (ltb now t.wake)) [
        | inl early ↦ rw (y, fire, early) k
        | inr late ↦
            rw (y, fire, late)
              (wake_up-Sound now t.provider_name (record s { timers = remove_nth s.timers i }) k)
      ]
    ]

    step-Sound :
        (e : Event) (s : State)
        → ((m : ConfigMessage) → ComesFrom m e → P m)
        → Sound s
        → Sound (step dep throttle deep_equal e s)
    unfolding step
    step-Sound (received now current msg) s h k =
        elim (Bool-cases (is_empty_configuration (with_defaults dep msg).configuration)) [
          | inl y ↦ unfold receive in rw y k
          | inr n ↦
              elim (Bool-cases (
                is_same dep throttle deep_equal current msg.provider_name
                  (with_defaults dep msg).configuration)) [
                    | inl y ↦ unfold receive in rw (n, y) k
                    | inr m ↦
                        unfold receive in
                        rw (n, m)
                          (accept-Sound now (with_defaults dep msg) s
                            (h (with_defaults dep msg) (refl, n, m)) k)
                  ]
        ]
    step-Sound (woken now i) s h k = fire-Sound now i s k

    steps-Sound :
        (es : List Event) (s : State)
        → ((e : Event) → Memᴰ e es → (m : ConfigMessage) → ComesFrom m e → P m)
        → Sound s
        → Sound (steps dep throttle deep_equal es s)
    unfolding steps
    steps-Sound [] s h k = k
    steps-Sound (e ∷ es) s h k =
        steps-Sound es (step dep throttle deep_equal e s) (λ e' m. h e' (Memᴰ.tail m))
          (step-Sound e s (h e (Memᴰ.head refl)) k)

  -- A configuration of the event list.
  abbrev pub FromSome : List Event → ConfigMessage → Type 0
  FromSome es m = (e : Event) × Memᴰ e es × ComesFrom m e

  -- Whatever happens, only configurations that were received are sent on, each with its default
  -- values, and none that was empty or the current one of its provider when it was received.
  pub steps-FromSome :
      (es : List Event) → All (FromSome es) (steps dep throttle deep_equal es start).validated
  steps-FromSome es =
      (steps-Sound (FromSome es) es start (λ e mem m c. (e, mem, c))
        (unfold start lookup in (tt, λ k m e. cc))).0
