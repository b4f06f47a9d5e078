-- ===== src/Server/Throttle/Lost.antt =====
-- One time of reception is kept for all providers, and a configuration can be lost by it.
use traefik.Prelude.{
  ℕ, ◌+◌, ◌≤◌, ◌<◌, Bool, true, false, some, List, [], ◌∷◌, ◌++◌, Str, Dict, lookup, insert,
  lookup-insert, ltb, ◌≡◌, refl, ◌∙◌, arith, str_eq_refl,
}
use traefik.Types.{Configuration, ConfigMessage}
use traefik.Server.Throttle.{
  Timer, State, is_empty_configuration, is_same, with_defaults, accept, receive, wake_up, fire,
  received, woken, step, steps,
}

module _ (dep : List Str) (throttle : ℕ) (deep_equal : Configuration → Configuration → Bool) where
  -- A message that is received is not passed over.
  pub record IsNew (current : Dict Configuration) (msg : ConfigMessage) : Type 0 where
    pub not_empty : is_empty_configuration (with_defaults dep msg).configuration ≡ false
    pub not_same :
        is_same dep throttle deep_equal current msg.provider_name
          (with_defaults dep msg).configuration
        ≡ false

  -- The state after a message that comes too early.
  abbrev held : ℕ → ConfigMessage → State → State
  held now m s = record s {
    last_configs = insert m.provider_name m s.last_configs;
    timers = s.timers ++ record { provider_name = m.provider_name; wake = now + throttle } ∷ [];
    last_received = now;
  }

  receive-held :
      (now : ℕ) (current : Dict Configuration) (msg : ConfigMessage) (s : State)
      → IsNew current msg
      → now ≤ s.last_received + throttle
      → receive dep throttle deep_equal now current msg s ≡ held now (with_defaults dep msg) s
  unfolding receive accept
  receive-held now current msg s v h =
      let early : ltb (s.last_received + throttle) now ≡ false = ground arith in
      rw (v.not_empty, v.not_same, early)

  fire-early :
      (now : ℕ) (t : Timer) (ts : List Timer) (s : State)
      → t.wake ≤ now
      → now ≤ s.last_received + throttle
      → fire dep throttle deep_equal now 0 (record s { timers = t ∷ ts }) ≡ record s { timers = ts }
  unfolding fire wake_up
  fire-early now t ts s w h =
      let awake : ltb now t.wake ≡ false = ground arith in
      let early : ltb (s.last_received + throttle) now ≡ false = ground arith in rw (awake, early)

  fire-late :
      (now : ℕ) (t : Timer) (ts : List Timer) (s : State) (m : ConfigMessage)
      → t.wake ≤ now
      → s.last_received + throttle < now
      → lookup t.provider_name s.last_configs ≡ some m
      → fire dep throttle deep_equal now 0 (record s { timers = t ∷ ts })
        ≡ record s { timers = ts; validated = s.validated ++ m ∷ [] }
  unfolding fire wake_up
  fire-late now t ts s m w h found =
      let awake : ltb now t.wake ≡ false = ground arith in
      let late : ltb (s.last_received + throttle) now ≡ true = ground arith in
      rw (awake, late, found)

  -- Nothing waits, and two messages are received that are not empty and not the current ones of their
  -- providers: the first within the throttle duration of an earlier reception, the second within that
  -- duration of the first. If the goroutine of the first wakes, at its time or later, while the
  -- second message is no older than the duration, and then that of the second when its message is
  -- older, then only the second configuration is sent, with its default values, and nothing waits any
  -- more: the first is never sent.
  pub first_provider_lost :
      (s : State) (a b : ConfigMessage) (t₁ t₂ t₃ t₄ : ℕ) (current₁ current₂ : Dict Configuration)
      → s.timers ≡ []
      → IsNew current₁ a
      → IsNew current₂ b
      → t₁ ≤ s.last_received + throttle
      → t₂ ≤ t₁ + throttle
      → t₁ + throttle ≤ t₃
      → t₃ ≤ t₂ + throttle
      → t₂ + throttle < t₄
      → let after =
          steps dep throttle deep_equal
            (received t₁ current₁ a ∷ received t₂ current₂ b ∷ woken t₃ 0 ∷ woken t₄ 0 ∷ [])
            s in
        (after.validated ≡ s.validated ++ with_defaults dep b ∷ []) × (after.timers ≡ [])
  unfolding steps step
  first_provider_lost s a b t₁ t₂ t₃ t₄ current₁ current₂ none_wait va vb h₁ h₂ h₃ h₄ h₅ =
      let a' = with_defaults dep a in
      let b' = with_defaults dep b in
      let first = held t₁ a' s in
      let second = held t₂ b' first in
      let ta : Timer = record { provider_name = a.provider_name; wake = t₁ + throttle } in
      let tb : Timer = record { provider_name = b.provider_name; wake = t₂ + throttle } in
      let waiting : second ≡ record second { timers = ta ∷ tb ∷ [] } =
        λ i. record second { timers = (none_wait i ++ ta ∷ []) ++ tb ∷ [] } in
      let kept : lookup b.provider_name second.last_configs ≡ some b' =
        lookup-insert b.provider_name b.provider_name b' first.last_configs
        ∙ rw (str_eq_refl b.provider_name) in
      rw
        (
          receive-held t₁ current₁ a s va h₁,
          receive-held t₂ current₂ b first vb h₂,
          waiting,
          fire-early t₃ ta (tb ∷ []) second h₃ h₄,
          fire-late t₄ tb [] second b' (omega arith) h₅ kept,
        )
        (refl, refl)
