-- ===== src/Server/Throttle.antt =====
-- server/server.go: listenProviders, which passes on the configurations that providers send, and
-- holds back those that come too close behind one another.
pub mod Delivery
pub mod Lost
pub mod Progress
use traefik.Prelude.{
  ℕ, zero, suc, ◌+◌, Bool, true, false, ◌&&◌, Option, none, some, List, [], ◌∷◌, ◌++◌, Str, Dict,
  lookup, insert, ltb, if◌then◌else◌, is_some, not,
}
use traefik.Types.{Configuration, ConfigMessage}
use traefik.Server.Defaults.{default_configuration_values}

-- A goroutine that waits: its provider, and the time at which it wakes.
pub record Timer : Type 0 where
  pub provider_name : Str
  pub wake : ℕ

-- What listenProviders keeps: when a configuration was last received, the last message of each
-- provider, the goroutines that wait, and what was sent to configurationValidatedChan.
pub record State : Type 0 where
  pub last_received : ℕ
  pub last_configs : Dict ConfigMessage
  pub timers : List Timer
  pub validated : List ConfigMessage

-- `configMsg.Configuration == nil`, or no backends and no frontends in it.
abbrev pub is_empty_configuration : Option Configuration → Bool
is_empty_configuration none = true
is_empty_configuration (some c) = not (is_some c.backends) && not (is_some c.frontends)

abbrev pub nth : List Timer → ℕ → Option Timer
nth [] i = none
nth (t ∷ ts) zero = some t
nth (t ∷ ts) (suc i) = nth ts i

abbrev pub remove_nth : List Timer → ℕ → List Timer
remove_nth [] i = []
remove_nth (t ∷ ts) zero = ts
remove_nth (t ∷ ts) (suc i) = t ∷ remove_nth ts i

-- A message, once its configuration has its default values.
abbrev pub with_defaults : List Str → ConfigMessage → ConfigMessage
with_defaults default_entry_points msg = record msg {
  configuration = default_configuration_values default_entry_points msg.configuration;
}

-- What happens to the loop: a message is received at a time, with the configurations that are then
-- current, or the i-th goroutine wakes.
pub data Event : Type 0 where
  received : ℕ → Dict Configuration → ConfigMessage → Event
  woken : ℕ → ℕ → Event

-- The state in which the loop starts: time 0 of Unix.
unfoldable pub start : State
start = record { last_received = 0; last_configs = []; timers = []; validated = [] }

-- `throttle` is ProvidersThrottleDuration, and `deep_equal` is reflect.DeepEqual of two
-- configurations.
module _ (default_entry_points : List Str) (throttle : ℕ)
    (deep_equal : Configuration → Configuration → Bool) where
  -- The configuration is the provider's current one.
  unfoldable pub is_same : Dict Configuration → Str → Option Configuration → Bool
  is_same current name configuration = elim (lookup name current) [
    | none ↦ false
    | some old ↦ elim configuration [ none ↦ false | some new ↦ deep_equal old new ]
  ]

  -- A configuration that is neither empty nor the same.
  unfoldable pub accept : ℕ → ConfigMessage → State → State
  accept now msg s =
      let configs = insert msg.provider_name msg s.last_configs in
      if ltb (s.last_received + throttle) now
      then record s {
        last_configs = configs;
        validated = s.validated ++ msg ∷ [];
        last_received = now;
      }
      else record s {
        last_configs = configs;
        timers =
            s.timers ++ record { provider_name = msg.provider_name; wake = now + throttle } ∷ [];
        last_received = now;
      }

  -- The case of the loop that receives a message at time `now`, with the configurations that are
  -- current then.
  unfoldable pub receive : ℕ → Dict Configuration → ConfigMessage → State → State
  receive now current msg s =
      let m = with_defaults default_entry_points msg in
      if is_empty_configuration m.configuration
      then s
      else if is_same current m.provider_name m.configuration
      then s
      else accept now m s

  -- What a goroutine does when it has woken: the last message of its provider is sent, if nothing
  -- was received from any provider for the duration.
  unfoldable pub wake_up : ℕ → Str → State → State
  wake_up now name s =
      if ltb (s.last_received + throttle) now
      then elim (lookup name s.last_configs) [
        | none ↦ s
        | some msg ↦ record s { validated = s.validated ++ msg ∷ [] }
      ]
      else s

  -- The i-th goroutine goes on at time `now`, if its time has come.
  unfoldable pub fire : ℕ → ℕ → State → State
  fire now i s = elim (nth s.timers i) [
    | none ↦ s
    | some t ↦
        if ltb now t.wake
        then s
        else wake_up now t.provider_name (record s { timers = remove_nth s.timers i })
  ]

  unfoldable pub step : Event → State → State
  step (received now current msg) s = receive now current msg s
  step (woken now i) s = fire now i s

  unfoldable pub steps : List Event → State → State
  steps [] s = s
  steps (e ∷ es) s = steps es (step e s)
