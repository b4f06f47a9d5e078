-- ===== src/Net.antt =====
-- net.SplitHostPort of Go 1.8, the function that takes the port off a request's host.
pub mod Port
use traefik.Prelude.{
  ℕ, ◌==◌, Bool, true, false, ◌&&◌, ◌||◌, not, Option, none, some, List, [], ◌∷◌, Str,
  if◌then◌else◌, any, is_empty,
}
use mathlib.Core.Option

-- What stands before and behind the last place of a character.
unfoldable pub split_last : ℕ → Str → Option (Str × Str)
split_last c [] = none
split_last c (x ∷ s) = elim (split_last c s) [
  | some (before, behind) ↦ some (x ∷ before, behind)
  | none ↦ if x == c then some ([], s) else none
]

abbrev pub holds : ℕ → Str → Bool
holds c = any (λ x. x == c)

abbrev pub no_brackets : Str → Bool
no_brackets s = not (holds b'[' s) && not (holds b']' s)

-- A host with no bracket in front: it may hold no colon, no percent sign and no bracket.
plain_host : Str → Str → Option Str
plain_host before port =
    if not (holds b':' before) && not (holds b'%' before) && no_brackets before && no_brackets port
    then some before
    else none

-- A host in brackets: the closing one stands right before the colon of the port.
bracketed_host : Option (Str × Str) → Str → Option Str
bracketed_host none port = none
bracketed_host (some (inner, behind)) port =
    if is_empty behind && no_brackets inner && no_brackets port then some inner else none

host_before : Str → Str → Option Str
host_before [] port = plain_host [] port
host_before (x ∷ before) port =
    if x == b'[' then bracketed_host (split_last b']' before) port else plain_host (x ∷ before) port

-- The host; `none` where the function returns an error.
unfoldable pub split_host_port : Str → Option Str
unfolding host_before bracketed_host plain_host
split_host_port hostport = elim (split_last b':' hostport) [
  | none ↦ none
  | some (before, port) ↦ host_before before port
]
