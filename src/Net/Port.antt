-- ===== src/Net/Port.antt =====
-- Which hosts net.SplitHostPort takes a port off.
use traefik.Prelude.{ℕ, ==_iff, false, none, some, [], ◌∷◌, ◌++◌, Str, ◌≡◌, refl, arith}
use traefik.Net.{split_last, split_host_port, holds}

-- A name that can be a host's, with no port: no colon, percent sign or bracket.
abbrev pub IsPlain : Str → Type 0
IsPlain s =
    (holds b':' s ≡ false)
    × (holds b'%' s ≡ false)
    × (holds b'[' s ≡ false)
    × (holds b']' s ≡ false)

split_last_missing : (c : ℕ) (s : Str) → holds c s ≡ false → split_last c s ≡ none
unfolding split_last
split_last_missing c [] h = refl
split_last_missing c (x ∷ s) h = ground (arith, split_last_missing c s)

split_last-append :
    (c : ℕ) (a b : Str) → holds c b ≡ false → split_last c (a ++ c ∷ b) ≡ some (a, b)
unfolding split_last
split_last-append c [] b h = rw (split_last_missing c b h, split_last, (==_iff c c).1 refl)
split_last-append c (x ∷ a) b h = rw (split_last-append c a b h, split_last)

-- A name with no port is refused, and one with a port gives the name.
pub split_host_port_plain : (host : Str) → IsPlain host → split_host_port host ≡ none
unfolding split_host_port
split_host_port_plain host h = rw (split_last_missing b':' host h.0, split_host_port)

pub split_host_port-append :
    (host port : Str)
    → IsPlain host
    → IsPlain port
    → split_host_port (host ++ b':' ∷ port) ≡ some host
unfolding split_host_port
split_host_port-append [] port h k =
    rw (split_last-append b':' [] port k.0, split_host_port) (ground arith)
split_host_port-append (x ∷ host) port h k =
    rw (split_last-append b':' (x ∷ host) port k.0, split_host_port) (ground arith)
