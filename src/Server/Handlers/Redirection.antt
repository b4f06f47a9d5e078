-- ===== src/Server/Handlers/Redirection.antt =====
-- A redirection to an entry point goes to that entry point's protocol and port.
use traefik.Prelude.{
  ℕ, Bool, true, some, [], ◌∷◌, ◌++◌, Str, codes, Dict, lookup, is_some, if◌then◌else◌, ok, ◌≡◌,
  refl, ap, ◌∙◌, All,
}
use traefik.Text.{is}
use traefik.Text.Split.{Lacks, NonEmpty}
use traefik.Server.Settings.{EntryPoint}
use traefik.Server.Handlers.{
  is_digit, take_digits, find_port, redirect_regex, load_entry_point_config, redirect_to,
  replacement_to,
}

abbrev pub AreDigits : Str → Type 0
AreDigits = All (λ c. is_digit c ≡ true)

take_digits_all : (d : Str) → AreDigits d → take_digits d ≡ d
unfolding take_digits
take_digits_all [] h = refl
take_digits_all (c ∷ d) (y, h) = rw y (ap (λ r. c ∷ r) (take_digits_all d h))

find_port-append :
    (host port : Str)
    → Lacks (is b':') host
    → AreDigits port
    → NonEmpty port
    → find_port (host ++ b':' ∷ port) ≡ some (b':' ∷ port)
unfolding find_port
find_port-append [] port l d n = rw (take_digits_all port d, n)
find_port-append (c ∷ host) port (m, l) d n = rw m (find_port-append host port l d n)

-- Where the entry point that is named is there, its address is a host without a colon, a colon and one
-- or more digits, and the expression of redirections compiles: the redirection goes to https exactly
-- if the entry point has TLS, and to the port of the address.
pub load_entry_point_config_port :
    (compiles : Str → Bool) (entry_points : Dict EntryPoint) (c : ℕ) (name regex replacement : Str)
    (e : EntryPoint) (host port : Str)
    → compiles redirect_regex ≡ true
    → lookup (c ∷ name) entry_points ≡ some e
    → e.address ≡ host ++ b':' ∷ port
    → Lacks (is b':') host
    → AreDigits port
    → NonEmpty port
    → load_entry_point_config compiles entry_points (c ∷ name) regex replacement
      ≡ ok (
        redirect_regex,
        (if is_some e.tls then codes "https" else codes "http")
            ++ (codes "://$1" ++ ((b':' ∷ port) ++ codes "$2")),
      )
unfolding load_entry_point_config
load_entry_point_config_port compiles entry_points c name regex replacement e host port y found a l
      d n =
    let p : find_port e.address ≡ some (b':' ∷ port) =
      ap find_port a ∙ find_port-append host port l d n in
    rw (found, redirect_to) (rw (p, replacement_to) (rw y))
