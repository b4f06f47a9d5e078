-- ===== src/Middlewares/Auth/Users.antt =====
-- The users that an authenticator knows.
use mathlib.Core.Option.{get_or}
use traefik.Prelude.{
  Option, none, some, List, [], ◌∷◌, ◌++◌, Str, str_eq, Dict, lookup, insert, lookup-insert,
  append-nil, Result, ok, if◌then◌else◌, map, ◌≡◌, ◌↔◌, refl, ap, ◌∙◌, All, arith, Option-cases,
  inl, inr,
}
use traefik.Text.{is, split, join}
use traefik.Text.Split.{Lacks, split-join}
use traefik.Types.{Auth, Basic, Digest}
use traefik.Middlewares.Auth.{
  basic_entry, parse_users, parser_basic_users, user_lines, Authenticator, by_basic,
  new_authenticator, secret_basic,
}

-- The entry is one that the scheme reads.
abbrev pub Reads : (List Str → Option (Str × Str)) → Str → Type 0
Reads entry user = (p : Str × Str) × (entry (split b':' user) ≡ some p)

-- Users are read exactly if each entry is.
pub parse_users_iff :
    (entry : List Str → Option (Str × Str)) (users : Dict Str) (l : List Str)
    → ((m : Dict Str) × (parse_users entry users l ≡ ok m)) ↔ All (Reads entry) l
unfolding parse_users
parse_users_iff entry users [] = (λ h. tt, λ h. (users, refl))
parse_users_iff entry users (user ∷ l) = elim (Option-cases (entry (split b':' user))) [
  | inl n ↦ (λ h. absurd (ground arith), λ h. absurd (ground arith))
  | inr ((key, secret), y) ↦
      let (to, from) = parse_users_iff entry (insert key secret users) l in
      (
        λ h. (((key, secret), y), to (h.0, rw (y, parse_users) at h.1)),
        λ h. let (m, e) = from h.1 in (m, rw (y, parse_users) e),
      )
]

-- The last secret that a list of names and secrets gives a name.
abbrev pub last_secret : Str → List (Str × Str) → Option Str → Option Str
last_secret k [] found = found
last_secret k ((name, secret) ∷ l) found =
    last_secret k l (if str_eq name k then some secret else found)

-- Names and secrets that hold no colon.
abbrev pub NoColons : List (Str × Str) → Type 0
NoColons = All (λ u. Lacks (is b':') u.0 × Lacks (is b':') u.1)

-- `name:secret`
abbrev pub user_text : Str × Str → Str
user_text (name, secret) = name ++ b':' ∷ secret

split-user_text :
    (name secret : Str)
    → Lacks (is b':') name
    → Lacks (is b':') secret
    → split b':' (name ++ b':' ∷ secret) ≡ name ∷ secret ∷ []
unfolding split join
split-user_text name secret h k = split-join b':' name (secret ∷ []) (h, (k, tt))

parse_users-user_text :
    (users : Dict Str) (l : List (Str × Str))
    → NoColons l
    → (m : Dict Str) × (parse_users basic_entry users (map user_text l) ≡ ok m)
      × ((k : Str) → lookup k m ≡ last_secret k l (lookup k users))
unfolding parse_users basic_entry
parse_users-user_text users [] h = (users, refl, λ k. refl)
parse_users-user_text users ((name, secret) ∷ l) ((p, q), h) =
    let (m, e, found) = parse_users-user_text (insert name secret users) l h in
    (
      m,
      rw (split-user_text name secret p q, parse_users) e,
      λ k. found k ∙ ap (last_secret k l) (lookup-insert name k secret users),
    )

-- Basic authentication over users that the configuration lists as `name:secret` is chosen whether or
-- not digest authentication is configured too. Each user is known by the secret that stands last in
-- the list for the name; a name that the list does not hold has the empty secret.
pub new_authenticator-user_text :
    (read_file : Str → Result Str Str) (l : List (Str × Str)) (digest : Option Digest) (field : Str)
    → NoColons l
    → let basic : Basic = record { users = map user_text l; users_file = [] } in
      let auth : Auth = record { basic = some basic; digest = digest; header_field = field } in
      (a : Authenticator) × (new_authenticator read_file (some auth) ≡ ok a)
      × (a.scheme ≡ by_basic)
      × ((user realm : Str) → secret_basic a user realm ≡ get_or (last_secret user l none) [])
unfolding new_authenticator parser_basic_users user_lines secret_basic lookup
new_authenticator-user_text read_file l digest field h =
    let (m, e, found) = parse_users-user_text [] l h in
    (
      record { scheme = by_basic; users = m; header_field = field },
      rw (append-nil (map user_text l), e) refl,
      refl,
      λ user realm. ap (λ o. get_or o []) (found user),
    )
