-- ===== src/Middlewares/Auth.antt =====
-- middlewares/authenticator.go: users read from the configuration and from a file.
pub mod Users
use traefik.Prelude.{
  ℕ, Bool, true, false, not, Option, none, some, List, [], ◌∷◌, ◌++◌, Str, codes, str_eq, Dict,
  lookup, insert, Result, ok, err, is_empty, if◌then◌else◌, keep, map,
}
use mathlib.Core.Option.{get_or}
use traefik.Text.{split, trim_space}
use traefik.Types.{Auth, Basic, Digest}
use traefik.Middlewares.{Request}

pub data AuthError : Type 0 where
  auth_is_nil : AuthError
  bad_user : Str → AuthError
  bad_file : Str → AuthError

-- getLinesFromFile, on the contents of a file: its trimmed lines that are not blank.
unfoldable pub get_lines : Str → List Str
get_lines dat = keep (λ line. not (is_empty line)) (map trim_space (split b'\n' dat))

-- `name:secret`, the parts of an entry of basic authentication.
unfoldable pub basic_entry : List Str → Option (Str × Str)
basic_entry (name ∷ secret ∷ []) = some (name, secret)
basic_entry _ = none

-- `name:realm:secret`, the parts of an entry of digest authentication: name and realm are the key.
unfoldable pub digest_entry : List Str → Option (Str × Str)
digest_entry (name ∷ realm ∷ secret ∷ []) = some (name ++ b':' ∷ realm, secret)
digest_entry _ = none

-- The loop over the users, with the entry that the parts of one make.
unfoldable pub parse_users :
    (List Str → Option (Str × Str)) → Dict Str → List Str → Result AuthError (Dict Str)
parse_users entry users [] = ok users
parse_users entry users (user ∷ rest) = elim (entry (split b':' user)) [
  | some (key, secret) ↦ parse_users entry (insert key secret users) rest
  | none ↦ err (bad_user user)
]

-- `read_file` is ioutil.ReadFile: the contents of a file, or an error.
module _ (read_file : Str → Result Str Str) where
  -- getLinesFromFile, and the test of the file's name around its call.
  unfoldable pub user_lines : Str → Result AuthError (List Str)
  user_lines [] = ok []
  user_lines (c ∷ filename) = elim (read_file (c ∷ filename)) [
    | ok dat ↦ ok (get_lines dat)
    | err e ↦ err (bad_file e)
  ]

  -- The users of the configuration stand before those of the file.
  with_lines :
      (List Str → Option (Str × Str))
      → List Str
      → Result AuthError (List Str)
      → Result AuthError (Dict Str)
  with_lines entry users (err e) = err e
  with_lines entry users (ok lines) = parse_users entry [] (users ++ lines)

  unfoldable pub parser_basic_users : Basic → Result AuthError (Dict Str)
  unfolding with_lines
  parser_basic_users basic = with_lines basic_entry basic.users (user_lines basic.users_file)

  unfoldable pub parser_digest_users : Digest → Result AuthError (Dict Str)
  unfolding with_lines
  parser_digest_users digest = with_lines digest_entry digest.users (user_lines digest.users_file)

-- The handler of an authenticator; it is nil where the configuration names no scheme.
pub data Scheme : Type 0 where
  by_basic by_digest no_handler : Scheme

pub record Authenticator : Type 0 where
  pub scheme : Scheme
  pub users : Dict Str
  pub header_field : Str

module _ (read_file : Str → Result Str Str) where
  made : Scheme → Str → Result AuthError (Dict Str) → Result AuthError Authenticator
  made scheme field (err e) = err e
  made scheme field (ok users) =
      ok (record { scheme = scheme; users = users; header_field = field })

  new_for : Option Basic → Option Digest → Str → Result AuthError Authenticator
  new_for (some basic) digest field = made by_basic field (parser_basic_users read_file basic)
  new_for none (some digest) field = made by_digest field (parser_digest_users read_file digest)
  new_for none none field = ok (record { scheme = no_handler; users = []; header_field = field })

  unfoldable pub new_authenticator : Option Auth → Result AuthError Authenticator
  unfolding made new_for
  new_authenticator none = err auth_is_nil
  new_authenticator (some auth) = new_for auth.basic auth.digest auth.header_field

-- The secret of a user, and the empty text for a user that is not known.
unfoldable pub secret_basic : Authenticator → Str → Str → Str
secret_basic a user realm = get_or (lookup user a.users) []

unfoldable pub secret_digest : Authenticator → Str → Str → Str
secret_digest a user realm = get_or (lookup (user ++ b':' ∷ realm) a.users) []

-- The name of the user goes into the header, if one is configured for it.
unfoldable pub with_user : Str → Str → Request → Request
with_user [] username r = r
with_user (c ∷ field) username r = record r { header = insert (c ∷ field) (username ∷ []) r.header }

-- Authenticator.ServeHTTP. `check_basic` and `check_digest` are the calls of CheckAuth of the package
-- go-http-auth: the name of the user whose secret the request knows, and the empty text if there is
-- none. `require` answers with a challenge, and `panic` is the call of a nil handler.
module _ {ℓ} {A : Type ℓ} (check_basic check_digest : (Str → Str → Str) → Request → Str)
    (require : Request → A) (panic : A) where
  pass : Str → Str → (Request → A) → Request → A
  pass field [] next r = require r
  pass field (c ∷ username) next r = next (with_user field (c ∷ username) r)

  serve_by : Scheme → Authenticator → (Request → A) → Request → A
  serve_by by_basic a next r = pass a.header_field (check_basic (secret_basic a) r) next r
  serve_by by_digest a next r = pass a.header_field (check_digest (secret_digest a) r) next r
  serve_by no_handler a next r = panic

  unfoldable pub serve : Authenticator → (Request → A) → Request → A
  unfolding pass serve_by
  serve a next r = serve_by a.scheme a next r
