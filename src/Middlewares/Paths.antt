-- ===== src/Middlewares/Paths.antt =====
-- middlewares/stripPrefix.go, stripPrefixRegex.go, addPrefix.go and replace_path.go: handlers that
-- change the path of a request.
use mathlib.Core.Option.{get_or}
use traefik.Prelude.{
  ℕ, ◌-◌, ◌==◌, Option, none, some, List, [], ◌∷◌, ◌++◌, Str, codes, Dict, lookup, insert, ltb,
  if◌then◌else◌,
}
use traefik.Text.{trim_space, trim_prefix, byte_length, width}
use traefik.Middlewares.{Request}

abbrev pub forwarded_prefix_header : Str
forwarded_prefix_header = codes "X-Forwarded-Prefix"

abbrev pub replaced_path_header : Str
replaced_path_header = codes "X-Replaced-Path"

-- What a slice from byte `n` on leaves; a cut falls on the bound of a character.
unfoldable pub drop_bytes : ℕ → Str → Str
drop_bytes n [] = []
drop_bytes n (c ∷ s) = let rest = drop_bytes (n - width c) s in if n == 0 then c ∷ s else rest

-- The loop of StripPrefix over the prefixes: the first that makes the path shorter, and the path
-- that it leaves.
unfoldable pub find_prefix : List Str → Str → Option (Str × Str)
find_prefix [] path = none
find_prefix (prefix ∷ prefixes) path =
    let p = trim_prefix path (trim_space prefix) in
    if ltb (byte_length p) (byte_length path) then some (prefix, p) else find_prefix prefixes path

-- `uri_of` is URL.RequestURI, of a path and a query.
module _ (uri_of : Str → Str → Str) where
  -- The path, the forwarded prefix and the request URI of a stripped request.
  unfoldable pub strip_request : Str → Str → Request → Request
  strip_request prefix path r = record r {
    path = path;
    header = insert forwarded_prefix_header (prefix ∷ []) r.header;
    request_uri = uri_of path r.query;
  }

  -- AddPrefix.ServeHTTP
  unfoldable pub add_prefix {ℓ} : {A : Type ℓ} → Str → (Request → A) → Request → A
  add_prefix prefix handler r =
      let path = prefix ++ r.path in
      handler (record r { path = path; request_uri = uri_of path r.query })

-- A handler answers a request by a value of type `A`; `not_found` is the answer of http.NotFound, and
-- `silent` that of a handler which writes nothing.
module _ {ℓ} {A : Type ℓ} (uri_of : Str → Str → Str) (not_found silent : A) where
  -- StripPrefix.ServeHTTP
  unfoldable pub strip_prefix : List Str → (Request → A) → Request → A
  strip_prefix prefixes handler r = elim (find_prefix prefixes r.path) [
    | some (prefix, p) ↦ handler (strip_request uri_of prefix p r)
    | none ↦ not_found
  ]

  -- StripPrefixRegex.ServeHTTP. `prefix_of` stands for the router of the package mux over the
  -- prefixes: `none` where no route matches, and else the path that the matched route builds from
  -- its variables, `some none` if that fails.
  unfoldable pub strip_prefix_regex :
      (List Str → Request → Option (Option Str)) → List Str → (Request → A) → Request → A
  strip_prefix_regex prefix_of prefixes handler r = elim (prefix_of prefixes r) [
    | none ↦ not_found
    | some none ↦ silent
    | some (some prefix) ↦
        if ltb (byte_length r.path) (byte_length prefix)
        then silent
        else handler (strip_request uri_of prefix (drop_bytes (byte_length prefix) r.path) r)
  ]

-- `Header.Add`
abbrev pub add_header : Str → Str → Dict (List Str) → Dict (List Str)
add_header key value header = insert key (get_or (lookup key header) [] ++ value ∷ []) header

-- ReplacePath.ServeHTTP
unfoldable pub replace_path {ℓ} : {A : Type ℓ} → Str → (Request → A) → Request → A
replace_path path handler r =
    handler (record r { path = path; header = add_header replaced_path_header r.path r.header })
