-- ===== src/Server/Handlers/Wiring.antt =====
-- What a backend sees of a request to a route that changes its path.
use traefik.Prelude.{
  false, Option, some, List, [], ◌∷◌, ◌++◌, Str, codes, insert, is_empty, All, ◌≡◌, refl, ap, ◌∙◌,
}
use traefik.Middlewares.{Request}
use traefik.Middlewares.Paths.{strip_prefix, strip_request, add_prefix, find_prefix}
use traefik.Middlewares.Strip.{IsPrefixText, NoneMatches, find_here, find_next}
use traefik.Rules.Route.{ServerRoute}
use traefik.Server.Handlers.{Handler, BackendChain, to_backend, wire_frontend_backend, serve}

module _ {ℓ} {A : Type ℓ} (uri_of : Str → Str → Str) (not_found silent : A)
    (prefix_of : List Str → Request → Option (Option Str)) (inner : Handler → Request → A) where
  wired :
      {R : Type 0} (route : R) (ps : List Str) (p added rest : Str) (h : BackendChain) (r : Request)
      → is_empty ps ≡ false
      → find_prefix ps r.path ≡ some (p, rest)
      → let sr : ServerRoute R = record {
        route = route;
        strip_prefixes = ps;
        strip_prefixes_regex = [];
        add_prefix = added;
        replace_path = [];
      } in
        serve uri_of not_found silent prefix_of inner (wire_frontend_backend sr (to_backend h)) r
        ≡ inner (to_backend h) (record r {
          path = added ++ rest;
          request_uri = uri_of (added ++ rest) r.query;
          header = insert (codes "X-Forwarded-Prefix") (p ∷ []) r.header;
        })
  unfolding wire_frontend_backend serve strip_prefix add_prefix strip_request
  wired route ps p [] rest h r n e = rw (n, e, strip_prefix, wire_frontend_backend, serve)
  wired route ps p (c ∷ added) rest h r n e = rw (n, e, strip_prefix, wire_frontend_backend, serve)

  -- A route that strips prefixes, none of them by expression, adds a prefix or none, and does not
  -- replace the path; the path begins with one of its prefixes and with none that stands before it,
  -- and these prefixes are trimmed and not empty. Then the backend sees the request with the path
  -- and the URI in which the added prefix stands in place of the stripped one, and with the stripped
  -- one in the header X-Forwarded-Prefix; all else of the request is kept.
  pub serve-wire_frontend_backend :
      {R : Type 0} (route : R) (before after : List Str) (p added rest : Str) (h : BackendChain)
      (r : Request)
      → All IsPrefixText before
      → IsPrefixText p
      → NoneMatches (p ++ rest) before
      → r.path ≡ p ++ rest
      → let sr : ServerRoute R = record {
        route = route;
        strip_prefixes = before ++ p ∷ after;
        strip_prefixes_regex = [];
        add_prefix = added;
        replace_path = [];
      } in
        serve uri_of not_found silent prefix_of inner (wire_frontend_backend sr (to_backend h)) r
        ≡ inner (to_backend h) (record r {
          path = added ++ rest;
          request_uri = uri_of (added ++ rest) r.query;
          header = insert (codes "X-Forwarded-Prefix") (p ∷ []) r.header;
        })
  serve-wire_frontend_backend route before after p added rest h r vs v m e =
      wired route (before ++ p ∷ after) p added rest h r (not_empty before)
        (ap (find_prefix (before ++ p ∷ after)) e ∙ find_first before vs m)
    where
      not_empty : (before : List Str) → is_empty (before ++ p ∷ after) ≡ false
      not_empty [] = refl
      not_empty (q ∷ qs) = refl

      find_first :
          (before : List Str)
          → All IsPrefixText before
          → NoneMatches (p ++ rest) before
          → find_prefix (before ++ p ∷ after) (p ++ rest) ≡ some (p, rest)
      find_first [] vs m = find_here p rest after v
      find_first (q ∷ qs) (w, vs) (n, m) =
          find_next q (p ++ rest) (qs ++ p ∷ after) w n ∙ find_first qs vs m
