-- ===== src/Middlewares/Strip.antt =====
-- What the handlers that change the path have in common, and how they undo each other.
use traefik.Prelude.{
  ◌+◌, ◌≤◌, ◌<◌, Option, none, some, List, [], ◌∷◌, ◌++◌, Str, ltb, if◌then◌else◌, ◌≡◌, ◌⊎◌, arith,
  All,
}
use mathlib.Core.List.{Memᴰ}
use traefik.Text.{byte_length, after_prefix}
use traefik.Text.Split.{NonEmpty}
use traefik.Text.Trim.{IsTrimmed}
use traefik.Text.Cut.{trim_prefix-append, trim_prefix_missing}
use traefik.Middlewares.{Request}
use traefik.Middlewares.Paths.{find_prefix, strip_request, strip_prefix, add_prefix}

byte_length-append : (s t : Str) → byte_length (s ++ t) ≡ byte_length s + byte_length t
byte_length-append [] t = omega arith
byte_length-append (c ∷ s) t = omega (arith, byte_length-append s t)

byte_length-pos : (s : Str) → NonEmpty s → 0 < byte_length s
byte_length-pos [] h = cc
byte_length-pos (c ∷ s) h = ground arith

-- A prefix that is tried: trimmed, and not empty.
abbrev pub IsPrefixText : Str → Type 0
IsPrefixText p = IsTrimmed p × NonEmpty p

-- The first prefix is found where the path begins with it.
pub find_here :
    (p rest : Str) (ps : List Str)
    → IsPrefixText p
    → find_prefix (p ∷ ps) (p ++ rest) ≡ some (p, rest)
unfolding find_prefix
find_here p rest ps (t, n) = rw (t, trim_prefix-append p rest) (shorter p rest n)
  where
    shorter :
        (p rest : Str)
        → NonEmpty p
        → (if ltb (byte_length rest) (byte_length (p ++ rest))
            then some (p, rest)
            else find_prefix ps (p ++ rest))
          ≡ some (p, rest)
    shorter p rest n = ground (arith, byte_length-append p rest, byte_length-pos p n)

pub find_next :
    (p path : Str) (ps : List Str)
    → IsPrefixText p
    → after_prefix p path ≡ none
    → find_prefix (p ∷ ps) path ≡ find_prefix ps path
unfolding find_prefix
find_next p path ps (t, n) m = rw (t, trim_prefix_missing p path m) (ground arith)

-- No text of the list is a prefix of the path.
abbrev pub NoneMatches : Str → List Str → Type 0
NoneMatches path = All (λ q. after_prefix q path ≡ none)

-- Each text of the list that is a prefix of the path is at most as long as `p`.
abbrev pub Longest : Str → Str → List Str → Type 0
Longest p path = All (λ q. (after_prefix q path ≡ none) ⊎ (byte_length q ≤ byte_length p))

-- What the search for a prefix comes to.
abbrev pub Found : List Str → Str → Option (Str × Str) → Type 0
Found ps path none = NoneMatches path ps
Found ps path (some (p, rest)) = Memᴰ p ps × (path ≡ p ++ rest) × Longest p path ps

module _ {ℓ} {A : Type ℓ} (uri_of : Str → Str → Str) (not_found silent : A) where
  -- The answer of the handler that strips prefixes.
  abbrev pub Stripped : List Str → (Request → A) → Request → Type ℓ
  Stripped ps handler r =
      (NoneMatches r.path ps × (strip_prefix uri_of not_found silent ps handler r ≡ not_found))
      ⊎ ((p : Str) × (rest : Str) × Memᴰ p ps
          × (r.path ≡ p ++ rest)
          × Longest p r.path ps
          × (strip_prefix uri_of not_found silent ps handler r
              ≡ handler (strip_request uri_of p rest r)))

  -- A prefix that is added is stripped again: the handler behind both sees the path of the request,
  -- its URI made anew, and the prefix in the header of forwarded prefixes.
  pub add_prefix-strip_prefix :
      (p : Str) (ps : List Str) (handler : Request → A) (r : Request)
      → IsPrefixText p
      → add_prefix uri_of p (strip_prefix uri_of not_found silent (p ∷ ps) handler) r
        ≡ handler (strip_request uri_of p r.path r)
  unfolding add_prefix strip_prefix strip_request
  add_prefix-strip_prefix p ps handler r v = rw (find_here p r.path ps v, strip_prefix)
