-- ===== src/Server/Load/Kept.antt =====
-- server/server.go: the relation that loadConfig keeps between its map of backends and the routes.
use traefik.Prelude.{
  update, none, some, List, [], ◌∷◌, ◌++◌, Str, str_eq, str_eq_iff, str_eq_refl, Dict, lookup,
  insert, lookup-insert, subst, ◌≡◌, refl, ◌∙◌, arith, Bool-cases, inl, inr, All, All-append,
}
use traefik.Rules.Route.{Mux}
use traefik.Server.Handlers.{Handler, BackendChain, to_backend}
use traefik.Server.Load.{RouteEntry, LoadState}
use traefik.Server.Load.Chains.{innermost, chain_of, IsChainOf}

pub lookup-insert_same :
    (k : Str) (h : Handler) (m : Dict Handler) → lookup k (insert k h m) ≡ some h
lookup-insert_same k h m = lookup-insert k k h m ∙ rw (str_eq_refl k) refl

lookup-insert_new :
    (k j : Str) (h g : Handler) (m : Dict Handler)
    → lookup k m ≡ none
    → lookup j m ≡ some g
    → lookup j (insert k h m) ≡ some g
lookup-insert_new k j h g m e q = ground (arith, lookup-insert k j h m, str_eq_iff k j)

module _ (mux : Mux) where
  -- Each handler of a backend is the chain of that name, and each route that ends with the chain of a
  -- backend ends with the one that is kept for the name; redirections end with none.
  abbrev pub Kept : Dict Handler → RouteEntry mux.Route → Type 0
  Kept backends entry =
      (c : BackendChain)
      → chain_of entry ≡ some c
      → lookup c.backend_name backends ≡ some (to_backend c)

  abbrev pub AllKept : Dict Handler → Dict (List (RouteEntry mux.Route)) → Type 0
  AllKept backends routers =
      All (λ (r : Str × List (RouteEntry mux.Route)). All (Kept backends) r.1) routers

  pub record IsShared (s : LoadState mux.Route) : Type 0 where
    pub named : (k : Str) (h : Handler) → lookup k s.backends ≡ some h → IsChainOf k h
    pub redirects :
        (k : Str) (h : Handler) → lookup k s.redirect_handlers ≡ some h → innermost h ≡ none
    pub kept : AllKept s.backends s.routers

  pub update-AllKept :
      (backends : Dict Handler) (k : Str) (entry : RouteEntry mux.Route)
      (routers : Dict (List (RouteEntry mux.Route)))
      → Kept backends entry
      → AllKept backends routers
      → AllKept backends (update k (λ es. es ++ entry ∷ []) routers)
  unfolding update
  update-AllKept backends k entry [] p h = tt
  update-AllKept backends k entry ((j, es) ∷ m) p (h, hs) = elim (Bool-cases (str_eq j k)) [
    | inl y ↦ rw y (All-append _ es (entry ∷ []) h (p, tt), update-AllKept backends k entry m p hs)
    | inr n ↦ rw n (h, update-AllKept backends k entry m p hs)
  ]

  insert-Kept :
      (backends : Dict Handler) (k : Str) (h : Handler) (es : List (RouteEntry mux.Route))
      → lookup k backends ≡ none
      → All (Kept backends) es
      → All (Kept (insert k h backends)) es
  insert-Kept backends k h [] e p = tt
  insert-Kept backends k h (entry ∷ es) e (p, ps) = (
    (λ c q. lookup-insert_new k c.backend_name h (to_backend c) backends e (p c q)),
    insert-Kept backends k h es e ps,
  )

  pub insert-AllKept :
      (backends : Dict Handler) (k : Str) (h : Handler)
      (routers : Dict (List (RouteEntry mux.Route)))
      → lookup k backends ≡ none
      → AllKept backends routers
      → AllKept (insert k h backends) routers
  insert-AllKept backends k h [] e p = tt
  insert-AllKept backends k h ((j, es) ∷ m) e (p, ps) =
      (insert-Kept backends k h es e p, insert-AllKept backends k h m e ps)

  pub no_chain-Kept :
      (backends : Dict Handler) (entry : RouteEntry mux.Route)
      → chain_of entry ≡ none
      → Kept backends entry
  no_chain-Kept backends entry e c q = cc

  All-middle :
      (backends : Dict Handler) (before after : List (RouteEntry mux.Route))
      (entry : RouteEntry mux.Route)
      → All (Kept backends) (before ++ entry ∷ after)
      → Kept backends entry
  All-middle backends [] after entry (p, ps) = p
  All-middle backends (x ∷ before) after entry (p, ps) = All-middle backends before after entry ps

  AllKept-lookup :
      (backends : Dict Handler) (ep : Str) (es : List (RouteEntry mux.Route))
      (routers : Dict (List (RouteEntry mux.Route)))
      → AllKept backends routers
      → lookup ep routers ≡ some es
      → All (Kept backends) es
  unfolding lookup
  AllKept-lookup backends ep es [] p e = cc
  AllKept-lookup backends ep es ((k, fs) ∷ m) (p, ps) e = elim (Bool-cases (str_eq k ep)) [
    | inl y ↦ let same : fs ≡ es = ground arith in subst (All (Kept backends)) same p
    | inr n ↦ AllKept-lookup backends ep es m ps (ground arith)
  ]

  -- A route that ends with the chain of a backend ends with the one that is kept for its name.
  pub IsShared-lookup :
      (s : LoadState mux.Route)
      → IsShared s
      → (ep : Str) (before after : List (RouteEntry mux.Route)) (entry : RouteEntry mux.Route)
      → lookup ep s.routers ≡ some (before ++ entry ∷ after)
      → Kept s.backends entry
  IsShared-lookup s v ep before after entry e =
      All-middle s.backends before after entry
        (AllKept-lookup s.backends ep (before ++ entry ∷ after) s.routers v.kept e)
