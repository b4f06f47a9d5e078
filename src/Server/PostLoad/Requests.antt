-- ===== src/Server/PostLoad/Requests.antt =====
-- server/server.go: what postLoadConfig asks for, and when it panics.
use traefik.Prelude.{
  Bool, true, false, ◌&&◌, Option, none, some, concat, map, ok, err, Result-cases, List, [], ◌∷◌,
  ◌++◌, Str, Dict, lookup, is_some, any, append_assoc, append-nil, if◌then◌else◌, All, ◌≡◌, refl,
  sym, ap, ◌∙◌, Bool-cases, inl, inr,
}
use mathlib.Core.Option.{get_or}
use traefik.Rules.Domains.{parse_domains}
use traefik.Types.{Route, Frontend, Configuration}
use traefik.Server.Settings.{EntryPoint}
use traefik.Server.PostLoad.{
  and_then, tls_enabled, route_requests, frontend_requests, frontends_requests,
  configurations_requests, post_load_config,
}

-- All frontends of all configurations, in the order of the loops.
abbrev pub frontends_of : Dict Configuration → Dict Frontend
frontends_of [] = []
frontends_of ((_, c) ∷ cs) = get_or c.frontends [] ++ frontends_of cs

abbrev pub has_tls : Dict EntryPoint → Str → Bool
has_tls eps e = elim (lookup e eps) [ none ↦ false | some ep ↦ is_some ep.tls ]

-- The domains of each rule of which they can be read.
abbrev pub asked : Dict Route → List (List Str)
asked routes =
    concat
      (map (λ e. elim (parse_domains e.1.rule) [ err _ ↦ [] | ok domains ↦ domains ∷ [] ]) routes)

route_requests_lem : (routes : Dict Route) → route_requests routes ≡ asked routes
unfolding route_requests
route_requests_lem [] = refl
route_requests_lem ((_, r) ∷ routes) = elim (Result-cases (parse_domains r.rule)) [
  | inl (ds, y) ↦ rw (y, route_requests) (ap (λ l. ds ∷ l) (route_requests_lem routes))
  | inr (e, n) ↦ rw (n, route_requests) (route_requests_lem routes)
]

-- What is to be asked for: the domains of the rules of each frontend with TLS.
abbrev pub wanted : Dict EntryPoint → Dict Frontend → List (List Str)
wanted eps [] = []
wanted eps ((_, f) ∷ fs) =
    let rest = wanted eps fs in
    if any (has_tls eps) f.entry_points then asked f.routes ++ rest else rest

abbrev pub IsDefined : Dict EntryPoint → Str → Type 0
IsDefined eps e = (ep : EntryPoint) × (lookup e eps ≡ some ep)

abbrev pub AreDefined : Dict EntryPoint → Dict Frontend → Type 0
AreDefined eps fs = All (λ (f : Str × Frontend). All (IsDefined eps) f.1.entry_points) fs

and_then_assoc :
    (p q r : List (List Str) × Bool) → and_then p (and_then q r) ≡ and_then (and_then p q) r
unfolding and_then
and_then_assoc (a, true) (b, true) (c, z) = ap (λ l. (l, z)) (sym (append_assoc a b c))
and_then_assoc (a, true) (b, false) r = refl
and_then_assoc (a, false) q r = refl

module _ (eps : Dict EntryPoint) where
  tls_enabled_step :
      (e : Str) (es : List Str) (ep : EntryPoint)
      → lookup e eps ≡ some ep
      → tls_enabled eps (e ∷ es) ≡ (if is_some ep.tls then some true else tls_enabled eps es)
  unfolding tls_enabled
  tls_enabled_step e es ep q = rw (q, tls_enabled) refl

  has_tls_step :
      (e : Str) (ep : EntryPoint) → lookup e eps ≡ some ep → has_tls eps e ≡ is_some ep.tls
  has_tls_step e ep q = rw (q, has_tls) refl

  tls_enabled_lem :
      (es : List Str) → All (IsDefined eps) es → tls_enabled eps es ≡ some (any (has_tls eps) es)
  unfolding tls_enabled
  tls_enabled_lem [] p = refl
  tls_enabled_lem (e ∷ es) ((ep, q), p) =
      tls_enabled_step e es ep q ∙ elim (Bool-cases (is_some ep.tls)) [
        | inl y ↦ rw (y, has_tls_step e ep q ∙ y) refl
        | inr n ↦ rw (n, has_tls_step e ep q ∙ n) (tls_enabled_lem es p)
      ]

  frontend_requests_lem :
      (f : Frontend)
      → All (IsDefined eps) f.entry_points
      → frontend_requests eps f
        ≡ (if any (has_tls eps) f.entry_points then asked f.routes else [], true)
  unfolding frontend_requests
  frontend_requests_lem f p =
      rw (tls_enabled_lem f.entry_points p, frontend_requests, route_requests_lem f.routes) refl

  frontends_requests_lem :
      (fs : Dict Frontend) → AreDefined eps fs → frontends_requests eps fs ≡ (wanted eps fs, true)
  unfolding frontends_requests and_then
  frontends_requests_lem [] p = refl
  frontends_requests_lem ((_, f) ∷ fs) (p, ps) =
      rw (frontend_requests_lem f p, frontends_requests_lem fs ps)
        (elim (Bool-cases (any (has_tls eps) f.entry_points)) [
          | inl y ↦ rw y refl
          | inr n ↦ rw n refl
        ])

  -- The loop over the frontends of a configuration and then those of the others.
  frontends_requests-append :
      (fs gs : Dict Frontend)
      → frontends_requests eps (fs ++ gs)
        ≡ and_then (frontends_requests eps fs) (frontends_requests eps gs)
  unfolding frontends_requests and_then
  frontends_requests-append [] gs = refl
  frontends_requests-append ((_, f) ∷ fs) gs = rw (frontends_requests-append fs gs) (
      and_then_assoc (frontend_requests eps f) (frontends_requests eps fs)
        (frontends_requests eps gs))

  configurations_requests_lem :
      (cs : Dict Configuration)
      → configurations_requests eps cs ≡ frontends_requests eps (frontends_of cs)
  unfolding configurations_requests frontends_requests
  configurations_requests_lem [] = refl
  configurations_requests_lem ((_, c) ∷ cs) =
      rw (configurations_requests_lem cs)
        (sym (frontends_requests-append (get_or c.frontends []) (frontends_of cs)))

  -- Where the entry points that the frontends name are all defined, postLoadConfig runs to its end. If
  -- ACME is set with OnHostRule, and there is no leadership or this is the leader, it asks for the
  -- domains of each rule that can be read, of each frontend that has an entry point with TLS, in
  -- order, and for no others; in every other case it asks for nothing.
  pub post_load_config_lem :
      (on_host_rule is_leader : Option Bool) (cs : Dict Configuration)
      → AreDefined eps (frontends_of cs)
      → post_load_config on_host_rule is_leader eps cs ≡ (
        if get_or on_host_rule false && get_or is_leader true
            then wanted eps (frontends_of cs)
            else [],
        true,
      )
  unfolding post_load_config
  post_load_config_lem none is_leader cs p = refl
  post_load_config_lem (some false) none cs p = refl
  post_load_config_lem (some false) (some false) cs p = refl
  post_load_config_lem (some false) (some true) cs p = refl
  post_load_config_lem (some true) (some false) cs p = refl
  post_load_config_lem (some true) (some true) cs p =
      configurations_requests_lem cs ∙ frontends_requests_lem (frontends_of cs) p
  post_load_config_lem (some true) none cs p =
      configurations_requests_lem cs ∙ frontends_requests_lem (frontends_of cs) p

  -- An entry point that is defined and has no TLS.
  abbrev pub IsPlain : Str → Type 0
  IsPlain e = (ep : EntryPoint) × (lookup e eps ≡ some ep) × (ep.tls ≡ none)

  tls_enabled_undefined :
      (before after : List Str) (e : Str)
      → All IsPlain before
      → lookup e eps ≡ none
      → tls_enabled eps (before ++ e ∷ after) ≡ none
  unfolding tls_enabled
  tls_enabled_undefined [] after e p q = rw (q, tls_enabled) refl
  tls_enabled_undefined (d ∷ before) after e ((ep, l, t), p) q =
      tls_enabled_step d (before ++ e ∷ after) ep l
      ∙ rw (ap is_some t) (tls_enabled_undefined before after e p q)

  panics_at :
      (f : Frontend) (gs : Dict Frontend) (name : Str) (before after : List Str) (e : Str)
      → f.entry_points ≡ before ++ e ∷ after
      → All IsPlain before
      → lookup e eps ≡ none
      → frontends_requests eps ((name, f) ∷ gs) ≡ ([], false)
  unfolding frontends_requests frontend_requests and_then
  panics_at f gs name before after e q p l =
      rw (ap (tls_enabled eps) q ∙ tls_enabled_undefined before after e p l, frontend_requests) refl

  -- A leader that is told to ask for the hosts of rules panics at the first frontend that names an
  -- undefined entry point behind none but entry points without TLS; by then it has asked for what the
  -- frontends before it want, whose entry points are defined.
  pub post_load_config_panics :
      (cs : Dict Configuration) (fs gs : Dict Frontend) (name : Str) (f : Frontend)
      (before after : List Str) (e : Str)
      → frontends_of cs ≡ fs ++ (name, f) ∷ gs
      → AreDefined eps fs
      → f.entry_points ≡ before ++ e ∷ after
      → All IsPlain before
      → lookup e eps ≡ none
      → post_load_config (some true) (some true) eps cs ≡ (wanted eps fs, false)
  unfolding post_load_config and_then
  post_load_config_panics cs fs gs name f before after e split d q p l =
      configurations_requests_lem cs
      ∙ (ap (frontends_requests eps) split
          ∙ (frontends_requests-append fs ((name, f) ∷ gs)
              ∙ rw (frontends_requests_lem fs d, panics_at f gs name before after e q p l)
                  (ap (λ a. (a, false)) (append-nil (wanted eps fs)))))
