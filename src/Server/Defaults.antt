-- ===== src/Server/Defaults.antt =====
-- server/server.go: the values that a received configuration is given by default.
use traefik.Prelude.{
  false, Option, none, some, List, [], ◌∷◌, Str, codes, Dict, is_empty, if◌then◌else◌, ◌≡◌, refl,
  ap, arith, Option-cases, inl, inr, str_eq,
}
use mathlib.Core.Option
use traefik.Text.{equal_fold, to_lower}
use traefik.Types.{Configuration, Backend, Frontend, LoadBalancer}
use traefik.Types.Balancing.{LoadBalancerMethod, new_load_balancer_method, wrr, MethodError}

-- Entry points, for a frontend that names none.
unfoldable pub default_frontend : List Str → Frontend → Frontend
default_frontend default_entry_points frontend =
    if is_empty frontend.entry_points
    then record frontend { entry_points = default_entry_points }
    else frontend

abbrev pub wrr_balancer : LoadBalancer
wrr_balancer = record { method = codes "wrr"; sticky = false }

-- The load balancer, where none or an unknown method is named; stickiness is lost with it.
unfoldable pub default_backend : Backend → Backend
default_backend backend = elim (new_load_balancer_method backend.load_balancer).1 [
  | none ↦ backend
  | some _ ↦ record backend { load_balancer = some wrr_balancer }
]

abbrev map_values {ℓ κ} : {A : Type ℓ} {B : Type κ} → (A → B) → Dict A → Dict B
map_values f [] = []
map_values f ((k, v) ∷ m) = (k, f v) ∷ map_values f m

with_frontends : List Str → Configuration → Option (Dict Frontend) → Configuration
with_frontends dep c none = c
with_frontends dep c (some frontends) = record c {
  frontends = some (map_values (default_frontend dep) frontends);
  backends = Option.map (map_values default_backend) c.backends;
}

-- defaultConfigurationValues: nothing is done to a configuration with no frontends.
unfoldable pub default_configuration_values : List Str → Option Configuration → Option Configuration
unfolding with_frontends
default_configuration_values default_entry_points none = none
default_configuration_values default_entry_points (some c) =
    some (with_frontends default_entry_points c c.frontends)

wrr_of_error :
    (lb : Option LoadBalancer) (e : MethodError)
    → (new_load_balancer_method lb).1 ≡ some e
    → (new_load_balancer_method lb).0 ≡ wrr
unfolding new_load_balancer_method
wrr_of_error none e h = refl
wrr_of_error (some lb) e h = ground arith

-- A backend with default values has a method that is read without an error: the method that was read
-- before, which is weighted round robin where that was an error.
pub default_backend-method :
    (b : Backend)
    → new_load_balancer_method (default_backend b).load_balancer
      ≡ ((new_load_balancer_method b.load_balancer).0, none)
unfolding default_backend
default_backend-method b = elim (Option-cases (new_load_balancer_method b.load_balancer).1) [
  | inl n ↦ rw (n, default_backend) (ground (arith, n))
  | inr (e, y) ↦
      rw (y, default_backend, wrr_of_error b.load_balancer e y)
        (unfold new_load_balancer_method equal_fold str_eq to_lower in refl)
]

default_backend_fine :
    (b : Backend) → (new_load_balancer_method b.load_balancer).1 ≡ none → default_backend b ≡ b
unfolding default_backend
default_backend_fine b n = rw (n, default_backend)

default_backend_idem : (b : Backend) → default_backend (default_backend b) ≡ default_backend b
default_backend_idem b =
    default_backend_fine (default_backend b)
      (ap (λ (r : LoadBalancerMethod × Option MethodError). r.1) (default_backend-method b))

default_frontend_idem :
    (dep : List Str) (f : Frontend)
    → default_frontend dep (default_frontend dep f) ≡ default_frontend dep f
unfolding default_frontend
default_frontend_idem dep f = ground arith

map_values-same {ℓ} :
    {A : Type ℓ} (f : A → A) (m : Dict A)
    → ((a : A) → f (f a) ≡ f a)
    → map_values f (map_values f m) ≡ map_values f m
map_values-same f [] h = refl
map_values-same f ((k, v) ∷ m) h = λ i. (k, h v i) ∷ map_values-same f m h i

backends-same :
    (o : Option (Dict Backend))
    → Option.map (map_values default_backend) (Option.map (map_values default_backend) o)
      ≡ Option.map (map_values default_backend) o
backends-same none = refl
backends-same (some bs) = ap some (map_values-same default_backend bs default_backend_idem)

with_frontends_idem :
    (dep : List Str) (c : Configuration) (o : Option (Dict Frontend))
    → c.frontends ≡ o
    → let d = with_frontends dep c o in with_frontends dep d d.frontends ≡ d
unfolding with_frontends
with_frontends_idem dep c none e = ap (with_frontends dep c) e
with_frontends_idem dep c (some fs) e = λ i. record c {
  backends = backends-same c.backends i;
  frontends = some (map_values-same (default_frontend dep) fs (default_frontend_idem dep) i);
}

-- Giving default values a second time changes nothing.
pub default_configuration_values_idem :
    (dep : List Str) (c : Option Configuration)
    → default_configuration_values dep (default_configuration_values dep c)
      ≡ default_configuration_values dep c
unfolding default_configuration_values
default_configuration_values_idem dep none = refl
default_configuration_values_idem dep (some c) =
    ap some (with_frontends_idem dep c c.frontends refl)
