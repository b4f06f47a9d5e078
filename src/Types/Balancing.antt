-- ===== src/Types/Balancing.antt =====
-- types/types.go: the load balancer methods, looked up by name.
use traefik.Prelude.{
  true, false, ◌≡◌, ◌⊎◌, Option, none, some, List, [], ◌∷◌, Str, codes, arith, if◌then◌else◌,
}
use traefik.Text.{equal_fold}
use traefik.Types.{LoadBalancer}

pub data LoadBalancerMethod : Type 0 where
  wrr drr : LoadBalancerMethod

pub data MethodError : Type 0 where
  invalid_load_balancer_method : MethodError

-- The names, in the order of the methods.
abbrev pub load_balancer_method_names : List (Str × LoadBalancerMethod)
load_balancer_method_names = (codes "Wrr", wrr) ∷ (codes "Drr", drr) ∷ []

-- The loop over the names.
find_method : List (Str × LoadBalancerMethod) → Str → Option LoadBalancerMethod
find_method [] method = none
find_method ((name, m) ∷ names) method =
    if equal_fold name method then some m else find_method names method

-- The method is returned beside the error, as the default.
unfoldable pub new_load_balancer_method :
    Option LoadBalancer → LoadBalancerMethod × Option MethodError
unfolding find_method
new_load_balancer_method none = (wrr, some invalid_load_balancer_method)
new_load_balancer_method (some lb) = elim (find_method load_balancer_method_names lb.method) [
  | some m ↦ (m, none)
  | none ↦ (wrr, some invalid_load_balancer_method)
]

-- The lookup succeeds exactly for a load balancer whose method is one of the two names, in any case
-- of letters; it then returns that method, and otherwise weighted round robin beside the error.
pub new_load_balancer_method_cases :
    (lb : LoadBalancer)
    → ((equal_fold (codes "Wrr") lb.method ≡ true)
        × (new_load_balancer_method (some lb) ≡ (wrr, none)))
      ⊎ ((equal_fold (codes "Wrr") lb.method ≡ false)
          × (equal_fold (codes "Drr") lb.method ≡ true)
          × (new_load_balancer_method (some lb) ≡ (drr, none)))
      ⊎ ((equal_fold (codes "Wrr") lb.method ≡ false)
          × (equal_fold (codes "Drr") lb.method ≡ false)
          × (new_load_balancer_method (some lb) ≡ (wrr, some invalid_load_balancer_method)))
unfolding new_load_balancer_method
new_load_balancer_method_cases lb = ground arith
