-- ===== src/Tests.antt =====
-- Concrete inputs at which the theorems apply.
pub mod Rules
pub mod Middlewares
pub mod Types
pub mod HealthCheck
pub mod Pool
pub mod Catalogs
pub mod Docker
pub mod Kubernetes
pub mod Acme
pub mod Static
pub mod Dynamic
pub mod Loading
use traefik.Prelude.{ℕ, Bool, true, false, ◌||◌, List, [], ◌∷◌, Str, any, ◌≡◌, refl, arith}
use traefik.Text.Split.{Lacks}

-- A search that fails, character by character.
pub by_search : (p : ℕ → Bool) (s : Str) → any p s ≡ false → Lacks p s
by_search p [] h = tt
by_search p (c ∷ s) h = (ground arith, by_search p s (ground arith))
