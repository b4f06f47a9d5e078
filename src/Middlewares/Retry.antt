-- ===== src/Middlewares/Retry.antt =====
-- middlewares/retry.go: a request is sent again while the answer is a network error.
use traefik.Prelude.{
  ℕ, zero, suc, ◌+◌, ◌-◌, ◌≤◌, ◌<◌, ◌==◌, ==_iff, Bool, true, false, ◌||◌, not, Option, none, some,
  leb, if◌then◌else◌, ◌≡◌, arith, Bool-cases, inl, inr, ◌⊎◌, List, Str,
}
use Prim.Native.Nat.{max}

-- What the recorder holds when the next handler returns.
pub record Response : Type 0 where
  pub code : ℕ
  pub header : List (Str × List Str)
  pub body : Str

-- Bad gateway or gateway timeout.
unfoldable pub is_network_error : ℕ → Bool
is_network_error status = status == 502 || status == 504

-- The loop of ServeHTTP. `next n` is the answer of the next handler to the n-th attempt; the result
-- is the number of attempts that were made and the answer that is copied to the client.
unfoldable pub retry_loop : (ℕ → Response) → ℕ → ℕ → ℕ → Option (ℕ × Response)
retry_loop next limit zero attempts = none
retry_loop next limit (suc fuel) attempts =
    let recorder = next attempts in
    let again = retry_loop next limit fuel (attempts + 1) in
    if not (is_network_error recorder.code) || leb limit attempts
    then some (attempts, recorder)
    else again

-- Retry.ServeHTTP, for a limit that is not negative; one round for each attempt, and one at least.
unfoldable pub serve : ℕ → (ℕ → Response) → Option (ℕ × Response)
serve limit next = retry_loop next limit (max limit 1) 1

-- The attempts from `a` to before `n` met a network error.
abbrev pub FailedBetween : (ℕ → Response) → ℕ → ℕ → Type 0
FailedBetween next a n = (k : ℕ) → a ≤ k → k < n → is_network_error (next k).code ≡ true

FailedBetween-first :
    (next : ℕ → Response) (a n : ℕ)
    → is_network_error (next a).code ≡ true
    → FailedBetween next (a + 1) n
    → FailedBetween next a n
FailedBetween-first next a n y h k p q = elim (Bool-cases (k == a)) [
  | inl e ↦ rw ((==_iff k a).0 e) y
  | inr m ↦ h k (ground arith) q
]

retry_loop_lem :
    (next : ℕ → Response) (limit fuel a : ℕ)
    → 0 < fuel
    → limit ≤ a + fuel - 1
    → (n : ℕ) × (retry_loop next limit fuel a ≡ some (n, next n))
      × (a ≤ n)
      × (n ≤ max limit a)
      × FailedBetween next a n
      × ((is_network_error (next n).code ≡ false) ⊎ (limit ≤ n))
unfolding retry_loop
retry_loop_lem next limit zero a h k = absurd (omega arith)
retry_loop_lem next limit (suc fuel) a h k =
    elim (Bool-cases (not (is_network_error (next a).code) || leb limit a)) [
      | inl y ↦ (a, rw y, omega arith, omega arith, λ i p q. absurd (omega arith), ground arith)
      | inr n ↦
          let (m, e, le, most, failed, last) =
            retry_loop_lem next limit fuel (a + 1) (ground arith) (ground arith) in
          (
            m,
            rw n e,
            omega arith,
            ground arith,
            FailedBetween-first next a m (ground arith) failed,
            last,
          )
    ]

-- A request is answered, by the answer to an attempt between the first and the limit. All attempts
-- before that one met a network error, and it met none itself or is the last that the limit allows.
pub serve_lem :
    (limit : ℕ) (next : ℕ → Response)
    → (n : ℕ) × (serve limit next ≡ some (n, next n))
      × (1 ≤ n)
      × (n ≤ max limit 1)
      × FailedBetween next 1 n
      × ((is_network_error (next n).code ≡ false) ⊎ (limit ≤ n))
unfolding serve
serve_lem limit next = retry_loop_lem next limit (max limit 1) 1 (omega arith) (omega arith)
