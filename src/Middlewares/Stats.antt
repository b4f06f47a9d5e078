-- ===== src/Middlewares/Stats.antt =====
-- middlewares/stats.go: the most recent requests that were answered by an error.
use mathlib.Core.List.{reverse, reverse_aux}
use traefik.Prelude.{
  ℕ, zero, suc, ◌≤◌, true, false, List, [], ◌∷◌, Str, ltb, leb, if◌then◌else◌, take, length, ◌≡◌,
  refl, sym, ap, ◌∙◌, arith, Bool-cases, inl, inr,
}
use traefik.Middlewares.{Request}

pub record StatsError : Type 0 where
  pub status_code : ℕ
  pub status : Str
  pub method : Str
  pub host : Str
  pub path : Str
  pub time : ℕ

pub record StatsRecorder : Type 0 where
  pub num_recent_errors : ℕ
  pub recent_errors : List StatsError

unfoldable pub new_stats_recorder : ℕ → StatsRecorder
new_stats_recorder n = record { num_recent_errors = n; recent_errors = [] }

-- A request, with the codes that the next handler wrote and the time after it returned.
pub record Served : Type 0 where
  pub request : Request
  pub codes : List ℕ
  pub time : ℕ

-- responseRecorder: the last code that was written, and 200 where none was.
unfoldable pub status_code : ℕ → List ℕ → ℕ
status_code code [] = code
status_code code (c ∷ cs) = status_code c cs

-- `status_text` is http.StatusText.
module _ (status_text : ℕ → Str) where
  unfoldable pub stats_error : Served → StatsError
  stats_error s =
      let code = status_code 200 s.codes in
      record {
        status_code = code;
        status = status_text code;
        method = s.request.method;
        host = s.request.host;
        path = s.request.path;
        time = s.time;
      }

  -- StatsRecorder.ServeHTTP: the newest error goes in front, and the oldest beyond the limit go.
  unfoldable pub serve : Served → StatsRecorder → StatsRecorder
  serve s r =
      let errors = stats_error s ∷ r.recent_errors in
      if leb 400 (status_code 200 s.codes)
      then record r {
        recent_errors =
            if ltb r.num_recent_errors (length errors)
            then take r.num_recent_errors errors
            else errors;
      }
      else r

  unfoldable pub serve_all : List Served → StatsRecorder → StatsRecorder
  serve_all [] r = r
  serve_all (s ∷ ss) r = serve_all ss (serve s r)

-- StatsRecorder.Data
unfoldable pub data_of : StatsRecorder → List StatsError
data_of r = r.recent_errors

-- Lists that are cut.
take-nil : (n : ℕ) → ◌≡◌ {A = List StatsError} (take n []) []
take-nil zero = refl
take-nil (suc n) = refl

take-all : (n : ℕ) (xs : List StatsError) → length xs ≤ n → take n xs ≡ xs
take-all n [] h = take-nil n
take-all zero (x ∷ xs) h = absurd (omega arith)
take-all (suc n) (x ∷ xs) h = ap (λ r. x ∷ r) (take-all n xs (omega arith))

take-take : (m n : ℕ) (xs : List StatsError) → m ≤ n → take m (take n xs) ≡ take m xs
take-take zero n xs h = refl
take-take (suc m) zero xs h = absurd (omega arith)
take-take (suc m) (suc n) [] h = refl
take-take (suc m) (suc n) (x ∷ xs) h = ap (λ r. x ∷ r) (take-take m n xs (omega arith))

-- Cutting before a further entry is put in front changes nothing of the cut list.
take-cons-take :
    (n : ℕ) (x : StatsError) (xs : List StatsError) → take n (x ∷ take n xs) ≡ take n (x ∷ xs)
take-cons-take zero x xs = refl
take-cons-take (suc n) x xs = ap (λ r. x ∷ r) (take-take n (suc n) xs (omega arith))

-- The list is cut where it is too long.
take_if : (n : ℕ) (xs : List StatsError) → (if ltb n (length xs) then take n xs else xs) ≡ take n xs
take_if n xs = elim (Bool-cases (ltb n (length xs))) [
  | inl y ↦ rw y
  | inr m ↦ rw m (sym (take-all n xs (ground arith)))
]

module _ (status_text : ℕ → Str) where
  -- The errors among requests, in the order in which they were served.
  abbrev pub errors_of : List Served → List StatsError
  errors_of [] = []
  errors_of (s ∷ ss) =
      let rest = errors_of ss in
      if leb 400 (status_code 200 s.codes) then stats_error status_text s ∷ rest else rest

  serve_num :
      (s : Served) (r : StatsRecorder)
      → (serve status_text s r).num_recent_errors ≡ r.num_recent_errors
  unfolding serve
  serve_num s r = elim (Bool-cases (leb 400 (status_code 200 s.codes))) [
    | inl y ↦ rw y
    | inr n ↦ rw n
  ]

  serve_error :
      (s : Served) (n : ℕ) (all : List StatsError)
      → leb 400 (status_code 200 s.codes) ≡ true
      → serve status_text s (record { num_recent_errors = n; recent_errors = take n all })
        ≡ record { num_recent_errors = n; recent_errors = take n (stats_error status_text s ∷ all) }
  unfolding serve
  serve_error s n all y = rw y (
      ap (λ l. record { num_recent_errors = n; recent_errors = l })
        (take_if n (stats_error status_text s ∷ take n all)
          ∙ take-cons-take n (stats_error status_text s) all))

  serve_fine :
      (s : Served) (r : StatsRecorder)
      → leb 400 (status_code 200 s.codes) ≡ false
      → serve status_text s r ≡ r
  unfolding serve
  serve_fine s r n = rw n

  serve_all_from :
      (ss : List Served) (n : ℕ) (all : List StatsError)
      → serve_all status_text ss (record { num_recent_errors = n; recent_errors = take n all })
        ≡ record { num_recent_errors = n; recent_errors = take n (reverse_aux (errors_of ss) all) }
  unfolding serve_all
  serve_all_from [] n all = refl
  serve_all_from (s ∷ ss) n all = elim (Bool-cases (leb 400 (status_code 200 s.codes))) [
    | inl y ↦
        rw (serve_error s n all y, serve_all, y)
          (serve_all_from ss n (stats_error status_text s ∷ all))
    | inr m ↦ rw (serve_fine s _ m, serve_all, m) (serve_all_from ss n all)
  ]

  -- After any requests, a new recorder holds the newest of the errors among them, the last first, and
  -- as many as its limit allows.
  pub serve_all-new :
      (ss : List Served) (n : ℕ)
      → data_of (serve_all status_text ss (new_stats_recorder n)) ≡ take n (reverse (errors_of ss))
  unfolding data_of new_stats_recorder
  serve_all-new ss n =
      let empty : new_stats_recorder n
          ≡ record { num_recent_errors = n; recent_errors = take n [] } =
        ap (λ l. record { num_recent_errors = n; recent_errors = l }) (sym (take-nil n)) in
      ap (λ r. (serve_all status_text ss r).recent_errors) empty
      ∙ ap (λ (r : StatsRecorder). r.recent_errors) (serve_all_from ss n [])
