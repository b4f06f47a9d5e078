-- ===== src/Provider/Names.antt =====
-- The names that providers give to frontends and backends.
use traefik.Prelude.{ℕ, Bool, true, List, [], ◌∷◌, Str, codes, ◌≡◌, ap, All}
use traefik.Text.{fields_func, join}
use traefik.Text.Split.{Lacks, NonEmpty, fields_func-join_by, fields_func-Lacks}
use traefik.Provider.{fargs, normalize}

split_All :
    (p : ℕ → Bool) (ws : List Str)
    → All (λ w. Lacks p w × NonEmpty w) ws
    → All (Lacks p) ws × All NonEmpty ws
split_All p [] h = (tt, tt)
split_All p (w ∷ ws) ((l, n), h) = let (ls, ns) = split_All p ws h in ((l, ls), (n, ns))

module _ (is_letter is_number : ℕ → Bool) where
  -- Normalising a name again changes nothing, where the dash is neither a letter nor a number.
  pub normalize_idem :
      (name : Str)
      → fargs is_letter is_number b'-' ≡ true
      → normalize is_letter is_number (normalize is_letter is_number name)
        ≡ normalize is_letter is_number name
  unfolding normalize
  normalize_idem name h =
      let p = fargs is_letter is_number in
      let (lacks, nonempty) = split_All p (fields_func p name) (fields_func-Lacks p name) in
      ap (join (codes "-")) (fields_func-join_by p b'-' (fields_func p name) h lacks nonempty)
