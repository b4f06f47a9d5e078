-- ===== src/Provider/Ecs/Chunks.antt =====
-- provider/ecs/ecs.go: the chunks are the tasks, in order, and none is too long.
use traefik.Prelude.{
  ℕ, zero, suc, ◌≤◌, List, [], ◌∷◌, ◌++◌, length, take, drop, concat, take-drop, length-take_le,
  length-drop_le, Str, All, ◌≡◌, refl, ◌∙◌, ap, arith,
}
use traefik.Provider.Ecs.{chunks_of, chunked_task_arns}

chunks_of_lem :
    (n : ℕ) (tasks : List Str)
    → length tasks ≤ n
    → (concat (chunks_of n tasks) ≡ tasks)
      × All (λ c. (1 ≤ length c) × (length c ≤ 100)) (chunks_of n tasks)
unfolding chunks_of
chunks_of_lem zero [] h = (refl, tt)
chunks_of_lem zero (t ∷ tasks) h = ground arith
chunks_of_lem (suc n) [] h = (refl, tt)
chunks_of_lem (suc n) (t ∷ tasks) h =
    let (whole, short) =
      chunks_of_lem n (drop 100 (t ∷ tasks)) (omega (arith, length-drop_le 99 tasks)) in
    (
      ap (λ l. take 100 (t ∷ tasks) ++ l) whole ∙ take-drop 100 (t ∷ tasks),
      ((omega arith, length-take_le 100 (t ∷ tasks)), short),
    )

-- The chunks, one after the other, are the tasks; none is empty or longer than a hundred.
pub chunked_task_arns_lem :
    (tasks : List Str)
    → (concat (chunked_task_arns tasks) ≡ tasks)
      × All (λ c. (1 ≤ length c) × (length c ≤ 100)) (chunked_task_arns tasks)
unfolding chunked_task_arns
chunked_task_arns_lem tasks = chunks_of_lem (length tasks) tasks (omega arith)
