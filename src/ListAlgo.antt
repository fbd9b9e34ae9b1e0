-- ===== src/ListAlgo.antt =====
-- The algorithms of 20161211_pintos_prj3/src/lib/kernel/list.c, on the sequence of elements that a
-- list holds. `less` is the comparison function that the caller passes (`less`, with its `aux`).
pub mod Sorted
pub mod Passes
pub mod Perm
pub mod Extremes
pub mod Sort
use project_pintos.Base.{
  ℕ, zero, suc, ◌+◌, ltb, Bool, true, false, not, ◌&&◌, ◌||◌, if◌then◌else◌, List, [], ◌∷◌, ◌++◌,
  Option, none, some, length,
}

module _ {ℓ} {A : Type ℓ} (less : A → A → Bool) where
  -- `list_insert_ordered`: before the first element that `elem` is less than.
  unfoldable pub insert_ordered : A → List A → List A
  insert_ordered elem [] = elem ∷ []
  insert_ordered elem (e ∷ es) = if less elem e then elem ∷ (e ∷ es) else e ∷ insert_ordered elem es

  -- `is_sorted`: no element is less than the one before it.
  unfoldable pub is_sorted : List A → Bool
  is_sorted [] = true
  is_sorted (a ∷ []) = true
  is_sorted (a ∷ (b ∷ r)) = not (less b a) && is_sorted (b ∷ r)

  -- `find_end_of_run` from the element `prev` on: the rest of the run, and what follows it.
  unfoldable pub run_after : A → List A → List A × List A
  run_after prev [] = ([], [])
  run_after prev (a ∷ r) =
      let next = run_after a r in if less a prev then ([], a ∷ r) else (a ∷ next.0, next.1)

  unfoldable pub find_end_of_run : A → List A → List A × List A
  find_end_of_run a r = let (run, rest) = run_after a r in (a ∷ run, rest)

  -- `inplace_merge` of the runs A0...A1B0 and A1B0...B1.
  unfoldable pub inplace_merge : List A → List A → List A
  inplace_merge [] bs = bs
  inplace_merge (a ∷ xs) [] = a ∷ xs
  inplace_merge (a ∷ xs) (b ∷ bs) = elim (less b a) [
    | true ↦ b ∷ inplace_merge (a ∷ xs) bs
    | false ↦ a ∷ inplace_merge xs (b ∷ bs)
  ]

  -- One turn of the outer loop of `list_sort`: `output_run_cnt` and the list that it leaves.
  -- Each inner iteration takes at least one element, so the length is enough fuel.
  unfoldable pub merge_pass : ℕ → List A → ℕ × List A
  merge_pass zero xs = (0, xs)
  merge_pass (suc fuel) [] = (0, [])
  merge_pass (suc fuel) (a ∷ r) =
      let (run, rest) = find_end_of_run a r in
      elim rest [
        | [] ↦ (1, run)
        | b ∷ s ↦
            let (run', rest') = find_end_of_run b s in
            let (cnt, out) = merge_pass fuel rest' in (suc cnt, inplace_merge run run' ++ out)
      ]

  -- The outer loop: passes until one leaves a single run.
  unfoldable pub sort_passes : ℕ → List A → List A
  sort_passes zero xs = xs
  sort_passes (suc fuel) xs =
      let (cnt, out) = merge_pass (length xs) xs in
      let again = sort_passes fuel out in if ltb 1 cnt then again else out

  -- `list_sort`. A pass at least halves the number of runs, so the fuel does not run out.
  unfoldable pub list_sort : List A → List A
  list_sort xs = sort_passes (suc (length xs)) xs

  -- `list_unique`: the elements kept, and those appended to `duplicates`.
  unfoldable pub unique_from : A → List A → List A × List A
  unique_from elem [] = (elem ∷ [], [])
  unique_from elem (next ∷ r) =
      let (kept, dups) =
        unique_from (if not (less elem next) && not (less next elem) then elem else next) r in
      if not (less elem next) && not (less next elem)
      then (kept, next ∷ dups)
      else (elem ∷ kept, dups)

  unfoldable pub list_unique : List A → List A × List A
  list_unique [] = ([], [])
  list_unique (elem ∷ r) = unique_from elem r

  unfoldable pub max_from : A → List A → A
  max_from max [] = max
  max_from max (e ∷ r) = max_from (if less max e then e else max) r

  -- `list_max`; `none` stands for the tail, which the code returns for an empty list.
  unfoldable pub list_max : List A → Option A
  list_max [] = none
  list_max (e ∷ r) = some (max_from e r)

  unfoldable pub min_from : A → List A → A
  min_from min [] = min
  min_from min (e ∷ r) = min_from (if less e min then e else min) r

  unfoldable pub list_min : List A → Option A
  list_min [] = none
  list_min (e ∷ r) = some (min_from e r)
