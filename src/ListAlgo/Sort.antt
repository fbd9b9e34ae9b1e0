-- ===== src/ListAlgo/Sort.antt =====
-- `list_sort` of lib/kernel/list.c as a whole.
use mathlib.Core.List.{Perm}
use project_pintos.Base.{◌≡◌, Bool, true, List, ◌∷◌}
use project_pintos.ListAlgo.{is_sorted, list_sort, insert_ordered}
use project_pintos.ListAlgo.Sorted.{IsAsym, insert_ordered-sorted}
use project_pintos.ListAlgo.Passes.{list_sort-sorted}
use project_pintos.ListAlgo.Perm.{list_sort-perm, insert_ordered-perm}

module _ {ℓ} {A : Type ℓ} (less : A → A → Bool) (asym : IsAsym less) where
  -- Under an asymmetric comparison `list_sort` ends, in a sorted list of the same elements.
  pub list_sort_sorts :
      (xs : List A) → (is_sorted less (list_sort less xs) ≡ true) × Perm (list_sort less xs) xs
  list_sort_sorts xs = (list_sort-sorted less asym xs, list_sort-perm less xs)

  -- Under an asymmetric comparison `list_insert_ordered` into a sorted list leaves a sorted list, with
  -- the new element added.
  pub insert_ordered_inserts :
      (e : A) (es : List A)
      → is_sorted less es ≡ true
      → (is_sorted less (insert_ordered less e es) ≡ true)
        × Perm (insert_ordered less e es) (e ∷ es)
  insert_ordered_inserts e es h =
      (insert_ordered-sorted less asym e es h, insert_ordered-perm less e es)
