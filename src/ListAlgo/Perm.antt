-- ===== src/ListAlgo/Perm.antt =====
-- Contents: the algorithms of lib/kernel/list.c keep the elements of the list.
use mathlib.Core.List.{Perm, perm_middle, append_assoc, append-nil}
use mathlib.Core.List.Perm
use project_pintos.Base.{
  ℕ, zero, suc, ◌≤◌, ltb, ◌≡◌, refl, inl, inr, Bool, List, [], ◌∷◌, ◌++◌, arith, length, Bool-cases,
}
use project_pintos.ListAlgo.{
  insert_ordered, find_end_of_run, inplace_merge, merge_pass, sort_passes, list_sort,
}
use project_pintos.ListAlgo.Passes.{
  pass_last, pass_two, IsRun, IsRun-find, IsRun-of_find, length-rest,
}

module _ {ℓ} {A : Type ℓ} (less : A → A → Bool) where
  pub insert_ordered-perm : (e : A) (es : List A) → Perm (insert_ordered less e es) (e ∷ es)
  unfolding insert_ordered
  insert_ordered-perm e [] = Perm.refl _
  insert_ordered-perm e (x ∷ es) = elim (Bool-cases (less e x)) [
    | inl h ↦ rw h (Perm.refl _)
    | inr h ↦ rw h (Perm.trans (Perm.cons x (insert_ordered-perm e es)) (Perm.swap _ _ _))
  ]

  pub inplace_merge-perm : (xs ys : List A) → Perm (inplace_merge less xs ys) (xs ++ ys)
  unfolding inplace_merge
  inplace_merge-perm [] ys = Perm.refl _
  inplace_merge-perm (a ∷ xs) [] = rw append-nil (Perm.refl _)
  inplace_merge-perm (a ∷ xs) (b ∷ ys) = elim (Bool-cases (less b a)) [
    | inl h ↦
        rw (h, inplace_merge)
          (Perm.trans (Perm.cons b (inplace_merge-perm (a ∷ xs) ys))
            (Perm.symm (perm_middle (a ∷ xs) ys)))
    | inr h ↦ rw (h, inplace_merge) (Perm.cons a (inplace_merge-perm xs (b ∷ ys)))
  ]

  second-perm :
      (fuel : ℕ) (a : A) (r run : List A) (b : A) (s : List A) (p : List A × List A)
      → find_end_of_run less a r ≡ (run, b ∷ s)
      → find_end_of_run less b s ≡ p
      → Perm (merge_pass less fuel p.1).1 p.1
      → Perm (merge_pass less (suc fuel) (a ∷ r)).1 (a ∷ r)
  second-perm fuel a r run b s (run', rest) e e' h =
      rw (pass_two less fuel a r run b s run' rest e e', ← f.whole, ← g.whole, ← append_assoc)
        (Perm.append (inplace_merge-perm run run') h)
    where
      f : IsRun less a r run (b ∷ s)
      f = IsRun-of_find less a r run (b ∷ s) e

      g : IsRun less b s run' rest
      g = IsRun-of_find less b s run' rest e'

  first-perm :
      (fuel : ℕ) (a : A) (r : List A)
      → ((xs : List A) → length xs ≤ fuel → Perm (merge_pass less fuel xs).1 xs)
      → length r ≤ fuel
      → (p : List A × List A) → find_end_of_run less a r ≡ p
      → Perm (merge_pass less (suc fuel) (a ∷ r)).1 (a ∷ r)
  first-perm fuel a r ih h (run, []) e =
      rw (pass_last less fuel a r run e, ← (IsRun-of_find less a r run [] e).whole, append-nil)
        (Perm.refl run)
  first-perm fuel a r ih h (run, b ∷ s) e =
      second-perm fuel a r run b s (find_end_of_run less b s) e refl (
        ih _ (
          omega (
            arith,
            length-rest less (IsRun-of_find less a r run (b ∷ s) e),
            length-rest less (IsRun-find less b s),
          )))

  merge_pass-perm :
      (fuel : ℕ) (xs : List A) → length xs ≤ fuel → Perm (merge_pass less fuel xs).1 xs
  unfolding merge_pass
  merge_pass-perm zero [] h = Perm.refl _
  merge_pass-perm (suc fuel) [] h = Perm.refl _
  merge_pass-perm zero (a ∷ r) h = absurd (omega arith)
  merge_pass-perm (suc fuel) (a ∷ r) h =
      first-perm fuel a r (merge_pass-perm fuel) (omega arith) (find_end_of_run less a r) refl

  sort_passes-perm : (fuel : ℕ) (xs : List A) → Perm (sort_passes less fuel xs) xs
  unfolding sort_passes
  sort_passes-perm zero xs = Perm.refl _
  sort_passes-perm (suc fuel) xs = elim (Bool-cases (ltb 1 (merge_pass less (length xs) xs).0)) [
    | inl more ↦ rw more (Perm.trans (sort_passes-perm fuel _) pass)
    | inr done ↦ rw done pass
  ]
    where
      pass : Perm (merge_pass less (length xs) xs).1 xs
      pass = merge_pass-perm (length xs) xs (omega arith)

  -- `list_sort` keeps the elements.
  pub list_sort-perm : (xs : List A) → Perm (list_sort less xs) xs
  unfolding list_sort
  list_sort-perm xs = sort_passes-perm (suc (length xs)) xs
