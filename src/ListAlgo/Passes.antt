-- ===== src/ListAlgo/Passes.antt =====
-- A pass of `list_sort` of lib/kernel/list.c at least halves the number of runs, so the sort ends.
use mathlib.Core.List.{append-nil, nil≢cons}
use project_pintos.Base.{
  ℕ, zero, suc, ◌+◌, ◌≤◌, ◌<◌, ◌-◌, ltb, ◌≡◌, refl, sym, ap, ◌⊎◌, inl, inr, Bool, true, List, [],
  ◌∷◌, ◌++◌, arith, length, length-append, Bool-cases,
}
use project_pintos.ListAlgo.{
  is_sorted, run_after, find_end_of_run, inplace_merge, merge_pass, sort_passes, list_sort,
}
use project_pintos.ListAlgo.Sorted.{
  IsAsym, descents, is_sorted_of_descents, descents-le-length, descents-append, run_after_lem,
  merge_any,
}

-- The two ways in which an inner iteration of a pass ends.
module _ {ℓ} {A : Type ℓ} (less : A → A → Bool) (fuel : ℕ) (a : A) (r : List A) where
  pub pass_last :
      (run : List A)
      → find_end_of_run less a r ≡ (run, [])
      → merge_pass less (suc fuel) (a ∷ r) ≡ (1, run)
  unfolding merge_pass
  pass_last run e = rw (e, merge_pass) (rw e)

  pub pass_two :
      (run : List A) (b : A) (s run' rest : List A)
      → find_end_of_run less a r ≡ (run, b ∷ s)
      → find_end_of_run less b s ≡ (run', rest)
      → merge_pass less (suc fuel) (a ∷ r) ≡ (
        suc (merge_pass less fuel rest).0,
        inplace_merge less run run' ++ (merge_pass less fuel rest).1,
      )
  unfolding merge_pass
  pass_two run b s run' rest e e' = rw (e, e', merge_pass) (rw e)

module _ {ℓ} {A : Type ℓ} (less : A → A → Bool) where
  -- What a run found from `a` on is.
  pub record IsRun (a : A) (r run rest : List A) : Type ℓ where
    pub whole : run ++ rest ≡ a ∷ r
    pub rising : descents less run ≡ 0
    pub some_elem : 1 ≤ length run
    pub ends : (rest ≡ []) ⊎ (descents less (a ∷ r) ≡ 1 + descents less rest)

  pub IsRun-find :
      (a : A) (r : List A) → IsRun a r (find_end_of_run less a r).0 (find_end_of_run less a r).1
  unfolding find_end_of_run
  IsRun-find a r = record {
    whole = ap (λ t. a ∷ t) f.0;
    rising = f.1;
    some_elem = omega arith;
    ends = f.2;
  }
    where
      f :
          ((run_after less a r).0 ++ (run_after less a r).1 ≡ r)
          × (descents less (a ∷ (run_after less a r).0) ≡ 0)
          × (((run_after less a r).1 ≡ [])
              ⊎ (descents less (a ∷ r) ≡ 1 + descents less (run_after less a r).1))
      f = run_after_lem less a r

  pub IsRun-of_find :
      (a : A) (r run rest : List A) → find_end_of_run less a r ≡ (run, rest) → IsRun a r run rest
  IsRun-of_find a r run rest e = rw e at (IsRun-find a r)

  pub length-rest : {a : A} {r run rest : List A} → IsRun a r run rest → length rest ≤ length r
  length-rest {a} {r} {run} {rest} f =
      omega (arith, ap length f.whole, length-append run rest, f.some_elem)

module _ {ℓ} {A : Type ℓ} (less : A → A → Bool) (asym : IsAsym less) where
  -- What a pass over `xs` leaves: its count of runs bounds those of the output, and is at most half
  -- of those of the input, rounded up.
  pub record Halves (xs : List A) (n : ℕ) (out : List A) : Type ℓ where
    pub some_run : (xs ≡ []) ⊎ (1 ≤ n)
    pub empty : xs ≡ [] → (out ≡ []) × (n ≡ 0)
    pub few : descents less out ≤ n - 1
    pub half : n + n ≤ descents less xs + 2

  ending : (a : A) (r run : List A) → IsRun less a r run [] → Halves (a ∷ r) 1 run
  ending a r run f = record {
    some_run = inr (omega arith);
    empty = λ p. absurd (nil≢cons (sym p));
    few = omega (arith, f.rising);
    half = omega arith;
  }

  merged-append :
      (xs ys rest out : List A) (n : ℕ)
      → descents less xs ≡ 0
      → descents less ys ≡ 0
      → (rest ≡ []) ⊎ (1 ≤ n)
      → (rest ≡ [] → (out ≡ []) × (n ≡ 0))
      → descents less out ≤ n - 1
      → descents less (inplace_merge less xs ys ++ out) ≤ n
  merged-append xs ys rest out n h k (inl e) empty few =
      rw ((empty e).0, append-nil) (omega (arith, merge_any less asym xs ys h k))
  merged-append xs ys rest out n h k (inr p) empty few =
      omega
        (arith, merge_any less asym xs ys h k, descents-append less (inplace_merge less xs ys) out)

  doubled :
      (m n d d' : ℕ) (b : A) (s rest : List A)
      → (b ∷ s ≡ []) ⊎ (d ≡ 1 + d')
      → (rest ≡ []) ⊎ (d' ≡ 1 + m)
      → (rest ≡ [] → n ≡ 0)
      → n + n ≤ m + 2
      → suc n + suc n ≤ d + 2
  doubled m n d d' b s rest (inl e) q z h = absurd (nil≢cons (sym e))
  doubled m n d d' b s rest (inr p) (inl e) z h = omega (arith, z e)
  doubled m n d d' b s rest (inr p) (inr q) z h = omega arith

  iteration :
      (a : A) (r run : List A) (b : A) (s run' rest : List A) (n : ℕ) (out : List A)
      → IsRun less a r run (b ∷ s)
      → IsRun less b s run' rest
      → Halves rest n out
      → Halves (a ∷ r) (suc n) (inplace_merge less run run' ++ out)
  iteration a r run b s run' rest n out f g v = record {
    some_run = inr (omega arith);
    empty = λ p. absurd (nil≢cons (sym p));
    few =
        omega (arith, merged-append run run' rest out n f.rising g.rising v.some_run v.empty v.few);
    half =
        doubled (descents less rest) n (descents less (a ∷ r)) (descents less (b ∷ s)) b s rest
          f.ends g.ends (λ e. (v.empty e).1) v.half;
  }

  Halves-nil : Halves [] 0 []
  Halves-nil = record {
    some_run = inl refl;
    empty = λ _. (refl, refl);
    few = omega arith;
    half = omega arith;
  }

  -- A pass with enough fuel.
  abbrev Passes : ℕ → List A → Type ℓ
  Passes fuel xs = Halves xs (merge_pass less fuel xs).0 (merge_pass less fuel xs).1

  second :
      (fuel : ℕ) (a : A) (r run : List A) (b : A) (s : List A) (p : List A × List A)
      → find_end_of_run less a r ≡ (run, b ∷ s)
      → find_end_of_run less b s ≡ p
      → Passes fuel p.1
      → Passes (suc fuel) (a ∷ r)
  second fuel a r run b s (run', rest) e e' v = rw (pass_two less fuel a r run b s run' rest e e') (
      iteration a r run b s run' rest _ _ (IsRun-of_find less a r run (b ∷ s) e)
        (IsRun-of_find less b s run' rest e') v)

  first :
      (fuel : ℕ) (a : A) (r : List A)
      → ((xs : List A) → length xs ≤ fuel → Passes fuel xs)
      → length r ≤ fuel
      → (p : List A × List A) → find_end_of_run less a r ≡ p
      → Passes (suc fuel) (a ∷ r)
  first fuel a r ih h (run, []) e =
      rw (pass_last less fuel a r run e) (ending a r run (IsRun-of_find less a r run [] e))
  first fuel a r ih h (run, b ∷ s) e = second fuel a r run b s (find_end_of_run less b s) e refl (
      ih _ (
        omega (
          arith,
          length-rest less (IsRun-of_find less a r run (b ∷ s) e),
          length-rest less (IsRun-find less b s),
        )))

  pub merge_pass-Halves : (fuel : ℕ) (xs : List A) → length xs ≤ fuel → Passes fuel xs
  unfolding merge_pass
  merge_pass-Halves zero [] h = Halves-nil
  merge_pass-Halves (suc fuel) [] h = Halves-nil
  merge_pass-Halves zero (a ∷ r) h = absurd (omega arith)
  merge_pass-Halves (suc fuel) (a ∷ r) h =
      first fuel a r (merge_pass-Halves fuel) (omega arith) (find_end_of_run less a r) refl

  -- `list_sort` returns a sorted list.
  pub sort_passes-sorted :
      (fuel : ℕ) (xs : List A)
      → descents less xs < fuel
      → is_sorted less (sort_passes less fuel xs) ≡ true
  unfolding sort_passes
  sort_passes-sorted zero xs h = absurd (omega arith)
  sort_passes-sorted (suc fuel) xs h =
      elim (Bool-cases (ltb 1 (merge_pass less (length xs) xs).0)) [
        | inl more ↦ rw more (
            sort_passes-sorted fuel (merge_pass less (length xs) xs).1
              (ground (arith, v.few, v.half)))
        | inr done ↦ rw done (is_sorted_of_descents less _ (ground (arith, v.few)))
      ]
    where
      v : Passes (length xs) xs
      v = merge_pass-Halves (length xs) xs (omega arith)

  -- `list_sort` ends within the passes given and returns a sorted list.
  pub list_sort-sorted : (xs : List A) → is_sorted less (list_sort less xs) ≡ true
  unfolding list_sort
  list_sort-sorted [] = sort_passes-sorted 1 [] (omega arith)
  list_sort-sorted (a ∷ r) =
      sort_passes-sorted (suc (suc (length r))) (a ∷ r) (omega (arith, descents-le-length less a r))
