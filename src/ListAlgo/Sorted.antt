-- ===== src/ListAlgo/Sorted.antt =====
-- Order: the sorts and the ordered insertion of lib/kernel/list.c give sorted sequences.
use project_pintos.Base.{
  ℕ, ◌+◌, ◌≤◌, ◌≡◌, refl, ◌⊎◌, inl, inr, Bool, true, false, if◌then◌else◌, List, [], ◌∷◌, ◌++◌,
  arith, length, Bool-cases,
}
use project_pintos.ListAlgo.{insert_ordered, is_sorted, run_after, inplace_merge}

module _ {ℓ} {A : Type ℓ} (less : A → A → Bool) where
  -- What the sorting functions need of a comparison.
  abbrev pub IsAsym : Type ℓ
  IsAsym = (a b : A) → less a b ≡ true → less b a ≡ false

  -- The places where an element is less than the one before it.
  abbrev pub descents : List A → ℕ
  descents [] = 0
  descents (a ∷ []) = 0
  descents (a ∷ (b ∷ r)) = (if less b a then 1 else 0) + descents (b ∷ r)

  pub is_sorted_of_descents : (xs : List A) → descents xs ≡ 0 → is_sorted less xs ≡ true
  unfolding is_sorted
  is_sorted_of_descents [] h = refl
  is_sorted_of_descents (a ∷ []) h = refl
  is_sorted_of_descents (a ∷ (b ∷ r)) h = ground (arith, is_sorted_of_descents (b ∷ r))

  pub descents_of_is_sorted : (xs : List A) → is_sorted less xs ≡ true → descents xs ≡ 0
  unfolding is_sorted
  descents_of_is_sorted [] h = refl
  descents_of_is_sorted (a ∷ []) h = refl
  descents_of_is_sorted (a ∷ (b ∷ r)) h = ground (arith, descents_of_is_sorted (b ∷ r))

  pub descents-le-length : (a : A) (r : List A) → descents (a ∷ r) ≤ length r
  descents-le-length a [] = omega arith
  descents-le-length a (b ∷ r) = ground (arith, descents-le-length b r)

  pub descents-append : (xs ys : List A) → descents (xs ++ ys) ≤ descents xs + descents ys + 1
  descents-append [] ys = omega arith
  descents-append (a ∷ []) [] = omega arith
  descents-append (a ∷ []) (b ∷ r) = ground arith
  descents-append (a ∷ (b ∷ r)) ys = ground (arith, descents-append (b ∷ r) ys)

  -- The run after `prev` goes on without a descent, and what follows begins with one.
  pub run_after_lem :
      (prev : A) (r : List A)
      → let (run, rest) = run_after less prev r in
        (run ++ rest ≡ r)
        × (descents (prev ∷ run) ≡ 0)
        × ((rest ≡ []) ⊎ (descents (prev ∷ r) ≡ 1 + descents rest))
  unfolding run_after
  run_after_lem prev [] = (refl, refl, inl refl)
  run_after_lem prev (a ∷ r) = ground (arith, run_after_lem a r)

  module _ (asym : IsAsym) where
    insert_after :
        (p e : A) (es : List A)
        → less e p ≡ false
        → descents (p ∷ es) ≡ 0
        → descents (p ∷ insert_ordered less e es) ≡ 0
    unfolding insert_ordered
    insert_after p e [] h k = ground arith
    insert_after p e (x ∷ es) h k = ground (arith, insert_after x e es, asym e x)

    insert_any : (e : A) (es : List A) → descents es ≡ 0 → descents (insert_ordered less e es) ≡ 0
    unfolding insert_ordered
    insert_any e [] h = refl
    insert_any e (x ∷ es) h = ground (arith, insert_after x e es, asym e x)

    -- Inserting keeps a sorted list sorted.
    pub insert_ordered-sorted :
        (e : A) (es : List A)
        → is_sorted less es ≡ true
        → is_sorted less (insert_ordered less e es) ≡ true
    insert_ordered-sorted e es h =
        is_sorted_of_descents (insert_ordered less e es)
          (insert_any e es (descents_of_is_sorted es h))

    -- Merging: `p` is what the output ends with so far.
    merge_after :
        (p : A) (xs ys : List A)
        → descents (p ∷ xs) ≡ 0
        → descents (p ∷ ys) ≡ 0
        → descents (p ∷ inplace_merge less xs ys) ≡ 0
    unfolding inplace_merge
    merge_after p [] ys h k = k
    merge_after p (a ∷ xs) [] h k = h
    merge_after p (a ∷ xs) (b ∷ ys) h k = elim (Bool-cases (less b a)) [
      | inl e ↦ ground (arith, merge_after b (a ∷ xs) ys, asym b a e)
      | inr e ↦ ground (arith, merge_after a xs (b ∷ ys))
    ]

    pub merge_any :
        (xs ys : List A)
        → descents xs ≡ 0
        → descents ys ≡ 0
        → descents (inplace_merge less xs ys) ≡ 0
    unfolding inplace_merge
    merge_any [] ys h k = k
    merge_any (a ∷ xs) [] h k = h
    merge_any (a ∷ xs) (b ∷ ys) h k = elim (Bool-cases (less b a)) [
      | inl e ↦ ground (arith, merge_after b (a ∷ xs) ys, asym b a e)
      | inr e ↦ ground (arith, merge_after a xs (b ∷ ys))
    ]

    -- Merging two sorted runs gives a sorted run.
    pub inplace_merge-sorted :
        (xs ys : List A)
        → is_sorted less xs ≡ true
        → is_sorted less ys ≡ true
        → is_sorted less (inplace_merge less xs ys) ≡ true
    inplace_merge-sorted xs ys h k =
        is_sorted_of_descents (inplace_merge less xs ys)
          (merge_any xs ys (descents_of_is_sorted xs h) (descents_of_is_sorted ys k))
