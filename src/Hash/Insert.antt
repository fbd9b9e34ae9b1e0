-- ===== src/Hash/Insert.antt =====
-- Insertion into hash tables (lib/kernel/hash.c).
use project_pintos.Base.{
  ℕ, ◌≡◌, refl, sym, ap, ◌∙◌, ◌==◌, Bool, true, false, not, ◌&&◌, ◌||◌, inl, inr, Option, none,
  some, arith, Bool-cases,
}
use project_pintos.Hash.{HashTable, find_bucket, rehash, insert_elem, hash_insert, hash_find}
use project_pintos.Hash.Laws.{
  IsHash, stored, equal, Search, found, missing, clash, rehash_lem, insert_elem_lem, hash_find_lem,
}

module _ (hash : ℕ → ℕ) (less : ℕ → ℕ → Bool) where
  -- No two elements of the table are equal.
  pub record IsSetLike (h : HashTable) : Type 0 where
    pub unique :
        (x y : ℕ)
        → stored hash less h x ≡ true
        → stored hash less h y ≡ true
        → equal hash less x y ≡ true
        → x ≡ y

  -- The set after an insertion: the new element is added where the search found none.
  abbrev pub with_new : HashTable → ℕ → Option ℕ → ℕ → Bool
  with_new h new none y = new == y || stored hash less h y
  with_new h new (some _) y = stored hash less h y

  equal-swap : (x y : ℕ) → equal hash less x y ≡ true → equal hash less y x ≡ true
  equal-swap x y h = swap (less x y) (less y x) h
    where
      swap : (a b : Bool) → (not a && not b) ≡ true → (not b && not a) ≡ true
      swap false false h = refl
      swap true b h = absurd (ground (arith, h))
      swap false true h = absurd (ground (arith, h))

  with_new_unique :
      (h h' : HashTable) (new : ℕ) (o : Option ℕ)
      → IsSetLike h
      → Search hash less (stored hash less h) new o
      → ((y : ℕ) → stored hash less h' y ≡ with_new h new o y)
      → IsSetLike h'
  with_new_unique h h' new o u (found z p q) same = record {
    unique = λ x y a b e. u.unique x y (sym (same x) ∙ a) (sym (same y) ∙ b) e;
  }
  with_new_unique h h' new o u (missing none_of) same = record { unique = once }
    where
      once :
          (x y : ℕ)
          → stored hash less h' x ≡ true
          → stored hash less h' y ≡ true
          → equal hash less x y ≡ true
          → x ≡ y
      once x y a b e = elim (Bool-cases (new == x)) [
        | inl p ↦ elim (Bool-cases (new == y)) [
          | inl q ↦ ground arith
          | inr q ↦
              let it : stored hash less h y ≡ true = other y q (sym (same y) ∙ b) in
              let is_new : new ≡ x = ground arith in
              absurd (
                clash hash less (equal-swap new y (ap (λ z. equal hash less z y) is_new ∙ e))
                  (none_of y it))
        ]
        | inr p ↦ elim (Bool-cases (new == y)) [
          | inl q ↦
              let it : stored hash less h x ≡ true = other x p (sym (same x) ∙ a) in
              let is_new : new ≡ y = ground arith in
              absurd (clash hash less (ap (equal hash less x) is_new ∙ e) (none_of x it))
          | inr q ↦ u.unique x y (other x p (sym (same x) ∙ a)) (other y q (sym (same y) ∙ b)) e
        ]
      ]
        where
          other :
              (z : ℕ)
              → (new == z) ≡ false
              → (new == z || stored hash less h z) ≡ true
              → stored hash less h z ≡ true
          other z p q = rw p at q

  -- `hash_insert` into a well-formed table without equal elements, where equal elements have equal
  -- hashes, keeps the table so, whether the memory for more buckets is there or not. It returns an
  -- element that is equal to the new one, and the elements stay as they were; or NULL where there is
  -- none, and the new one is added.
  pub hash_insert_lem :
      (allocated : Bool) (new : ℕ) (h : HashTable)
      → ((x y : ℕ) → equal hash less x y ≡ true → hash x ≡ hash y)
      → IsHash hash less h
      → IsSetLike h
      → (old : Option ℕ) × (h' : HashTable) × (hash_insert hash less allocated new h ≡ (old, h'))
        × Search hash less (stored hash less h) new old
        × IsHash hash less h'
        × IsSetLike h'
        × ((y : ℕ) → stored hash less h' y ≡ with_new h new old y)
  unfolding hash_insert hash_find
  hash_insert_lem allocated new h agree v u =
      by_result (hash_find hash less new h) (hash_find_lem hash less new h agree)
    where
      by_result :
          (o : Option ℕ)
          → Search hash less (stored hash less h) new o
          → (old : Option ℕ) × (h' : HashTable) × (◌≡◌ {A = Option ℕ × HashTable}
              (
                o,
                rehash hash less allocated (elim o as (λ _. HashTable) [
                  | none ↦ insert_elem hash less (find_bucket hash less h.bucket_cnt new) new h
                  | some _ ↦ h
                ]),
              )
              (old, h'))
            × Search hash less (stored hash less h) new old
            × IsHash hash less h'
            × IsSetLike h'
            × ((y : ℕ) → stored hash less h' y ≡ with_new h new old y)
      by_result none result =
          let (w, added) = insert_elem_lem hash less new h v in
          let (w', same) =
            rehash_lem hash less allocated
              (insert_elem hash less (find_bucket hash less h.bucket_cnt new) new h) w in
          let all : (y : ℕ)
              → stored hash less
                  (rehash hash less allocated
                    (insert_elem hash less (find_bucket hash less h.bucket_cnt new) new h))
                  y
                ≡ with_new h new none y =
            λ y. same y ∙ added y in
          (
            none,
            rehash hash less allocated
                (insert_elem hash less (find_bucket hash less h.bucket_cnt new) new h),
            refl,
            result,
            w',
            with_new_unique h
                (rehash hash less allocated
                  (insert_elem hash less (find_bucket hash less h.bucket_cnt new) new h))
                new none u result all,
            all,
          )
      by_result (some x) result =
          let (w', same) = rehash_lem hash less allocated h v in
          (
            some x,
            rehash hash less allocated h,
            refl,
            result,
            w',
            with_new_unique h (rehash hash less allocated h) new (some x) u result same,
            same,
          )
