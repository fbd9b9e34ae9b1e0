-- ===== src/Hash/Delete.antt =====
-- Deletion from hash tables (lib/kernel/hash.c).
use project_pintos.Base.{
  ℕ, ◌+◌, ◌-◌, ◌≤◌, ◌≡◌, refl, sym, ap, ◌∙◌, ◌==◌, ltb, Bool, true, false, not, ◌&&◌, inl, inr,
  if◌then◌else◌, List, Option, none, some, arith, Bool-cases,
}
use project_pintos.Sched.Switch.{list_remove}
use project_pintos.Hash.{
  HashTable, no_buckets, move_from, new_bucket_cnt, find_bucket, rehash, insert_elem, remove_elem,
  hash_insert, hash_find, hash_delete,
}
use project_pintos.Hash.Buckets.{has}
use project_pintos.Hash.Counts.{
  count, count_zero, has-count, count-list_remove, count-push_front, count-move_from, total-home,
}
use project_pintos.Hash.Laws.{
  IsHash, stored, equal, Search, missing, rehash_lem, insert_elem_lem, hash_find_lem,
}

module _ (hash : ℕ → ℕ) (less : ℕ → ℕ → Bool) where
  -- No element stands in its bucket twice.
  pub record IsOnce (h : HashTable) : Type 0 where
    pub once : (y : ℕ) → count y (h.buckets (find_bucket hash less h.bucket_cnt y)) ≤ 1

  moved-IsOnce :
      (h : HashTable) (cnt : ℕ)
      → IsHash hash less h
      → IsOnce h
      → IsOnce (record h {
        bucket_cnt = cnt;
        buckets = move_from (find_bucket hash less cnt) h.bucket_cnt 0 h.buckets no_buckets;
      })
  moved-IsOnce h cnt v w = record { once = once }
    where
      once :
          (y : ℕ)
          → count y (
              move_from
                (find_bucket hash less cnt)
                h.bucket_cnt
                0
                h.buckets
                no_buckets
                (find_bucket hash less cnt y))
            ≤ 1
      once y =
          let home = find_bucket hash less cnt y in
          let moved =
            count-move_from (find_bucket hash less cnt) h.bucket_cnt 0 h.buckets no_buckets y
              home in
          let all =
            total-home y h.bucket_cnt 0 (find_bucket hash less h.bucket_cnt y) h.buckets
              (λ j lo hi it. v.placed j y (omega arith) it) in
          let self : (home == home) ≡ true = ground arith in
          ground (arith, rw self at moved, all, w.once y)

  pub rehash-IsOnce :
      (allocated : Bool) (h : HashTable)
      → IsHash hash less h
      → IsOnce h
      → IsOnce (rehash hash less allocated h)
  unfolding rehash
  rehash-IsOnce allocated h v w = elim (Bool-cases (new_bucket_cnt h.elem_cnt == h.bucket_cnt)) [
    | inl e ↦ rw e w
    | inr e ↦ rw e (by_memory allocated)
  ]
    where
      by_memory :
          (allocated : Bool)
          → IsOnce (
              if allocated
              then record h {
                bucket_cnt = new_bucket_cnt h.elem_cnt;
                buckets =
                    move_from
                      (find_bucket hash less (new_bucket_cnt h.elem_cnt))
                      h.bucket_cnt
                      0
                      h.buckets
                      no_buckets;
              }
              else h)
      by_memory true = moved-IsOnce h (new_bucket_cnt h.elem_cnt) v w
      by_memory false = w

  -- The set without an element.
  abbrev pub without : HashTable → Option ℕ → ℕ → Bool
  without h none y = stored hash less h y
  without h (some x) y = stored hash less h y && not (x == y)

  has-list_remove :
      (y x : ℕ) (xs : List ℕ)
      → count y xs ≤ 1
      → has y (list_remove x xs) ≡ (has y xs && not (x == y))
  has-list_remove y x xs h =
      has-count y (list_remove x xs)
      ∙ ap (ltb 0) (count-list_remove y x xs)
      ∙ rw (has-count y xs) (numbers (count y xs) h)
    where
      numbers : (c : ℕ) → c ≤ 1 → ltb 0 (c - (if x == y then 1 else 0)) ≡ (ltb 0 c && not (x == y))
      numbers c h = ground arith

  has-removed : (y x : ℕ) (xs : List ℕ) → has y (list_remove x xs) ≡ true → has y xs ≡ true
  has-removed y x xs h =
      ground (arith, has-count y (list_remove x xs), count-list_remove y x xs, has-count y xs)

  remove_elem_lem :
      (x : ℕ) (h : HashTable)
      → IsHash hash less h
      → IsOnce h
      → IsHash hash less (remove_elem hash less x h)
        × IsOnce (remove_elem hash less x h)
        × ((y : ℕ) → stored hash less (remove_elem hash less x h) y ≡ without h (some x) y)
  unfolding remove_elem
  remove_elem_lem x h v w = (
    record {
      some_buckets = v.some_buckets;
      placed = λ i y lt it. v.placed i y lt (has-removed y x (h.buckets i) it);
    },
    record {
      once = λ y. omega (
        arith,
        count-list_remove y x (h.buckets (find_bucket hash less h.bucket_cnt y)),
        w.once y,
      );
    },
    λ y. has-list_remove y x (h.buckets (find_bucket hash less h.bucket_cnt y)) (w.once y),
  )

  -- `hash_delete` from a well-formed table where no element stands twice and equal elements have equal
  -- hashes returns an element that is equal to the one asked for and takes it, and no other, out of
  -- the set; or it returns NULL, where there is none, and the set stays as it is. The table stays
  -- well-formed, whether the memory for fewer buckets is there or not.
  pub hash_delete_lem :
      (allocated : Bool) (e : ℕ) (h : HashTable)
      → ((x y : ℕ) → equal hash less x y ≡ true → hash x ≡ hash y)
      → IsHash hash less h
      → IsOnce h
      → (gone : Option ℕ) × (h' : HashTable) × (hash_delete hash less allocated e h ≡ (gone, h'))
        × Search hash less (stored hash less h) e gone
        × IsHash hash less h'
        × IsOnce h'
        × ((y : ℕ) → stored hash less h' y ≡ without h gone y)
  unfolding hash_delete hash_find
  hash_delete_lem allocated e h agree v w =
      by_result (hash_find hash less e h) (hash_find_lem hash less e h agree)
    where
      by_result :
          (o : Option ℕ)
          → Search hash less (stored hash less h) e o
          → (gone : Option ℕ) × (h' : HashTable) × (◌≡◌ {A = Option ℕ × HashTable}
              (
                o,
                elim o as (λ _. HashTable) [
                  | none ↦ h
                  | some x ↦ rehash hash less allocated (remove_elem hash less x h)
                ],
              )
              (gone, h'))
            × Search hash less (stored hash less h) e gone
            × IsHash hash less h'
            × IsOnce h'
            × ((y : ℕ) → stored hash less h' y ≡ without h gone y)
      by_result none result = (none, h, refl, result, v, w, λ y. refl)
      by_result (some x) result =
          let (v', w', rest) = remove_elem_lem x h v w in
          let (v'', same) = rehash_lem hash less allocated (remove_elem hash less x h) v' in
          (
            some x,
            rehash hash less allocated (remove_elem hash less x h),
            refl,
            result,
            v'',
            rehash-IsOnce allocated (remove_elem hash less x h) v' w',
            λ y. same y ∙ rest y,
          )

  insert_elem-IsOnce :
      (new : ℕ) (h : HashTable)
      → stored hash less h new ≡ false
      → IsOnce h
      → IsOnce (insert_elem hash less (find_bucket hash less h.bucket_cnt new) new h)
  unfolding insert_elem
  insert_elem-IsOnce new h fresh w = record {
    once = λ y.
        at_most (find_bucket hash less h.bucket_cnt y) y (w.once y)
          (count-push_front (find_bucket hash less h.bucket_cnt) new y
            (find_bucket hash less h.bucket_cnt y) h.buckets)
          (zero_new y);
  }
    where
      zero_new : (y : ℕ) → new ≡ y → count y (h.buckets (find_bucket hash less h.bucket_cnt y)) ≡ 0
      zero_new y same =
          count_zero y (h.buckets (find_bucket hash less h.bucket_cnt y))
            (ap (stored hash less h) (sym same) ∙ fresh)

      at_most :
          (home y : ℕ) {c n : ℕ}
          → c ≤ 1
          → n ≡ (if new == y && home == home then 1 else 0) + c
          → (new ≡ y → c ≡ 0)
          → n ≤ 1
      at_most home y {c} {n} h e z = elim (Bool-cases (new == y)) [
        | inl p ↦ let none_yet = z (ground arith) in ground arith
        | inr p ↦ let out : n ≡ 0 + c = rw p at e in omega arith
      ]

  -- `hash_insert` puts no element into its bucket twice, where no element is less than itself.
  pub hash_insert-IsOnce :
      (allocated : Bool) (new : ℕ) (h : HashTable)
      → ((x y : ℕ) → equal hash less x y ≡ true → hash x ≡ hash y)
      → ((x : ℕ) → less x x ≡ false)
      → IsHash hash less h
      → IsOnce h
      → IsOnce (hash_insert hash less allocated new h).1
  unfolding hash_insert hash_find
  hash_insert-IsOnce allocated new h agree irreflexive v w =
      by_result (hash_find hash less new h) (hash_find_lem hash less new h agree)
    where
      by_result :
          (o : Option ℕ)
          → Search hash less (stored hash less h) new o
          → IsOnce (
              rehash hash less allocated (elim o as (λ _. HashTable) [
                | none ↦ insert_elem hash less (find_bucket hash less h.bucket_cnt new) new h
                | some _ ↦ h
              ]))
      by_result (some x) result = rehash-IsOnce allocated h v w
      by_result none (missing none_of) =
          let fresh : stored hash less h new ≡ false = elim (Bool-cases (stored hash less h new)) [
            | inl p ↦ absurd (ground (arith, none_of new p, irreflexive new))
            | inr p ↦ p
          ] in
          rehash-IsOnce allocated
            (insert_elem hash less (find_bucket hash less h.bucket_cnt new) new h)
            (insert_elem_lem hash less new h v).0 (insert_elem-IsOnce new h fresh w)
