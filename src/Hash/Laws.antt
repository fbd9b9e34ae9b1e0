-- ===== src/Hash/Laws.antt =====
-- What hash tables promise: a set of elements (lib/kernel/hash.c).
use Prim.Native.Nat.{bit_and}
use project_pintos.Base.{
  ℕ, ◌-◌, ◌<◌, ◌≡◌, refl, sym, ap, ◌∙◌, ◌==◌, Bool, true, false, not, ◌&&◌, ◌||◌, inl, inr,
  if◌then◌else◌, List, [], ◌∷◌, Option, none, some, arith, Bool-cases,
}
use project_pintos.Base.Bits.{bit_and-le}
use project_pintos.Hash.{
  HashTable, no_buckets, move_from, new_bucket_cnt, push_front, find_bucket, find_elem, rehash,
  insert_elem, hash_find,
}
use project_pintos.Hash.Rehash.{new_bucket_cnt_pos}
use project_pintos.Hash.Buckets.{
  has, any_has, has-push_front, has-move_from, any_has_home, any_has-at,
}

module _ (hash : ℕ → ℕ) (less : ℕ → ℕ → Bool) where
  -- Every element stands in the bucket of its hash.
  pub record IsHash (h : HashTable) : Type 0 where
    pub some_buckets : 0 < h.bucket_cnt
    pub placed :
        (i y : ℕ)
        → i < h.bucket_cnt
        → has y (h.buckets i) ≡ true
        → find_bucket hash less h.bucket_cnt y ≡ i

  -- The set of elements, and when two of them are equal.
  abbrev pub stored : HashTable → ℕ → Bool
  stored h y = has y (h.buckets (find_bucket hash less h.bucket_cnt y))

  abbrev pub equal : ℕ → ℕ → Bool
  equal x y = not (less x y) && not (less y x)

  find_bucket-lt : (cnt e : ℕ) → 0 < cnt → find_bucket hash less cnt e < cnt
  unfolding find_bucket
  find_bucket-lt cnt e h = omega (arith, bit_and-le (hash e) (cnt - 1))

  -- What a search finds.
  pub data Search (test : ℕ → Bool) (e : ℕ) : Option ℕ → Type 0 where
    found : (x : ℕ) → test x ≡ true → equal x e ≡ true → Search test e (some x)
    missing : ((y : ℕ) → test y ≡ true → equal y e ≡ false) → Search test e none

  find_elem_lem : (xs : List ℕ) (e : ℕ) → Search (λ y. has y xs) e (find_elem hash less xs e)
  unfolding find_elem
  find_elem_lem [] e = missing (λ y h. absurd (ground (arith, h)))
  find_elem_lem (x ∷ xs) e = elim (Bool-cases (equal x e)) [
    | inl p ↦ rw p (found x (ground arith) p)
    | inr p ↦ rw p (later p (find_elem hash less xs e) (find_elem_lem xs e))
  ]
    where
      later :
          equal x e ≡ false
          → (o : Option ℕ) → Search (λ y. has y xs) e o
          → Search (λ y. has y (x ∷ xs)) e o
      later p o (found z h q) = found z (ground arith) q
      later p o (missing none_of) = missing (λ y h. elim (Bool-cases (x == y)) [
        | inl here ↦ let same : x ≡ y = ground arith in ap (λ z. equal z e) (sym same) ∙ p
        | inr far ↦ none_of y (ground arith)
      ])

  pub clash : {b : Bool} → b ≡ true → b ≡ false → ⊥
  clash p q = cc

  -- The buckets after a move hold the same elements, each in its place.
  moved :
      (h : HashTable) (cnt : ℕ)
      → IsHash h
      → 0 < cnt
      → IsHash (record h {
        bucket_cnt = cnt;
        buckets = move_from (find_bucket hash less cnt) h.bucket_cnt 0 h.buckets no_buckets;
      })
        × ((y : ℕ)
            → stored
                (record h {
                  bucket_cnt = cnt;
                  buckets =
                      move_from (find_bucket hash less cnt) h.bucket_cnt 0 h.buckets no_buckets;
                })
                y
              ≡ stored h y)
  moved h cnt v pos = (
    record { some_buckets = pos; placed = λ i y lt it. in_place i y (sym (all_in i y) ∙ it) },
    λ y. all_in (find_bucket hash less cnt y) y ∙ same_set y,
  )
    where
      all_in :
          (i y : ℕ)
          → has y (move_from (find_bucket hash less cnt) h.bucket_cnt 0 h.buckets no_buckets i)
            ≡ ((any_has y h.bucket_cnt 0 h.buckets && find_bucket hash less cnt y == i) || false)
      all_in i y = has-move_from (find_bucket hash less cnt) h.bucket_cnt 0 h.buckets no_buckets y i

      in_place :
          (i y : ℕ)
          → ((any_has y h.bucket_cnt 0 h.buckets && find_bucket hash less cnt y == i) || false)
            ≡ true
          → find_bucket hash less cnt y ≡ i
      in_place i y it = ground arith

      same_set :
          (y : ℕ)
          → ((any_has y h.bucket_cnt 0 h.buckets
                && find_bucket hash less cnt y == find_bucket hash less cnt y)
              || false)
            ≡ stored h y
      same_set y =
          let self : (find_bucket hash less cnt y == find_bucket hash less cnt y) ≡ true =
            ground arith in
          elim (Bool-cases (any_has y h.bucket_cnt 0 h.buckets)) [
            | inl e ↦
                let (lo, hi, it) =
                  any_has_home y h.bucket_cnt 0 (find_bucket hash less h.bucket_cnt y) h.buckets
                    (λ j lo hi q. v.placed j y (omega arith) q) e in
                rw (e, self) (sym it)
            | inr e ↦ rw e (elim (Bool-cases (stored h y)) [
              | inl q ↦ absurd (
                  clash
                    (any_has-at y h.bucket_cnt 0 (find_bucket hash less h.bucket_cnt y) h.buckets
                      (omega arith) (omega (arith, find_bucket-lt h.bucket_cnt y v.some_buckets)) q)
                    e)
              | inr q ↦ sym q
            ])
          ]

  -- `rehash` changes how many buckets there are and not what they hold.
  pub rehash_lem :
      (allocated : Bool) (h : HashTable)
      → IsHash h
      → IsHash (rehash hash less allocated h)
        × ((y : ℕ) → stored (rehash hash less allocated h) y ≡ stored h y)
  unfolding rehash
  rehash_lem allocated h v = elim (Bool-cases (new_bucket_cnt h.elem_cnt == h.bucket_cnt)) [
    | inl e ↦ rw e (v, λ y. refl)
    | inr e ↦ rw e (by_memory allocated)
  ]
    where
      by_memory :
          (allocated : Bool)
          → IsHash (
              if allocated
              then record h {
                bucket_cnt = new_bucket_cnt h.elem_cnt;
                buckets =
                    move_from
                      (find_bucket hash less (new_bucket_cnt h.elem_cnt))
                      h.bucket_cnt
                      0
                      h.buckets
                      no_buckets;
              }
              else h)
            × ((y : ℕ)
                → stored
                    (if allocated
                      then record h {
                        bucket_cnt = new_bucket_cnt h.elem_cnt;
                        buckets =
                            move_from
                              (find_bucket hash less (new_bucket_cnt h.elem_cnt))
                              h.bucket_cnt
                              0
                              h.buckets
                              no_buckets;
                      }
                      else h)
                    y
                  ≡ stored h y)
      by_memory true = moved h (new_bucket_cnt h.elem_cnt) v (new_bucket_cnt_pos h.elem_cnt)
      by_memory false = (v, λ y. refl)

  pub insert_elem_lem :
      (new : ℕ) (h : HashTable)
      → IsHash h
      → IsHash (insert_elem hash less (find_bucket hash less h.bucket_cnt new) new h)
        × ((y : ℕ)
            → stored (insert_elem hash less (find_bucket hash less h.bucket_cnt new) new h) y
              ≡ (new == y || stored h y))
  unfolding insert_elem
  insert_elem_lem new h v = (
    record {
      some_buckets = v.some_buckets;
      placed = λ i y lt it. in_place i y lt (sym (pushed i y) ∙ it);
    },
    λ y. pushed (find_bucket hash less h.bucket_cnt y) y ∙ self y,
  )
    where
      pushed :
          (i y : ℕ)
          → has y (push_front (find_bucket hash less h.bucket_cnt new) new h.buckets i)
            ≡ ((new == y && find_bucket hash less h.bucket_cnt y == i) || has y (h.buckets i))
      pushed i y = has-push_front (find_bucket hash less h.bucket_cnt) new y i h.buckets

      in_place :
          (i y : ℕ)
          → i < h.bucket_cnt
          → ((new == y && find_bucket hash less h.bucket_cnt y == i) || has y (h.buckets i)) ≡ true
          → find_bucket hash less h.bucket_cnt y ≡ i
      in_place i y lt it = elim (Bool-cases (has y (h.buckets i))) [
        | inl q ↦ v.placed i y lt q
        | inr q ↦ ground arith
      ]

      self :
          (y : ℕ)
          → ((new == y
                && find_bucket hash less h.bucket_cnt y == find_bucket hash less h.bucket_cnt y)
              || stored h y)
            ≡ (new == y || stored h y)
      self y =
          let same : (find_bucket hash less h.bucket_cnt y == find_bucket hash less h.bucket_cnt y)
              ≡ true =
            ground arith in
          rw same (and_true (new == y) (stored h y))
        where
          and_true : (b c : Bool) → ((b && true) || c) ≡ (b || c)
          and_true true c = refl
          and_true false c = refl

  -- Where equal elements have equal hashes, `hash_find` returns an element of the table that is equal to
  -- the one asked for, or NULL where there is none.
  pub hash_find_lem :
      (e : ℕ) (h : HashTable)
      → ((x y : ℕ) → equal x y ≡ true → hash x ≡ hash y)
      → Search (stored h) e (hash_find hash less e h)
  unfolding hash_find find_bucket
  hash_find_lem e h agree =
      whole (find_elem hash less (h.buckets (find_bucket hash less h.bucket_cnt e)) e)
        (find_elem_lem (h.buckets (find_bucket hash less h.bucket_cnt e)) e)
    where
      home :
          (y : ℕ)
          → equal y e ≡ true
          → find_bucket hash less h.bucket_cnt y ≡ find_bucket hash less h.bucket_cnt e
      home y q = ap (λ x. bit_and x (h.bucket_cnt - 1)) (agree y e q)

      whole :
          (o : Option ℕ)
          → Search (λ y. has y (h.buckets (find_bucket hash less h.bucket_cnt e))) e o
          → Search (stored h) e o
      whole o (found x p q) = found x (ap (λ i. has x (h.buckets i)) (home x q) ∙ p) q
      whole o (missing none_of) = missing (λ y p. elim (Bool-cases (equal y e)) [
        | inl q ↦ absurd (clash q (none_of y (sym (ap (λ i. has y (h.buckets i)) (home y q)) ∙ p)))
        | inr q ↦ q
      ])
