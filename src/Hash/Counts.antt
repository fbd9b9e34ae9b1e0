-- ===== src/Hash/Counts.antt =====
-- How often an element stands in the buckets of a hash table (lib/kernel/hash.c).
use project_pintos.Base.{
  ℕ, zero, suc, ◌+◌, ◌-◌, ◌≤◌, ◌<◌, ◌≡◌, refl, ap, ◌∙◌, ◌==◌, ltb, Bool, true, false, ◌&&◌, inl,
  inr, if◌then◌else◌, List, [], ◌∷◌, arith, Bool-cases,
}
use project_pintos.Sched.Switch.{list_remove}
use project_pintos.Hash.{push_front, move_bucket, move_from}
use project_pintos.Hash.Buckets.{has}

abbrev pub count : ℕ → List ℕ → ℕ
count y [] = 0
count y (x ∷ xs) = if x == y then suc (count y xs) else count y xs

-- In `n` buckets from `i` on.
abbrev pub total : ℕ → ℕ → ℕ → (ℕ → List ℕ) → ℕ
total y zero i buckets = 0
total y (suc n) i buckets = count y (buckets i) + total y n (i + 1) buckets

pub has-count : (y : ℕ) (xs : List ℕ) → has y xs ≡ ltb 0 (count y xs)
has-count y [] = refl
has-count y (x ∷ xs) = elim (Bool-cases (x == y)) [
  | inl e ↦ rw e (ground arith)
  | inr e ↦ rw e (has-count y xs)
]

pub count_zero : (y : ℕ) (xs : List ℕ) → has y xs ≡ false → count y xs ≡ 0
count_zero y xs h = ground (arith, has-count y xs)

pub count-list_remove :
    (y x : ℕ) (xs : List ℕ) → count y (list_remove x xs) ≡ count y xs - (if x == y then 1 else 0)
count-list_remove y x [] = ground arith
count-list_remove y x (z ∷ xs) = elim (Bool-cases (z == x)) [
  | inl e ↦ rw e (let same : z ≡ x = ground arith in ground (arith, same))
  | inr e ↦ rw e (ground (arith, count-list_remove y x xs))
]

pub count-push_front :
    (idx : ℕ → ℕ) (e y j : ℕ) (b : ℕ → List ℕ)
    → count y (push_front (idx e) e b j) ≡ (if e == y && idx y == j then 1 else 0) + count y (b j)
count-push_front idx e y j b = elim (Bool-cases (e == y)) [
  | inl p ↦ let same : e ≡ y = ground arith in rw same (same_case y)
  | inr p ↦ rw p (other p)
]
  where
    same_case :
        (y : ℕ)
        → count y (if idx y == j then y ∷ b j else b j)
          ≡ (if y == y && idx y == j then 1 else 0) + count y (b j)
    same_case y =
        let self : (y == y) ≡ true = ground arith in
        elim (Bool-cases (idx y == j)) [
          | inl q ↦ rw (self, q) (rw self (omega arith))
          | inr q ↦ rw (self, q) (omega arith)
        ]

    other : (e == y) ≡ false → count y (if idx e == j then e ∷ b j else b j) ≡ 0 + count y (b j)
    other p = elim (Bool-cases (idx e == j)) [
      | inl q ↦ rw q (rw p (omega arith))
      | inr q ↦ rw q (omega arith)
    ]

count-move_bucket :
    (idx : ℕ → ℕ) (xs : List ℕ) (b : ℕ → List ℕ) (y j : ℕ)
    → count y (move_bucket idx xs b j) ≡ (if idx y == j then count y xs else 0) + count y (b j)
count-move_bucket idx [] b y j = ground arith
count-move_bucket idx (x ∷ xs) b y j =
    count-move_bucket idx xs (push_front (idx x) x b) y j
    ∙ rw (count-push_front idx x y j b) (merge (count y xs) (count y (b j)) (x == y) (idx y == j))
  where
    merge :
        (p s : ℕ) (q r : Bool)
        → (if r then p else 0) + ((if q && r then 1 else 0) + s)
          ≡ (if r then (if q then suc p else p) else 0) + s
    merge p s true true = omega arith
    merge p s true false = omega arith
    merge p s false true = omega arith
    merge p s false false = omega arith

pub count-move_from :
    (idx : ℕ → ℕ) (n i : ℕ) (old b : ℕ → List ℕ) (y j : ℕ)
    → count y (move_from idx n i old b j)
      ≡ (if idx y == j then total y n i old else 0) + count y (b j)
count-move_from idx zero i old b y j = ground arith
count-move_from idx (suc n) i old b y j =
    count-move_from idx n (i + 1) old (move_bucket idx (old i) b) y j
    ∙ rw (count-move_bucket idx (old i) b y j)
        (merge (total y n (i + 1) old) (count y (old i)) (count y (b j)) (idx y == j))
  where
    merge :
        (p q s : ℕ) (r : Bool)
        → (if r then p else 0) + ((if r then q else 0) + s) ≡ (if r then q + p else 0) + s
    merge p q s true = omega arith
    merge p q s false = omega arith

-- An element that stands in the bucket of one index only is counted there.
pub total-home :
    (y n i home : ℕ) (b : ℕ → List ℕ)
    → ((j : ℕ) → i ≤ j → j < i + n → has y (b j) ≡ true → home ≡ j)
    → total y n i b ≤ (if ltb home i then 0 else count y (b home))
total-home y zero i home b placed = ground arith
total-home y (suc n) i home b placed =
    let rest = total-home y n (i + 1) home b (λ j lo hi. placed j (omega arith) (omega arith)) in
    elim (Bool-cases (i == home)) [
      | inl e ↦
          let same : i ≡ home = ground arith in ground (arith, rest, ap (λ k. count y (b k)) same)
      | inr e ↦ elim (Bool-cases (has y (b i))) [
        | inl it ↦
            let same = placed i (omega arith) (omega arith) it in absurd (ground (arith, same))
        | inr out ↦ ground (arith, rest, count_zero y (b i) out)
      ]
    ]
