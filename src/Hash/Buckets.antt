-- ===== src/Hash/Buckets.antt =====
-- Which elements the buckets of a hash table hold (lib/kernel/hash.c).
use project_pintos.Base.{
  ℕ, zero, suc, ◌+◌, ◌≤◌, ◌<◌, ◌≡◌, refl, ap, ◌∙◌, ◌==◌, Bool, true, false, ◌&&◌, ◌||◌, inl, inr,
  if◌then◌else◌, List, [], ◌∷◌, arith, Bool-cases,
}
use project_pintos.Hash.{push_front, move_bucket, move_from}

-- An element stands in a list; in one of `n` buckets from `i` on.
abbrev pub has : ℕ → List ℕ → Bool
has y [] = false
has y (x ∷ xs) = x == y || has y xs

abbrev pub any_has : ℕ → ℕ → ℕ → (ℕ → List ℕ) → Bool
any_has y zero i buckets = false
any_has y (suc n) i buckets = has y (buckets i) || any_has y n (i + 1) buckets

-- An element pushed into the bucket of its index.
pub has-push_front :
    (idx : ℕ → ℕ) (e y j : ℕ) (b : ℕ → List ℕ)
    → has y (push_front (idx e) e b j) ≡ ((e == y && idx y == j) || has y (b j))
has-push_front idx e y j b = elim (Bool-cases (e == y)) [
  | inl p ↦ let same : e ≡ y = ground arith in rw same (same_case y)
  | inr p ↦ rw p (other p)
]
  where
    same_case :
        (y : ℕ)
        → has y (if idx y == j then y ∷ b j else b j) ≡ ((y == y && idx y == j) || has y (b j))
    same_case y =
        let self : (y == y) ≡ true = ground arith in
        elim (Bool-cases (idx y == j)) [
          | inl q ↦ rw (self, q) (rw self refl)
          | inr q ↦ rw (self, q) refl
        ]

    other : (e == y) ≡ false → has y (if idx e == j then e ∷ b j else b j) ≡ has y (b j)
    other p = elim (Bool-cases (idx e == j)) [ inl q ↦ rw q (rw p refl) | inr q ↦ rw q refl ]

merge : (p q r s : Bool) → ((p && r) || ((q && r) || s)) ≡ (((q || p) && r) || s)
merge true true true s = refl
merge true true false s = refl
merge true false true s = refl
merge true false false s = refl
merge false true true s = refl
merge false true false s = refl
merge false false r s = refl

has-move_bucket :
    (idx : ℕ → ℕ) (xs : List ℕ) (b : ℕ → List ℕ) (y j : ℕ)
    → has y (move_bucket idx xs b j) ≡ ((has y xs && idx y == j) || has y (b j))
has-move_bucket idx [] b y j = refl
has-move_bucket idx (x ∷ xs) b y j =
    has-move_bucket idx xs (push_front (idx x) x b) y j
    ∙ rw (has-push_front idx x y j b) (merge (has y xs) (x == y) (idx y == j) (has y (b j)))

-- After the move, a bucket holds the elements of the old buckets whose index it has.
pub has-move_from :
    (idx : ℕ → ℕ) (n i : ℕ) (old b : ℕ → List ℕ) (y j : ℕ)
    → has y (move_from idx n i old b j) ≡ ((any_has y n i old && idx y == j) || has y (b j))
has-move_from idx zero i old b y j = refl
has-move_from idx (suc n) i old b y j =
    has-move_from idx n (i + 1) old (move_bucket idx (old i) b) y j
    ∙ rw (has-move_bucket idx (old i) b y j)
        (merge (any_has y n (i + 1) old) (has y (old i)) (idx y == j) (has y (b j)))

-- An element that can only stand in the bucket of one index.
pub any_has_home :
    (y n i home : ℕ) (b : ℕ → List ℕ)
    → ((j : ℕ) → i ≤ j → j < i + n → has y (b j) ≡ true → home ≡ j)
    → any_has y n i b ≡ true
    → (i ≤ home) × (home < i + n) × (has y (b home) ≡ true)
any_has_home y zero i home b placed h = absurd (ground (arith, h))
any_has_home y (suc n) i home b placed h = elim (Bool-cases (has y (b i))) [
  | inl e ↦
      let same = placed i (omega arith) (omega arith) e in
      (omega arith, omega arith, ap (λ k. has y (b k)) same ∙ e)
  | inr e ↦
      let (lo, hi, it) =
        any_has_home y n (i + 1) home b (λ j lo hi. placed j (omega arith) (omega arith))
          (rw e at h) in
      (omega arith, omega arith, it)
]

pub any_has-at :
    (y n i j : ℕ) (b : ℕ → List ℕ) → i ≤ j → j < i + n → has y (b j) ≡ true → any_has y n i b ≡ true
any_has-at y zero i j b lo hi h = absurd (omega (arith, lo, hi))
any_has-at y (suc n) i j b lo hi h = elim (Bool-cases (i == j)) [
  | inl e ↦ let same : i ≡ j = ground arith in rw (same, h) refl
  | inr e ↦ elim (Bool-cases (has y (b i))) [
    | inl p ↦ rw p refl
    | inr p ↦ rw p (any_has-at y n (i + 1) j b (ground arith) (omega arith) h)
  ]
]
