-- ===== src/Bitmap/Ranges.antt =====
-- The operations of lib/kernel/bitmap.c on ranges of bits, and the search for a group.
use project_pintos.Base.{
  ℕ, zero, suc, ◌+◌, ◌%◌, ◌^◌, ◌≤◌, ◌<◌, ◌≡◌, ◌⊎◌, inl, inr, refl, sym, ap, ◌∙◌, ◌==◌, ltb, leb,
  Bool, true, false, not, ◌&&◌, if◌then◌else◌, Option, some, arith, Bool-cases,
}
use project_pintos.Sched.{◌>>=◌, ◌>>◌}
use project_pintos.Bitmap.{
  Bitmap, same, check_range, set_from, bitmap_set_multiple, contains_from, bitmap_contains,
  bitmap_all,
}
use project_pintos.Bitmap.View.{bit_at, IsBitmap, bitmap_set_lem, bitmap_test_lem}

pub check_range_lem :
    (start cnt : ℕ) (b : Bitmap)
    → IsBitmap b
    → start + cnt ≤ b.bit_cnt
    → check_range start cnt b ≡ some tt
unfolding check_range
check_range_lem start cnt b v h =
    let fits : (start + cnt) % 2 ^ 32 ≡ start + cnt = omega (arith, v.small) in ground arith

set_from_lem :
    (n i : ℕ) (value : Bool) (b : Bitmap)
    → IsBitmap b
    → i + n ≤ b.bit_cnt
    → (b' : Bitmap) × (set_from n i value b ≡ some b')
      × IsBitmap b'
      × (b'.bit_cnt ≡ b.bit_cnt)
      × ((j : ℕ) → bit_at b' j ≡ (if leb i j && ltb j (i + n) then value else bit_at b j))
unfolding set_from
set_from_lem zero i value b v h = (b, refl, v, refl, λ j. ground arith)
set_from_lem (suc n) i value b v h =
    let (b', sets, v', size, bits) = bitmap_set_lem i value b v (omega arith) in
    let (b'', rest, v'', size', bits') = set_from_lem n (i + 1) value b' v' (omega (arith, size)) in
    (b'', rw (sets, ◌>>=◌) rest, v'', size' ∙ size, λ j. bits' j ∙ rw (bits j) (ground arith))

-- `bitmap_set_multiple` of a range within the bitmap sets the bits of the range and no other.
pub bitmap_set_multiple_lem :
    (start cnt : ℕ) (value : Bool) (b : Bitmap)
    → IsBitmap b
    → start + cnt ≤ b.bit_cnt
    → (b' : Bitmap) × (bitmap_set_multiple start cnt value b ≡ some b')
      × IsBitmap b'
      × (b'.bit_cnt ≡ b.bit_cnt)
      × ((j : ℕ) → bit_at b' j ≡ (if leb start j && ltb j (start + cnt) then value else bit_at b j))
unfolding bitmap_set_multiple
bitmap_set_multiple_lem start cnt value b v h =
    let (b', sets, v', size, bits) = set_from_lem cnt start value b v h in
    (b', rw (check_range_lem start cnt b v h, ◌>>◌, ◌>>=◌) sets, v', size, bits)

-- All bits of a range have a value; some bit of it has the other one.
abbrev pub IsRun : Bitmap → ℕ → ℕ → Bool → Type 0
IsRun b i n value = (j : ℕ) → i ≤ j → j < i + n → bit_at b j ≡ value

abbrev pub IsBroken : Bitmap → ℕ → ℕ → Bool → Type 0
IsBroken b i n value = (j : ℕ) × (i ≤ j) × (j < i + n) × (bit_at b j ≡ not value)

same_true : (t v : Bool) → same t v ≡ true → t ≡ v
same_true true v h = sym h
same_true false true h = cc
same_true false false h = refl

same_false : (t v : Bool) → same t v ≡ false → t ≡ not v
same_false true true h = cc
same_false true false h = refl
same_false false true h = refl
same_false false false h = cc

contains_from_lem :
    (n i : ℕ) (value : Bool) (b : Bitmap)
    → i + n ≤ b.bit_cnt
    → ((contains_from n i value b ≡ some true) × IsBroken b i n (not value))
      ⊎ ((contains_from n i value b ≡ some false) × IsRun b i n (not value))
unfolding contains_from
contains_from_lem zero i value b h = inr (refl, λ j lo hi. absurd (omega (arith, lo, hi)))
contains_from_lem (suc n) i value b h = elim (Bool-cases (same (bit_at b i) value)) [
  | inl e ↦ inl (
    rw (bitmap_test_lem i b (omega arith), ◌>>=◌, e) refl,
    (i, omega arith, omega arith, same_true _ _ e ∙ sym (not_not value)),
  )
  | inr e ↦ elim (contains_from_lem n (i + 1) value b (omega arith)) [
    | inl (r, (j, lo, hi, q)) ↦
        inl (rw (bitmap_test_lem i b (omega arith), ◌>>=◌, e) r, (j, omega arith, omega arith, q))
    | inr (r, run) ↦ inr (
      rw (bitmap_test_lem i b (omega arith), ◌>>=◌, e) r,
      λ j lo hi. elim (Bool-cases (i == j)) [
        | inl q ↦ let at : i ≡ j = ground arith in rw (← at) (same_false _ _ e)
        | inr q ↦ run j (ground arith) (omega arith)
      ],
    )
  ]
]
  where
    not_not : (v : Bool) → not (not v) ≡ v
    not_not true = refl
    not_not false = refl

pub bitmap_contains_lem :
    (start cnt : ℕ) (value : Bool) (b : Bitmap)
    → IsBitmap b
    → start + cnt ≤ b.bit_cnt
    → ((bitmap_contains start cnt value b ≡ some true) × IsBroken b start cnt (not value))
      ⊎ ((bitmap_contains start cnt value b ≡ some false) × IsRun b start cnt (not value))
unfolding bitmap_contains
bitmap_contains_lem start cnt value b v h =
    rw (check_range_lem start cnt b v h, ◌>>◌, ◌>>=◌) (contains_from_lem cnt start value b h)

pub bitmap_all_lem :
    (start cnt : ℕ) (b : Bitmap) (found : Bool)
    → bitmap_contains start cnt false b ≡ some found
    → bitmap_all start cnt b ≡ some (not found)
unfolding bitmap_all
bitmap_all_lem start cnt b found r = ap (λ (o : Option Bool). o >>= λ f. some (not f)) r

-- `bitmap_all` of a range of ones is true.
pub bitmap_all-IsRun :
    (start cnt : ℕ) (b : Bitmap)
    → IsBitmap b
    → start + cnt ≤ b.bit_cnt
    → IsRun b start cnt true
    → bitmap_all start cnt b ≡ some true
bitmap_all-IsRun start cnt b v h run = elim (bitmap_contains_lem start cnt false b v h) [
  | inl (r, (j, lo, hi, q)) ↦ absurd (apart (sym (run j lo hi) ∙ q))
  | inr (r, all) ↦ bitmap_all_lem start cnt b false r
]
  where
    apart : true ≡ not (not false) → ⊥
    apart h = cc
