-- ===== src/Bitmap/View.antt =====
-- A bitmap as the set of its bits, and what the operations on one bit do to it.
use Prim.Native.Nat.{bit_and, bit_or, bit_xor, differ}
use native.Mathlib.Nat.{pow-le-pow_right}
use native.Mathlib.Decide.{ℕ_discrete}
use project_pintos.Base.{
  ℕ, zero, suc, ◌-◌, ◌/◌, ◌%◌, ◌^◌, ◌≤◌, ◌<◌, ◌≡◌, refl, ◌∙◌, ◌==◌, Bool, true, false, not,
  if◌then◌else◌, some, length, get_or, length-set, get_or-set_self, get_or-set_ne, arith,
}
use project_pintos.Base.Bits.{
  bit, bit-lt, bit-bit_and, bit-bit_or, bit-bit_xor, bit-pow, bit-complement, bit_and_mask,
}
use project_pintos.Bitmap.{
  Bitmap, update_elem, elem_cnt, bitmap_mark, bitmap_reset, bitmap_flip, bitmap_set, bitmap_test,
}

-- The bit numbered `i`.
abbrev pub bit_at : Bitmap → ℕ → Bool
bit_at b i = not (bit (get_or b.bits (i / 32) 0) (i % 32) == 0)

-- There is storage for all bits, and their number is a `size_t`.
pub record IsBitmap (b : Bitmap) : Type 0 where
  pub storage : length b.bits ≡ elem_cnt b.bit_cnt
  pub small : b.bit_cnt < 2 ^ 32

bit_at_update :
    (b : Bitmap) (idx : ℕ) (f : ℕ → ℕ) (j : ℕ)
    → idx < length b.bits
    → bit_at (update_elem b idx f) j
      ≡ (if idx == j / 32 then not (bit (f (get_or b.bits idx 0)) (j % 32) == 0) else bit_at b j)
bit_at_update b idx f j h = elim (ℕ_discrete idx (j / 32)) [
  | yes q ↦ rw (← q, get_or-set_self b.bits idx (f (get_or b.bits idx 0)) 0 h) (ground arith)
  | no q ↦ rw (get_or-set_ne b.bits idx (j / 32) (f (get_or b.bits idx 0)) 0 q) (ground arith)
]

pub idx_in : (b : Bitmap) (i : ℕ) → IsBitmap b → i < b.bit_cnt → i / 32 < length b.bits
unfolding elem_cnt
idx_in b i v h = omega (arith, v.storage)

word_mask : (m : ℕ) → m < 32 → 2 ^ m < 2 ^ 32
word_mask m h =
    let top : m ≤ 31 = omega arith in
    let le : 2 ^ m ≤ 2 ^ 31 = pow-le-pow_right {n = 2} (omega arith) {j = 31} top in omega arith

flip_digit :
    (x : ℕ) (c : Bool)
    → x < 2
    → not (differ x (if c then 1 else 0) == 0) ≡ (if c then x == 0 else not (x == 0))
flip_digit zero true h = refl
flip_digit zero false h = refl
flip_digit (suc zero) true h = refl
flip_digit (suc zero) false h = refl
flip_digit (suc (suc x)) c h = absurd (omega arith)

module _ (b : Bitmap) (i j : ℕ) (v : IsBitmap b) (h : i < b.bit_cnt) where
  bit_at-bitmap_mark : bit_at (bitmap_mark i b) j ≡ (if i == j then true else bit_at b j)
  unfolding bitmap_mark
  bit_at-bitmap_mark =
      let e = get_or b.bits (i / 32) 0 in
      bit_at_update b (i / 32) (λ e. bit_or e (2 ^ (i % 32))) j (idx_in b i v h)
      ∙ rw (bit-bit_or e (2 ^ (i % 32)) (j % 32), bit-pow (i % 32) (j % 32))
          (ground (arith, bit-lt e (j % 32)))

  bit_at-bitmap_reset : bit_at (bitmap_reset i b) j ≡ (if i == j then false else bit_at b j)
  unfolding bitmap_reset
  bit_at-bitmap_reset =
      let e = get_or b.bits (i / 32) 0 in
      let in_word : 2 ^ (i % 32) < 2 ^ 32 = word_mask (i % 32) (omega arith) in
      bit_at_update b (i / 32) (λ e. bit_and e (2 ^ 32 - 1 - 2 ^ (i % 32))) j (idx_in b i v h)
      ∙ rw
          (
            bit-bit_and e (2 ^ 32 - 1 - 2 ^ (i % 32)) (j % 32),
            bit-complement 32 (2 ^ (i % 32)) (j % 32) in_word (omega arith),
            bit-pow (i % 32) (j % 32),
          )
          (ground (arith, bit-lt e (j % 32)))

  -- `bitmap_flip` turns the bit numbered `i` and no other.
  pub bit_at-bitmap_flip :
      bit_at (bitmap_flip i b) j ≡ (if i == j then not (bit_at b i) else bit_at b j)
  unfolding bitmap_flip
  bit_at-bitmap_flip =
      let e = get_or b.bits (i / 32) 0 in
      bit_at_update b (i / 32) (λ e. bit_xor e (2 ^ (i % 32))) j (idx_in b i v h)
      ∙ rw
          (
            bit-bit_xor e (2 ^ (i % 32)) (j % 32),
            bit-pow (i % 32) (j % 32),
            flip_digit (bit e (j % 32)) (i % 32 == j % 32) (bit-lt e (j % 32)),
          )
          (elim (ℕ_discrete i j) [ yes q ↦ rw (← q) (ground arith) | no q ↦ ground arith ])

-- `bitmap_set` changes one bit.
pub bitmap_set_lem :
    (i : ℕ) (value : Bool) (b : Bitmap)
    → IsBitmap b
    → i < b.bit_cnt
    → (b' : Bitmap) × (bitmap_set i value b ≡ some b')
      × IsBitmap b'
      × (b'.bit_cnt ≡ b.bit_cnt)
      × ((j : ℕ) → bit_at b' j ≡ (if i == j then value else bit_at b j))
unfolding bitmap_set
bitmap_set_lem i true b v h = (
  bitmap_mark i b,
  ground arith,
  record { storage = length-set b.bits _ _ ∙ v.storage; small = v.small },
  refl,
  λ j. bit_at-bitmap_mark b i j v h,
)
bitmap_set_lem i false b v h = (
  bitmap_reset i b,
  ground arith,
  record { storage = length-set b.bits _ _ ∙ v.storage; small = v.small },
  refl,
  λ j. bit_at-bitmap_reset b i j v h,
)

pub bitmap_test_lem : (i : ℕ) (b : Bitmap) → i < b.bit_cnt → bitmap_test i b ≡ some (bit_at b i)
unfolding bitmap_test
bitmap_test_lem i b h = rw (bit_and_mask (get_or b.bits (i / 32) 0) (i % 32)) (ground arith)
