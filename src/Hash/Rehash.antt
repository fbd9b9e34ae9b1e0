-- ===== src/Hash/Rehash.antt =====
-- The number of buckets of a hash table (lib/kernel/hash.c).
use Prim.Native.Nat.{bit_and}
use native.Mathlib.Nat.{pow-succ', one-le-pow}
use native.Mathlib.Decide.{ℕ_discrete}
use project_pintos.Base.{
  ℕ, zero, suc, ◌-◌, ◌/◌, ◌^◌, ◌≤◌, ◌<◌, ◌≡◌, ◌⊎◌, ltb, true, false, inl, inr, if◌then◌else◌, arith,
  Bool-cases,
}
use project_pintos.Base.Bits.{bit, bit_and-le, bit-bit_and, bit-pow}
use project_pintos.Hash.{turn_off_least_1bit, is_power_of_2, power_below, new_bucket_cnt}

turn_off_le : (x : ℕ) → turn_off_least_1bit x ≤ x - 1
unfolding turn_off_least_1bit
turn_off_le x = bit_and-le x (x - 1)

-- A number with `e + 1` digits: the first one is 1, and a number with that digit is at least 2 ^ e.
top_bit : (e x : ℕ) → 2 ^ e ≤ x → x < 2 ^ suc e → bit x e ≡ 1
top_bit zero x low high = omega (arith, low, high)
top_bit (suc e) x low high =
    top_bit e (x / 2) (omega (arith, pow-succ' 2 e)) (omega (arith, pow-succ' 2 (suc e)))

bit_ge : (e x : ℕ) → bit x e ≡ 1 → 2 ^ e ≤ x
bit_ge zero x h = omega arith
bit_ge (suc e) x h = omega (arith, pow-succ' 2 e, bit_ge e (x / 2) h)

above_bits : (e x : ℕ) → x < 2 ^ e → bit x e ≡ 0
above_bits zero x h = omega arith
above_bits (suc e) x h = above_bits e (x / 2) (omega (arith, pow-succ' 2 e))

no_bits : (n x : ℕ) → x ≤ n → ((k : ℕ) → bit x k ≡ 0) → x ≡ 0
no_bits zero x small h = omega arith
no_bits (suc n) x small h =
    let low = h 0 in
    let half = no_bits n (x / 2) (omega arith) (λ k. h (suc k)) in omega (arith, low, half)

has_size : (n x : ℕ) → 0 < x → x ≤ n → (e : ℕ) × (2 ^ e ≤ x) × (x < 2 ^ suc e)
has_size zero x more small = absurd (omega arith)
has_size (suc n) x more small = elim (Bool-cases (ltb x 2)) [
  | inl one ↦ (0, ground arith, ground arith)
  | inr two ↦
      let (e, low, high) = has_size n (x / 2) (ground arith) (omega arith) in
      (suc e, omega (arith, pow-succ' 2 e), omega (arith, pow-succ' 2 (suc e)))
]

-- Without its last digit 1, a number that is no power of 2 keeps its first one, and a power of 2 nothing.
turn_off-keeps : (e x : ℕ) → 2 ^ e < x → x < 2 ^ suc e → 2 ^ e ≤ turn_off_least_1bit x
unfolding turn_off_least_1bit
turn_off-keeps e x low high =
    let first = top_bit e x (omega arith) high in
    let second = top_bit e (x - 1) (omega arith) (omega arith) in
    bit_ge e (bit_and x (x - 1)) (omega (arith, bit-bit_and x (x - 1) e, first, second))

turn_off-pow : (e : ℕ) → turn_off_least_1bit (2 ^ e) ≡ 0
unfolding turn_off_least_1bit
turn_off-pow e = no_bits (bit_and (2 ^ e) (2 ^ e - 1)) _ (omega arith) digit
  where
    digit : (k : ℕ) → bit (bit_and (2 ^ e) (2 ^ e - 1)) k ≡ 0
    digit k = elim (ℕ_discrete e k) [
      | yes q ↦
          let low = above_bits e (2 ^ e - 1) (omega (arith, one-le-pow e 2 (omega arith))) in
          rw (← q) (omega (arith, bit-bit_and (2 ^ e) (2 ^ e - 1) e, low))
      | no ne ↦
          let off : bit (2 ^ e) k ≡ 0 = ground (arith, bit-pow e k) in
          omega (arith, bit-bit_and (2 ^ e) (2 ^ e - 1) k, off)
    ]

-- The test of the loop, on numbers with `e + 1` digits.
power_or_not :
    (e x : ℕ)
    → 2 ^ e ≤ x
    → x < 2 ^ suc e
    → ((x ≡ 2 ^ e) × (is_power_of_2 x ≡ true))
      ⊎ ((is_power_of_2 x ≡ false) × (2 ^ e ≤ turn_off_least_1bit x))
unfolding is_power_of_2
power_or_not e x low high = elim (ℕ_discrete x (2 ^ e)) [
  | yes q ↦
      let off = turn_off-pow e in
      let more = one-le-pow e 2 (omega arith) in inl (q, rw q (ground (arith, off, more)))
  | no ne ↦
      let keeps = turn_off-keeps e x (omega arith) high in
      let more = one-le-pow e 2 (omega arith) in inr (ground (arith, keeps, more), keeps)
]

power_below_lem : (fuel e x : ℕ) → 2 ^ e ≤ x → x < 2 ^ suc e → x ≤ fuel → power_below fuel x ≡ 2 ^ e
unfolding power_below
power_below_lem zero e x low high h = absurd (omega (arith, one-le-pow e 2 (omega arith), low, h))
power_below_lem (suc fuel) e x low high h = elim (power_or_not e x low high) [
  | inl power ↦ rw power.1 power.0
  | inr other ↦
      let less = turn_off_le x in
      let more = one-le-pow e 2 (omega arith) in
      rw other.0
        (power_below_lem fuel e (turn_off_least_1bit x) other.1 (omega arith) (omega arith))
]

-- The loop that chooses the number of buckets ends, in at most as many rounds as the number that it
-- starts from: the result is the greatest power of 2 that is at most the greater of 4 and half the elements.
pub new_bucket_cnt_lem :
    (n : ℕ)
    → (e : ℕ) × (new_bucket_cnt n ≡ 2 ^ e)
      × (2 ^ e ≤ (if ltb (n / 2) 4 then 4 else n / 2))
      × ((if ltb (n / 2) 4 then 4 else n / 2) < 2 ^ suc e)
unfolding new_bucket_cnt
new_bucket_cnt_lem n =
    let enough = if ltb (n / 2) 4 then 4 else n / 2 in
    let (e, low, high) = has_size enough enough (ground arith) (omega arith) in
    (e, power_below_lem enough e enough low high (omega arith), low, high)

-- There is a bucket.
pub new_bucket_cnt_pos : (n : ℕ) → 0 < new_bucket_cnt n
new_bucket_cnt_pos n =
    let (e, same, low, high) = new_bucket_cnt_lem n in
    omega (arith, same, one-le-pow e 2 (omega arith))
