-- ===== src/Base/Bits.antt =====
-- The binary digits of native numbers, and what the bitwise operations do to them.
use Prim.Native.Nat.{
  ℕ, zero, suc, ◌+◌, ◌-◌, ◌*◌, ◌/◌, ◌%◌, ◌^◌, ◌≤◌, ◌<◌, min, max, bit_and, bit_or, bit_xor, differ,
  digits, bit_and-bitwise, bit_or-bitwise, bit_xor-bitwise,
}
use mathlib.Core.Path.{◌≡◌, refl, sym, ap, ◌∙◌}
use mathlib.Core.Logic.{◌≢◌}
use native.Mathlib.Nat.{
  pow-succ', one-le-pow, two-pow-succ, div-add-mod, mod-lt, mul-add-mod_self_left, mod-eq_of_lt,
}
use native.Mathlib.Decide.{ℕ_discrete}
use native.Mathlib.Omega.{arith}
use project_pintos.Base.Tests.{◌==◌, if◌then◌else◌}

-- The binary digit of weight 2 ^ k.
abbrev pub bit : ℕ → ℕ → ℕ
bit a zero = a % 2
bit a (suc k) = bit (a / 2) k

pub bit-lt : (a k : ℕ) → bit a k < 2
bit-lt a zero = omega arith
bit-lt a (suc k) = bit-lt (a / 2) k

pub bit-zero : (k : ℕ) → bit 0 k ≡ 0
bit-zero zero = refl
bit-zero (suc k) = bit-zero k

-- An operation on numbers that works digit by digit.
module _ (z : ℕ → ℕ) (f : ℕ → ℕ → ℕ) (small : (p q : ℕ) → p < 2 → q < 2 → f p q < 2)
    (done : (b k : ℕ) → bit (z b) k ≡ f 0 (bit b k)) where
  low : (x p : ℕ) → p < 2 → ((x * 2 + p) / 2 ≡ x) × ((x * 2 + p) % 2 ≡ p)
  low x p h = omega arith

  bit-digits : (n a b k : ℕ) → a ≤ n → bit (digits z f n a b) k ≡ f (bit a k) (bit b k)
  bit-digits zero zero b k h = done b k ∙ ap (λ x. f x (bit b k)) (omega (arith, bit-zero k))
  bit-digits zero (suc a) b k h = absurd (omega (arith, h))
  bit-digits (suc n) zero b k h = done b k ∙ ap (λ x. f x (bit b k)) (omega (arith, bit-zero k))
  bit-digits (suc n) (suc a) b zero h = (low _ _ (small _ _ (omega arith) (omega arith))).1
  bit-digits (suc n) (suc a) b (suc k) h =
      ap (λ x. bit x k) (low _ _ (small (suc a % 2) (b % 2) (omega arith) (omega arith))).0
      ∙ bit-digits n (suc a / 2) (b / 2) k (omega arith)

pub bit-bit_and : (a b k : ℕ) → bit (bit_and a b) k ≡ min (bit a k) (bit b k)
bit-bit_and a b k =
    ap (λ x. bit x k) (bit_and-bitwise a b)
    ∙ bit-digits (λ b. zero) min (λ p q h h'. omega arith) (λ b k. omega (arith, bit-zero k)) a a b
        k (omega arith)

pub bit-bit_or : (a b k : ℕ) → bit (bit_or a b) k ≡ max (bit a k) (bit b k)
bit-bit_or a b k =
    ap (λ x. bit x k) (bit_or-bitwise a b)
    ∙ bit-digits (λ b. b) max (λ p q h h'. omega arith) (λ b k. omega arith) a a b k (omega arith)

differ-lt : (p q : ℕ) → p < 2 → q < 2 → differ p q < 2
differ-lt zero q h h' = h'
differ-lt (suc p) zero h h' = h
differ-lt (suc p) (suc q) h h' = differ-lt p q (omega arith) (omega arith)

pub bit-bit_xor : (a b k : ℕ) → bit (bit_xor a b) k ≡ differ (bit a k) (bit b k)
bit-bit_xor a b k =
    ap (λ x. bit x k) (bit_xor-bitwise a b)
    ∙ bit-digits (λ b. b) differ differ-lt (λ b k. refl) a a b k (omega arith)

-- The powers of two have one digit each.
pub bit-pow : (m k : ℕ) → bit (2 ^ m) k ≡ (if m == k then 1 else 0)
bit-pow zero zero = refl
bit-pow zero (suc k) = bit-zero k ∙ ground arith
bit-pow (suc m) zero = ground (arith, double m)
  where
    double : (m : ℕ) → 2 ^ suc m % 2 ≡ 0
    double m = omega (arith, pow-succ' 2 m)
bit-pow (suc m) (suc k) = ap (λ x. bit x k) (half m) ∙ bit-pow m k ∙ ground arith
  where
    half : (m : ℕ) → 2 ^ suc m / 2 ≡ 2 ^ m
    half m = omega (arith, pow-succ' 2 m)

-- Exchanging the ones and zeros of the low `n` digits.
pub bit-complement : (n x k : ℕ) → x < 2 ^ n → k < n → bit (2 ^ n - 1 - x) k ≡ 1 - bit x k
bit-complement zero x k h lt = absurd (omega (arith, lt))
bit-complement (suc n) x zero h lt = omega (arith, pow-succ' 2 n, one-le-pow n 2 (omega arith))
bit-complement (suc n) x (suc k) h lt =
    ap (λ y. bit y k) (half n x h)
    ∙ bit-complement n (x / 2) k (omega (arith, pow-succ' 2 n)) (omega arith)
  where
    half : (n x : ℕ) → x < 2 ^ suc n → (2 ^ suc n - 1 - x) / 2 ≡ 2 ^ n - 1 - x / 2
    half n x h = omega (arith, pow-succ' 2 n, one-le-pow n 2 (omega arith))

zero_of_bits_fuel : (n x : ℕ) → x ≤ n → ((k : ℕ) → bit x k ≡ 0) → x ≡ 0
zero_of_bits_fuel zero x h e = omega arith
zero_of_bits_fuel (suc n) x h e =
    omega (arith, e 0, zero_of_bits_fuel n (x / 2) (omega arith) (λ k. e (suc k)))

-- Testing a digit by a mask.
pub bit_and_mask : (a m : ℕ) → (bit_and a (2 ^ m) == 0) ≡ (bit a m == 0)
bit_and_mask a m = elim (ℕ_discrete (bit a m) 0) [
  | yes off ↦
      let all_off =
        zero_of_bits_fuel (bit_and a (2 ^ m)) (bit_and a (2 ^ m)) (omega arith)
          (λ k. masked a m k off) in
      ground arith
  | no on ↦
      let some_on : bit (bit_and a (2 ^ m)) m ≢ 0 =
        omega (arith, bit-bit_and a (2 ^ m) m, self m, bit-lt a m) in
      let apart : bit_and a (2 ^ m) ≢ 0 = λ q. some_on (rw q (bit-zero m)) in ground arith
]
  where
    self : (m : ℕ) → bit (2 ^ m) m ≡ 1
    self m = bit-pow m m ∙ ground arith

    masked : (a m k : ℕ) → bit a m ≡ 0 → bit (bit_and a (2 ^ m)) k ≡ 0
    masked a m k off =
        bit-bit_and a (2 ^ m) k
        ∙ rw (bit-pow m k) (elim (ℕ_discrete m k) [
          | yes q ↦ let same : bit a k ≡ 0 = rw (← q) off in ground arith
          | no q ↦ ground arith
        ])

-- Numbers of the same digits are the same.
pub eq_of_bits : (n a b : ℕ) → a < 2 ^ n → b < 2 ^ n → ((k : ℕ) → k < n → bit a k ≡ bit b k) → a ≡ b
eq_of_bits zero a b h h' e = omega arith
eq_of_bits (suc n) a b h h' e = omega (
  arith,
  e 0 (omega arith),
  eq_of_bits n (a / 2) (b / 2) (omega (arith, pow-succ' 2 n)) (omega (arith, pow-succ' 2 n))
      (λ k lt. e (suc k) (omega arith)),
)

half-mod : (a m : ℕ) → 0 < m → (a % (m + m) / 2 ≡ a / 2 % m) × (a % (m + m) % 2 ≡ a % 2)
half-mod a m h =
    let q = a / (m + m) in
    let r = a % (m + m) in
    let whole : (m + m) * q + r ≡ a = div-add-mod a (m + m) in
    let twice : (m + m) * q ≡ m * q + m * q = grind arith in
    let below : r < m + m = mod-lt a (omega arith) in
    let halves : a / 2 ≡ m * q + r / 2 = omega arith in
    let rest : (m * q + r / 2) % m ≡ r / 2 =
      mul-add-mod_self_left m q (r / 2) ∙ mod-eq_of_lt (omega arith) in
    (sym (ap (λ x. x % m) halves ∙ rest), omega arith)

-- The digits of the low part of a number.
pub bit-mod : (n a k : ℕ) → k < n → bit (a % 2 ^ n) k ≡ bit a k
bit-mod zero a k h = absurd (omega (arith, h))
bit-mod (suc n) a zero h = rw (two-pow-succ n) (half-mod a (2 ^ n) (one-le-pow n 2 (omega arith))).1
bit-mod (suc n) a (suc k) h =
    rw (two-pow-succ n, (half-mod a (2 ^ n) (one-le-pow n 2 (omega arith))).0)
      (bit-mod n (a / 2) k (omega arith))

-- A number whose digits are at most those of another is at most that.
le_of_bits : (n a b : ℕ) → a ≤ n → ((k : ℕ) → bit a k ≤ bit b k) → a ≤ b
le_of_bits zero a b h q = omega arith
le_of_bits (suc n) a b h q = elim (ℕ_discrete a 0) [
  | yes z ↦ omega arith
  | no z ↦ omega (arith, le_of_bits n (a / 2) (b / 2) (omega arith) (λ k. q (suc k)), q zero)
]

pub bit_and-le : (a b : ℕ) → bit_and a b ≤ b
bit_and-le a b =
    le_of_bits (bit_and a b) (bit_and a b) b (omega arith) (λ k. omega (arith, bit-bit_and a b k))
