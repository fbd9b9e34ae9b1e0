-- ===== src/Base/Word.antt =====
-- The C types `int` and `int64_t`: integers with the wrap-around of 32 bits written out, and the
-- division of C, which rounds toward zero.
use project_pintos.Base.{suc, ◌-◌, ◌/◌, ◌%◌, ◌^◌, ◌≡◌, arith, ltb, if◌then◌else◌}
use project_pintos.Base.Int.{ℤ, pos, negsuc, sub_ℕ, ◌≤ℤ◌}

-- The value of an `int` that is given the integer: its residue modulo 2 ^ 32 in the signed range.
unfoldable pub wrap32 : ℤ → ℤ
wrap32 (pos n) = let m = n % 2 ^ 32 in if ltb m (2 ^ 31) then pos m else negsuc (2 ^ 32 - 1 - m)
wrap32 (negsuc n) = let m = n % 2 ^ 32 in if ltb m (2 ^ 31) then negsuc m else pos (2 ^ 32 - 1 - m)

-- The signed range of 32 bits.
abbrev pub IsInt : ℤ → Type 0
IsInt z = (negsuc (2 ^ 31 - 1) ≤ℤ z) × (z ≤ℤ pos (2 ^ 31 - 1))

unfoldable pub quot_ℤ : ℤ → ℤ → ℤ
quot_ℤ (pos a) (pos b) = pos (a / b)
quot_ℤ (pos a) (negsuc b) = sub_ℕ 0 (a / suc b)
quot_ℤ (negsuc a) (pos b) = sub_ℕ 0 (suc a / b)
quot_ℤ (negsuc a) (negsuc b) = pos (suc a / suc b)

pub wrap32-id : (z : ℤ) → IsInt z → wrap32 z ≡ z
unfolding wrap32
wrap32-id (pos n) h = ground arith
wrap32-id (negsuc n) h = ground arith

pub wrap32-IsInt : (z : ℤ) → IsInt (wrap32 z)
unfolding wrap32
wrap32-IsInt (pos n) = ground arith
wrap32-IsInt (negsuc n) = ground arith
