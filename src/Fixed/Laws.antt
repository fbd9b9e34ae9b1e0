-- ===== src/Fixed/Laws.antt =====
-- What the formulas of the advanced scheduler compute: ranges, exactness where no `int` overflows,
-- and how they move with their arguments.
use project_pintos.Base.{◌+◌, ◌*◌, ◌≡◌, refl, ap, some, arith}
use project_pintos.Base.Int.{ℤ, pos, negsuc, ◌-ℤ◌, ◌*ℤ◌, ◌≤ℤ◌, pos_part, neg_part, -ℤ_parts}
use project_pintos.Base.Word.{wrap32, quot_ℤ, IsInt, wrap32-id}
use project_pintos.Fixed.{f_one, int_to_fp, round_toward_zero, fp_sub_fp, fp_mul_int, fp_div_int}
use project_pintos.Fixed.Priority.{pri_min, pri_max, clamp_priority, new_priority}

pub clamp_priority_bounds : (p : ℤ) → (pri_min ≤ℤ clamp_priority p) × (clamp_priority p ≤ℤ pri_max)
unfolding clamp_priority
clamp_priority_bounds (pos n) = ground arith
clamp_priority_bounds (negsuc n) = ground arith

clamp_priority_mono : (p q : ℤ) → p ≤ℤ q → clamp_priority p ≤ℤ clamp_priority q
unfolding clamp_priority
clamp_priority_mono (pos m) (pos n) h = ground arith
clamp_priority_mono (pos m) (negsuc n) h = ground arith
clamp_priority_mono (negsuc m) (pos n) h = ground arith
clamp_priority_mono (negsuc m) (negsuc n) h = ground arith

quot_four_mono : (p q : ℤ) → p ≤ℤ q → quot_ℤ p (pos 4) ≤ℤ quot_ℤ q (pos 4)
unfolding quot_ℤ
quot_four_mono (pos m) (pos n) h = ground arith
quot_four_mono (pos m) (negsuc n) h = ground arith
quot_four_mono (negsuc m) (pos n) h = ground arith
quot_four_mono (negsuc m) (negsuc n) h = ground arith

quot_one_mono : (p q : ℤ) → p ≤ℤ q → quot_ℤ p (pos f_one) ≤ℤ quot_ℤ q (pos f_one)
unfolding quot_ℤ
quot_one_mono (pos m) (pos n) h = ground arith
quot_one_mono (pos m) (negsuc n) h = ground arith
quot_one_mono (negsuc m) (pos n) h = ground arith
quot_one_mono (negsuc m) (negsuc n) h = ground arith

quot_four_bounds :
    (p : ℤ) → IsInt p → (negsuc 536870912 ≤ℤ quot_ℤ p (pos 4)) × (quot_ℤ p (pos 4) ≤ℤ pos 536870912)
unfolding quot_ℤ
quot_four_bounds (pos m) h = ground arith
quot_four_bounds (negsuc m) h = ground arith

quot_one_IsInt : (p : ℤ) → IsInt p → IsInt (quot_ℤ p (pos f_one))
unfolding quot_ℤ
quot_one_IsInt (pos m) h = ground arith
quot_one_IsInt (negsuc m) h = ground arith

scale_one_parts :
    (n : ℤ)
    → pos_part (n *ℤ pos f_one) + neg_part n * 16384
      ≡ neg_part (n *ℤ pos f_one) + pos_part n * 16384
unfolding ◌*ℤ◌
scale_one_parts (pos n) = ground arith
scale_one_parts (negsuc n) = ground arith

scale_two_parts :
    (n : ℤ) → pos_part (n *ℤ pos 2) + neg_part n * 2 ≡ neg_part (n *ℤ pos 2) + pos_part n * 2
unfolding ◌*ℤ◌
scale_two_parts (pos n) = ground arith
scale_two_parts (negsuc n) = ground arith

-- The nice values that thread.h allows.
abbrev pub IsNice : ℤ → Type 0
IsNice n = (negsuc 19 ≤ℤ n) × (n ≤ℤ pos 20)

-- The value before the clamp, without any wrap: `63 - recent_cpu / 4 - nice * 2` in fixed point.
abbrev pub level : ℤ → ℤ → ℤ
level recent_cpu nice = pos 1032192 -ℤ quot_ℤ recent_cpu (pos 4) -ℤ nice *ℤ pos f_one *ℤ pos 2

ruleset parts = (arith, -ℤ_parts, scale_one_parts, scale_two_parts, quot_four_bounds)

nice_exact : (n : ℤ) → IsNice n → fp_mul_int (int_to_fp n) (pos 2) ≡ n *ℤ pos f_one *ℤ pos 2
unfolding fp_mul_int int_to_fp
nice_exact n h = rw (wrap32-id (n *ℤ pos f_one) (omega parts)) (wrap32-id _ (omega parts))

max_exact : int_to_fp pri_max ≡ pos 1032192
unfolding int_to_fp wrap32 ◌*ℤ◌
max_exact = refl

level_exact :
    (r n : ℤ)
    → IsInt r
    → IsNice n
    → fp_sub_fp
        (fp_sub_fp (int_to_fp pri_max) (quot_ℤ r (pos 4)))
        (fp_mul_int (int_to_fp n) (pos 2))
      ≡ level r n
unfolding fp_sub_fp
level_exact r n h k =
    rw
      (
        max_exact,
        nice_exact n k,
        wrap32-id (pos 1032192 -ℤ quot_ℤ r (pos 4)) (omega (parts, quot_four_bounds r h)),
      )
      (wrap32-id _ (omega (parts, quot_four_bounds r h)))

level-IsInt : (r n : ℤ) → IsInt r → IsNice n → IsInt (level r n)
level-IsInt r n h k = omega (parts, quot_four_bounds r h)

level_antitone : (r r' n n' : ℤ) → r ≤ℤ r' → n ≤ℤ n' → level r' n' ≤ℤ level r n
level_antitone r r' n n' h k = omega (parts, quot_four_mono r r' h)

quarter_exact : (r : ℤ) → IsInt r → fp_div_int r (pos 4) ≡ some (quot_ℤ r (pos 4))
unfolding fp_div_int
quarter_exact r h = ap some (wrap32-id _ (omega (parts, quot_four_bounds r h)))

-- What `new_priority` returns where the recent CPU use is an `int` and the nice value is legal: no
-- step overflows, and the result is `63 - recent_cpu / 4 - nice * 2`, rounded toward zero and clamped.
pub new_priority-exact :
    (r n : ℤ)
    → IsInt r
    → IsNice n
    → new_priority r n ≡ some (clamp_priority (quot_ℤ (level r n) (pos f_one)))
unfolding new_priority round_toward_zero
new_priority-exact r n h k =
    rw (quarter_exact r h)
      (rw (level_exact r n h k, wrap32-id _ (quot_one_IsInt (level r n) (level-IsInt r n h k))))

-- The priority is always within PRI_MIN and PRI_MAX, and it falls, weakly, when the recent CPU use
-- or the nice value grows.
pub new_priority_antitone :
    (r r' n n' : ℤ)
    → IsInt r
    → IsInt r'
    → IsNice n
    → IsNice n'
    → r ≤ℤ r'
    → n ≤ℤ n'
    → (p : ℤ) × (p' : ℤ) × (new_priority r n ≡ some p)
      × (new_priority r' n' ≡ some p')
      × (p' ≤ℤ p)
      × (pri_min ≤ℤ p')
      × (p ≤ℤ pri_max)
new_priority_antitone r r' n n' h h' k k' lr ln = (
  _,
  _,
  new_priority-exact r n h k,
  new_priority-exact r' n' h' k',
  clamp_priority_mono _ _ (quot_one_mono _ _ (level_antitone r r' n n' lr ln)),
  (clamp_priority_bounds _).0,
  (clamp_priority_bounds _).1,
)
