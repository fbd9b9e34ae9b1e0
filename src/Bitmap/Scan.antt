-- ===== src/Bitmap/Scan.antt =====
-- The search of lib/kernel/bitmap.c for a group of equal bits.
use project_pintos.Base.{
  ℕ, zero, suc, ◌+◌, ◌-◌, ◌^◌, ◌≤◌, ◌<◌, ◌≡◌, inl, inr, refl, ap, ◌∙◌, ◌==◌, ltb, leb, Bool, true,
  false, not, ◌&&◌, if◌then◌else◌, List, Option, none, some, length, arith, Bool-cases,
}
use project_pintos.Sched.{◌>>=◌, ◌>>◌}
use project_pintos.Bitmap.{
  Bitmap, elem_cnt, scan_from, bitmap_scan, bitmap_scan_and_flip, bitmap_create, bitmap_set_all,
  bitmap_size,
}
use project_pintos.Bitmap.View.{bit_at, IsBitmap}
use project_pintos.Bitmap.Ranges.{IsRun, IsBroken, bitmap_contains_lem, bitmap_set_multiple_lem}

-- What a search from `start` on finds: the first group of `cnt` bits of the value, or none, where
-- there is no such group.
pub data Found (b : Bitmap) (start cnt : ℕ) (value : Bool) : Option ℕ → Type 0 where
  first :
      (i : ℕ)
      → start ≤ i
      → i + cnt ≤ b.bit_cnt
      → IsRun b i cnt value
      → ((k : ℕ) → start ≤ k → k < i → IsBroken b k cnt value)
      → Found b start cnt value (some i)
  nowhere :
      ((k : ℕ) → start ≤ k → k + cnt ≤ b.bit_cnt → IsBroken b k cnt value)
      → Found b start cnt value none

not-not : (v : Bool) → not (not v) ≡ v
not-not true = refl
not-not false = refl

from_next :
    (b : Bitmap) (i m cnt : ℕ) (value : Bool)
    → IsBroken b i cnt value
    → (i + 1 ≤ m → IsBroken b m cnt value)
    → i ≤ m
    → IsBroken b m cnt value
from_next b i m cnt value broken later p = elim (Bool-cases (i == m)) [
  | inl e ↦ let at : i ≡ m = ground arith in rw (← at) broken
  | inr e ↦ later (ground arith)
]

-- A group that does not begin at `i` is found from the next bit on.
further :
    (i cnt : ℕ) (value : Bool) (b : Bitmap)
    → IsBroken b i cnt value
    → {o : Option ℕ} → Found b (i + 1) cnt value o
    → Found b i cnt value o
further i cnt value b broken (first k lo hi run before) =
    first k (omega arith) hi run (λ m p q. from_next b i m cnt value broken (λ p'. before m p' q) p)
further i cnt value b broken (nowhere all) =
    nowhere (λ m p q. from_next b i m cnt value broken (λ p'. all m p' q) p)

scan_from_lem :
    (n i cnt : ℕ) (value : Bool) (b : Bitmap)
    → IsBitmap b
    → cnt ≤ b.bit_cnt
    → n ≡ b.bit_cnt - cnt + 1 - i
    → (o : Option ℕ) × (scan_from n i cnt value b ≡ some o) × Found b i cnt value o
unfolding scan_from
scan_from_lem zero i cnt value b v fits e =
    (none, refl, nowhere (λ k lo hi. absurd (omega (arith, e, lo, hi))))
scan_from_lem (suc n) i cnt value b v fits e =
    elim (bitmap_contains_lem i cnt (not value) b v (omega arith)) [
      | inr (r, run) ↦ (
        some i,
        rw (r, ◌>>=◌) refl,
        first i (omega arith) (omega arith) (λ j lo hi. run j lo hi ∙ not-not value)
            (λ k lo hi. absurd (omega (arith, lo, hi))),
      )
      | inl (r, (j, lo, hi, q)) ↦
          let broken : IsBroken b i cnt value = (j, lo, hi, q ∙ ap not (not-not value)) in
          let (o, runs, found) = scan_from_lem n (i + 1) cnt value b v fits (omega arith) in
          (o, rw (r, ◌>>=◌) runs, further i cnt value b broken found)
    ]

-- `bitmap_scan` from an index within the bitmap returns the first group, or BITMAP_ERROR where there
-- is none.
pub bitmap_scan_lem :
    (start cnt : ℕ) (value : Bool) (b : Bitmap)
    → IsBitmap b
    → start ≤ b.bit_cnt
    → (o : Option ℕ) × (bitmap_scan start cnt value b ≡ some o) × Found b start cnt value o
unfolding bitmap_scan
bitmap_scan_lem start cnt value b v h = elim (Bool-cases (leb cnt b.bit_cnt)) [
  | inl fits ↦
      let (o, runs, found) =
        scan_from_lem (b.bit_cnt - cnt + 1 - start) start cnt value b v (ground arith) refl in
      let inside : leb start b.bit_cnt ≡ true = ground arith in
      (o, rw (inside, ◌>>◌, ◌>>=◌, fits) runs, found)
  | inr large ↦
      let inside : leb start b.bit_cnt ≡ true = ground arith in
      (none, rw (inside, ◌>>◌, ◌>>=◌, large) refl, nowhere (λ k lo hi. absurd (ground (arith, hi))))
]

-- What `bitmap_scan_and_flip` leaves: the group that it found is turned, and no other bit.
abbrev pub Flipped : Bitmap → ℕ → Bool → Option ℕ → Bitmap → Type 0
Flipped b cnt value none b' = b' ≡ b
Flipped b cnt value (some i) b' =
    (b'.bit_cnt ≡ b.bit_cnt)
    × ((j : ℕ) → bit_at b' j ≡ (if leb i j && ltb j (i + cnt) then not value else bit_at b j))

-- `bitmap_scan_and_flip` from an index within the bitmap turns the bits of the first group and no
-- other bit, and returns the group; where there is none it changes nothing.
pub bitmap_scan_and_flip_lem :
    (start cnt : ℕ) (value : Bool) (b : Bitmap)
    → IsBitmap b
    → start ≤ b.bit_cnt
    → (o : Option ℕ) × (b' : Bitmap) × (bitmap_scan_and_flip start cnt value b ≡ some (o, b'))
      × IsBitmap b'
      × Found b start cnt value o
      × Flipped b cnt value o b'
unfolding bitmap_scan_and_flip
bitmap_scan_and_flip_lem start cnt value b v h =
    let (o, scans, found) = bitmap_scan_lem start cnt value b v h in by_result found scans
  where
    by_result :
        {o : Option ℕ}
        → Found b start cnt value o
        → bitmap_scan start cnt value b ≡ some o
        → (o : Option ℕ) × (b' : Bitmap) × (bitmap_scan_and_flip start cnt value b ≡ some (o, b'))
          × IsBitmap b'
          × Found b start cnt value o
          × Flipped b cnt value o b'
    by_result (nowhere all) q = (none, b, rw (q, ◌>>=◌) refl, v, nowhere all, refl)
    by_result (first i lo hi run before) q =
        let (b', sets, v', size, bits) = bitmap_set_multiple_lem i cnt (not value) b v hi in
        (
          some i,
          b',
          rw (q, ◌>>=◌) (rw (sets, ◌>>=◌) refl),
          v',
          first i lo hi run before,
          (size, bits),
        )

-- `bitmap_create` of fewer than 2 ^ 32 bits, where the memory is there: all bits are off.
pub bitmap_create_lem :
    (elems : List ℕ) (bit_cnt : ℕ)
    → length elems ≡ elem_cnt bit_cnt
    → bit_cnt < 2 ^ 32
    → (b : Bitmap) × (bitmap_create true (some elems) bit_cnt ≡ some (some b))
      × IsBitmap b
      × (b.bit_cnt ≡ bit_cnt)
      × IsRun b 0 bit_cnt false
unfolding bitmap_create bitmap_set_all bitmap_size
bitmap_create_lem elems bit_cnt e small =
    let start : Bitmap = record { bit_cnt = bit_cnt; bits = elems } in
    let (b, sets, v, size, bits) =
      bitmap_set_multiple_lem 0 bit_cnt false start (record { storage = e; small = small })
        (omega arith) in
    (b, rw (sets, ◌>>=◌) refl, v, size, λ j lo hi. bits j ∙ ground arith)
