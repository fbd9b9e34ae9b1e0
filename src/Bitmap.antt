-- ===== src/Bitmap.antt =====
-- lib/kernel/bitmap.c: an array of bits in 32-bit elements. `none` is a failed ASSERT; what `malloc`
-- returns is an argument. Sizes and indexes are `size_t`, which wraps at 2 ^ 32.
pub mod View
pub mod Ranges
pub mod Scan
pub mod Storage
use Prim.Native.Nat.{bit_and, bit_or, bit_xor}
use project_pintos.Base.{
  ℕ, zero, suc, ◌+◌, ◌-◌, ◌*◌, ◌/◌, ◌%◌, ◌^◌, ◌==◌, ltb, leb, Bool, true, false, not, ◌&&◌, ◌||◌,
  if◌then◌else◌, List, [], ◌∷◌, ◌++◌, Option, none, some, length, take, drop, get_or, set,
}
use project_pintos.Sched.{◌>>=◌, ◌>>◌, assert}
use project_pintos.Inode.{Disk, Inode}
use project_pintos.File.{File, file_read_at, file_write_at}

abbrev pub elem_bits : ℕ
elem_bits = 32

-- `struct bitmap`.
pub record Bitmap : Type 0 where
  pub bit_cnt : ℕ
  pub bits : List ℕ

unfoldable pub elem_idx : ℕ → ℕ
elem_idx bit_idx = bit_idx / elem_bits

unfoldable pub bit_mask : ℕ → ℕ
bit_mask bit_idx = 2 ^ (bit_idx % elem_bits)

unfoldable pub elem_cnt : ℕ → ℕ
elem_cnt bit_cnt = (bit_cnt + (elem_bits - 1)) / elem_bits

unfoldable pub byte_cnt : ℕ → ℕ
unfolding elem_cnt
byte_cnt bit_cnt = 4 * elem_cnt bit_cnt

unfoldable pub last_mask : Bitmap → ℕ
last_mask b =
    let last_bits = b.bit_cnt % elem_bits in
    if last_bits == 0 then 2 ^ 32 - 1 else 2 ^ last_bits - 1

unfoldable pub bitmap_size : Bitmap → ℕ
bitmap_size b = b.bit_cnt

-- One element of `bits` is replaced.
abbrev pub update_elem : Bitmap → ℕ → (ℕ → ℕ) → Bitmap
update_elem b idx f = record b { bits = set b.bits idx (f (get_or b.bits idx 0)) }

unfoldable pub bitmap_mark : ℕ → Bitmap → Bitmap
unfolding elem_idx bit_mask
bitmap_mark bit_idx b = update_elem b (elem_idx bit_idx) (λ e. bit_or e (bit_mask bit_idx))

-- `~mask` on 32 bits.
unfoldable pub bitmap_reset : ℕ → Bitmap → Bitmap
unfolding elem_idx bit_mask
bitmap_reset bit_idx b =
    update_elem b (elem_idx bit_idx) (λ e. bit_and e (2 ^ 32 - 1 - bit_mask bit_idx))

unfoldable pub bitmap_flip : ℕ → Bitmap → Bitmap
unfolding elem_idx bit_mask
bitmap_flip bit_idx b = update_elem b (elem_idx bit_idx) (λ e. bit_xor e (bit_mask bit_idx))

unfoldable pub bitmap_set : ℕ → Bool → Bitmap → Option Bitmap
unfolding bitmap_mark bitmap_reset
bitmap_set idx value b = do
  assert (ltb idx b.bit_cnt)
  some (if value then bitmap_mark idx b else bitmap_reset idx b)

unfoldable pub bitmap_test : ℕ → Bitmap → Option Bool
unfolding elem_idx bit_mask
bitmap_test idx b = do
  assert (ltb idx b.bit_cnt)
  some (not (bit_and (get_or b.bits (elem_idx idx) 0) (bit_mask idx) == 0))

-- The ASSERTs on a range.
unfoldable pub check_range : ℕ → ℕ → Bitmap → Option (Unit {0})
check_range start cnt b = do
  assert (leb start b.bit_cnt)
  assert (leb ((start + cnt) % 2 ^ 32) b.bit_cnt)

-- The loop of `bitmap_set_multiple` from `i` on, with `n` rounds left.
unfoldable pub set_from : ℕ → ℕ → Bool → Bitmap → Option Bitmap
unfolding bitmap_set
set_from zero i value b = some b
set_from (suc n) i value b = do b' ← bitmap_set i value b; set_from n (i + 1) value b'

unfoldable pub bitmap_set_multiple : ℕ → ℕ → Bool → Bitmap → Option Bitmap
unfolding check_range set_from
bitmap_set_multiple start cnt value b = do check_range start cnt b; set_from cnt start value b

unfoldable pub bitmap_set_all : Bool → Bitmap → Option Bitmap
unfolding bitmap_set_multiple bitmap_size
bitmap_set_all value b = bitmap_set_multiple 0 (bitmap_size b) value b

-- `a == b` on `bool`.
abbrev pub same : Bool → Bool → Bool
same true b = b
same false b = not b

-- The loop of `bitmap_count`.
unfoldable pub count_from : ℕ → ℕ → Bool → Bitmap → Option ℕ
unfolding bitmap_test
count_from zero i value b = some 0
count_from (suc n) i value b = do
  t ← bitmap_test i b
  rest ← count_from n (i + 1) value b
  some (if same t value then suc rest else rest)

unfoldable pub bitmap_count : ℕ → ℕ → Bool → Bitmap → Option ℕ
unfolding check_range count_from
bitmap_count start cnt value b = do check_range start cnt b; count_from cnt start value b

-- The loop of `bitmap_contains`.
unfoldable pub contains_from : ℕ → ℕ → Bool → Bitmap → Option Bool
unfolding bitmap_test
contains_from zero i value b = some false
contains_from (suc n) i value b = do
  t ← bitmap_test i b
  let rest = contains_from n (i + 1) value b
  if same t value then some true else rest

unfoldable pub bitmap_contains : ℕ → ℕ → Bool → Bitmap → Option Bool
unfolding check_range contains_from
bitmap_contains start cnt value b = do check_range start cnt b; contains_from cnt start value b

unfoldable pub bitmap_any : ℕ → ℕ → Bitmap → Option Bool
unfolding bitmap_contains
bitmap_any start cnt b = bitmap_contains start cnt true b

unfoldable pub bitmap_none : ℕ → ℕ → Bitmap → Option Bool
unfolding bitmap_contains
bitmap_none start cnt b = do found ← bitmap_contains start cnt true b; some (not found)

unfoldable pub bitmap_all : ℕ → ℕ → Bitmap → Option Bool
unfolding bitmap_contains
bitmap_all start cnt b = do found ← bitmap_contains start cnt false b; some (not found)

-- The loop of `bitmap_scan` from `i` on, with `n` rounds left; `some none` stands for BITMAP_ERROR.
unfoldable pub scan_from : ℕ → ℕ → ℕ → Bool → Bitmap → Option (Option ℕ)
unfolding bitmap_contains
scan_from zero i cnt value b = some none
scan_from (suc n) i cnt value b = do
  found ← bitmap_contains i cnt (not value) b
  let rest = scan_from n (i + 1) cnt value b
  if found then rest else some (some i)

-- `bitmap_scan`: the loop runs from `start` to `last`.
unfoldable pub bitmap_scan : ℕ → ℕ → Bool → Bitmap → Option (Option ℕ)
unfolding scan_from
bitmap_scan start cnt value b = do
  assert (leb start b.bit_cnt)
  if leb cnt b.bit_cnt
      then (let last = b.bit_cnt - cnt in scan_from (last + 1 - start) start cnt value b)
      else some none

unfoldable pub bitmap_scan_and_flip : ℕ → ℕ → Bool → Bitmap → Option (Option ℕ × Bitmap)
unfolding bitmap_scan bitmap_set_multiple
bitmap_scan_and_flip start cnt value b = do
  idx ← bitmap_scan start cnt value b
  elim idx [
    | none ↦ some (none, b)
    | some i ↦ do b' ← bitmap_set_multiple i cnt (not value) b; some (some i, b')
  ]

-- `bitmap_create`, where the two calls of `malloc` returned a block or not, the second one with the
-- elements `storage` in it. The inner `none` is the null pointer.
unfoldable pub bitmap_create : Bool → Option (List ℕ) → ℕ → Option (Option Bitmap)
unfolding bitmap_set_all
bitmap_create block storage bit_cnt =
    if block
    then elim storage [
      | some elems ↦ do
        b ← bitmap_set_all false (record { bit_cnt = bit_cnt; bits = elems })
        some (some b)
      | none ↦ if bit_cnt == 0 then some (some (record { bit_cnt = 0; bits = [] })) else some none
    ]
    else some none

-- `bitmap_buf_size`: a `struct bitmap` has 8 bytes.
unfoldable pub bitmap_buf_size : ℕ → ℕ
unfolding byte_cnt
bitmap_buf_size bit_cnt = 8 + byte_cnt bit_cnt

-- `bitmap_create_in_buf`, over the elements that the buffer holds.
unfoldable pub bitmap_create_in_buf : ℕ → List ℕ → ℕ → Option Bitmap
unfolding bitmap_set_all bitmap_buf_size
bitmap_create_in_buf bit_cnt elems block_size = do
  assert (leb (bitmap_buf_size bit_cnt) block_size)
  bitmap_set_all false (record { bit_cnt = bit_cnt; bits = elems })

-- The elements as bytes in memory, and back; x86 stores the low byte first.
abbrev pub elem_bytes : List ℕ → List ℕ
elem_bytes [] = []
elem_bytes (e ∷ es) =
    (e % 256) ∷ (e / 2 ^ 8 % 256) ∷ (e / 2 ^ 16 % 256) ∷ (e / 2 ^ 24 % 256) ∷ elem_bytes es

abbrev pub bytes_elem : List ℕ → List ℕ
bytes_elem (a ∷ (b ∷ (c ∷ (d ∷ rest)))) =
    (a + b * 2 ^ 8 + c * 2 ^ 16 + d * 2 ^ 24) ∷ bytes_elem rest
bytes_elem _ = []

unfoldable pub bitmap_file_size : Bitmap → ℕ
unfolding byte_cnt
bitmap_file_size b = byte_cnt b.bit_cnt

-- `bitmap_read`: the bytes that were read replace the first ones of the storage.
unfoldable pub bitmap_read : Disk → (ℕ → Inode) → File → Bitmap → Bool × Bitmap
unfolding byte_cnt elem_cnt last_mask
bitmap_read d inodes file b =
    let bytes = file_read_at d inodes (byte_cnt b.bit_cnt) 0 file in
    let memory = bytes_elem (bytes ++ drop (length bytes) (elem_bytes b.bits)) in
    let last = elem_cnt b.bit_cnt - 1 in
    if b.bit_cnt == 0 then (true, b) else (
      length bytes == byte_cnt b.bit_cnt,
      record b { bits = set memory last (bit_and (get_or memory last 0) (last_mask b)) },
    )

-- `bitmap_write`.
unfoldable pub bitmap_write : Disk → (ℕ → Inode) → File → Bitmap → Bool × Disk
unfolding byte_cnt
bitmap_write d inodes file b =
    let (d', n) = file_write_at d inodes (take (byte_cnt b.bit_cnt) (elem_bytes b.bits)) 0 file in
    (n == byte_cnt b.bit_cnt, d')
