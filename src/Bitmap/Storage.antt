-- ===== src/Bitmap/Storage.antt =====
-- Bitmaps in files: bitmap_write and bitmap_read of lib/kernel/bitmap.c.
use Prim.Native.Nat.{bit_and}
use native.Mathlib.Nat.{one-le-pow}
use native.Mathlib.Decide.{ℕ_discrete}
use mathlib.Core.List.{append-nil}
use project_pintos.Base.{
  ap₂, Bool-cases, inl, inr, ℕ, zero, suc, ◌-◌, ◌*◌, ◌/◌, ◌%◌, ◌^◌, ◌≤◌, ◌<◌, ◌≡◌, refl, sym, ap,
  ◌∙◌, ◌==◌, true, false, not, if◌then◌else◌, List, [], ◌∷◌, length, take, drop, get_or, set,
  length-set, get_or-set_self, get_or-set_ne, arith,
}
use project_pintos.Base.Bits.{bit, bit-lt, bit-bit_and, bit-mod, bit-zero, bit-complement}
use project_pintos.Inode.{Disk, Inode, inode_read_at}
use project_pintos.Inode.Read.{IsDisk}
use project_pintos.Inode.RoundTrip.{inode_read_at-inode_write_at}
use project_pintos.File.{File, file_read_at, file_write_at}
use project_pintos.Bitmap.{
  Bitmap, elem_cnt, byte_cnt, last_mask, elem_bytes, bytes_elem, bitmap_read, bitmap_write,
}
use project_pintos.Bitmap.View.{bit_at, IsBitmap, idx_in}

abbrev low_words : List ℕ → List ℕ
low_words [] = []
low_words (e ∷ es) = (e % 2 ^ 32) ∷ low_words es

bytes_elem-elem_bytes : (es : List ℕ) → bytes_elem (elem_bytes es) ≡ low_words es
bytes_elem-elem_bytes [] = refl
bytes_elem-elem_bytes (e ∷ es) = ap₂ (λ a r. a ∷ r) (omega arith) (bytes_elem-elem_bytes es)

length-elem_bytes : (es : List ℕ) → length (elem_bytes es) ≡ 4 * length es
length-elem_bytes [] = refl
length-elem_bytes (e ∷ es) = omega (arith, length-elem_bytes es)

length-low_words : (es : List ℕ) → length (low_words es) ≡ length es
length-low_words [] = refl
length-low_words (e ∷ es) = ap suc (length-low_words es)

get_or-low_words : (es : List ℕ) (j : ℕ) → get_or (low_words es) j 0 ≡ get_or es j 0 % 2 ^ 32
get_or-low_words [] j = refl
get_or-low_words (e ∷ es) zero = refl
get_or-low_words (e ∷ es) (suc j) = get_or-low_words es j

take-all : (xs : List ℕ) (n : ℕ) → length xs ≤ n → take n xs ≡ xs
take-all [] zero h = refl
take-all [] (suc n) h = refl
take-all (x ∷ xs) zero h = absurd (omega (arith, h))
take-all (x ∷ xs) (suc n) h = ap (λ r. x ∷ r) (take-all xs n (omega arith))

drop-all : (xs : List ℕ) (n : ℕ) → length xs ≤ n → drop n xs ≡ []
drop-all [] zero h = refl
drop-all [] (suc n) h = refl
drop-all (x ∷ xs) zero h = absurd (omega (arith, h))
drop-all (x ∷ xs) (suc n) h = drop-all xs n (omega arith)

-- The low digits of 2 ^ m - 1 are ones.
bit-ones : (m k : ℕ) → k < m → bit (2 ^ m - 1) k ≡ 1
bit-ones m k h =
    ap (λ x. bit x k) (plain (2 ^ m))
    ∙ bit-complement m 0 k (one-le-pow m 2 (omega arith)) h
    ∙ omega (arith, bit-zero k)
  where
    plain : (x : ℕ) → x - 1 ≡ x - 1 - 0
    plain x = omega arith

-- The mask keeps the bits of the bitmap.
masked :
    (b : Bitmap) (x j : ℕ)
    → j < b.bit_cnt
    → j / 32 ≡ elem_cnt b.bit_cnt - 1
    → bit (bit_and x (last_mask b)) (j % 32) ≡ bit x (j % 32)
unfolding last_mask elem_cnt
masked b x j h e = elim (Bool-cases (b.bit_cnt % 32 == 0)) [
  | inl full ↦
      rw (full, bit-bit_and x (2 ^ 32 - 1) (j % 32), bit-ones 32 (j % 32) (omega arith))
        (omega (arith, bit-lt x (j % 32)))
  | inr part ↦
      let last_bits = b.bit_cnt % 32 in
      let inside : j % 32 < last_bits = ground arith in
      rw (part, bit-bit_and x (2 ^ last_bits - 1) (j % 32), bit-ones last_bits (j % 32) inside)
        (omega (arith, bit-lt x (j % 32)))
]

-- What `bitmap_read` makes of the elements `es` that stand in the file.
abbrev loaded : Bitmap → List ℕ → Bitmap
loaded c es =
    let last = elem_cnt c.bit_cnt - 1 in
    if c.bit_cnt == 0 then c else record c {
      bits = set (low_words es) last (bit_and (get_or (low_words es) last 0) (last_mask c));
    }

module _ (c : Bitmap) (es : List ℕ) (vc : IsBitmap c)
    (enough : length es ≡ elem_cnt c.bit_cnt) where
  bitmap_read_of :
      (d : Disk) (inodes : ℕ → Inode) (file : File)
      → inode_read_at d (inodes file.inode) (byte_cnt c.bit_cnt) 0 ≡ elem_bytes es
      → bitmap_read d inodes file c ≡ (true, loaded c es)
  unfolding bitmap_read file_read_at byte_cnt
  bitmap_read_of d inodes file reads =
      let long : length (elem_bytes es) ≡ 4 * elem_cnt c.bit_cnt =
        length-elem_bytes es ∙ ap (λ n. 4 * n) enough in
      let no_rest : drop (length (elem_bytes es)) (elem_bytes c.bits) ≡ [] =
        drop-all (elem_bytes c.bits) _ (omega (arith, length-elem_bytes c.bits, vc.storage)) in
      rw (reads, no_rest, append-nil (elem_bytes es), bytes_elem-elem_bytes es, long) (ground arith)

  loaded-IsBitmap : IsBitmap (loaded c es)
  loaded-IsBitmap = elim (Bool-cases (c.bit_cnt == 0)) [
    | inl e ↦ rw e vc
    | inr e ↦ rw e (record {
      storage = length-set (low_words es) _ _ ∙ length-low_words es ∙ enough;
      small = vc.small;
    })
  ]

  bit_at-loaded :
      (j : ℕ)
      → j < c.bit_cnt
      → bit_at (loaded c es) j ≡ not (bit (get_or es (j / 32) 0) (j % 32) == 0)
  bit_at-loaded j h =
      let last = elem_cnt c.bit_cnt - 1 in
      let some_bits : (c.bit_cnt == 0) ≡ false = ground arith in
      let word : bit (get_or (low_words es) (j / 32) 0) (j % 32)
          ≡ bit (get_or es (j / 32) 0) (j % 32) =
        ap (λ x. bit x (j % 32)) (get_or-low_words es (j / 32))
        ∙ bit-mod 32 _ (j % 32) (omega arith) in
      let inside : j / 32 < length (low_words es) = omega (
        arith,
        length-low_words es,
        idx_in (record c { bits = es }) j (record { storage = enough; small = vc.small }) h,
      ) in
      elim (ℕ_discrete last (j / 32)) [
        | yes q ↦
            rw
              (
                some_bits,
                q,
                get_or-set_self (low_words es) (j / 32)
                    (bit_and (get_or (low_words es) (j / 32) 0) (last_mask c)) 0 inside,
                masked c (get_or (low_words es) (j / 32) 0) j h (sym q),
                word,
              )
              refl
        | no q ↦
            rw
              (
                some_bits,
                get_or-set_ne (low_words es) last (j / 32)
                    (bit_and (get_or (low_words es) last 0) (last_mask c)) 0 q,
                word,
              )
              refl
      ]

bitmap_write_of :
    (d : Disk) (inodes : ℕ → Inode) (file : File) (b : Bitmap)
    → IsDisk d
    → (inodes file.inode).deny_write_cnt ≡ 0
    → byte_cnt b.bit_cnt ≤ (inodes file.inode).length
    → IsBitmap b
    → (d' : Disk) × (bitmap_write d inodes file b ≡ (true, d'))
      × (inode_read_at d' (inodes file.inode) (byte_cnt b.bit_cnt) 0 ≡ elem_bytes b.bits)
unfolding bitmap_write file_write_at byte_cnt
bitmap_write_of d inodes file b v allowed room vb =
    let bytes : List ℕ = elem_bytes b.bits in
    let long : length bytes ≡ 4 * elem_cnt b.bit_cnt =
      length-elem_bytes b.bits ∙ ap (λ n. 4 * n) vb.storage in
    let (d', writes, v', reads, elsewhere) =
      inode_read_at-inode_write_at d (inodes file.inode) bytes 0 v allowed (omega arith) in
    (
      d',
      rw (take-all bytes (4 * elem_cnt b.bit_cnt) (omega arith), writes, long) (ground arith),
      ap (λ n. inode_read_at d' (inodes file.inode) n 0) (sym long) ∙ reads,
    )

-- `bitmap_write` to a file with room for it, on a disk of whole sectors and where writes are allowed,
-- succeeds; `bitmap_read` from there into a bitmap of the same size, whatever it held, succeeds and
-- gives the same bits.
pub bitmap_read-bitmap_write :
    (d : Disk) (inodes : ℕ → Inode) (file : File) (b c : Bitmap)
    → IsDisk d
    → (inodes file.inode).deny_write_cnt ≡ 0
    → byte_cnt b.bit_cnt ≤ (inodes file.inode).length
    → IsBitmap b
    → IsBitmap c
    → c.bit_cnt ≡ b.bit_cnt
    → (d' : Disk) × (c' : Bitmap) × (bitmap_write d inodes file b ≡ (true, d'))
      × (bitmap_read d' inodes file c ≡ (true, c'))
      × IsBitmap c'
      × (c'.bit_cnt ≡ b.bit_cnt)
      × ((j : ℕ) → j < b.bit_cnt → bit_at c' j ≡ bit_at b j)
bitmap_read-bitmap_write d inodes file b c v allowed room vb vc size =
    let (d', writes, reads) = bitmap_write_of d inodes file b v allowed room vb in
    let enough : length b.bits ≡ elem_cnt c.bit_cnt = vb.storage ∙ ap elem_cnt (sym size) in
    (
      d',
      loaded c b.bits,
      writes,
      bitmap_read_of c b.bits vc enough d' inodes file
          (ap (λ n. inode_read_at d' (inodes file.inode) (byte_cnt n) 0) size ∙ reads),
      loaded-IsBitmap c b.bits vc enough,
      same_size c b.bits ∙ size,
      λ j h. bit_at-loaded c b.bits vc enough j (omega arith),
    )
  where
    same_size : (c : Bitmap) (es : List ℕ) → (loaded c es).bit_cnt ≡ c.bit_cnt
    same_size c es = ground arith
