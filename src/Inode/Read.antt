-- ===== src/Inode/Read.antt =====
-- What reading and writing files of filesys/inode.c does.
use project_pintos.Base.{
  ap₂, ℕ, zero, suc, ◌+◌, ◌-◌, ◌/◌, ◌%◌, ◌≤◌, ◌<◌, ◌≡◌, refl, ◌∙◌, ap, ◌==◌, List, [], ◌∷◌, ◌++◌,
  arith, inl, inr, Bool-cases, length, drop, get_or, min,
}
use project_pintos.Inode.{Disk, Inode, sector_size, chunk_size, read_loop, inode_read_at, slice}

-- Every sector has its full size.
abbrev pub IsDisk : Disk → Type 0
IsDisk d = (s : ℕ) → length (d s) ≡ sector_size

-- The byte of a file at a position.
abbrev pub byte_at : Disk → Inode → ℕ → ℕ
byte_at d i pos = get_or (d (i.start + pos / 512)) (pos % 512) 0

-- The bytes of a file from `offset` on.
abbrev pub file_bytes : Disk → Inode → ℕ → ℕ → List ℕ
file_bytes d i offset zero = []
file_bytes d i offset (suc n) = byte_at d i offset ∷ file_bytes d i (offset + 1) n

pub chunk_size_lem :
    (i : Inode) (size offset : ℕ)
    → (chunk_size i size offset ≤ size)
      × (chunk_size i size offset ≤ i.length - offset)
      × (chunk_size i size offset + offset % 512 ≤ 512)
      × (0 < size → offset < i.length → 0 < chunk_size i size offset)
unfolding chunk_size
chunk_size_lem i size offset = (ground arith, ground arith, ground arith, λ p q. ground arith)

drop_step : (o : ℕ) (s : List ℕ) → o < length s → drop o s ≡ get_or s o 0 ∷ drop (suc o) s
drop_step o [] h = absurd (omega (arith, h))
drop_step zero (x ∷ s) h = refl
drop_step (suc o) (x ∷ s) h = drop_step o s (omega arith)

file_bytes-take :
    (d : Disk) (i : Inode) (n offset q o : ℕ)
    → IsDisk d
    → offset / 512 ≡ q
    → offset % 512 ≡ o
    → n + o ≤ 512
    → slice o n (d (i.start + q)) ≡ file_bytes d i offset n
file_bytes-take d i zero offset q o v a b h = refl
file_bytes-take d i (suc zero) offset q o v a b h =
    rw (drop_step o (d (i.start + q)) (omega (arith, v (i.start + q))), a, b)
file_bytes-take d i (suc (suc n)) offset q o v a b h = rw (
  drop_step o (d (i.start + q)) (omega (arith, v (i.start + q))),
  file_bytes-take d i (suc n) (offset + 1) q (suc o) v (omega arith) (omega arith) (omega arith),
  a,
  b,
)

suc_shift : (n m : ℕ) → suc n + m ≡ suc (n + m)
suc_shift n m = omega arith

pub length-file_bytes : (d : Disk) (i : Inode) (offset n : ℕ) → length (file_bytes d i offset n) ≡ n
length-file_bytes d i offset zero = refl
length-file_bytes d i offset (suc n) = ap suc (length-file_bytes d i (offset + 1) n)

pub file_bytes_at :
    (d : Disk) (i : Inode) (a n b m : ℕ) → a ≡ b → n ≡ m → file_bytes d i a n ≡ file_bytes d i b m
file_bytes_at d i a n b m p q = ap₂ (file_bytes d i) p q

pub file_bytes_split :
    (d : Disk) (i : Inode) (offset n m : ℕ)
    → file_bytes d i offset (n + m) ≡ file_bytes d i offset n ++ file_bytes d i (offset + n) m
file_bytes_split d i offset zero m =
    file_bytes_at d i offset (0 + m) offset m refl (omega arith)
    ∙ file_bytes_at d i offset m (offset + 0) m (omega arith) refl
file_bytes_split d i offset (suc n) m =
    file_bytes_at d i offset (suc n + m) offset (suc (n + m)) refl (suc_shift n m)
    ∙ ap (λ r. byte_at d i offset ∷ r)
        (file_bytes_split d i (offset + 1) n m
          ∙ ap (λ r. file_bytes d i (offset + 1) n ++ r)
              (file_bytes_at d i (offset + 1 + n) m (offset + suc n) m (omega arith) refl))

read_loop_lem :
    (fuel : ℕ) (d : Disk) (i : Inode) (size offset : ℕ)
    → IsDisk d
    → size ≤ fuel
    → read_loop fuel d i size offset ≡ file_bytes d i offset (min size (i.length - offset))
unfolding read_loop
read_loop_lem zero d i size offset v h =
    file_bytes_at d i offset 0 offset (min size (i.length - offset)) refl (omega arith)
read_loop_lem (suc fuel) d i size offset v h =
    let n = chunk_size i size offset in
    let (below, left, fits, moves) = chunk_size_lem i size offset in
    elim (Bool-cases (n == 0)) [
      | inl e ↦
          let z : n ≡ 0 = ground arith in
          rw (
            e,
            file_bytes_at d i offset (min size (i.length - offset)) offset 0 refl
                (ground (arith, moves)),
          )
      | inr e ↦ rw (
        e,
        file_bytes-take d i n offset (offset / 512) (offset % 512) v refl refl fits,
        read_loop_lem fuel d i (size - n) (offset + n) v (ground arith),
        file_bytes_at d i offset (min size (i.length - offset)) offset
            (n + min (size - n) (i.length - (offset + n))) refl (omega arith),
        file_bytes_split d i offset n (min (size - n) (i.length - (offset + n))),
      )
    ]

-- On a disk of whole sectors `inode_read_at` returns the bytes of the file from the offset on, as many as are asked for or as
-- the file has.
pub inode_read_at_lem :
    (d : Disk) (i : Inode) (size offset : ℕ)
    → IsDisk d
    → inode_read_at d i size offset ≡ file_bytes d i offset (min size (i.length - offset))
unfolding inode_read_at
inode_read_at_lem d i size offset v = read_loop_lem size d i size offset v (omega arith)
