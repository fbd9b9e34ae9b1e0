-- ===== src/Inode/RoundTrip.antt =====
-- Reading back what was written with filesys/inode.c.
use project_pintos.Base.{
  ap, ap₂, sym, ◌∙◌, ℕ, zero, suc, ◌+◌, ◌-◌, ◌≤◌, ◌<◌, ◌≡◌, ◌⊎◌, ltb, leb, ◌&&◌, if◌then◌else◌,
  refl, List, [], ◌∷◌, arith, length, get_or, min,
}
use project_pintos.Inode.{Disk, Inode, inode_read_at, inode_write_at}
use project_pintos.Inode.Read.{IsDisk, byte_at, file_bytes, file_bytes_at, inode_read_at_lem}
use project_pintos.Inode.Write.{Written, inode_write_at-Written}

-- A part of a file is determined by its bytes.
file_bytes-list :
    (d : Disk) (i : Inode) (xs : List ℕ) (offset : ℕ)
    → ((k : ℕ) → k < length xs → byte_at d i (offset + k) ≡ get_or xs k 0)
    → file_bytes d i offset (length xs) ≡ xs
file_bytes-list d i [] offset h = refl
file_bytes-list d i (x ∷ xs) offset h =
    ap₂ (λ b r. b ∷ r) (ap (byte_at d i) (here offset) ∙ h 0 (omega arith))
      (file_bytes-list d i xs (offset + 1)
        (λ k lt. ap (byte_at d i) (there offset k) ∙ h (suc k) (omega arith)))
  where
    here : (o : ℕ) → o ≡ o + 0
    here o = omega arith

    there : (o k : ℕ) → o + 1 + k ≡ o + suc k
    there o k = omega arith

file_bytes-same :
    (d d' : Disk) (i : Inode) (offset n : ℕ)
    → ((pos : ℕ) → offset ≤ pos → pos < offset + n → byte_at d' i pos ≡ byte_at d i pos)
    → file_bytes d' i offset n ≡ file_bytes d i offset n
file_bytes-same d d' i offset zero h = refl
file_bytes-same d d' i offset (suc n) h =
    ap₂ (λ b r. b ∷ r) (h offset (omega arith) (omega arith))
      (file_bytes-same d d' i (offset + 1) n (λ pos lo hi. h pos (omega arith) (omega arith)))

-- What stands at a part of a file that a write did not touch.
pub Written-elsewhere :
    (d d' : Disk) (i : Inode) (buffer : List ℕ) (offset n : ℕ)
    → Written d d' i buffer offset n
    → (ofs m : ℕ) → (ofs + m ≤ offset) ⊎ (offset + n ≤ ofs)
    → file_bytes d' i ofs m ≡ file_bytes d i ofs m
Written-elsewhere d d' i buffer offset n w ofs m apart =
    file_bytes-same d d' i ofs m (λ pos lo hi. w.bytes pos ∙ ground arith)

-- A write that fits into the file, to a disk of whole sectors, where writes are allowed, writes all of
-- the buffer; reading as many bytes there gives the buffer, and any part of the file outside is as it
-- was.
pub inode_read_at-inode_write_at :
    (d : Disk) (i : Inode) (buffer : List ℕ) (offset : ℕ)
    → IsDisk d
    → i.deny_write_cnt ≡ 0
    → offset + length buffer ≤ i.length
    → (d' : Disk) × (inode_write_at d i buffer offset ≡ (d', length buffer))
      × IsDisk d'
      × (inode_read_at d' i (length buffer) offset ≡ buffer)
      × ((ofs n : ℕ)
          → (ofs + n ≤ offset) ⊎ (offset + length buffer ≤ ofs)
          → inode_read_at d' i n ofs ≡ inode_read_at d i n ofs)
inode_read_at-inode_write_at d i buffer offset v e fits =
    let (d', n, writes, count, w) = inode_write_at-Written d i buffer offset v e in
    let whole : n ≡ length buffer = omega arith in
    (
      d',
      writes ∙ ap (λ k. (d', k)) whole,
      w.whole,
      inode_read_at_lem d' i (length buffer) offset w.whole
          ∙ file_bytes_at d' i offset (min (length buffer) (i.length - offset)) offset
              (length buffer) refl (omega arith)
          ∙ file_bytes-list d' i buffer offset
              (λ k lt. w.bytes (offset + k) ∙ at_offset k (omega arith)),
      λ ofs m apart.
          inode_read_at_lem d' i m ofs w.whole
          ∙ Written-elsewhere d d' i buffer offset n w ofs (min m (i.length - ofs)) (ground arith)
          ∙ sym (inode_read_at_lem d i m ofs v),
    )
  where
    at_offset :
        {n : ℕ} (k : ℕ)
        → k < n
        → (if leb offset (offset + k) && ltb (offset + k) (offset + n)
            then get_or buffer (offset + k - offset) 0
            else byte_at d i (offset + k))
          ≡ get_or buffer k 0
    at_offset k lt = let back : offset + k - offset ≡ k = omega arith in rw back (ground arith)
