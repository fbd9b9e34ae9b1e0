-- ===== src/Inode/Write.antt =====
-- What writing to files of filesys/inode.c does.
use project_pintos.Base.{
  ◌/◌, ◌%◌, ◌∙◌, ℕ, zero, suc, ◌+◌, ◌-◌, ◌≤◌, ◌≡◌, ◌==◌, ltb, leb, true, false, ◌&&◌, if◌then◌else◌,
  refl, List, arith, length, drop, get_or, ◌<◌, min, length-drop, Bool-cases, inl, inr,
}
use project_pintos.Inode.{
  Disk, Inode, inode_write_at, write_loop, chunk_size, block_write, new_sector,
}
use project_pintos.Inode.Read.{IsDisk, byte_at, chunk_size_lem}
use project_pintos.Inode.Sector.{get_or-drop, new_sector-length, new_sector-get}

write_loop-count :
    (fuel : ℕ) (d : Disk) (i : Inode) (buffer : List ℕ) (offset written : ℕ)
    → length buffer ≤ fuel
    → (write_loop fuel d i buffer offset written).1
      ≡ written + min (length buffer) (i.length - offset)
unfolding write_loop
write_loop-count zero d i buffer offset written h = omega arith
write_loop-count (suc fuel) d i buffer offset written h =
    let n = chunk_size i (length buffer) offset in
    let (below, left, fits, moves) = chunk_size_lem i (length buffer) offset in
    let sector = i.start + offset / 512 in
    let d' = block_write d sector (new_sector (offset % 512) n buffer (d sector)) in
    let shorter : length (drop n buffer) ≡ length buffer - n = length-drop n buffer in
    elim (Bool-cases (n == 0)) [
      | inl e ↦ rw e (ground (arith, moves))
      | inr e ↦
          rw
            (
              e,
              write_loop-count fuel d' i (drop n buffer) (offset + n) (written + n) (ground arith),
              shorter,
            )
            (ground arith)
    ]

split :
    (n l size offset : ℕ)
    → n ≤ l
    → n ≤ size - offset
    → min l (size - offset) ≡ n + min (l - n) (size - (offset + n))
split n l size offset a b = omega arith

-- The position of a byte after a round, against the buffer of the round.
round-byte :
    (d : Disk) (i : Inode) (n offset pos : ℕ) (buffer : List ℕ)
    → IsDisk d
    → offset % 512 + n ≤ 512
    → n ≤ length buffer
    → let sector = i.start + offset / 512 in
      byte_at (block_write d sector (new_sector (offset % 512) n buffer (d sector))) i pos ≡ (
        if leb offset pos && ltb pos (offset + n)
        then get_or buffer (pos - offset) 0
        else byte_at d i pos)
round-byte d i n offset pos buffer v h b =
    let sector = i.start + offset / 512 in
    elim (Bool-cases (sector == i.start + pos / 512)) [
      | inl e ↦
          let same_sector : pos / 512 ≡ offset / 512 = ground arith in
          let same_test : (leb (offset % 512) (pos % 512) && ltb (pos % 512) (offset % 512 + n))
              ≡ (leb offset pos && ltb pos (offset + n)) =
            ground arith in
          let same_place : pos % 512 - offset % 512 ≡ pos - offset = omega arith in
          rw
            (
              e,
              new_sector-get (offset % 512) n buffer (d sector) (v sector) h b (pos % 512)
                  (omega arith),
              same_test,
              same_place,
              same_sector,
            )
            refl
      | inr e ↦
          let outside : (leb offset pos && ltb pos (offset + n)) ≡ false = ground arith in
          rw (e, outside) refl
    ]

-- What a write leaves: a disk of whole sectors, with the bytes of the buffer at their positions, and
-- every other byte of the file as before.
pub record Written (d d' : Disk) (i : Inode) (buffer : List ℕ) (offset n : ℕ) : Type 0 where
  pub whole : IsDisk d'
  pub bytes :
      (pos : ℕ)
      → byte_at d' i pos ≡ (
          if leb offset pos && ltb pos (offset + n)
          then get_or buffer (pos - offset) 0
          else byte_at d i pos)
  pub before : (s : ℕ) → s < i.start → d' s ≡ d s

-- A round, and what the rounds after it write.
Written-step :
    (d d' d'' : Disk) (i : Inode) (buffer : List ℕ) (offset n c : ℕ)
    → ((pos : ℕ)
        → byte_at d' i pos ≡ (
            if leb offset pos && ltb pos (offset + n)
            then get_or buffer (pos - offset) 0
            else byte_at d i pos))
    → ((s : ℕ) → s < i.start → d' s ≡ d s)
    → Written d' d'' i (drop n buffer) (offset + n) c
    → Written d d'' i buffer offset (n + c)
Written-step d d' d'' i buffer offset n c first same w = record {
  whole = w.whole;
  bytes = λ pos.
      w.bytes pos ∙ elim (Bool-cases (leb (offset + n) pos && ltb pos (offset + n + c))) [
        | inl e ↦
            let inside : (leb offset pos && ltb pos (offset + (n + c))) ≡ true = ground arith in
            rw (e, inside) (get_or-drop n buffer (pos - (offset + n)) (pos - offset) (ground arith))
        | inr e ↦
            let same_test : (leb offset pos && ltb pos (offset + n))
                ≡ (leb offset pos && ltb pos (offset + (n + c))) =
              ground arith in
            rw e (first pos ∙ rw same_test refl)
      ];
  before = λ s lo. w.before s lo ∙ same s lo;
}

write_loop-Written :
    (fuel : ℕ) (d : Disk) (i : Inode) (buffer : List ℕ) (offset written : ℕ)
    → length buffer ≤ fuel
    → IsDisk d
    → Written d
        (write_loop fuel d i buffer offset written).0
        i
        buffer
        offset
        (min (length buffer) (i.length - offset))
unfolding write_loop
write_loop-Written zero d i buffer offset written h v = record {
  whole = v;
  bytes = λ pos. ground arith;
  before = λ s lo. refl;
}
write_loop-Written (suc fuel) d i buffer offset written h v =
    let n = chunk_size i (length buffer) offset in
    let (below, left, fits, moves) = chunk_size_lem i (length buffer) offset in
    let sector = i.start + offset / 512 in
    let d' = block_write d sector (new_sector (offset % 512) n buffer (d sector)) in
    let shorter : length (drop n buffer) ≡ length buffer - n = length-drop n buffer in
    elim (Bool-cases (n == 0)) [
      | inl e ↦
          rw e (record { whole = v; bytes = λ pos. ground (arith, moves); before = λ s lo. refl })
      | inr e ↦ rw e (
          rw (split n (length buffer) (i.length) offset below left) (
            Written-step d d' (write_loop fuel d' i (drop n buffer) (offset + n) (written + n)).0 i
              buffer offset n _ (λ pos. round-byte d i n offset pos buffer v (omega arith) below)
              (λ s lo. ground arith)
              (rw⁻¹ shorter (
                write_loop-Written fuel d' i (drop n buffer) (offset + n) (written + n)
                  (ground arith)
                  (λ s. ground (
                    arith,
                    v s,
                    new_sector-length (offset % 512) n buffer (d sector) (v sector) (omega arith)
                        below,
                  ))))))
    ]

-- `inode_write_at` on a disk of whole sectors, where writes are allowed: as many bytes as the buffer has or the file has room for
-- from the offset on are written, they stand in the file, and nothing else of it changes.
pub inode_write_at-Written :
    (d : Disk) (i : Inode) (buffer : List ℕ) (offset : ℕ)
    → IsDisk d
    → i.deny_write_cnt ≡ 0
    → (d' : Disk) × (n : ℕ) × (inode_write_at d i buffer offset ≡ (d', n))
      × (n ≡ min (length buffer) (i.length - offset))
      × Written d d' i buffer offset n
unfolding inode_write_at
inode_write_at-Written d i buffer offset v e = (
  (write_loop (length buffer) d i buffer offset 0).0,
  (write_loop (length buffer) d i buffer offset 0).1,
  allowed,
  count,
  rw count (write_loop-Written (length buffer) d i buffer offset 0 (omega arith) v),
)
  where
    allowed : inode_write_at d i buffer offset ≡ write_loop (length buffer) d i buffer offset 0
    allowed = ground arith

    count :
        (write_loop (length buffer) d i buffer offset 0).1 ≡ min (length buffer) (i.length - offset)
    count = omega (arith, write_loop-count (length buffer) d i buffer offset 0 (omega arith))
