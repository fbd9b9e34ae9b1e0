-- ===== src/Inode.antt =====
-- filesys/inode.c: files on disk, a sector at a time. The block device is a function from sectors to
-- their 512 bytes; `malloc` of the bounce buffer is taken to succeed. Offsets and sizes are
-- nonnegative numbers, as the callers pass them.
pub mod Read
pub mod Sector
pub mod Write
pub mod RoundTrip
use project_pintos.Base.{
  ℕ, zero, suc, ◌+◌, ◌-◌, ◌*◌, ◌/◌, ◌%◌, ◌==◌, ltb, leb, Bool, true, false, not, ◌&&◌, ◌||◌,
  if◌then◌else◌, List, [], ◌∷◌, ◌++◌, Option, none, some, length, take, drop, replicate, min,
}
use project_pintos.Sched.{◌>>=◌, ◌>>◌, assert}

abbrev pub sector_size : ℕ
sector_size = 512

-- The contents of the device: a list of `sector_size` bytes for each sector.
abbrev pub Disk : Type 0
Disk = ℕ → List ℕ

-- `struct inode`, with the fields of `struct inode_disk` that the code reads.
pub record Inode : Type 0 where
  pub sector : ℕ
  pub open_cnt : ℕ
  pub removed : Bool
  pub deny_write_cnt : ℕ
  pub start : ℕ
  pub length : ℕ

-- `bytes_to_sectors`.
unfoldable pub bytes_to_sectors : ℕ → ℕ
bytes_to_sectors size = (size + 511) / 512

-- `byte_to_sector`; `none` stands for -1.
unfoldable pub byte_to_sector : Inode → ℕ → Option ℕ
byte_to_sector i pos = if ltb pos i.length then some (i.start + pos / 512) else none

-- The number of bytes that one round copies: what is asked for, what is left of the file, and what is
-- left of the sector. At or past the end of the file it is 0, where the code has a number that is not
-- positive.
unfoldable pub chunk_size : Inode → ℕ → ℕ → ℕ
chunk_size i size offset =
    let inode_left = i.length - offset in
    let sector_left = sector_size - offset % sector_size in
    let min_left = if ltb inode_left sector_left then inode_left else sector_left in
    if ltb size min_left then size else min_left

-- `memcpy (buffer, sector + ofs, n)`.
abbrev pub slice : ℕ → ℕ → List ℕ → List ℕ
slice ofs n s = take n (drop ofs s)

-- The loop of `inode_read_at`: the bytes that it puts into the buffer. Each round copies at least
-- one byte, so the size is enough fuel.
unfoldable pub read_loop : ℕ → Disk → Inode → ℕ → ℕ → List ℕ
read_loop zero d i size offset = []
read_loop (suc fuel) d i size offset =
    let n = chunk_size i size offset in
    let rest = read_loop fuel d i (size - n) (offset + n) in
    if n == 0 then [] else slice (offset % 512) n (d (i.start + offset / 512)) ++ rest

-- `inode_read_at`: the bytes read; their number is what the function returns.
unfoldable pub inode_read_at : Disk → Inode → ℕ → ℕ → List ℕ
inode_read_at d i size offset = read_loop size d i size offset

-- `block_write`.
abbrev pub block_write : Disk → ℕ → List ℕ → Disk
block_write d s bytes t = if s == t then bytes else d t

-- A sector with `bytes` put at offset `ofs`.
abbrev pub overlay : ℕ → List ℕ → List ℕ → List ℕ
overlay ofs bytes s = take ofs s ++ (bytes ++ drop (ofs + length bytes) s)

-- What one round of `inode_write_at` writes to a sector that holds `s`: `n` bytes of the buffer at `ofs`.
-- A chunk that covers the sector replaces all of it; any other is put into the sector as it was read,
-- or into zeros where it starts at 0 and reaches the end.
unfoldable pub new_sector : ℕ → ℕ → List ℕ → List ℕ → List ℕ
new_sector ofs n buffer s =
    let read = ltb 0 ofs || ltb n (sector_size - ofs) in
    let bounce = if read then s else replicate 512 0 in
    if ofs == 0 && n == sector_size then take n buffer else overlay ofs (take n buffer) bounce

-- The loop of `inode_write_at` over what is left of the buffer. The result is the disk and the number
-- of bytes written.
unfoldable pub write_loop : ℕ → Disk → Inode → List ℕ → ℕ → ℕ → Disk × ℕ
write_loop zero d i buffer offset written = (d, written)
write_loop (suc fuel) d i buffer offset written =
    let n = chunk_size i (length buffer) offset in
    let sector = i.start + offset / 512 in
    let d' = block_write d sector (new_sector (offset % 512) n buffer (d sector)) in
    let rest = write_loop fuel d' i (drop n buffer) (offset + n) (written + n) in
    if n == 0 then (d, written) else rest

-- `inode_write_at`: the disk and the number of bytes written.
unfoldable pub inode_write_at : Disk → Inode → List ℕ → ℕ → Disk × ℕ
inode_write_at d i buffer offset =
    if i.deny_write_cnt == 0 then write_loop (length buffer) d i buffer offset 0 else (d, 0)

-- `inode_deny_write`, `inode_allow_write`, `inode_remove`, `inode_reopen`.
unfoldable pub inode_deny_write : Inode → Option Inode
inode_deny_write i = do
  let j = record i { deny_write_cnt = i.deny_write_cnt + 1 }
  assert (leb j.deny_write_cnt j.open_cnt)
  some j

unfoldable pub inode_allow_write : Inode → Option Inode
inode_allow_write i = do
  assert (ltb 0 i.deny_write_cnt)
  assert (leb i.deny_write_cnt i.open_cnt)
  some (record i { deny_write_cnt = i.deny_write_cnt - 1 })

unfoldable pub inode_remove : Inode → Inode
inode_remove i = record i { removed = true }

unfoldable pub inode_reopen : Inode → Inode
inode_reopen i = record i { open_cnt = i.open_cnt + 1 }
