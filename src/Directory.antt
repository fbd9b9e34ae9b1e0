-- ===== src/Directory.antt =====
-- filesys/directory.c: a directory is a file of 20-byte entries. A name is the bytes of a C string up to
-- its terminator; NULL arguments do not occur.
pub mod Bytes
pub mod Slots
pub mod Store
pub mod Add
pub mod Outcome
pub mod Names
use project_pintos.Base.{
  ℕ, zero, suc, ◌+◌, ◌-◌, ◌*◌, ◌/◌, ◌%◌, ◌^◌, ◌==◌, ltb, leb, Bool, true, false, not, ◌&&◌, ◌||◌,
  if◌then◌else◌, List, [], ◌∷◌, ◌++◌, Option, none, some, length, take, drop, get_or, min,
}
use project_pintos.Sched.{◌>>=◌, ◌>>◌, assert}
use project_pintos.Inode.{Disk, Inode, inode_read_at, inode_write_at, inode_remove}
use project_pintos.File.{InodeTable, store_inode, inode_open, inode_close, reopen_inode}

abbrev pub name_max : ℕ
name_max = 14

-- `sizeof (struct dir_entry)`.
abbrev pub entry_size : ℕ
entry_size = 20

-- `struct dir_entry`; `name` is all of the array.
pub record Entry : Type 0 where
  pub inode_sector : ℕ
  pub name : List ℕ
  pub in_use : Bool

-- `struct dir`, by the address of its inode.
pub record Dir : Type 0 where
  pub inode : ℕ
  pub pos : ℕ

-- A `uint32_t` in memory, low byte first.
abbrev pub word_bytes : ℕ → List ℕ
word_bytes w = (w % 256) ∷ (w / 2 ^ 8 % 256) ∷ (w / 2 ^ 16 % 256) ∷ (w / 2 ^ 24 % 256) ∷ []

abbrev pub word_at : List ℕ → ℕ → ℕ
word_at bytes ofs =
    get_or bytes ofs 0
    + get_or bytes (ofs + 1) 0 * 2 ^ 8
    + get_or bytes (ofs + 2) 0 * 2 ^ 16
    + get_or bytes (ofs + 3) 0 * 2 ^ 24

-- An entry as its bytes in memory, and what bytes read into an entry make of it.
unfoldable pub entry_bytes : Entry → List ℕ
entry_bytes e = word_bytes e.inode_sector ++ (e.name ++ ((if e.in_use then 1 else 0) ∷ []))

unfoldable pub bytes_entry : List ℕ → Entry
bytes_entry bytes = record {
  inode_sector = word_at bytes 0;
  name = take 15 (drop 4 bytes);
  in_use = not (get_or bytes 19 0 == 0);
}

-- The C string that an array holds: its bytes up to the first zero.
abbrev pub c_string : List ℕ → List ℕ
c_string [] = []
c_string (c ∷ s) = if c == 0 then [] else c ∷ c_string s

-- `!strcmp (a, b)` on the bytes of two strings.
abbrev pub str_eq : List ℕ → List ℕ → Bool
str_eq [] [] = true
str_eq [] (b ∷ t) = false
str_eq (a ∷ s) [] = false
str_eq (a ∷ s) (b ∷ t) = a == b && str_eq s t

-- `strlcpy (dst, src, size)` of lib/string.c, for a size that is not 0.
unfoldable pub strlcpy : List ℕ → List ℕ → ℕ → List ℕ
strlcpy dst src size = let n = min (length src) (size - 1) in take n src ++ (0 ∷ drop (n + 1) dst)

-- The loop of `lookup` from `ofs` on. An entry takes 20 bytes, so a round for each byte of the file is
-- enough fuel.
unfoldable pub lookup_from : ℕ → Disk → Inode → List ℕ → ℕ → Option (Entry × ℕ)
unfolding bytes_entry
lookup_from zero d i name ofs = none
lookup_from (suc fuel) d i name ofs =
    let bytes = inode_read_at d i entry_size ofs in
    let e = bytes_entry bytes in
    let rest = lookup_from fuel d i name (ofs + entry_size) in
    if length bytes == entry_size
    then (if e.in_use && str_eq name (c_string e.name) then some (e, ofs) else rest)
    else none

-- `lookup`: the entry and its offset.
unfoldable pub lookup : Disk → Inode → List ℕ → Option (Entry × ℕ)
unfolding lookup_from
lookup d i name = lookup_from (suc i.length) d i name 0

-- The loop of `dir_add`: the offset of a free slot, or of the end. `e` is what the variable holds.
unfoldable pub free_from : ℕ → Disk → Inode → Entry → ℕ → Entry × ℕ
unfolding bytes_entry
free_from zero d i e ofs = (e, ofs)
free_from (suc fuel) d i e ofs =
    let bytes = inode_read_at d i entry_size ofs in
    let e' = bytes_entry bytes in
    let rest = free_from fuel d i e' (ofs + entry_size) in
    if length bytes == entry_size
    then (if e'.in_use then rest else (e', ofs))
    else (bytes_entry (bytes ++ drop (length bytes) (entry_bytes e)), ofs)

-- `dir_add`; `garbage` is what the variable `e` holds at first.
unfoldable pub dir_add : Entry → List ℕ → ℕ → Inode → Disk → Bool × Disk
unfolding lookup free_from strlcpy entry_bytes
dir_add garbage name inode_sector i d =
    let invalid = length name == 0 || ltb name_max (length name) in
    let (e, ofs) = free_from (suc i.length) d i garbage 0 in
    let new : Entry = record {
      inode_sector = inode_sector;
      name = strlcpy e.name name 15;
      in_use = true;
    } in
    let (d', n) = inode_write_at d i (entry_bytes new) ofs in
    if invalid
    then (false, d)
    else elim (lookup d i name) [ some _ ↦ (false, d) | none ↦ (n == entry_size, d') ]

-- The loop of `dir_readdir`: the name found, and the position.
unfoldable pub readdir_from : ℕ → Disk → Inode → ℕ → Option (List ℕ) × ℕ
unfolding bytes_entry
readdir_from zero d i pos = (none, pos)
readdir_from (suc fuel) d i pos =
    let bytes = inode_read_at d i entry_size pos in
    let e = bytes_entry bytes in
    let rest = readdir_from fuel d i (pos + entry_size) in
    if length bytes == entry_size
    then (if e.in_use then (some (c_string e.name), pos + entry_size) else rest)
    else (none, pos)

-- `dir_readdir`: the C string that is copied to `name`.
unfoldable pub dir_readdir : Disk → (ℕ → Inode) → Dir → Option (List ℕ) × Dir
unfolding readdir_from
dir_readdir d inodes dir =
    let i = inodes dir.inode in
    let (found, pos) = readdir_from (suc i.length) d i dir.pos in (found, record dir { pos = pos })
