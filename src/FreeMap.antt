-- ===== src/FreeMap.antt =====
-- filesys/free-map.c: the sectors in use, a bit for each, in memory and in a file. `none` is a failed
-- ASSERT, a PANIC or a use of a null pointer.
pub mod Laws
use project_pintos.Base.{ℕ, ◌==◌, Bool, true, false, not, if◌then◌else◌, List, Option, none, some}
use project_pintos.Sched.{◌>>=◌, ◌>>◌, assert}
use project_pintos.Inode.{Disk, Inode}
use project_pintos.File.{File}
use project_pintos.Bitmap.{
  Bitmap, bitmap_create, bitmap_mark, bitmap_scan_and_flip, bitmap_set_multiple, bitmap_all,
  bitmap_write, bitmap_read,
}

-- `free_map`, `free_map_file`, and the device.
pub record FreeMap : Type 0 where
  pub map : Bitmap
  pub file : Option File
  pub disk : Disk

abbrev pub free_map_sector : ℕ
free_map_sector = 0

abbrev pub root_dir_sector : ℕ
root_dir_sector = 1

-- `free_map_init`, with what `malloc` returns to `bitmap_create`.
unfoldable pub free_map_init : Bool → Option (List ℕ) → ℕ → Option Bitmap
unfolding bitmap_create bitmap_mark
free_map_init block storage block_size = do
  made ← bitmap_create block storage block_size
  b ← made
  some (bitmap_mark root_dir_sector (bitmap_mark free_map_sector b))

-- The call of `bitmap_write` in `free_map_allocate`, made where the file is open.
unfoldable pub write_map : (ℕ → Inode) → FreeMap → Bool × FreeMap
unfolding bitmap_write
write_map inodes m = elim m.file [
  | none ↦ (true, m)
  | some file ↦ let (ok, d) = bitmap_write m.disk inodes file m.map in (ok, record m { disk = d })
]

-- `free_map_allocate`; the inner `none` is `false`.
unfoldable pub free_map_allocate : (ℕ → Inode) → ℕ → FreeMap → Option (Option ℕ × FreeMap)
unfolding bitmap_scan_and_flip bitmap_set_multiple write_map
free_map_allocate inodes cnt m = do
  (found, b) ← bitmap_scan_and_flip 0 cnt false m.map
  elim found [
    | none ↦ some (none, record m { map = b })
    | some sector ↦ do
      let (ok, m') = write_map inodes (record m { map = b })
      if ok then some (some sector, m') else (do
        undone ← bitmap_set_multiple sector cnt false b
        some (none, record m' { map = undone }))
  ]

-- `free_map_release`.
unfoldable pub free_map_release : (ℕ → Inode) → ℕ → ℕ → FreeMap → Option FreeMap
unfolding bitmap_all bitmap_set_multiple bitmap_write
free_map_release inodes sector cnt m = do
  used ← bitmap_all sector cnt m.map
  assert used
  b ← bitmap_set_multiple sector cnt false m.map
  file ← m.file
  let (ok, d) = bitmap_write m.disk inodes file b
  some (record m { map = b; disk = d })

-- `free_map_open`, with what `file_open` returned.
unfoldable pub free_map_open : (ℕ → Inode) → Option File → FreeMap → Option FreeMap
unfolding bitmap_read
free_map_open inodes opened m = do
  file ← opened
  let (ok, b) = bitmap_read m.disk inodes file m.map
  assert ok
  some (record m { map = b; file = some file })
