-- ===== src/Filesys.antt =====
-- filesys/filesys.c, with the operations of filesys/directory.c and filesys/free-map.c that open inodes. What `malloc` and `calloc` return is an argument. `none` is a failed
-- ASSERT, a PANIC or a use of a null pointer.
pub mod Remove
pub mod Openers
pub mod Open
pub mod Found
use project_pintos.Base.{
  ℕ, zero, suc, ◌+◌, ◌*◌, ◌==◌, Bool, true, false, not, ◌&&◌, if◌then◌else◌, List, ◌++◌, Option,
  none, some, replicate,
}
use project_pintos.Sched.{◌>>=◌, ◌>>◌, assert}
use project_pintos.Bitmap.{bitmap_file_size, bitmap_write}
use project_pintos.Inode.{Disk, Inode, block_write, bytes_to_sectors, inode_write_at, inode_remove}
use project_pintos.File.{
  File, InodeTable, store_inode, inode_open, inode_close, reopen_inode, file_allow_write,
}
use project_pintos.FreeMap.{
  FreeMap, free_map_sector, root_dir_sector, free_map_allocate, free_map_release,
}
use project_pintos.Directory.{
  Entry, Dir, word_bytes, word_at, entry_bytes, entry_size, lookup, dir_add,
}
use project_pintos.Fs.{
  Fs, with_map, with_disk, inode_create, open_sector, close_inode, open_file, close_file,
}

-- `dir_create`.
unfoldable pub dir_create : Bool → ℕ → ℕ → Fs → Option (Bool × Fs)
unfolding inode_create
dir_create allocated sector entry_cnt t = inode_create allocated sector (entry_cnt * entry_size) t

-- `dir_open`, where `calloc` succeeded or not.
unfoldable pub dir_open : Bool → ℕ → Fs → Option (Option Dir × Fs)
unfolding close_inode
dir_open allocated inode t =
    if not (inode == 0) && allocated
    then some (some (record { inode = inode; pos = 0 }), t)
    else (do t' ← close_inode inode t; some (none, t'))

unfoldable pub dir_open_root : Bool → ℕ → Fs → Option (Option Dir × Fs)
unfolding open_sector dir_open
dir_open_root allocated page t =
    let (inode, t') = open_sector page root_dir_sector t in dir_open allocated inode t'

unfoldable pub dir_reopen : Bool → Dir → Fs → Option (Option Dir × Fs)
unfolding reopen_inode dir_open
dir_reopen allocated dir t = dir_open allocated dir.inode (reopen_inode dir.inode t)

unfoldable pub dir_close : Option Dir → Fs → Option Fs
unfolding close_inode
dir_close none t = some t
dir_close (some dir) t = close_inode dir.inode t

unfoldable pub dir_get_inode : Dir → ℕ
dir_get_inode dir = dir.inode

-- `dir_lookup`: the inode, 0 for NULL.
unfoldable pub dir_lookup : ℕ → Dir → List ℕ → Fs → ℕ × Fs
unfolding lookup open_sector
dir_lookup page dir name t = elim (lookup t.free_map.disk (t.inodes dir.inode) name) [
  | none ↦ (0, t)
  | some found ↦ open_sector page found.0.inode_sector t
]

-- The part of `dir_remove` between opening the inode at address `a` and closing it.
unfoldable pub erase_entry : Dir → Entry → ℕ → ℕ → Fs → Bool × Fs
unfolding inode_write_at entry_bytes
erase_entry dir e ofs a t =
    let (d, n) =
      inode_write_at t.free_map.disk (t.inodes dir.inode)
        (entry_bytes (record e { in_use = false })) ofs in
    let t' = with_disk d t in
    if n == entry_size then (true, store_inode a (inode_remove (t'.inodes a)) t') else (false, t')

-- `dir_remove`.
unfoldable pub dir_remove : ℕ → Dir → List ℕ → Fs → Option (Bool × Fs)
dir_remove page dir name t = elim (lookup t.free_map.disk (t.inodes dir.inode) name) [
  | none ↦ some (false, t)
  | some found ↦ do
    let (a, opened) = open_sector page found.0.inode_sector t
    let (success, erased) =
        if a == 0 then (false, opened) else erase_entry dir found.0 found.1 a opened
    closed ← close_inode a erased
    some (success, closed)
]

-- `dir_add` on the directory's inode.
unfoldable pub add_entry : Entry → Dir → List ℕ → ℕ → Fs → Bool × Fs
unfolding dir_add
add_entry garbage dir name sector t =
    let (success, d) = dir_add garbage name sector (t.inodes dir.inode) t.free_map.disk in
    (success, with_disk d t)

-- What the allocator returns in a call: the memory for an inode, and whether there is some for a
-- directory, for a `struct inode_disk` and for a file.
pub record Memory : Type 0 where
  pub inode_page : ℕ
  pub dir_ok : Bool
  pub create_ok : Bool
  pub file_ok : Bool

-- The middle operands of the `&&` in `filesys_create`: success and the sector, 0 when none was allocated.
unfoldable pub create_in : Bool → Entry → Dir → List ℕ → ℕ → Fs → Option (Bool × ℕ × Fs)
unfolding free_map_allocate inode_create add_entry
create_in create_ok garbage dir name initial_size t = do
  (found, m) ← free_map_allocate t.inodes 1 t.free_map
  elim found [
    | none ↦ some (false, 0, with_map m t)
    | some sector ↦ do
      (created, t') ← inode_create create_ok sector initial_size (with_map m t)
      let (added, t'') = add_entry garbage dir name sector t'
      some (if created then (added, sector, t'') else (false, sector, t'))
  ]

-- `filesys_create`.
unfoldable pub filesys_create : Memory → Entry → List ℕ → ℕ → Fs → Option (Bool × Fs)
unfolding dir_open_root create_in dir_close free_map_release
filesys_create mem garbage name initial_size t = do
  (dir, opened) ← dir_open_root mem.dir_ok mem.inode_page t
  (success, sector, made) ← elim dir [
    | none ↦ some (false, 0, opened)
    | some root ↦ create_in mem.create_ok garbage root name initial_size opened
  ]
  m ←
      if not success && not (sector == 0)
      then free_map_release made.inodes sector 1 made.free_map
      else some made.free_map
  closed ← dir_close dir (with_map m made)
  some (success, closed)

-- `filesys_open`; `page` is the memory for the inode of the file.
unfoldable pub filesys_open : Memory → ℕ → List ℕ → Fs → Option (Option File × Fs)
unfolding dir_open_root dir_lookup dir_close open_file
filesys_open mem page name t = do
  (dir, opened) ← dir_open_root mem.dir_ok mem.inode_page t
  let found : ℕ × Fs = elim dir [
    | none ↦ (0, opened)
    | some root ↦ dir_lookup page root name opened
  ]
  closed ← dir_close dir found.1
  open_file mem.file_ok found.0 closed

-- `filesys_remove`; `page` is the memory for the inode of the file.
unfoldable pub filesys_remove : Memory → ℕ → List ℕ → Fs → Option (Bool × Fs)
unfolding dir_open_root dir_remove dir_close
filesys_remove mem page name t = do
  (dir, opened) ← dir_open_root mem.dir_ok mem.inode_page t
  (success, removed) ← elim dir [
    | none ↦ some (false, opened)
    | some root ↦ dir_remove page root name opened
  ]
  closed ← dir_close dir removed
  some (success, closed)

-- `free_map_create`.
unfoldable pub free_map_create : Memory → Fs → Option Fs
unfolding inode_create open_sector open_file bitmap_write bitmap_file_size
free_map_create mem t = do
  (created, t') ← inode_create mem.create_ok free_map_sector (bitmap_file_size t.free_map.map) t
  assert created
  let (inode, opened) = open_sector mem.inode_page free_map_sector t'
  (made, t'') ← open_file mem.file_ok inode opened
  file ← made
  let (ok, d) = bitmap_write t''.free_map.disk t''.inodes file t''.free_map.map
  assert ok
  some (with_map (record t''.free_map { file = some file; disk = d }) t'')

-- `free_map_close`. The pointer to the file keeps its value.
unfoldable pub free_map_close : Fs → Option Fs
unfolding close_file
free_map_close t = elim t.free_map.file [ none ↦ some t | some file ↦ close_file file t ]

-- `do_format`; `dir_create_ok` says whether `calloc` succeeded for the root directory.
unfoldable pub do_format : Memory → Bool → Fs → Option Fs
unfolding free_map_create dir_create free_map_close
do_format mem dir_create_ok t = do
  t' ← free_map_create mem t
  (created, t'') ← dir_create dir_create_ok root_dir_sector 16 t'
  assert created
  free_map_close t''
