-- ===== src/Fs.antt =====
-- The state of the file system: open inodes, free map and device; and the operations of
-- filesys/inode.c and filesys/file.c on all of it. What `malloc` and `calloc` return is an argument.
-- `none` is a failed ASSERT, a PANIC or a use of a null pointer.
pub mod Create
pub mod Close
use project_pintos.Base.{
  ltb, ◌^◌, ℕ, zero, suc, ◌+◌, ◌*◌, ◌==◌, Bool, true, false, not, ◌&&◌, if◌then◌else◌, List, ◌++◌,
  Option, none, some, replicate,
}
use project_pintos.Sched.{◌>>=◌, ◌>>◌, assert}
use project_pintos.Bitmap.{bitmap_file_size, bitmap_write}
use project_pintos.Inode.{Disk, Inode, block_write, bytes_to_sectors, inode_write_at, inode_remove}
use project_pintos.File.{
  File, InodeTable, store_inode, inode_open, inode_close, reopen_inode, file_allow_write,
}
use project_pintos.FreeMap.{
  FreeMap, free_map_sector, root_dir_sector, free_map_allocate, free_map_release,
}
use project_pintos.Directory.{
  Entry, Dir, word_bytes, word_at, entry_bytes, entry_size, lookup, dir_add,
}

-- The open inodes, the free map and the device.
abbrev pub Fs : Type 0
Fs = InodeTable FreeMap

abbrev pub with_map : FreeMap → Fs → Fs
with_map m t = record t { free_map = m }

abbrev pub with_disk : Disk → Fs → Fs
with_disk d t = with_map (record t.free_map { disk = d }) t

-- `INODE_MAGIC`.
abbrev pub inode_magic : ℕ
inode_magic = 1229868868

-- `struct inode_disk` as the bytes of its sector, and the fields that a sector read into it holds.
unfoldable pub inode_disk_bytes : ℕ → ℕ → List ℕ
inode_disk_bytes start length =
    word_bytes start ++ (word_bytes length ++ (word_bytes inode_magic ++ replicate 500 0))

unfoldable pub load_inode : Disk → ℕ → ℕ × ℕ
load_inode d sector = (word_at (d sector) 0, word_at (d sector) 4)

-- The loop of `inode_create` that writes zeros to `n` sectors.
abbrev pub zero_sectors : ℕ → ℕ → Disk → Disk
zero_sectors zero start d = d
zero_sectors (suc n) start d = zero_sectors n (start + 1) (block_write d start (replicate 512 0))

-- `inode_create`, where `calloc` succeeded or not. A length is given as its 32 bits; from 2 ^ 31 on it is
-- negative, which an ASSERT refuses.
unfoldable pub inode_create : Bool → ℕ → ℕ → Fs → Option (Bool × Fs)
unfolding free_map_allocate inode_disk_bytes
inode_create allocated sector length t = do
  assert (ltb length (2 ^ 31))
  if allocated
      then (do
        let sectors = bytes_to_sectors length
        (found, m) ← free_map_allocate t.inodes sectors t.free_map
        elim found [
          | none ↦ some (false, with_map m t)
          | some start ↦
              let written = block_write m.disk sector (inode_disk_bytes start length) in
              some (true, with_disk (zero_sectors sectors start written) (with_map m t))
        ])
      else some (false, t)

-- `inode_open` of the file system's device, and `inode_close` with the free map that it releases to.
unfoldable pub open_sector : ℕ → ℕ → Fs → ℕ × Fs
unfolding load_inode inode_open
open_sector page sector t = inode_open (load_inode t.free_map.disk) page sector t

unfoldable pub close_inode : ℕ → Fs → Option Fs
unfolding inode_close free_map_release
close_inode a t = do
  let before : InodeTable (Option FreeMap) = record {
    inodes = t.inodes;
    open_inodes = t.open_inodes;
    free_map = some t.free_map;
  }
  let release : ℕ → ℕ → Option FreeMap → Option FreeMap =
      λ sector cnt o. o >>= free_map_release t.inodes sector cnt
  let after = inode_close release a before
  m ← after.free_map
  some (record { inodes = after.inodes; open_inodes = after.open_inodes; free_map = m })

-- `file_open`, where `calloc` succeeded or not, and `file_close`.
unfoldable pub open_file : Bool → ℕ → Fs → Option (Option File × Fs)
unfolding close_inode
open_file allocated inode t =
    if not (inode == 0) && allocated
    then some (some (record { inode = inode; pos = 0; deny_write = false }), t)
    else (do t' ← close_inode inode t; some (none, t'))

unfoldable pub close_file : File → Fs → Option Fs
unfolding file_allow_write close_inode
close_file f t = do allowed ← file_allow_write f t; close_inode f.inode allowed.1
