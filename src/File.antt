-- ===== src/File.antt =====
-- filesys/file.c, and the table of open inodes of filesys/inode.c. A file or an inode is shared by its
-- address; NULL is 0. What `malloc` and `calloc` return, and the free map, are arguments.
pub mod Balance
pub mod Reading
use project_pintos.Base.{
  ℕ, ◌+◌, ◌-◌, ◌==◌, Bool, true, false, not, if◌then◌else◌, List, [], ◌∷◌, Option, none, some,
  length,
}
use project_pintos.Sched.{◌>>=◌, ◌>>◌, assert}
use project_pintos.Sched.Switch.{list_remove}
use project_pintos.Inode.{
  Disk, Inode, bytes_to_sectors, inode_read_at, inode_write_at, inode_deny_write, inode_allow_write,
  inode_reopen,
}

-- The inodes in memory by their addresses, `open_inodes`, and the free map.
pub record InodeTable (Map : Type 0) : Type 0 where
  pub inodes : ℕ → Inode
  pub open_inodes : List ℕ
  pub free_map : Map

-- `struct file`.
pub record File : Type 0 where
  pub inode : ℕ
  pub pos : ℕ
  pub deny_write : Bool

-- `inode_read_at` and `inode_write_at` at the position of the file, which moves by the number of bytes.
unfoldable pub file_read : Disk → (ℕ → Inode) → ℕ → File → List ℕ × File
file_read d inodes size f =
    let bytes = inode_read_at d (inodes f.inode) size f.pos in
    (bytes, record f { pos = f.pos + length bytes })

unfoldable pub file_read_at : Disk → (ℕ → Inode) → ℕ → ℕ → File → List ℕ
file_read_at d inodes size file_ofs f = inode_read_at d (inodes f.inode) size file_ofs

unfoldable pub file_write : Disk → (ℕ → Inode) → List ℕ → File → Disk × ℕ × File
file_write d inodes buffer f =
    let (d', n) = inode_write_at d (inodes f.inode) buffer f.pos in
    (d', n, record f { pos = f.pos + n })

unfoldable pub file_write_at : Disk → (ℕ → Inode) → List ℕ → ℕ → File → Disk × ℕ
file_write_at d inodes buffer file_ofs f = inode_write_at d (inodes f.inode) buffer file_ofs

unfoldable pub file_get_inode : File → ℕ
file_get_inode f = f.inode

unfoldable pub file_length : (ℕ → Inode) → File → ℕ
file_length inodes f = (inodes f.inode).length

unfoldable pub file_seek : ℕ → File → File
file_seek new_pos f = record f { pos = new_pos }

unfoldable pub file_tell : File → ℕ
file_tell f = f.pos

-- The search of `inode_open` through the open inodes.
unfoldable pub find_open : ℕ → List ℕ → (ℕ → Inode) → Option ℕ
find_open sector [] inodes = none
find_open sector (a ∷ rest) inodes =
    let later = find_open sector rest inodes in
    if (inodes a).sector == sector then some a else later

module _ {Map : Type 0} where
  -- Puts an inode in the place of the one at an address.
  abbrev pub store_inode : ℕ → Inode → InodeTable Map → InodeTable Map
  store_inode a i t = record t { inodes = λ b. if a == b then i else t.inodes b }

  -- `inode_reopen` of an address.
  unfoldable pub reopen_inode : ℕ → InodeTable Map → InodeTable Map
  unfolding inode_reopen
  reopen_inode a t = if a == 0 then t else store_inode a (inode_reopen (t.inodes a)) t

  -- `inode_open`, where `malloc` returned `page`, and `load` gives the first sector and the length
  -- that the sector of an inode holds. The result is the address, 0 for NULL.
  unfoldable pub inode_open : (ℕ → ℕ × ℕ) → ℕ → ℕ → InodeTable Map → ℕ × InodeTable Map
  unfolding reopen_inode
  inode_open load page sector t = elim (find_open sector t.open_inodes t.inodes) [
    | some a ↦ (a, reopen_inode a t)
    | none ↦ if page == 0 then (0, t) else (
      page,
      store_inode page
          (record {
            sector = sector;
            open_cnt = 1;
            removed = false;
            deny_write_cnt = 0;
            start = (load sector).0;
            length = (load sector).1;
          })
          (record t { open_inodes = page ∷ t.open_inodes }),
    )
  ]

  -- `file_deny_write`.
  unfoldable pub file_deny_write : File → InodeTable Map → Option (File × InodeTable Map)
  file_deny_write f t = if f.deny_write then some (f, t) else (do
    i ← inode_deny_write (t.inodes f.inode)
    some (record f { deny_write = true }, store_inode f.inode i t))

  -- `file_allow_write`.
  unfoldable pub file_allow_write : File → InodeTable Map → Option (File × InodeTable Map)
  file_allow_write f t =
      if f.deny_write
      then (do
        i ← inode_allow_write (t.inodes f.inode)
        some (record f { deny_write = false }, store_inode f.inode i t))
      else some (f, t)

-- `release` is `free_map_release`.
module _ {Map : Type 0} (release : ℕ → ℕ → Map → Map) where
  -- What `inode_close` does for the last opener.
  unfoldable pub drop_inode : ℕ → InodeTable Map → InodeTable Map
  drop_inode a t =
      let i = t.inodes a in
      record t {
        open_inodes = list_remove a t.open_inodes;
        free_map =
            if i.removed
            then release i.start (bytes_to_sectors i.length) (release i.sector 1 t.free_map)
            else t.free_map;
      }

  -- `inode_close`. An open inode has an opener, so its count is positive.
  unfoldable pub inode_close : ℕ → InodeTable Map → InodeTable Map
  inode_close a t =
      let closed = store_inode a (record (t.inodes a) { open_cnt = (t.inodes a).open_cnt - 1 }) t in
      if a == 0 then t else if (t.inodes a).open_cnt == 1 then drop_inode a closed else closed

  -- `file_open`, where `calloc` succeeded or not.
  unfoldable pub file_open : Bool → ℕ → InodeTable Map → Option File × InodeTable Map
  file_open allocated inode t =
      if inode == 0
      then (none, t)
      else if allocated
      then (some (record { inode = inode; pos = 0; deny_write = false }), t)
      else (none, inode_close inode t)

  -- `file_reopen`.
  unfoldable pub file_reopen : Bool → File → InodeTable Map → Option File × InodeTable Map
  file_reopen allocated f t = file_open allocated f.inode (reopen_inode f.inode t)

  -- `file_close` of a file that is not NULL.
  unfoldable pub file_close : File → InodeTable Map → Option (InodeTable Map)
  file_close f t = do allowed ← file_allow_write f t; some (inode_close f.inode allowed.1)
