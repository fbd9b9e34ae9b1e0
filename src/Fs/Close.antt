-- ===== src/Fs/Close.antt =====
-- Closing a file of the file system (filesys/file.c, filesys/inode.c), where no open inode was removed.
use mathlib.Core.Option.{some-injective}
use project_pintos.Base.{
  ℕ, ◌+◌, ◌≡◌, ◌≢◌, refl, ap, ◌==◌, false, if◌then◌else◌, List, ◌∷◌, Option, some, arith,
  Bool-cases, inl, inr,
}
use project_pintos.Sched.{◌>>=◌, bind_end}
use project_pintos.Inode.{Inode, inode_allow_write}
use project_pintos.File.{InodeTable, File, file_allow_write, drop_inode, inode_close}
use project_pintos.File.Balance.{
  holders, denials, IsBalanced, file_allow_write-IsBalanced, close-IsBalanced,
}
use project_pintos.FreeMap.{FreeMap, free_map_release}
use project_pintos.Fs.{Fs, close_inode, close_file}

-- No inode in memory is to be deleted with its last opener.
abbrev pub Kept : Fs → Type 0
Kept t = (a : ℕ) → (t.inodes a).removed ≡ false

module _ (release : ℕ → ℕ → Option FreeMap → Option FreeMap) (a : ℕ)
    (t : InodeTable (Option FreeMap)) where
  close-keeps :
      ((b : ℕ) → (t.inodes b).removed ≡ false)
      → ((inode_close release a t).free_map ≡ t.free_map)
        × ((b : ℕ) → ((inode_close release a t).inodes b).removed ≡ false)
  unfolding inode_close drop_inode
  close-keeps k = (ground (arith, k a), λ b. ground (arith, k a, k b))

-- The table with the free map as `inode_close` is given it.
abbrev with_option : Fs → InodeTable (Option FreeMap)
with_option t = record {
  inodes = t.inodes;
  open_inodes = t.open_inodes;
  free_map = some t.free_map;
}

-- `inode_close` where the inode is not to be deleted releases nothing.
pub close_inode-Kept :
    (a : ℕ) (fs : List File) (t : Fs)
    → Kept t
    → a ≢ 0
    → holders 0 fs ≡ 0
    → ((b : ℕ) → (t.inodes b).open_cnt ≡ holders b fs + (if a == b then 1 else 0))
    → ((b : ℕ) → (t.inodes b).deny_write_cnt ≡ denials b fs)
    → (t' : Fs) × (close_inode a t ≡ some t') × IsBalanced fs t' × Kept t'
unfolding close_inode
close_inode-Kept a fs t k ne z h g =
    let release =
      λ (sector : ℕ) (cnt : ℕ) (o : Option FreeMap). o >>= free_map_release t.inodes sector cnt in
    let after = inode_close release a (with_option t) in
    let (same, kept) = close-keeps release a (with_option t) k in
    let balanced =
      (close-IsBalanced release (record { inode = a; pos = 0; deny_write = false }) fs
        (with_option t) a fs (with_option t) ne z h g).0 in
    (
      record { inodes = after.inodes; open_inodes = after.open_inodes; free_map = t.free_map },
      rw (same, ◌>>=◌) refl,
      record { not_null = balanced.not_null; opened = balanced.opened; denied = balanced.denied },
      kept,
    )

allow_same : (i i' : Inode) → inode_allow_write i ≡ some i' → i'.removed ≡ i.removed
unfolding inode_allow_write
allow_same i i' h = ground arith

-- `file_allow_write` removes no inode.
allow-Kept : (f f' : File) (t t' : Fs) → file_allow_write f t ≡ some (f', t') → Kept t → Kept t'
unfolding file_allow_write
allow-Kept f f' t t' h k = elim (Bool-cases f.deny_write) [
  | inr e ↦ rw (← ap (λ r. r.1) (some-injective _ _ (rw e at h))) k
  | inl e ↦
      let (i, allowed, h') =
        bind_end (inode_allow_write (t.inodes f.inode)) _ (f', t') (rw e at h) in
      let same = allow_same (t.inodes f.inode) i allowed in
      rw (← ap (λ r. r.1) (some-injective _ _ h')) (λ a. ground (arith, k a, same, k f.inode))
]

-- `file_close` of one of the open files succeeds where none of the inodes is to be deleted, and keeps the
-- counts right for the others.
pub close_file-Kept :
    (f : File) (rest : List File) (t : Fs)
    → IsBalanced (f ∷ rest) t
    → Kept t
    → (t' : Fs) × (close_file f t ≡ some t') × IsBalanced rest t' × Kept t'
unfolding close_file
close_file-Kept f rest t v k =
    let (f', t', runs, w, same, off, same_map, same_list) =
      file_allow_write-IsBalanced f rest t v in
    let (t2, closes, balanced, kept) =
      close_inode-Kept f.inode rest t' (allow-Kept f f' t t' runs k) (ground (arith, v.not_null))
        (ground (arith, v.not_null)) (λ b. ground (arith, w.opened b))
        (λ b. ground (arith, w.denied b)) in
    (t2, rw (runs, ◌>>=◌) closes, balanced, kept)
