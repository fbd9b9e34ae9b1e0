-- ===== src/Syscall/Deny.antt =====
-- Writing to the program that runs (userprog/syscall.c).
use mathlib.Core.Option.{some-injective}
use project_pintos.Base.{
  ℕ, ◌≤◌, ◌<◌, ◌≡◌, ◌≢◌, refl, sym, ap, ◌==◌, ltb, leb, ◌&&◌, true, false, List, ◌∷◌, some, arith,
  Bool-cases, inl, inr,
}
use project_pintos.Base.Int.{pos}
use project_pintos.Sched.{◌>>=◌, bind_end}
use project_pintos.File.{File, file_deny_write}
use project_pintos.File.Balance.{IsBalanced, file_deny_write-IsBalanced, file_write-denied}
use project_pintos.Inode.{Disk, inode_deny_write}
use project_pintos.Fs.{Fs, with_disk}
use project_pintos.Process.{World, returns, with_fs, store_file, load_bytes, is_user_vaddr}
use project_pintos.Syscall.{check_address}
use project_pintos.Syscall.Transfer.{write, write_file, signed_size}
use project_pintos.Syscall.Table.{IsRunning}
use project_pintos.Syscall.Close.{front-IsBalanced, used_high}

-- `file_deny_write` leaves the device alone, and the inode of the file.
deny-same :
    (f f' : File) (t t' : Fs)
    → file_deny_write f t ≡ some (f', t')
    → (t'.free_map ≡ t.free_map) × (f'.inode ≡ f.inode) × (f'.pos ≡ f.pos)
unfolding file_deny_write
deny-same f f' t t' h = elim (Bool-cases f.deny_write) [
  | inl e ↦
      let same = some-injective _ _ (rw e at h) in
      (
        sym (ap (λ r. r.1.free_map) same),
        sym (ap (λ r. r.0.inode) same),
        sym (ap (λ r. r.0.pos) same),
      )
  | inr e ↦
      let (i, denied, h') = bind_end (inode_deny_write (t.inodes f.inode)) _ (f', t') (rw e at h) in
      let same = some-injective _ _ h' in
      (
        sym (ap (λ r. r.1.free_map) same),
        sym (ap (λ r. r.0.inode) same),
        sym (ap (λ r. r.0.pos) same),
      )
]

equal_test : (a b : ℕ) → a ≡ b → (a == b) ≡ true
equal_test a b e = ground arith

-- A write to the file that the process runs.
write_file-current :
    (a : ℕ) (rest : List File) (bytes : List ℕ) (w : World)
    → IsBalanced (w.heap a ∷ rest) w.fs
    → w.process.current_file ≡ a
    → (w' : World) × (write_file a bytes w ≡ some (pos 0, w')) × (w'.fs.free_map ≡ w.fs.free_map)
unfolding write_file
write_file-current a rest bytes w v own =
    let (f', t, denies, balanced, off) = file_deny_write-IsBalanced (w.heap a) rest w.fs v in
    let (same_map, same_inode, same_pos) = deny-same (w.heap a) f' w.fs t denies in
    let writes = file_write-denied f' rest t t.free_map.disk bytes f' balanced off refl in
    (
      store_file a f' (with_fs t w),
      rw (equal_test w.process.current_file a own, ◌>>=◌)
          (rw (denies, ◌>>=◌)
            (ap {A = Disk × ℕ × File}
              (λ r. some (pos r.1, store_file a r.2 (with_fs (with_disk r.0 t) w))) writes)),
      same_map,
    )

in_range : (fd : ℕ) → 2 ≤ fd → fd < 130 → ((fd == 1) ≡ false) × ((leb 2 fd && ltb fd 130) ≡ true)
in_range fd high low = (ground arith, ground arith)

null_test : (a : ℕ) → a ≢ 0 → (a == 0) ≡ false
null_test a ne = ground arith

-- For a sound process, a write to a used descriptor of the file that it runs, from a buffer that starts in the
-- memory of the program, writes nothing: it succeeds with 0 bytes, and the device and the free map are as before.
pub write-current :
    (others : List File) (fd buffer size : ℕ) (w : World)
    → IsRunning others w
    → fd < 130
    → w.process.fd_used fd ≡ true
    → w.process.current_file ≡ w.process.files fd
    → is_user_vaddr buffer ≡ true
    → (w' : World) × (write (pos fd) buffer size w ≡ some (returns (pos 0) w'))
      × (w'.fs.free_map ≡ w.fs.free_map)
unfolding write check_address
write-current others fd buffer size w v low used own mapped =
    let high = used_high w.process fd v.table used in
    let (w', writes, same) =
      write_file-current (w.process.files fd) _ (load_bytes w.memory buffer (signed_size size)) w
        (front-IsBalanced fd others w high low used v.balanced) own in
    let (file, inside) = in_range fd high low in
    let not_null = null_test (w.process.files fd) (v.table.filled fd used) in
    (w', rw (mapped, file, inside, not_null) (rw (writes, ◌>>=◌) refl), same)
