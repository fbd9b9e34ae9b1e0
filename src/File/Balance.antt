-- ===== src/File/Balance.antt =====
-- The counts of an inode against the open files that share it (filesys/file.c, filesys/inode.c).
use project_pintos.Base.{
  ap, ◌∙◌, ℕ, ◌+◌, ◌-◌, ◌≤◌, ◌<◌, ◌≡◌, ◌≢◌, refl, ◌==◌, Bool, true, false, ◌&&◌, if◌then◌else◌,
  List, [], ◌∷◌, Option, none, some, arith, Bool-cases, inl, inr,
}
use project_pintos.Sched.{◌>>=◌}
use project_pintos.Inode.{
  Disk, Inode, inode_deny_write, inode_allow_write, inode_reopen, inode_write_at,
}
use project_pintos.File.{
  InodeTable, File, store_inode, reopen_inode, file_deny_write, file_allow_write, drop_inode,
  inode_close, file_open, file_reopen, file_close, file_write,
}

-- How many of the files refer to an inode, and how many of these deny writes to it.
abbrev pub holders : ℕ → List File → ℕ
holders a [] = 0
holders a (f ∷ rest) = (if f.inode == a then 1 else 0) + holders a rest

abbrev pub denials : ℕ → List File → ℕ
denials a [] = 0
denials a (f ∷ rest) = (if f.inode == a && f.deny_write then 1 else 0) + denials a rest

pub denials_le : (a : ℕ) (fs : List File) → denials a fs ≤ holders a fs
denials_le a [] = omega arith
denials_le a (f ∷ rest) = ground (arith, denials_le a rest)

write_denied :
    (d : Disk) (i : Inode) (buffer : List ℕ) (offset : ℕ)
    → 0 < i.deny_write_cnt
    → inode_write_at d i buffer offset ≡ (d, 0)
unfolding inode_write_at
write_denied d i buffer offset h = ground arith

-- Each inode counts exactly its openers, and the denials among them. The list has a file for every opener,
-- a directory or the free map included; memory without an opener counts none.
pub record IsBalanced {Map : Type 0} (fs : List File) (t : InodeTable Map) : Type 0 where
  pub not_null : holders 0 fs ≡ 0
  pub opened : (a : ℕ) → (t.inodes a).open_cnt ≡ holders a fs
  pub denied : (a : ℕ) → (t.inodes a).deny_write_cnt ≡ denials a fs

module _ {Map : Type 0} (f : File) (rest : List File) (t : InodeTable Map) where
  -- `file_deny_write` on one of the open files fails no ASSERT and keeps the counts right; afterwards
  -- the file denies writes.
  pub file_deny_write-IsBalanced :
      IsBalanced (f ∷ rest) t
      → (f' : File) × (t' : InodeTable Map) × (file_deny_write f t ≡ some (f', t'))
        × IsBalanced (f' ∷ rest) t'
        × (f'.deny_write ≡ true)
  unfolding file_deny_write inode_deny_write
  file_deny_write-IsBalanced v = elim (Bool-cases f.deny_write) [
    | inl e ↦ (f, t, ground arith, v, e)
    | inr e ↦
        let i = t.inodes f.inode in
        let few = denials_le f.inode rest in
        (
          record f { deny_write = true },
          store_inode f.inode (record i { deny_write_cnt = i.deny_write_cnt + 1 }) t,
          ground (arith, v.opened f.inode, v.denied f.inode),
          record {
            not_null = v.not_null;
            opened = λ a. ground (arith, v.opened a);
            denied = λ a. ground (arith, v.denied a);
          },
          refl,
        )
  ]

  -- `file_allow_write` on one of the open files fails no ASSERT and keeps the counts right; afterwards
  -- the file does not deny writes.
  pub file_allow_write-IsBalanced :
      IsBalanced (f ∷ rest) t
      → (f' : File) × (t' : InodeTable Map) × (file_allow_write f t ≡ some (f', t'))
        × IsBalanced (f' ∷ rest) t'
        × (f'.inode ≡ f.inode)
        × (f'.deny_write ≡ false)
        × (t'.free_map ≡ t.free_map)
        × (t'.open_inodes ≡ t.open_inodes)
  unfolding file_allow_write inode_allow_write
  file_allow_write-IsBalanced v = elim (Bool-cases f.deny_write) [
    | inr e ↦ (f, t, ground arith, v, refl, e, refl, refl)
    | inl e ↦
        let i = t.inodes f.inode in
        let few = denials_le f.inode (f ∷ rest) in
        (
          record f { deny_write = false },
          store_inode f.inode (record i { deny_write_cnt = i.deny_write_cnt - 1 }) t,
          ground (arith, v.opened f.inode, v.denied f.inode),
          record {
            not_null = v.not_null;
            opened = λ a. ground (arith, v.opened a);
            denied = λ a. ground (arith, v.denied a);
          },
          refl,
          refl,
          refl,
          refl,
        )
  ]

  -- While one of the open files denies writes to an inode, no file writes to it: the disk and the
  -- position stay as they are, and the number of bytes written is 0.
  pub file_write-denied :
      (d : Disk) (buffer : List ℕ) (g : File)
      → IsBalanced (f ∷ rest) t
      → f.deny_write ≡ true
      → g.inode ≡ f.inode
      → file_write d t.inodes buffer g ≡ (d, 0, g)
  unfolding file_write
  file_write-denied d buffer g v e q =
      let some_denial : 0 < (t.inodes f.inode).deny_write_cnt = ground (arith, v.denied f.inode) in
      let same_pos : g.pos + 0 ≡ g.pos = omega arith in
      rw (write_denied d (t.inodes g.inode) buffer g.pos (rw q some_denial))
        (ap (λ n. (d, 0, record g { pos = n })) same_pos)

-- The open files after an attempt to open one more.
abbrev pub with_file : Option File → List File → List File
with_file none fs = fs
with_file (some f) fs = f ∷ fs

module _ {Map : Type 0} (release : ℕ → ℕ → Map → Map) (f : File) (rest : List File)
    (t : InodeTable Map) where
  -- `inode_close` on a table where the inode has an opener besides the open files.
  pub close-IsBalanced :
      (a : ℕ) (fs : List File) (u : InodeTable Map)
      → a ≢ 0
      → holders 0 fs ≡ 0
      → ((b : ℕ) → (u.inodes b).open_cnt ≡ holders b fs + (if a == b then 1 else 0))
      → ((b : ℕ) → (u.inodes b).deny_write_cnt ≡ denials b fs)
      → IsBalanced fs (inode_close release a u)
        × (holders a fs ≢ 0
            → ((inode_close release a u).free_map ≡ u.free_map)
              × ((inode_close release a u).open_inodes ≡ u.open_inodes))
  unfolding inode_close drop_inode
  close-IsBalanced a fs u ne z h g = (
    record { not_null = z; opened = λ b. ground (arith, h b); denied = λ b. ground (arith, g b) },
    λ some_holder. (ground (arith, h a), ground (arith, h a)),
  )

  -- `file_close` of one of the openers of the inodes fails no ASSERT; where each inode counted exactly its
  -- openers and the denials among them, it counts exactly the others afterwards; while another one refers to the same inode, no block is released and the inode stays open.
  pub file_close-IsBalanced :
      IsBalanced (f ∷ rest) t
      → (t' : InodeTable Map) × (file_close release f t ≡ some t')
        × IsBalanced rest t'
        × (holders f.inode rest ≢ 0 → (t'.free_map ≡ t.free_map) × (t'.open_inodes ≡ t.open_inodes))
  unfolding file_close inode_close
  file_close-IsBalanced v =
      let (f', t', runs, w, same, off, same_map, same_list) =
        file_allow_write-IsBalanced f rest t v in
      let (balanced, stays) =
        close-IsBalanced f.inode rest t' (ground (arith, v.not_null)) (ground (arith, v.not_null))
          (λ b. ground (arith, w.opened b)) (λ b. ground (arith, w.denied b)) in
      (
        inode_close release f.inode t',
        rw (runs, ◌>>=◌) refl,
        balanced,
        λ h. ((stays h).0 ∙ same_map, (stays h).1 ∙ same_list),
      )

  -- `file_reopen` of one of the open files keeps the counts right, whether memory was left for the
  -- new file or not; with memory, the new file reads the same inode from its start.
  pub file_reopen-IsBalanced :
      (allocated : Bool)
      → IsBalanced (f ∷ rest) t
      → (o : Option File) × (t' : InodeTable Map) × (file_reopen release allocated f t ≡ (o, t'))
        × IsBalanced (with_file o (f ∷ rest)) t'
        × (allocated ≡ true → o ≡ some (record { inode = f.inode; pos = 0; deny_write = false }))
  unfolding file_reopen file_open reopen_inode inode_reopen inode_close
  file_reopen-IsBalanced allocated v =
      let alive : f.inode ≢ 0 = ground (arith, v.not_null) in
      let more : InodeTable Map = reopen_inode f.inode t in
      elim (Bool-cases allocated) [
        | inl e ↦ (
          some (record { inode = f.inode; pos = 0; deny_write = false }),
          more,
          ground arith,
          record {
            not_null = ground (arith, v.not_null);
            opened = λ a. ground (arith, v.opened a);
            denied = λ a. ground (arith, v.denied a);
          },
          λ r. refl,
        )
        | inr e ↦ (
          none,
          inode_close release f.inode more,
          ground arith,
          (close-IsBalanced f.inode (f ∷ rest) more alive v.not_null
              (λ b. ground (arith, v.opened b)) (λ b. ground (arith, v.denied b))).0,
          λ r. absurd (ground arith),
        )
      ]
