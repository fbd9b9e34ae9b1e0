-- ===== src/Syscall/Install.antt =====
-- What `open` does to the table of open files, once the file system has opened the file
-- (userprog/syscall.c).
use mathlib.Core.Path.{fun_ext}
use native.Mathlib.Decide.{ℕ_discrete}
use project_pintos.Base.{
  ℕ, ◌+◌, ◌≤◌, ◌<◌, ◌≡◌, ◌≢◌, ◌⊎◌, refl, sym, ◌∙◌, ap₂, ◌==◌, ◌&&◌, Bool, true, false,
  if◌then◌else◌, List, [], ◌∷◌, ◌++◌, Option, none, some, arith, inl, inr,
}
use project_pintos.Base.Int.{ℤ, pos, negsuc}
use project_pintos.Sched.{update}
use project_pintos.File.{File}
use project_pintos.File.Balance.{IsBalanced, holders, denials}
use project_pintos.Fs.{Fs}
use project_pintos.Fs.Close.{Kept}
use project_pintos.Directory.{str_eq}
use project_pintos.Process.{Process, World, with_fs, store_file}
use project_pintos.Syscall.{free_slot, install, place, note_current}
use project_pintos.Syscall.Table.{open_from, IsTable, IsRunning}
use project_pintos.Syscall.Close.{count-close}
use project_pintos.Syscall.Slots.{Searched, free_slot_lem, placed-IsTable, open_from-heap}

-- The world in which `open` installs a file, and what holds of it: the address is new, and the inodes
-- count the file already.
pub record IsOpened (others : List File) (a : ℕ) (f : File) (t : Fs) (w : World) : Type 0 where
  pub running : IsRunning others w
  pub not_null : a ≢ 0
  pub writable : f.deny_write ≡ false
  pub fresh : (j : ℕ) → w.process.fd_used j ≡ true → w.process.files j ≢ a
  pub counted :
      IsBalanced (f ∷ (open_from 128 2 w.process.fd_used w.process.files w.heap ++ others)) t
  pub kept : Kept t

-- A new file adds its share to a count.
module _ (count : List File → ℕ) (one : File → ℕ)
    (add : (f : File) (rest : List File) → count (f ∷ rest) ≡ one f + count rest) where
  count-open :
      (i a : ℕ) (f : File) (p : Process) (heap : ℕ → File) (others : List File)
      → 2 ≤ i
      → i < 130
      → IsTable p
      → p.fd_used i ≡ false
      → ((j : ℕ) → p.fd_used j ≡ true → p.files j ≢ a)
      → count (
          open_from 128 2 (update p.fd_used i true) (update p.files i a) (update heap a f)
          ++ others)
        ≡ one f + count (open_from 128 2 p.fd_used p.files heap ++ others)
  count-open i a f p heap others high low v free fresh =
      let used_back : update (update p.fd_used i true) i false ≡ p.fd_used =
        fun_ext (λ j. by_slot j (ℕ_discrete i j)) in
      let files_back : update (update p.files i a) i 0 ≡ p.files =
        fun_ext (λ j. by_file j (ℕ_discrete i j)) in
      let used_now : update p.fd_used i true i ≡ true = ground arith in
      let file_now : update heap a f (update p.files i a i) ≡ f = ground arith in
      count-close count one add 128 2 i (update p.fd_used i true) (update p.files i a)
        (update heap a f) others high (omega arith) used_now
      ∙ ap₂ (λ g fs. one g + count (fs ++ others)) file_now
          (ap₂ (λ used files. open_from 128 2 used files (update heap a f)) used_back files_back
            ∙ open_from-heap 128 2 a f p.fd_used p.files heap fresh)
    where
      by_slot : (j : ℕ) → Dec (i ≡ j) → update (update p.fd_used i true) i false j ≡ p.fd_used j
      by_slot j (yes e) = rw (← e) (ground (arith, free))
      by_slot j (no ne) = ground arith

      by_file : (j : ℕ) → Dec (i ≡ j) → update (update p.files i a) i 0 j ≡ p.files j
      by_file j (yes e) = rw (← e) (ground (arith, v.empty i free))
      by_file j (no ne) = ground arith

  -- The place of a file in the list does not matter.
  count-middle : (f : File) (xs ys : List File) → count (xs ++ (f ∷ ys)) ≡ one f + count (xs ++ ys)
  count-middle f [] ys = add f ys
  count-middle f (x ∷ xs) ys =
      let rest = count-middle f xs ys in
      let here = add x (xs ++ (f ∷ ys)) in
      let there = add x (xs ++ ys) in omega (arith, rest, here, there)

-- A file may move behind others.
moved :
    (f : File) (xs ys : List File) (t : Fs)
    → IsBalanced (f ∷ (xs ++ ys)) t
    → IsBalanced (xs ++ (f ∷ ys)) t
moved f xs ys t v = record {
  not_null = behind 0 ∙ v.not_null;
  opened = λ b. v.opened b ∙ sym (behind b);
  denied = λ b.
      v.denied b
      ∙ sym (
          count-middle (denials b) (λ g. if g.inode == b && g.deny_write then 1 else 0)
            (λ g rest. refl) f xs ys);
}
  where
    behind : (b : ℕ) → holders b (xs ++ (f ∷ ys)) ≡ holders b (f ∷ (xs ++ ys))
    behind b =
        count-middle (holders b) (λ g. if g.inode == b then 1 else 0) (λ g rest. refl) f xs ys

module _ (others : List File) (a : ℕ) (f : File) (t : Fs) (w : World)
    (v : IsOpened others a f t w) where
  -- The counts, with the file in its place.
  placed-IsBalanced :
      (i : ℕ)
      → 2 ≤ i
      → i < 130
      → w.process.fd_used i ≡ false
      → IsBalanced
          (open_from 128 2
              (update w.process.fd_used i true)
              (update w.process.files i a)
              (update w.heap a f)
            ++ others)
          t
  placed-IsBalanced i high low free = record {
    not_null = moved_holders 0 ∙ v.counted.not_null;
    opened = λ b. rw (moved_holders b) (v.counted.opened b);
    denied = λ b. v.counted.denied b ∙ sym (moved_denials b);
  }
    where
      moved_holders :
          (b : ℕ)
          → holders b (
              open_from 128 2
                (update w.process.fd_used i true)
                (update w.process.files i a)
                (update w.heap a f)
              ++ others)
            ≡ holders b (f ∷ (open_from 128 2 w.process.fd_used w.process.files w.heap ++ others))
      moved_holders b =
          count-open (holders b) (λ g. if g.inode == b then 1 else 0) (λ g rest. refl) i a f
            w.process w.heap others high low v.running.table free v.fresh

      moved_denials :
          (b : ℕ)
          → denials b (
              open_from 128 2
                (update w.process.fd_used i true)
                (update w.process.files i a)
                (update w.heap a f)
              ++ others)
            ≡ denials b (f ∷ (open_from 128 2 w.process.fd_used w.process.files w.heap ++ others))
      moved_denials b =
          count-open (denials b) (λ g. if g.inode == b && g.deny_write then 1 else 0)
            (λ g rest. refl) i a f w.process w.heap others high low v.running.table free v.fresh

  -- The counts, where the file is in no table.
  dropped-IsBalanced :
      IsBalanced
        (open_from 128 2 w.process.fd_used w.process.files (update w.heap a f) ++ (f ∷ others))
        t
  dropped-IsBalanced =
      rw (open_from-heap 128 2 a f w.process.fd_used w.process.files w.heap v.fresh)
        (moved f (open_from 128 2 w.process.fd_used w.process.files w.heap) others t v.counted)

-- The openers outside the table after `open` returned: where it returned -1, the file that it opened is
-- one of them, since it stays open.
abbrev pub unplaced : ℤ → File → List File → List File
unplaced (pos i) f others = others
unplaced (negsuc i) f others = f ∷ others

-- What `open` returns, and what became of the table: the first free descriptor, which stands for the file
-- from then on; or -1, where no descriptor was free, and the table is as before.
abbrev pub Installed : ℕ → File → World → ℤ × World → Type 0
Installed a f w r =
    ((i : ℕ) × (r.0 ≡ pos i)
      × (2 ≤ i)
      × (i < 130)
      × (w.process.fd_used i ≡ false)
      × ((k : ℕ) → 2 ≤ k → k < i → w.process.fd_used k ≡ true)
      × (r.1.process.fd_used ≡ update w.process.fd_used i true)
      × (r.1.process.files ≡ update w.process.files i a)
      × (r.1.heap a ≡ f))
    ⊎ ((r.0 ≡ negsuc 0)
        × ((k : ℕ) → 2 ≤ k → k < 130 → w.process.fd_used k ≡ true)
        × (r.1.process.fd_used ≡ w.process.fd_used)
        × (r.1.process.files ≡ w.process.files))

noted :
    (others : List File) (a : ℕ) (f : File) (file : List ℕ) (w : World) (r : ℤ × World)
    → IsRunning (unplaced r.0 f others) r.1
    → Installed a f w r
    → IsRunning (unplaced (note_current file a r).0 f others) (note_current file a r).1
      × Installed a f w (note_current file a r)
noted others a f file w r v h = by_name (str_eq file r.1.process.name)
  where
    same_file : ℤ × World
    same_file = (r.0, record (r.1) { process = record (r.1.process) { current_file = a } })

    by_name :
        (b : Bool)
        → IsRunning
            (unplaced (if b then same_file else r).0 f others)
            (if b then same_file else r).1
          × Installed a f w (if b then same_file else r)
    by_name false = (v, h)
    by_name true = (
      record {
        table = record {
          filled = v.table.filled;
          empty = v.table.empty;
          reserved = v.table.reserved;
        };
        balanced = v.balanced;
        kept = v.kept;
      },
      h,
    )

-- `open` of a file that the file system opened, at a new address, keeps the process sound. It returns the
-- first free descriptor, which stands for the file from then on, or -1 where no descriptor is free: the
-- file is an opener outside the table then.
pub install_lem :
    (others : List File) (a : ℕ) (f : File) (t : Fs) (file : List ℕ) (w : World)
    → IsOpened others a f t w
    → IsRunning
        (unplaced (install a file (store_file a f (with_fs t w))).0 f others)
        (install a file (store_file a f (with_fs t w))).1
      × Installed a f w (install a file (store_file a f (with_fs t w)))
unfolding install
install_lem others a f t file w v =
    let (running, installed) =
      by_result (free_slot w.process.fd_used 128 2) (free_slot_lem w.process.fd_used 128 2) in
    noted others a f file w _ running installed
  where
    by_result :
        (o : Option ℕ)
        → Searched w.process.fd_used 128 2 o
        → IsRunning
            (unplaced (place o a (store_file a f (with_fs t w))).0 f others)
            (place o a (store_file a f (with_fs t w))).1
          × Installed a f w (place o a (store_file a f (with_fs t w)))
    by_result none h = (
      record {
        table = v.running.table;
        balanced = dropped-IsBalanced others a f t w v;
        kept = v.kept;
      },
      inr (refl, h, refl, refl),
    )
    by_result (some i) (high, low, free, before) = (
      record {
        table = placed-IsTable i a w.process high v.not_null v.running.table;
        balanced = placed-IsBalanced others a f t w v i high low free;
        kept = v.kept;
      },
      inl (i, refl, high, low, free, before, refl, refl, ground arith),
    )
