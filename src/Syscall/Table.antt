-- ===== src/Syscall/Table.antt =====
-- The table of open files of a process (userprog/syscall.c): which descriptors are used, and which files
-- they stand for.
use project_pintos.Base.{
  ℕ, zero, suc, ◌+◌, ◌<◌, ◌≡◌, ◌≢◌, refl, ◌∙◌, ap, ◌==◌, ltb, leb, ◌&&◌, Bool, true, false,
  if◌then◌else◌, List, [], ◌∷◌, ◌++◌, some, arith, Bool-cases, inl, inr,
}
use project_pintos.Sched.{◌>>=◌, update}
use project_pintos.File.{File}
use project_pintos.File.Balance.{IsBalanced}
use project_pintos.Fs.{Fs}
use project_pintos.Fs.Close.{Kept, close_file-Kept}
use project_pintos.Process.{Process, World, with_fs, set_entry, set_slot}
use project_pintos.Syscall.{close_pointer, close_all}

-- The files of the used ones among `n` descriptors from `i` on.
abbrev pub open_from : ℕ → ℕ → (ℕ → Bool) → (ℕ → ℕ) → (ℕ → File) → List File
open_from zero i used files heap = []
open_from (suc n) i used files heap =
    let rest = open_from n (suc i) used files heap in if used i then heap (files i) ∷ rest else rest

-- A descriptor is used where it points to a file, and the first two are for the console.
pub record IsTable (p : Process) : Type 0 where
  pub filled : (i : ℕ) → p.fd_used i ≡ true → p.files i ≢ 0
  pub empty : (i : ℕ) → p.fd_used i ≡ false → p.files i ≡ 0
  pub reserved : (i : ℕ) → i < 2 → p.fd_used i ≡ false

-- A process that is sound: its table is, the inodes count its open files and those of the others, and
-- none of the open inodes is to be deleted.
pub record IsRunning (others : List File) (w : World) : Type 0 where
  pub table : IsTable w.process
  pub balanced :
      IsBalanced (open_from 128 2 w.process.fd_used w.process.files w.heap ++ others) w.fs
  pub kept : Kept w.fs

pub emptied-IsTable : (i : ℕ) (p : Process) → IsTable p → IsTable (set_entry i 0 false p)
emptied-IsTable i p v = record {
  filled = λ j e. ground (arith, v.filled j);
  empty = λ j e. ground (arith, v.empty j);
  reserved = λ j h. ground (arith, v.reserved j);
}

-- Descriptors below the first one do not matter.
pub open_from-below :
    (n i j a : ℕ) (b : Bool) (used : ℕ → Bool) (files : ℕ → ℕ) (heap : ℕ → File)
    → j < i
    → open_from n i (update used j b) (update files j a) heap ≡ open_from n i used files heap
open_from-below zero i j a b used files heap h = refl
open_from-below (suc n) i j a b used files heap h =
    let later = open_from-below n (suc i) j a b used files heap (omega arith) in
    let other : (j == i) ≡ false = ground arith in rw (later, other) refl

-- `file_close` of the file of a used descriptor, on the counts.
pub close_pointer-Kept :
    (i : ℕ) (rest : List File) (w : World)
    → w.process.files i ≢ 0
    → IsBalanced (w.heap (w.process.files i) ∷ rest) w.fs
    → Kept w.fs
    → (t : Fs) × (close_pointer (w.process.files i) w ≡ some (with_fs t w))
      × IsBalanced rest t
      × Kept t
unfolding close_pointer
close_pointer-Kept i rest w ne v k =
    let (t, closes, balanced, kept) = close_file-Kept (w.heap (w.process.files i)) rest w.fs v k in
    let not_null : (w.process.files i == 0) ≡ false = ground arith in
    (t, rw (not_null, closes, ◌>>=◌) refl, balanced, kept)

-- What the loop of `exit` did: `n` descriptors from `i` on are unused, and all else but the file system
-- is as before.
pub record Emptied (n i : ℕ) (w w' : World) : Type 0 where
  pub used :
      (j : ℕ)
      → w'.process.fd_used j ≡ (if leb i j && ltb j (i + n) then false else w.process.fd_used j)
  pub files :
      (j : ℕ) → w'.process.files j ≡ (if leb i j && ltb j (i + n) then 0 else w.process.files j)
  pub same : w' ≡ record w {
    process = record (w.process) { files = w'.process.files; fd_used = w'.process.fd_used };
    fs = w'.fs;
  }

-- One descriptor, and the loop from the next one on.
one_more :
    (n i : ℕ) (w w1 w' : World)
    → Emptied 1 i w w1
    → Emptied n (suc i) w1 w'
    → Emptied (suc n) i w w'
one_more n i w w1 w' d e = record {
  used = λ j. ground (arith, d.used j, e.used j);
  files = λ j. ground (arith, d.files j, e.files j);
  same =
      e.same
      ∙ ap {A = World}
          (λ x. record x {
            process = record (x.process) { files = w'.process.files; fd_used = w'.process.fd_used };
            fs = w'.fs;
          })
          d.same;
}

-- A descriptor that is not used, and one that was closed.
already : (i : ℕ) (w : World) → IsTable w.process → w.process.fd_used i ≡ false → Emptied 1 i w w
already i w v e = record {
  used = λ j. ground arith;
  files = λ j. ground (arith, v.empty j);
  same = refl;
}

now : (i : ℕ) (w : World) (t : Fs) → Emptied 1 i w (set_slot i 0 false (with_fs t w))
now i w t = record { used = λ j. ground arith; files = λ j. ground arith; same = refl }

-- From a sound table the loop of `exit` ends, whatever was opened: the descriptors are unused, and the
-- inodes count the open files of the others only.
pub close_all_lem :
    (others : List File) (n i : ℕ) (w : World)
    → IsTable w.process
    → IsBalanced (open_from n i w.process.fd_used w.process.files w.heap ++ others) w.fs
    → Kept w.fs
    → (w' : World) × (close_all n i w ≡ some w')
      × Emptied n i w w'
      × IsBalanced others w'.fs
      × Kept w'.fs
unfolding close_all
close_all_lem others zero i w v b k =
    (w, refl, record { used = λ j. ground arith; files = λ j. ground arith; same = refl }, b, k)
close_all_lem others (suc n) i w v b k = elim (Bool-cases (w.process.fd_used i)) [
  | inr e ↦
      let (w', runs, d, b', k') = close_all_lem others n (suc i) w v (rw e at b) k in
      (w', rw (e, ◌>>=◌) runs, one_more n i w w w' (already i w v e) d, b', k')
  | inl e ↦
      let (t, closes, bt, kt) =
        close_pointer-Kept i
          (open_from n (suc i) w.process.fd_used w.process.files w.heap ++ others) w (v.filled i e)
          (rw e at b) k in
      let w1 = set_slot i 0 false (with_fs t w) in
      let (w', runs, d, b', k') =
        close_all_lem others n (suc i) w1 (emptied-IsTable i w.process v)
          (rw
            (open_from-below n (suc i) i 0 false w.process.fd_used w.process.files w.heap
              (omega arith))
            bt)
          kt in
      (w', rw (e, closes, ◌>>=◌) runs, one_more n i w w1 w' (now i w t) d, b', k')
]
