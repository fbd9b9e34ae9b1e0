-- ===== src/Syscall/Close.antt =====
-- What `exit` and `close` do to the table of open files (userprog/syscall.c).
use mathlib.Core.Bool.{true≢false}
use native.Mathlib.Decide.{ℕ_discrete}
use project_pintos.Base.{
  ℕ, zero, suc, ◌+◌, ◌≤◌, ◌<◌, ◌≡◌, refl, sym, ◌∙◌, ap, ◌==◌, ltb, leb, ◌&&◌, Bool, true, false,
  if◌then◌else◌, List, ◌∷◌, ◌++◌, some, arith, Bool-cases, inl, inr,
}
use project_pintos.Base.Int.{ℤ, pos}
use project_pintos.Sched.{◌>>=◌, update}
use project_pintos.File.{File}
use project_pintos.File.Balance.{IsBalanced, holders, denials}
use project_pintos.Process.{Process, World, exits, with_fs, set_slot}
use project_pintos.Syscall.{exit, close}
use project_pintos.Syscall.Table.{
  open_from, IsTable, IsRunning, emptied-IsTable, open_from-below, close_pointer-Kept,
  close_all_lem,
}

cleared_used :
    (i : ℕ) (b : Bool)
    → i < 130
    → (i < 2 → b ≡ false)
    → (if leb 2 i && ltb i (2 + 128) then false else b) ≡ false
cleared_used i b h r = ground arith

cleared_file :
    (i a : ℕ) → i < 130 → (i < 2 → a ≡ 0) → (if leb 2 i && ltb i (2 + 128) then 0 else a) ≡ 0
cleared_file i a h r = ground arith

-- A used descriptor is not for the console.
pub used_high : (p : Process) (fd : ℕ) → IsTable p → p.fd_used fd ≡ true → 2 ≤ fd
used_high p fd v used = elim (Bool-cases (ltb fd 2)) [
  | inl e ↦ absurd (true≢false (sym used ∙ v.reserved fd (ground arith)))
  | inr e ↦ ground arith
]

-- A count over lists of files, of which one used descriptor gives its share.
module _ (count : List File → ℕ) (one : File → ℕ)
    (add : (f : File) (rest : List File) → count (f ∷ rest) ≡ one f + count rest) where
  pub count-close :
      (n i fd : ℕ) (used : ℕ → Bool) (files : ℕ → ℕ) (heap : ℕ → File) (others : List File)
      → i ≤ fd
      → fd < i + n
      → used fd ≡ true
      → count (open_from n i used files heap ++ others)
        ≡ one (heap (files fd))
          + count (open_from n i (update used fd false) (update files fd 0) heap ++ others)
  count-close zero i fd used files heap others low high u = absurd (omega arith)
  count-close (suc n) i fd used files heap others low high u = elim (ℕ_discrete fd i) [
    | yes e ↦
        let here : (fd == i) ≡ true = ground arith in
        let used_here : used i ≡ true = rw e at u in
        rw (here, used_here, open_from-below n (suc i) fd 0 false used files heap (omega arith))
          (add _ _
            ∙ ap (λ j. one (heap (files j)) + count (open_from n (suc i) used files heap ++ others))
                (sym e))
    | no ne ↦
        let other : (fd == i) ≡ false = ground arith in
        let later = count-close n (suc i) fd used files heap others (omega arith) (omega arith) u in
        elim (Bool-cases (used i)) [
          | inl h ↦ rw (other, h) (omega (arith, add, later))
          | inr h ↦ rw (other, h) later
        ]
  ]

-- The counts with the file of one used descriptor in front.
pub front-IsBalanced :
    (fd : ℕ) (others : List File) (w : World)
    → 2 ≤ fd
    → fd < 130
    → w.process.fd_used fd ≡ true
    → IsBalanced (open_from 128 2 w.process.fd_used w.process.files w.heap ++ others) w.fs
    → IsBalanced
        (w.heap (w.process.files fd)
          ∷ (open_from 128 2
                (update w.process.fd_used fd false)
                (update w.process.files fd 0)
                w.heap
              ++ others))
        w.fs
front-IsBalanced fd others w high low u v = record {
  not_null = sym (moved_holders 0) ∙ v.not_null;
  opened = λ a. rw (← moved_holders a) (v.opened a);
  denied = λ a. v.denied a ∙ moved_denials a;
}
  where
    moved_holders :
        (a : ℕ)
        → holders a (open_from 128 2 w.process.fd_used w.process.files w.heap ++ others)
          ≡ holders a (
              w.heap (w.process.files fd)
              ∷ (open_from 128 2
                    (update w.process.fd_used fd false)
                    (update w.process.files fd 0)
                    w.heap
                  ++ others))
    moved_holders a =
        count-close (holders a) (λ f. if f.inode == a then 1 else 0) (λ f rest. refl) 128 2 fd
          w.process.fd_used w.process.files w.heap others high (omega arith) u

    moved_denials :
        (a : ℕ)
        → denials a (open_from 128 2 w.process.fd_used w.process.files w.heap ++ others)
          ≡ denials a (
              w.heap (w.process.files fd)
              ∷ (open_from 128 2
                    (update w.process.fd_used fd false)
                    (update w.process.files fd 0)
                    w.heap
                  ++ others))
    moved_denials a =
        count-close (denials a) (λ f. if f.inode == a && f.deny_write then 1 else 0)
          (λ f rest. refl) 128 2 fd w.process.fd_used w.process.files w.heap others high
          (omega arith) u

-- `exit` of a process with a sound table, where the inodes count exactly the openers and none of them is to be
-- deleted, panics nowhere and ends the process: its status is stored and printed with its
-- name, none of the descriptors of the table is used any more, and each inode counts exactly the openers
-- outside the process.
pub exit_lem :
    (others : List File) (status : ℤ) (w : World)
    → IsRunning others w
    → (w' : World) × (exit {A = ℤ} status w ≡ some (exits w'))
      × (w'.process.exit_status ≡ status)
      × (w'.exit_lines ≡ (w.process.name, status) ∷ w.exit_lines)
      × ((i : ℕ) → i < 130 → (w'.process.fd_used i ≡ false) × (w'.process.files i ≡ 0))
      × IsBalanced others w'.fs
unfolding exit
exit_lem others status w v =
    let marked = record w { process = record (w.process) { exit_status = status } } in
    let table : IsTable marked.process = record {
      filled = v.table.filled;
      empty = v.table.empty;
      reserved = v.table.reserved;
    } in
    let (w', runs, d, balanced, kept) = close_all_lem others 128 2 marked table v.balanced v.kept in
    (
      record w' { exit_lines = (w'.process.name, status) ∷ w'.exit_lines },
      rw (runs, ◌>>=◌) refl,
      ap (λ x. x.process.exit_status) d.same,
      ap (λ x. (x.process.name, status) ∷ x.exit_lines) d.same,
      λ i h. (
        d.used i ∙ cleared_used i (w.process.fd_used i) h (v.table.reserved i),
        d.files i
            ∙ cleared_file i (w.process.files i) h (λ q. v.table.empty i (v.table.reserved i q)),
      ),
      balanced,
    )

-- `close` of a used descriptor of a sound process succeeds and leaves the process sound: that descriptor is
-- unused, the others and their files are as before, and the inode counts one open file less.
pub close_lem :
    (others : List File) (fd : ℕ) (w : World)
    → IsRunning others w
    → fd < 130
    → w.process.fd_used fd ≡ true
    → (w' : World) × (close (pos fd) w ≡ some w')
      × IsRunning others w'
      × ((i : ℕ) → w'.process.files i ≡ (if fd == i then 0 else w.process.files i))
      × ((i : ℕ) → w'.process.fd_used i ≡ (if fd == i then false else w.process.fd_used i))
      × (w'.heap ≡ w.heap)
unfolding close
close_lem others fd w v low used =
    let inside : ltb fd 130 ≡ true = ground arith in
    let high = used_high w.process fd v.table used in
    let (t, closes, balanced, kept) =
      close_pointer-Kept fd
        (open_from 128 2 (update w.process.fd_used fd false) (update w.process.files fd 0) w.heap
          ++ others)
        w (v.table.filled fd used) (front-IsBalanced fd others w high low used v.balanced) v.kept in
    (
      set_slot fd 0 false (with_fs t w),
      rw (inside, ◌>>=◌) (rw (closes, ◌>>=◌) refl),
      record { table = emptied-IsTable fd w.process v.table; balanced = balanced; kept = kept },
      λ i. refl,
      λ i. refl,
      refl,
    )
