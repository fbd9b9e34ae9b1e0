-- ===== src/Syscall/Open.antt =====
-- `open` over the file system, and `close` after it (userprog/syscall.c).
use mathlib.Core.List.{Mem}
use mathlib.Core.Path.{subst}
use native.Mathlib.Decide.{ℕ_discrete}
use project_pintos.Base.{
  ℕ, ◌<◌, ◌≡◌, ◌≢◌, refl, sym, ◌∙◌, ap, ◌==◌, Bool, true, false, if◌then◌else◌, List, ◌++◌, Option,
  none, some, arith, inl, inr, ◌⊎◌,
}
use project_pintos.Base.Int.{ℤ, pos, negsuc, pos_part}
use project_pintos.Sched.{◌>>=◌, update}
use project_pintos.File.{File}
use project_pintos.Fs.{Fs}
use project_pintos.Process.{World, with_fs, store_file}
use project_pintos.Filesys.{Memory, filesys_open}
use project_pintos.Filesys.Openers.{Fresh, IsSteady, file_of}
use project_pintos.File.Balance.{IsBalanced, with_file}
use project_pintos.Fs.Close.{Kept}
use project_pintos.Filesys.Open.{Handed, filesys_open-IsBalanced}
use project_pintos.Syscall.{open_call, install, close}
use project_pintos.Syscall.Table.{IsTable, IsRunning}
use project_pintos.Syscall.Close.{close_lem}
use project_pintos.Syscall.Slots.{open_files}
use project_pintos.Syscall.Install.{Installed, install_lem, IsOpened, unplaced}

-- What `close` leaves of an entry that was taken before.
used_back :
    (i j : ℕ) (b : Bool) (used used' : ℕ → Bool)
    → used i ≡ false
    → used' ≡ update used i true
    → b ≡ (if i == j then false else used' j)
    → b ≡ used j
used_back i j b used used' free h q = elim (ℕ_discrete i j) [
  | yes same ↦ q ∙ rw (← same) (ground (arith, free))
  | no ne ↦ q ∙ rw h (ground arith)
]

file_back :
    (i j a x : ℕ) (files files' : ℕ → ℕ)
    → files i ≡ 0
    → files' ≡ update files i a
    → x ≡ (if i == j then 0 else files' j)
    → x ≡ files j
file_back i j a x files files' free h q = elim (ℕ_discrete i j) [
  | yes same ↦ q ∙ rw (← same) (ground (arith, free))
  | no ne ↦ q ∙ rw h (ground arith)
]

-- Closing a descriptor that was free in `w` and stands for a file in `u`.
close-placed :
    (others : List File) (a i : ℕ) (w u : World)
    → IsTable w.process
    → IsRunning others u
    → i < 130
    → w.process.fd_used i ≡ false
    → u.process.fd_used ≡ update w.process.fd_used i true
    → u.process.files ≡ update w.process.files i a
    → (w' : World) × (close (pos i) u ≡ some w')
      × IsRunning others w'
      × ((j : ℕ) → w'.process.fd_used j ≡ w.process.fd_used j)
      × ((j : ℕ) → w'.process.files j ≡ w.process.files j)
close-placed others a i w u table running low free used files =
    let now : u.process.fd_used i ≡ true = ap (λ g. g i) used ∙ taken i w.process.fd_used in
    let (w', closes, sound, cleared, unused, heap) = close_lem others i u running low now in
    (
      w',
      closes,
      sound,
      λ j.
          used_back i j (w'.process.fd_used j) w.process.fd_used u.process.fd_used free used
            (unused j),
      λ j.
          file_back i j a (w'.process.files j) w.process.files u.process.files (table.empty i free)
            files (cleared j),
    )
  where
    taken : (i : ℕ) (g : ℕ → Bool) → update g i true i ≡ true
    taken i g = ground arith

-- After `open` installed a file, which the file system opened at a new address for a sound process, closing
-- the descriptor that it returned succeeds, puts the table back as it was, and leaves the process sound.
pub close-install :
    (others : List File) (a i : ℕ) (f : File) (t : Fs) (file : List ℕ) (w : World)
    → IsOpened others a f t w
    → (install a file (store_file a f (with_fs t w))).0 ≡ pos i
    → (w' : World) × (close (pos i) (install a file (store_file a f (with_fs t w))).1 ≡ some w')
      × IsRunning others w'
      × ((j : ℕ) → w'.process.fd_used j ≡ w.process.fd_used j)
      × ((j : ℕ) → w'.process.files j ≡ w.process.files j)
close-install others a i f t file w v e =
    let (running, installed) = install_lem others a f t file w v in
    by_case (install a file (store_file a f (with_fs t w))) e running installed
  where
    by_case :
        (r : ℤ × World)
        → r.0 ≡ pos i
        → IsRunning (unplaced r.0 f others) r.1
        → Installed a f w r
        → (w' : World) × (close (pos i) r.1 ≡ some w')
          × IsRunning others w'
          × ((j : ℕ) → w'.process.fd_used j ≡ w.process.fd_used j)
          × ((j : ℕ) → w'.process.files j ≡ w.process.files j)
    by_case r e running (inr h) = absurd (clash (sym e ∙ h.0))
      where
        clash : pos i ≢ negsuc 0
        clash q = cc
    by_case r e running (inl (k, q, high, low, free, before, used, files, at)) =
        let same : k ≡ i = ap pos_part (sym q ∙ e) in
        close-placed others a i w r.1 v.running.table
          (subst (λ n. IsRunning (unplaced n f others) r.1) e running)
          (subst (λ x. x < 130) same low) (subst (λ x. w.process.fd_used x ≡ false) same free)
          (subst (λ x. r.1.process.fd_used ≡ update w.process.fd_used x true) same used)
          (subst (λ x. r.1.process.files ≡ update w.process.files x a) same files)

-- What `open` comes to. Without a name, or where the file system opens no file, the result is -1 and
-- the process is as before; a file that it opens is installed.
abbrev pub Opens : Memory → ℕ → ℕ → Option (List ℕ) → List File → World → ℤ × World → Type 0
Opens mem page a none others w r = (r ≡ (negsuc 0, w)) × IsRunning others w
Opens mem page a (some name) others w r =
    ((t : Fs) × (filesys_open mem page name w.fs ≡ some (none, t))
      × (r ≡ (negsuc 0, with_fs t w))
      × IsRunning others r.1)
    ⊎ ((t : Fs) × (b : ℕ) × (filesys_open mem page name w.fs ≡ some (some (file_of b), t))
        × Installed a (file_of b) w r
        × IsRunning (unplaced r.0 (file_of b) others) r.1)

-- `open` as a whole, for a process that is sound: where there is new memory at the three addresses that the
-- allocators return, and no open inode is at NULL, the call succeeds. Without a name, or where the file
-- system opens no file, it returns -1 and changes no descriptor; a file that the file system opened stands
-- from then on for the first free descriptor, which is the result, or stays open outside the table where no
-- descriptor is free and the result is -1. The inodes count exactly the openers there are then.
pub open_call-IsRunning :
    (mem : Memory) (page a : ℕ) (file : Option (List ℕ)) (others : List File) (w : World)
    → IsRunning others w
    → ¬ Mem 0 w.fs.open_inodes
    → Fresh mem.inode_page (open_files w ++ others) w.fs
    → Fresh page (open_files w ++ others) w.fs
    → page ≢ mem.inode_page
    → a ≢ 0
    → ((j : ℕ) → w.process.fd_used j ≡ true → w.process.files j ≢ a)
    → (r : ℤ × World) × (open_call mem page a file w ≡ some r) × Opens mem page a file others w r
unfolding open_call
open_call-IsRunning mem page a none others w v no_null fresh_root fresh other ne unused =
    ((negsuc 0, w), refl, (refl, v))
open_call-IsRunning mem page a (some file) others w v no_null fresh_root fresh other ne unused =
    let steady : IsSteady (open_files w ++ others) w.fs = record {
      balanced = v.balanced;
      kept = v.kept;
      no_null = no_null;
    } in
    by_file (
      filesys_open-IsBalanced mem page file (open_files w ++ others) w.fs steady fresh_root fresh
        other)
  where
    by_inode :
        (o : Option File) (t : Fs)
        → filesys_open mem page file w.fs ≡ some (o, t)
        → IsBalanced (with_file o (open_files w ++ others)) t
        → Kept t
        → (b : ℕ) → o ≡ some (file_of b)
        → (r : ℤ × World) × (open_call mem page a (some file) w ≡ some r)
          × Opens mem page a (some file) others w r
    by_inode o t opens balanced kept b e =
        let counted = subst (λ x. IsBalanced (with_file x (open_files w ++ others)) t) e balanced in
        let opened : IsOpened others a (file_of b) t w = record {
          running = v;
          not_null = ne;
          writable = refl;
          fresh = unused;
          counted = counted;
          kept = kept;
        } in
        let found = subst (λ x. filesys_open mem page file w.fs ≡ some (x, t)) e opens in
        let (running, installed) = install_lem others a (file_of b) t file w opened in
        (
          install a file (store_file a (file_of b) (with_fs t w)),
          rw (found, ◌>>=◌) refl,
          inr (t, b, found, installed, running),
        )

    by_file :
        Handed (open_files w ++ others) (filesys_open mem page file w.fs)
        → (r : ℤ × World) × (open_call mem page a (some file) w ≡ some r)
          × Opens mem page a (some file) others w r
    by_file (none, t, opens, balanced, kept, made) = (
      (negsuc 0, with_fs t w),
      rw (opens, ◌>>=◌) refl,
      inl (t, opens, refl, record { table = v.table; balanced = balanced; kept = kept }),
    )
    by_file (some f, t, opens, balanced, kept, made) =
        let (b, e) = made (λ q. some≢none q) in by_inode (some f) t opens balanced kept b e
      where
        some≢none : some f ≢ none
        some≢none q = cc
