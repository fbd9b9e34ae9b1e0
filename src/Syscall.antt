-- ===== src/Syscall.antt =====
-- userprog/syscall.c: the system calls. `none` is a failed ASSERT, a use of a null pointer, or an access
-- out of an array. What `malloc`, `calloc` and the stack hold is an argument. A section that a semaphore
-- guards is one step, so `mutex` and `fd_wait` are as they were when a call ends.
pub mod Numbers
pub mod Transfer
pub mod Table
pub mod Close
pub mod Slots
pub mod Install
pub mod Open
pub mod Deny
pub mod Handler
pub mod Arguments
use project_pintos.Base.{
  ℕ, zero, suc, ◌+◌, ◌-◌, ◌^◌, ◌==◌, ltb, leb, Bool, true, false, not, ◌&&◌, if◌then◌else◌, List,
  [], ◌∷◌, ◌++◌, Option, none, some, length,
}
use project_pintos.Base.Int.{ℤ, pos, negsuc}
use project_pintos.Base.Word.{wrap32}
use project_pintos.Sched.{◌>>=◌, ◌>>◌, assert, update}
use project_pintos.File.{
  File, file_read, file_write, file_length, file_seek, file_tell, file_deny_write,
}
use project_pintos.Directory.{Entry, str_eq}
use project_pintos.Fs.{Fs, with_disk, close_file}
use project_pintos.Filesys.{Memory, filesys_create, filesys_open, filesys_remove}
use project_pintos.Process.{
  Process, World, Outcome, returns, exits, powers_off, with_fs, set_slot, store_file, is_user_vaddr,
  load_bytes, store_bytes,
}
use project_pintos.Process.Command.{get_command}

-- `file_close` of a pointer.
unfoldable pub close_pointer : ℕ → World → Option World
unfolding close_file
close_pointer a w =
    if a == 0 then some w else (do t ← close_file (w.heap a) w.fs; some (with_fs t w))

-- The loop of `exit` over `n` descriptors from `i` on.
unfoldable pub close_all : ℕ → ℕ → World → Option World
unfolding close_pointer
close_all zero i w = some w
close_all (suc n) i w = do
  w' ←
      if w.process.fd_used i
      then (do closed ← close_pointer (w.process.files i) w; some (set_slot i 0 false closed))
      else some w
  close_all n (suc i) w'

-- `exit`, which does not return; `thread_exit` ends the thread.
unfoldable pub exit {ℓ} : {A : Type ℓ} → ℤ → World → Option (Outcome A)
unfolding close_all
exit status w = do
  w' ← close_all 128 2 (record w { process = record (w.process) { exit_status = status } })
  some (exits (record w' { exit_lines = (w'.process.name, status) ∷ w'.exit_lines }))

-- `check_address`, and what follows it where it returns.
unfoldable pub check_address {ℓ} :
    {A : Type ℓ} → ℕ → World → Option (Outcome A) → Option (Outcome A)
unfolding is_user_vaddr exit
check_address addr w next = if is_user_vaddr addr then next else exit (negsuc 0) w

-- `halt`.
unfoldable pub halt {ℓ} : {A : Type ℓ} → World → Option (Outcome A)
halt w = some (powers_off w)

-- An entry of the arrays `files` and `fd_used`.
abbrev pub in_table : ℤ → Option ℕ
in_table (pos n) = if ltb n 130 then some n else none
in_table (negsuc n) = none

-- The test `2 <= fd && fd < 130`.
abbrev pub descriptor : ℤ → Option ℕ
descriptor (pos n) = if leb 2 n && ltb n 130 then some n else none
descriptor (negsuc n) = none

-- The test `fd == n`.
abbrev pub is_fd : ℤ → ℕ → Bool
is_fd (pos m) n = m == n
is_fd (negsuc m) n = false

-- The loop of `open`: the first of `n` descriptors from `i` on that is not used.
unfoldable pub free_slot : (ℕ → Bool) → ℕ → ℕ → Option ℕ
free_slot used zero i = none
free_slot used (suc n) i = let later = free_slot used n (suc i) in if used i then later else some i

-- What `open` does with a file that was opened, at address `a`: it takes a free descriptor, and notes the
-- file where it has the name of the process.
abbrev pub place : Option ℕ → ℕ → World → ℤ × World
place none a w = (negsuc 0, w)
place (some i) a w = (pos i, set_slot i a true w)

abbrev pub note_current : List ℕ → ℕ → ℤ × World → ℤ × World
note_current file a r =
    if str_eq file r.1.process.name
    then (r.0, record (r.1) { process = record (r.1.process) { current_file = a } })
    else r

unfoldable pub install : ℕ → List ℕ → World → ℤ × World
unfolding free_slot
install a file w = note_current file a (place (free_slot w.process.fd_used 128 2) a w)

-- `open`, where memory for the file is at `a`; the argument is none for NULL.
unfoldable pub open_call : Memory → ℕ → ℕ → Option (List ℕ) → World → Option (ℤ × World)
unfolding filesys_open install
open_call mem page a none w = some (negsuc 0, w)
open_call mem page a (some file) w = do
  (new_file, t) ← filesys_open mem page file w.fs
  elim new_file [
    | none ↦ some (negsuc 0, with_fs t w)
    | some f ↦ some (install a file (store_file a f (with_fs t w)))
  ]

-- `create` and `remove`.
unfoldable pub create : Memory → Entry → Option (List ℕ) → ℕ → World → Option (Outcome Bool)
unfolding exit filesys_create
create mem garbage none initial_size w = exit (negsuc 0) w
create mem garbage (some file) initial_size w = do
  (success, t) ← filesys_create mem garbage file initial_size w.fs
  some (returns success (with_fs t w))

unfoldable pub remove : Memory → ℕ → List ℕ → World → Option (Bool × World)
unfolding filesys_remove
remove mem page file w = do
  (success, t) ← filesys_remove mem page file w.fs
  some (success, with_fs t w)

-- A use of the file that an entry of `files` points to, which must not be NULL.
abbrev pub file_at : ℤ → World → Option ℕ
file_at fd w = do i ← in_table fd; assert (not (w.process.files i == 0)); some (w.process.files i)

-- `filesize`, `seek` and `tell`.
unfoldable pub filesize : ℤ → World → Option ℤ
unfolding file_length
filesize fd w = do a ← file_at fd w; some (wrap32 (pos (file_length w.fs.inodes (w.heap a))))

unfoldable pub seek : ℤ → ℕ → World → Option World
unfolding file_seek
seek fd position w = do
  a ← file_at fd w
  assert (ltb position (2 ^ 31))
  some (store_file a (file_seek position (w.heap a)) w)

unfoldable pub tell : ℤ → World → Option ℤ
unfolding file_tell
tell fd w = do a ← file_at fd w; some (wrap32 (pos (file_tell (w.heap a))))

-- `close`.
unfoldable pub close : ℤ → World → Option World
unfolding close_pointer
close fd w = do
  i ← in_table fd
  w' ← close_pointer (w.process.files i) w
  some (set_slot i 0 false w')
