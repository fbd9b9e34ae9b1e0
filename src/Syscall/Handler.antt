-- ===== src/Syscall/Handler.antt =====
-- userprog/syscall.c: `exec`, `wait`, and the handler of the interrupt, which finds the number of the call
-- and its arguments on the stack of the program. What userprog/process.c does is an interface.
use project_pintos.Base.{
  [], ◌∷◌, get_elem?, ℕ, zero, suc, ◌+◌, ◌-◌, ◌*◌, ◌==◌, Bool, if◌then◌else◌, List, Option, none,
  some,
}
use project_pintos.Base.Int.{ℤ, pos, negsuc}
use project_pintos.Base.Word.{wrap32}
use project_pintos.Sched.{◌>>=◌}
use project_pintos.Directory.{Entry}
use project_pintos.Filesys.{Memory, filesys_open}
use project_pintos.Palloc.{phys_base}
use project_pintos.Process.{
  World, Outcome, returns, exits, powers_off, with_fs, load_word, load_string,
}
use project_pintos.Process.Command.{get_command}
use project_pintos.Syscall.{
  exit, check_address, halt, open_call, create, remove, filesize, seek, tell, close,
}
use project_pintos.Syscall.Transfer.{read, write}
use project_pintos.Syscall.Numbers.{fibonacci, max_of_four_int}

-- What the handler uses of userprog/process.c: `process_execute` and `process_wait`, to their returns.
pub record Processes : Type 0 where
  pub process_execute : List ℕ → World → Option (ℤ × World)
  pub process_wait : ℤ → World → Option (ℤ × World)

-- What the allocator and the stack hold in a call.
pub record Allocated : Type 0 where
  pub memory : Memory
  pub page : ℕ
  pub file_page : ℕ
  pub garbage : Entry
  pub malloc : ℕ → Option (List ℤ)

-- A call that returned what goes to `f->eax`, or that left it.
abbrev pub answer : Option (Outcome ℤ) → Option (Outcome (Option ℤ))
answer none = none
answer (some (returns a w)) = some (returns (some a) w)
answer (some (exits w)) = some (exits w)
answer (some (powers_off w)) = some (powers_off w)

abbrev pub with_answer : Option (ℤ × World) → Option (Outcome (Option ℤ))
with_answer o = do (a, w) ← o; some (returns (some a) w)

abbrev pub without_answer : Option World → Option (Outcome (Option ℤ))
without_answer o = do w ← o; some (returns none w)

abbrev pub of_bool : Bool → ℤ
of_bool b = if b then pos 1 else pos 0

abbrev pub bool_answer : Option (Outcome Bool) → Option (Outcome (Option ℤ))
bool_answer none = none
bool_answer (some (returns b w)) = some (returns (some (of_bool b)) w)
bool_answer (some (exits w)) = some (exits w)
bool_answer (some (powers_off w)) = some (powers_off w)

-- The checks of `n` arguments from number `i` on.
abbrev pub check_arguments {ℓ} :
    {A : Type ℓ} → ℕ → ℕ → ℕ → World → Option (Outcome A) → Option (Outcome A)
check_arguments zero i esp w next = next
check_arguments (suc n) i esp w next =
    check_address (esp + 4 * i) w (check_arguments n (suc i) esp w next)

-- The string at an address: it ends at its terminator, or where the memory of the program does.
abbrev pub string_at : ℕ → World → List ℕ
string_at p w = load_string w.memory (phys_base - p) p

-- The same for a pointer that may be NULL.
abbrev pub string_or_null : ℕ → World → Option (List ℕ)
string_or_null p w = if p == 0 then none else some (string_at p w)

-- The numbers of lib/syscall-nr.h that the handler knows, in their order.
pub data SyscallNumber : Type 0 where
  sys_halt sys_exit sys_exec sys_wait sys_create sys_remove sys_open sys_filesize sys_read sys_write
        sys_seek sys_tell sys_close sys_fibo sys_max :
      SyscallNumber

abbrev pub numbers : List SyscallNumber
numbers =
    sys_halt ∷ sys_exit ∷ sys_exec ∷ sys_wait ∷ sys_create ∷ sys_remove ∷ sys_open ∷ sys_filesize
    ∷ sys_read ∷ sys_write ∷ sys_seek ∷ sys_tell ∷ sys_close ∷ sys_fibo ∷ sys_max ∷ []

-- The number of arguments that a call checks.
abbrev pub arity : Option SyscallNumber → ℕ
arity none = 0
arity (some sys_halt) = 0
arity (some sys_create) = 2
arity (some sys_read) = 3
arity (some sys_write) = 3
arity (some sys_seek) = 2
arity (some sys_max) = 4
arity (some _) = 1

module _ (procs : Processes) (alloc : Allocated) where
  -- `exec`: the file that it opens stays open.
  unfoldable pub exec : List ℕ → World → Option (ℤ × World)
  unfolding filesys_open
  exec filename w = do
    command ← get_command filename
    (file, t) ← filesys_open alloc.memory alloc.page command w.fs
    (res, w') ← elim file [
      | none ↦ some (negsuc 0, with_fs t w)
      | some f ↦ procs.process_execute filename (with_fs t w)
    ]
    some (if w'.process.child_load_success then res else negsuc 0, w')

  -- `wait`.
  unfoldable pub wait : ℤ → World → Option (ℤ × World)
  wait pid w = procs.process_wait pid w

  -- The cases of the handler, each after its checks; `arg` is the word of an argument.
  unfoldable pub run_call : Option SyscallNumber → (ℕ → ℕ) → World → Option (Outcome (Option ℤ))
  unfolding exec wait
  run_call (some sys_halt) arg w = halt w
  run_call (some sys_exit) arg w = exit (wrap32 (pos (arg 1))) w
  run_call (some sys_exec) arg w = do
    filename ← string_or_null (arg 1) w
    with_answer (exec filename w)
  run_call (some sys_wait) arg w = with_answer (wait (wrap32 (pos (arg 1))) w)
  run_call (some sys_create) arg w =
      bool_answer (create alloc.memory alloc.garbage (string_or_null (arg 1) w) (arg 2) w)
  run_call (some sys_remove) arg w = do
    file ← string_or_null (arg 1) w
    (b, w') ← remove alloc.memory alloc.page file w
    some (returns (some (of_bool b)) w')
  run_call (some sys_open) arg w =
      with_answer (open_call alloc.memory alloc.page alloc.file_page (string_or_null (arg 1) w) w)
  run_call (some sys_filesize) arg w = do
    size ← filesize (wrap32 (pos (arg 1))) w
    some (returns (some size) w)
  run_call (some sys_read) arg w = answer (read (wrap32 (pos (arg 1))) (arg 2) (arg 3) w)
  run_call (some sys_write) arg w = answer (write (wrap32 (pos (arg 1))) (arg 2) (arg 3) w)
  run_call (some sys_seek) arg w = without_answer (seek (wrap32 (pos (arg 1))) (arg 2) w)
  run_call (some sys_tell) arg w = do
    position ← tell (wrap32 (pos (arg 1))) w
    some (returns (some position) w)
  run_call (some sys_close) arg w = without_answer (close (wrap32 (pos (arg 1))) w)
  run_call (some sys_fibo) arg w = do
    res ← fibonacci alloc.malloc (wrap32 (pos (arg 1)))
    some (returns (some res) w)
  run_call (some sys_max) arg w = some (
      returns
        (some (
          max_of_four_int (wrap32 (pos (arg 1))) (wrap32 (pos (arg 2))) (wrap32 (pos (arg 3)))
            (wrap32 (pos (arg 4)))))
        w)
  run_call none arg w = some (returns none w)

  -- `syscall_handler`, at the stack pointer `esp` of the program.
  unfoldable pub syscall_handler : ℕ → World → Option (Outcome (Option ℤ))
  unfolding check_address run_call
  syscall_handler esp w =
      let number = get_elem? numbers (load_word w.memory esp) in
      check_address esp w (
        check_arguments (arity number) 1 esp w
          (run_call number (λ i. load_word w.memory (esp + 4 * i)) w))
