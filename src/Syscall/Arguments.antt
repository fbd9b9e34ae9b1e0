-- ===== src/Syscall/Arguments.antt =====
-- Which words of the stack the handler of system calls checks and reads (userprog/syscall.c).
use native.Mathlib.Decide.{ℕ_discrete}
use project_pintos.Base.{
  Bool-cases, inl, inr, ◌⊎◌, ◌∙◌, get_elem?, ℕ, zero, suc, ◌+◌, ◌*◌, ◌<◌, ◌≤◌, ◌≡◌, refl, true,
  false, Option, none, some, arith,
}
use project_pintos.Base.Int.{ℤ, negsuc}
use project_pintos.Process.{World, Outcome, is_user_vaddr, load_word}
use project_pintos.Syscall.{exit, check_address}
use project_pintos.Syscall.Handler.{
  Processes, Allocated, SyscallNumber, numbers, arity, check_arguments, run_call, syscall_handler,
  sys_halt, sys_exit, sys_exec, sys_wait, sys_create, sys_remove, sys_open, sys_filesize, sys_read,
  sys_write, sys_seek, sys_tell, sys_close, sys_fibo, sys_max,
}

-- The checks of `n` arguments: all are in the memory of the program and the call goes on, or one is not and
-- the process exits.
abbrev Checked : {A : Type 0} → ℕ → ℕ → ℕ → World → Option (Outcome A) → Option (Outcome A) → Type 0
Checked n i esp w next r =
    (((k : ℕ) → i ≤ k → k < i + n → is_user_vaddr (esp + 4 * k) ≡ true) × (r ≡ next))
    ⊎ ((k : ℕ) × (i ≤ k)
        × (k < i + n)
        × (is_user_vaddr (esp + 4 * k) ≡ false)
        × (r ≡ exit (negsuc 0) w))

check_arguments-Checked :
    {A : Type 0} (n i esp : ℕ) (w : World) (next : Option (Outcome A))
    → Checked n i esp w next (check_arguments n i esp w next)
unfolding check_address
check_arguments-Checked {A} zero i esp w next = inl (λ k low high. absurd (omega arith), refl)
check_arguments-Checked {A} (suc n) i esp w next = elim (Bool-cases (is_user_vaddr (esp + 4 * i))) [
  | inr e ↦ inr (i, omega arith, omega arith, e, rw e refl)
  | inl e ↦ rw e (
      first e (check_arguments n (suc i) esp w next) (check_arguments-Checked n (suc i) esp w next))
]
  where
    first :
        is_user_vaddr (esp + 4 * i) ≡ true
        → (r : Option (Outcome A)) → Checked n (suc i) esp w next r
        → Checked (suc n) i esp w next r
    first e r (inr (k, low, high, out, h)) = inr (k, omega arith, omega arith, out, h)
    first e r (inl (inside, h)) = inl (
      λ k low high. elim (ℕ_discrete i k) [
        | yes q ↦ rw (← q) e
        | no ne ↦ inside k (omega arith) (omega arith)
      ],
      h,
    )

-- A call reads no more arguments than its arity.
run_call-arity :
    (procs : Processes) (alloc : Allocated) (c : Option SyscallNumber) (arg arg' : ℕ → ℕ)
    (w : World)
    → ((k : ℕ) → 1 ≤ k → k ≤ arity c → arg k ≡ arg' k)
    → run_call procs alloc c arg w ≡ run_call procs alloc c arg' w
unfolding run_call
run_call-arity procs alloc none arg arg' w h = refl
run_call-arity procs alloc (some sys_halt) arg arg' w h = refl
run_call-arity procs alloc (some sys_exit) arg arg' w h = rw (h 1 (omega arith) (omega arith)) refl
run_call-arity procs alloc (some sys_exec) arg arg' w h = rw (h 1 (omega arith) (omega arith)) refl
run_call-arity procs alloc (some sys_wait) arg arg' w h = rw (h 1 (omega arith) (omega arith)) refl
run_call-arity procs alloc (some sys_create) arg arg' w h =
    rw (h 1 (omega arith) (omega arith), h 2 (omega arith) (omega arith)) refl
run_call-arity procs alloc (some sys_remove) arg arg' w h =
    rw (h 1 (omega arith) (omega arith)) refl
run_call-arity procs alloc (some sys_open) arg arg' w h = rw (h 1 (omega arith) (omega arith)) refl
run_call-arity procs alloc (some sys_filesize) arg arg' w h =
    rw (h 1 (omega arith) (omega arith)) refl
run_call-arity procs alloc (some sys_read) arg arg' w h =
    rw
      (
        h 1 (omega arith) (omega arith),
        h 2 (omega arith) (omega arith),
        h 3 (omega arith) (omega arith),
      )
      refl
run_call-arity procs alloc (some sys_write) arg arg' w h =
    rw
      (
        h 1 (omega arith) (omega arith),
        h 2 (omega arith) (omega arith),
        h 3 (omega arith) (omega arith),
      )
      refl
run_call-arity procs alloc (some sys_seek) arg arg' w h =
    rw (h 1 (omega arith) (omega arith), h 2 (omega arith) (omega arith)) refl
run_call-arity procs alloc (some sys_tell) arg arg' w h = rw (h 1 (omega arith) (omega arith)) refl
run_call-arity procs alloc (some sys_close) arg arg' w h = rw (h 1 (omega arith) (omega arith)) refl
run_call-arity procs alloc (some sys_fibo) arg arg' w h = rw (h 1 (omega arith) (omega arith)) refl
run_call-arity procs alloc (some sys_max) arg arg' w h =
    rw
      (
        h 1 (omega arith) (omega arith),
        h 2 (omega arith) (omega arith),
        h 3 (omega arith) (omega arith),
        h 4 (omega arith) (omega arith),
      )
      refl

-- The handler checks every word that it reads. With `arg` any values that agree with the words on the
-- stack for the arguments up to the arity of the call: either the number of the call and these arguments
-- all start in the memory of the program, and the handler does the call on `arg`, so that no other word is
-- read; or one of them starts outside, the process exits with status -1, and nothing of the call is done.
pub syscall_handler-outside :
    (procs : Processes) (alloc : Allocated) (esp : ℕ) (w : World) (arg : ℕ → ℕ)
    → let number = get_elem? numbers (load_word w.memory esp) in
      ((k : ℕ) → 1 ≤ k → k ≤ arity number → load_word w.memory (esp + 4 * k) ≡ arg k)
      → (((k : ℕ) → k ≤ arity number → is_user_vaddr (esp + 4 * k) ≡ true)
          × (syscall_handler procs alloc esp w ≡ run_call procs alloc number arg w))
        ⊎ ((k : ℕ) × (k ≤ arity number)
            × (is_user_vaddr (esp + 4 * k) ≡ false)
            × (syscall_handler procs alloc esp w ≡ exit (negsuc 0) w))
unfolding syscall_handler check_address
syscall_handler-outside procs alloc esp w arg agree =
    let number = get_elem? numbers (load_word w.memory esp) in
    let words = λ (i : ℕ). load_word w.memory (esp + 4 * i) in
    let first : esp + 4 * 0 ≡ esp = omega arith in
    elim (Bool-cases (is_user_vaddr esp)) [
      | inr e ↦ inr (0, omega arith, rw first e, rw e refl)
      | inl e ↦ rw e (
          by_check e (check_arguments (arity number) 1 esp w (run_call procs alloc number words w))
            (check_arguments-Checked (arity number) 1 esp w (run_call procs alloc number words w)))
    ]
  where
    all_inside :
        (n k : ℕ)
        → is_user_vaddr esp ≡ true
        → ((k : ℕ) → 1 ≤ k → k < 1 + n → is_user_vaddr (esp + 4 * k) ≡ true)
        → k ≤ n
        → is_user_vaddr (esp + 4 * k) ≡ true
    all_inside n zero e h few = let first : esp + 4 * 0 ≡ esp = omega arith in rw first e
    all_inside n (suc k) e h few = h (suc k) (omega arith) (omega arith)

    by_check :
        is_user_vaddr esp ≡ true
        → (r : Option (Outcome (Option ℤ)))
        → Checked
            (arity (get_elem? numbers (load_word w.memory esp)))
            1
            esp
            w
            (run_call procs alloc
              (get_elem? numbers (load_word w.memory esp))
              (λ i. load_word w.memory (esp + 4 * i))
              w)
            r
        → (((k : ℕ)
              → k ≤ arity (get_elem? numbers (load_word w.memory esp))
              → is_user_vaddr (esp + 4 * k) ≡ true)
            × (r ≡ run_call procs alloc (get_elem? numbers (load_word w.memory esp)) arg w))
          ⊎ ((k : ℕ) × (k ≤ arity (get_elem? numbers (load_word w.memory esp)))
              × (is_user_vaddr (esp + 4 * k) ≡ false)
              × (r ≡ exit (negsuc 0) w))
    by_check e r (inr (k, low, high, out, h)) = inr (k, omega arith, out, h)
    by_check e r (inl (inside, h)) = inl (
      λ k few. all_inside (arity (get_elem? numbers (load_word w.memory esp))) k e inside few,
      h ∙ run_call-arity procs alloc (get_elem? numbers (load_word w.memory esp)) _ arg w agree,
    )
