-- ===== src/Process.antt =====
-- The user process as threads/thread.h and userprog/process.c keep it, and what the kernel does for it: the
-- part of `struct thread` for programs, the files it opened, its memory, the console. A call ends in one of
-- the ways of `Outcome`; `none` is a failed ASSERT, a use of a null pointer, or an access out of an array.
pub mod Command
pub mod Argv
pub mod Stack
pub mod Memory
pub mod Layout
pub mod Segment
pub mod Wait
use project_pintos.Base.{
  ℕ, zero, suc, ◌+◌, ◌*◌, ◌^◌, ◌==◌, ltb, Bool, true, false, if◌then◌else◌, List, [], ◌∷◌, Option,
  none, some,
}
use project_pintos.Base.Int.{ℤ}
use project_pintos.Sched.{update}
use project_pintos.File.{File}
use project_pintos.Palloc.{phys_base}
use project_pintos.Fs.{Fs}

-- `struct thread`, the fields that the system calls use. A `struct file *` is a number, and NULL is 0.
pub record Process : Type 0 where
  pub name : List ℕ
  pub exit_status : ℤ
  pub files : ℕ → ℕ
  pub fd_used : ℕ → Bool
  pub current_file : ℕ
  pub child_load_success : Bool

-- The process that runs, the files by their addresses, the file system, the memory of the process, the keys
-- of the keyboard by number and how many were read, what was written to the console, and the lines that
-- `exit` printed.
pub record World : Type 0 where
  pub process : Process
  pub heap : ℕ → File
  pub fs : Fs
  pub memory : ℕ → ℕ
  pub keys : ℕ → ℕ
  pub keys_read : ℕ
  pub console : List ℕ
  pub exit_lines : List (List ℕ × ℤ)

-- How a call ends: it returns to the program, or the process exits, or the machine is switched off.
pub data Outcome {ℓ} (A : Type ℓ) : Type ℓ where
  returns : A → World → Outcome A
  exits : World → Outcome A
  powers_off : World → Outcome A

abbrev pub with_fs : Fs → World → World
with_fs t w = record w { fs = t }

-- The descriptor `fd` now refers to the file at address `a`, or to none.
abbrev pub set_entry : ℕ → ℕ → Bool → Process → Process
set_entry fd a used p = record p { files = update p.files fd a; fd_used = update p.fd_used fd used }

abbrev pub set_slot : ℕ → ℕ → Bool → World → World
set_slot fd a used w = record w { process = set_entry fd a used w.process }

abbrev pub store_file : ℕ → File → World → World
store_file a f w = record w { heap = update w.heap a f }

-- `is_user_vaddr`.
unfoldable pub is_user_vaddr : ℕ → Bool
is_user_vaddr vaddr = ltb vaddr phys_base

-- Bytes of the memory from an address on, and a write of bytes to it.
abbrev pub load_bytes : (ℕ → ℕ) → ℕ → ℕ → List ℕ
load_bytes m a zero = []
load_bytes m a (suc n) = m a ∷ load_bytes m (suc a) n

abbrev pub store_bytes : (ℕ → ℕ) → ℕ → List ℕ → ℕ → ℕ
store_bytes m a [] = m
store_bytes m a (b ∷ bytes) = store_bytes (update m a b) (suc a) bytes

-- The `unsigned` at an address.
abbrev pub load_word : (ℕ → ℕ) → ℕ → ℕ
load_word m a = m a + 256 * (m (a + 1) + 256 * (m (a + 2) + 256 * m (a + 3)))

-- The string at an address, of at most `n` bytes.
abbrev pub load_string : (ℕ → ℕ) → ℕ → ℕ → List ℕ
load_string m zero a = []
load_string m (suc n) a = let rest = load_string m n (suc a) in if m a == 0 then [] else m a ∷ rest
