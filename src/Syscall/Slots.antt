-- ===== src/Syscall/Slots.antt =====
-- The search of `open` for a descriptor, and the table with one more file (userprog/syscall.c).
use native.Mathlib.Decide.{ℕ_discrete}
use project_pintos.Base.{
  ℕ, zero, suc, ◌+◌, ◌≤◌, ◌<◌, ◌≡◌, ◌≢◌, refl, ◌==◌, Bool, true, false, List, Option, none, some,
  arith, Bool-cases, inl, inr,
}
use project_pintos.Sched.{update}
use project_pintos.File.{File}
use project_pintos.Process.{Process, World, set_entry}
use project_pintos.Syscall.{free_slot}
use project_pintos.Syscall.Table.{open_from, IsTable}

-- The open files of the process.
abbrev pub open_files : World → List File
open_files w = open_from 128 2 w.process.fd_used w.process.files w.heap

-- What a search for a free descriptor found: the first one that is not used, or none, where all are.
abbrev pub Searched : (ℕ → Bool) → ℕ → ℕ → Option ℕ → Type 0
Searched used n i (some j) =
    (i ≤ j) × (j < i + n) × (used j ≡ false) × ((k : ℕ) → i ≤ k → k < j → used k ≡ true)
Searched used n i none = (k : ℕ) → i ≤ k → k < i + n → used k ≡ true

pub free_slot_lem : (used : ℕ → Bool) (n i : ℕ) → Searched used n i (free_slot used n i)
unfolding free_slot
free_slot_lem used zero i = λ k low high. absurd (omega arith)
free_slot_lem used (suc n) i = elim (Bool-cases (used i)) [
  | inr e ↦ rw e (omega arith, omega arith, e, λ k low high. absurd (omega arith))
  | inl e ↦ rw e (further e (free_slot used n (suc i)) (free_slot_lem used n (suc i)))
]
  where
    at_first : (k : ℕ) → used i ≡ true → i ≤ k → (suc i ≤ k → used k ≡ true) → used k ≡ true
    at_first k e low h = elim (ℕ_discrete i k) [ yes q ↦ rw (← q) e | no ne ↦ h (omega arith) ]

    further : used i ≡ true → (o : Option ℕ) → Searched used n (suc i) o → Searched used (suc n) i o
    further e none h = λ k low high. at_first k e low (λ q. h k q (omega arith))
    further e (some j) h =
        (omega arith, omega arith, h.2, λ k low high. at_first k e low (λ q. h.3 k q high))

-- Placing a file keeps the table sound.
pub placed-IsTable :
    (i a : ℕ) (p : Process) → 2 ≤ i → a ≢ 0 → IsTable p → IsTable (set_entry i a true p)
placed-IsTable i a p high ne v = record {
  filled = λ j e. ground (arith, v.filled j);
  empty = λ j e. ground (arith, v.empty j);
  reserved = λ j h. ground (arith, v.reserved j);
}

-- A file that no used descriptor stands for does not matter.
pub open_from-heap :
    (n i a : ℕ) (f : File) (used : ℕ → Bool) (files : ℕ → ℕ) (heap : ℕ → File)
    → ((j : ℕ) → used j ≡ true → files j ≢ a)
    → open_from n i used files (update heap a f) ≡ open_from n i used files heap
open_from-heap zero i a f used files heap h = refl
open_from-heap (suc n) i a f used files heap h =
    let later = open_from-heap n (suc i) a f used files heap h in
    elim (Bool-cases (used i)) [
      | inr e ↦ rw (e, later) refl
      | inl e ↦
          let other : (a == files i) ≡ false = ground (arith, h i e) in rw (e, later, other) refl
    ]
