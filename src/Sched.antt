-- ===== src/Sched.antt =====
-- The state of threads/thread.c and devices/timer.c, as the kernel of project 3 is built (without
-- USERPROG), and the primitives of the scheduler. `none` is a failed ASSERT: the kernel panics.
pub mod Switch
pub mod Valid
pub mod Schedule
pub mod Preempt
pub mod Unblock
pub mod Alarm
pub mod Places
pub mod Aging
pub mod Reprice
pub mod Reweigh
pub mod Newcomer
pub mod Newborn
pub mod Asleep
pub mod Interrupt
pub mod Create
pub mod Sleep
pub mod Mlfqs
pub mod Timer
use project_pintos.Base.{
  ℕ, zero, suc, ◌+◌, ◌^◌, ◌%◌, ◌==◌, ltb, ◌≡◌, refl, arith, Bool, true, false, not, ◌&&◌,
  if◌then◌else◌, List, [], ◌∷◌, ◌++◌, Option, none, some,
}
use project_pintos.Base.Int.{ℤ, pos, ltb_ℤ}

-- `enum thread_status`.
pub data Status : Type 0 where
  running ready blocked dying : Status

-- `struct thread`, less what project 3 does not use: the name, the saved stack and the list links.
pub record Thread : Type 0 where
  pub tid : ℕ
  pub status : Status
  pub priority : ℤ
  pub alarm_ticks : ℤ
  pub recent_cpu : ℤ
  pub nice : ℤ
  pub magic : ℕ

abbrev pub thread_magic : ℕ
thread_magic = 0xcd6abf4b

-- The variables of thread.c, timer.c and interrupt.c. A `struct thread *` is a number, and `NULL`
-- is 0; `current` is the thread whose stack is in use, `free_pages` what went to palloc_free_page.
pub record Kernel : Type 0 where
  pub threads : ℕ → Thread
  pub current : ℕ
  pub ready_list : List ℕ
  pub sleep_list : List ℕ
  pub all_list : List ℕ
  pub idle_thread : ℕ
  pub initial_thread : ℕ
  pub free_pages : List ℕ
  pub next_tid : ℕ
  pub load_avg : ℤ
  pub idle_ticks : ℕ
  pub kernel_ticks : ℕ
  pub thread_ticks : ℕ
  pub ticks : ℕ
  pub intr_on : Bool
  pub in_external_intr : Bool
  pub yield_on_return : Bool
  pub thread_mlfqs : Bool
  pub thread_prior_aging : Bool

infixl 5 ◌>>=◌ ◌>>◌
abbrev pub ◌>>=◌ {ℓ κ} : {A : Type ℓ} {B : Type κ} → Option A → (A → Option B) → Option B
none >>= f = none
some a >>= f = f a

abbrev pub ◌>>◌ {ℓ} : {B : Type ℓ} → Option (Unit {0}) → Option B → Option B
m >> k = m >>= λ _. k

-- What a chain that came to its end went through.
pub bind_end {ℓ κ} :
    {A : Type ℓ} {B : Type κ} (o : Option A) (f : A → Option B) (b : B)
    → (o >>= f) ≡ some b
    → (a : A) × (o ≡ some a) × (f a ≡ some b)
bind_end none f b h = absurd (ground (arith, h))
bind_end (some a) f b h = (a, refl, h)

-- `ASSERT`.
abbrev pub assert : Bool → Option (Unit {0})
assert true = some tt
assert false = none

abbrev pub update {ℓ} : {A : Type ℓ} → (ℕ → A) → ℕ → A → ℕ → A
update f i v j = if i == j then v else f j

abbrev pub is_running : Status → Bool
is_running Status.running = true
is_running _ = false

abbrev pub is_blocked : Status → Bool
is_blocked Status.blocked = true
is_blocked _ = false

abbrev pub is_dying : Status → Bool
is_dying Status.dying = true
is_dying _ = false

abbrev pub set_status : (ℕ → Thread) → ℕ → Status → ℕ → Thread
set_status m t s = update m t (record (m t) { status = s })

unfoldable pub is_thread : Kernel → ℕ → Bool
is_thread k t = not (t == 0) && (k.threads t).magic == thread_magic

-- `priority_comp`, over the priorities of the threads.
abbrev pub priority_comp : (ℕ → ℤ) → ℕ → ℕ → Bool
priority_comp p a b = ltb_ℤ (p b) (p a)

abbrev pub priority_of : Kernel → ℕ → ℤ
priority_of k t = (k.threads t).priority

-- `alarm_ticks_comp`.
abbrev pub alarm_ticks_comp : (ℕ → ℤ) → ℕ → ℕ → Bool
alarm_ticks_comp w a b = ltb_ℤ (w a) (w b)

abbrev pub alarm_of : Kernel → ℕ → ℤ
alarm_of k t = (k.threads t).alarm_ticks

-- `thread_current`.
unfoldable pub thread_current : Kernel → Option ℕ
unfolding is_thread
thread_current k = do
  assert (is_thread k k.current)
  assert (is_running (k.threads k.current).status)
  some k.current

-- `intr_yield_on_return`.
unfoldable pub intr_yield_on_return : Kernel → Option Kernel
intr_yield_on_return k = do assert k.in_external_intr; some (record k { yield_on_return = true })
