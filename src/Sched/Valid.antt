-- ===== src/Sched/Valid.antt =====
-- What holds of the scheduler's state between two of its operations.
use mathlib.Core.List.{Mem, Nodup, mem-cons, Nodup-cons, not-mem-nil, mem-cons_of_mem}
use mathlib.Core.Logic.Or
use mathlib.Core.Path.{fun_ext}
use mathlib.Core.Logic.{◌∨₁◌}
use mathlib.Core.HLevel.{⊥_prop}
use native.Mathlib.Bridge.{le_prop}
use project_pintos.Base.{ℕ, ◌≡◌, ◌≢◌, refl, Bool, true, false, some, List, [], ◌∷◌, arith}
use project_pintos.Base.Int.{ℤ, ◌≤ℤ◌}
use mathlib.Core.List.Perm
use project_pintos.ListAlgo.{is_sorted, insert_ordered}
use project_pintos.ListAlgo.Sorted.{insert_ordered-sorted}
use project_pintos.ListAlgo.Perm.{insert_ordered-perm}
use project_pintos.Sched.{
  thread_current, Kernel, Thread, Status, running, ready, blocked, set_status, thread_magic,
  priority_comp, alarm_ticks_comp,
}

-- `t` points to a thread.
abbrev pub IsAlive : (ℕ → Thread) → ℕ → Type 0
IsAlive m t = (t ≢ 0) × ((m t).magic ≡ thread_magic)

abbrev pub HasStatus : (ℕ → Thread) → Status → ℕ → Type 0
HasStatus m s t = (t ≢ 0) × ((m t).magic ≡ thread_magic) × ((m t).status ≡ s)

-- The ready list: threads that are ready, each once, in the order of their priorities, without the
-- idle thread.
pub record IsReadyQueue (m : ℕ → Thread) (idle : ℕ) (l : List ℕ) : Type 0 where
  pub members : (t : ℕ) → Mem t l → HasStatus m ready t
  pub distinct : Nodup l
  pub sorted : is_sorted (priority_comp (λ t. (m t).priority)) l ≡ true
  pub no_idle : ¬ Mem idle l

-- The sleep list: threads that are blocked, each once, in the order of their alarms.
pub record IsSleepQueue (m : ℕ → Thread) (l : List ℕ) : Type 0 where
  pub members : (t : ℕ) → Mem t l → HasStatus m blocked t
  pub distinct : Nodup l
  pub sorted : is_sorted (alarm_ticks_comp (λ t. (m t).alarm_ticks)) l ≡ true

pub record IsValid (k : Kernel) : Type 0 where
  pub current_runs : HasStatus k.threads running k.current
  pub idle_alive : IsAlive k.threads k.idle_thread
  pub queue : IsReadyQueue k.threads k.idle_thread k.ready_list
  pub sleepers : IsSleepQueue k.threads k.sleep_list
  pub idle_awake : ¬ Mem k.idle_thread k.sleep_list

pub priority_comp_asym :
    (p : ℕ → ℤ) (a b : ℕ) → priority_comp p a b ≡ true → priority_comp p b a ≡ false
priority_comp_asym p a b h = ground arith

pub alarm_ticks_comp_asym :
    (w : ℕ → ℤ) (a b : ℕ) → alarm_ticks_comp w a b ≡ true → alarm_ticks_comp w b a ≡ false
alarm_ticks_comp_asym w a b h = ground arith

-- A change of status leaves priorities and alarms alone.
pub priority-set_status :
    (m : ℕ → Thread) (t : ℕ) (s : Status)
    → ◌≡◌ {A = ℕ → ℤ} (λ u. (set_status m t s u).priority) (λ u. (m u).priority)
priority-set_status m t s = fun_ext (λ u. ground arith)

pub alarm-set_status :
    (m : ℕ → Thread) (t : ℕ) (s : Status)
    → ◌≡◌ {A = ℕ → ℤ} (λ u. (set_status m t s u).alarm_ticks) (λ u. (m u).alarm_ticks)
alarm-set_status m t s = fun_ext (λ u. ground arith)

-- The head of a sorted list has the highest priority.
pub head_highest :
    (p : ℕ → ℤ) (t : ℕ) (rest : List ℕ)
    → is_sorted (priority_comp p) (t ∷ rest) ≡ true
    → (u : ℕ) → Mem u rest
    → p u ≤ℤ p t
unfolding is_sorted
head_highest p t [] h u e = absurd (not-mem-nil e)
head_highest p t (x ∷ rest) h u e =
    Or.elim le_prop (mem-cons.0 e) (λ q. rw q (ground arith))
      (λ r. ground (arith, head_highest p x rest (ground arith) u r))

pub is_sorted-tail :
    (less : ℕ → ℕ → Bool) (t : ℕ) (rest : List ℕ)
    → is_sorted less (t ∷ rest) ≡ true
    → is_sorted less rest ≡ true
unfolding is_sorted
is_sorted-tail less t [] h = refl
is_sorted-tail less t (u ∷ rest) h = ground arith

-- Changing the status of a thread that is not in a list keeps the list's order and members.
pub HasStatus-set_ne :
    (m : ℕ → Thread) (t u : ℕ) (s s' : Status)
    → t ≢ u
    → HasStatus m s' u
    → HasStatus (set_status m t s) s' u
HasStatus-set_ne m t u s s' h v = ground arith

pub IsAlive-set :
    (m : ℕ → Thread) (t u : ℕ) (s : Status) → IsAlive m u → IsAlive (set_status m t s) u
IsAlive-set m t u s v = ground arith

pub IsReadyQueue-set :
    (m : ℕ → Thread) (idle t : ℕ) (s : Status) (l : List ℕ)
    → ¬ Mem t l
    → IsReadyQueue m idle l
    → IsReadyQueue (set_status m t s) idle l
IsReadyQueue-set m idle t s l h v = record {
  members = λ u e. HasStatus-set_ne m t u s ready (λ q. h (rw (← q) at e)) (v.members u e);
  distinct = v.distinct;
  sorted = rw (priority-set_status m t s) v.sorted;
  no_idle = v.no_idle;
}

pub IsSleepQueue-set :
    (m : ℕ → Thread) (t : ℕ) (s : Status) (l : List ℕ)
    → ¬ Mem t l
    → IsSleepQueue m l
    → IsSleepQueue (set_status m t s) l
IsSleepQueue-set m t s l h v = record {
  members = λ u e. HasStatus-set_ne m t u s blocked (λ q. h (rw (← q) at e)) (v.members u e);
  distinct = v.distinct;
  sorted = rw (alarm-set_status m t s) v.sorted;
}

pub IsReadyQueue-tail :
    (m : ℕ → Thread) (idle t : ℕ) (rest : List ℕ)
    → IsReadyQueue m idle (t ∷ rest)
    → IsReadyQueue m idle rest
IsReadyQueue-tail m idle t rest v = record {
  members = λ u e. v.members u (mem-cons_of_mem t e);
  distinct = (Nodup-cons.0 v.distinct).1;
  sorted = is_sorted-tail _ t rest v.sorted;
  no_idle = λ e. v.no_idle (mem-cons_of_mem t e);
}

-- A ready thread does not sleep.
pub ready-not_asleep :
    (m : ℕ → Thread) (t : ℕ) (l : List ℕ) → IsSleepQueue m l → (m t).status ≢ blocked → ¬ Mem t l
ready-not_asleep m t l v h e = h (v.members t e).2

pub HasStatus-prop : (m : ℕ → Thread) (s : Status) (t : ℕ) → IsProp (HasStatus m s t)
HasStatus-prop m s t = hlevel

-- The members of a list after an insertion.
pub mem-insert :
    (less : ℕ → ℕ → Bool) (t u : ℕ) (l : List ℕ)
    → Mem u (insert_ordered less t l)
    → (u ≡ t) ∨₁ Mem u l
mem-insert less t u l h = mem-cons.0 ((Perm.mem_iff (insert_ordered-perm less t l)).0 h)

-- Queueing a thread that becomes ready.
pub IsReadyQueue-insert :
    (m : ℕ → Thread) (idle t : ℕ) (l : List ℕ)
    → IsAlive m t
    → ¬ Mem t l
    → idle ≢ t
    → IsReadyQueue m idle l
    → IsReadyQueue
        (set_status m t ready)
        idle
        (insert_ordered (priority_comp (λ u. (m u).priority)) t l)
IsReadyQueue-insert m idle t l alive out other v = record {
  members = λ u e.
      Or.elim (HasStatus-prop (set_status m t ready) ready u) (mem-insert _ t u l e)
        (λ q. ground arith)
        (λ r. HasStatus-set_ne m t u ready ready (λ q. out (rw (← q) at r)) (v.members u r));
  distinct = Perm.nodup (Perm.symm (insert_ordered-perm _ t l)) (Nodup-cons.1 (out, v.distinct));
  sorted =
      rw (priority-set_status m t ready)
        (insert_ordered-sorted _ (priority_comp_asym (λ u. (m u).priority)) t l v.sorted);
  no_idle = λ e. Or.elim ⊥_prop (mem-insert _ t idle l e) other v.no_idle;
}

-- In a valid state the running thread passes the checks of `thread_current`.
pub current_lem : (k : Kernel) → IsValid k → thread_current k ≡ some k.current
unfolding thread_current
current_lem k v = ground (arith, v.current_runs)
