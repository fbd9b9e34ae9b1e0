-- ===== src/Sched/Unblock.antt =====
-- Waking a blocked thread: `thread_unblock` of threads/thread.c.
use mathlib.Core.List.{Mem, Perm}
use project_pintos.Base.{ℕ, ◌≡◌, ◌≢◌, refl, sym, ◌∙◌, List, ◌∷◌, some, arith}
use project_pintos.ListAlgo.{insert_ordered}
use project_pintos.ListAlgo.Perm.{insert_ordered-perm}
use project_pintos.Sched.{
  Kernel, Thread, running, ready, blocked, set_status, priority_comp, priority_of,
}
use project_pintos.Sched.Switch.{thread_unblock}
use project_pintos.Sched.Valid.{
  HasStatus, IsReadyQueue, IsValid, IsAlive-set, IsSleepQueue-set, IsReadyQueue-insert,
  HasStatus-set_ne,
}

-- The state after `t` was made ready.
abbrev pub unblocked : ℕ → Kernel → Kernel
unblocked t k = record k {
  ready_list = insert_ordered (priority_comp (priority_of k)) t k.ready_list;
  threads = set_status k.threads t ready;
}

pub unblock-step :
    (t : ℕ) (k : Kernel) → HasStatus k.threads blocked t → thread_unblock t k ≡ some (unblocked t k)
unfolding thread_unblock
unblock-step t k h = ground arith

blocked-not_queued :
    (m : ℕ → Thread) (idle t : ℕ) (l : List ℕ)
    → IsReadyQueue m idle l
    → (m t).status ≡ blocked
    → ¬ Mem t l
blocked-not_queued m idle t l v h e = blocked≢ready (sym h ∙ (v.members t e).2)
  where
    blocked≢ready : blocked ≢ ready
    blocked≢ready h = cc

pub unblocked-IsValid :
    (t : ℕ) (k : Kernel)
    → IsValid k
    → HasStatus k.threads blocked t
    → ¬ Mem t k.sleep_list
    → k.idle_thread ≢ t
    → IsValid (unblocked t k)
unblocked-IsValid t k v h out other = record {
  current_runs =
      HasStatus-set_ne k.threads t k.current ready running (λ q. runs (rw q at h.2)) v.current_runs;
  idle_alive = IsAlive-set k.threads t k.idle_thread ready v.idle_alive;
  queue =
      IsReadyQueue-insert k.threads k.idle_thread t k.ready_list (h.0, h.1)
        (blocked-not_queued k.threads k.idle_thread t k.ready_list v.queue h.2) other v.queue;
  sleepers = IsSleepQueue-set k.threads t ready k.sleep_list out v.sleepers;
  idle_awake = v.idle_awake;
}
  where
    running≢blocked : running ≢ blocked
    running≢blocked h = cc

    runs : (k.threads k.current).status ≡ blocked → ⊥
    runs q = running≢blocked (sym v.current_runs.2 ∙ q)

-- `thread_unblock` of a blocked thread that is not the idle thread and is on no sleep list succeeds,
-- keeps the state valid, and adds exactly that thread to the ready list.
pub thread_unblock-IsValid :
    (t : ℕ) (k : Kernel)
    → IsValid k
    → HasStatus k.threads blocked t
    → ¬ Mem t k.sleep_list
    → k.idle_thread ≢ t
    → (k' : Kernel) × (thread_unblock t k ≡ some k')
      × IsValid k'
      × Perm k'.ready_list (t ∷ k.ready_list)
      × (k'.current ≡ k.current)
thread_unblock-IsValid t k v h out other = (
  unblocked t k,
  unblock-step t k h,
  unblocked-IsValid t k v h out other,
  insert_ordered-perm (priority_comp (priority_of k)) t k.ready_list,
  refl,
)
