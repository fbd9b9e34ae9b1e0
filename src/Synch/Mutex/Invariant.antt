-- ===== src/Synch/Mutex/Invariant.antt =====
-- What holds of the threads that share a lock (threads/synch.c), and that taking it and waiting for it keep so.
use mathlib.Core.List.{Mem, Nodup, Nodup-cons, mem-cons_of_mem, mem-cons_self}
use mathlib.Core.List.Perm
use mathlib.Core.Logic.Or
use native.Mathlib.Decide.{ℕ_discrete}
use project_pintos.Base.{ℕ, Bool, true, ◌-◌, ◌≡◌, ◌≢◌, ◌⊎◌, inl, inr, refl, sym, [], ◌∷◌, arith}
use project_pintos.ListAlgo.Perm.{insert_ordered-perm}
use project_pintos.Sched.{Kernel, update}
use project_pintos.Sched.Valid.{IsValid, mem-insert}
use project_pintos.Sched.Schedule.{Runnable}
use project_pintos.Synch.Parked.{IsParked, Parks, current-IsParked}
use project_pintos.Synch.Mutex.{System, Pc, stepped}
use project_pintos.Synch.Mutex.Inversion.{lock_taken, lock_queued}

-- The value of the semaphore and who is between acquiring and releasing: nobody, or the holder alone.
abbrev pub Owned : System → Type 0
Owned s =
    ((s.lock.semaphore.value ≡ 1) × ((t : ℕ) → s.pc t ≢ Pc.critical))
    ⊎ ((s.lock.semaphore.value ≡ 0)
        × (s.pc s.lock.holder ≡ Pc.critical)
        × ((t : ℕ) → s.pc t ≡ Pc.critical → t ≡ s.lock.holder))

pub record IsSound (b : Bool) (s : System) : Type 0 where
  pub valid : IsValid s.kernel
  pub parked : (u : ℕ) → Mem u s.lock.semaphore.waiters → IsParked s.kernel u
  pub distinct : Nodup s.lock.semaphore.waiters
  pub lined : (u : ℕ) → Mem u s.lock.semaphore.waiters → s.pc u ≡ Pc.acquiring
  pub owned : Owned s
  -- Where the rest of the kernel keeps the ready threads, a thread inside `lock_acquire` is a waiter, runs or
  -- is ready.
  pub placed :
      b ≡ true
      → (u : ℕ) → s.pc u ≡ Pc.acquiring
      → Mem u s.lock.semaphore.waiters ⊎ Runnable s.kernel u
  -- Where the lock is free, a thread that waits for it has been woken, unless none waits on the list.
  pub woken :
      s.lock.semaphore.value ≡ 1
      → (s.lock.semaphore.waiters ≡ [])
        ⊎ ((t : ℕ) × (s.pc t ≡ Pc.acquiring) × (¬ Mem t s.lock.semaphore.waiters))

module _ (b : Bool) (s : System) (v : IsSound b s) where
  open v use {valid, parked, distinct, lined, owned, placed, woken}

  -- A waiter is not the thread that runs.
  waiter-not_current : (u : ℕ) → Mem u s.lock.semaphore.waiters → s.kernel.current ≢ u
  waiter-not_current u m q = current-IsParked s.kernel valid (rw (← q) at (parked u m))

  pub lined-update :
      (at : Pc) (u : ℕ)
      → Mem u s.lock.semaphore.waiters
      → update s.pc s.kernel.current at u ≡ Pc.acquiring
  lined-update at u m = ground (arith, waiter-not_current u m, lined u m)

  -- A thread inside `lock_acquire`, where the running one is not from now on.
  pub placed-update :
      b ≡ true
      → (at : Pc) (u : ℕ) → at ≢ Pc.acquiring
      → update s.pc s.kernel.current at u ≡ Pc.acquiring
      → (s.kernel.current ≢ u) × (Mem u s.lock.semaphore.waiters ⊎ Runnable s.kernel u)
  placed-update h at u out e =
      let (other, before) = elsewhere_pc at u out e in (other, placed h u before)
    where
      elsewhere_pc :
          (at : Pc) (u : ℕ)
          → at ≢ Pc.acquiring
          → update s.pc s.kernel.current at u ≡ Pc.acquiring
          → (s.kernel.current ≢ u) × (s.pc u ≡ Pc.acquiring)
      elsewhere_pc at u out e = elim (ℕ_discrete s.kernel.current u) [
        | yes q ↦ absurd (ground (arith, out))
        | no ne ↦ (ne, ground arith)
      ]

  -- What stays of the places of the threads when the running one did something.
  stays_placed :
      (k : Kernel) (u : ℕ)
      → Parks s.kernel k
      → (s.kernel.current ≢ u) × (Mem u s.lock.semaphore.waiters ⊎ Runnable s.kernel u)
      → Mem u s.lock.semaphore.waiters ⊎ Runnable k u
  stays_placed k u p (ne, inl m) = inl m
  stays_placed k u p (ne, inr r) = inr (p.2 u ne r)

  -- The running thread takes a free lock.
  pub taken-IsSound :
      (k : Kernel)
      → Parks s.kernel k
      → s.lock.semaphore.value ≢ 0
      → IsSound b (stepped s (lock_taken s.lock s.kernel) k Pc.critical)
  taken-IsSound k p more_than = record {
    valid = p.0;
    parked = λ u m. p.1 u (parked u m);
    distinct = distinct;
    lined = lined-update Pc.critical;
    owned = now_owned owned;
    placed = λ h u e. stays_placed k u p (placed-update h Pc.critical u (λ q. ground arith) e);
    woken = λ e. absurd (not_one owned e);
  }
    where
      now_owned : Owned s → Owned (stepped s (lock_taken s.lock s.kernel) k Pc.critical)
      now_owned (inl o) = inr (ground arith, ground arith, λ t e. ground (arith, o.1 t))
      now_owned (inr o) = absurd (more_than o.0)

      not_one : Owned s → s.lock.semaphore.value - 1 ≢ 1
      not_one (inl o) e = ground arith
      not_one (inr o) e = ground arith

  -- The running thread waits for the lock.
  pub waits-IsSound :
      (k : Kernel)
      → Parks s.kernel k
      → IsParked k s.kernel.current
      → s.lock.semaphore.value ≡ 0
      → s.pc s.kernel.current ≢ Pc.critical
      → IsSound b (stepped s (lock_queued s.lock s.kernel) k Pc.acquiring)
  waits-IsSound k p q z out = record {
    valid = p.0;
    parked = λ u m. still_parked u m (ℕ_discrete s.kernel.current u);
    distinct =
        Perm.nodup (Perm.symm (insert_ordered-perm _ s.kernel.current s.lock.semaphore.waiters))
          (Nodup-cons.1 (λ m. waiter-not_current s.kernel.current m refl, distinct));
    lined = λ u m. still_lined u m (ℕ_discrete s.kernel.current u);
    owned = still_owned owned;
    placed = λ h u e. queued_placed h u (ℕ_discrete s.kernel.current u) e;
    woken = λ e. absurd (ground arith);
  }
    where
      others :
          (u : ℕ)
          → s.kernel.current ≢ u
          → Mem u (lock_queued s.lock s.kernel).semaphore.waiters
          → Mem u s.lock.semaphore.waiters
      others u ne m =
          Or.elim (hlevel) (mem-insert _ s.kernel.current u s.lock.semaphore.waiters m)
            (λ e. absurd (ne (sym e))) (λ h. h)

      still_parked :
          (u : ℕ)
          → Mem u (lock_queued s.lock s.kernel).semaphore.waiters
          → Dec (s.kernel.current ≡ u)
          → IsParked k u
      still_parked u m (yes e) = rw (← e) q
      still_parked u m (no ne) = p.1 u (parked u (others u ne m))

      still_lined :
          (u : ℕ)
          → Mem u (lock_queued s.lock s.kernel).semaphore.waiters
          → Dec (s.kernel.current ≡ u)
          → update s.pc s.kernel.current Pc.acquiring u ≡ Pc.acquiring
      still_lined u m (yes e) = ground arith
      still_lined u m (no ne) = ground (arith, lined u (others u ne m))

      joined :
          (u : ℕ)
          → Mem u (s.kernel.current ∷ s.lock.semaphore.waiters)
          → Mem u (lock_queued s.lock s.kernel).semaphore.waiters
      joined u m =
          (Perm.mem_iff (insert_ordered-perm _ s.kernel.current s.lock.semaphore.waiters)).1 m

      queued_placed :
          b ≡ true
          → (u : ℕ) → Dec (s.kernel.current ≡ u)
          → update s.pc s.kernel.current Pc.acquiring u ≡ Pc.acquiring
          → Mem u (lock_queued s.lock s.kernel).semaphore.waiters ⊎ Runnable k u
      queued_placed h u (yes q) e = inl (joined u (rw (← q) mem-cons_self))
      queued_placed h u (no ne) e = elim (stays_placed k u p (ne, placed h u (ground arith))) [
        | inl m ↦ inl (joined u (mem-cons_of_mem s.kernel.current m))
        | inr r ↦ inr r
      ]

      still_owned : Owned s → Owned (stepped s (lock_queued s.lock s.kernel) k Pc.acquiring)
      still_owned (inl o) = absurd (ground arith)
      still_owned (inr o) = inr (z, ground arith, λ t e. ground (arith, o.2 t))
