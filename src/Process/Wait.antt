-- ===== src/Process/Wait.antt =====
-- userprog/process.c: `process_wait`, up to a yield.
use mathlib.Core.Path.{subst}
use mathlib.Core.Bool.{true≢false}
use mathlib.Core.Option.{some-injective}
use mathlib.Core.List.{Mem, mem-cons, mem-cons_self, mem-cons_of_mem, not-mem-nil}
use mathlib.Core.Logic.Or
use project_pintos.Base.{
  ℕ, ◌≡◌, ◌≢◌, ◌⊎◌, refl, sym, ap, ◌∙◌, ◌==◌, Bool, true, false, if◌then◌else◌, List, [], ◌∷◌,
  Option, none, some, arith, Bool-cases, inl, inr,
}
use project_pintos.Base.Int.{ℤ, pos, negsuc}
use project_pintos.Sched.{update}
use project_pintos.Sched.Switch.{list_remove}

-- What a process and its children have in `struct thread` for waiting. A child is its address.
pub record Family : Type 0 where
  pub child_list : List ℕ
  pub tid : ℕ → ℕ
  pub exit_status : ℕ → ℤ
  pub ready_to_exit : ℕ → Bool
  pub deleted_from_parent : ℕ → Bool

-- The test `child->tid == child_tid`; the tid of a thread is positive.
abbrev pub has_tid : ℤ → ℕ → Bool
has_tid (pos n) tid = tid == n
has_tid (negsuc n) tid = false

-- The loop over the children.
abbrev pub find_child : ℤ → (ℕ → ℕ) → List ℕ → Option ℕ
find_child child_tid tid [] = none
find_child child_tid tid (child ∷ rest) =
    let later = find_child child_tid tid rest in
    if has_tid child_tid (tid child) then some child else later

-- A call that returned, or that waits for the child to end and yields.
pub data Waited : Type 0 where
  status : ℤ → Waited
  yields : Waited

-- `process_wait`, to its return or to its next yield.
unfoldable pub process_wait : ℤ → Family → Waited × Family
process_wait child_tid f = elim (find_child child_tid f.tid f.child_list) [
  | none ↦ (status (negsuc 0), f)
  | some child ↦
      if f.ready_to_exit child
      then (
        status (f.exit_status child),
        record f {
          child_list = list_remove child f.child_list;
          deleted_from_parent = update f.deleted_from_parent child true;
        },
      )
      else (yields, f)
]

-- What a search found: a child with the tid, or none, where no child has it.
abbrev pub Found : ℤ → Family → Option ℕ → Type 0
Found child_tid f none = (c : ℕ) → Mem c f.child_list → has_tid child_tid (f.tid c) ≡ false
Found child_tid f (some c) = Mem c f.child_list × (has_tid child_tid (f.tid c) ≡ true)

-- The threads of a list have different tids.
abbrev pub OtherTids : (ℕ → ℕ) → List ℕ → Type 0
OtherTids tid [] = Unit
OtherTids tid (c ∷ rest) = ((d : ℕ) → Mem d rest → tid d ≢ tid c) × OtherTids tid rest

find_child-none :
    (child_tid : ℤ) (tid : ℕ → ℕ) (l : List ℕ)
    → find_child child_tid tid l ≡ none
    → (c : ℕ) → Mem c l
    → has_tid child_tid (tid c) ≡ false
find_child-none child_tid tid [] h c m = absurd (not-mem-nil m)
find_child-none child_tid tid (d ∷ rest) h c m = elim (Bool-cases (has_tid child_tid (tid d))) [
  | inl e ↦ absurd (some≢none (rw e at h))
  | inr e ↦
      Or.elim (hlevel) (mem-cons.0 m) (λ q. rw q e)
        (λ r. find_child-none child_tid tid rest (rw e at h) c r)
]
  where
    some≢none : some d ≢ none
    some≢none q = cc

absent :
    (child_tid : ℤ) (tid : ℕ → ℕ) (l : List ℕ)
    → ((c : ℕ) → Mem c l → has_tid child_tid (tid c) ≡ false)
    → find_child child_tid tid l ≡ none
absent child_tid tid [] h = refl
absent child_tid tid (d ∷ rest) h =
    rw (h d mem-cons_self) (absent child_tid tid rest (λ c m. h c (mem-cons_of_mem d m)))

find_child-some :
    (child_tid : ℤ) (tid : ℕ → ℕ) (l : List ℕ) (c : ℕ)
    → find_child child_tid tid l ≡ some c
    → Mem c l × (has_tid child_tid (tid c) ≡ true)
find_child-some child_tid tid [] c h = absurd (ground (arith, h))
find_child-some child_tid tid (d ∷ rest) c h = elim (Bool-cases (has_tid child_tid (tid d))) [
  | inl e ↦
      let same : d ≡ c = some-injective _ _ (rw e at h) in
      (
        subst (λ x. Mem x (d ∷ rest)) same mem-cons_self,
        subst (λ x. has_tid child_tid (tid x) ≡ true) same e,
      )
  | inr e ↦
      let (m, q) = find_child-some child_tid tid rest c (rw e at h) in (mem-cons_of_mem d m, q)
]

-- Only one thread has a tid.
one_tid :
    (child_tid : ℤ) (a b : ℕ) → has_tid child_tid a ≡ true → b ≢ a → has_tid child_tid b ≡ false
one_tid (pos n) a b h ne = ground arith
one_tid (negsuc n) a b h ne = refl

-- Without the child that was found no child has the tid.
find_child-removed :
    (child_tid : ℤ) (tid : ℕ → ℕ) (l : List ℕ) (c : ℕ)
    → OtherTids tid l
    → find_child child_tid tid l ≡ some c
    → find_child child_tid tid (list_remove c l) ≡ none
find_child-removed child_tid tid [] c others h = refl
find_child-removed child_tid tid (d ∷ rest) c others h =
    elim (Bool-cases (has_tid child_tid (tid d))) [
      | inl e ↦
          let same : (d == c) ≡ true = equal_test d c (some-injective _ _ (rw e at h)) in
          rw same
            (absent child_tid tid rest (λ b m. one_tid child_tid (tid d) (tid b) e (others.0 b m)))
      | inr e ↦
          let later : find_child child_tid tid rest ≡ some c = rw e at h in
          let (m, found) = find_child-some child_tid tid rest c later in
          let other : (d == c) ≡ false = unequal_test child_tid tid d c e found in
          rw (other, e) (find_child-removed child_tid tid rest c others.1 later)
    ]
  where
    equal_test : (a b : ℕ) → a ≡ b → (a == b) ≡ true
    equal_test a b q = ground arith

    unequal_test :
        (child_tid : ℤ) (tid : ℕ → ℕ) (a b : ℕ)
        → has_tid child_tid (tid a) ≡ false
        → has_tid child_tid (tid b) ≡ true
        → (a == b) ≡ false
    unequal_test child_tid tid a b p q = elim (Bool-cases (a == b)) [
      | inr r ↦ r
      | inl r ↦
          let same : b ≡ a = ground arith in
          absurd (true≢false (sym q ∙ ap (λ x. has_tid child_tid (tid x)) same ∙ p))
    ]

-- What a call of `process_wait` comes to: -1 at once and no change, where no child has the tid; a yield and
-- no change, while the child has not ended; and the child's status, with the child off the list and free
-- to go, when it has.
abbrev pub WaitResult : ℤ → Family → Waited × Family → Type 0
WaitResult child_tid f r =
    (((c : ℕ) → Mem c f.child_list → has_tid child_tid (f.tid c) ≡ false)
      × (r ≡ (status (negsuc 0), f)))
    ⊎ ((c : ℕ) × Mem c f.child_list
        × (has_tid child_tid (f.tid c) ≡ true)
        × (((f.ready_to_exit c ≡ false) × (r ≡ (yields, f)))
            ⊎ ((f.ready_to_exit c ≡ true)
                × (r.0 ≡ status (f.exit_status c))
                × (r.1.child_list ≡ list_remove c f.child_list)
                × (r.1.deleted_from_parent c ≡ true))))

-- The three ways through a call.
abbrev waited : ℕ → Family → Family
waited c f = record f {
  child_list = list_remove c f.child_list;
  deleted_from_parent = update f.deleted_from_parent c true;
}

module _ (child_tid : ℤ) (f : Family) where
  no_child :
      find_child child_tid f.tid f.child_list ≡ none
      → process_wait child_tid f ≡ (status (negsuc 0), f)
  unfolding process_wait
  no_child q = rw (process_wait, q) refl

  not_ready :
      (c : ℕ)
      → find_child child_tid f.tid f.child_list ≡ some c
      → f.ready_to_exit c ≡ false
      → process_wait child_tid f ≡ (yields, f)
  unfolding process_wait
  not_ready c q r = rw (process_wait, q) (rw r refl)

  is_ready :
      (c : ℕ)
      → find_child child_tid f.tid f.child_list ≡ some c
      → f.ready_to_exit c ≡ true
      → process_wait child_tid f ≡ (status (f.exit_status c), waited c f)
  unfolding process_wait
  is_ready c q r = rw (process_wait, q) (rw r refl)

  marked : (c : ℕ) → (waited c f).deleted_from_parent c ≡ true
  marked c = ground arith

  -- `process_wait` returns -1 at once only where no child has the tid; it waits for a child that has not
  -- ended, and returns the status of one that has, which it takes off the list and lets go.
  pub process_wait_lem : WaitResult child_tid f (process_wait child_tid f)
  process_wait_lem = by_search (find_child child_tid f.tid f.child_list) refl
    where
      by_search :
          (o : Option ℕ)
          → find_child child_tid f.tid f.child_list ≡ o
          → WaitResult child_tid f (process_wait child_tid f)
      by_search none q = inl (find_child-none child_tid f.tid f.child_list q, no_child q)
      by_search (some c) q =
          let (m, e) = find_child-some child_tid f.tid f.child_list c q in
          inr (
            c,
            m,
            e,
            elim (Bool-cases (f.ready_to_exit c)) [
              | inr r ↦ inl (r, not_ready c q r)
              | inl r ↦
                  let same = is_ready c q r in
                  inr (
                    r,
                    ap (λ x. x.0) same,
                    ap (λ x. x.1.child_list) same,
                    ap (λ x. x.1.deleted_from_parent c) same ∙ marked c,
                  )
            ],
          )

-- Where the children have different tids, a call of `process_wait` that returned is not repeated: the next
-- one for the same tid returns -1 at once and changes nothing.
pub process_wait-process_wait :
    (child_tid : ℤ) (f : Family)
    → OtherTids f.tid f.child_list
    → (process_wait child_tid f).0 ≢ yields
    → process_wait child_tid (process_wait child_tid f).1
      ≡ (status (negsuc 0), (process_wait child_tid f).1)
process_wait-process_wait child_tid f others ne =
    by_search (find_child child_tid f.tid f.child_list) refl
  where
    Again : Waited × Family → Type 0
    Again r = process_wait child_tid r.1 ≡ (status (negsuc 0), r.1)

    by_search :
        (o : Option ℕ)
        → find_child child_tid f.tid f.child_list ≡ o
        → Again (process_wait child_tid f)
    by_search none q = subst Again (sym (no_child child_tid f q)) (no_child child_tid f q)
    by_search (some c) q = elim (Bool-cases (f.ready_to_exit c)) [
      | inr r ↦ absurd (ne (ap (λ x. x.0) (not_ready child_tid f c q r)))
      | inl r ↦ subst Again (sym (is_ready child_tid f c q r)) (
          no_child child_tid (waited c f)
            (find_child-removed child_tid f.tid f.child_list c others q))
    ]
