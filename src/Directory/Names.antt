-- ===== src/Directory/Names.antt =====
-- The names in a directory stay distinct (filesys/directory.c).
use project_pintos.Base.{
  ℕ, ◌^◌, ◌<◌, ◌≡◌, inl, inr, sym, ap, ◌∙◌, ◌==◌, Bool, true, false, List, arith, Bool-cases,
}
use project_pintos.Inode.{Disk, Inode}
use project_pintos.Inode.Read.{IsDisk}
use project_pintos.Directory.{Entry, lookup, dir_add}
use project_pintos.Directory.Bytes.{NoZero, eq_of_str_eq}
use project_pintos.Directory.Slots.{slots, slot, holds}
use project_pintos.Directory.Store.{Stored, absent_slots, lookup-same}
use project_pintos.Directory.Add.{new_entry, holds-new_entry}
use project_pintos.Directory.Outcome.{Adding, refused, stored, dir_add-Adding}

-- No two entries in use have the same name.
pub record Distinct (d : Disk) (i : Inode) : Type 0 where
  pub once :
      (name : List ℕ) (j k : ℕ)
      → j < slots i
      → k < slots i
      → holds name (slot d i j) ≡ true
      → holds name (slot d i k) ≡ true
      → j ≡ k

-- A stored entry whose names the directory did not have keeps the names distinct.
pub Stored-Distinct :
    (d d' : Disk) (i : Inode) (s : ℕ) (e : Entry)
    → Distinct d i
    → Stored d d' i s e
    → ((name : List ℕ)
        → holds name e ≡ true
        → (k : ℕ) → k < slots i
        → holds name (slot d i k) ≡ false)
    → Distinct d' i
Stored-Distinct d d' i s e dist st fresh = record { once = once }
  where
    at_s : (name : List ℕ) (j : ℕ) → (j == s) ≡ true → holds name (slot d' i j) ≡ holds name e
    at_s name j here = let same : j ≡ s = ground arith in rw same (ap (holds name) st.there)

    clash : {b : Bool} → b ≡ true → b ≡ false → ⊥
    clash p q = cc

    once :
        (name : List ℕ) (j k : ℕ)
        → j < slots i
        → k < slots i
        → holds name (slot d' i j) ≡ true
        → holds name (slot d' i k) ≡ true
        → j ≡ k
    once name j k hj hk p q = elim (Bool-cases (j == s)) [
      | inl a ↦ elim (Bool-cases (k == s)) [
        | inl b ↦ ground arith
        | inr b ↦ absurd (
            clash (ap (holds name) (sym (st.others k b)) ∙ q)
              (fresh name (sym (at_s name j a) ∙ p) k hk))
      ]
      | inr a ↦ elim (Bool-cases (k == s)) [
        | inl b ↦ absurd (
            clash (ap (holds name) (sym (st.others j a)) ∙ p)
              (fresh name (sym (at_s name k b) ∙ q) j hj))
        | inr b ↦
            dist.once name j k hj hk (ap (holds name) (sym (st.others j a)) ∙ p)
              (ap (holds name) (sym (st.others k b)) ∙ q)
      ]
    ]

same-Distinct :
    (d d' : Disk) (i : Inode)
    → Distinct d i
    → ((k : ℕ) → k < slots i → slot d' i k ≡ slot d i k)
    → Distinct d' i
same-Distinct d d' i dist same = record {
  once = λ name j k hj hk p q.
      dist.once name j k hj hk (ap (holds name) (sym (same j hj)) ∙ p)
        (ap (holds name) (sym (same k hk)) ∙ q);
}

Adding-Distinct :
    (d d' : Disk) (i : Inode) (name : List ℕ) (sector : ℕ) (r : Bool)
    → IsDisk d
    → Distinct d i
    → Adding d i name sector r d'
    → IsDisk d' × Distinct d' i
Adding-Distinct d d' i name sector r v dist (refused whole same) =
    (whole, same-Distinct d d' i dist same)
Adding-Distinct d d' i name sector r v dist (stored s inside valid unused absent st) = (
  st.whole,
  Stored-Distinct d d' i s (new_entry (slot d i s) name sector) dist st (λ other held k h.
      let same : other ≡ name =
        eq_of_str_eq other name
          (sym (holds-new_entry (slot d i s) name other sector valid) ∙ held) in
      ap (λ x. holds x (slot d i k)) same ∙ absent_slots d i name v absent k h),
)

-- `dir_add` of a C string and a 32-bit sector number keeps the sectors whole and the names in the
-- directory distinct, whatever it returns: also for a name that is too long or taken, in a full
-- directory and where writes are denied.
pub dir_add-Distinct :
    (d : Disk) (i : Inode) (garbage : Entry) (name : List ℕ) (sector : ℕ)
    → IsDisk d
    → NoZero name
    → sector < 2 ^ 32
    → Distinct d i
    → IsDisk (dir_add garbage name sector i d).1 × Distinct (dir_add garbage name sector i d).1 i
dir_add-Distinct d i garbage name sector v nz small dist =
    let (r, d', adds, a) = dir_add-Adding d i garbage name sector v nz small in
    rw adds (Adding-Distinct d d' i name sector r v dist a)

-- Where `dir_add` of a C string and a 32-bit sector number returns false, every name is found where it
-- was before, or not at all as before.
pub dir_add-refused :
    (d : Disk) (i : Inode) (garbage : Entry) (name other : List ℕ) (sector : ℕ)
    → IsDisk d
    → NoZero name
    → sector < 2 ^ 32
    → (dir_add garbage name sector i d).0 ≡ false
    → lookup (dir_add garbage name sector i d).1 i other ≡ lookup d i other
dir_add-refused d i garbage name other sector v nz small fails =
    let (r, d', adds, a) = dir_add-Adding d i garbage name sector v nz small in
    rw adds (unchanged r d' (sym (ap (λ x. x.0) adds) ∙ fails) a)
  where
    unchanged :
        (r : Bool) (d' : Disk)
        → r ≡ false
        → Adding d i name sector r d'
        → lookup d' i other ≡ lookup d i other
    unchanged r d' q (refused whole same) =
        lookup-same d d' i other v whole (λ j h. ap (holds other) (same j h)) (λ j h it. same j h)
    unchanged r d' q (stored s inside valid unused absent st) = absurd (ground (arith, q))
