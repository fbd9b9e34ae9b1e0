-- ===== src/Directory/Store.antt =====
-- Storing an entry into a slot of a directory (filesys/directory.c).
use project_pintos.Base.{
  ℕ, ◌*◌, ◌<◌, ◌≡◌, inl, inr, refl, sym, ap, ◌∙◌, ◌==◌, Bool, true, false, not, ◌&&◌, List, Option,
  none, some, arith, length, Bool-cases, drop, length-take, length-drop,
}
use project_pintos.Inode.{Disk, Inode, inode_read_at, inode_write_at}
use project_pintos.Inode.Read.{IsDisk}
use project_pintos.Inode.RoundTrip.{inode_read_at-inode_write_at}
use project_pintos.Directory.{Entry, bytes_entry, entry_bytes, c_string, str_eq, lookup}
use project_pintos.Directory.Bytes.{IsEntry, bytes_entry-entry_bytes, length-entry_bytes}
use project_pintos.Directory.Slots.{
  slots, slot, holds, at_slot, find_slot, find_slot_same, find_slot-none, find_slot-some,
  find_slot_only, find_slot_nowhere, length-read, lookup_lem,
}

-- A slot that is free.
abbrev pub is_free : Entry → Bool
is_free e = not e.in_use

-- Writing an entry into a slot changes that slot and no other.
pub record Stored (d d' : Disk) (i : Inode) (s : ℕ) (e : Entry) : Type 0 where
  pub whole : IsDisk d'
  pub there : slot d' i s ≡ e
  pub others : (k : ℕ) → (k == s) ≡ false → slot d' i k ≡ slot d i k

pub store_entry :
    (d : Disk) (i : Inode) (s : ℕ) (e : Entry)
    → IsDisk d
    → i.deny_write_cnt ≡ 0
    → s < slots i
    → IsEntry e
    → (d' : Disk) × (inode_write_at d i (entry_bytes e) (s * 20) ≡ (d', 20)) × Stored d d' i s e
store_entry d i s e v allowed inside valid =
    let long = length-entry_bytes e valid in
    let (d', writes, whole, back, apart) =
      inode_read_at-inode_write_at d i (entry_bytes e) (s * 20) v allowed (ground (arith, long)) in
    (
      d',
      writes ∙ ap (λ n. (d', n)) long,
      record {
        whole = whole;
        there =
            ap bytes_entry (ap (λ n. inode_read_at d' i n (s * 20)) (sym long) ∙ back)
            ∙ bytes_entry-entry_bytes e valid;
        others = λ k ne. ap bytes_entry (apart (k * 20) 20 (ground (arith, long)));
      },
    )

-- The name array of an entry that was read has its size.
pub length-slot :
    (d : Disk) (i : Inode) (s : ℕ) → IsDisk d → s < slots i → length (slot d i s).name ≡ 15
unfolding bytes_entry
length-slot d i s v inside =
    let bytes = inode_read_at d i 20 (s * 20) in
    let long : length bytes ≡ 20 = ground (arith, length-read d i s v) in
    omega (arith, length-take 15 (drop 4 bytes), length-drop 4 bytes)

pub free-holds : (name : List ℕ) (e : Entry) → is_free e ≡ true → holds name e ≡ false
free-holds name e h = go e.in_use h
  where
    go : (b : Bool) → not b ≡ true → (b && str_eq name (c_string e.name)) ≡ false
    go true h = absurd (ground (arith, h))
    go false h = refl

-- A name whose slots stay as they are is found where it was.
pub lookup-same :
    (d d' : Disk) (i : Inode) (name : List ℕ)
    → IsDisk d
    → IsDisk d'
    → ((j : ℕ) → j < slots i → holds name (slot d' i j) ≡ holds name (slot d i j))
    → ((j : ℕ) → j < slots i → holds name (slot d i j) ≡ true → slot d' i j ≡ slot d i j)
    → lookup d' i name ≡ lookup d i name
lookup-same d d' i name v v' tests same =
    lookup_lem d' i name v'
    ∙ ap (at_slot d' i) (
        find_slot_same (holds name) (slot d i) (slot d' i) (slots i) 0
          (λ j lo hi. tests j (omega (arith, hi))))
    ∙ found (find_slot (holds name) (slot d i) (slots i) 0) refl
    ∙ sym (lookup_lem d i name v)
  where
    found :
        (r : Option ℕ)
        → find_slot (holds name) (slot d i) (slots i) 0 ≡ r
        → at_slot d' i r ≡ at_slot d i r
    found none eq = refl
    found (some j) eq =
        let (lo, hi, it) = find_slot-some (holds name) (slot d i) (slots i) 0 j eq in
        ap (λ x. some (x, j * 20)) (same j (omega (arith, hi)) it)

-- Another name is found where it was, when neither entry of the slot holds it.
pub lookup-other :
    (d d' : Disk) (i : Inode) (s : ℕ) (e : Entry) (name : List ℕ)
    → IsDisk d
    → Stored d d' i s e
    → holds name (slot d i s) ≡ false
    → holds name e ≡ false
    → lookup d' i name ≡ lookup d i name
lookup-other d d' i s e name v stored before after =
    lookup-same d d' i name v stored.whole each same
  where
    each : (j : ℕ) → j < slots i → holds name (slot d' i j) ≡ holds name (slot d i j)
    each j h = elim (Bool-cases (j == s)) [
      | inl here ↦
          let at_s : j ≡ s = ground arith in
          rw at_s (ap (holds name) stored.there ∙ after ∙ sym before)
      | inr far ↦ ap (holds name) (stored.others j far)
    ]

    same : (j : ℕ) → j < slots i → holds name (slot d i j) ≡ true → slot d' i j ≡ slot d i j
    same j h it = elim (Bool-cases (j == s)) [
      | inl here ↦
          let at_s : j ≡ s = ground arith in
          absurd (ground (arith, ap (λ k. holds name (slot d i k)) at_s, it, before))
      | inr far ↦ stored.others j far
    ]

-- No slot holds a name that is not found.
pub absent_slots :
    (d : Disk) (i : Inode) (name : List ℕ)
    → IsDisk d
    → lookup d i name ≡ none
    → (k : ℕ) → k < slots i
    → holds name (slot d i k) ≡ false
absent_slots d i name v absent k h =
    find_slot-none (holds name) (slot d i) (slots i) 0
      (no_slot (find_slot (holds name) (slot d i) (slots i) 0) refl
        (sym (lookup_lem d i name v) ∙ absent))
      k (omega arith) (omega (arith, h))
  where
    no_slot :
        (r : Option ℕ)
        → find_slot (holds name) (slot d i) (slots i) 0 ≡ r
        → at_slot d i r ≡ none
        → find_slot (holds name) (slot d i) (slots i) 0 ≡ none
    no_slot none eq e = eq
    no_slot (some j) eq e = absurd (ground (arith, e))

-- A name that no entry had is found in the slot that now has it.
pub lookup-Stored :
    (d d' : Disk) (i : Inode) (s : ℕ) (e : Entry) (name : List ℕ)
    → IsDisk d
    → Stored d d' i s e
    → s < slots i
    → lookup d i name ≡ none
    → holds name e ≡ true
    → lookup d' i name ≡ some (e, s * 20)
lookup-Stored d d' i s e name v stored inside absent it =
    lookup_lem d' i name stored.whole
    ∙ ap (at_slot d' i) (
        find_slot_only (holds name) (slot d' i) (slots i) 0 s (omega arith) (omega (arith, inside))
          (ap (holds name) stored.there ∙ it)
          (λ j lo hi.
            ap (holds name) (stored.others j (ground arith))
            ∙ absent_slots d i name v absent j (omega (arith, hi, inside))))
    ∙ ap (λ x. some (x, s * 20)) stored.there

-- The entry that is found stands in a slot and holds the name.
pub lookup-slot :
    (d : Disk) (i : Inode) (name : List ℕ) (e : Entry) (ofs : ℕ)
    → IsDisk d
    → lookup d i name ≡ some (e, ofs)
    → (s : ℕ) × (s < slots i) × (ofs ≡ s * 20) × (slot d i s ≡ e) × (holds name (slot d i s) ≡ true)
lookup-slot d i name e ofs v found =
    from (find_slot (holds name) (slot d i) (slots i) 0) refl (sym (lookup_lem d i name v) ∙ found)
  where
    from :
        (r : Option ℕ)
        → find_slot (holds name) (slot d i) (slots i) 0 ≡ r
        → at_slot d i r ≡ some (e, ofs)
        → (s : ℕ) × (s < slots i)
          × (ofs ≡ s * 20)
          × (slot d i s ≡ e)
          × (holds name (slot d i s) ≡ true)
    from none eq q = absurd (ground (arith, q))
    from (some s) eq q =
        let (lo, hi, it) = find_slot-some (holds name) (slot d i) (slots i) 0 s eq in
        (s, omega (arith, hi), ap (λ x. x.1) (sym same), ap (λ x. x.0) same, it)
      where
        same : ◌≡◌ {A = Entry × ℕ} (slot d i s, s * 20) (e, ofs)
        same = cc

-- A name that no slot holds is not found.
pub lookup-absent :
    (d : Disk) (i : Inode) (name : List ℕ)
    → IsDisk d
    → ((k : ℕ) → k < slots i → holds name (slot d i k) ≡ false)
    → lookup d i name ≡ none
lookup-absent d i name v no_one =
    lookup_lem d i name v
    ∙ ap (at_slot d i) (
        find_slot_nowhere (holds name) (slot d i) (slots i) 0
          (λ j lo hi. no_one j (omega (arith, hi))))
