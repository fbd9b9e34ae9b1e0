-- ===== src/Directory/Add.antt =====
-- What `dir_add` makes of a directory (filesys/directory.c).
use project_pintos.Base.{
  ℕ, zero, suc, ◌+◌, ◌*◌, ◌^◌, ◌≤◌, ◌<◌, ◌≡◌, ◌≢◌, inl, inr, refl, sym, ap, ◌∙◌, ◌==◌, ltb, true,
  false, ◌||◌, List, none, some, arith, length, Bool-cases,
}
use project_pintos.Inode.{Disk, Inode}
use project_pintos.Inode.Read.{IsDisk}
use project_pintos.Directory.{Entry, str_eq, strlcpy, lookup, free_from, dir_add}
use project_pintos.Directory.Bytes.{
  IsEntry, IsName, c_string-strlcpy, length-strlcpy, str_eq_self, str_eq-other,
}
use project_pintos.Directory.Slots.{slots, slot, holds, find_slot, find_slot-some, length-read}
use project_pintos.Directory.Store.{
  is_free, Stored, store_entry, length-slot, free-holds, lookup-other, lookup-Stored,
}

free_from_lem :
    (fuel : ℕ) (d : Disk) (i : Inode) (e : Entry) (n k s : ℕ)
    → IsDisk d
    → k + n ≡ slots i
    → n < fuel
    → find_slot is_free (slot d i) n k ≡ some s
    → free_from fuel d i e (k * 20) ≡ (slot d i s, s * 20)
unfolding free_from
free_from_lem zero d i e n k s v eq h found = absurd (omega (arith, h))
free_from_lem (suc fuel) d i e zero k s v eq h found = absurd (ground (arith, found))
free_from_lem (suc fuel) d i e (suc n) k s v eq h found =
    let inside : ltb k (slots i) ≡ true = ground arith in
    let next : k * 20 + 20 ≡ (k + 1) * 20 = omega arith in
    elim (Bool-cases (slot d i k).in_use) [
      | inl used ↦
          rw (length-read d i k v, inside, used, next)
            (free_from_lem fuel d i (record (slot d i k) { in_use = true }) n (k + 1) s v
              (omega arith) (omega arith) (rw used at found))
      | inr unused ↦
          let here : k ≡ s = ground (arith, rw unused at found) in
          rw (length-read d i k v, inside, unused, sym here)
            (ap (λ b. (record (slot d i k) { in_use = b }, k * 20)) (sym unused))
    ]

IsName-valid : (name : List ℕ) → IsName name → (length name == 0 || ltb 14 (length name)) ≡ false
IsName-valid name v = go (length name) v.not_empty v.short
  where
    go : (n : ℕ) → 0 < n → n ≤ 14 → (n == 0 || ltb 14 n) ≡ false
    go n lo hi = ground arith

-- The entry that `dir_add` writes.
abbrev pub new_entry : Entry → List ℕ → ℕ → Entry
new_entry e name sector = record {
  inode_sector = sector;
  name = strlcpy e.name name 15;
  in_use = true;
}

pub holds-new_entry :
    (e : Entry) (name other : List ℕ) (sector : ℕ)
    → IsName name
    → holds other (new_entry e name sector) ≡ str_eq other name
holds-new_entry e name other sector v = rw (c_string-strlcpy e.name name v) refl

pub dir_add-Stored :
    (d : Disk) (i : Inode) (garbage : Entry) (name : List ℕ) (sector s : ℕ)
    → IsDisk d
    → i.deny_write_cnt ≡ 0
    → IsName name
    → sector < 2 ^ 32
    → lookup d i name ≡ none
    → find_slot is_free (slot d i) (slots i) 0 ≡ some s
    → (d' : Disk) × (dir_add garbage name sector i d ≡ (true, d'))
      × (s < slots i)
      × (is_free (slot d i s) ≡ true)
      × Stored d d' i s (new_entry (slot d i s) name sector)
unfolding dir_add
dir_add-Stored d i garbage name sector s v allowed valid small absent free =
    let (lo, hi, unused) = find_slot-some is_free (slot d i) (slots i) 0 s free in
    let inside : s < slots i = omega (arith, hi) in
    let new = new_entry (slot d i s) name sector in
    let entry : IsEntry new = record {
      sector = small;
      array = length-strlcpy (slot d i s).name name (length-slot d i s v inside);
    } in
    let (d', writes, st) = store_entry d i s new v allowed inside entry in
    (
      d',
      rw
          (
            IsName-valid name valid,
            absent,
            free_from_lem (suc i.length) d i garbage (slots i) 0 s v (omega arith) (omega arith)
                free,
            writes,
          )
          refl,
      inside,
      unused,
      st,
    )

-- In a directory on a disk of whole sectors, whose first free slot is `s`, where writes are allowed and
-- no entry has the name, `dir_add` of a name of 1 to 14 bytes and a 32-bit sector number succeeds. Then
-- `lookup` finds the sector under the name, in that slot, and finds under any other name what it found
-- before.
pub dir_add_lem :
    (d : Disk) (i : Inode) (garbage : Entry) (name : List ℕ) (sector s : ℕ)
    → IsDisk d
    → i.deny_write_cnt ≡ 0
    → IsName name
    → sector < 2 ^ 32
    → lookup d i name ≡ none
    → find_slot is_free (slot d i) (slots i) 0 ≡ some s
    → (d' : Disk) × (dir_add garbage name sector i d ≡ (true, d'))
      × IsDisk d'
      × (lookup d' i name ≡ some (new_entry (slot d i s) name sector, s * 20))
      × ((other : List ℕ) → other ≢ name → lookup d' i other ≡ lookup d i other)
dir_add_lem d i garbage name sector s v allowed valid small absent free =
    let (d', adds, inside, unused, st) =
      dir_add-Stored d i garbage name sector s v allowed valid small absent free in
    let new = new_entry (slot d i s) name sector in
    (
      d',
      adds,
      st.whole,
      lookup-Stored d d' i s new name v st inside absent
          (holds-new_entry (slot d i s) name name sector valid ∙ str_eq_self name),
      λ other ne.
          lookup-other d d' i s new other v st (free-holds other (slot d i s) unused)
            (holds-new_entry (slot d i s) name other sector valid ∙ str_eq-other other name ne),
    )
