-- ===== src/Directory/Outcome.antt =====
-- What `dir_add` can do to the slots of a directory, on every branch (filesys/directory.c).
use project_pintos.Base.{
  ℕ, zero, suc, ◌+◌, ◌-◌, ◌*◌, ◌^◌, ◌≤◌, ◌<◌, ◌≡◌, inl, inr, refl, sym, ap, ◌∙◌, ◌==◌, ltb, Bool,
  true, false, ◌||◌, List, none, some, arith, length, min, Bool-cases, Option-cases,
}
use project_pintos.Inode.{Disk, Inode, inode_write_at}
use project_pintos.Inode.Read.{IsDisk, inode_read_at_lem}
use project_pintos.Inode.RoundTrip.{Written-elsewhere}
use project_pintos.Inode.Write.{inode_write_at-Written}
use project_pintos.Directory.{Entry, bytes_entry, entry_bytes, lookup, free_from, dir_add}
use project_pintos.Directory.Bytes.{NoZero, IsName}
use project_pintos.Directory.Slots.{slots, slot, find_slot, length-read}
use project_pintos.Directory.Store.{is_free, Stored}
use project_pintos.Directory.Add.{new_entry, dir_add-Stored}

-- Where no slot is free, the loop ends behind the last slot.
free_from-end :
    (fuel : ℕ) (d : Disk) (i : Inode) (e : Entry) (n k : ℕ)
    → IsDisk d
    → k + n ≡ slots i
    → n < fuel
    → find_slot is_free (slot d i) n k ≡ none
    → (free_from fuel d i e (k * 20)).1 ≡ slots i * 20
unfolding free_from
free_from-end zero d i e n k v eq h full = absurd (omega (arith, h))
free_from-end (suc fuel) d i e zero k v eq h full =
    let past : ltb k (slots i) ≡ false = ground arith in
    let last : k ≡ slots i = omega arith in rw (length-read d i k v, past) (ap (λ x. x * 20) last)
free_from-end (suc fuel) d i e (suc n) k v eq h full =
    let inside : ltb k (slots i) ≡ true = ground arith in
    let next : k * 20 + 20 ≡ (k + 1) * 20 = omega arith in
    elim (Bool-cases (slot d i k).in_use) [
      | inl used ↦
          rw (length-read d i k v, inside, used, next)
            (free_from-end fuel d i (record (slot d i k) { in_use = true }) n (k + 1) v
              (omega arith) (omega arith) (rw used at full))
      | inr unused ↦ absurd (ground (arith, rw unused at full))
    ]

-- What `dir_add` can do to the slots: nothing, or one entry is stored in a free slot.
pub data Adding (d : Disk) (i : Inode) (name : List ℕ) (sector : ℕ) : Bool → Disk → Type 0 where
  refused :
      {d' : Disk}
      → IsDisk d'
      → ((k : ℕ) → k < slots i → slot d' i k ≡ slot d i k)
      → Adding d i name sector false d'
  stored :
      {d' : Disk} (s : ℕ)
      → s < slots i
      → IsName name
      → is_free (slot d i s) ≡ true
      → lookup d i name ≡ none
      → Stored d d' i s (new_entry (slot d i s) name sector)
      → Adding d i name sector true d'

write_at_end :
    (d : Disk) (i : Inode) (buffer : List ℕ)
    → IsDisk d
    → i.deny_write_cnt ≡ 0
    → (d' : Disk) × (n : ℕ) × (inode_write_at d i buffer (slots i * 20) ≡ (d', n))
      × ((n == 20) ≡ false)
      × IsDisk d'
      × ((k : ℕ) → k < slots i → slot d' i k ≡ slot d i k)
write_at_end d i buffer v allowed =
    let (d', n, writes, count, w) = inode_write_at-Written d i buffer (slots i * 20) v allowed in
    (
      d',
      n,
      writes,
      ground arith,
      w.whole,
      λ k h. ap bytes_entry (
          inode_read_at_lem d' i 20 (k * 20) w.whole
          ∙ Written-elsewhere d d' i buffer (slots i * 20) n w (k * 20) (min 20 (i.length - k * 20))
              (inl (omega (arith, h)))
          ∙ sym (inode_read_at_lem d i 20 (k * 20) v)),
    )

denied :
    (d : Disk) (i : Inode) (buffer : List ℕ) (offset : ℕ)
    → (i.deny_write_cnt == 0) ≡ false
    → inode_write_at d i buffer offset ≡ (d, 0)
unfolding inode_write_at
denied d i buffer offset h = rw h refl

valid-IsName :
    (name : List ℕ) → NoZero name → (length name == 0 || ltb 14 (length name)) ≡ false → IsName name
valid-IsName name nz h = record {
  not_empty = lo (length name) h;
  short = hi (length name) h;
  no_zero = nz;
}
  where
    lo : (n : ℕ) → (n == 0 || ltb 14 n) ≡ false → 0 < n
    lo n e = ground arith

    hi : (n : ℕ) → (n == 0 || ltb 14 n) ≡ false → n ≤ 14
    hi n e = ground arith

-- `dir_add` of a C string and a 32-bit sector number, on every branch.
pub dir_add-Adding :
    (d : Disk) (i : Inode) (garbage : Entry) (name : List ℕ) (sector : ℕ)
    → IsDisk d
    → NoZero name
    → sector < 2 ^ 32
    → (r : Bool) × (d' : Disk) × (dir_add garbage name sector i d ≡ (r, d'))
      × Adding d i name sector r d'
unfolding dir_add
dir_add-Adding d i garbage name sector v nz small =
    elim (Bool-cases (length name == 0 || ltb 14 (length name))) [
      | inl e ↦ (false, d, rw e refl, refused v (λ k h. refl))
      | inr e ↦ elim (Option-cases (lookup d i name)) [
        | inr (x, found) ↦ (false, d, rw (e, found) refl, refused v (λ k h. refl))
        | inl absent ↦ elim (Bool-cases (i.deny_write_cnt == 0)) [
          | inr deny ↦
              (false, d, rw (e, absent) (rw (denied d i _ _ deny) refl), refused v (λ k h. refl))
          | inl allow ↦
              let allowed : i.deny_write_cnt ≡ 0 = ground arith in
              elim (Option-cases (find_slot is_free (slot d i) (slots i) 0)) [
                | inl full ↦ full_case e absent allowed full
                | inr (s, free) ↦ free_case e absent allowed s free
              ]
        ]
      ]
    ]
  where
    full_case :
        (length name == 0 || ltb 14 (length name)) ≡ false
        → lookup d i name ≡ none
        → i.deny_write_cnt ≡ 0
        → find_slot is_free (slot d i) (slots i) 0 ≡ none
        → (r : Bool) × (d' : Disk) × (dir_add garbage name sector i d ≡ (r, d'))
          × Adding d i name sector r d'
    full_case e absent allowed full =
        let old = (free_from (suc i.length) d i garbage 0).0 in
        let (d', n, writes, partial, whole, same) =
          write_at_end d i (entry_bytes (new_entry old name sector)) v allowed in
        (
          false,
          d',
          rw
              (
                e,
                absent,
                free_from-end (suc i.length) d i garbage (slots i) 0 v (omega arith) (omega arith)
                    full,
                writes,
              )
              (ap (λ b. (b, d')) partial),
          refused whole same,
        )

    free_case :
        (length name == 0 || ltb 14 (length name)) ≡ false
        → lookup d i name ≡ none
        → i.deny_write_cnt ≡ 0
        → (s : ℕ) → find_slot is_free (slot d i) (slots i) 0 ≡ some s
        → (r : Bool) × (d' : Disk) × (dir_add garbage name sector i d ≡ (r, d'))
          × Adding d i name sector r d'
    free_case e absent allowed s free =
        let (d', adds, s_in, unused, st) =
          dir_add-Stored d i garbage name sector s v allowed (valid-IsName name nz e) small absent
            free in
        (true, d', adds, stored s s_in (valid-IsName name nz e) unused absent st)
