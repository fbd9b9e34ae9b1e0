-- ===== src/Directory/Slots.antt =====
-- A directory as its entries, and `lookup` over them (filesys/directory.c).
use project_pintos.Base.{
  ℕ, zero, suc, ◌+◌, ◌-◌, ◌*◌, ◌/◌, ◌≤◌, ◌<◌, ◌≡◌, inl, inr, refl, sym, ap, ◌∙◌, ◌==◌, ltb, Bool,
  true, false, ◌&&◌, if◌then◌else◌, List, Option, none, some, arith, length, min, Bool-cases,
}
use project_pintos.Inode.{Disk, Inode, inode_read_at}
use project_pintos.Inode.Read.{IsDisk, inode_read_at_lem, length-file_bytes}
use project_pintos.Directory.{Entry, bytes_entry, c_string, str_eq, lookup_from, lookup}

-- The entries that fit in the file, and the one in a slot.
abbrev pub slots : Inode → ℕ
slots i = i.length / 20

abbrev pub slot : Disk → Inode → ℕ → Entry
slot d i k = bytes_entry (inode_read_at d i 20 (k * 20))

-- An entry in use with the name.
abbrev pub holds : List ℕ → Entry → Bool
holds name e = e.in_use && str_eq name (c_string e.name)

-- The first of `n` slots from `k` on that a test accepts.
abbrev pub find_slot : (Entry → Bool) → (ℕ → Entry) → ℕ → ℕ → Option ℕ
find_slot test f zero k = none
find_slot test f (suc n) k = if test (f k) then some k else find_slot test f n (k + 1)

pub length-read :
    (d : Disk) (i : Inode) (k : ℕ)
    → IsDisk d
    → (length (inode_read_at d i 20 (k * 20)) == 20) ≡ ltb k (slots i)
length-read d i k v =
    let n = min 20 (i.length - k * 20) in
    let long : length (inode_read_at d i 20 (k * 20)) ≡ n =
      ap length (inode_read_at_lem d i 20 (k * 20) v) ∙ length-file_bytes d i (k * 20) n in
    ground arith

abbrev pub at_slot : Disk → Inode → Option ℕ → Option (Entry × ℕ)
at_slot d i none = none
at_slot d i (some k) = some (slot d i k, k * 20)

lookup_from_lem :
    (fuel : ℕ) (d : Disk) (i : Inode) (name : List ℕ) (n k : ℕ)
    → IsDisk d
    → k + n ≡ slots i
    → n < fuel
    → lookup_from fuel d i name (k * 20) ≡ at_slot d i (find_slot (holds name) (slot d i) n k)
unfolding lookup_from
lookup_from_lem zero d i name n k v e h = absurd (omega (arith, h))
lookup_from_lem (suc fuel) d i name zero k v e h =
    let past : ltb k (slots i) ≡ false = ground arith in rw (length-read d i k v, past) refl
lookup_from_lem (suc fuel) d i name (suc n) k v e h =
    let inside : ltb k (slots i) ≡ true = ground arith in
    let next : k * 20 + 20 ≡ (k + 1) * 20 = omega arith in
    rw
      (
        length-read d i k v,
        inside,
        next,
        lookup_from_lem fuel d i name n (k + 1) v (omega arith) (omega arith),
      )
      (elim (Bool-cases (holds name (slot d i k))) [
        | inl found ↦ rw found refl
        | inr other ↦ rw other refl
      ])

-- `lookup` finds the first entry in use with the name.
pub lookup_lem :
    (d : Disk) (i : Inode) (name : List ℕ)
    → IsDisk d
    → lookup d i name ≡ at_slot d i (find_slot (holds name) (slot d i) (slots i) 0)
unfolding lookup
lookup_lem d i name v =
    lookup_from_lem (suc i.length) d i name (slots i) 0 v (omega arith) (omega arith)

-- The search looks at the slots alone.
pub find_slot_same :
    (test : Entry → Bool) (f g : ℕ → Entry) (n k : ℕ)
    → ((j : ℕ) → k ≤ j → j < k + n → test (g j) ≡ test (f j))
    → find_slot test g n k ≡ find_slot test f n k
find_slot_same test f g zero k h = refl
find_slot_same test f g (suc n) k h =
    rw
      (
        h k (omega arith) (omega arith),
        find_slot_same test f g n (k + 1) (λ j lo hi. h j (omega arith) (omega arith)),
      )
      refl

pub find_slot-none :
    (test : Entry → Bool) (f : ℕ → Entry) (n k : ℕ)
    → find_slot test f n k ≡ none
    → (j : ℕ) → k ≤ j
    → j < k + n
    → test (f j) ≡ false
find_slot-none test f zero k h j lo hi = absurd (omega (arith, lo, hi))
find_slot-none test f (suc n) k h j lo hi = elim (Bool-cases (test (f k))) [
  | inl e ↦ absurd (ground (arith, rw e at h))
  | inr e ↦ elim (Bool-cases (k == j)) [
    | inl here ↦ let same : k ≡ j = ground arith in ap (λ x. test (f x)) (sym same) ∙ e
    | inr far ↦ find_slot-none test f n (k + 1) (rw e at h) j (ground arith) (omega arith)
  ]
]

pub find_slot-some :
    (test : Entry → Bool) (f : ℕ → Entry) (n k s : ℕ)
    → find_slot test f n k ≡ some s
    → (k ≤ s) × (s < k + n) × (test (f s) ≡ true)
find_slot-some test f zero k s h = absurd (ground (arith, h))
find_slot-some test f (suc n) k s h = elim (Bool-cases (test (f k))) [
  | inl e ↦
      let same : k ≡ s = ground (arith, rw e at h) in
      (omega arith, omega arith, ap (λ x. test (f x)) (sym same) ∙ e)
  | inr e ↦
      let (lo, hi, fits) = find_slot-some test f n (k + 1) s (rw e at h) in
      (omega arith, omega arith, fits)
]

-- The only slot that the test accepts is found.
pub find_slot_only :
    (test : Entry → Bool) (f : ℕ → Entry) (n k s : ℕ)
    → k ≤ s
    → s < k + n
    → test (f s) ≡ true
    → ((j : ℕ) → k ≤ j → j < s → test (f j) ≡ false)
    → find_slot test f n k ≡ some s
find_slot_only test f zero k s lo hi fits others = absurd (omega (arith, lo, hi))
find_slot_only test f (suc n) k s lo hi fits others = elim (Bool-cases (k == s)) [
  | inl here ↦ let same : k ≡ s = ground arith in rw (ap (λ x. test (f x)) same ∙ fits, same) refl
  | inr far ↦ rw (others k (omega arith) (ground arith)) (
      find_slot_only test f n (k + 1) s (ground arith) (omega arith) fits
        (λ j l r. others j (omega arith) r))
]

pub find_slot_nowhere :
    (test : Entry → Bool) (f : ℕ → Entry) (n k : ℕ)
    → ((j : ℕ) → k ≤ j → j < k + n → test (f j) ≡ false)
    → find_slot test f n k ≡ none
find_slot_nowhere test f zero k h = refl
find_slot_nowhere test f (suc n) k h =
    rw (h k (omega arith) (omega arith))
      (find_slot_nowhere test f n (k + 1) (λ j lo hi. h j (omega arith) (omega arith)))
