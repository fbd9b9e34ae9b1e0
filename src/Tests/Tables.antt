-- ===== src/Tests/Tables.antt =====
-- The theorems on hash tables (lib/kernel/hash.c), at a table of two numbers that are their own hashes.
use Prim.Native.Nat.{bit_and}
use project_pintos.Base.{
  ◌^◌, suc, ℕ, ◌≡◌, ◌<◌, ◌≤◌, ◌/◌, ap, sym, ◌∙◌, ◌==◌, ltb, true, false, ◌||◌, inl, inr,
  if◌then◌else◌, [], ◌∷◌, Option, arith, Bool-cases,
}
use project_pintos.Hash.{HashTable, hash_insert, hash_delete, find_bucket, new_bucket_cnt}
use project_pintos.Hash.Rehash.{new_bucket_cnt_lem}
use project_pintos.Hash.Buckets.{has}
use project_pintos.Hash.Counts.{count}
use project_pintos.Hash.Delete.{IsOnce, without, hash_delete_lem}
use project_pintos.Hash.Laws.{IsHash, Search, stored, equal}
use project_pintos.Hash.Insert.{IsSetLike, with_new, hash_insert_lem}

abbrev own : ℕ → ℕ
own x = x

abbrev table : HashTable
table = record { elem_cnt = 2; bucket_cnt = 4; buckets = λ i. if i == 1 then 5 ∷ 1 ∷ [] else [] }

same_number : (x y : ℕ) → equal own ltb x y ≡ true → x ≡ y
same_number x y h = ground arith

table-IsHash : IsHash own ltb table
unfolding find_bucket
table-IsHash = record { some_buckets = omega arith; placed = placed }
  where
    one_of : (y : ℕ) → (5 == y || (1 == y || false)) ≡ true → bit_and y 3 ≡ 1
    one_of y h = elim (Bool-cases (5 == y)) [
      | inl e ↦ let five : 5 ≡ y = ground arith in ap (λ x. bit_and x 3) (sym five)
      | inr e ↦ let one : 1 ≡ y = ground arith in ap (λ x. bit_and x 3) (sym one)
    ]

    placed : (i y : ℕ) → i < 4 → has y (table.buckets i) ≡ true → bit_and y 3 ≡ i
    placed i y h it = elim (Bool-cases (i == 1)) [
      | inl e ↦ let at_1 : i ≡ 1 = ground arith in one_of y (rw e at it) ∙ sym at_1
      | inr e ↦ absurd (ground (arith, rw e at it))
    ]

table-IsSetLike : IsSetLike own ltb table
table-IsSetLike = record { unique = λ x y a b e. same_number x y e }

hash_insert_lem_example :
    (old : Option ℕ) × (h' : HashTable) × (hash_insert own ltb true 9 table ≡ (old, h'))
    × Search own ltb (stored own ltb table) 9 old
    × IsHash own ltb h'
    × IsSetLike own ltb h'
    × ((y : ℕ) → stored own ltb h' y ≡ with_new own ltb table 9 old y)
hash_insert_lem_example =
    hash_insert_lem own ltb true 9 table same_number table-IsHash table-IsSetLike

new_bucket_cnt_lem_example :
    (e : ℕ) × (new_bucket_cnt 30 ≡ 2 ^ e)
    × (2 ^ e ≤ (if ltb (30 / 2) 4 then 4 else 30 / 2))
    × ((if ltb (30 / 2) 4 then 4 else 30 / 2) < 2 ^ suc e)
new_bucket_cnt_lem_example = new_bucket_cnt_lem 30

table-IsOnce : IsOnce own ltb table
unfolding find_bucket
table-IsOnce = record { once = λ y. in_bucket y (bit_and y 3) }
  where
    in_bucket : (y i : ℕ) → count y (table.buckets i) ≤ 1
    in_bucket y i = elim (Bool-cases (i == 1)) [
      | inl e ↦ rw e (ground arith)
      | inr e ↦ rw e (omega arith)
    ]

hash_delete_lem_example :
    (gone : Option ℕ) × (h' : HashTable) × (hash_delete own ltb true 5 table ≡ (gone, h'))
    × Search own ltb (stored own ltb table) 5 gone
    × IsHash own ltb h'
    × IsOnce own ltb h'
    × ((y : ℕ) → stored own ltb h' y ≡ without own ltb table gone y)
hash_delete_lem_example = hash_delete_lem own ltb true 5 table same_number table-IsHash table-IsOnce
