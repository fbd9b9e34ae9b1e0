-- ===== src/Hash.antt =====
-- lib/kernel/hash.c: hash tables. An element is its address, and NULL is `none`. The table is built over
-- what its users pass to `hash_init`: the hash of an element, a 32-bit number, and the order. What
-- `malloc` returns is an argument. An action or a destructor is called on the elements in the order
-- of the list that the model returns.
pub mod Buckets
pub mod Rehash
pub mod Laws
pub mod Insert
pub mod Counts
pub mod Delete
use Prim.Native.Nat.{bit_and, bit_xor}
use project_pintos.Base.{
  ℕ, zero, suc, ◌+◌, ◌-◌, ◌*◌, ◌/◌, ◌%◌, ◌^◌, ◌==◌, ltb, Bool, true, false, not, ◌&&◌,
  if◌then◌else◌, List, [], ◌∷◌, ◌++◌, Option, none, some,
}
use project_pintos.Sched.Switch.{list_remove}

-- `struct hash`: the buckets by their index, and how many there are.
pub record HashTable : Type 0 where
  pub elem_cnt : ℕ
  pub bucket_cnt : ℕ
  pub buckets : ℕ → List ℕ

abbrev pub fnv_32_prime : ℕ
fnv_32_prime = 16777619

abbrev pub fnv_32_basis : ℕ
fnv_32_basis = 2166136261

-- The loop of `hash_bytes` and `hash_string`.
abbrev pub fnv_from : ℕ → List ℕ → ℕ
fnv_from hash [] = hash
fnv_from hash (b ∷ bytes) = fnv_from (bit_xor (hash * fnv_32_prime % 2 ^ 32) b) bytes

unfoldable pub hash_bytes : List ℕ → ℕ
hash_bytes buf = fnv_from fnv_32_basis buf

-- `hash_string` of the bytes of a C string.
unfoldable pub hash_string : List ℕ → ℕ
hash_string s = fnv_from fnv_32_basis s

-- `hash_int` of the 32 bits of an `int`.
unfoldable pub hash_int : ℕ → ℕ
unfolding hash_bytes
hash_int i =
    hash_bytes ((i % 256) ∷ (i / 2 ^ 8 % 256) ∷ (i / 2 ^ 16 % 256) ∷ (i / 2 ^ 24 % 256) ∷ [])

unfoldable pub turn_off_least_1bit : ℕ → ℕ
turn_off_least_1bit x = bit_and x (x - 1)

unfoldable pub is_power_of_2 : ℕ → Bool
unfolding turn_off_least_1bit
is_power_of_2 x = not (x == 0) && turn_off_least_1bit x == 0

abbrev pub best_elems_per_bucket : ℕ
best_elems_per_bucket = 2

-- The loop of `rehash` that turns off bits. Each round makes the number smaller, so the number is
-- enough fuel.
unfoldable pub power_below : ℕ → ℕ → ℕ
unfolding is_power_of_2
power_below zero x = x
power_below (suc fuel) x =
    let rest = power_below fuel (turn_off_least_1bit x) in if is_power_of_2 x then x else rest

-- The number of buckets that `rehash` calculates.
unfoldable pub new_bucket_cnt : ℕ → ℕ
unfolding power_below
new_bucket_cnt elem_cnt =
    let wanted = elem_cnt / best_elems_per_bucket in
    let enough = if ltb wanted 4 then 4 else wanted in power_below enough enough

-- `list_push_front` on a bucket.
abbrev pub push_front : ℕ → ℕ → (ℕ → List ℕ) → ℕ → List ℕ
push_front idx e buckets j = if idx == j then e ∷ buckets j else buckets j

abbrev pub no_buckets : ℕ → List ℕ
no_buckets j = []

-- The elements of `n` buckets from `i` on, in the order of `hash_apply`.
abbrev pub elements_from : ℕ → ℕ → (ℕ → List ℕ) → List ℕ
elements_from zero i buckets = []
elements_from (suc n) i buckets = buckets i ++ elements_from n (i + 1) buckets

-- `hash_init`, where `malloc` succeeded or not.
unfoldable pub hash_init : Bool → Bool × HashTable
hash_init allocated = (allocated, record { elem_cnt = 0; bucket_cnt = 4; buckets = no_buckets })

-- `hash_clear`, with the elements that the destructor is called on.
unfoldable pub hash_clear : HashTable → List ℕ × HashTable
hash_clear h =
    (elements_from h.bucket_cnt 0 h.buckets, record h { elem_cnt = 0; buckets = no_buckets })

unfoldable pub hash_apply : HashTable → List ℕ
hash_apply h = elements_from h.bucket_cnt 0 h.buckets

unfoldable pub hash_size : HashTable → ℕ
hash_size h = h.elem_cnt

unfoldable pub hash_empty : HashTable → Bool
hash_empty h = h.elem_cnt == 0

-- The move of the elements of one old bucket, and of `n` old buckets from `i` on, in `rehash`.
abbrev pub move_bucket : (ℕ → ℕ) → List ℕ → (ℕ → List ℕ) → ℕ → List ℕ
move_bucket idx [] new_buckets = new_buckets
move_bucket idx (e ∷ rest) new_buckets = move_bucket idx rest (push_front (idx e) e new_buckets)

abbrev pub move_from : (ℕ → ℕ) → ℕ → ℕ → (ℕ → List ℕ) → (ℕ → List ℕ) → ℕ → List ℕ
move_from idx zero i old_buckets new_buckets = new_buckets
move_from idx (suc n) i old_buckets new_buckets =
    move_from idx n (i + 1) old_buckets (move_bucket idx (old_buckets i) new_buckets)

module _ (hash : ℕ → ℕ) (less : ℕ → ℕ → Bool) where
  -- `find_bucket`: the index of the bucket.
  unfoldable pub find_bucket : ℕ → ℕ → ℕ
  find_bucket bucket_cnt e = bit_and (hash e) (bucket_cnt - 1)

  unfoldable pub find_elem : List ℕ → ℕ → Option ℕ
  find_elem [] e = none
  find_elem (x ∷ rest) e =
      let later = find_elem rest e in if not (less x e) && not (less e x) then some x else later

  -- `rehash`, where `malloc` of the new buckets succeeded or not.
  unfoldable pub rehash : Bool → HashTable → HashTable
  unfolding new_bucket_cnt find_bucket
  rehash allocated h =
      let new_cnt = new_bucket_cnt h.elem_cnt in
      if new_cnt == h.bucket_cnt
      then h
      else if allocated
      then record h {
        bucket_cnt = new_cnt;
        buckets = move_from (find_bucket new_cnt) h.bucket_cnt 0 h.buckets no_buckets;
      }
      else h

  unfoldable pub insert_elem : ℕ → ℕ → HashTable → HashTable
  insert_elem idx e h = record h {
    elem_cnt = (h.elem_cnt + 1) % 2 ^ 32;
    buckets = push_front idx e h.buckets;
  }

  -- `remove_elem`: the element leaves the list that it is in.
  unfoldable pub remove_elem : ℕ → HashTable → HashTable
  remove_elem e h = record h {
    elem_cnt = h.elem_cnt - 1;
    buckets = λ j. list_remove e (h.buckets j);
  }

  unfoldable pub hash_find : ℕ → HashTable → Option ℕ
  unfolding find_bucket find_elem
  hash_find e h = find_elem (h.buckets (find_bucket h.bucket_cnt e)) e

  unfoldable pub hash_insert : Bool → ℕ → HashTable → Option ℕ × HashTable
  hash_insert allocated new h =
      let idx = find_bucket h.bucket_cnt new in
      let old = find_elem (h.buckets idx) new in
      let h' = elim old as (λ _. HashTable) [ none ↦ insert_elem idx new h | some _ ↦ h ] in
      (old, rehash allocated h')

  unfoldable pub hash_replace : Bool → ℕ → HashTable → Option ℕ × HashTable
  hash_replace allocated new h =
      let idx = find_bucket h.bucket_cnt new in
      let old = find_elem (h.buckets idx) new in
      let h' = elim old as (λ _. HashTable) [ none ↦ h | some e ↦ remove_elem e h ] in
      (old, rehash allocated (insert_elem idx new h'))

  unfoldable pub hash_delete : Bool → ℕ → HashTable → Option ℕ × HashTable
  hash_delete allocated e h =
      let found = find_elem (h.buckets (find_bucket h.bucket_cnt e)) e in
      (
        found,
        elim found as (λ _. HashTable) [ none ↦ h | some x ↦ rehash allocated (remove_elem x h) ],
      )
