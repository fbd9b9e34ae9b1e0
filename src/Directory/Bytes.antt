-- ===== src/Directory/Bytes.antt =====
-- Directory entries and their bytes (filesys/directory.c).
use project_pintos.Base.{
  ℕ, zero, suc, ◌+◌, ◌*◌, ◌/◌, ◌%◌, ◌^◌, ◌≤◌, ◌<◌, ◌≡◌, ◌≢◌, refl, ap, ◌==◌, Bool, true, false, not,
  if◌then◌else◌, List, [], ◌∷◌, ◌++◌, arith, length, take, drop, get_or, min, length-append,
  length-take, length-drop, Bool-cases, inl, inr,
}
use project_pintos.Directory.{Entry, entry_bytes, bytes_entry, c_string, str_eq, strlcpy}

-- The array of a name has 15 bytes, and a sector number is a `uint32_t`.
pub record IsEntry (e : Entry) : Type 0 where
  pub sector : e.inode_sector < 2 ^ 32
  pub array : length e.name ≡ 15

-- The bytes of a name that a directory can hold: 1 to 14 bytes, none of them zero.
abbrev pub NoZero : List ℕ → Type 0
NoZero [] = Unit
NoZero (c ∷ s) = (c ≢ 0) × NoZero s

pub record IsName (s : List ℕ) : Type 0 where
  pub not_empty : 0 < length s
  pub short : length s ≤ 14
  pub no_zero : NoZero s

take-append : (n : ℕ) (xs ys : List ℕ) → length xs ≡ n → take n (xs ++ ys) ≡ xs
take-append zero [] [] h = refl
take-append zero [] (y ∷ ys) h = refl
take-append zero (x ∷ xs) ys h = absurd (omega (arith, h))
take-append (suc n) [] ys h = absurd (omega (arith, h))
take-append (suc n) (x ∷ xs) ys h = ap (λ r. x ∷ r) (take-append n xs ys (omega arith))

get_or-append : (xs ys : List ℕ) (n : ℕ) → length xs ≡ n → get_or (xs ++ ys) n 0 ≡ get_or ys 0 0
get_or-append [] ys zero h = refl
get_or-append [] ys (suc n) h = absurd (omega (arith, h))
get_or-append (x ∷ xs) ys zero h = absurd (omega (arith, h))
get_or-append (x ∷ xs) ys (suc n) h = get_or-append xs ys n (omega arith)

-- The bytes of a 32-bit number, put together.
pub word :
    (w : ℕ)
    → w < 2 ^ 32
    → w % 256 + w / 2 ^ 8 % 256 * 2 ^ 8 + w / 2 ^ 16 % 256 * 2 ^ 16 + w / 2 ^ 24 % 256 * 2 ^ 24 ≡ w
word w h = omega arith

-- What is read of an entry's bytes is the entry.
pub bytes_entry-entry_bytes : (e : Entry) → IsEntry e → bytes_entry (entry_bytes e) ≡ e
unfolding bytes_entry entry_bytes
bytes_entry-entry_bytes e v =
    ap₃ (word e.inode_sector v.sector) (take-append 15 e.name _ v.array)
      (rw (get_or-append e.name ((if e.in_use then 1 else 0) ∷ []) 15 v.array) (flag e.in_use))
  where
    flag : (b : Bool) → not ((if b then 1 else 0) == 0) ≡ b
    flag true = refl
    flag false = refl

    ap₃ :
        {a b : ℕ} {s t : List ℕ} {x y : Bool}
        → a ≡ b
        → s ≡ t
        → x ≡ y
        → ◌≡◌ {A = Entry}
            (record { inode_sector = a; name = s; in_use = x })
            (record { inode_sector = b; name = t; in_use = y })
    ap₃ p q r = λ i. record { inode_sector = p i; name = q i; in_use = r i }

pub length-entry_bytes : (e : Entry) → IsEntry e → length (entry_bytes e) ≡ 20
unfolding entry_bytes
length-entry_bytes e v =
    omega (arith, length-append e.name ((if e.in_use then 1 else 0) ∷ []), v.array)

c_string-append : (s rest : List ℕ) → NoZero s → c_string (s ++ (0 ∷ rest)) ≡ s
c_string-append [] rest h = refl
c_string-append (c ∷ s) rest h =
    let ne : (c == 0) ≡ false = ground arith in rw (ne, c_string-append s rest h.1) refl

take-all : (n : ℕ) (xs : List ℕ) → length xs ≤ n → take n xs ≡ xs
take-all zero [] h = refl
take-all zero (x ∷ xs) h = absurd (omega (arith, h))
take-all (suc n) [] h = refl
take-all (suc n) (x ∷ xs) h = ap (λ r. x ∷ r) (take-all n xs (omega arith))

-- `strlcpy` of a name into an array of 15 bytes.
pub c_string-strlcpy : (array s : List ℕ) → IsName s → c_string (strlcpy array s 15) ≡ s
unfolding strlcpy
c_string-strlcpy array s v =
    let fits : min (length s) 14 ≡ length s = omega (arith, v.short) in
    rw (fits, take-all (length s) s (omega arith)) (c_string-append s _ v.no_zero)

pub length-strlcpy : (array s : List ℕ) → length array ≡ 15 → length (strlcpy array s 15) ≡ 15
unfolding strlcpy
length-strlcpy array s h =
    let n = min (length s) 14 in
    omega (
      arith,
      length-append (take n s) (0 ∷ drop (n + 1) array),
      length-take n s,
      length-drop (n + 1) array,
    )

-- Equal strings compare equal, and no others.
pub str_eq_self : (s : List ℕ) → str_eq s s ≡ true
str_eq_self [] = refl
str_eq_self (c ∷ s) = ground (arith, str_eq_self s)

pub eq_of_str_eq : (s t : List ℕ) → str_eq s t ≡ true → s ≡ t
eq_of_str_eq [] [] h = refl
eq_of_str_eq [] (b ∷ t) h = cc
eq_of_str_eq (a ∷ s) [] h = cc
eq_of_str_eq (a ∷ s) (b ∷ t) h = ground (arith, eq_of_str_eq s t)

pub str_eq-other : (s t : List ℕ) → s ≢ t → str_eq s t ≡ false
str_eq-other s t ne = elim (Bool-cases (str_eq s t)) [
  | inl e ↦ absurd (ne (eq_of_str_eq s t e))
  | inr e ↦ e
]
