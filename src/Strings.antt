-- ===== src/Strings.antt =====
-- lib/string.c: searching and splitting of strings. A string is its bytes up to the terminator, and a
-- pointer into it is the offset. NULL arguments do not occur.
pub mod Tokens
use project_pintos.Base.{
  ℕ, zero, suc, ◌+◌, ◌-◌, ◌==◌, ltb, leb, Bool, true, false, if◌then◌else◌, List, [], ◌∷◌, ◌++◌,
  Option, none, some, length, take, drop, min,
}

-- A pointer that is one further.
abbrev pub further : Option ℕ → Option ℕ
further none = none
further (some n) = some (suc n)

-- `memchr` in a block of bytes.
abbrev pub memchr : List ℕ → ℕ → Option ℕ
memchr [] ch = none
memchr (b ∷ block) ch = if b == ch then some 0 else further (memchr block ch)

-- `strchr`, which also finds the terminator.
abbrev pub strchr : List ℕ → ℕ → Option ℕ
strchr [] c = if 0 == c then some 0 else none
strchr (x ∷ string) c = if x == c then some 0 else further (strchr string c)

-- The test of a pointer against NULL.
abbrev pub is_some : Option ℕ → Bool
is_some none = false
is_some (some n) = true

abbrev pub strcspn : List ℕ → List ℕ → ℕ
strcspn [] stop = 0
strcspn (c ∷ string) stop = if is_some (strchr stop c) then 0 else suc (strcspn string stop)

abbrev pub strpbrk : List ℕ → List ℕ → Option ℕ
strpbrk [] stop = none
strpbrk (c ∷ string) stop =
    if is_some (strchr stop c) then some 0 else further (strpbrk string stop)

-- The loop of `strrchr` at offset `n`; `p` is the last one found.
abbrev pub strrchr_from : List ℕ → ℕ → ℕ → Option ℕ → Option ℕ
strrchr_from [] c n p = p
strrchr_from (x ∷ string) c n p = strrchr_from string c (suc n) (if x == c then some n else p)

unfoldable pub strrchr : List ℕ → ℕ → Option ℕ
strrchr string c = strrchr_from string c 0 none

abbrev pub strspn : List ℕ → List ℕ → ℕ
strspn [] skip = 0
strspn (c ∷ string) skip = if is_some (strchr skip c) then suc (strspn string skip) else 0

abbrev pub strnlen : List ℕ → ℕ → ℕ
strnlen [] maxlen = 0
strnlen (c ∷ string) zero = 0
strnlen (c ∷ string) (suc maxlen) = suc (strnlen string maxlen)

-- `strlcat` into an array that holds the string `dst`: the string after it, and what is returned.
unfoldable pub strlcat : List ℕ → List ℕ → ℕ → List ℕ × ℕ
strlcat dst src size =
    let copy_cnt = min (length src) (size - length dst - 1) in
    (if ltb (length dst) size then dst ++ take copy_cnt src else dst, length src + length dst)

-- The loops of `strtok_r`: past the delimiters, and to the end of the token. The second one gives the
-- token and what is left after its delimiter.
abbrev pub skip_delimiters : List ℕ → List ℕ → List ℕ
skip_delimiters delimiters [] = []
skip_delimiters delimiters (c ∷ s) =
    if is_some (strchr delimiters c) then skip_delimiters delimiters s else c ∷ s

abbrev pub split_token : List ℕ → List ℕ → List ℕ × List ℕ
split_token delimiters [] = ([], [])
split_token delimiters (c ∷ s) =
    let (token, rest) = split_token delimiters s in
    if is_some (strchr delimiters c) then ([], s) else (c ∷ token, rest)

-- `strtok_r` from `s` on, which is the saved position where its argument is NULL: the token, and the
-- string at the position that it saves.
unfoldable pub strtok_r : List ℕ → List ℕ → Option (List ℕ) × List ℕ
strtok_r delimiters s = elim (skip_delimiters delimiters s) as (λ _. Option (List ℕ) × List ℕ) [
  | [] ↦ (none, [])
  | c ∷ t ↦ (some (split_token delimiters (c ∷ t)).0, (split_token delimiters (c ∷ t)).1)
]
