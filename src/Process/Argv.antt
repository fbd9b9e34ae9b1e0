-- ===== src/Process/Argv.antt =====
-- userprog/process.c: `set_argv`, which splits the command line into the arguments of the program.
use project_pintos.Base.{
  ℕ, zero, suc, ◌+◌, ◌≤◌, ◌<◌, ◌≡◌, refl, ap, leb, true, false, if◌then◌else◌, List, [], ◌∷◌, ◌++◌,
  Option, none, some, length, length-append, arith,
}
use project_pintos.Strings.{strtok_r}
use project_pintos.Strings.Tokens.{
  AllAre, Behind, Tokenized, at_end, at_delimiter, no_token, token_of, strtok_r_lem,
}

-- The delimiters of `set_argv`.
abbrev pub spaces : List ℕ
spaces = 32 ∷ []

-- A token in front of the arguments after it, or the end.
abbrev pub argument : Option (List ℕ) → List (List ℕ) → List (List ℕ)
argument none argv = []
argument (some token) argv = token ∷ argv

-- The loop of `set_argv`, of at most `n` rounds. A pointer into the line is the string there.
abbrev pub set_argv_loop : ℕ → List ℕ → List (List ℕ)
set_argv_loop zero s = []
set_argv_loop (suc n) s = argument (strtok_r spaces s).0 (set_argv_loop n (strtok_r spaces s).1)

-- `set_argv`, with the array of `load`, which has room for 128 pointers.
unfoldable pub set_argv : List ℕ → Option (List (List ℕ))
set_argv file_name =
    let argv = set_argv_loop (length file_name + 1) file_name in
    if leb (length argv) 128 then some argv else none

-- A line and its words: what stands between spaces, in order.
pub data Line : List ℕ → List (List ℕ) → Type 0 where
  blank : {s : List ℕ} → AllAre true spaces s → Line s []
  word :
      {s : List ℕ} (before token behind rest : List ℕ) (words : List (List ℕ))
      → s ≡ before ++ (token ++ behind)
      → AllAre true spaces before
      → AllAre false spaces token
      → 0 < length token
      → Behind spaces behind rest
      → Line rest words
      → Line s (token ∷ words)

-- What is left behind a token is no longer than what followed it.
rest_le : (behind rest : List ℕ) → Behind spaces behind rest → length rest ≤ length behind
rest_le _ _ at_end = omega arith
rest_le _ _ (at_delimiter c rest e) = omega arith

token-shorter :
    (s before token behind rest : List ℕ)
    → s ≡ before ++ (token ++ behind)
    → 0 < length token
    → Behind spaces behind rest
    → length rest < length s
token-shorter s before token behind rest e more b =
    let le = rest_le behind rest b in
    let outer = length-append before (token ++ behind) in
    let inner = length-append token behind in
    let size : length s ≡ length (before ++ (token ++ behind)) = ap length e in
    omega (arith, le, outer, inner, size)

-- A token and the words of what is left are the words of a line.
token-Line :
    (s : List ℕ) (o : Option (List ℕ)) (rest : List ℕ) (words : List (List ℕ))
    → Tokenized spaces s o rest
    → (length rest < length s → Line rest words)
    → Line s (argument o words)
token-Line s _ _ words (no_token all) h = blank all
token-Line s _ _ words (token_of before token behind rest e all none_of more b) h =
    word before token behind rest words e all none_of more b
      (h (token-shorter s before token behind rest e more b))

loop-Line : (n : ℕ) (s : List ℕ) → length s < n → Line s (set_argv_loop n s)
loop-Line zero s h = absurd (omega arith)
loop-Line (suc n) s h =
    token-Line s (strtok_r spaces s).0 (strtok_r spaces s).1 (set_argv_loop n (strtok_r spaces s).1)
      (strtok_r_lem spaces s) (λ lt. loop-Line n (strtok_r spaces s).1 (omega arith))

-- `set_argv` gives the words of the command line, in order, where they fit in the array: the runs of bytes
-- between spaces, none of them empty.
pub set_argv_lem :
    (file_name : List ℕ)
    → (words : List (List ℕ)) × Line file_name words
      × (set_argv file_name ≡ (if leb (length words) 128 then some words else none))
unfolding set_argv
set_argv_lem file_name = (
  set_argv_loop (length file_name + 1) file_name,
  loop-Line (length file_name + 1) file_name (omega arith),
  refl,
)
