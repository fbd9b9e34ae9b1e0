-- ===== src/Process/Stack.antt =====
-- userprog/process.c: `set_stack`, which lays out the arguments on the stack of a new program. A pointer
-- below address 0 does not occur.
use project_pintos.Base.{ℕ, ◌+◌, ◌-◌, ◌/◌, ◌%◌, ◌==◌, if◌then◌else◌, List, [], ◌∷◌, ◌++◌, length}
use project_pintos.Process.{store_bytes}

-- The stack pointer and the memory.
abbrev pub Stack : Type 0
Stack = ℕ × (ℕ → ℕ)

-- A word in the memory, least byte first.
abbrev pub store_word : (ℕ → ℕ) → ℕ → ℕ → ℕ → ℕ
store_word m a v =
    store_bytes m a (v % 256 ∷ v / 256 % 256 ∷ v / 65536 % 256 ∷ v / 16777216 % 256 ∷ [])

-- `*esp -= 4` and the store that follows it.
abbrev pub push_word : ℕ → Stack → Stack
push_word v (esp, m) = (esp - 4, store_word m (esp - 4) v)

-- The first loop: the strings, the last one first, with `address`.
abbrev pub push_strings : List (List ℕ) → Stack → Stack × List ℕ
push_strings [] st = (st, [])
push_strings (arg ∷ argv) st =
    let (below, address) = push_strings argv st in
    let esp = below.0 - (length arg + 1) in
    ((esp, store_bytes below.1 esp (arg ++ 0 ∷ [])), esp ∷ address)

-- `mem_use` after the first loop.
abbrev pub mem_use : List (List ℕ) → ℕ
mem_use [] = 0
mem_use (arg ∷ argv) = mem_use argv + (length arg + 1)

abbrev pub word_align : ℕ → ℕ
word_align used = if used % 4 == 0 then 0 else 4 - used % 4

-- The second loop: the pointers, the last one first.
abbrev pub push_words : List ℕ → Stack → Stack
push_words [] st = st
push_words (v ∷ vs) st = push_word v (push_words vs st)

-- `set_stack`.
unfoldable pub set_stack : List (List ℕ) → Stack → Stack
set_stack argv st =
    let (strings, address) = push_strings argv st in
    let aligned : Stack = (strings.0 - word_align (mem_use argv), strings.1) in
    let pointers = push_words address (push_word 0 aligned) in
    push_word 0 (push_word (length argv) (push_word pointers.0 pointers))
