-- ===== src/Process/Layout.antt =====
-- The stack of a new program, as `set_stack` of userprog/process.c leaves it.
use mathlib.Core.Path.{subst}
use project_pintos.Base.{
  ℕ, suc, ◌+◌, ◌-◌, ◌*◌, ◌/◌, ◌%◌, ◌^◌, ◌≤◌, ◌<◌, ◌≡◌, refl, sym, ap, ◌∙◌, List, [], ◌∷◌, ◌++◌,
  length, length-append, arith,
}
use project_pintos.Process.{load_bytes, store_bytes, load_word}
use project_pintos.Process.Stack.{
  Stack, store_word, push_word, push_strings, push_words, mem_use, word_align, set_stack,
}
use project_pintos.Process.Memory.{
  SameFrom, store_bytes-from, load_bytes-store_bytes, load_bytes-same, load_word-same,
  load_word-store_word,
}

-- The strings stand at their addresses, each with its terminator, between two addresses.
abbrev pub StringsAt : ℕ → ℕ → (ℕ → ℕ) → List (List ℕ) → List ℕ → Type 0
StringsAt low high m [] [] = Unit
StringsAt low high m [] (a ∷ address) = ⊥
StringsAt low high m (arg ∷ argv) [] = ⊥
StringsAt low high m (arg ∷ argv) (a ∷ address) =
    (load_bytes m a (length arg + 1) ≡ arg ++ 0 ∷ [])
    × (low ≤ a)
    × (a + (length arg + 1) ≤ high)
    × StringsAt low high m argv address

-- The words stand one behind the other from an address on.
abbrev pub WordsAt : (ℕ → ℕ) → ℕ → List ℕ → Type 0
WordsAt m a [] = Unit
WordsAt m a (v ∷ vs) = (load_word m a ≡ v) × WordsAt m (a + 4) vs

StringsAt-same :
    (low low' high : ℕ) (m m' : ℕ → ℕ) (argv : List (List ℕ)) (address : List ℕ)
    → low' ≤ low
    → SameFrom low m m'
    → StringsAt low high m argv address
    → StringsAt low' high m' argv address
StringsAt-same low low' high m m' [] [] le h s = s
StringsAt-same low low' high m m' [] (a ∷ address) le h s = s
StringsAt-same low low' high m m' (arg ∷ argv) [] le h s = s
StringsAt-same low low' high m m' (arg ∷ argv) (a ∷ address) le h (text, above, below, rest) = (
  sym (load_bytes-same (length arg + 1) m m' a (λ j from to. h j (omega arith))) ∙ text,
  omega arith,
  below,
  StringsAt-same low low' high m m' argv address le h rest,
)

WordsAt-same :
    (m m' : ℕ → ℕ) (a : ℕ) (vs : List ℕ) → SameFrom a m m' → WordsAt m a vs → WordsAt m' a vs
WordsAt-same m m' a [] h w = w
WordsAt-same m m' a (v ∷ vs) h (here, rest) = (
  sym (load_word-same m m' a (λ j from to. h j from)) ∙ here,
  WordsAt-same m m' (a + 4) vs (λ j from. h j (omega arith)) rest,
)

-- The first loop: the strings take `mem_use` bytes below the stack pointer.
push_strings_lem :
    (argv : List (List ℕ)) (st : Stack)
    → mem_use argv ≤ st.0
    → let r = push_strings argv st in
      (r.0.0 + mem_use argv ≡ st.0) × StringsAt r.0.0 st.0 r.0.1 argv r.1 × SameFrom st.0 st.1 r.0.1
push_strings_lem [] st room = (omega arith, _, λ j h. refl)
push_strings_lem (arg ∷ argv) st room =
    let (moved, strings, same) = push_strings_lem argv st (omega arith) in
    let below = (push_strings argv st).0 in
    let text = arg ++ 0 ∷ [] in
    let size : length text ≡ length arg + 1 = length-append arg (0 ∷ []) in
    let esp = below.0 - (length arg + 1) in
    let kept = store_bytes-from text below.1 esp in
    (
      omega arith,
      (
        ap (load_bytes (store_bytes below.1 esp text) esp) (sym size)
            ∙ load_bytes-store_bytes text below.1 esp,
        omega arith,
        omega arith,
        StringsAt-same below.0 esp st.0 below.1 _ argv (push_strings argv st).1 (omega arith)
            (λ j h. kept j (omega (arith, size))) strings,
      ),
      λ j h. same j h ∙ kept j (omega (arith, size)),
    )

-- Numbers that a word can hold.
abbrev pub AreWords : List ℕ → Type 0
AreWords [] = Unit
AreWords (v ∷ vs) = (v < 2 ^ 32) × AreWords vs

-- The second loop, and every other push of a word.
push_words_lem :
    (vs : List ℕ) (st : Stack)
    → 4 * length vs ≤ st.0
    → AreWords vs
    → let r = push_words vs st in
      (r.0 + 4 * length vs ≡ st.0) × WordsAt r.1 r.0 vs × SameFrom st.0 st.1 r.1
push_words_lem [] st room small = (omega arith, _, λ j h. refl)
push_words_lem (v ∷ vs) st room (small, others) =
    let (moved, words, same) = push_words_lem vs st (omega arith) others in
    let below = push_words vs st in
    let esp = below.0 - 4 in
    let back : below.0 ≡ esp + 4 = omega arith in
    let kept : SameFrom (esp + 4) below.1 (store_word below.1 esp v) =
      store_bytes-from (v % 256 ∷ v / 256 % 256 ∷ v / 65536 % 256 ∷ v / 16777216 % 256 ∷ []) below.1
        esp in
    (
      omega arith,
      (
        load_word-store_word below.1 esp v small,
        WordsAt-same below.1 (store_word below.1 esp v) (esp + 4) vs kept
            (subst (λ a. WordsAt below.1 a vs) back words),
      ),
      λ j h. same j h ∙ kept j (omega arith),
    )

push_words-append :
    (vs ws : List ℕ) (st : Stack) → push_words (vs ++ ws) st ≡ push_words vs (push_words ws st)
push_words-append [] ws st = refl
push_words-append (v ∷ vs) ws st = ap (push_word v) (push_words-append vs ws st)

-- The addresses of the strings are words, and there are as many as strings.
addresses-AreWords :
    (low high : ℕ) (m : ℕ → ℕ) (argv : List (List ℕ)) (address : List ℕ)
    → high < 2 ^ 32
    → StringsAt low high m argv address
    → AreWords (address ++ 0 ∷ []) × (length address ≡ length argv)
addresses-AreWords low high m [] [] h s = ((omega arith, _), refl)
addresses-AreWords low high m [] (a ∷ address) h s = absurd s
addresses-AreWords low high m (arg ∷ argv) [] h s = absurd s
addresses-AreWords low high m (arg ∷ argv) (a ∷ address) h (text, above, below, rest) =
    let (words, same) = addresses-AreWords low high m argv address h rest in
    ((omega arith, words), ap suc same)

aligned :
    (esp used : ℕ) → (esp + used) % 4 ≡ 0 → word_align used ≤ esp → (esp - word_align used) % 4 ≡ 0
aligned esp used h room = ground arith

-- A stack with the arguments laid out below what `st` was: at its pointer, a multiple of 4, a null return
-- address, the number of arguments, the address of the array of pointers, and the array, which NULL ends;
-- above the array the strings; and from the old pointer on the memory as before.
abbrev pub LaidOut : List (List ℕ) → Stack → Stack → Type 0
LaidOut argv st r =
    (r.0 % 4 ≡ 0)
    × ((address : List ℕ) × WordsAt r.1 r.0 (0 ∷ length argv ∷ (r.0 + 12) ∷ (address ++ 0 ∷ []))
        × StringsAt (r.0 + 16 + 4 * length argv) st.0 r.1 argv address)
    × SameFrom st.0 st.1 r.1

word_align-small : (used : ℕ) → word_align used ≤ 3
word_align-small used = ground arith

multiple : (k esp r : ℕ) → r + 4 * k ≡ esp → esp % 4 ≡ 0 → r % 4 ≡ 0
multiple k esp r h e = omega arith

-- With room below the stack pointer, a 32-bit multiple of 4, `set_stack` leaves at the new pointer, a multiple
-- of 4 too, a null return address, the number of arguments and the address of the array of pointers, which
-- follows and which NULL ends. Each pointer points to its argument, with its terminator, between the array
-- and the old pointer, from which on the memory is as before.
pub set_stack_lem :
    (argv : List (List ℕ)) (st : Stack)
    → mem_use argv + 4 * length argv + 19 ≤ st.0
    → st.0 < 2 ^ 32
    → st.0 % 4 ≡ 0
    → LaidOut argv st (set_stack argv st)
unfolding set_stack
set_stack_lem argv st room low even =
    let (moved, strings, same) = push_strings_lem argv st (omega arith) in
    let top = (push_strings argv st).0 in
    let address = (push_strings argv st).1 in
    let align = word_align-small (mem_use argv) in
    let start : Stack = (top.0 - word_align (mem_use argv), top.1) in
    let (small, count) = addresses-AreWords top.0 st.0 top.1 argv address low strings in
    let size : length (address ++ 0 ∷ []) ≡ length argv + 1 =
      length-append address (0 ∷ []) ∙ ap (λ n. n + 1) count in
    let array = push_words (address ++ 0 ∷ []) start in
    let (array_moved, array_words, array_same) =
      push_words_lem (address ++ 0 ∷ []) start (omega (arith, size, moved, align)) small in
    let top_small : array.0 < 2 ^ 32 = omega (arith, moved, array_moved) in
    let vs = 0 ∷ length argv ∷ array.0 ∷ (address ++ 0 ∷ []) in
    let (all_moved, all_words, all_same) =
      push_words_lem vs start (omega (arith, size, moved, align))
        (omega arith, (omega (arith, moved), (top_small, small))) in
    let r = push_words vs start in
    let pointer : array.0 ≡ r.0 + 12 = omega (arith, array_moved, all_moved, size) in
    let laid : LaidOut argv st r = (
      multiple (length vs) start.0 r.0 all_moved (
          aligned top.0 (mem_use argv) (ap (λ n. n % 4) moved ∙ even)
            (omega (arith, moved, align))),
      (
        address,
        subst (λ a. WordsAt r.1 r.0 (0 ∷ length argv ∷ a ∷ (address ++ 0 ∷ []))) pointer all_words,
        StringsAt-same top.0 (r.0 + 16 + 4 * length argv) st.0 top.1 r.1 argv address
            (omega (arith, all_moved, size)) (λ j h. all_same j (omega arith)) strings,
      ),
      λ j h. same j h ∙ all_same j (omega (arith, moved)),
    ) in
    let joined : push_words vs start ≡ set_stack argv st =
      ap (λ x. push_word 0 (push_word (length argv) (push_word array.0 x)))
        (push_words-append address (0 ∷ []) start)
      ∙ ap
          (λ a.
            push_word 0
              (push_word (length argv) (push_word a (push_words address (push_word 0 start)))))
          (ap (λ x. x.0) (push_words-append address (0 ∷ []) start)) in
    subst (LaidOut argv st) joined laid
