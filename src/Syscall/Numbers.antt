-- ===== src/Syscall/Numbers.antt =====
-- The system calls on numbers (userprog/syscall.c), and what they compute.
use native.Mathlib.Decide.{ℕ_discrete}
use project_pintos.Base.{
  ap, ap₂, sym, ◌∙◌, true, get_or-set_self, get_or-set_ne, length-set, ℕ, zero, suc, ◌+◌, ◌-◌, ◌*◌,
  ◌%◌, ◌^◌, ◌≤◌, ◌<◌, ◌≡◌, ◌⊎◌, refl, List, [], ◌∷◌, Option, none, some, if◌then◌else◌, ltb, arith,
  length, get_elem?, get_or, set,
}
use project_pintos.Base.Int.{ℤ, pos, negsuc, ◌+ℤ◌, ◌≤ℤ◌, ltb_ℤ}
use project_pintos.Base.Word.{wrap32}
use project_pintos.Sched.{◌>>=◌, ◌>>◌, assert}

-- The loop of `fibonacci` for `k` further values of `i`.
abbrev pub fibonacci_loop : ℕ → ℕ → List ℤ → List ℤ
fibonacci_loop zero i fib = fib
fibonacci_loop (suc k) i fib =
    fibonacci_loop k (suc i)
      (set fib i (wrap32 (get_or fib (i - 1) (pos 0) +ℤ get_or fib (i - 2) (pos 0))))

-- `fibonacci`. `malloc` is given a size in bytes, a 32-bit number, and returns the words of the memory, or
-- none for NULL. `none` is a write or read outside the memory, or through NULL.
unfoldable pub fibonacci : (ℕ → Option (List ℤ)) → ℤ → Option ℤ
fibonacci malloc (negsuc n) = none
fibonacci malloc (pos n) = do
  garbage ← malloc (4 * (n + 1) % 2 ^ 32)
  assert (ltb 1 (length garbage))
  assert (ltb n (length garbage))
  let fib = fibonacci_loop (n - 1) 2 (set (set garbage 0 (pos 0)) 1 (pos 1))
  get_elem? fib n

-- The function that `fibonacci` tabulates, in 32 bits.
unfoldable pub fib_number : ℕ → ℤ
fib_number zero = pos 0
fib_number (suc zero) = pos 1
fib_number (suc (suc n)) = wrap32 (fib_number (suc n) +ℤ fib_number n)

-- `max_of_four_int`.
unfoldable pub max_of_four_int : ℤ → ℤ → ℤ → ℤ → ℤ
max_of_four_int a b c d =
    let m1 = if ltb_ℤ b a then a else b in
    let m2 = if ltb_ℤ d c then c else d in if ltb_ℤ m2 m1 then m1 else m2

-- `max_of_four_int` returns one of its arguments, and none is greater.
pub max_of_four_int_lem :
    (a b c d : ℤ)
    → let m = max_of_four_int a b c d in
      (a ≤ℤ m) × (b ≤ℤ m) × (c ≤ℤ m) × (d ≤ℤ m) × ((m ≡ a) ⊎ ((m ≡ b) ⊎ ((m ≡ c) ⊎ (m ≡ d))))
unfolding max_of_four_int
max_of_four_int_lem a b c d = ground arith

-- The array holds the numbers below `i`.
abbrev Tabulated : ℕ → List ℤ → Type 0
Tabulated i fib = (j : ℕ) → j < i → get_or fib j (pos 0) ≡ fib_number j

fib_number-step : (i : ℕ) → 2 ≤ i → fib_number i ≡ wrap32 (fib_number (i - 1) +ℤ fib_number (i - 2))
unfolding fib_number
fib_number-step zero two = absurd (omega arith)
fib_number-step (suc zero) two = absurd (omega arith)
fib_number-step (suc (suc n)) two =
    let one_less : suc (suc n) - 1 ≡ suc n = omega arith in
    let two_less : suc (suc n) - 2 ≡ n = omega arith in rw (one_less, two_less) refl

-- One round of the loop.
set-Tabulated :
    (i : ℕ) (fib : List ℤ)
    → 2 ≤ i
    → i < length fib
    → Tabulated i fib
    → Tabulated
        (suc i)
        (set fib i (wrap32 (get_or fib (i - 1) (pos 0) +ℤ get_or fib (i - 2) (pos 0))))
set-Tabulated i fib two room h j below = elim (ℕ_discrete i j) [
  | yes e ↦ rw (← e) (
      get_or-set_self fib i _ (pos 0) room
      ∙ ap₂ (λ x y. wrap32 (x +ℤ y)) (h (i - 1) (omega arith)) (h (i - 2) (omega arith))
      ∙ sym (fib_number-step i two))
  | no ne ↦ get_or-set_ne fib i j _ (pos 0) ne ∙ h j (omega arith)
]

fibonacci_loop-Tabulated :
    (k i : ℕ) (fib : List ℤ)
    → 2 ≤ i
    → i + k ≤ length fib
    → Tabulated i fib
    → Tabulated (i + k) (fibonacci_loop k i fib) × (length (fibonacci_loop k i fib) ≡ length fib)
fibonacci_loop-Tabulated zero i fib two room h = (λ j below. h j (omega arith), refl)
fibonacci_loop-Tabulated (suc k) i fib two room h =
    let v = wrap32 (get_or fib (i - 1) (pos 0) +ℤ get_or fib (i - 2) (pos 0)) in
    let same = length-set fib i v in
    let (all, kept) =
      fibonacci_loop-Tabulated k (suc i) (set fib i v) (omega arith) (omega (arith, same))
        (set-Tabulated i fib two (omega arith) h) in
    (λ j below. all j (omega arith), kept ∙ same)

get_elem?-get_or :
    (xs : List ℤ) (i : ℕ) (d : ℤ) → i < length xs → get_elem? xs i ≡ some (get_or xs i d)
get_elem?-get_or [] i d h = absurd (omega arith)
get_elem?-get_or (x ∷ xs) zero d h = refl
get_elem?-get_or (x ∷ xs) (suc i) d h = get_elem?-get_or xs i d (omega arith)

-- The first two ints.
start-Tabulated : (fib : List ℤ) → 1 < length fib → Tabulated 2 (set (set fib 0 (pos 0)) 1 (pos 1))
unfolding fib_number
start-Tabulated fib room zero below =
    get_or-set_ne (set fib 0 (pos 0)) 1 0 (pos 1) (pos 0) (omega arith)
    ∙ get_or-set_self fib 0 (pos 0) (pos 0) (omega arith)
start-Tabulated fib room (suc zero) below =
    get_or-set_self (set fib 0 (pos 0)) 1 (pos 1) (pos 0) (omega (arith, length-set fib 0 (pos 0)))
start-Tabulated fib room (suc (suc j)) below = absurd (omega arith)

-- For a positive int whose array is less than 4 GB and where `malloc` finds memory of the size it is asked
-- for, `fibonacci` returns the Fibonacci number in 32 bits, whatever the memory held.
pub fibonacci_lem :
    (malloc : ℕ → Option (List ℤ)) (garbage : List ℤ) (n : ℕ)
    → malloc (4 * (n + 1)) ≡ some garbage
    → length garbage ≡ n + 1
    → 0 < n
    → 4 * (n + 1) < 2 ^ 32
    → fibonacci malloc (pos n) ≡ some (fib_number n)
unfolding fibonacci
fibonacci_lem malloc garbage n found full more small =
    let fib = set (set garbage 0 (pos 0)) 1 (pos 1) in
    let size : length fib ≡ n + 1 =
      length-set (set garbage 0 (pos 0)) 1 (pos 1) ∙ length-set garbage 0 (pos 0) ∙ full in
    let asked : 4 * (n + 1) % 2 ^ 32 ≡ 4 * (n + 1) = omega (arith, small) in
    let two : ltb 1 (length garbage) ≡ true = ground (arith, full) in
    let enough : ltb n (length garbage) ≡ true = ground (arith, full) in
    let (all, same) =
      fibonacci_loop-Tabulated (n - 1) 2 fib (omega arith) (omega (arith, size))
        (start-Tabulated garbage (omega (arith, full))) in
    rw (asked, found, ◌>>=◌)
      (rw (two, enough)
        (get_elem?-get_or (fibonacci_loop (n - 1) 2 fib) n (pos 0) (omega (arith, same, size))
          ∙ ap some (all n (omega arith))))
