-- ===== src/Process/Memory.antt =====
-- Reads and writes of the memory of a process: what a write leaves, and what a read finds.
use project_pintos.Base.{
  ℕ, zero, suc, ◌+◌, ◌*◌, ◌/◌, ◌%◌, ◌^◌, ◌≤◌, ◌<◌, ◌≡◌, refl, sym, ap, ap₂, ◌∙◌, List, [], ◌∷◌,
  length, get_or, arith,
}
use project_pintos.Process.{load_bytes, store_bytes, load_word}
use project_pintos.Process.Stack.{store_word}
use project_pintos.Sched.{update}

-- Two memories that agree below an address, or from an address on.
abbrev pub SameBelow : ℕ → (ℕ → ℕ) → (ℕ → ℕ) → Type 0
SameBelow a m m' = (j : ℕ) → j < a → m j ≡ m' j

abbrev pub SameFrom : ℕ → (ℕ → ℕ) → (ℕ → ℕ) → Type 0
SameFrom a m m' = (j : ℕ) → a ≤ j → m j ≡ m' j

pub store_bytes-below : (bytes : List ℕ) (m : ℕ → ℕ) (a : ℕ) → SameBelow a m (store_bytes m a bytes)
store_bytes-below [] m a j h = refl
store_bytes-below (b ∷ bytes) m a j h =
    let other : update m a b j ≡ m j = ground arith in
    sym other ∙ store_bytes-below bytes (update m a b) (suc a) j (omega arith)

pub store_bytes-from :
    (bytes : List ℕ) (m : ℕ → ℕ) (a : ℕ) → SameFrom (a + length bytes) m (store_bytes m a bytes)
store_bytes-from [] m a j h = refl
store_bytes-from (b ∷ bytes) m a j h =
    let other : update m a b j ≡ m j = ground arith in
    sym other ∙ store_bytes-from bytes (update m a b) (suc a) j (omega arith)

pub load_bytes-store_bytes :
    (bytes : List ℕ) (m : ℕ → ℕ) (a : ℕ)
    → load_bytes (store_bytes m a bytes) a (length bytes) ≡ bytes
load_bytes-store_bytes [] m a = refl
load_bytes-store_bytes (b ∷ bytes) m a =
    let here : update m a b a ≡ b = ground arith in
    ap₂ (λ x xs. x ∷ xs)
      (sym (store_bytes-below bytes (update m a b) (suc a) a (omega arith)) ∙ here)
      (load_bytes-store_bytes bytes (update m a b) (suc a))

pub load_bytes-same :
    (n : ℕ) (m m' : ℕ → ℕ) (a : ℕ)
    → ((j : ℕ) → a ≤ j → j < a + n → m j ≡ m' j)
    → load_bytes m a n ≡ load_bytes m' a n
load_bytes-same zero m m' a h = refl
load_bytes-same (suc n) m m' a h =
    ap₂ (λ x xs. x ∷ xs) (h a (omega arith) (omega arith))
      (load_bytes-same n m m' (suc a) (λ j low high. h j (omega arith) (omega arith)))

pub load_word-same :
    (m m' : ℕ → ℕ) (a : ℕ)
    → ((j : ℕ) → a ≤ j → j < a + 4 → m j ≡ m' j)
    → load_word m a ≡ load_word m' a
load_word-same m m' a h =
    rw
      (
        h a (omega arith) (omega arith),
        h (a + 1) (omega arith) (omega arith),
        h (a + 2) (omega arith) (omega arith),
        h (a + 3) (omega arith) (omega arith),
      )
      refl

four_bytes :
    (v : ℕ)
    → v < 2 ^ 32
    → v % 256 + 256 * (v / 256 % 256 + 256 * (v / 65536 % 256 + 256 * (v / 16777216 % 256))) ≡ v
four_bytes v h = omega arith

pub load_word-store_word : (m : ℕ → ℕ) (a v : ℕ) → v < 2 ^ 32 → load_word (store_word m a v) a ≡ v
load_word-store_word m a v h =
    let bytes = v % 256 ∷ v / 256 % 256 ∷ v / 65536 % 256 ∷ v / 16777216 % 256 ∷ [] in
    let m' = store_word m a v in
    let all : load_bytes m' a 4 ≡ bytes = load_bytes-store_bytes bytes m a in
    let second : suc a ≡ a + 1 = omega arith in
    let third : suc (suc a) ≡ a + 2 = omega arith in
    let fourth : suc (suc (suc a)) ≡ a + 3 = omega arith in
    let b0 : m' a ≡ v % 256 = ap (λ l. get_or l 0 0) all in
    let b1 : m' (a + 1) ≡ v / 256 % 256 = ap m' (sym second) ∙ ap (λ l. get_or l 1 0) all in
    let b2 : m' (a + 2) ≡ v / 65536 % 256 = ap m' (sym third) ∙ ap (λ l. get_or l 2 0) all in
    let b3 : m' (a + 3) ≡ v / 16777216 % 256 = ap m' (sym fourth) ∙ ap (λ l. get_or l 3 0) all in
    joined m' b0 b1 b2 b3
  where
    joined :
        (m' : ℕ → ℕ)
        → m' a ≡ v % 256
        → m' (a + 1) ≡ v / 256 % 256
        → m' (a + 2) ≡ v / 65536 % 256
        → m' (a + 3) ≡ v / 16777216 % 256
        → load_word m' a ≡ v
    joined m' b0 b1 b2 b3 = rw (b0, b1, b2, b3) (four_bytes v h)
