-- ===== src/Intq/Queue.antt =====
-- An interrupt queue of devices/intq.c is a queue of at most 63 bytes.
use project_pintos.Base.{
  ℕ, zero, suc, ◌+◌, ◌-◌, ◌%◌, ◌<◌, ◌≡◌, ◌≢◌, ◌↔◌, refl, ◌∙◌, ap, ap₂, true, false, List, [], ◌∷◌,
  ◌++◌, some, arith, length, get_or, set, length-set, get_or-set_self, get_or-set_ne,
}
use project_pintos.Sched.{Kernel}
use project_pintos.Intq.{
  Intq, bufsize, next, intq_empty, intq_full, intq_getc, intq_putc, wake_waiter,
}

pub record IsQueue (q : Intq) : Type 0 where
  pub storage : length q.buf ≡ bufsize
  pub head_in : q.head < bufsize
  pub tail_in : q.tail < bufsize

-- The number of bytes queued.
abbrev pub count : Intq → ℕ
count q = (q.head + bufsize - q.tail) % bufsize

-- The `n` bytes from position `t` on.
abbrev pub bytes_from : List ℕ → ℕ → ℕ → List ℕ
bytes_from buf t zero = []
bytes_from buf t (suc n) = get_or buf t 0 ∷ bytes_from buf (next t) n

abbrev pub contents : Intq → List ℕ
contents q = bytes_from q.buf q.tail (count q)

length-bytes_from : (buf : List ℕ) (t n : ℕ) → length (bytes_from buf t n) ≡ n
length-bytes_from buf t zero = refl
length-bytes_from buf t (suc n) = ap suc (length-bytes_from buf (next t) n)

-- Writing the byte after the last one.
bytes_from-set :
    (buf : List ℕ) (x h t n : ℕ)
    → length buf ≡ bufsize
    → t < bufsize
    → n < bufsize
    → h ≡ (t + n) % bufsize
    → bytes_from (set buf h x) t (suc n) ≡ bytes_from buf t n ++ (x ∷ [])
bytes_from-set buf x h t zero s ht hn e =
    let q : h ≡ t = omega arith in rw q (ap (λ b. b ∷ []) (get_or-set_self buf t x 0 (omega arith)))
bytes_from-set buf x h t (suc n) s ht hn e =
    ap₂ ◌∷◌ (get_or-set_ne buf h t x 0 (λ q. absurd (omega arith)))
      (bytes_from-set buf x h (next t) n s (omega arith) (omega arith) (omega arith))

bytes_from-eq : (buf : List ℕ) (t m n : ℕ) → m ≡ n → bytes_from buf t m ≡ bytes_from buf t n
bytes_from-eq buf t m n e = ap (bytes_from buf t) e

-- `intq_putc` into a queue that is not full, with interrupts off, where the waiting thread, if any,
-- can be woken: the byte goes to the end, and the queue stays well formed.
pub intq_putc_appends :
    (byte : ℕ) (q : Intq) (k k' : Kernel)
    → IsQueue q
    → k.intr_on ≡ false
    → intq_full q ≡ false
    → wake_waiter q.not_empty k ≡ some k'
    → (q' : Intq) × (intq_putc byte q k ≡ some (true, q', k'))
      × IsQueue q'
      × (contents q' ≡ contents q ++ (byte ∷ []))
unfolding intq_putc
intq_putc_appends byte q k k' v i f w = (
  record q { buf = set q.buf q.head byte; head = next q.head; not_empty = 0 },
  ground (arith, v.head_in, v.tail_in),
  record {
    storage = length-set q.buf q.head byte ∙ v.storage;
    head_in = omega arith;
    tail_in = v.tail_in;
  },
  bytes_from-eq _ q.tail _ (suc (count q)) (ground (arith, v.head_in, v.tail_in))
      ∙ bytes_from-set q.buf byte q.head q.tail (count q) v.storage v.tail_in (omega arith)
          (ground (arith, v.head_in, v.tail_in)),
)

bytes_from_of_pos :
    (buf : List ℕ) (t n : ℕ)
    → n ≢ 0
    → bytes_from buf t n ≡ get_or buf t 0 ∷ bytes_from buf (next t) (n - 1)
bytes_from_of_pos buf t zero h = absurd (h refl)
bytes_from_of_pos buf t (suc n) h =
    ap (λ k. get_or buf t 0 ∷ bytes_from buf (next t) k) (omega arith)

-- `intq_getc` from a queue that is not empty, with interrupts off, where the waiting thread, if any,
-- can be woken: it returns the oldest byte and removes it, and the queue stays well formed.
pub intq_getc_removes :
    (q : Intq) (k k' : Kernel)
    → IsQueue q
    → k.intr_on ≡ false
    → intq_empty q ≡ false
    → wake_waiter q.not_full k ≡ some k'
    → (byte : ℕ) × (q' : Intq) × (intq_getc q k ≡ some (some byte, q', k'))
      × IsQueue q'
      × (contents q ≡ byte ∷ contents q')
unfolding intq_getc
intq_getc_removes q k k' v i f w = (
  get_or q.buf q.tail 0,
  record q { tail = next q.tail; not_full = 0 },
  ground (arith, v.head_in, v.tail_in),
  record { storage = v.storage; head_in = v.head_in; tail_in = omega arith },
  bytes_from_of_pos q.buf q.tail (count q) (ground (arith, v.head_in, v.tail_in))
      ∙ ap (λ n. get_or q.buf q.tail 0 ∷ bytes_from q.buf (next q.tail) n)
          (ground (arith, v.head_in, v.tail_in)),
)

-- A well-formed queue is empty exactly when it holds no byte, and full exactly when it holds 63.
pub intq_full_empty :
    (q : Intq)
    → IsQueue q
    → ((intq_empty q ≡ true) ↔ (contents q ≡ []))
      × ((intq_full q ≡ true) ↔ (length (contents q) ≡ bufsize - 1))
intq_full_empty q v = (
  (
    λ h. bytes_from-eq q.buf q.tail _ 0 (ground (arith, v.head_in, v.tail_in)),
    λ h.
        ground (arith, ap length h, length-bytes_from q.buf q.tail (count q), v.head_in, v.tail_in),
  ),
  (
    λ h. ground (arith, length-bytes_from q.buf q.tail (count q), v.head_in, v.tail_in),
    λ h. ground (arith, length-bytes_from q.buf q.tail (count q), v.head_in, v.tail_in),
  ),
)
