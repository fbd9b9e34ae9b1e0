-- ===== src/Links.antt =====
-- The doubly linked lists of 20161211_pintos_prj3/src/lib/kernel/list.c as pointers: an element is
-- an address, NULL is 0, and the memory holds the two links of every element. `none` is a failed
-- ASSERT.
pub mod Chain
pub mod Edit
use project_pintos.Base.{
  ℕ, zero, suc, ◌+◌, ◌==◌, Bool, true, false, not, ◌&&◌, ◌||◌, if◌then◌else◌, Option, none, some,
}
use project_pintos.Sched.{◌>>=◌, ◌>>◌, assert}

-- The `prev` and `next` fields of all elements.
pub record Links : Type 0 where
  pub prev : ℕ → ℕ
  pub next : ℕ → ℕ

-- `struct list`: the addresses of its head and its tail.
pub record KernelList : Type 0 where
  pub head : ℕ
  pub tail : ℕ

abbrev pub store : (ℕ → ℕ) → ℕ → ℕ → ℕ → ℕ
store f a v u = if a == u then v else f u

abbrev pub set_prev : ℕ → ℕ → Links → Links
set_prev e v h = record h { prev = store h.prev e v }

abbrev pub set_next : ℕ → ℕ → Links → Links
set_next e v h = record h { next = store h.next e v }

abbrev pub is_head : Links → ℕ → Bool
is_head h e = not (e == 0) && (h.prev e == 0 && not (h.next e == 0))

abbrev pub is_interior : Links → ℕ → Bool
is_interior h e = not (e == 0) && (not (h.prev e == 0) && not (h.next e == 0))

abbrev pub is_tail : Links → ℕ → Bool
is_tail h e = not (e == 0) && (not (h.prev e == 0) && h.next e == 0)

-- `list_init`.
unfoldable pub list_init : KernelList → Links → Links
list_init l h =
    set_next l.tail 0 (set_prev l.tail l.head (set_next l.head l.tail (set_prev l.head 0 h)))

-- `list_begin`, `list_next`, `list_end`, `list_rbegin`, `list_prev`, `list_rend`.
unfoldable pub list_begin : KernelList → Links → ℕ
list_begin l h = h.next l.head

unfoldable pub list_next : ℕ → Links → Option ℕ
list_next e h = assert (is_head h e || is_interior h e) >> some (h.next e)

abbrev pub list_end : KernelList → ℕ
list_end l = l.tail

unfoldable pub list_rbegin : KernelList → Links → ℕ
list_rbegin l h = h.prev l.tail

unfoldable pub list_prev : ℕ → Links → Option ℕ
list_prev e h = assert (is_interior h e || is_tail h e) >> some (h.prev e)

abbrev pub list_rend : KernelList → ℕ
list_rend l = l.head

-- `list_insert`: the four assignments, in order.
unfoldable pub list_insert : ℕ → ℕ → Links → Option Links
list_insert before elem h = do
  assert (is_interior h before || is_tail h before)
  assert (not (elem == 0))
  let a = set_prev elem (h.prev before) h
  let b = set_next elem before a
  let c = set_next (b.prev before) elem b
  some (set_prev before elem c)

-- `list_splice`.
unfoldable pub list_splice : ℕ → ℕ → ℕ → Links → Option Links
list_splice before first past h = do
  assert (is_interior h before || is_tail h before)
  if first == past then some h else (do
    last ← list_prev past h
    assert (is_interior h first)
    assert (is_interior h last)
    let a = set_next (h.prev first) (h.next last) h
    let b = set_prev (a.next last) (a.prev first) a
    let c = set_prev first (b.prev before) b
    let d = set_next last before c
    let e = set_next (d.prev before) first d
    some (set_prev before last e))

-- `list_push_front`, `list_push_back`.
unfoldable pub list_push_front : KernelList → ℕ → Links → Option Links
list_push_front l elem h = list_insert (list_begin l h) elem h

unfoldable pub list_push_back : KernelList → ℕ → Links → Option Links
list_push_back l elem h = list_insert (list_end l) elem h

-- `list_remove`: the element after the one removed, and the links.
unfoldable pub list_remove : ℕ → Links → Option (ℕ × Links)
list_remove elem h = do
  assert (is_interior h elem)
  let a = set_next (h.prev elem) (h.next elem) h
  let b = set_prev (a.next elem) (a.prev elem) a
  some (b.next elem, b)

-- `list_empty`.
unfoldable pub list_empty : KernelList → Links → Bool
list_empty l h = list_begin l h == list_end l

-- `list_front`, `list_back`, `list_pop_front`, `list_pop_back`.
unfoldable pub list_front : KernelList → Links → Option ℕ
list_front l h = assert (not (list_empty l h)) >> some (h.next l.head)

unfoldable pub list_back : KernelList → Links → Option ℕ
list_back l h = assert (not (list_empty l h)) >> some (h.prev l.tail)

unfoldable pub list_pop_front : KernelList → Links → Option (ℕ × Links)
list_pop_front l h = do front ← list_front l h; (after, h') ← list_remove front h; some (front, h')

unfoldable pub list_pop_back : KernelList → Links → Option (ℕ × Links)
list_pop_back l h = do back ← list_back l h; (after, h') ← list_remove back h; some (back, h')

-- The loop of `list_size` from `e` on, for as many elements as the fuel allows.
unfoldable pub count_from : ℕ → ℕ → ℕ → Links → Option ℕ
count_from zero e end h = none
count_from (suc fuel) e end h =
    let more = list_next e h >>= λ n. count_from fuel n end h >>= λ c. some (suc c) in
    if e == end then some 0 else more

unfoldable pub list_size : ℕ → KernelList → Links → Option ℕ
list_size fuel l h = count_from fuel (list_begin l h) (list_end l) h
