-- ===== src/Process/Segment.antt =====
-- userprog/process.c: which segments of an executable `load` accepts, and the pages that it fills for one.
-- The numbers of a program header are of 32 bits.
use project_pintos.Base.{
  ℕ, ◌+◌, ◌-◌, ◌*◌, ◌/◌, ◌%◌, ◌^◌, ◌≤◌, ◌<◌, ◌≡◌, ◌==◌, ltb, leb, not, ◌&&◌, Bool, true,
  if◌then◌else◌, arith, ap, ◌∙◌,
}
use project_pintos.Palloc.{phys_base, page_size}
use project_pintos.Process.{is_user_vaddr}

-- `struct Elf32_Phdr`, without the physical address and the alignment, which are not read.
pub record Phdr : Type 0 where
  pub p_type : ℕ
  pub p_offset : ℕ
  pub p_vaddr : ℕ
  pub p_filesz : ℕ
  pub p_memsz : ℕ
  pub p_flags : ℕ

-- `validate_segment`, where `x & PGMASK` is the remainder by `PGSIZE`, for a file of `length` bytes.
unfoldable pub validate_segment : ℕ → Phdr → Bool
unfolding is_user_vaddr
validate_segment length phdr =
    phdr.p_offset % page_size == phdr.p_vaddr % page_size
    && (leb phdr.p_offset length
        && (leb phdr.p_filesz phdr.p_memsz
            && (not (phdr.p_memsz == 0)
                && (is_user_vaddr phdr.p_vaddr
                    && (is_user_vaddr ((phdr.p_vaddr + phdr.p_memsz) % 2 ^ 32)
                        && (leb phdr.p_vaddr ((phdr.p_vaddr + phdr.p_memsz) % 2 ^ 32)
                            && leb page_size phdr.p_vaddr))))))

-- `ROUND_UP (x, PGSIZE)`.
abbrev pub round_up : ℕ → ℕ
round_up x = (x + (page_size - 1)) % 2 ^ 32 / page_size * page_size

-- The arguments that `load` gives to `load_segment`.
pub record Segment : Type 0 where
  pub file_page : ℕ
  pub mem_page : ℕ
  pub read_bytes : ℕ
  pub zero_bytes : ℕ

unfoldable pub segment_of : Phdr → Segment
segment_of phdr =
    let page_offset = phdr.p_vaddr % page_size in
    let all = round_up ((page_offset + phdr.p_memsz) % 2 ^ 32) in
    let read_bytes = if ltb 0 phdr.p_filesz then (page_offset + phdr.p_filesz) % 2 ^ 32 else 0 in
    record {
      file_page = phdr.p_offset - phdr.p_offset % page_size;
      mem_page = phdr.p_vaddr - page_offset;
      read_bytes = read_bytes;
      zero_bytes = (all + (2 ^ 32 - read_bytes)) % 2 ^ 32;
    }

-- What `validate_segment` says of the numbers.
pub record IsLoadable (length : ℕ) (phdr : Phdr) : Type 0 where
  pub congruent : phdr.p_offset % page_size ≡ phdr.p_vaddr % page_size
  pub in_file : phdr.p_offset ≤ length
  pub big_enough : phdr.p_filesz ≤ phdr.p_memsz
  pub not_empty : 0 < phdr.p_memsz
  pub in_user : phdr.p_vaddr + phdr.p_memsz < phys_base
  pub not_first : page_size ≤ phdr.p_vaddr

no_wrap :
    (v m : ℕ)
    → m < 2 ^ 32
    → v < phys_base
    → (v + m) % 2 ^ 32 < phys_base
    → v ≤ (v + m) % 2 ^ 32
    → v + m < phys_base
no_wrap v m small a b c = omega arith

-- `validate_segment` accepts no segment that wraps around the address space, reaches into the kernel's or
-- starts in page 0, and none whose file part is larger than it is.
pub validate_segment-IsLoadable :
    (length : ℕ) (phdr : Phdr)
    → phdr.p_memsz < 2 ^ 32
    → validate_segment length phdr ≡ true
    → IsLoadable length phdr
unfolding validate_segment is_user_vaddr
validate_segment-IsLoadable length phdr small h = record {
  congruent = ground arith;
  in_file = ground arith;
  big_enough = ground arith;
  not_empty = ground arith;
  in_user = no_wrap phdr.p_vaddr phdr.p_memsz small (ground arith) (ground arith) (ground arith);
  not_first = ground arith;
}

-- The bytes that are read and the bytes that are zeroed, together.
total : (r a : ℕ) → r ≤ a → a < 2 ^ 32 → r + (a + (2 ^ 32 - r)) % 2 ^ 32 ≡ a
total r a le small = omega arith

-- Rounding up without a wrap.
round_up_lem :
    (x : ℕ)
    → x < 2 ^ 31 + 2 ^ 30 + 4096
    → (x ≤ round_up x) × (round_up x < x + page_size) × (round_up x % page_size ≡ 0)
round_up_lem x h = (omega arith, omega arith, omega arith)

read_le :
    (off f m : ℕ)
    → off + m < phys_base
    → f ≤ m
    → (if ltb 0 f then (off + f) % 2 ^ 32 else 0) ≤ off + m
read_le off f m small le = ground arith

last_page :
    (v m all : ℕ)
    → v + m < phys_base
    → all < v % page_size + m + page_size
    → all % page_size ≡ 0
    → v - v % page_size + all ≤ phys_base
last_page v m all h lt e = omega arith

-- For a segment that `validate_segment` accepts the ASSERTs of `load_segment` hold, and the pages that it
-- fills lie in the memory of the program, from the first page on, and contain the segment.
pub segment_of_lem :
    (length : ℕ) (phdr : Phdr)
    → phdr.p_memsz < 2 ^ 32
    → validate_segment length phdr ≡ true
    → let s = segment_of phdr in
      ((s.read_bytes + s.zero_bytes) % page_size ≡ 0)
      × (s.mem_page % page_size ≡ 0)
      × (s.file_page % page_size ≡ 0)
      × (page_size ≤ s.mem_page)
      × (s.mem_page ≤ phdr.p_vaddr)
      × (phdr.p_vaddr + phdr.p_memsz ≤ s.mem_page + (s.read_bytes + s.zero_bytes))
      × (s.mem_page + (s.read_bytes + s.zero_bytes) ≤ phys_base)
unfolding segment_of
segment_of_lem length phdr small h =
    let v = validate_segment-IsLoadable length phdr small h in
    let page_offset = phdr.p_vaddr % page_size in
    let plain : (page_offset + phdr.p_memsz) % 2 ^ 32 ≡ page_offset + phdr.p_memsz =
      omega (arith, v.in_user) in
    let all = round_up ((page_offset + phdr.p_memsz) % 2 ^ 32) in
    let (least, most, whole) =
      round_up_lem ((page_offset + phdr.p_memsz) % 2 ^ 32) (omega (arith, v.in_user)) in
    let few =
      read_le page_offset phdr.p_filesz phdr.p_memsz (omega (arith, v.in_user)) v.big_enough in
    let sum =
      total (if ltb 0 phdr.p_filesz then (page_offset + phdr.p_filesz) % 2 ^ 32 else 0) all
        (omega (arith, few, least, plain)) (omega (arith, most, plain, v.in_user)) in
    (
      ap (λ n. n % page_size) sum ∙ whole,
      omega arith,
      omega arith,
      omega (arith, v.not_first),
      omega arith,
      rw sum (omega (arith, least, plain)),
      rw sum (last_page phdr.p_vaddr phdr.p_memsz all v.in_user (omega (arith, most, plain)) whole),
    )
