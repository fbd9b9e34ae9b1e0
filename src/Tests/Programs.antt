-- ===== src/Tests/Programs.antt =====
-- The theorems on system calls and processes (userprog/syscall.c, userprog/process.c), for a process that
-- has its own program open at descriptor 2.
use mathlib.Core.List.{Mem, not-mem-nil}
use mathlib.Core.Path.{subst}
use project_pintos.Base.{
  ◌*◌, ◌/◌, ◌⊎◌, ltb, Option, ℕ, ◌+◌, ◌%◌, ◌<◌, ◌≤◌, ◌≡◌, ◌==◌, refl, true, false, if◌then◌else◌,
  List, [], ◌∷◌, none, some, arith, length, replicate, leb,
}
use project_pintos.Base.Int.{ℤ, pos, negsuc, ◌+ℤ◌}
use project_pintos.Base.Word.{wrap32}
use project_pintos.Inode.{Inode}
use project_pintos.File.{File}
use project_pintos.File.Balance.{IsBalanced, with_file}
use project_pintos.Fs.{Fs}
use project_pintos.Process.{Process, World, exits, returns, with_fs, store_file, is_user_vaddr}
use project_pintos.Palloc.{phys_base, page_size}
use project_pintos.Process.Wait.{Family, status, process_wait, process_wait-process_wait}
use project_pintos.Process.Stack.{Stack, set_stack}
use project_pintos.Process.Layout.{LaidOut, set_stack_lem}
use project_pintos.Process.Argv.{Line, set_argv, set_argv_lem}
use project_pintos.Process.Segment.{Phdr, validate_segment, segment_of, segment_of_lem}
use project_pintos.Syscall.{open_call, exit, close, install}
use project_pintos.Syscall.Table.{IsTable, IsRunning}
use project_pintos.Syscall.Close.{exit_lem}
use project_pintos.Syscall.Install.{IsOpened, Installed, install_lem}
use project_pintos.Filesys.{Memory, filesys_open}
use project_pintos.Filesys.Found.{file_named, filesys_open_lem}
use project_pintos.Fs.Close.{Kept}
use project_pintos.Syscall.Open.{Opens, close-install, open_call-IsRunning}
use project_pintos.Tests.Scenes.{other_member}
use project_pintos.Syscall.Transfer.{write}
use project_pintos.Syscall.Deny.{write-current}
use project_pintos.Syscall.Numbers.{fibonacci, fib_number, fibonacci_lem}
use project_pintos.Syscall.Handler.{Processes, Allocated, sys_exit, run_call, syscall_handler}
use project_pintos.Syscall.Arguments.{syscall_handler-outside}

abbrev program : File
program = record { inode = 7; pos = 0; deny_write = false }

abbrev data_file : File
data_file = record { inode = 8; pos = 0; deny_write = false }

-- The inodes, where those at 7 and 8 have the given openers.
abbrev inodes : ℕ → ℕ → ℕ → Inode
inodes n m a = record {
  sector = a;
  open_cnt = if a == 7 then n else if a == 8 then m else 0;
  removed = false;
  deny_write_cnt = 0;
  start = 20;
  length = 600;
}

abbrev system : ℕ → ℕ → Fs
system n m = record {
  inodes = inodes n m;
  open_inodes = 7 ∷ [];
  free_map = record {
    map = record { bit_cnt = 64; bits = 1023 ∷ 0 ∷ [] };
    file = none;
    disk = λ s. replicate 512 0;
  };
}

abbrev process : Process
process = record {
  name = 97 ∷ [];
  exit_status = pos 0;
  files = λ i. if i == 2 then 100 else 0;
  fd_used = λ i. i == 2;
  current_file = 100;
  child_load_success = true;
}

abbrev world : World
world = record {
  process = process;
  heap = λ a. program;
  fs = system 1 0;
  memory = λ a. 0;
  keys = λ n. 0;
  keys_read = 0;
  console = [];
  exit_lines = [];
}

world-IsTable : IsTable process
world-IsTable = record {
  filled = λ i e. ground arith;
  empty = λ i e. ground arith;
  reserved = λ i h. ground arith;
}

world-IsRunning : IsRunning [] world
world-IsRunning = record {
  table = world-IsTable;
  balanced = record { not_null = refl; opened = λ a. ground arith; denied = λ a. ground arith };
  kept = λ a. refl;
}

exit_lem_example :
    (w' : World) × (exit {A = ℤ} (pos 3) world ≡ some (exits w'))
    × (w'.process.exit_status ≡ pos 3)
    × (w'.exit_lines ≡ (97 ∷ [], pos 3) ∷ [])
    × ((i : ℕ) → i < 130 → (w'.process.fd_used i ≡ false) × (w'.process.files i ≡ 0))
    × IsBalanced [] w'.fs
exit_lem_example = exit_lem [] (pos 3) world world-IsRunning

-- The file at inode 8 was opened, at address 200.
opened : IsOpened [] 200 data_file (system 1 1) world
opened = record {
  running = world-IsRunning;
  not_null = omega arith;
  writable = refl;
  fresh = λ j e. ground arith;
  counted = record { not_null = refl; opened = λ a. ground arith; denied = λ a. ground arith };
  kept = λ a. refl;
}

abbrev before : World
before = store_file 200 data_file (with_fs (system 1 1) world)

install_lem_example :
    IsRunning [] (install 200 (98 ∷ []) before).1
    × Installed 200 data_file world (install 200 (98 ∷ []) before)
unfolding install
install_lem_example = install_lem [] 200 data_file (system 1 1) (98 ∷ []) world opened

close-install_example :
    (w' : World) × (close (pos 3) (install 200 (98 ∷ []) before).1 ≡ some w')
    × IsRunning [] w'
    × ((j : ℕ) → w'.process.fd_used j ≡ process.fd_used j)
    × ((j : ℕ) → w'.process.files j ≡ process.files j)
unfolding install
close-install_example = close-install [] 200 3 data_file (system 1 1) (98 ∷ []) world opened refl

write-current_example :
    (w' : World) × (write (pos 2) 4096 10 world ≡ some (returns (pos 0) w'))
    × (w'.fs.free_map ≡ world.fs.free_map)
unfolding is_user_vaddr
write-current_example =
    write-current [] 2 4096 10 world world-IsRunning (omega arith) refl refl refl

abbrev processes : Processes
processes = record {
  process_execute = λ name w. some (pos 4, w);
  process_wait = λ pid w. some (negsuc 0, w);
}

abbrev memory : Memory
memory = record { inode_page = 50; dir_ok = true; create_ok = true; file_ok = true }

abbrev allocated : Allocated
allocated = record {
  memory = memory;
  page = 51;
  file_page = 200;
  garbage = record { inode_sector = 0; name = []; in_use = false };
  malloc = λ size. none;
}

-- The number of the call, `SYS_EXIT`, is the last word of the memory of the program.
abbrev at_the_end : World
at_the_end = record world { memory = λ a. if a == 3221225468 then 1 else 0 }

syscall_handler-outside_example :
    (((k : ℕ) → k ≤ 1 → is_user_vaddr (3221225468 + 4 * k) ≡ true)
      × (syscall_handler processes allocated 3221225468 at_the_end
          ≡ run_call processes allocated (some sys_exit) (λ k. 0) at_the_end))
    ⊎ ((k : ℕ) × (k ≤ 1)
        × (is_user_vaddr (3221225468 + 4 * k) ≡ false)
        × (syscall_handler processes allocated 3221225468 at_the_end ≡ exit (negsuc 0) at_the_end))
syscall_handler-outside_example =
    syscall_handler-outside processes allocated 3221225468 at_the_end (λ k. 0)
      (λ k low high. ground arith)

-- An allocator that finds memory for up to 100 bytes.
abbrev some_memory : ℕ → Option (List ℤ)
some_memory size = if ltb size 100 then some (replicate (size / 4) (pos 9)) else none

fibonacci_lem_example : fibonacci some_memory (pos 7) ≡ some (fib_number 7)
fibonacci_lem_example =
    fibonacci_lem some_memory (replicate 8 (pos 9)) 7 refl refl (omega arith) (omega arith)

fib_number_of_7 : fib_number 7 ≡ pos 13
unfolding fib_number wrap32 ◌+ℤ◌
fib_number_of_7 = refl

-- The arguments "ls" and "-l".
abbrev words : List (List ℕ)
words = (108 ∷ 115 ∷ []) ∷ (45 ∷ 108 ∷ []) ∷ []

abbrev top : Stack
top = (phys_base, λ a. 0)

set_stack_lem_example : LaidOut words top (set_stack words top)
set_stack_lem_example = set_stack_lem words top (omega arith) (omega arith) (omega arith)

abbrev line : List ℕ
line = 108 ∷ 115 ∷ 32 ∷ 32 ∷ 45 ∷ 108 ∷ []

set_argv_lem_example :
    (ws : List (List ℕ)) × Line line ws
    × (set_argv line ≡ (if leb (length ws) 128 then some ws else none))
set_argv_lem_example = set_argv_lem line

abbrev text_segment : Phdr
text_segment = record {
  p_type = 1;
  p_offset = 116;
  p_vaddr = 134512756;
  p_filesz = 5000;
  p_memsz = 6000;
  p_flags = 5;
}

segment_of_lem_example :
    let s = segment_of text_segment in
    ((s.read_bytes + s.zero_bytes) % page_size ≡ 0)
    × (s.mem_page % page_size ≡ 0)
    × (s.file_page % page_size ≡ 0)
    × (page_size ≤ s.mem_page)
    × (s.mem_page ≤ 134512756)
    × (134512756 + 6000 ≤ s.mem_page + (s.read_bytes + s.zero_bytes))
    × (s.mem_page + (s.read_bytes + s.zero_bytes) ≤ phys_base)
unfolding validate_segment is_user_vaddr
segment_of_lem_example = segment_of_lem 20000 text_segment (omega arith) refl

filesys_open_lem_example :
    (t' : Fs) × (filesys_open memory 51 (98 ∷ []) (system 1 0)
      ≡ some (file_named memory 51 (98 ∷ []) (system 1 0), t'))
    × IsBalanced (with_file (file_named memory 51 (98 ∷ []) (system 1 0)) (program ∷ [])) t'
    × Kept t'
filesys_open_lem_example =
    filesys_open_lem memory 51 (98 ∷ []) (program ∷ []) (system 1 0)
      (record {
        balanced = world-IsRunning.balanced;
        kept = λ a. refl;
        no_null = other_member 7 0 (omega arith);
      })
      (refl, other_member 7 50 (omega arith)) (refl, other_member 7 51 (omega arith)) (omega arith)

open_call-IsRunning_example :
    (r : ℤ × World) × (open_call memory 51 200 (some (98 ∷ [])) world ≡ some r)
    × Opens memory 51 200 (some (98 ∷ [])) [] world r
open_call-IsRunning_example =
    open_call-IsRunning memory 51 200 (some (98 ∷ [])) [] world world-IsRunning
      (other_member 7 0 (omega arith)) (refl, other_member 7 50 (omega arith))
      (refl, other_member 7 51 (omega arith)) (omega arith) (omega arith) (λ j e. ground arith)

-- Two children; the second one has ended with status 9.
abbrev family : Family
family = record {
  child_list = 6 ∷ 8 ∷ [];
  tid = λ c. c + 1;
  exit_status = λ c. pos 9;
  ready_to_exit = λ c. c == 8;
  deleted_from_parent = λ c. false;
}

process_wait-process_wait_example :
    process_wait (pos 9) (process_wait (pos 9) family).1
    ≡ (status (negsuc 0), (process_wait (pos 9) family).1)
unfolding process_wait
process_wait-process_wait_example =
    process_wait-process_wait (pos 9) family
      (
        (λ d m e. other_member 8 6 (omega arith) (subst (λ x. Mem x (8 ∷ [])) (ground arith) m)),
        ((λ d m e. not-mem-nil m), _),
      )
      (λ q. ground arith)
