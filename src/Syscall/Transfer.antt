-- ===== src/Syscall/Transfer.antt =====
-- userprog/syscall.c: `read` and `write`. `input_getc` is the next key of the keyboard.
use project_pintos.Base.{
  ℕ, zero, suc, ◌+◌, ◌^◌, ◌==◌, ltb, if◌then◌else◌, List, [], ◌∷◌, ◌++◌, Option, none, some, length,
}
use project_pintos.Base.Int.{ℤ, pos, negsuc}
use project_pintos.Base.Word.{wrap32}
use project_pintos.Sched.{◌>>=◌}
use project_pintos.File.{file_read, file_write, file_deny_write}
use project_pintos.Fs.{with_disk}
use project_pintos.Process.{World, Outcome, returns, with_fs, store_file, load_bytes, store_bytes}
use project_pintos.Syscall.{check_address, descriptor, is_fd}

-- An `unsigned` as the signed size of `file_read` and `file_write`: nothing is moved where it is negative.
abbrev pub signed_size : ℕ → ℕ
signed_size size = if ltb size (2 ^ 31) then size else 0

-- The loop of `read` over the keys of the keyboard.
abbrev pub read_keys : ℕ → World → List ℕ × World
read_keys zero w = ([], w)
read_keys (suc n) w =
    let (bytes, w') = read_keys n (record w { keys_read = w.keys_read + 1 }) in
    (w.keys w.keys_read ∷ bytes, w')

-- `read` of the file at an address.
unfoldable pub read_file : ℕ → ℕ → ℕ → World → ℤ × World
unfolding file_read
read_file a buffer size w =
    let (bytes, f) = file_read w.fs.free_map.disk w.fs.inodes (signed_size size) (w.heap a) in
    (pos (length bytes), record (store_file a f w) { memory = store_bytes w.memory buffer bytes })

-- `read`.
unfoldable pub read : ℤ → ℕ → ℕ → World → Option (Outcome ℤ)
unfolding check_address read_file
read fd buffer size w = check_address buffer w (
    if is_fd fd 0
    then (let (bytes, w') = read_keys size w in
        some
          (returns (wrap32 (pos size)) (record w' { memory = store_bytes w'.memory buffer bytes })))
    else elim (descriptor fd) [
      | none ↦ some (returns (negsuc 0) w)
      | some i ↦
          let (res, w') =
            if w.process.files i == 0
            then (negsuc 0, w)
            else read_file (w.process.files i) buffer size w in
          some (returns res w')
    ])

-- `write` to the file at an address: the file that the process runs denies writes from then on.
unfoldable pub write_file : ℕ → List ℕ → World → Option (ℤ × World)
unfolding file_deny_write file_write
write_file a bytes w = do
  (f, t) ←
      if w.process.current_file == a then file_deny_write (w.heap a) w.fs else some (w.heap a, w.fs)
  let (d, n, f') = file_write t.free_map.disk t.inodes bytes f
  some (pos n, store_file a f' (with_fs (with_disk d t) w))

-- `write`.
unfoldable pub write : ℤ → ℕ → ℕ → World → Option (Outcome ℤ)
unfolding check_address write_file
write fd buffer size w = check_address buffer w (
    if is_fd fd 1
    then some (
        returns (wrap32 (pos size))
          (record w { console = w.console ++ load_bytes w.memory buffer size }))
    else elim (descriptor fd) [
      | none ↦ some (returns (negsuc 0) w)
      | some i ↦ if w.process.files i == 0 then some (returns (negsuc 0) w) else (do
        (res, w') ← write_file (w.process.files i) (load_bytes w.memory buffer (signed_size size)) w
        some (returns res w'))
    ])
