-- ===== src/Process/Command.antt =====
-- userprog/process.c: the command of a command line.
use project_pintos.Base.{
  ℕ, ◌==◌, ltb, ◌||◌, if◌then◌else◌, List, [], ◌∷◌, Option, none, some, length,
}

-- The loop of `get_command`: up to a newline, a space, or the end.
abbrev pub command_prefix : List ℕ → List ℕ
command_prefix [] = []
command_prefix (ch ∷ file_name) =
    let rest = command_prefix file_name in if ch == 10 || ch == 32 then [] else ch ∷ rest

-- `get_command`, which has room for 128 bytes with the terminator.
unfoldable pub get_command : List ℕ → Option (List ℕ)
get_command file_name =
    if ltb (length (command_prefix file_name)) 128 then some (command_prefix file_name) else none
