-- ===== src/Shell.antt =====
-- kernel/src/iodev/uart/shell.c: the debug shell on the serial port. A string is the list of its
-- characters, without the 0 behind the last.
pub mod Dispatch
use fenestella.Prelude.{
  ℕ, zero, suc, ◌+◌, ◌-◌, ◌≤◌, Bool, true, false, not, ◌&&◌, ◌||◌, Option, none, some, List, [],
  ◌∷◌, ◌++◌, map, ◌==◌, ltb, leb, if◌then◌else◌, update, replicate,
}

-- What the shell does to the serial port, and the handlers that it calls by their number.
pub data Effect : Type 0 where
  put : (c : ℕ) → Effect
  run : (command : ℕ) → Effect

pub record Shell : Type 0 where
  pub prompt_placed : Bool
  pub output_port : ℕ
  pub command_buffer : ℕ → ℕ
  pub command_buffer_index : ℕ

abbrev pub shell_prompt : List ℕ
shell_prompt = 103 ∷ 108 ∷ 97 ∷ 115 ∷ 115 ∷ 32 ∷ 35 ∷ 62 ∷ 32 ∷ []

abbrev pub unknown_command : List ℕ
unknown_command =
    85 ∷ 110 ∷ 107 ∷ 110 ∷ 111 ∷ 119 ∷ 110 ∷ 32 ∷ 99 ∷ 111 ∷ 109 ∷ 109 ∷ 97 ∷ 110 ∷ 100 ∷ 46 ∷ 46
    ∷ 46 ∷ 13 ∷ 10 ∷ []

abbrev pub commands : List (List ℕ)
commands =
    (104 ∷ 101 ∷ 108 ∷ 112 ∷ [])
    ∷ (112 ∷ 105 ∷ 110 ∷ 103 ∷ [])
    ∷ (105 ∷ 100 ∷ 116 ∷ [])
    ∷ (103 ∷ 100 ∷ 116 ∷ [])
    ∷ (116 ∷ 115 ∷ 115 ∷ [])
    ∷ (108 ∷ 115 ∷ 112 ∷ [])
    ∷ (109 ∷ 101 ∷ 109 ∷ [])
    ∷ (117 ∷ 97 ∷ 114 ∷ 116 ∷ [])
    ∷ (112 ∷ 99 ∷ 105 ∷ [])
    ∷ (99 ∷ 108 ∷ 101 ∷ 97 ∷ 114 ∷ [])
    ∷ (108 ∷ 115 ∷ 100 ∷ 105 ∷ 115 ∷ 107 ∷ 115 ∷ [])
    ∷ (100 ∷ 105 ∷ 115 ∷ 107 ∷ 116 ∷ 101 ∷ 115 ∷ 116 ∷ [])
    ∷ []

-- `__uart_internal_write(s, output_port)`
unfoldable pub internal_write : List ℕ → Shell → List Effect
internal_write text s = if s.output_port == 0 then [] else map put text

unfoldable pub cancel_prompt : Shell → List Effect × Shell
cancel_prompt s =
    if not s.prompt_placed
    then ([], s)
    else (internal_write (replicate 9 8) s, record s { prompt_placed = false })

unfoldable pub replace_prompt : Shell → List Effect × Shell
replace_prompt s =
    let cancelled = if s.prompt_placed then cancel_prompt s else ([], s) in
    let prompt = internal_write shell_prompt s in
    (cancelled.0 ++ prompt, record cancelled.1 { prompt_placed = true })

unfoldable pub shell_write : List ℕ → Shell → List Effect × Shell
shell_write text s =
    let cancelled = cancel_prompt s in
    let replaced = replace_prompt cancelled.1 in
    if s.output_port == 0
    then cancelled
    else (cancelled.0 ++ internal_write text s ++ replaced.0, replaced.1)

unfoldable pub clear_buffer : Shell → Shell
clear_buffer s = record s {
  command_buffer = λ i. if ltb i 0x1000 then 0 else s.command_buffer i;
  command_buffer_index = 0;
}

-- `__uart_command_match` from index `i` of the buffer on.
abbrev pub command_match : (ℕ → ℕ) → ℕ → List ℕ → Bool
command_match input i [] = input i == 0
command_match input i (c ∷ cs) =
    let rest = command_match input (i + 1) cs in if input i == c then rest else false

-- The loop over the commands from number `i` on.
abbrev pub find_command : (ℕ → ℕ) → ℕ → List (List ℕ) → Option ℕ
find_command input i [] = none
find_command input i (c ∷ cs) =
    let rest = find_command input (i + 1) cs in if command_match input 0 c then some i else rest

unfoldable pub buffer_append : ℕ → Shell → Shell
buffer_append c s =
    if leb s.command_buffer_index 4094
    then record s {
      command_buffer = update s.command_buffer s.command_buffer_index c;
      command_buffer_index = s.command_buffer_index + 1;
    }
    else s

-- What follows where a command was found, and where none was.
abbrev pub dispatch : Option ℕ → Shell → List Effect × Shell
dispatch none s = let said = shell_write unknown_command s in (said.0, clear_buffer said.1)
dispatch (some command) s =
    let replaced = replace_prompt (record s { prompt_placed = false }) in
    (run command ∷ replaced.0, clear_buffer replaced.1)

unfoldable pub command_finalize : Shell → List Effect × Shell
command_finalize s =
    let ended = update s.command_buffer s.command_buffer_index 0 in
    if s.command_buffer_index == 0
    then replace_prompt (record s { prompt_placed = false })
    else dispatch (find_command ended 0 commands) (record s { command_buffer = ended })

-- `__uart_shell_handle_character`
unfoldable pub handle_character : ℕ → Shell → List Effect × Shell
handle_character c s =
    let done = command_finalize s in
    if c == 0xa || c == 0xd
    then (internal_write (0xd ∷ 0xa ∷ []) s ++ done.0, done.1)
    else if ltb c 0x20 || ltb 0x7e c
    then ([], s)
    else (internal_write (c ∷ []) s, buffer_append c s)

-- One character after another.
abbrev pub handle_characters : List ℕ → Shell → List Effect × Shell
handle_characters [] s = ([], s)
handle_characters (c ∷ cs) s =
    let one = handle_character c s in
    let rest = handle_characters cs one.1 in (one.0 ++ rest.0, rest.1)
