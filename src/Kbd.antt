-- ===== src/Kbd.antt =====
-- apps/frames/prism/src/kbd/kbd.c: the keyboard of the frame Prism, which reads the keys that the
-- kernel left in the buffer page, keeps the state of the lock and shift keys, and calls listeners.
pub mod Tables
pub mod Decode
pub mod Update
pub mod Listeners
use fenestella.Prelude.{
  ℕ, zero, suc, ◌+◌, ◌-◌, ◌%◌, ◌^◌, Bool, true, false, not, ◌&&◌, ◌||◌, Option, none, some, List,
  [], ◌∷◌, ◌++◌, ◌==◌, ltb, leb, if◌then◌else◌, get_or, bit_and, update,
}
use fenestella.Hid.Keys.{
  hid_keycode_capslock, hid_keycode_numlock, hid_keycode_left_shift, hid_keycode_right_shift,
}
use fenestella.Kbd.Tables.{
  kbd_key_ascii_default, kbd_key_ascii_numlock, kbd_key_ascii_capslock,
  kbd_key_ascii_numlock_capslock, kbd_key_ascii_shift, kbd_key_ascii_shift_numlock,
  kbd_key_ascii_shift_capslock, kbd_key_ascii_shift_numlock_capslock,
}

-- The variables of kbd.c; a listener is the address of its function.
pub record Kbd : Type 0 where
  pub started : Bool
  pub listeners : ℕ → ℕ
  pub listeners_count : ℕ
  pub kb_shift : Bool
  pub kb_caps : Bool
  pub kb_nums : Bool

-- The buffer page: the keys, and the count at its end.
pub record Buffer : Type 0 where
  pub key : ℕ → ℕ
  pub size : ℕ

-- The table that the `switch` statements of `kbd_char_decode` choose.
abbrev pub table_for : Bool → Bool → Bool → List ℕ
table_for true true true = kbd_key_ascii_shift_numlock_capslock
table_for true true false = kbd_key_ascii_shift_capslock
table_for true false true = kbd_key_ascii_shift_numlock
table_for true false false = kbd_key_ascii_shift
table_for false true true = kbd_key_ascii_numlock_capslock
table_for false true false = kbd_key_ascii_capslock
table_for false false true = kbd_key_ascii_numlock
table_for false false false = kbd_key_ascii_default

unfoldable pub kbd_char_decode : Kbd → ℕ → ℕ
kbd_char_decode s code =
    let keycode = bit_and code 0x7f in
    if ltb 0x42 keycode
    then 0
    else if keycode == 0
    then 0
    else get_or (table_for s.kb_shift s.kb_caps s.kb_nums) keycode 0

-- The listeners that fit in their page.
abbrev pub max_listeners : ℕ
max_listeners = 512

unfoldable pub kbd_add_listener : ℕ → Kbd → Bool × Kbd
kbd_add_listener listener s =
    if not s.started
    then (false, s)
    else if leb max_listeners s.listeners_count
    then (false, s)
    else (
      true,
      record s {
        listeners = update s.listeners s.listeners_count listener;
        listeners_count = s.listeners_count + 1;
      },
    )

-- The first of the `steps` indices from `i` on at which the listener stands, and else 0.
abbrev pub target_index : (ℕ → ℕ) → ℕ → ℕ → ℕ → ℕ
target_index listeners listener zero i = 0
target_index listeners listener (suc steps) i =
    let rest = target_index listeners listener steps (i + 1) in
    if listeners i == listener then i else rest

-- The loop that moves the listeners from `i + 1` on to the place before theirs.
abbrev pub shift_down : ℕ → ℕ → (ℕ → ℕ) → ℕ → ℕ
shift_down zero i listeners = listeners
shift_down (suc steps) i listeners =
    shift_down steps (i + 1) (update listeners i (listeners (i + 1)))

-- `none` is an access to the word behind the page, which the loop and the last write reach where the
-- page is full.
unfoldable pub kbd_remove_listener : ℕ → Kbd → Option Kbd
kbd_remove_listener listener s =
    if not s.started
    then some s
    else (let target = target_index s.listeners listener s.listeners_count 0 in
        let cleared = update s.listeners target 0 in
        let shifted = shift_down (s.listeners_count - target) target cleared in
        if target == 0
        then some s
        else if leb max_listeners s.listeners_count
        then none
        else some (record s {
          listeners = update shifted s.listeners_count 0;
          listeners_count = s.listeners_count - 1;
        }))

-- What a key does to the lock and shift states.
unfoldable pub switch_keys : ℕ → Kbd → Kbd
switch_keys keycode s =
    if keycode == hid_keycode_capslock
    then record s { kb_caps = not s.kb_caps }
    else if keycode == hid_keycode_numlock
    then record s { kb_nums = not s.kb_nums }
    else if keycode == hid_keycode_left_shift || keycode == hid_keycode_right_shift
    then record s { kb_shift = true }
    else if keycode == hid_keycode_left_shift + 0x80 || keycode == hid_keycode_right_shift + 0x80
    then record s { kb_shift = false }
    else s

-- The calls of the listeners from `j` on with one key.
abbrev pub call_listeners : (ℕ → ℕ) → ℕ → ℕ → ℕ → List (ℕ × ℕ)
call_listeners listeners keycode zero j = []
call_listeners listeners keycode (suc steps) j =
    let rest = call_listeners listeners keycode steps (j + 1) in
    if listeners j == 0 then rest else (listeners j, keycode) ∷ rest

-- The loop of `kbd_update` over the buffered keys from `i` on: the calls, and the state after them.
abbrev pub update_keys : (ℕ → ℕ) → ℕ → ℕ → Kbd → List (ℕ × ℕ) × Kbd
update_keys key zero i s = ([], s)
update_keys key (suc steps) i s =
    let switched = switch_keys (key i) s in
    let rest = update_keys key steps (i + 1) switched in
    (call_listeners switched.listeners (key i) switched.listeners_count 0 ++ rest.0, rest.1)

unfoldable pub kbd_update : Buffer → Kbd → List (ℕ × ℕ) × (Buffer × Kbd)
kbd_update buffer s =
    if not s.started
    then ([], (buffer, s))
    else if buffer.size == 0
    then ([], (buffer, s))
    else (let done = update_keys buffer.key buffer.size 0 s in
        let cleared = (buffer.size + 1) % 2 ^ 16 in
        (
          done.0,
          (record { key = λ i. if ltb i cleared then 0 else buffer.key i; size = 0 }, done.1),
        ))

unfoldable pub kbd_kill : Kbd → Kbd
kbd_kill s = record s { started = false }
