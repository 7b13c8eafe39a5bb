-- ===== src/Kbd/Decode.antt =====
-- The characters of the keys: what caps lock changes, and what the tables give for the keys behind
-- the letters.
use fenestella.Prelude.{
  ℕ, ◌+◌, ◌-◌, ◌<◌, ◌≡◌, refl, Bool, true, false, not, ◌&&◌, ◌==◌, ==_iff, leb, if◌then◌else◌,
  bit_and, all_below, all_below-lt,
}
use fenestella.Kbd.{Kbd, kbd_char_decode}
use fenestella.Hid.Keys.{
  hid_keycode_enter, hid_keycode_tab, hid_keycode_backspace, hid_keycode_period,
}

-- Letters in the other case.
abbrev pub swap_case : ℕ → ℕ
swap_case c =
    if leb 0x61 c && leb c 0x7a then c - 0x20 else if leb 0x41 c && leb c 0x5a then c + 0x20 else c

-- A keyboard with its locks in these states.
abbrev pub with_locks : Bool → Bool → Bool → Kbd → Kbd
with_locks shift caps nums s = record s { kb_shift = shift; kb_caps = caps; kb_nums = nums }

-- The key of the period without shift.
abbrev pub is_period : Bool → ℕ → Bool
is_period shift code = bit_and code 0x7f == hid_keycode_period && not shift

abbrev is_swapped : Bool → Bool → Kbd → ℕ → Bool
is_swapped shift nums s code = kbd_char_decode (with_locks shift true nums s) code == (
    if is_period shift code
    then 0x2c
    else swap_case (kbd_char_decode (with_locks shift false nums s) code))

all_swapped : (s : Kbd) (shift nums : Bool) → all_below 0x100 (is_swapped shift nums s) ≡ true
unfolding kbd_char_decode
all_swapped s true true = refl
all_swapped s true false = refl
all_swapped s false true = refl
all_swapped s false false = refl

-- Caps lock gives every key its character in the other case and no other change, with any state of
-- shift and num lock and whether the key is pressed or released, with one exception: the key of the
-- period without shift gives a comma.
pub kbd_char_decode-caps :
    (s : Kbd) (shift nums : Bool) (code : ℕ)
    → code < 0x100
    → kbd_char_decode (with_locks shift true nums s) code ≡ (
        if is_period shift code
        then 0x2c
        else swap_case (kbd_char_decode (with_locks shift false nums s) code))
kbd_char_decode-caps s shift nums code lt =
    (==_iff _ _).0 (all_below-lt (is_swapped shift nums s) 0x100 code (all_swapped s shift nums) lt)

abbrev Behind : Kbd → Type 0
Behind s =
    (kbd_char_decode s hid_keycode_enter ≡ (if s.kb_nums then 0xa else 0))
    × (kbd_char_decode s hid_keycode_tab ≡ 0xa)
    × (kbd_char_decode s hid_keycode_backspace ≡ 0x9)

behind : (s : Kbd) (shift caps nums : Bool) → Behind (with_locks shift caps nums s)
unfolding kbd_char_decode
behind s true true true = (refl, refl, refl)
behind s true true false = (refl, refl, refl)
behind s true false true = (refl, refl, refl)
behind s true false false = (refl, refl, refl)
behind s false true true = (refl, refl, refl)
behind s false true false = (refl, refl, refl)
behind s false false true = (refl, refl, refl)
behind s false false false = (refl, refl, refl)

-- The tables place the line feed, the tab and the backspace one key behind the keys of these names:
-- in every state Tab gives a line feed and Backspace gives a tab, and Enter gives a line feed only
-- with num lock.
pub kbd_char_decode-behind :
    (s : Kbd)
    → (kbd_char_decode s hid_keycode_enter ≡ (if s.kb_nums then 0xa else 0))
      × (kbd_char_decode s hid_keycode_tab ≡ 0xa)
      × (kbd_char_decode s hid_keycode_backspace ≡ 0x9)
kbd_char_decode-behind s = behind s s.kb_shift s.kb_caps s.kb_nums
