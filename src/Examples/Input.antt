-- ===== src/Examples/Input.antt =====
-- A concrete keyboard, on the side of the kernel and on that of the frame.
use fenestella.Prelude.{some, ◌≤◌}
use fenestella.Prelude.{
  ℕ, zero, suc, ◌+◌, ◌<◌, ◌≡◌, ◌≢◌, refl, true, false, [], ◌∷◌, arith, ◌==◌, if◌then◌else◌, bit_or,
  replicate,
}
use fenestella.Ps2.{irqs, irq_handler, translate_keycode}
use fenestella.Ps2.Framing.{idle, saved, scancode-framed, translate_keycode-release}
use fenestella.Ps2.Interrupt.{Fits, eois, irq_handler-Fits}
use fenestella.Hid.KbMan.{KbMan}
use fenestella.Hid.KbMan.Held.{Holds, save_keys, save_keys-Holds}
use fenestella.Kbd.{Kbd, Buffer, kbd_char_decode, kbd_update, kbd_remove_listener}
use fenestella.Kbd.Decode.{swap_case, with_locks, kbd_char_decode-caps}
use fenestella.Kbd.Update.{UpdatedIs, kbd_update-calls}
use fenestella.Kbd.Listeners.{kbd_remove_listener-removed}

-- The release of F9, the 124th entry of the scan codes.
scancode-framed_example :
    let after = irqs (0xf0 ∷ 0x01 ∷ []) idle in
    (saved after.0 ≡ 0xe0 ∷ [])
    × (after.1.scancode_buffer ≡ replicate 8 0)
    × (after.1.scancode_buffer_pos ≡ 0)
scancode-framed_example = scancode-framed 123 0xf001 0xe0 refl

translate_keycode-release_example :
    (translate_keycode 0x1c ≢ 0
      → translate_keycode (0xf000 + 0x1c) ≡ bit_or 0x80 (translate_keycode 0x1c))
    × (translate_keycode (0xe000 + 0x1c) ≢ 0
        → translate_keycode (0xe0f000 + 0x1c) ≡ bit_or 0x80 (translate_keycode (0xe000 + 0x1c)))
translate_keycode-release_example = translate_keycode-release 0x1c (omega arith)

irq_handler-Fits_example : Fits (irq_handler 0xe0 idle).1 × (eois (irq_handler 0xe0 idle).0 ≡ 1)
irq_handler-Fits_example = irq_handler-Fits 0xe0 idle (refl, omega arith)

-- A page at 0x8000 that the process 3 took.
abbrev taken_page : KbMan ℕ
taken_page = record {
  current_buffer = 0x8000;
  current_pid = 3;
  current_size = 0x8ffe;
  byte = λ a. if a == 0x8000 then 0x1b else if a == 0x8ffe then 1 else 0;
  world = 0;
}

taken_page-Holds : Holds taken_page (0x1b ∷ [])
taken_page-Holds = record {
  owned = λ e. absurd (omega arith);
  buffer = omega arith;
  count_at = refl;
  counted = refl;
  room = omega arith;
  bytes = refl;
}

save_keys-Holds_example : Holds (save_keys (0x1c ∷ 0x9c ∷ []) taken_page) (0x1b ∷ 0x1c ∷ 0x9c ∷ [])
save_keys-Holds_example = save_keys-Holds (0x1c ∷ 0x9c ∷ []) taken_page (0x1b ∷ []) taken_page-Holds

-- A keyboard with one listener.
abbrev kbd : Kbd
kbd = record {
  started = true;
  listeners = λ i. if i == 0 then 0x400 else 0;
  listeners_count = 1;
  kb_shift = false;
  kb_caps = false;
  kb_nums = false;
}

abbrev buffer : Buffer
buffer = record { key = λ i. if i == 0 then 0x4b else if i == 1 then 0x1b else 0; size = 2 }

kbd_char_decode-caps_example :
    kbd_char_decode (with_locks false true true kbd) 0x9b
    ≡ swap_case (kbd_char_decode (with_locks false false true kbd) 0x9b)
kbd_char_decode-caps_example = kbd_char_decode-caps kbd false true 0x9b (omega arith)

kbd_update-calls_example :
    let r = kbd_update buffer kbd in
    UpdatedIs kbd (0x4b ∷ 0x1b ∷ []) (r.0, r.1.1)
    × (r.1.0.size ≡ 0)
    × ((i : ℕ) → i < 2 → r.1.0.key i ≡ 0)
kbd_update-calls_example = kbd_update-calls buffer kbd refl (omega arith)

-- A keyboard with three listeners.
abbrev three : Kbd
three = record kbd {
  listeners = λ i. if i == 0 then 0x400 else if i == 1 then 0x500 else if i == 2 then 0x600 else 0;
  listeners_count = 3;
}

other : (j : ℕ) → j < 1 → three.listeners j ≢ 0x500
other zero lt e = absurd (omega arith)
other (suc j) lt e = absurd (omega arith)

kbd_remove_listener-removed_example :
    (back : Kbd) × (kbd_remove_listener 0x500 three ≡ some back)
    × (back.listeners_count ≡ 2)
    × ((j : ℕ) → j < 1 → back.listeners j ≡ three.listeners j)
    × ((j : ℕ) → 1 ≤ j → j < 3 → back.listeners j ≡ three.listeners (j + 1))
    × (back.listeners 3 ≡ 0)
    × ((j : ℕ) → 3 < j → back.listeners j ≡ three.listeners j)
kbd_remove_listener-removed_example =
    kbd_remove_listener-removed 0x500 1 three refl (omega arith) (omega arith) (omega arith) other
      refl
