-- ===== src/Ps2.antt =====
-- kernel/src/iodev/hid/ps2/ps2_kbd.c: the bytes of the keyboard become scan codes, and these become
-- key codes.
pub mod Scancodes
pub mod Framing
pub mod Interrupt
use fenestella.Prelude.{
  ℕ, zero, suc, ◌+◌, ◌*◌, ◌%◌, ◌^◌, Bool, true, false, not, ◌&&◌, ◌||◌, Option, none, some, List,
  [], ◌∷◌, ◌++◌, ◌==◌, if◌then◌else◌, get_or, set, replicate, bit_or,
}
use fenestella.Ps2.Scancodes.{
  make_scancodes, extended_scancodes, break_scancodes, extended_break_scancodes, sequence_scancodes,
}

-- What the handlers do to the devices and to the parts of the kernel that they call.
pub data Effect : Type 0 where
  -- `__kb_man_save_key(keycode)`
  save_key : (keycode : ℕ) → Effect
  -- `apic_io_mask_irq(ps2_kbd_gsi)`
  mask_irq : Effect
  -- `apic_io_unmask_irq(ps2_kbd_gsi)`
  unmask_irq : Effect
  -- `inb(PS2_KBD_DATA_PORT)`
  read_data : Effect
  -- `apic_local_send_eoi()`
  send_eoi : Effect

-- The variables that the handlers share.
pub record Ps2 : Type 0 where
  pub scancode_buffer : List ℕ
  pub scancode_buffer_pos : ℕ
  pub scan_set : ℕ
  pub is_masked : Bool
  pub commanding : Bool

abbrev pub scancodes_supported : ℕ
scancodes_supported = 2

unfoldable pub clear_scan_buffer : Ps2 → Ps2
clear_scan_buffer s = record s { scancode_buffer = replicate 8 0; scancode_buffer_pos = 0 }

-- Whether the scan code goes on behind its first `bytes` bytes.
unfoldable pub needs_next_byte : List ℕ → ℕ → Bool
needs_next_byte scancode bytes =
    let at = λ (i : ℕ). get_or scancode i 0 in
    if bytes == 1
    then at 0 == 0xe0 || at 0 == 0xf0 || at 0 == 0xe1
    else if bytes == 2
    then at 1 == 0xf0 || (at 0 == 0xe0 && at 1 == 0x12) || (at 0 == 0xe1 && at 1 == 0x14)
    else if bytes == 3
    then at 2 == 0x77 || at 2 == 0x7c || at 2 == 0xe0
    else if bytes == 4
    then at 3 == 0xe0 || at 3 == 0xe1
    else if bytes == 5
    then at 4 == 0xf0
    else if bytes == 6
    then at 5 == 0x14
    else if bytes == 7
    then at 6 == 0xf0
    else false

unfoldable pub validate_state : Ps2 → Bool
validate_state s = (s.scan_set == scancodes_supported) && not s.is_masked

unfoldable pub set_mask : Bool → Ps2 → List Effect × Ps2
set_mask mask s = ((if mask then mask_irq else unmask_irq) ∷ [], record s { is_masked = mask })

-- The loop of `ps2_kbd_handle_scancode`: the bytes as one number.
abbrev pub render : List ℕ → ℕ → ℕ → ℕ
render scancode zero rendered = rendered
render [] (suc bytes) rendered = render [] bytes (bit_or (rendered * 2 ^ 8 % 2 ^ 64) 0)
render (b ∷ scancode) (suc bytes) rendered =
    render scancode bytes (bit_or (rendered * 2 ^ 8 % 2 ^ 64) b)

abbrev pub lookup : ℕ → List (ℕ × ℕ) → ℕ → ℕ
lookup code [] default = default
lookup code ((c, key) ∷ rest) default = if code == c then key else lookup code rest default

abbrev pub scancodes : List (ℕ × ℕ)
scancodes =
    make_scancodes ++ extended_scancodes ++ break_scancodes ++ extended_break_scancodes
    ++ sequence_scancodes

unfoldable pub translate_keycode : ℕ → ℕ
translate_keycode rendered_scancode = lookup rendered_scancode scancodes 0

-- `hid_register_keystroke` of kernel/src/iodev/hid/hid.c.
unfoldable pub register_keystroke : ℕ → Bool × List Effect
register_keystroke keycode = if keycode == 0 then (false, []) else (true, save_key keycode ∷ [])

unfoldable pub handle_scancode : List ℕ → ℕ → List Effect
unfolding register_keystroke translate_keycode
handle_scancode scancode bytes =
    if bytes == 0 then [] else (register_keystroke (translate_keycode (render scancode bytes 0))).1

-- `__kbd_ps2_irq_handler`, with the byte that is in the data port.
unfoldable pub irq_handler : ℕ → Ps2 → List Effect × Ps2
unfolding validate_state set_mask needs_next_byte handle_scancode clear_scan_buffer
irq_handler byte s =
    if not (validate_state s) || s.commanding
    then (let masked = set_mask true s in
        (masked.0 ++ (if s.commanding then [] else read_data ∷ []) ++ (send_eoi ∷ []), masked.1))
    else (let buffer = set s.scancode_buffer s.scancode_buffer_pos byte in
        let pos = (s.scancode_buffer_pos + 1) % 2 ^ 8 in
        let s1 = record s { scancode_buffer = buffer; scancode_buffer_pos = pos } in
        if needs_next_byte buffer pos then (read_data ∷ send_eoi ∷ [], s1) else (
          (read_data ∷ []) ++ handle_scancode buffer pos ++ (send_eoi ∷ []),
          clear_scan_buffer s1,
        ))

-- The handler for one interrupt after another.
abbrev pub irqs : List ℕ → Ps2 → List Effect × Ps2
irqs [] s = ([], s)
irqs (byte ∷ rest) s =
    let step = irq_handler byte s in let after = irqs rest step.1 in (step.0 ++ after.0, after.1)

-- The LED byte that `ps2_kbd_sync_leds` sends.
unfoldable pub sync_leds : Bool → Bool → Bool → ℕ
sync_leds scrolllock numlock capslock =
    bit_or (bit_or (if scrolllock then 2 ^ 0 else 0) (if numlock then 2 ^ 1 else 0))
      (if capslock then 2 ^ 2 else 0)

unfoldable pub scancode_set_id : ℕ → ℕ
scancode_set_id scancode_set =
    if scancode_set == 1
    then 0x43
    else if scancode_set == 2
    then 0x41
    else if scancode_set == 3
    then 0x3f
    else 0
