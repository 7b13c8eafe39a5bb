-- ===== src/Ps2/Interrupt.antt =====
-- `__kbd_ps2_irq_handler` of kernel/src/iodev/hid/ps2/ps2_kbd.c from any state.
use fenestella.Prelude.{
  ℕ, suc, ◌+◌, ◌%◌, ◌^◌, ◌<◌, ◌≡◌, refl, ap, sym, ◌∙◌, Bool, true, false, not, ◌||◌, List, [], ◌∷◌,
  ◌++◌, arith, ◌==◌, if◌then◌else◌, length, length-set, set, inl, inr, Bool-cases,
}
use fenestella.Ps2.{
  Effect, save_key, read_data, mask_irq, unmask_irq, send_eoi, Ps2, irq_handler, needs_next_byte,
  handle_scancode, clear_scan_buffer, validate_state, set_mask, register_keystroke,
  translate_keycode, render,
}

abbrev pub eois : List Effect → ℕ
eois [] = 0
eois (send_eoi ∷ es) = suc (eois es)
eois (save_key k ∷ es) = eois es
eois (mask_irq ∷ es) = eois es
eois (unmask_irq ∷ es) = eois es
eois (read_data ∷ es) = eois es

-- The index at which the next byte is written is one of the eight of the buffer.
abbrev pub Fits : Ps2 → Type 0
Fits s = (length s.scancode_buffer ≡ 8) × (s.scancode_buffer_pos < 8)

eois-append : (xs ys : List Effect) → eois (xs ++ ys) ≡ eois xs + eois ys
eois-append [] ys = omega arith
eois-append (send_eoi ∷ xs) ys = omega (arith, eois-append xs ys)
eois-append (save_key k ∷ xs) ys = eois-append xs ys
eois-append (mask_irq ∷ xs) ys = eois-append xs ys
eois-append (unmask_irq ∷ xs) ys = eois-append xs ys
eois-append (read_data ∷ xs) ys = eois-append xs ys

eois-register_keystroke : (k : ℕ) → eois (register_keystroke k).1 ≡ 0
unfolding register_keystroke
eois-register_keystroke k = ground arith

eois-handle_scancode : (scancode : List ℕ) (bytes : ℕ) → eois (handle_scancode scancode bytes) ≡ 0
unfolding handle_scancode
eois-handle_scancode scancode bytes =
    ground (arith, eois-register_keystroke (translate_keycode (render scancode bytes 0)))

one_eoi :
    (scancode : List ℕ) (bytes : ℕ) → eois (handle_scancode scancode bytes ++ send_eoi ∷ []) ≡ 1
one_eoi scancode bytes =
    eois-append (handle_scancode scancode bytes) (send_eoi ∷ [])
    ∙ ap (λ n. n + 1) (eois-handle_scancode scancode bytes)

clash : true ≡ false → ⊥
clash e = cc

not-needs_next_byte : (buffer : List ℕ) → needs_next_byte buffer 8 ≡ false
unfolding needs_next_byte
not-needs_next_byte buffer = refl

-- The byte is not looked at.
abbrev ignored : Ps2 → Bool
ignored s = not (validate_state s) || s.commanding

abbrev stored : ℕ → Ps2 → List ℕ
stored byte s = set s.scancode_buffer s.scancode_buffer_pos byte

abbrev next_pos : Ps2 → ℕ
next_pos s = (s.scancode_buffer_pos + 1) % 2 ^ 8

abbrev Fine : List Effect × Ps2 → Type 0
Fine r = Fits r.1 × (eois r.0 ≡ 1)

Fine-if :
    (b : Bool) (x y : List Effect × Ps2)
    → (b ≡ true → Fine x)
    → (b ≡ false → Fine y)
    → Fine (if b then x else y)
Fine-if true x y f g = f refl
Fine-if false x y f g = g refl

refused-eois : (busy : Bool) → eois ((if busy then [] else read_data ∷ []) ++ send_eoi ∷ []) ≡ 1
refused-eois true = refl
refused-eois false = refl

next_pos-Fits :
    (byte : ℕ) (s : Ps2)
    → Fits s
    → needs_next_byte (stored byte s) (next_pos s) ≡ true
    → next_pos s < 8
next_pos-Fits byte s fits more = elim (Bool-cases (s.scancode_buffer_pos == 7)) [
  | inl last ↦
      let eight : next_pos s ≡ 8 = ground arith in
      let stop = ap (needs_next_byte (stored byte s)) eight ∙ not-needs_next_byte (stored byte s) in
      absurd (clash (sym more ∙ stop))
  | inr inside ↦ ground arith
]

-- From any state whose position is an index of the buffer, an interrupt with any byte writes
-- inside the buffer, leaves the position an index of it, and is acknowledged exactly once, also
-- when the keyboard is masked, not set up or busy with a command.
pub irq_handler-Fits :
    (byte : ℕ) (s : Ps2) → Fits s → Fits (irq_handler byte s).1 × (eois (irq_handler byte s).0 ≡ 1)
unfolding irq_handler set_mask clear_scan_buffer
irq_handler-Fits byte s fits =
    let wide = length-set s.scancode_buffer s.scancode_buffer_pos byte ∙ fits.0 in
    Fine-if (ignored s) _ _ (λ skip. (fits, refused-eois s.commanding))
      (λ go.
        Fine-if (needs_next_byte (stored byte s) (next_pos s)) _ _
          (λ more. ((wide, next_pos-Fits byte s fits more), refl))
          (λ done. ((refl, omega arith), one_eoi (stored byte s) (next_pos s))))
