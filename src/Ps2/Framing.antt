-- ===== src/Ps2/Framing.antt =====
-- The scan codes of set 2 as sequences of bytes, from an idle keyboard.
use fenestella.Prelude.{
  ℕ, zero, suc, ◌+◌, ◌/◌, ◌%◌, ◌<◌, ◌≡◌, ◌≢◌, refl, ap, sym, subst, ◌∙◌, Bool, true, false, ◌&&◌,
  ◌||◌, some, List, [], ◌∷◌, arith, ◌==◌, ==_iff, if◌then◌else◌, get_elem?, replicate, bit_or, both,
  all_below, all_below-lt,
}
use fenestella.Ps2.{
  Effect, save_key, read_data, mask_irq, unmask_irq, send_eoi, Ps2, irq_handler, irqs, scancodes,
  translate_keycode,
}

-- The keyboard is on, and no scan code has begun.
abbrev pub idle : Ps2
idle = record {
  scancode_buffer = replicate 8 0;
  scancode_buffer_pos = 0;
  scan_set = 2;
  is_masked = false;
  commanding = false;
}

-- The bytes of a number from the highest that is not 0.
abbrev pub bytes_onto : ℕ → ℕ → List ℕ → List ℕ
bytes_onto zero code bytes = bytes
bytes_onto (suc n) code bytes =
    let further = bytes_onto n (code / 0x100) (code % 0x100 ∷ bytes) in
    if code == 0 then bytes else further

abbrev pub bytes_of : ℕ → List ℕ
bytes_of code = bytes_onto 8 code []

-- The keys that are saved.
abbrev pub saved : List Effect → List ℕ
saved [] = []
saved (save_key k ∷ es) = k ∷ saved es
saved (mask_irq ∷ es) = saved es
saved (unmask_irq ∷ es) = saved es
saved (read_data ∷ es) = saved es
saved (send_eoi ∷ es) = saved es

abbrev all {ℓ} : {A : Type ℓ} → (A → Bool) → List A → Bool
all p [] = true
all p (x ∷ xs) = p x && all p xs

all-get_elem? {ℓ} :
    {A : Type ℓ} (p : A → Bool) (xs : List A) (i : ℕ) (x : A)
    → all p xs ≡ true
    → get_elem? xs i ≡ some x
    → p x ≡ true
all-get_elem? p [] i x h e = cc
all-get_elem? p (y ∷ xs) zero x h e =
    let same : y ≡ x = cc in ap p (sym same) ∙ (both (p y) (all p xs) h).0
all-get_elem? p (y ∷ xs) (suc i) x h e = all-get_elem? p xs i x (both (p y) (all p xs) h).1 e

abbrev same_list : List ℕ → List ℕ → Bool
same_list [] [] = true
same_list [] (y ∷ ys) = false
same_list (x ∷ xs) [] = false
same_list (x ∷ xs) (y ∷ ys) = x == y && same_list xs ys

same_list-eq : (xs ys : List ℕ) → same_list xs ys ≡ true → xs ≡ ys
same_list-eq [] [] h = refl
same_list-eq [] (y ∷ ys) h = cc
same_list-eq (x ∷ xs) [] h = cc
same_list-eq (x ∷ xs) (y ∷ ys) h =
    let parts = both (x == y) (same_list xs ys) h in
    let head : x ≡ y = (==_iff x y).0 parts.0 in let tail = same_list-eq xs ys parts.1 in cc

abbrev is_framed : ℕ × ℕ → Bool
is_framed (code, key) =
    let after = irqs (bytes_of code) idle in
    same_list (saved after.0) (key ∷ [])
    && (same_list after.1.scancode_buffer (replicate 8 0) && after.1.scancode_buffer_pos == 0)

all_framed : all is_framed scancodes ≡ true
unfolding irq_handler
all_framed = refl

-- For every scan code that `ps2_translate_keycode` knows: when its bytes come in one interrupt
-- after another while the keyboard is idle, the handler saves the key of that scan code and no
-- other, and the buffer is empty again. No byte in the middle of a scan code ends it, and none
-- after it is waited for.
pub scancode-framed :
    (i code key : ℕ)
    → get_elem? scancodes i ≡ some (code, key)
    → let after = irqs (bytes_of code) idle in
      (saved after.0 ≡ key ∷ [])
      × (after.1.scancode_buffer ≡ replicate 8 0)
      × (after.1.scancode_buffer_pos ≡ 0)
scancode-framed i code key e =
    let after = irqs (bytes_of code) idle in
    let framed = all-get_elem? is_framed scancodes i (code, key) all_framed e in
    let keys = both (same_list (saved after.0) (key ∷ [])) _ framed in
    let rest = both (same_list after.1.scancode_buffer (replicate 8 0)) _ keys.1 in
    (
      same_list-eq (saved after.0) (key ∷ []) keys.0,
      same_list-eq after.1.scancode_buffer (replicate 8 0) rest.0,
      (==_iff after.1.scancode_buffer_pos 0).0 rest.1,
    )

abbrev is_release : ℕ → ℕ → ℕ → Bool
is_release make release c =
    let key = translate_keycode (make + c) in
    key == 0 || translate_keycode (release + c) == bit_or 0x80 key

releases :
    (all_below 0x100 (is_release 0 0xf000) && all_below 0x100 (is_release 0xe000 0xe0f000)) ≡ true
unfolding translate_keycode
releases = refl

release_of :
    (make release c : ℕ)
    → is_release make release c ≡ true
    → translate_keycode (make + c) ≢ 0
    → translate_keycode (release + c) ≡ bit_or 0x80 (translate_keycode (make + c))
release_of make release c h known = ground arith

-- The scan code of a release is that of the press with the byte 0xF0 before the last byte, and
-- gives the key of the press with the highest bit set: for every scan code of one byte, and of
-- two bytes the first of which is 0xE0, that gives a key.
pub translate_keycode-release :
    (c : ℕ)
    → c < 0x100
    → (translate_keycode c ≢ 0 → translate_keycode (0xf000 + c) ≡ bit_or 0x80 (translate_keycode c))
      × (translate_keycode (0xe000 + c) ≢ 0
          → translate_keycode (0xe0f000 + c) ≡ bit_or 0x80 (translate_keycode (0xe000 + c)))
translate_keycode-release c lt =
    let parts = both _ _ releases in
    (
      subst
          (λ (m : ℕ).
            translate_keycode m ≢ 0
            → translate_keycode (0xf000 + c) ≡ bit_or 0x80 (translate_keycode m))
          (omega arith)
          (release_of 0 0xf000 c (all_below-lt (is_release 0 0xf000) 0x100 c parts.0 lt)),
      release_of 0xe000 0xe0f000 c (all_below-lt (is_release 0xe000 0xe0f000) 0x100 c parts.1 lt),
    )
