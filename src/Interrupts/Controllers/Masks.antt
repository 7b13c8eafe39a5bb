-- ===== src/Interrupts/Controllers/Masks.antt =====
-- Masking and redirecting interrupt lines.
use fenestella.Prelude.{
  ℕ, ◌-◌, ◌/◌, ◌%◌, ◌^◌, ◌<◌, ◌≡◌, ◌≢◌, refl, ap, subst, ◌∙◌, inl, inr, Bool, true, false, not,
  ◌&&◌, arith, ◌==◌, ==_iff, ltb, if◌then◌else◌, Bool-cases, bit_and, bit_or, all_below,
  all_below-lt, both,
}
use fenestella.Interrupts.Controllers.{
  Pic, all_but, pic_mask_irq, pic_unmask_irq, Registers, Redirect, redirection,
  apic_io_redirect_irq, apic_io_get_redirect, bit, apic_io_unmask_irq,
}

-- The bit of a line in the masks of the PICs.
abbrev pub line : ℕ → Pic → ℕ
line irq p = if ltb irq 8 then p.master / 2 ^ irq % 2 else p.slave / 2 ^ (irq - 8) % 2

abbrev pub bit_set : ℕ → ℕ → ℕ
bit_set m i = bit_or m (2 ^ i) % 2 ^ 8

abbrev pub bit_cleared : ℕ → ℕ → ℕ
bit_cleared m i = bit_and m (all_but i)

-- On one 8-bit mask.
abbrev byte_case : ℕ → ℕ → ℕ → Bool
byte_case m i j =
    ((bit_set m i / 2 ^ j % 2) == (if j == i then 1 else m / 2 ^ j % 2))
    && ((bit_cleared m i / 2 ^ j % 2) == (if j == i then 0 else m / 2 ^ j % 2))

bytes_fine : all_below 0x100 (λ m. all_below 8 (λ i. all_below 8 (byte_case m i))) ≡ true
bytes_fine = refl

byte_lem :
    (m i j : ℕ)
    → m < 0x100
    → i < 8
    → j < 8
    → (bit_set m i / 2 ^ j % 2 ≡ (if j == i then 1 else m / 2 ^ j % 2))
      × (bit_cleared m i / 2 ^ j % 2 ≡ (if j == i then 0 else m / 2 ^ j % 2))
byte_lem m i j lm li lj =
    let one =
      all_below-lt (λ m. all_below 8 (λ i. all_below 8 (byte_case m i))) 0x100 m bytes_fine lm in
    let two = all_below-lt (λ i. all_below 8 (byte_case m i)) 8 i one li in
    let three = both _ _ (all_below-lt (byte_case m i) 8 j two lj) in
    ((==_iff _ _).0 three.0, (==_iff _ _).0 three.1)

-- Masking one of the 16 lines sets its bit and unmasking clears it, and neither changes the bit of
-- any other line.
pub pic_mask_irq-line :
    (p : Pic) (i j : ℕ)
    → p.master < 0x100
    → p.slave < 0x100
    → i < 16
    → j < 16
    → (line j (pic_mask_irq i p) ≡ (if j == i then 1 else line j p))
      × (line j (pic_unmask_irq i p) ≡ (if j == i then 0 else line j p))
unfolding pic_mask_irq pic_unmask_irq
pic_mask_irq-line p i j lm ls li lj = elim (Bool-cases (ltb i 8)) [
  | inl low ↦ elim (Bool-cases (ltb j 8)) [
    | inl low' ↦
        let b = byte_lem p.master i j lm (ground arith) (ground arith) in simp (low, low') b
    | inr high' ↦
        let other : (j == i) ≡ false = ground arith in simp (low, high', other) (refl, refl)
  ]
  | inr high ↦ elim (Bool-cases (ltb j 8)) [
    | inl low' ↦
        let other : (j == i) ≡ false = ground arith in simp (high, low', other) (refl, refl)
    | inr high' ↦
        let b = byte_lem p.slave (i - 8) (j - 8) ls (ground arith) (ground arith) in
        let same : (j - 8 == i - 8) ≡ (j == i) = ground arith in
        simp (high, high')
          (subst
            (λ (e : Bool).
              (bit_set p.slave (i - 8) / 2 ^ (j - 8) % 2
                ≡ (if e then 1 else p.slave / 2 ^ (j - 8) % 2))
              × (bit_cleared p.slave (i - 8) / 2 ^ (j - 8) % 2
                  ≡ (if e then 0 else p.slave / 2 ^ (j - 8) % 2)))
            same b)
  ]
]

abbrev entry : ℕ → Bool → Bool → ℕ
entry vector alow ltriggered =
    bit_or (bit_or (bit_or vector (bit alow 13)) (bit ltriggered 15)) (2 ^ 16)

abbrev decodes : ℕ → Bool → Bool → Bool → ℕ → Bool
decodes e alow ltriggered masked vector =
    (bit_and e 0xff == vector && bit_and e (2 ^ 13) == bit alow 13)
    && (bit_and e (2 ^ 15) == bit ltriggered 15 && bit_and e (2 ^ 16) == bit masked 16)

abbrev entry_case : Bool → Bool → ℕ → Bool
entry_case alow ltriggered vector =
    let e = entry vector alow ltriggered in
    decodes e alow ltriggered true vector
    && decodes (bit_and e (2 ^ 32 - 1 - 0x10000)) alow ltriggered false vector

entries_fine : (alow ltriggered : Bool) → all_below 0x100 (entry_case alow ltriggered) ≡ true
entries_fine true true = refl
entries_fine true false = refl
entries_fine false true = refl
entries_fine false false = refl

bit-ne :
    (b : Bool) → (not (bit b 13 == 0) ≡ b) × (not (bit b 15 == 0) ≡ b) × (not (bit b 16 == 0) ≡ b)
bit-ne true = (refl, refl, refl)
bit-ne false = (refl, refl, refl)

abbrev pub ReadAs : Redirect → ℕ → Bool → Bool → Bool → Type 0
ReadAs g vector alow ltriggered masked =
    (g.vector ≡ vector)
    × (g.active_low ≡ alow)
    × (g.level_triggered ≡ ltriggered)
    × (g.masked ≡ masked)

read_as :
    (irq : ℕ) (r : Registers) (e vector : ℕ) (alow ltriggered masked : Bool)
    → r (redirection irq) ≡ e
    → decodes e alow ltriggered masked vector ≡ true
    → ReadAs (apic_io_get_redirect irq r) vector alow ltriggered masked
unfolding apic_io_get_redirect
read_as irq r e vector alow ltriggered masked there ok =
    let halves = both _ _ ok in
    let one = both _ _ halves.0 in
    let two = both _ _ halves.1 in
    let bits = λ (n : ℕ). ap (λ a. bit_and a n) there in
    (
      bits 0xff ∙ (==_iff _ _).0 one.0,
      ap (λ (a : ℕ). not (a == 0)) (bits (2 ^ 13) ∙ (==_iff _ _).0 one.1) ∙ (bit-ne alow).0,
      ap (λ (a : ℕ). not (a == 0)) (bits (2 ^ 15) ∙ (==_iff _ _).0 two.0) ∙ (bit-ne ltriggered).1,
      ap (λ (a : ℕ). not (a == 0)) (bits (2 ^ 16) ∙ (==_iff _ _).0 two.1) ∙ (bit-ne masked).2,
    )

same_read :
    (irq : ℕ) (r q : Registers)
    → r (redirection irq) ≡ q (redirection irq)
    → apic_io_get_redirect irq r ≡ apic_io_get_redirect irq q
unfolding apic_io_get_redirect
same_read irq r q e =
    ap
      (λ (entry : ℕ). record {
        irq = irq;
        vector = bit_and entry 0xff;
        active_low = not (bit_and entry (2 ^ 13) == 0);
        level_triggered = not (bit_and entry (2 ^ 15) == 0);
        masked = not (bit_and entry (2 ^ 16) == 0);
      })
      e

-- The entry that `apic_io_redirect_irq` writes is read back with its vector and its modes, masked;
-- after unmasking it is not masked and else the same; and no line but this one is redirected.
pub apic_io_get_redirect-apic_io_redirect_irq :
    (r : Registers) (irq vector : ℕ) (alow ltriggered : Bool)
    → vector < 0x100
    → let t = apic_io_redirect_irq irq vector alow ltriggered r in
      let g = apic_io_get_redirect irq t in
      let u = apic_io_get_redirect irq (apic_io_unmask_irq irq t) in
      ((g.vector ≡ vector)
        × (g.active_low ≡ alow)
        × (g.level_triggered ≡ ltriggered)
        × (g.masked ≡ true))
      × ((u.vector ≡ vector)
          × (u.active_low ≡ alow)
          × (u.level_triggered ≡ ltriggered)
          × (u.masked ≡ false))
      × ((other : ℕ) → other ≢ irq → apic_io_get_redirect other t ≡ apic_io_get_redirect other r)
unfolding apic_io_redirect_irq apic_io_unmask_irq
apic_io_get_redirect-apic_io_redirect_irq r irq vector alow ltriggered lt =
    let t = apic_io_redirect_irq irq vector alow ltriggered r in
    let e = entry vector alow ltriggered in
    let ok =
      both _ _ (
        all_below-lt (entry_case alow ltriggered) 0x100 vector (entries_fine alow ltriggered) lt) in
    let there : t (redirection irq) ≡ e = ground arith in
    let unmasked : apic_io_unmask_irq irq t (redirection irq) ≡ bit_and e (2 ^ 32 - 1 - 0x10000) =
      ground arith in
    (
      read_as irq t e vector alow ltriggered true there ok.0,
      read_as irq (apic_io_unmask_irq irq t) (bit_and e (2 ^ 32 - 1 - 0x10000)) vector alow
          ltriggered false unmasked ok.1,
      λ other ne. same_read other t r (ground arith),
    )
