-- ===== src/Conv/Signed.antt =====
-- The text that `itoa` writes, read as a number with its sign.
use fenestella.Prelude.{
  ℕ, zero, suc, ◌+◌, ◌-◌, ◌*◌, ◌/◌, ◌%◌, ◌^◌, ◌≤◌, ◌<◌, ◌≡◌, ◌≢◌, refl, sym, ap, subst, ◌∙◌, inl,
  inr, true, false, ◌||◌, some, arith, ◌==◌, ==_iff, ltb, if◌then◌else◌, update, Bool-cases,
}
use native.Mathlib.Nat.{div-add-mod', mod-lt}
use fenestella.Conv.{digit, clear, settle, utoa, is_negative, negate, write_signed, itoa}
use fenestella.Conv.Number.{
  digit_value, digit_value-digit, number, most, power-most, HasDigits, has_digits, settle-HasDigits,
  utoa-number, IsDigit,
}

number-ext :
    (base : ℕ) (f g : ℕ → ℕ) → ((j : ℕ) → f j ≡ g j) → (n : ℕ) → number base f n ≡ number base g n
number-ext base f g h zero = refl
number-ext base f g h (suc n) = rw (number-ext base f g h n, h n) refl

module _ (i base tmp : ℕ) (str : ℕ → ℕ) where
  write_signed-last :
      (tmp / base == 0) ≡ true
      → write_signed (suc i) base tmp str ≡ update str (suc i) (digit (tmp % base))
  unfolding write_signed
  write_signed-last last = rw last refl

  write_signed-more :
      (tmp / base == 0) ≡ false
      → write_signed (suc i) base tmp str
        ≡ write_signed i base (tmp / base) (update str (suc i) (digit (tmp % base)))
  unfolding write_signed
  write_signed-more more = rw more refl

signed_at : (text : ℕ → ℕ) (j : ℕ) → update text 0 45 (suc j) ≡ text (suc j)
signed_at text j = ground arith

abbrev SignedIs : ℕ → ℕ → ℕ → (ℕ → ℕ) → (ℕ → ℕ) → Type 0
SignedIs base more value str written =
    (number base (λ j. written (suc j)) (suc more) ≡ value)
    × ((j : ℕ) → suc more < j → written j ≡ str j)
    × ((j : ℕ) → j ≤ more → IsDigit base (written (suc j)))

-- What is written: a minus sign in front where the number is below 0, then the digits, and
-- behind them what clearing has left.
abbrev pub Signed : ℕ → ℕ → (ℕ → ℕ) → (ℕ → ℕ) → ℕ → Type 0
Signed base value str written n =
    if is_negative value
    then (written 0 ≡ 45)
      × (number base (λ j. written (suc j)) n ≡ negate value)
      × ((j : ℕ) → j < n → IsDigit base (written (suc j)))
      × (written (suc n) ≡ clear (most base + 1) str (suc n))
    else (number base written n ≡ value)
      × ((j : ℕ) → j < n → IsDigit base (written j))
      × (written n ≡ 0)

module _ (base : ℕ) (low : 2 ≤ base) (high : base ≤ 16) where
  write_signed-Is :
      (more value : ℕ) (str : ℕ → ℕ)
      → HasDigits base more value
      → SignedIs base more value str (write_signed (suc more) base value str)
  write_signed-Is zero value str digits =
      let last : (value / base == 0) ≡ true = ground (arith, digits) in
      let written = update str 1 (digit (value % base)) in
      let pos : 0 < base = omega arith in
      let small = mod-lt value pos in
      let here : digit_value (written 1) ≡ value % base =
        digit_value-digit (value % base) (omega arith) in
      let whole : value % base ≡ value =
        omega (arith, ap (λ q. q * base + value % base) digits, div-add-mod' value base) in
      subst (SignedIs base 0 value str) (sym (write_signed-last 0 base value str last)) (
        omega (arith, here, whole),
        λ j above. ground arith,
        λ j under. (value % base, small, ground arith),
      )
  write_signed-Is (suc more) value str digits =
      let further : (value / base == 0) ≡ false = ground (arith, digits.0) in
      let written = update str (suc (suc more)) (digit (value % base)) in
      let pos : 0 < base = omega arith in
      let small = mod-lt value pos in
      let str' = write_signed (suc more) base (value / base) written in
      let (value', above, digit_each) = write_signed-Is more (value / base) written digits.1 in
      let last_digit : str' (suc (suc more)) ≡ digit (value % base) =
        above (suc (suc more)) (omega arith) ∙ ground arith in
      let here : digit_value (str' (suc (suc more))) ≡ value % base =
        ap digit_value last_digit ∙ digit_value-digit (value % base) (omega arith) in
      let each : (j : ℕ) → j ≤ suc more → IsDigit base (str' (suc j)) = λ j under.
        elim (Bool-cases (j == suc more)) [
          | inl end ↦
              let at : j ≡ suc more = (==_iff j (suc more)).0 end in
              (value % base, small, ap (λ t. str' (suc t)) at ∙ last_digit)
          | inr inner ↦ digit_each j (ground arith)
        ] in
      subst (SignedIs base (suc more) value str)
        (sym (write_signed-more (suc more) base value str further))
        (
          ap (λ n. n * base + digit_value (str' (suc (suc more)))) value'
              ∙ ap (λ d. value / base * base + d) here
              ∙ div-add-mod' value base,
          λ j over. above j (omega arith) ∙ ground arith,
          each,
        )

  module _ (fuel value : ℕ) (str : ℕ → ℕ) where
    itoa-utoa : value < 2 ^ 63 → itoa fuel value str base ≡ utoa fuel value str base
    unfolding itoa utoa
    itoa-utoa small = let positive : is_negative value ≡ false = ground arith in rw positive refl

    itoa-write_signed :
        (start : ℕ)
        → 2 ^ 63 ≤ value
        → most base + 1 - settle (most base) base (negate value) ≡ start
        → itoa fuel value str base
          ≡ some (
              some
                (update (write_signed start base (negate value) (clear (most base + 1) str)) 0 45))
    unfolding itoa
    itoa-write_signed start large at =
        let in_range : (ltb base 2 || ltb 16 base) ≡ false = ground arith in
        let some_there : (value == 0) ≡ false = ground arith in
        let below : is_negative value ≡ true = ground arith in
        rw (in_range, some_there, below, at) refl

    -- `itoa` of any number of 64 bits but the least, in any base from 2 to 16, ends within 64 steps
    -- and writes at least one digit of the base and no more than its table allows. A number that is not below 0
    -- is read back digit by digit from a text that is ended by a 0. A number below 0 has a minus
    -- sign in front, the digits behind it are read back as its magnitude, and the byte behind
    -- those is what clearing one byte more than the table allows has left: 0 where there are fewer
    -- digits than that, and what was there before otherwise.
    pub itoa-Signed :
        value < 2 ^ 64
        → value ≢ 2 ^ 63
        → 64 ≤ fuel
        → (written : ℕ → ℕ) × (n : ℕ) × (itoa fuel value str base ≡ some (some written))
          × Signed base value str written n
          × (0 < n)
          × (n ≤ most base)
    itoa-Signed bound least enough = elim (Bool-cases (is_negative value)) [
      | inr positive ↦
          let (written, n, found, same, each, end, some_digit, few) =
            utoa-number fuel value str base low high bound enough in
          (
            written,
            n,
            itoa-utoa (ground arith) ∙ found,
            rw positive (same, each, end),
            some_digit,
            few,
          )
      | inl below ↦
          let wide = power-most base low high in
          let large : 2 ^ 63 ≤ value = ground arith in
          let (more, inside, digits) =
            has_digits base (omega arith) (most base) (negate value) (omega arith) (omega arith) in
          let settled = settle-HasDigits base more (negate value) (most base) digits inside in
          let start : most base + 1 - settle (most base) base (negate value) ≡ suc more =
            omega (arith, settled, inside) in
          let cleared = clear (most base + 1) str in
          let (same, above, each) = write_signed-Is more (negate value) cleared digits in
          let text = write_signed (suc more) base (negate value) cleared in
          (
            update text 0 45,
            suc more,
            itoa-write_signed (suc more) large start,
            rw below (
              refl,
              number-ext base (λ j. update text 0 45 (suc j)) (λ j. text (suc j)) (signed_at text)
                    (suc more)
                  ∙ same,
              λ j lt. let d = each j (omega arith) in (d.0, d.1, signed_at text j ∙ d.2),
              signed_at text (suc more) ∙ above (suc (suc more)) (omega arith),
            ),
            omega arith,
            omega arith,
          )
    ]
