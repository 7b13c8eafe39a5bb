-- ===== src/Conv/Number.antt =====
-- The text that `utoa` writes, read as a number.
use fenestella.Prelude.{
  ℕ, zero, suc, ◌+◌, ◌-◌, ◌*◌, ◌/◌, ◌%◌, ◌^◌, ◌≤◌, ◌<◌, ◌≡◌, ◌≢◌, refl, ap, ◌∙◌, inl, inr, true,
  false, ◌||◌, Option, some, arith, ◌==◌, ==_iff, ltb, leb, leb→le, if◌then◌else◌, get_or, update,
  all_below, all_below-lt, Bool-cases,
}
use native.Mathlib.Nat.{div-lt_iff_lt-mul, div-add-mod', mod-lt}
use fenestella.Conv.{base_max_digit_map, digit, clear, settle, write_digits, utoa}

-- A digit as a number.
abbrev pub digit_value : ℕ → ℕ
digit_value c = if ltb c 0x3a then c - 0x30 else c - 0x57

-- The first `n` characters as a number.
abbrev pub number : ℕ → (ℕ → ℕ) → ℕ → ℕ
number base str zero = 0
number base str (suc n) = number base str n * base + digit_value (str n)

-- The character is one of the digits of the base.
abbrev pub IsDigit : ℕ → ℕ → Type 0
IsDigit base c = (d : ℕ) × (d < base) × (c ≡ digit d)

digits_fine : all_below 16 (λ n. digit_value (digit n) == n) ≡ true
digits_fine = refl

pub digit_value-digit : (n : ℕ) → n < 16 → digit_value (digit n) ≡ n
digit_value-digit n lt =
    (==_iff _ _).0 (all_below-lt (λ n. digit_value (digit n) == n) 16 n digits_fine lt)

abbrev pub power : ℕ → ℕ → ℕ
power base zero = 1
power base (suc n) = power base n * base

abbrev pub most : ℕ → ℕ
most base = get_or base_max_digit_map base 0

map_fine : all_below 17 (λ b. ltb b 2 || leb (2 ^ 64) (power b (most b))) ≡ true
map_fine = refl

pub power-most : (base : ℕ) → 2 ≤ base → base ≤ 16 → 2 ^ 64 ≤ power base (most base)
power-most base low high =
    let at =
      all_below-lt (λ b. ltb b 2 || leb (2 ^ 64) (power b (most b))) 17 base map_fine
        (omega arith) in
    let large : ltb base 2 ≡ false = ground arith in
    leb→le (2 ^ 64) (power base (most base)) (rw large at at)

-- `value` has one digit more than `more`.
abbrev pub HasDigits : ℕ → ℕ → ℕ → Type 0
HasDigits base zero value = value / base ≡ 0
HasDigits base (suc more) value = (value / base ≢ 0) × HasDigits base more (value / base)

pub has_digits :
    (base : ℕ)
    → 0 < base
    → (n value : ℕ) → value < power base n
    → 0 < value
    → (more : ℕ) × (more < n) × HasDigits base more value
has_digits base pos zero value lt some_value = absurd (omega arith)
has_digits base pos (suc n) value lt some_value = elim (Bool-cases (value / base == 0)) [
  | inl last ↦ (0, omega arith, (==_iff _ _).0 last)
  | inr further ↦
      let less = (div-lt_iff_lt-mul pos).1 lt in
      let left : value / base ≢ 0 = ground arith in
      let (more, inside, digits) = has_digits base pos n (value / base) less (ground arith) in
      (suc more, omega arith, (left, digits))
]

pub settle-HasDigits :
    (base more value i : ℕ) → HasDigits base more value → more < i → settle i base value ≡ i - more
settle-HasDigits base more value zero digits lt = absurd (omega arith)
settle-HasDigits base zero value (suc i) digits lt = ground arith
settle-HasDigits base (suc more) value (suc i) digits lt =
    let rest = settle-HasDigits base more (value / base) i digits.1 (omega arith) in
    let further : (value / base == 0) ≡ false = ground (arith, digits.0) in
    rw further (rest ∙ omega arith)

abbrev WrittenIs : ℕ → ℕ → ℕ → (ℕ → ℕ) → Option (ℕ → ℕ) → Type 0
WrittenIs base more value str r =
    (written : ℕ → ℕ) × (r ≡ some written)
    × (number base written (suc more) ≡ value)
    × ((j : ℕ) → more < j → written j ≡ str j)
    × ((j : ℕ) → j ≤ more → IsDigit base (written j))

write_digits-Is :
    (base : ℕ)
    → 2 ≤ base
    → base ≤ 16
    → (more value fuel : ℕ) (str : ℕ → ℕ) → more < fuel
    → more < 256
    → HasDigits base more value
    → WrittenIs base more value str (write_digits fuel more base value str)
write_digits-Is base low high more value zero str lt byte digits = absurd (omega arith)
write_digits-Is base low high zero value (suc fuel) str lt byte digits =
    let last : (value / base == 0) ≡ true = ground (arith, digits) in
    let written = update str 0 (digit (value % base)) in
    let pos : 0 < base = omega arith in
    let small = mod-lt value pos in
    let here : digit_value (written 0) ≡ value % base =
      digit_value-digit (value % base) (omega arith) in
    let whole : value % base ≡ value =
      omega (arith, ap (λ q. q * base + value % base) digits, div-add-mod' value base) in
    rw last (
      written,
      refl,
      omega (arith, here, whole),
      λ j above. ground arith,
      λ j under. (value % base, small, ground arith),
    )
write_digits-Is base low high (suc more) value (suc fuel) str lt byte digits =
    let further : (value / base == 0) ≡ false = ground (arith, digits.0) in
    let written = update str (suc more) (digit (value % base)) in
    let before : (suc more + 255) % 2 ^ 8 ≡ more = omega arith in
    let pos : 0 < base = omega arith in
    let small = mod-lt value pos in
    let (str', found, value', above, digit_each) =
      write_digits-Is base low high more (value / base) fuel written (omega arith) (omega arith)
        digits.1 in
    let last_digit : str' (suc more) ≡ digit (value % base) =
      above (suc more) (omega arith) ∙ ground arith in
    let here : digit_value (str' (suc more)) ≡ value % base =
      ap digit_value last_digit ∙ digit_value-digit (value % base) (omega arith) in
    let each : (j : ℕ) → j ≤ suc more → IsDigit base (str' j) = λ j under.
      elim (Bool-cases (j == suc more)) [
        | inl end ↦
            let at : j ≡ suc more = (==_iff j (suc more)).0 end in
            (value % base, small, ap str' at ∙ last_digit)
        | inr inner ↦ digit_each j (ground arith)
      ] in
    rw (further, before)
      (
        str',
        found,
        ap (λ n. n * base + digit_value (str' (suc more))) value'
            ∙ ap (λ d. value / base * base + d) here
            ∙ div-add-mod' value base,
        λ j over. above j (omega arith) ∙ ground arith,
        each,
      )

most_fine : all_below 17 (λ b. leb (most b) 64) ≡ true
most_fine = refl

pub most-le : (base : ℕ) → base ≤ 16 → most base ≤ 64
most-le base high =
    leb→le (most base) 64 (all_below-lt (λ b. leb (most b) 64) 17 base most_fine (omega arith))

least_fine : all_below 17 (λ b. ltb b 2 || leb 1 (most b)) ≡ true
least_fine = refl

le-most : (base : ℕ) → 2 ≤ base → base ≤ 16 → 1 ≤ most base
le-most base low high =
    let at = all_below-lt (λ b. ltb b 2 || leb 1 (most b)) 17 base least_fine (omega arith) in
    let large : ltb base 2 ≡ false = ground arith in leb→le 1 (most base) (rw large at at)

clear-at : (count : ℕ) (str : ℕ → ℕ) (i : ℕ) → i < count → clear count str i ≡ 0
clear-at count str i lt = ground arith

module _ (fuel value : ℕ) (str : ℕ → ℕ) (base : ℕ) (low : 2 ≤ base) (high : base ≤ 16) where
  utoa-zero :
      value ≡ 0 → utoa fuel value str base ≡ some (some (update (clear (most base + 1) str) 0 48))
  unfolding utoa
  utoa-zero zero_value =
      let in_range : (ltb base 2 || ltb 16 base) ≡ false = ground arith in
      let none_there : (value == 0) ≡ true = ground arith in rw (in_range, none_there) refl

  utoa-some :
      (start : ℕ) (written : ℕ → ℕ)
      → 0 < value
      → most base - settle (most base) base value ≡ start
      → write_digits fuel start base value (clear (most base + 1) str) ≡ some written
      → utoa fuel value str base ≡ some (some written)
  unfolding utoa
  utoa-some start written pos at found =
      let in_range : (ltb base 2 || ltb 16 base) ≡ false = ground arith in
      let some_there : (value == 0) ≡ false = ground arith in
      rw (in_range, some_there, at, found) refl

  -- `utoa` of any number of 64 bits in any base from 2 to 16 ends within 64 steps of its second
  -- loop and writes a text that is ended by a 0, has at least one digit and no more than its table
  -- allows, and is the number when it is read digit by digit.
  pub utoa-number :
      value < 2 ^ 64
      → 64 ≤ fuel
      → (written : ℕ → ℕ) × (n : ℕ) × (utoa fuel value str base ≡ some (some written))
        × (number base written n ≡ value)
        × ((j : ℕ) → j < n → IsDigit base (written j))
        × (written n ≡ 0)
        × (0 < n)
        × (n ≤ get_or base_max_digit_map base 0)
  utoa-number bound enough = elim (Bool-cases (value == 0)) [
    | inl none_there ↦
        let zero_value : value ≡ 0 = (==_iff value 0).0 none_there in
        let long = le-most base low high in
        let cleared = clear (most base + 1) str in
        let next : update cleared 0 48 1 ≡ 0 = clear-at (most base + 1) str 1 (omega arith) in
        let zero_digit : (j : ℕ) → j < 1 → IsDigit base (update cleared 0 48 j) =
          λ j lt. (0, omega arith, ground arith) in
        (
          update cleared 0 48,
          1,
          utoa-zero zero_value,
          omega arith,
          zero_digit,
          next,
          omega arith,
          long,
        )
    | inr some_there ↦
        let wide = power-most base low high in
        let short = most-le base high in
        let pos : 0 < value = ground arith in
        let base_pos : 0 < base = omega arith in
        let (more, inside, digits) = has_digits base base_pos (most base) value (omega arith) pos in
        let settled = settle-HasDigits base more value (most base) digits inside in
        let start : most base - settle (most base) base value ≡ more = omega arith in
        let cleared = clear (most base + 1) str in
        let (written, found, same, above, each) =
          write_digits-Is base low high more value fuel cleared (omega arith) (omega arith)
            digits in
        (
          written,
          suc more,
          utoa-some more written pos start found,
          same,
          λ j lt. each j (omega arith),
          above (suc more) (omega arith) ∙ clear-at (most base + 1) str (suc more) (omega arith),
          omega arith,
          omega arith,
        )
  ]
