-- ===== src/Conv.antt =====
-- kernel/src/extra/itoa.c: numbers as text.
pub mod Number
pub mod Signed
use fenestella.Prelude.{
  ℕ, zero, suc, ◌+◌, ◌-◌, ◌*◌, ◌/◌, ◌%◌, ◌^◌, Bool, true, false, ◌||◌, Option, none, some, List, [],
  ◌∷◌, ◌==◌, ltb, leb, if◌then◌else◌, get_or, update,
}

-- The most digits that a number of 64 bits has in each base.
abbrev pub base_max_digit_map : List ℕ
base_max_digit_map =
    0 ∷ 0 ∷ 64 ∷ 41 ∷ 32 ∷ 28 ∷ 25 ∷ 23 ∷ 22 ∷ 21 ∷ 20 ∷ 19 ∷ 18 ∷ 18 ∷ 17 ∷ 17 ∷ 16 ∷ []

-- `"0123456789abcdef"[n]`
abbrev pub digit : ℕ → ℕ
digit n =
    get_or (48 ∷ 49 ∷ 50 ∷ 51 ∷ 52 ∷ 53 ∷ 54 ∷ 55 ∷ 56 ∷ 57 ∷ 97 ∷ 98 ∷ 99 ∷ 100 ∷ 101 ∷ 102 ∷ []) n
      0

-- `memset(str, 0, count)`
abbrev pub clear : ℕ → (ℕ → ℕ) → ℕ → ℕ
clear count str i = if ltb i count then 0 else str i

-- The first loop: what `i` comes to, from `i` on with `tmp`.
abbrev pub settle : ℕ → ℕ → ℕ → ℕ
settle zero base tmp = 0
settle (suc i) base tmp =
    let rest = settle i base (tmp / base) in if tmp / base == 0 then suc i else rest

-- The second loop. Its condition always holds, since `i` has no sign: behind 0 comes 255.
abbrev pub write_digits : ℕ → ℕ → ℕ → ℕ → (ℕ → ℕ) → Option (ℕ → ℕ)
write_digits zero i base tmp str = none
write_digits (suc fuel) i base tmp str =
    let written = update str i (digit (tmp % base)) in
    let rest = write_digits fuel ((i + 255) % 2 ^ 8) base (tmp / base) written in
    if tmp / base == 0 then some written else rest

-- `some none` is `NULL`.
unfoldable pub utoa : ℕ → ℕ → (ℕ → ℕ) → ℕ → Option (Option (ℕ → ℕ))
utoa fuel value str base =
    let most = get_or base_max_digit_map base 0 in
    let cleared = clear (most + 1) str in
    let start = most - settle most base value in
    if ltb base 2 || ltb 16 base
    then some none
    else if value == 0
    then some (some (update cleared 0 48))
    else elim (write_digits fuel start base value cleared) [
      | none ↦ none
      | some written ↦ some (some written)
    ]

-- An `int64_t` below 0, and what `-value` makes of it. For the least one the negation overflows,
-- which C leaves undefined.
abbrev pub is_negative : ℕ → Bool
is_negative value = leb (2 ^ 63) value

abbrev pub negate : ℕ → ℕ
negate value = 2 ^ 64 - value

-- The second loop where there is a sign, which ends behind the place of the sign.
unfoldable pub write_signed : ℕ → ℕ → ℕ → (ℕ → ℕ) → ℕ → ℕ
write_signed zero base tmp str = str
write_signed (suc i) base tmp str =
    let written = update str (suc i) (digit (tmp % base)) in
    let rest = write_signed i base (tmp / base) written in if tmp / base == 0 then written else rest

unfoldable pub itoa : ℕ → ℕ → (ℕ → ℕ) → ℕ → Option (Option (ℕ → ℕ))
unfolding write_signed
itoa fuel value str base =
    let most = get_or base_max_digit_map base 0 in
    let cleared = clear (most + 1) str in
    let start = most + 1 - settle most base (negate value) in
    let start' = most - settle most base value in
    if ltb base 2 || ltb 16 base
    then some none
    else if value == 0
    then some (some (update cleared 0 48))
    else if is_negative value
    then some (some (update (write_signed start base (negate value) cleared) 0 45))
    else elim (write_digits fuel start' base value cleared) [
      | none ↦ none
      | some written ↦ some (some written)
    ]
