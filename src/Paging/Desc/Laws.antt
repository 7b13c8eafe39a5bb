-- ===== src/Paging/Desc/Laws.antt =====
-- What the descriptor helpers of paging.h do to the address field and to the low twelve bits.
use fenestella.Prelude.{
  ℕ, ◌+◌, ◌-◌, ◌*◌, ◌/◌, ◌%◌, ◌^◌, ◌<◌, bit_and, bit_or, ◌≡◌, ap, ◌∙◌, true, arith,
}
use fenestella.Bits.{
  bit_or_digit, bit_or_split, bit_and_split, bit_or-zero_left, bit_or-lt, bit_or-zero,
}
use fenestella.Bits.{bit_and-zero, bit_and_ones}
use fenestella.Paging.Desc.{
  address_mask, flag_present, complement, desc_set_address, desc_get_address, desc_get_flag,
  desc_set_flag, desc_set_flags, indexer_assign,
}

cut_page : (a : ℕ) → a ≡ a / 4096 * 2 ^ 12 + a % 4096
cut_page a = omega arith

-- The address field is forty digits, at digit twelve.
pub and_address_mask : (a : ℕ) → bit_and a address_mask ≡ a / 4096 % 2 ^ 40 * 4096
and_address_mask a =
    ap (λ (t : ℕ). bit_and t address_mask) (cut_page a)
    ∙ bit_and_split 12 (a / 4096) (a % 4096) (2 ^ 40 - 1) 0 (omega arith) (omega arith)
    ∙ omega (arith, bit_and_ones 40 (a / 4096), bit_and-zero (a % 4096))

-- Flags go below the address field.
pub or_flags : (e f : ℕ) → f < 4096 → bit_or e f ≡ e / 4096 * 4096 + bit_or (e % 4096) f
or_flags e f h =
    let low : f ≡ 0 * 2 ^ 12 + f = omega arith in
    ap (λ (t : ℕ). bit_or t f) (cut_page e)
    ∙ ap (bit_or (e / 4096 * 2 ^ 12 + e % 4096)) low
    ∙ bit_or_split 12 (e / 4096) (e % 4096) 0 f (omega arith) h
    ∙ omega (arith, bit_or-zero (e / 4096))

or_low-lt : (e f : ℕ) → f < 4096 → bit_or (e % 4096) f < 4096
or_low-lt e f h = bit_or-lt 12 (e % 4096) f (omega arith) h

pub get_address-lt : (d : ℕ) → desc_get_address d < 2 ^ 52
unfolding desc_get_address
get_address-lt d = omega (arith, and_address_mask d)

-- Setting flags leaves the address alone.
pub get_address-or_flags : (e f : ℕ) → f < 4096 → desc_get_address (bit_or e f) ≡ desc_get_address e
unfolding desc_get_address
get_address-or_flags e f h =
    omega
      (arith, and_address_mask (bit_or e f), and_address_mask e, or_flags e f h, or_low-lt e f h)

is_odd : (d : ℕ) → bit_and d 1 ≡ d % 2
is_odd d = bit_and_ones 1 d

-- Adding flags never clears the present flag.
pub present-or : (e f : ℕ) → desc_get_flag e 1 ≡ true → desc_get_flag (bit_or e f) 1 ≡ true
unfolding desc_get_flag
present-or e f h = ground (arith, is_odd e, is_odd (bit_or e f), bit_or_digit e f)

-- Below a width, `|` with a number of that width reads only the digits of that width.
or_mod : (d a : ℕ) → a < 2 ^ 40 → bit_or d a % 2 ^ 40 ≡ bit_or (d % 2 ^ 40) a
or_mod d a h =
    let cut : d ≡ d / 2 ^ 40 * 2 ^ 40 + d % 2 ^ 40 = omega arith in
    let low : a ≡ 0 * 2 ^ 40 + a = omega arith in
    let joined : bit_or d a ≡ bit_or (d / 2 ^ 40) 0 * 2 ^ 40 + bit_or (d % 2 ^ 40) a =
      ap (λ (t : ℕ). bit_or t a) cut
      ∙ ap (bit_or (d / 2 ^ 40 * 2 ^ 40 + d % 2 ^ 40)) low
      ∙ bit_or_split 40 (d / 2 ^ 40) (d % 2 ^ 40) 0 a (omega arith) h in
    omega (arith, joined, bit_or-lt 40 (d % 2 ^ 40) a (omega arith) h)

-- `|` with a number that ends in twelve zeros.
or_pages : (d a : ℕ) → bit_or d (a * 4096) ≡ bit_or (d / 4096) a * 4096 + d % 4096
or_pages d a =
    let low : a * 4096 ≡ a * 2 ^ 12 + 0 = omega arith in
    ap (λ (t : ℕ). bit_or t (a * 4096)) (cut_page d)
    ∙ ap (bit_or (d / 4096 * 2 ^ 12 + d % 4096)) low
    ∙ bit_or_split 12 (d / 4096) (d % 4096) a 0 (omega arith) (omega arith)
    ∙ omega (arith, bit_or-zero (d % 4096))

or_pages_pages : (d a : ℕ) → bit_or (d * 4096) (a * 4096) ≡ bit_or d a * 4096
or_pages_pages d a =
    let lift : (t : ℕ) → t * 4096 ≡ t * 2 ^ 12 + 0 = λ t. omega arith in
    ap (λ (t : ℕ). bit_or t (a * 4096)) (lift d)
    ∙ ap (bit_or (d * 2 ^ 12 + 0)) (lift a)
    ∙ bit_or_split 12 d 0 a 0 (omega arith) (omega arith)
    ∙ omega (arith, bit_or-zero 0)

-- `paging_desc_set_address` adds the new address to the old one, digit by digit.
pub get_address-set_address :
    (d a : ℕ)
    → desc_get_address (desc_set_address d a) ≡ bit_or (desc_get_address d) (bit_and a address_mask)
unfolding desc_get_address desc_set_address
get_address-set_address d a =
    let field = a / 4096 % 2 ^ 40 in
    let new : bit_or d (bit_and a address_mask) ≡ bit_or (d / 4096) field * 4096 + d % 4096 =
      rw (and_address_mask a) (or_pages d field) in
    let old : bit_or (bit_and d address_mask) (bit_and a address_mask)
        ≡ bit_or (d / 4096 % 2 ^ 40) field * 4096 =
      rw (and_address_mask a, and_address_mask d) (or_pages_pages (d / 4096 % 2 ^ 40) field) in
    omega (
      arith,
      and_address_mask (bit_or d (bit_and a address_mask)),
      new,
      old,
      or_mod (d / 4096) field (omega arith),
    )

and_clear_present : (d : ℕ) → bit_and d (complement flag_present) ≡ d / 2 % 2 ^ 63 * 2
and_clear_present d =
    let cut : d ≡ d / 2 * 2 ^ 1 + d % 2 = omega arith in
    ap (λ (t : ℕ). bit_and t (complement flag_present)) cut
    ∙ bit_and_split 1 (d / 2) (d % 2) (2 ^ 63 - 1) 0 (omega arith) (omega arith)
    ∙ omega (arith, bit_and_ones 63 (d / 2), bit_and-zero (d % 2))

and_clear_flags : (d : ℕ) → bit_and d (complement 0x0fff) ≡ d / 4096 % 2 ^ 52 * 4096
and_clear_flags d =
    ap (λ (t : ℕ). bit_and t (complement 0x0fff)) (cut_page d)
    ∙ bit_and_split 12 (d / 4096) (d % 4096) (2 ^ 52 - 1) 0 (omega arith) (omega arith)
    ∙ omega (arith, bit_and_ones 52 (d / 4096), bit_and-zero (d % 4096))

pub get_address-set_present :
    (d : ℕ) → desc_get_address (desc_set_flag d flag_present true) ≡ desc_get_address d
unfolding desc_set_flag desc_get_address
get_address-set_present d = omega (
  arith,
  and_clear_present d,
  and_address_mask (bit_or (bit_and d (complement 1)) 1),
  and_address_mask d,
  or_flags (bit_and d (complement 1)) 1 (omega arith),
  or_low-lt (bit_and d (complement 1)) 1 (omega arith),
)

pub present-set_present : (d : ℕ) → desc_get_flag (desc_set_flag d flag_present true) 1 ≡ true
unfolding desc_set_flag desc_get_flag
present-set_present d =
    let e = bit_and d (complement 1) in ground (arith, is_odd (bit_or e 1), bit_or_digit e 1)

pub get_address-set_flags :
    (d f : ℕ) → f < 4096 → desc_get_address (desc_set_flags d f) ≡ desc_get_address d
unfolding desc_set_flags desc_get_address
get_address-set_flags d f h = omega (
  arith,
  and_clear_flags d,
  and_address_mask (bit_or (bit_and d (complement 0x0fff)) f),
  and_address_mask d,
  or_flags (bit_and d (complement 0x0fff)) f h,
  or_low-lt (bit_and d (complement 0x0fff)) f h,
)

pub set_flags-flags : (d f : ℕ) → f < 4096 → desc_set_flags d f % 4096 ≡ f
unfolding desc_set_flags
set_flags-flags d f h =
    let cleared = bit_and d (complement 0x0fff) in
    let none_left : cleared % 4096 ≡ 0 = omega (arith, and_clear_flags d) in
    let whole : bit_or (cleared % 4096) f ≡ f =
      ap (λ (t : ℕ). bit_or t f) none_left ∙ bit_or-zero_left f in
    omega (arith, or_flags cleared f h, whole)

-- The nine bits of each level are the digits of the page number to the base 512.
pub indexer_lem :
    (a : ℕ)
    → let i = indexer_assign a in
      (i.pml4 ≡ a / 2 ^ 39 % 512)
      × (i.pml3 ≡ a / 2 ^ 30 % 512)
      × (i.pml2 ≡ a / 2 ^ 21 % 512)
      × (i.pml1 ≡ a / 2 ^ 12 % 512)
unfolding indexer_assign
indexer_lem a = (
  omega (arith, bit_and_ones 9 (a / 2 ^ 12 / 2 ^ 9 / 2 ^ 9 / 2 ^ 9)),
  omega (arith, bit_and_ones 9 (a / 2 ^ 12 / 2 ^ 9 / 2 ^ 9)),
  omega (arith, bit_and_ones 9 (a / 2 ^ 12 / 2 ^ 9)),
  omega (arith, bit_and_ones 9 (a / 2 ^ 12)),
)
