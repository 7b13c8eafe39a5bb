-- ===== src/Bits/Fields.antt =====
-- Words cut in two at digit `k`: the high and the low part are combined apart from one another.
use native.Mathlib.Nat.{pow-suc, one-le-pow}
use fenestella.Prelude.{
  ℕ, zero, suc, ◌+◌, ◌-◌, ◌*◌, ◌/◌, ◌%◌, ◌^◌, ◌≤◌, ◌<◌, bit_and, bit_or, ◌≡◌, refl, ap, ◌∙◌, arith,
}
use fenestella.Bits.Digit.{bit_and_digit, bit_or_digit}

-- Below a bound on both operands there is nothing to induct on but the bound.
and_zero_below : (n a : ℕ) → a ≤ n → bit_and a 0 ≡ 0
and_zero_below n zero h = refl
and_zero_below zero (suc a) h = absurd (omega arith)
and_zero_below (suc n) (suc a) h =
    omega (arith, bit_and_digit (suc a) 0, and_zero_below n (suc a / 2) (omega arith))

or_zero_below : (n a : ℕ) → a ≤ n → bit_or a 0 ≡ a
or_zero_below n zero h = refl
or_zero_below zero (suc a) h = absurd (omega arith)
or_zero_below (suc n) (suc a) h =
    omega (arith, bit_or_digit (suc a) 0, or_zero_below n (suc a / 2) (omega arith))

pub bit_and-zero : (a : ℕ) → bit_and a 0 ≡ 0
bit_and-zero a = and_zero_below a a (omega arith)

pub bit_or-zero : (a : ℕ) → bit_or a 0 ≡ a
bit_or-zero a = or_zero_below a a (omega arith)

double_shift : (q k : ℕ) → q * 2 ^ suc k ≡ 2 * (q * 2 ^ k)
double_shift q k = omega (arith, ap (λ (t : ℕ). q * t) (pow-suc 2 k))

pub bit_or_split :
    (k q r p s : ℕ)
    → r < 2 ^ k
    → s < 2 ^ k
    → bit_or (q * 2 ^ k + r) (p * 2 ^ k + s) ≡ bit_or q p * 2 ^ k + bit_or r s
bit_or_split zero q r p s hr hs =
    let er : r ≡ 0 = omega arith in
    let es : s ≡ 0 = omega arith in
    let eq : q * 2 ^ 0 + 0 ≡ q = omega arith in
    let ep : p * 2 ^ 0 + 0 ≡ p = omega arith in rw (er, es, eq, ep) (omega arith)
bit_or_split (suc k) q r p s hr hs =
    let eq : (q * 2 ^ suc k + r) / 2 ≡ q * 2 ^ k + r / 2 = omega (arith, double_shift q k) in
    let ep : (p * 2 ^ suc k + s) / 2 ≡ p * 2 ^ k + s / 2 = omega (arith, double_shift p k) in
    let halves : bit_or ((q * 2 ^ suc k + r) / 2) ((p * 2 ^ suc k + s) / 2)
        ≡ bit_or q p * 2 ^ k + bit_or (r / 2) (s / 2) =
      rw (eq, ep)
        (bit_or_split k q (r / 2) p (s / 2) (omega (arith, pow-suc 2 k))
          (omega (arith, pow-suc 2 k))) in
    omega (
      arith,
      bit_or_digit (q * 2 ^ suc k + r) (p * 2 ^ suc k + s),
      bit_or_digit r s,
      double_shift q k,
      double_shift p k,
      double_shift (bit_or q p) k,
      pow-suc 2 k,
      halves,
    )

pub bit_and_split :
    (k q r p s : ℕ)
    → r < 2 ^ k
    → s < 2 ^ k
    → bit_and (q * 2 ^ k + r) (p * 2 ^ k + s) ≡ bit_and q p * 2 ^ k + bit_and r s
bit_and_split zero q r p s hr hs =
    let er : r ≡ 0 = omega arith in
    let es : s ≡ 0 = omega arith in
    let eq : q * 2 ^ 0 + 0 ≡ q = omega arith in
    let ep : p * 2 ^ 0 + 0 ≡ p = omega arith in rw (er, es, eq, ep) (omega arith)
bit_and_split (suc k) q r p s hr hs =
    let eq : (q * 2 ^ suc k + r) / 2 ≡ q * 2 ^ k + r / 2 = omega (arith, double_shift q k) in
    let ep : (p * 2 ^ suc k + s) / 2 ≡ p * 2 ^ k + s / 2 = omega (arith, double_shift p k) in
    let halves : bit_and ((q * 2 ^ suc k + r) / 2) ((p * 2 ^ suc k + s) / 2)
        ≡ bit_and q p * 2 ^ k + bit_and (r / 2) (s / 2) =
      rw (eq, ep)
        (bit_and_split k q (r / 2) p (s / 2) (omega (arith, pow-suc 2 k))
          (omega (arith, pow-suc 2 k))) in
    omega (
      arith,
      bit_and_digit (q * 2 ^ suc k + r) (p * 2 ^ suc k + s),
      bit_and_digit r s,
      double_shift q k,
      double_shift p k,
      double_shift (bit_and q p) k,
      pow-suc 2 k,
      halves,
    )

-- Neither operation leaves the width of its operands.
pub bit_or-lt : (k r s : ℕ) → r < 2 ^ k → s < 2 ^ k → bit_or r s < 2 ^ k
bit_or-lt zero r s hr hs =
    let er : r ≡ 0 = omega arith in let es : s ≡ 0 = omega arith in rw (er, es) (omega arith)
bit_or-lt (suc k) r s hr hs = omega (
  arith,
  bit_or_digit r s,
  pow-suc 2 k,
  bit_or-lt k (r / 2) (s / 2) (omega (arith, pow-suc 2 k)) (omega (arith, pow-suc 2 k)),
)

ones_keep : (k r : ℕ) → r < 2 ^ k → bit_and r (2 ^ k - 1) ≡ r
ones_keep zero r h = rw bit_and-zero (omega arith)
ones_keep (suc k) r h =
    let half : (2 ^ suc k - 1) / 2 ≡ 2 ^ k - 1 = omega (arith, pow-suc 2 k, one-le-pow k 2) in
    let rest : bit_and (r / 2) ((2 ^ suc k - 1) / 2) ≡ r / 2 =
      rw half (ones_keep k (r / 2) (omega (arith, pow-suc 2 k))) in
    omega (arith, bit_and_digit r (2 ^ suc k - 1), pow-suc 2 k, one-le-pow k 2, rest)

-- `k` ones below are the remainder by `2 ^ k`.
pub bit_and_ones : (k a : ℕ) → bit_and a (2 ^ k - 1) ≡ a % 2 ^ k
bit_and_ones k a =
    let small : a % 2 ^ k < 2 ^ k = grind (arith, one-le-pow k 2) in
    let cut : a ≡ a / 2 ^ k * 2 ^ k + a % 2 ^ k = grind arith in
    let low : 2 ^ k - 1 ≡ 0 * 2 ^ k + (2 ^ k - 1) = omega arith in
    ap (λ (t : ℕ). bit_and t (2 ^ k - 1)) cut
    ∙ ap (bit_and (a / 2 ^ k * 2 ^ k + a % 2 ^ k)) low
    ∙ omega (
      arith,
      bit_and_split k (a / 2 ^ k) (a % 2 ^ k) 0 (2 ^ k - 1) small (omega (arith, one-le-pow k 2)),
      bit_and-zero (a / 2 ^ k),
      ones_keep k (a % 2 ^ k) small,
      ap (λ (t : ℕ). t * 2 ^ k) (bit_and-zero (a / 2 ^ k)),
    )

absorb_below : (k a b : ℕ) → b ≤ k → bit_and (bit_or a b) b ≡ b
absorb_below k a zero h = bit_and-zero (bit_or a 0)
absorb_below zero a (suc b) h = absurd (omega arith)
absorb_below (suc k) a (suc b) h =
    let rest = absorb_below k (a / 2) (suc b / 2) (omega arith) in
    let half : bit_or a (suc b) / 2 ≡ bit_or (a / 2) (suc b / 2) =
      omega (arith, bit_or_digit a (suc b)) in
    let again : bit_and (bit_or a (suc b) / 2) (suc b / 2) ≡ suc b / 2 =
      ap (λ (t : ℕ). bit_and t (suc b / 2)) half ∙ rest in
    omega (arith, bit_or_digit a (suc b), bit_and_digit (bit_or a (suc b)) (suc b), again)

zero_or_below : (n b : ℕ) → b ≤ n → bit_or 0 b ≡ b
zero_or_below n zero h = refl
zero_or_below zero (suc b) h = absurd (omega arith)
zero_or_below (suc n) (suc b) h =
    omega (arith, bit_or_digit 0 (suc b), zero_or_below n (suc b / 2) (omega arith))

pub bit_or-zero_left : (b : ℕ) → bit_or 0 b ≡ b
bit_or-zero_left b = zero_or_below b b (omega arith)

-- What was set is there.
pub bit_and-bit_or : (a b : ℕ) → bit_and (bit_or a b) b ≡ b
bit_and-bit_or a b = absorb_below b a b (omega arith)
