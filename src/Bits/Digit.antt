-- ===== src/Bits/Digit.antt =====
-- One binary digit of `bit_and` and `bit_or`. The native operations stand for `digits`, a
-- recursion that is given the first operand as fuel; here the fuel is dropped.
use Prim.Native.Nat.{min, max, digits, bit_and-bitwise, bit_or-bitwise}
use fenestella.Prelude.{ℕ, zero, suc, ◌+◌, ◌*◌, ◌/◌, ◌%◌, ◌≤◌, bit_and, bit_or, ◌≡◌, refl, arith}

module _ (rest : ℕ → ℕ) (digit : ℕ → ℕ → ℕ) where
  -- Any fuel that reaches the operand gives the same digits.
  digits-enough : (m n a b : ℕ) → a ≤ m → a ≤ n → digits rest digit m a b ≡ digits rest digit n a b
  digits-enough m n zero b p q = zero_case m n b
    where
      zero_case : (m n b : ℕ) → digits rest digit m 0 b ≡ digits rest digit n 0 b
      zero_case zero zero b = refl
      zero_case zero (suc n) b = refl
      zero_case (suc m) zero b = refl
      zero_case (suc m) (suc n) b = refl
  digits-enough zero n (suc a) b p q = absurd (omega arith)
  digits-enough (suc m) zero (suc a) b p q = absurd (omega arith)
  digits-enough (suc m) (suc n) (suc a) b p q =
      omega (arith, digits-enough m n (suc a / 2) (b / 2) (omega arith) (omega arith))

pub bit_and_digit : (a b : ℕ) → bit_and a b ≡ bit_and (a / 2) (b / 2) * 2 + min (a % 2) (b % 2)
bit_and_digit zero b = omega (arith, bit_and-bitwise 0 b, bit_and-bitwise 0 (b / 2))
bit_and_digit (suc a) b = omega (
  arith,
  bit_and-bitwise (suc a) b,
  bit_and-bitwise (suc a / 2) (b / 2),
  digits-enough (λ b. 0) min a (suc a / 2) (suc a / 2) (b / 2) (omega arith) (omega arith),
)

pub bit_or_digit : (a b : ℕ) → bit_or a b ≡ bit_or (a / 2) (b / 2) * 2 + max (a % 2) (b % 2)
bit_or_digit zero b = omega (arith, bit_or-bitwise 0 b, bit_or-bitwise 0 (b / 2))
bit_or_digit (suc a) b = omega (
  arith,
  bit_or-bitwise (suc a) b,
  bit_or-bitwise (suc a / 2) (b / 2),
  digits-enough (λ b. b) max a (suc a / 2) (suc a / 2) (b / 2) (omega arith) (omega arith),
)
