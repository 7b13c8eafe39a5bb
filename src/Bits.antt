-- ===== src/Bits.antt =====
-- `&` and `|` of C on native numbers: the law of the lowest binary digit, the split at any
-- digit, and masks and disjoint fields as arithmetic.
mod Digit
mod Fields
pub use Digit.{bit_and_digit, bit_or_digit}
pub use Fields.*
