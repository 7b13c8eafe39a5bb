-- ===== src/Examples/Text.antt =====
-- Concrete strings in memory.
use fenestella.Prelude.{
  ℕ, ◌<◌, ◌≤◌, ◌^◌, ◌-◌, get_or, ◌≡◌, ◌⊎◌, inr, refl, true, some, [], ◌∷◌, arith, ◌==◌, ◌||◌,
  if◌then◌else◌,
}
use fenestella.Strings.{strcat, strcmp}
use fenestella.Strings.Stored.{Stored}
use fenestella.Conv.{itoa, base_max_digit_map}
use fenestella.Conv.Signed.{Signed, itoa-Signed}
use fenestella.Strings.Copy.{strcat-Stored}
use fenestella.Strings.Compare.{Compares, strcmp-is_prefix}

-- The text `ab` at 16, and the text `a` at 32.
abbrev memory : ℕ → ℕ
memory a = if a == 16 || a == 32 then 97 else if a == 17 then 98 else 0

ab : Stored memory 16 (97 ∷ 98 ∷ [])
ab = (refl, omega arith, omega arith, (refl, omega arith, omega arith, refl))

a : Stored memory 32 (97 ∷ [])
a = (refl, omega arith, omega arith, refl)

strcat-Stored_example :
    (m' : ℕ → ℕ) × (strcat 3 32 16 memory ≡ some m')
    × Stored m' 32 (97 ∷ 97 ∷ 98 ∷ [])
    × Stored m' 16 (97 ∷ 98 ∷ [])
    × ((x : ℕ) → (x < 33) ⊎ (35 < x) → m' x ≡ memory x)
strcat-Stored_example =
    strcat-Stored 3 32 16 memory (97 ∷ []) (97 ∷ 98 ∷ []) a ab (inr (omega arith)) (omega arith)
      (omega arith)

strcmp-is_prefix_example : Compares true (strcmp 3 memory 32 16)
strcmp-is_prefix_example =
    strcmp-is_prefix 3 memory 32 16 (97 ∷ []) (97 ∷ 98 ∷ []) a ab (omega arith)

-- The number -255.
abbrev minus_255 : ℕ
minus_255 = 2 ^ 64 - 255

itoa-Signed_example :
    (written : ℕ → ℕ) × (n : ℕ) × (itoa 64 minus_255 memory 16 ≡ some (some written))
    × Signed 16 minus_255 memory written n
    × (0 < n)
    × (n ≤ get_or base_max_digit_map 16 0)
itoa-Signed_example =
    itoa-Signed 16 (omega arith) (omega arith) 64 minus_255 memory (omega arith) (omega arith)
      (omega arith)
