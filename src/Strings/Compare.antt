-- ===== src/Strings/Compare.antt =====
-- Comparing strings.
use fenestella.Prelude.{
  ℕ, zero, suc, ◌+◌, ◌<◌, ◌≡◌, ◌≢◌, refl, ap, inl, inr, Bool, true, false, Option, some, List, [],
  ◌∷◌, arith, ◌==◌, if◌then◌else◌, length, Bool-cases,
}
use fenestella.Strings.{strcmp, sign_extend, difference}
use fenestella.Strings.Stored.{Stored}

-- The first text is the beginning of the second.
abbrev pub is_prefix : List ℕ → List ℕ → Bool
is_prefix [] u = true
is_prefix (c ∷ cs) [] = false
is_prefix (c ∷ cs) (d ∷ ds) = if c == d then is_prefix cs ds else false

pub difference-ne : (a b : ℕ) → a < 0x100 → b < 0x100 → a ≢ b → difference a b ≢ 0
difference-ne a b la lb ne = ground arith

sign_extend-ne : (a : ℕ) → 0 < a → a < 0x100 → sign_extend a ≢ 0
sign_extend-ne a pos lt = ground arith

-- The result is 0 just where the test holds.
abbrev pub Compares : Bool → Option ℕ → Type 0
Compares b r = (n : ℕ) × (r ≡ some n) × ((n == 0) ≡ b)

not_zero : {n : ℕ} → n ≢ 0 → (n == 0) ≡ false
not_zero ne = ground arith

second_ends :
    (m : ℕ → ℕ) (s1 s2 : ℕ) (t u : List ℕ) (r : Option ℕ)
    → Stored m s1 t
    → Stored m s2 u
    → Compares (is_prefix t u) r
    → Compares (is_prefix t u) (if m s2 == 0 then some (sign_extend (m s1)) else r)
second_ends m s1 s2 [] [] r h1 h2 c =
    let here : (m s2 == 0) ≡ true = ground arith in
    rw here (sign_extend (m s1), refl, ap (λ a. sign_extend a == 0) h1)
second_ends m s1 s2 (x ∷ xs) [] r h1 h2 c =
    let here : (m s2 == 0) ≡ true = ground arith in
    rw here (
      sign_extend (m s1),
      refl,
      not_zero (sign_extend-ne (m s1) (omega (arith, h1.0, h1.1)) (omega (arith, h1.0, h1.2))),
    )
second_ends m s1 s2 t (y ∷ ys) r h1 h2 c =
    let further : (m s2 == 0) ≡ false = ground (arith, h2.0, h2.1) in rw further c

-- `strcmp` of two strings in memory ends, and its result is 0 just where the first text is the
-- beginning of the second, whether or not the second goes on.
pub strcmp-is_prefix :
    (fuel : ℕ) (m : ℕ → ℕ) (s1 s2 : ℕ) (t u : List ℕ)
    → Stored m s1 t
    → Stored m s2 u
    → length t < fuel
    → Compares (is_prefix t u) (strcmp fuel m s1 s2)
strcmp-is_prefix zero m s1 s2 t u h1 h2 lt = absurd (omega arith)
strcmp-is_prefix (suc fuel) m s1 s2 [] u h1 h2 lt =
    let here : (m s1 == 0) ≡ true = ground arith in rw here (0, refl, refl)
strcmp-is_prefix (suc fuel) m s1 s2 (c ∷ cs) [] h1 h2 lt =
    let further : (m s1 == 0) ≡ false = ground (arith, h1.0, h1.1) in
    let other : (m s1 == m s2) ≡ false = ground (arith, h1.0, h1.1) in
    rw (further, other)
      (
        difference (m s1) (m s2),
        refl,
        not_zero (
            difference-ne (m s1) (m s2) (omega (arith, h1.0, h1.2)) (omega arith)
              (omega (arith, h1.0, h1.1))),
      )
strcmp-is_prefix (suc fuel) m s1 s2 (c ∷ cs) (d ∷ ds) h1 h2 lt =
    let further : (m s1 == 0) ≡ false = ground (arith, h1.0, h1.1) in
    elim (Bool-cases (c == d)) [
      | inr other ↦
          let differ : (m s1 == m s2) ≡ false = ground (arith, h1.0, h2.0) in
          rw (further, differ, other)
            (
              difference (m s1) (m s2),
              refl,
              not_zero (
                  difference-ne (m s1) (m s2) (omega (arith, h1.0, h1.2))
                    (omega (arith, h2.0, h2.2)) (ground (arith, h1.0, h2.0))),
            )
      | inl same ↦
          let equal : (m s1 == m s2) ≡ true = ground (arith, h1.0, h2.0) in
          rw (further, equal, same)
            (second_ends m (s1 + 1) (s2 + 1) cs ds (strcmp fuel m (s1 + 1) (s2 + 1)) h1.3 h2.3
              (strcmp-is_prefix fuel m (s1 + 1) (s2 + 1) cs ds h1.3 h2.3 (omega arith)))
    ]
