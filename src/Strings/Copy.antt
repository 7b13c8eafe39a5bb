-- ===== src/Strings/Copy.antt =====
-- Copying and joining strings.
use fenestella.Prelude.{
  ℕ, zero, suc, ◌+◌, ◌≤◌, ◌<◌, ◌≡◌, ◌⊎◌, inl, inr, refl, subst, ◌∙◌, true, false, Option, some,
  List, [], ◌∷◌, ◌++◌, arith, ◌==◌, length, update,
}
use fenestella.Strings.{strcpy, end_of, strcat}
use fenestella.Strings.Stored.{Stored, Stored-frame, end_of-Stored}

-- The ranges of `n + 1` bytes from `a` and of `k + 1` bytes from `b` have no byte in common.
abbrev pub Apart : ℕ → ℕ → ℕ → ℕ → Type 0
Apart a n b k = (a + n < b) ⊎ (b + k < a)

abbrev CopiedIs : ℕ → List ℕ → (ℕ → ℕ) → Option (ℕ → ℕ) → Type 0
CopiedIs dest t m r =
    (m' : ℕ → ℕ) × (r ≡ some m')
    × Stored m' dest t
    × ((a : ℕ) → (a < dest) ⊎ (dest + length t < a) → m' a ≡ m a)

strcpy-Is :
    (fuel dest src : ℕ) (m : ℕ → ℕ) (t : List ℕ)
    → Stored m src t
    → Apart dest (length t) src (length t)
    → length t < fuel
    → CopiedIs dest t m (strcpy fuel dest src m)
strcpy-Is zero dest src m t h apart lt = absurd (omega arith)
strcpy-Is (suc fuel) dest src m [] h apart lt =
    let here : (m src == 0) ≡ true = ground arith in
    rw here (update m dest 0, refl, ground arith, λ a out. ground arith)
strcpy-Is (suc fuel) dest src m (c ∷ cs) h apart lt =
    let further : (m src == 0) ≡ false = ground (arith, h.0, h.1) in
    let m1 = update m dest (m src) in
    let kept : Stored m1 (src + 1) cs =
      Stored-frame m m1 (src + 1) cs (λ a lo hi. ground arith) h.3 in
    let less : Apart (dest + 1) (length cs) (src + 1) (length cs) = elim apart [
      | inl before ↦ inl (omega arith)
      | inr behind ↦ inr (omega arith)
    ] in
    let (m', found, stored, others) =
      strcpy-Is fuel (dest + 1) (src + 1) m1 cs kept less (omega arith) in
    rw further (
      m',
      found,
      (others dest (inl (omega arith)) ∙ ground arith ∙ h.0, h.1, h.2, stored),
      λ a out. others a (ground arith) ∙ ground arith,
    )

side : (d n s a : ℕ) → Apart d n s n → s ≤ a → a ≤ s + n → (a < d) ⊎ (d + n < a)
side d n s a (inl before) lo hi = inr (omega arith)
side d n s a (inr behind) lo hi = inl (omega arith)

-- `strcpy` of a string to a range that has no byte in common with it: the text stands at both
-- places, and no byte outside the destination has changed.
pub strcpy-Stored :
    (fuel dest src : ℕ) (m : ℕ → ℕ) (t : List ℕ)
    → Stored m src t
    → Apart dest (length t) src (length t)
    → length t < fuel
    → (m' : ℕ → ℕ) × (strcpy fuel dest src m ≡ some m')
      × Stored m' dest t
      × Stored m' src t
      × ((a : ℕ) → (a < dest) ⊎ (dest + length t < a) → m' a ≡ m a)
strcpy-Stored fuel dest src m t h apart lt =
    let (m', found, stored, others) = strcpy-Is fuel dest src m t h apart lt in
    let source =
      Stored-frame m m' src t (λ a lo hi. others a (side dest (length t) src a apart lo hi)) h in
    (m', found, stored, source, others)

Stored-join :
    (m : ℕ → ℕ) (s : ℕ) (u t : List ℕ) (before : ℕ → ℕ)
    → Stored before s u
    → ((a : ℕ) → a < s + length u → m a ≡ before a)
    → Stored m (s + length u) t
    → Stored m s (u ++ t)
Stored-join m s [] t before h same behind = subst (λ a. Stored m a t) (omega arith) behind
Stored-join m s (c ∷ cs) t before h same behind = (
  same s (omega arith) ∙ h.0,
  h.1,
  h.2,
  Stored-join m (s + 1) cs t before h.3 (λ a lt. same a (omega arith))
      (subst (λ a. Stored m a t) (omega arith) behind),
)

strcat-steps :
    (fuel dest src : ℕ) (m : ℕ → ℕ) (at_end : ℕ)
    → end_of fuel m dest ≡ some at_end
    → strcat fuel dest src m ≡ strcpy fuel at_end src m
unfolding strcat
strcat-steps fuel dest src m at_end e = rw (e, strcat) refl

-- `strcat` of two strings, where the second has no byte in common with the range in which it is
-- copied: the texts stand one behind the other at the destination, the second stays where it was,
-- and no byte outside the copied range has changed.
pub strcat-Stored :
    (fuel dest src : ℕ) (m : ℕ → ℕ) (u t : List ℕ)
    → Stored m dest u
    → Stored m src t
    → Apart (dest + length u) (length t) src (length t)
    → length u < fuel
    → length t < fuel
    → (m' : ℕ → ℕ) × (strcat fuel dest src m ≡ some m')
      × Stored m' dest (u ++ t)
      × Stored m' src t
      × ((a : ℕ) → (a < dest + length u) ⊎ (dest + length u + length t < a) → m' a ≡ m a)
strcat-Stored fuel dest src m u t first second apart lu lt =
    let (m', found, stored, source, others) =
      strcpy-Stored fuel (dest + length u) src m t second apart lt in
    (
      m',
      strcat-steps fuel dest src m (dest + length u) (end_of-Stored fuel m dest u first lu) ∙ found,
      Stored-join m' dest u t m first (λ a less. others a (inl less)) stored,
      source,
      others,
    )
