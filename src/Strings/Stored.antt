-- ===== src/Strings/Stored.antt =====
-- Strings in memory.
use fenestella.Prelude.{
  ℕ, zero, suc, ◌+◌, ◌≤◌, ◌<◌, ◌≡◌, ap, ◌∙◌, true, false, some, List, [], ◌∷◌, arith, ◌==◌, length,
}
use fenestella.Strings.{strlen_from, strlen, end_of}

-- From address `s` on the memory holds the text and a 0; no character of a text is 0.
abbrev pub Stored : (ℕ → ℕ) → ℕ → List ℕ → Type 0
Stored m s [] = m s ≡ 0
Stored m s (c ∷ cs) = (m s ≡ c) × (0 < c) × (c < 0x100) × Stored m (s + 1) cs

pub Stored-frame :
    (m n : ℕ → ℕ) (s : ℕ) (t : List ℕ)
    → ((a : ℕ) → s ≤ a → a ≤ s + length t → n a ≡ m a)
    → Stored m s t
    → Stored n s t
Stored-frame m n s [] same h = same s (omega arith) (omega arith) ∙ h
Stored-frame m n s (c ∷ cs) same h = (
  same s (omega arith) (omega arith) ∙ h.0,
  h.1,
  h.2,
  Stored-frame m n (s + 1) cs (λ a lo hi. same a (omega arith) (omega arith)) h.3,
)

strlen_from-Stored :
    (fuel : ℕ) (m : ℕ → ℕ) (s len : ℕ) (t : List ℕ)
    → Stored m s t
    → length t < fuel
    → strlen_from fuel m s len ≡ some (len + length t)
strlen_from-Stored zero m s len t h lt = absurd (omega arith)
strlen_from-Stored (suc fuel) m s len [] h lt =
    let here : (m s == 0) ≡ true = ground arith in rw here (ap some (omega arith))
strlen_from-Stored (suc fuel) m s len (c ∷ cs) h lt =
    let further : (m s == 0) ≡ false = ground (arith, h.0, h.1) in
    let rest = strlen_from-Stored fuel m (s + 1) (len + 1) cs h.3 (omega arith) in
    rw further (rest ∙ ap some (omega arith))

-- `strlen` of a string in memory is the length of its text, with one step more than that.
pub strlen-length :
    (fuel : ℕ) (m : ℕ → ℕ) (s : ℕ) (t : List ℕ)
    → Stored m s t
    → length t < fuel
    → strlen fuel m s ≡ some (length t)
unfolding strlen
strlen-length fuel m s t h lt = strlen_from-Stored fuel m s 0 t h lt ∙ ap some (omega arith)

pub end_of-Stored :
    (fuel : ℕ) (m : ℕ → ℕ) (s : ℕ) (t : List ℕ)
    → Stored m s t
    → length t < fuel
    → end_of fuel m s ≡ some (s + length t)
end_of-Stored zero m s t h lt = absurd (omega arith)
end_of-Stored (suc fuel) m s [] h lt =
    let here : (m s == 0) ≡ true = ground arith in rw here (ap some (omega arith))
end_of-Stored (suc fuel) m s (c ∷ cs) h lt =
    let further : (m s == 0) ≡ false = ground (arith, h.0, h.1) in
    let rest = end_of-Stored fuel m (s + 1) cs h.3 (omega arith) in
    rw further (rest ∙ ap some (omega arith))
