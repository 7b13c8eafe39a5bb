-- ===== src/Strings/Prefix.antt =====
-- Comparing a number of bytes.
use fenestella.Prelude.{
  ℕ, zero, suc, ◌+◌, ◌<◌, ◌≡◌, refl, inl, inr, Bool, true, ◌&&◌, arith, ◌==◌, Bool-cases,
}
use fenestella.Strings.{strncmp, memcmp}
use fenestella.Strings.Compare.{difference-ne}

-- The `n` bytes at the two places are the same.
unfoldable pub same_bytes : (ℕ → ℕ) → ℕ → ℕ → ℕ → Bool
same_bytes m s1 s2 zero = true
same_bytes m s1 s2 (suc n) = m s1 == m s2 && same_bytes m (s1 + 1) (s2 + 1) n

abbrev pub Bytes : (ℕ → ℕ) → Type 0
Bytes m = (a : ℕ) → m a < 0x100

pub strncmp-same_bytes :
    (m : ℕ → ℕ) (s1 s2 n : ℕ) → Bytes m → (strncmp m s1 s2 n == 0) ≡ same_bytes m s1 s2 n
unfolding strncmp same_bytes
strncmp-same_bytes m s1 s2 zero h = refl
strncmp-same_bytes m s1 s2 (suc n) h = elim (Bool-cases (m s1 == m s2)) [
  | inl same ↦ rw same (strncmp-same_bytes m (s1 + 1) (s2 + 1) n h)
  | inr other ↦
      let ne = difference-ne (m s1) (m s2) (h s1) (h s2) (ground arith) in rw other (ground arith)
]

pub memcmp-strncmp : (m : ℕ → ℕ) (s1 s2 n : ℕ) → memcmp m s1 s2 n ≡ strncmp m s1 s2 n
unfolding memcmp strncmp
memcmp-strncmp m s1 s2 zero = refl
memcmp-strncmp m s1 s2 (suc n) = rw (memcmp-strncmp m (s1 + 1) (s2 + 1) n) refl
