-- ===== src/Strings.antt =====
-- kernel/src/extra/std: the functions on strings, on a memory of bytes. Each takes fuel for its
-- loops, which end at the 0 behind a string; `none` is a loop that goes on.
pub mod Stored
pub mod Copy
pub mod Compare
pub mod Prefix
use fenestella.Prelude.{
  ℕ, zero, suc, ◌+◌, ◌-◌, ◌%◌, ◌^◌, Bool, true, false, not, Option, none, some, ◌==◌, ltb,
  if◌then◌else◌, update,
}

-- The loop of `strlen`.
abbrev pub strlen_from : ℕ → (ℕ → ℕ) → ℕ → ℕ → Option ℕ
strlen_from zero m s len = none
strlen_from (suc fuel) m s len =
    let rest = strlen_from fuel m (s + 1) (len + 1) in if m s == 0 then some len else rest

unfoldable pub strlen : ℕ → (ℕ → ℕ) → ℕ → Option ℕ
strlen fuel m s = strlen_from fuel m s 0

-- `strcpy`, and the second loop of `strcat`: the memory after it.
abbrev pub strcpy : ℕ → ℕ → ℕ → (ℕ → ℕ) → Option (ℕ → ℕ)
strcpy zero dest src m = none
strcpy (suc fuel) dest src m =
    let rest = strcpy fuel (dest + 1) (src + 1) (update m dest (m src)) in
    if m src == 0 then some (update m dest 0) else rest

-- The first loop of `strcat`.
abbrev pub end_of : ℕ → (ℕ → ℕ) → ℕ → Option ℕ
end_of zero m dest = none
end_of (suc fuel) m dest =
    let rest = end_of fuel m (dest + 1) in if m dest == 0 then some dest else rest

unfoldable pub strcat : ℕ → ℕ → ℕ → (ℕ → ℕ) → Option (ℕ → ℕ)
strcat fuel dest src m = elim (end_of fuel m dest) [
  | none ↦ none
  | some at_end ↦ strcpy fuel at_end src m
]

-- A `signed char` as an `int` of 32 bits, and a difference of two.
abbrev pub sign_extend : ℕ → ℕ
sign_extend c = if ltb c 0x80 then c else c + 2 ^ 32 - 0x100

abbrev pub difference : ℕ → ℕ → ℕ
difference a b = (sign_extend a + 2 ^ 32 - sign_extend b) % 2 ^ 32

abbrev pub strcmp : ℕ → (ℕ → ℕ) → ℕ → ℕ → Option ℕ
strcmp zero m s1 s2 = none
strcmp (suc fuel) m s1 s2 =
    let rest = strcmp fuel m (s1 + 1) (s2 + 1) in
    if m s1 == 0
    then some 0
    else if not (m s1 == m s2)
    then some (difference (m s1) (m s2))
    else if m (s2 + 1) == 0
    then some (sign_extend (m (s1 + 1)))
    else rest

-- `strncmp`; `memcmp` is the same loop on bytes that are read as `char`.
unfoldable pub strncmp : (ℕ → ℕ) → ℕ → ℕ → ℕ → ℕ
strncmp m s1 s2 zero = 0
strncmp m s1 s2 (suc n) =
    if m s1 == m s2 then strncmp m (s1 + 1) (s2 + 1) n else difference (m s1) (m s2)

unfoldable pub memcmp : (ℕ → ℕ) → ℕ → ℕ → ℕ → ℕ
memcmp m s1 s2 zero = 0
memcmp m s1 s2 (suc n) =
    if m s1 == m s2 then memcmp m (s1 + 1) (s2 + 1) n else difference (m s1) (m s2)
