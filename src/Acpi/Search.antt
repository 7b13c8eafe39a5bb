-- ===== src/Acpi/Search.antt =====
-- The table that is found is the one with the signature that has so many of them before it.
use fenestella.Prelude.{
  ℕ, zero, suc, ◌+◌, ◌-◌, ◌%◌, ◌^◌, ◌<◌, ◌≤◌, ◌≡◌, ◌≢◌, refl, ap, ◌∙◌, inl, inr, Bool, true, false,
  some, List, [], ◌∷◌, arith, ◌==◌, if◌then◌else◌, Bool-cases, length, leb,
}
use fenestella.Strings.{strncmp, strlen}
use fenestella.Strings.Stored.{Stored, strlen-length}
use fenestella.Strings.Prefix.{same_bytes, Bytes, strncmp-same_bytes}
use fenestella.Acpi.{
  search, get_table, rsdt_get, xsdt_get, rsdt_of, xsdt_of, entries_of, is_nullvptr, virtual_offset,
  u64,
}

-- The entry of the list that passes the test behind `k` others that do, or 0.
abbrev pub pick : (ℕ → Bool) → ℕ → List ℕ → ℕ
pick p k [] = 0
pick p k (t ∷ ts) = if p t then if k == 0 then t else pick p (k - 1) ts else pick p k ts

-- `n` entries from number `i` on.
abbrev pub entries_from : (ℕ → ℕ) → ℕ → ℕ → List ℕ
entries_from get zero i = []
entries_from get (suc n) i = get i ∷ entries_from get n (i + 1)

abbrev pub bears : (ℕ → ℕ) → ℕ → ℕ → Bool
bears m signature header = strncmp m header signature 4 == 0

module _ (m : ℕ → ℕ) (get : ℕ → ℕ) (signature index : ℕ) (small : index < 2 ^ 16) where
  search-pick :
      (fuel n i occurrence : ℕ)
      → n < fuel
      → i + n < 2 ^ 16
      → occurrence ≤ index
      → ((j : ℕ) → j < i + n → get j ≢ 0)
      → get (i + n) ≡ 0
      → search m get signature index fuel i occurrence
        ≡ some (pick (bears m signature) (index - occurrence) (entries_from get n i))
  unfolding search
  search-pick zero n i occ enough few le full end = absurd (omega arith)
  search-pick (suc fuel) zero i occ enough few le full end =
      let e : get i ≡ 0 = ap get (omega arith) ∙ end in rw e refl
  search-pick (suc fuel) (suc n) i occ enough few le full end =
      let nz : (get i == 0) ≡ false = ground (arith, full i (omega arith)) in
      let next : (i + 1) % 2 ^ 16 ≡ i + 1 = omega arith in
      let rest : (o : ℕ)
          → o ≤ index
          → search m get signature index fuel (i + 1) o
            ≡ some (pick (bears m signature) (index - o) (entries_from get n (i + 1))) =
        λ o h.
          search-pick fuel n (i + 1) o (omega arith) (omega arith) h
            (λ j below. full j (omega arith)) (ap get (omega arith) ∙ end) in
      elim (Bool-cases (bears m signature (get i))) [
        | inr other ↦ rw (nz, other, next) (rest occ le)
        | inl same ↦ elim (Bool-cases (occ == index)) [
          | inl last ↦
              let none_left : (index - occ == 0) ≡ true = ground arith in
              rw (nz, same, last, none_left) refl
          | inr more ↦
              let some_left : (index - occ == 0) ≡ false = ground arith in
              let count : (occ + 1) % 2 ^ 16 ≡ occ + 1 = ground arith in
              let one_less : index - occ - 1 ≡ index - (occ + 1) = omega arith in
              rw (nz, same, more, some_left, next, count, one_less) (rest (occ + 1) (ground arith))
        ]
      ]

pick-eq : (p q : ℕ → Bool) (k : ℕ) (ts : List ℕ) → ((t : ℕ) → p t ≡ q t) → pick p k ts ≡ pick q k ts
pick-eq p q k [] h = refl
pick-eq p q k (t ∷ ts) h = rw (h t, pick-eq p q k ts h, pick-eq p q (k - 1) ts h) refl

leb_self : (n : ℕ) → leb n n ≡ true
leb_self n = ground arith

module _ (m : ℕ → ℕ) (rsdp : ℕ) where
  -- The root table that is searched: the one of 64 bits where there is one.
  abbrev pub root_get : ℕ → ℕ
  root_get = if xsdt_of m rsdp == 0 then rsdt_get m rsdp else xsdt_get m rsdp

  abbrev pub root_entries : ℕ
  root_entries =
      entries_of m
        (u64 ((if xsdt_of m rsdp == 0 then rsdt_of m rsdp else xsdt_of m rsdp) + virtual_offset))

  rsdt_get-end : rsdt_get m rsdp (entries_of m (u64 (rsdt_of m rsdp + virtual_offset))) ≡ 0
  unfolding rsdt_get
  rsdt_get-end = rw (leb_self (entries_of m (u64 (rsdt_of m rsdp + virtual_offset)))) refl

  xsdt_get-end : xsdt_get m rsdp (entries_of m (u64 (xsdt_of m rsdp + virtual_offset))) ≡ 0
  unfolding xsdt_get
  xsdt_get-end = rw (leb_self (entries_of m (u64 (xsdt_of m rsdp + virtual_offset)))) refl

  root_get-end : root_get root_entries ≡ 0
  root_get-end = elim (Bool-cases (xsdt_of m rsdp == 0)) [
    | inl old ↦ rw old rsdt_get-end
    | inr new ↦ rw new xsdt_get-end
  ]

  get_table-search :
      (signature index fuel : ℕ)
      → is_nullvptr m rsdp ≡ false
      → strlen fuel m signature ≡ some 4
      → get_table m rsdp signature index fuel ≡ search m root_get signature index fuel 0 0
  unfolding get_table
  get_table-search signature index fuel there four = ground arith

  -- With a root pointer that the test takes for one, a signature of four characters, and at most
  -- 65535 entries in the root table, none of them at address 0, `acpi_get_table` ends and returns
  -- the entry that has that signature behind so many others that have it, and 0 where there is none.
  -- The entries are those that the code counts: an eighth of the bytes behind the header of the
  -- root table, in the table of 32 bits as well.
  pub get_table-pick :
      (signature index fuel : ℕ) (text : List ℕ)
      → is_nullvptr m rsdp ≡ false
      → Stored m signature text
      → length text ≡ 4
      → Bytes m
      → index < 2 ^ 16
      → root_entries < 2 ^ 16
      → ((j : ℕ) → j < root_entries → root_get j ≢ 0)
      → 4 < fuel
      → root_entries < fuel
      → get_table m rsdp signature index fuel
        ≡ some (
            pick
              (λ header. same_bytes m header signature 4)
              index
              (entries_from root_get root_entries 0))
  get_table-pick signature index fuel text there stored four bytes small few full enough enough' =
      let all_left : index - 0 ≡ index = omega arith in
      get_table-search signature index fuel there
        (strlen-length fuel m signature text stored (omega arith) ∙ ap some four)
      ∙ search-pick m root_get signature index small fuel root_entries 0 0 enough' (omega arith)
          (omega arith) (λ j h. full j (omega arith)) (ap root_get (omega arith) ∙ root_get-end)
      ∙ ap (λ t. some (pick (bears m signature) t (entries_from root_get root_entries 0))) all_left
      ∙ ap some (
          pick-eq (bears m signature) (λ header. same_bytes m header signature 4) index
            (entries_from root_get root_entries 0) (λ t. strncmp-same_bytes m t signature 4 bytes))
