-- ===== src/Elf/Program.antt =====
-- kernel/src/proc/loader/elf.c: `elf_load_program`, which loads each segment that the table of the
-- program asks for.
use fenestella.Prelude.{
  ℕ, zero, suc, ◌+◌, ◌-◌, ◌*◌, ◌%◌, ◌^◌, ◌<◌, ◌≡◌, refl, sym, ap, subst, ◌∙◌, Bool, true, false,
  not, ◌&&◌, Option, none, some, [], arith, ◌==◌, ltb, leb, if◌then◌else◌,
}
use fenestella.Strings.{strncmp}
use fenestella.Elf.{ProgramHeader, Loader, load_segment, u64}

module _ (m : ℕ → ℕ) where
  abbrev pub read_16 : ℕ → ℕ
  read_16 a = m a + m (a + 1) * 0x100

  abbrev pub read_32 : ℕ → ℕ
  read_32 a = read_16 a + read_16 (a + 2) * 0x10000

  abbrev pub read_64 : ℕ → ℕ
  read_64 a = read_32 a + read_32 (a + 4) * 2 ^ 32

  -- `elf_program_header_t` at an address.
  unfoldable pub read_header : ℕ → ProgramHeader
  read_header a = record {
    kind = read_32 a;
    p_offset = read_64 (a + 8);
    p_vaddr = read_64 (a + 16);
    p_filesz = read_64 (a + 32);
    p_memsz = read_64 (a + 40);
  }

  -- The tests on `elf_header_t`; `magic` is the address of `ELF_HEADER_MAGIC`, and a result of
  -- `strncmp` is positive where it is from 1 to 2 ^ 31 - 1.
  unfoldable pub accepts : ℕ → ℕ → Bool
  accepts magic file =
      let order = strncmp m file magic 4 in
      not (ltb 0 order && ltb order (2 ^ 31))
      && read_16 (file + 18) == 0x3E
      && m (file + 5) == 1
      && m (file + 4) == 2
      && m (file + 7) == 0

abbrev pub segment_load : ℕ
segment_load = 1

module _ {W : Type 0} (alloc_pool : ℕ → W → ℕ × W) (fuel file : ℕ) where
  unfoldable pub load_one : ProgramHeader → Loader W → Option (Loader W)
  load_one h l = if h.kind == segment_load then load_segment alloc_pool fuel file h l else some l

-- Where the table of the program stands, and how long its entries are, by the header in memory.
abbrev pub table_of : (ℕ → ℕ) → ℕ → ℕ
table_of m file = u64 (file + read_64 m (file + 32))

abbrev pub entry_size_of : (ℕ → ℕ) → ℕ → ℕ
entry_size_of m file = read_16 m (file + 54)

module _ {W : Type 0} (alloc_pool : ℕ → W → ℕ × W) (fuel file size : ℕ) where
  -- The loop over the table, from one header on. Each round reads the header of the file anew.
  unfoldable pub load_table : ℕ → ℕ → Loader W → Option (Loader W)
  load_table zero pheader l = none
  load_table (suc steps) pheader l =
      if leb size (u64 (pheader + 2 ^ 64 - table_of l.memory file))
      then some l
      else elim (load_one alloc_pool fuel file (read_header l.memory pheader) l) [
        | none ↦ none
        | some l' ↦ load_table steps (u64 (pheader + entry_size_of l'.memory file)) l'
      ]

-- `header_table_size`: a product of two `int`s as a `size_t`.
abbrev pub table_size : ℕ → ℕ → ℕ
table_size entry_size entries =
    let product = entry_size * entries % 2 ^ 32 in
    if ltb product (2 ^ 31) then product else product + 2 ^ 64 - 2 ^ 32

-- The `load_info` that is returned.
abbrev pub finish : {W : Type 0} → ℕ → Option (Loader W) → Option (Option (ℕ × Loader W))
finish entry none = none
finish entry (some l) = some (some (entry, l))

-- `none` is a loop that goes on, and `some none` is `NULL`; the other results are the entry point and
-- the segments. What `malloc` and `pmm_alloc_page` give for the list itself is not part of the state.
unfoldable pub load_program :
    {W : Type 0} → (ℕ → W → ℕ × W) → ℕ → ℕ → ℕ → ℕ → Loader W → Option (Option (ℕ × Loader W))
load_program alloc_pool steps fuel magic file l =
    let m = l.memory in
    if not (accepts m magic file)
    then some none
    else finish (read_64 m (file + 24)) (
        load_table alloc_pool fuel file (table_size (entry_size_of m file) (read_16 m (file + 56)))
          steps (table_of m file) (record l { segments = [] }))

-- The headers one after another, `n` of them from the address on.
unfoldable pub load_each :
    {W : Type 0} → (ℕ → W → ℕ × W) → ℕ → ℕ → ℕ → ℕ → ℕ → Loader W → Option (Loader W)
load_each alloc_pool fuel file entry_size zero pheader l = some l
load_each alloc_pool fuel file entry_size (suc n) pheader l =
    elim (load_one alloc_pool fuel file (read_header l.memory pheader) l) [
      | none ↦ none
      | some l' ↦ load_each alloc_pool fuel file entry_size n (pheader + entry_size) l'
    ]

next_size : (n e done size : ℕ) → done + suc n * e ≡ size → (done + e) + n * e ≡ size
next_size n e done size h = grind arith

step-pos : (n e done size : ℕ) → done + suc n * e ≡ size → 0 < e → done < size
step-pos n e done size h pos = grind arith

-- Whether the loading of the next `n` headers leaves the place of the table and the size of its
-- entries in the header of the file as they are.
unfoldable pub IsHeaderKept :
    {W : Type 0} → (ℕ → W → ℕ × W) → ℕ → ℕ → ℕ → ℕ → ℕ → ℕ → Loader W → Type 0
IsHeaderKept alloc_pool fuel file table entry_size zero pheader l = Unit {0}
IsHeaderKept alloc_pool fuel file table entry_size (suc n) pheader l =
    elim (load_one alloc_pool fuel file (read_header l.memory pheader) l) as (λ x. Type 0) [
      | none ↦ Unit {0}
      | some l' ↦
          (read_64 l'.memory (file + 32) ≡ table)
          × (entry_size_of l'.memory file ≡ entry_size)
          × IsHeaderKept alloc_pool fuel file table entry_size n (pheader + entry_size) l'
    ]

bind-eq :
    {A B : Type 0} (o : Option A) (f g : A → Option B) (K : A → Type 0)
    → (elim o as (λ x. Type 0) [ none ↦ Unit {0} | some a ↦ K a ])
    → ((a : A) → K a → f a ≡ g a)
    → (elim o as (λ x. Option B) [ none ↦ none | some a ↦ f a ])
      ≡ (elim o as (λ x. Option B) [ none ↦ none | some a ↦ g a ])
bind-eq none f g K kept h = refl
bind-eq (some a) f g K kept h = h a kept

module _ {W : Type 0} (alloc_pool : ℕ → W → ℕ × W) (fuel file place entry_size size : ℕ)
    (pos : 0 < entry_size) (low : file + place + size < 2 ^ 64) where
  load_table-load_each :
      (n steps done : ℕ) (l : Loader W)
      → done + n * entry_size ≡ size
      → n < steps
      → read_64 l.memory (file + 32) ≡ place
      → IsHeaderKept alloc_pool fuel file place entry_size n (file + place + done) l
      → load_table alloc_pool fuel file size steps (file + place + done) l
        ≡ load_each alloc_pool fuel file entry_size n (file + place + done) l
  unfolding load_table load_each IsHeaderKept
  load_table-load_each n zero done l e enough at kept = absurd (omega arith)
  load_table-load_each zero (suc steps) done l e enough at kept =
      let over : leb size (u64 (file + place + done + 2 ^ 64 - table_of l.memory file)) ≡ true =
        rw at (ground arith) in
      rw over refl
  load_table-load_each (suc n) (suc steps) done l e enough at kept =
      let inside = step-pos n entry_size done size e pos in
      let more : leb size (u64 (file + place + done + 2 ^ 64 - table_of l.memory file)) ≡ false =
        rw at (ground arith) in
      let e' = next_size n entry_size done size e in
      let first = load_one alloc_pool fuel file (read_header l.memory (file + place + done)) l in
      let on : u64 (file + place + done + entry_size) ≡ file + place + (done + entry_size) =
        omega (arith, e') in
      let same : file + place + (done + entry_size) ≡ file + place + done + entry_size =
        omega arith in
      rw more (
        bind-eq first
          (λ l'.
            load_table alloc_pool fuel file size steps
              (u64 (file + place + done + entry_size_of l'.memory file)) l')
          (load_each alloc_pool fuel file entry_size n (file + place + done + entry_size))
          (λ l'.
            (read_64 l'.memory (file + 32) ≡ place)
            × (entry_size_of l'.memory file ≡ entry_size)
            × IsHeaderKept alloc_pool fuel file place entry_size n
                (file + place + done + entry_size) l')
          kept
          (λ l' (at', size', kept').
            ap (λ t. load_table alloc_pool fuel file size steps (u64 (file + place + done + t)) l')
              size'
            ∙ ap (λ t. load_table alloc_pool fuel file size steps t l') on
            ∙ load_table-load_each n steps (done + entry_size) l' e' (omega arith) at' (
                subst (λ t. IsHeaderKept alloc_pool fuel file place entry_size n t l') (sym same)
                  kept')
            ∙ ap (λ t. load_each alloc_pool fuel file entry_size n t l') same))

table_size-small : (e n : ℕ) → e * n < 2 ^ 31 → table_size e n ≡ e * n
table_size-small e n small =
    let whole : e * n % 2 ^ 32 ≡ e * n = omega arith in ground (arith, whole)

load_program-accepts :
    {W : Type 0} (alloc_pool : ℕ → W → ℕ × W) (steps fuel magic file : ℕ) (l : Loader W)
    → accepts l.memory magic file ≡ true
    → load_program alloc_pool steps fuel magic file l
      ≡ finish (read_64 l.memory (file + 24)) (
          load_table alloc_pool fuel file
            (table_size (entry_size_of l.memory file) (read_16 l.memory (file + 56)))
            steps
            (table_of l.memory file)
            (record l { segments = [] }))
unfolding load_program
load_program-accepts alloc_pool steps fuel magic file l ok = rw ok refl

-- A program whose header passes the tests, with entries of some size in its table and a table that
-- is smaller than 2 ^ 31 bytes and does not wrap around, is loaded by loading the segments of the
-- table one after another, from the first to the last, and then has the entry point of the header;
-- the loop over the table ends after as many rounds as the table has entries. This is where no
-- segment that is loaded overwrites, in the header of the file, the place of the table or the size
-- of its entries, which each round reads anew.
pub load_program-load_each :
    {W : Type 0} (alloc_pool : ℕ → W → ℕ × W) (steps fuel magic file : ℕ) (l : Loader W)
    → accepts l.memory magic file ≡ true
    → 0 < read_16 l.memory (file + 54)
    → file
        + read_64 l.memory (file + 32)
        + read_16 l.memory (file + 54) * read_16 l.memory (file + 56)
      < 2 ^ 64
    → read_16 l.memory (file + 54) * read_16 l.memory (file + 56) < 2 ^ 31
    → read_16 l.memory (file + 56) < steps
    → IsHeaderKept alloc_pool fuel file
        (read_64 l.memory (file + 32))
        (read_16 l.memory (file + 54))
        (read_16 l.memory (file + 56))
        (file + read_64 l.memory (file + 32))
        (record l { segments = [] })
    → load_program alloc_pool steps fuel magic file l
      ≡ finish (read_64 l.memory (file + 24)) (
          load_each alloc_pool fuel file
            (read_16 l.memory (file + 54))
            (read_16 l.memory (file + 56))
            (file + read_64 l.memory (file + 32))
            (record l { segments = [] }))
load_program-load_each alloc_pool steps fuel magic file l ok pos low small enough kept =
    let m = l.memory in
    let e = read_16 m (file + 54) in
    let n = read_16 m (file + 56) in
    let place = read_64 m (file + 32) in
    let t = file + place in
    let l0 = record l { segments = [] } in
    let entry = read_64 m (file + 24) in
    let below : t < 2 ^ 64 = omega (arith, low) in
    let at : u64 t ≡ t = omega (arith, below) in
    let same : t + 0 ≡ t = omega arith in
    let size : table_size e n ≡ e * n = table_size-small e n small in
    load_program-accepts alloc_pool steps fuel magic file l ok
    ∙ ap (λ a. finish entry (load_table alloc_pool fuel file a steps (u64 t) l0)) size
    ∙ ap (λ a. finish entry (load_table alloc_pool fuel file (e * n) steps a l0)) at
    ∙ ap (λ a. finish entry (load_table alloc_pool fuel file (e * n) steps a l0)) (sym same)
    ∙ ap (finish entry) (
        load_table-load_each alloc_pool fuel file place e (e * n) pos low n steps 0 l0 (grind arith)
          enough refl
          (subst (λ a. IsHeaderKept alloc_pool fuel file place e n a l0) (sym same) kept))
    ∙ ap (λ a. finish entry (load_each alloc_pool fuel file e n a l0)) same
