-- ===== src/Examples/Programs.antt =====
-- Segments of a program: one that begins in no page that is mapped, and one that begins in the
-- page of another.
use fenestella.Prelude.{
  ℕ, List, get_or, ◌-◌, ◌==◌, leb, ltb, ◌&&◌, if◌then◌else◌, ◌≡◌, refl, none, some, [], ◌∷◌, arith,
  inl, true, false,
}
use fenestella.Elf.{
  ProgramHeader, Loader, load_segment, required_pages, is_page_mapped, copy_mapped, place_segment,
}
use fenestella.Elf.Program.{
  accepts, load_program, load_each, finish, read_64, load_program-load_each, IsHeaderKept, load_one,
  read_header,
}
use fenestella.Strings.{strncmp}
use fenestella.Elf.Segment.{Placed, load_segment-Placed, load_segment-stuck}

abbrev pools : ℕ → ℕ → ℕ × ℕ
pools pages n = (0x80000, n)

abbrev loader : Loader ℕ
loader = record {
  segments = record { loaded_at = 0x400000; located_at = 0x70000; length = 0x1000 } ∷ [];
  memory = λ a. a;
  world = 0;
}

abbrev header : ProgramHeader
header = record { kind = 1; p_offset = 0x40; p_vaddr = 0x401080; p_filesz = 0x20; p_memsz = 0x1000 }

abbrev zeros : ProgramHeader
zeros = record { kind = 1; p_offset = 0x60; p_vaddr = 0x400800; p_filesz = 0; p_memsz = 0x100 }

two_pages : required_pages header ≡ 2
unfolding required_pages
two_pages = refl

not_mapped : is_page_mapped loader.segments 0x401080 ≡ false
unfolding is_page_mapped
not_mapped = refl

mapped : is_page_mapped loader.segments 0x400800 ≡ true
unfolding is_page_mapped
mapped = refl

load_segment-Placed_example :
    (g : Loader ℕ) × (load_segment pools 3 0x10000 header loader ≡ some g)
    × Placed 0x10000 0x80000 header loader g
load_segment-Placed_example =
    load_segment-Placed pools 2 0x10000 header loader not_mapped (omega arith) (omega arith)
      (omega arith) (omega (arith, two_pages)) (omega arith) (inl (omega arith))

load_segment-stuck_example : load_segment pools 1000 0x10000 zeros loader ≡ none
load_segment-stuck_example =
    load_segment-stuck pools 1000 0x10000 zeros loader mapped refl (omega arith) (omega arith)
      (omega arith)

-- A program at 0x10000 with one segment to load, and the magic at 0x100.
abbrev magic : List ℕ
magic = 0x7f ∷ 0x45 ∷ 0x4c ∷ 0x46 ∷ 2 ∷ 1 ∷ 1 ∷ 0 ∷ []

abbrev image : ℕ → ℕ
image a =
    if leb 0x10000 a && ltb a 0x10008
    then get_or magic (a - 0x10000) 0
    else if leb 0x100 a && ltb a 0x104
    then get_or magic (a - 0x100) 0
    else if a == 0x10012
    then 0x3e
    else if a == 0x10020
    then 0x40
    else if a == 0x10036
    then 56
    else if a == 0x10038
    then 1
    else if a == 0x10040
    then 1
    else if a == 0x10052
    then 0x40
    else if a == 0x10060
    then 0x20
    else if a == 0x10068
    then 0x80
    else 0

abbrev program : Loader ℕ
program = record { segments = []; memory = image; world = 0 }

accepted : accepts image 0x100 0x10000 ≡ true
unfolding accepts strncmp
accepted = refl

header_kept : IsHeaderKept pools 3 0x10000 0x40 56 1 0x10040 program
unfolding IsHeaderKept load_one load_segment copy_mapped place_segment required_pages read_header
    is_page_mapped
header_kept = (refl, refl, tt)

load_program-load_each_example :
    load_program pools 2 3 0x100 0x10000 program
    ≡ finish (read_64 image 0x10018) (load_each pools 3 0x10000 56 1 0x10040 program)
load_program-load_each_example =
    load_program-load_each pools 2 3 0x100 0x10000 program accepted (omega arith) (omega arith)
      (omega arith) (omega arith) header_kept
