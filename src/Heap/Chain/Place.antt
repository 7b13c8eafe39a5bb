-- ===== src/Heap/Chain/Place.antt =====
-- Taking a free block that is large enough: what `malloc` does at the block where its loop stops.
use fenestella.Prelude.{
  ℕ, ◌+◌, ◌-◌, ◌^◌, ◌≤◌, ◌<◌, ◌≡◌, refl, ap, sym, subst, ◌∙◌, ◌≢◌, inl, inr, Bool, true, false, [],
  ◌∷◌, arith, leb, update, Bool-cases, leb→le, leb_false→lt,
}
use fenestella.Heap.{Heap, header_split, store, take, place}
use fenestella.Heap.Chain.{
  Blocks, Chain, Chain-frame, Chain-relink, Chain-le, at-le-last, carve, SameBelow,
}
use fenestella.Heap.Chain.Split.{
  header_split-small, split-at, split-last_header, split-rest, split-others, split-others_last,
  split-new_last, split-new, split-next,
}

-- The variables of allocator.c that no operation on a block touches.
pub record SameBounds {W : Type 0} (h g : Heap W) : Type 0 where
  pub heap_start : g.heap_start ≡ h.heap_start
  pub heap_end : g.heap_end ≡ h.heap_end
  pub heap_initialized : g.heap_initialized ≡ h.heap_initialized
  pub world : g.world ≡ h.world

pub record Placed {W : Type 0} (h : Heap W) (prev at stop : ℕ) (bs : Blocks) (g : Heap W)
    : Type 0 where
  pub chain : Chain g.cell prev at stop g.last_header bs
  pub below : SameBelow at h.cell g.cell
  pub bounds : SameBounds h g

module _ {W : Type 0} (h : Heap W) (prev at stop : ℕ) (pos : 0 < at) where
  split-bounds :
      (size : ℕ)
      → 16 ≤ size
      → size ≤ (h.cell at).length
      → at + 32 + (h.cell at).length < 2 ^ 63
      → size + 48 ≤ (h.cell at).length
      → SameBounds h (header_split at size h).1
  split-bounds size big fits low room =
      let same = split-rest at size h big fits low room in
      record { heap_start = same.0; heap_end = same.1; heap_initialized = same.2; world = same.3 }

  -- Cutting a block in two gives two blocks of the same kind.
  split-Placed :
      (size n : ℕ) (f : Bool) (bs : Blocks)
      → 16 ≤ size
      → size + 48 ≤ n
      → stop < 2 ^ 63
      → Chain h.cell prev at stop h.last_header ((n, f) ∷ bs)
      → Placed h prev at stop ((size, f) ∷ (n - size - 32, f) ∷ bs) (header_split at size h).1
  split-Placed size n f [] big room bound c =
      let len = c.0 in
      let end = c.4.0 in
      let fits : size ≤ (h.cell at).length = omega arith in
      let room' : size + 48 ≤ (h.cell at).length = omega arith in
      let low : at + 32 + (h.cell at).length < 2 ^ 63 = omega arith in
      let here = split-at at size h big fits low room' (omega arith) in
      let new = split-new_last at size h big fits low room' c.3 in
      record {
        chain = (
          here.0,
          here.3 ∙ c.1,
          here.2 ∙ c.2,
          here.1,
          (
            ground (arith, new),
            ground (arith, new),
            ground (arith, new),
            ground (arith, new),
            (omega arith, ground (arith, split-last_header at size h big fits low room')),
          ),
        );
        below = λ a lt.
            split-others_last at size h big fits low room' a (omega arith) (omega arith) c.3;
        bounds = split-bounds size big fits low room';
      }
  split-Placed size n f ((m, g) ∷ bs) big room bound c =
      let len = c.0 in
      let end = Chain-le h.cell stop h.last_header ((m, g) ∷ bs) at (at + 32 + n) c.4 in
      let past = at-le-last h.cell stop h.last_header m g bs at (at + 32 + n) c.4 in
      let fits : size ≤ (h.cell at).length = omega arith in
      let room' : size + 48 ≤ (h.cell at).length = omega arith in
      let low : at + 32 + (h.cell at).length < 2 ^ 63 = omega arith in
      let to_next : (h.cell at).next ≡ at + 32 + (h.cell at).length = omega arith in
      let here = split-at at size h big fits low room' (omega arith) in
      let new = split-new at size h big fits low room' to_next in
      let next = split-next at size h big fits low room' to_next in
      let cell' = (header_split at size h).1.cell in
      let last' = (header_split at size h).1.last_header in
      let new_at = at + 32 + size in
      let kept : last' ≡ h.last_header =
        ground (arith, split-last_header at size h big fits low room') in
      let old : Chain h.cell at (at + 32 + (h.cell at).length) stop h.last_header ((m, g) ∷ bs) =
        subst (λ (t : ℕ). Chain h.cell at (at + 32 + t) stop h.last_header ((m, g) ∷ bs)) (sym len)
          c.4 in
      let relinked : Chain cell' new_at (at + 32 + (h.cell at).length) stop h.last_header
          ((m, g) ∷ bs) =
        Chain-relink h.cell cell' stop h.last_header m g bs at new_at (at + 32 + (h.cell at).length)
          next
          (λ a lt.
            split-others at size h big fits low room' a (omega arith) (omega arith) (omega arith))
          old in
      record {
        chain = (
          here.0,
          here.3 ∙ c.1,
          here.2 ∙ c.2,
          here.1,
          (
            ground (arith, new),
            ground (arith, new),
            ground (arith, new),
            ground (arith, new),
            subst (λ (t : ℕ). Chain cell' new_at t stop last' ((m, g) ∷ bs)) (omega arith)
                (subst (λ (t : ℕ). Chain cell' new_at (at + 32 + t) stop last' ((m, g) ∷ bs)) len
                  (subst
                    (λ t. Chain cell' new_at (at + 32 + (h.cell at).length) stop t ((m, g) ∷ bs))
                    (sym kept) relinked)),
          ),
        );
        below = λ a lt.
            split-others at size h big fits low room' a (omega arith) (omega arith) (omega arith);
        bounds = split-bounds size big fits low room';
      }

  -- Marking the first block free or taken.
  pub set_free-Placed :
      (n : ℕ) (f v : Bool) (bs : Blocks)
      → Chain h.cell prev at stop h.last_header ((n, f) ∷ bs)
      → Placed h prev at stop ((n, v) ∷ bs) (store at (record (h.cell at) { free = v }) h)
  unfolding store
  set_free-Placed n f v bs c =
      let same : (a : ℕ)
          → a ≢ at
          → update h.cell at (record (h.cell at) { free = v }) a ≡ h.cell a =
        λ a ne. ground arith in
      let here : update h.cell at (record (h.cell at) { free = v }) at
          ≡ record (h.cell at) { free = v } =
        ground arith in
      record {
        chain = (
          ap (λ t. t.length) here ∙ c.0,
          ap (λ t. t.free) here,
          ap (λ t. t.last) here ∙ c.2,
          ap (λ t. t.next) here ∙ c.3,
          Chain-frame h.cell _ stop h.last_header bs at (at + 32 + n) (λ a le. same a (omega arith))
              c.4,
        );
        below = λ a lt. same a (omega arith);
        bounds = record {
          heap_start = refl;
          heap_end = refl;
          heap_initialized = refl;
          world = refl;
        };
      }

module _ {W : Type 0} (h g k : Heap W) (prev at stop : ℕ) where
  pub Placed-trans :
      (bs cs : Blocks)
      → Placed h prev at stop bs g
      → Placed g prev at stop cs k
      → Placed h prev at stop cs k
  Placed-trans bs cs p q = record {
    chain = q.chain;
    below = λ a lt. q.below a lt ∙ p.below a lt;
    bounds = record {
      heap_start = q.bounds.heap_start ∙ p.bounds.heap_start;
      heap_end = q.bounds.heap_end ∙ p.bounds.heap_end;
      heap_initialized = q.bounds.heap_initialized ∙ p.bounds.heap_initialized;
      world = q.bounds.world ∙ p.bounds.world;
    };
  }

module _ {W : Type 0} (prev at stop : ℕ) (pos : 0 < at) (bound : stop < 2 ^ 63) (h : Heap W) where
  take-Placed :
      (n : ℕ) (f : Bool) (bs : Blocks)
      → Chain h.cell prev at stop h.last_header ((n, f) ∷ bs)
      → ((take at h).0 ≡ at + 32) × Placed h prev at stop ((n, false) ∷ bs) (take at h).1
  unfolding take
  take-Placed n f bs c =
      let low = Chain-le h.cell stop h.last_header bs at (at + 32 + n) c.4 in
      (omega arith, set_free-Placed h prev at stop pos n f false bs c)

module _ {W : Type 0} (prev at stop : ℕ) (pos : 0 < at) (bound : stop < 2 ^ 63) (h : Heap W) where
  place-cut :
      (size n : ℕ)
      → size + 48 ≤ n
      → (h.cell at).length ≡ n
      → place at size h ≡ take at (header_split at size h).1
  unfolding place
  place-cut size n room len = ground arith

  place-whole :
      (size n : ℕ)
      → 16 ≤ size
      → size ≤ n
      → n < size + 48
      → at + 32 + n < 2 ^ 63
      → (h.cell at).length ≡ n
      → place at size h ≡ take at h
  unfolding place
  place-whole size n big fits small low len =
      let shut = header_split-small at size h big (omega arith) (omega arith) (omega arith) in
      ground (arith, shut)

  abbrev Taken : Blocks → ℕ × Heap W → Type 0
  Taken bs r = (r.0 ≡ at + 32) × Placed h prev at stop bs r.1

  -- A free block that is large enough is taken, and cut where enough is left.
  pub place-Placed :
      (size n : ℕ) (bs : Blocks)
      → 16 ≤ size
      → size ≤ n
      → Chain h.cell prev at stop h.last_header ((n, true) ∷ bs)
      → ((place at size h).0 ≡ at + 32)
        × Placed h prev at stop (carve size n bs) (place at size h).1
  place-Placed size n bs big fits c = elim (Bool-cases (leb (size + 48) n)) [
    | inl room ↦
        let enough : size + 48 ≤ n = leb→le _ _ room in
        let cut = split-Placed h prev at stop pos size n true bs big enough bound c in
        let got =
          take-Placed prev at stop pos bound (header_split at size h).1 size true
            ((n - size - 32, true) ∷ bs) cut.chain in
        subst (Taken (carve size n bs)) (sym (place-cut size n enough c.0))
          (rw room (got.0, Placed-trans h (header_split at size h).1 _ prev at stop _ _ cut got.1))
    | inr small ↦
        let low = Chain-le h.cell stop h.last_header bs at (at + 32 + n) c.4 in
        let whole = place-whole size n big fits (leb_false→lt _ _ small) (omega arith) c.0 in
        subst (Taken (carve size n bs)) (sym whole)
          (rw small (take-Placed prev at stop pos bound h n true bs c))
  ]
