-- ===== src/Heap/Chain/Combine.antt =====
-- What `header_combine_forward` does to the blocks.
use fenestella.Prelude.{
  ℕ, ◌+◌, ◌^◌, ◌<◌, ◌≡◌, refl, ap, sym, subst, ◌∙◌, ◌≢◌, Bool, true, false, [], ◌∷◌, arith, ◌==◌,
  if◌then◌else◌,
}
use fenestella.Heap.{Heap, header_combine_forward, null}
use fenestella.Heap.Chain.{Blocks, Chain, Chain-relink, Chain-le, at-le-last, merge}
use fenestella.Heap.Chain.Place.{SameBounds, Placed}

module _ {W : Type 0} (at : ℕ) (h : Heap W) where
  abbrev next : ℕ
  next = (h.cell at).next

  abbrev joined : Heap W
  joined = header_combine_forward at h

  combine-none : (h.cell at).next ≡ null → joined ≡ h
  unfolding header_combine_forward
  combine-none e = rw e

  combine-taken : (h.cell (h.cell at).next).free ≡ false → joined ≡ h
  unfolding header_combine_forward
  combine-taken e = ground arith

  module _ (ne : next ≢ null) (apart : next ≢ at) (free : (h.cell next).free ≡ true) where
    combine-bounds : SameBounds h joined
    unfolding header_combine_forward
    combine-bounds = ground arith

    combine-last_header : joined.last_header ≡ (if next == h.last_header then at else h.last_header)
    unfolding header_combine_forward
    combine-last_header = ground arith

    combine-keeps_last : next ≢ h.last_header → joined.last_header ≡ h.last_header
    combine-keeps_last other = ground (arith, combine-last_header)

    combine-at :
        (h.cell next).next ≢ at
        → (h.cell at).length + (h.cell next).length + 32 < 2 ^ 64
        → joined.cell at ≡ record (h.cell at) {
          length = (h.cell at).length + (h.cell next).length + 32;
          next = (h.cell next).next;
        }
    unfolding header_combine_forward
    combine-at far fits = ground arith

    combine-others : (a : ℕ) → a ≢ at → a ≢ (h.cell next).next → joined.cell a ≡ h.cell a
    unfolding header_combine_forward
    combine-others a out1 out2 = ground arith

    combine-others_last : (h.cell next).next ≡ null → (a : ℕ) → a ≢ at → joined.cell a ≡ h.cell a
    unfolding header_combine_forward
    combine-others_last end a out = ground arith

    combine-after :
        (h.cell next).next ≢ null
        → (h.cell next).next ≢ at
        → (h.cell next).next ≢ next
        → joined.cell (h.cell next).next ≡ record (h.cell (h.cell next).next) { last = at }
    unfolding header_combine_forward
    combine-after more far far' = ground arith

pub Placed-refl :
    {W : Type 0} (h : Heap W) (prev at stop : ℕ) (bs : Blocks)
    → Chain h.cell prev at stop h.last_header bs
    → Placed h prev at stop bs h
Placed-refl h prev at stop bs c = record {
  chain = c;
  below = λ a lt. refl;
  bounds = record { heap_start = refl; heap_end = refl; heap_initialized = refl; world = refl };
}

module _ {W : Type 0} (h : Heap W) (prev at stop : ℕ) (pos : 0 < at) (bound : stop < 2 ^ 63) where
  abbrev g : Heap W
  g = header_combine_forward at h

  merge-last :
      (n m : ℕ) (f : Bool)
      → Chain h.cell prev at stop h.last_header ((n, f) ∷ (m, true) ∷ [])
      → Placed h prev at stop ((n + 32 + m, f) ∷ []) g
  merge-last n m f c =
      let ne : (h.cell at).next ≢ null = omega arith in
      let apart : (h.cell at).next ≢ at = omega arith in
      let to : at + 32 + n ≡ (h.cell at).next = sym c.3 in
      let tail = subst (λ (t : ℕ). Chain h.cell at t stop h.last_header ((m, true) ∷ [])) to c.4 in
      let here = combine-at at h ne apart tail.1 (omega arith) (omega arith) in
      let lasts = combine-last_header at h ne apart tail.1 in
      record {
        chain = (
          ap (λ t. t.length) here ∙ omega arith,
          ap (λ t. t.free) here ∙ c.1,
          ap (λ t. t.last) here ∙ c.2,
          ap (λ t. t.next) here ∙ tail.3,
          (omega arith, ground (arith, lasts)),
        );
        below = λ a lt. combine-others_last at h ne apart tail.1 tail.3 a (omega arith);
        bounds = combine-bounds at h ne apart tail.1;
      }

  merge-more :
      (n m k : ℕ) (f e : Bool) (bs : Blocks)
      → Chain h.cell prev at stop h.last_header ((n, f) ∷ (m, true) ∷ (k, e) ∷ bs)
      → Placed h prev at stop ((n + 32 + m, f) ∷ (k, e) ∷ bs) g
  merge-more n m k f e bs c =
      let far = Chain-le h.cell stop h.last_header bs _ _ c.4.4.4 in
      let past = at-le-last h.cell stop h.last_header k e bs _ _ c.4.4 in
      let ne : (h.cell at).next ≢ null = omega arith in
      let apart : (h.cell at).next ≢ at = omega arith in
      let to : at + 32 + n ≡ (h.cell at).next = sym c.3 in
      let tail =
        subst (λ (t : ℕ). Chain h.cell at t stop h.last_header ((m, true) ∷ (k, e) ∷ bs)) to c.4 in
      let here = combine-at at h ne apart tail.1 (omega arith) (omega arith) in
      let kept = combine-keeps_last at h ne apart tail.1 (omega arith) in
      let after = combine-after at h ne apart tail.1 (omega arith) (omega arith) (omega arith) in
      let to' : (h.cell at).next + 32 + m ≡ (h.cell (h.cell at).next).next = sym tail.3 in
      let old =
        subst (λ (t : ℕ). Chain h.cell (h.cell at).next t stop h.last_header ((k, e) ∷ bs)) to'
          tail.4 in
      let new =
        Chain-relink h.cell g.cell stop h.last_header k e bs _ at _ after
          (λ a le. combine-others at h ne apart tail.1 a (omega arith) (omega arith)) old in
      let place : (h.cell (h.cell at).next).next ≡ at + 32 + (n + 32 + m) = omega arith in
      record {
        chain = (
          ap (λ t. t.length) here ∙ omega arith,
          ap (λ t. t.free) here ∙ c.1,
          ap (λ t. t.last) here ∙ c.2,
          ap (λ t. t.next) here ∙ place,
          subst (λ (t : ℕ). Chain g.cell at t stop g.last_header ((k, e) ∷ bs)) place
              (subst
                (λ (t : ℕ). Chain g.cell at (h.cell (h.cell at).next).next stop t ((k, e) ∷ bs))
                (sym kept) new),
        );
        below = λ a lt. combine-others at h ne apart tail.1 a (omega arith) (omega arith);
        bounds = combine-bounds at h ne apart tail.1;
      }

  -- A block takes in the free block behind it; any other is left as it is.
  pub combine-Placed :
      (n : ℕ) (f : Bool) (bs : Blocks)
      → Chain h.cell prev at stop h.last_header ((n, f) ∷ bs)
      → Placed h prev at stop (merge n f bs) g
  combine-Placed n f [] c =
      subst (Placed h prev at stop ((n, f) ∷ [])) (sym (combine-none at h c.3))
        (Placed-refl h prev at stop _ c)
  combine-Placed n f ((m, false) ∷ bs) c =
      let shut : (h.cell (h.cell at).next).free ≡ false =
        subst (λ (t : ℕ). (h.cell t).free ≡ false) (sym c.3) c.4.1 in
      subst (Placed h prev at stop ((n, f) ∷ (m, false) ∷ bs)) (sym (combine-taken at h shut))
        (Placed-refl h prev at stop _ c)
  combine-Placed n f ((m, true) ∷ []) c = merge-last n m f c
  combine-Placed n f ((m, true) ∷ (k, e) ∷ bs) c = merge-more n m k f e bs c
