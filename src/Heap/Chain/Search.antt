-- ===== src/Heap/Chain/Search.antt =====
-- The loop of `malloc`, against first fit over the blocks.
use fenestella.Prelude.{
  ℕ, zero, suc, ◌+◌, ◌≤◌, ◌<◌, ◌^◌, ◌≡◌, ap, ◌∙◌, inl, inr, Bool, true, false, ◌&&◌, Option, none,
  some, [], ◌∷◌, arith, ◌==◌, leb, leb→le, Bool-cases, length,
}
use fenestella.Heap.{Heap, null, place, search_free}
use fenestella.Heap.Chain.{Blocks, Chain, Chain-le, keep_block, alloc_in}
use fenestella.Heap.Chain.Place.{Placed, place-Placed}

-- What the search from a block on is to return.
abbrev pub SearchIs :
    {W : Type 0} → Heap W → ℕ → ℕ → ℕ → Option (ℕ × Blocks) → Option (Option (ℕ × Heap W)) → Type 0
SearchIs h prev at stop none r = r ≡ some none
SearchIs {W} h prev at stop (some (p, bs)) r =
    (g : Heap W) × (r ≡ some (some (p, g))) × Placed h prev at stop bs g

module _ {W : Type 0} (h : Heap W) (stop : ℕ) where
  -- A block in front of those that changed.
  pub Placed-cons :
      (prev at n : ℕ) (f : Bool) (bs cs : Blocks) (m : ℕ) (e : Bool) (g : Heap W)
      → Chain h.cell prev at stop h.last_header ((n, f) ∷ (m, e) ∷ bs)
      → Placed h at (at + 32 + n) stop cs g
      → Placed h prev at stop ((n, f) ∷ cs) g
  Placed-cons prev at n f bs [] m e g c p =
      absurd (omega (arith, Chain-le h.cell stop h.last_header bs _ _ c.4.4, p.chain.0))
  Placed-cons prev at n f bs (b ∷ cs) m e g c p =
      let same = p.below at (omega arith) in
      record {
        chain = (
          ap (λ t. t.length) same ∙ c.0,
          ap (λ t. t.free) same ∙ c.1,
          ap (λ t. t.last) same ∙ c.2,
          ap (λ t. t.next) same ∙ c.3,
          p.chain,
        );
        below = λ a lt. p.below a (omega arith);
        bounds = p.bounds;
      }

  SearchIs-keep :
      (prev at n : ℕ) (f : Bool) (bs : Blocks) (m : ℕ) (e : Bool) (o : Option (ℕ × Blocks))
      (r : Option (Option (ℕ × Heap W)))
      → Chain h.cell prev at stop h.last_header ((n, f) ∷ (m, e) ∷ bs)
      → SearchIs h at (at + 32 + n) stop o r
      → SearchIs h prev at stop (keep_block (n, f) o) r
  SearchIs-keep prev at n f bs m e none r c s = s
  SearchIs-keep prev at n f bs m e (some (p, cs)) r c (g, found, placed) =
      (g, found, Placed-cons prev at n f bs cs m e g c placed)

module _ {W : Type 0} (h : Heap W) (stop : ℕ) (bound : stop < 2 ^ 63) (size : ℕ)
    (big : 16 ≤ size) where
  search-hit :
      (k at n : ℕ) (f : Bool)
      → (h.cell at).length ≡ n
      → (h.cell at).free ≡ f
      → (f && leb size n) ≡ true
      → search_free (suc k) at size h ≡ some (some (place at size h))
  unfolding search_free
  search-hit k at n f len free hit = rw (len, free, hit)

  search-end :
      (k at n : ℕ) (f : Bool)
      → (h.cell at).length ≡ n
      → (h.cell at).free ≡ f
      → (f && leb size n) ≡ false
      → (h.cell at).next ≡ null
      → search_free (suc k) at size h ≡ some none
  unfolding search_free
  search-end k at n f len free miss next = rw (len, free, miss, next)

  search-next :
      (k at n : ℕ) (f : Bool)
      → (h.cell at).length ≡ n
      → (h.cell at).free ≡ f
      → (f && leb size n) ≡ false
      → (to : ℕ) → (h.cell at).next ≡ to
      → 0 < to
      → search_free (suc k) at size h ≡ search_free k to size h
  unfolding search_free
  search-next k at n f len free miss to next ne =
      let there : (to == null) ≡ false = ground arith in rw (len, free, miss, next, there)

  found :
      (k n : ℕ) (f : Bool) (bs : Blocks) (prev at : ℕ)
      → 0 < at
      → Chain h.cell prev at stop h.last_header ((n, f) ∷ bs)
      → (f && leb size n) ≡ true
      → SearchIs h prev at stop (alloc_in size at ((n, f) ∷ bs)) (search_free (suc k) at size h)
  found k n true bs prev at pos c hit =
      let placed = place-Placed prev at stop pos bound h size n bs big (leb→le _ _ hit) c in
      rw (hit, search-hit k at n true c.0 c.1 hit)
        ((place at size h).1, ap (λ t. some (some (t, (place at size h).1))) placed.0, placed.1)
  found k n false bs prev at pos c hit = cc

  -- From a block on, the loop of `malloc` finds what first fit finds in the list of the blocks.
  pub search_free-SearchIs :
      (steps : ℕ) (n : ℕ) (f : Bool) (bs : Blocks) (prev at : ℕ)
      → length bs < steps
      → 0 < at
      → Chain h.cell prev at stop h.last_header ((n, f) ∷ bs)
      → SearchIs h prev at stop (alloc_in size at ((n, f) ∷ bs)) (search_free steps at size h)
  search_free-SearchIs zero n f bs prev at steps pos c = absurd (omega arith)
  search_free-SearchIs (suc k) n f [] prev at steps pos c = elim (Bool-cases (f && leb size n)) [
    | inl hit ↦ found k n f [] prev at pos c hit
    | inr miss ↦ rw miss (search-end k at n f c.0 c.1 miss c.3)
  ]
  search_free-SearchIs (suc k) n f ((m, e) ∷ bs) prev at steps pos c =
      let ih = search_free-SearchIs k m e bs at (at + 32 + n) (omega arith) (omega arith) c.4 in
      elim (Bool-cases (f && leb size n)) [
        | inl hit ↦ found k n f ((m, e) ∷ bs) prev at pos c hit
        | inr miss ↦
            let step = search-next k at n f c.0 c.1 miss (at + 32 + n) c.3 (omega arith) in
            rw (miss, step)
              (SearchIs-keep h stop prev at n f bs m e (alloc_in size (at + 32 + n) ((m, e) ∷ bs)) _
                c ih)
      ]
