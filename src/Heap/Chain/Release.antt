-- ===== src/Heap/Chain/Release.antt =====
-- `free` as an operation on the list of the blocks.
use fenestella.Prelude.{
  ℕ, ◌+◌, ◌^◌, ◌≤◌, ◌<◌, ◌≡◌, refl, ap, sym, subst, ◌∙◌, inl, inr, Bool, true, false, [], ◌∷◌,
  arith, ◌==◌, Bool-cases, ==_iff,
}
use fenestella.Heap.{Heap, store, header_combine_forward, header_combine_backward, free, null}
use fenestella.Heap.Chain.{Blocks, Chain, Chain-le, merge, release_in, join_in, free_in, is_block}
use fenestella.Heap.Chain.Place.{Placed, Placed-trans, set_free-Placed}
use fenestella.Heap.Chain.Combine.{combine-Placed, Placed-refl}
use fenestella.Heap.Chain.Search.{Placed-cons}

join_in-same : (t : ℕ) (bs : Blocks) (at : ℕ) → t ≤ at → join_in t at bs ≡ bs
join_in-same t [] at le = refl
join_in-same t ((n, f) ∷ bs) at le =
    let miss : (t == at + 32 + n) ≡ false = ground arith in
    rw miss (ap (λ (r : Blocks). (n, f) ∷ r) (join_in-same t bs (at + 32 + n) (omega arith)))

is_block-merge :
    (t at n : ℕ) (f : Bool) (bs : Blocks) → (t == at) ≡ true → is_block t at (merge n f bs) ≡ true
is_block-merge t at n f [] e = rw e
is_block-merge t at n f ((m, true) ∷ bs) e = rw e
is_block-merge t at n f ((m, false) ∷ bs) e = rw e

-- The block that is released is still one of the blocks.
is_block-release_in :
    (t : ℕ) (bs : Blocks) (at : ℕ)
    → is_block t at bs ≡ true
    → is_block t at (release_in t at bs) ≡ true
is_block-release_in t [] at b = b
is_block-release_in t ((n, f) ∷ bs) at b = elim (Bool-cases (t == at)) [
  | inl here ↦ rw here (is_block-merge t at n true bs here)
  | inr further ↦ rw (further, further) (is_block-release_in t bs (at + 32 + n) (rw further at b))
]

module _ {W : Type 0} (stop : ℕ) (bound : stop < 2 ^ 63) where
  abbrev released : ℕ → Heap W → Heap W
  released t h = header_combine_forward t (store t (record (h.cell t) { free = true }) h)

  released-here :
      (t : ℕ) (h : Heap W) (n : ℕ) (f : Bool) (bs : Blocks) (prev at : ℕ)
      → 0 < at
      → (t == at) ≡ true
      → Chain h.cell prev at stop h.last_header ((n, f) ∷ bs)
      → Placed h prev at stop (merge n true bs) (released t h)
  released-here t h n f bs prev at pos here c =
      let e : at ≡ t = sym ((==_iff t at).0 here) in
      let marked = set_free-Placed h prev at stop pos n f true bs c in
      let h1 = store at (record (h.cell at) { free = true }) h in
      let joined = combine-Placed h1 prev at stop pos bound n true bs marked.chain in
      let both = Placed-trans h h1 (header_combine_forward at h1) prev at stop _ _ marked joined in
      subst (λ a. Placed h prev at stop (merge n true bs) (released a h)) e both

  released-Placed :
      (t : ℕ) (h : Heap W) (bs : Blocks) (prev at : ℕ)
      → 0 < at
      → is_block t at bs ≡ true
      → Chain h.cell prev at stop h.last_header bs
      → Placed h prev at stop (release_in t at bs) (released t h)
  released-Placed t h [] prev at pos b c = cc
  released-Placed t h ((n, f) ∷ []) prev at pos b c = elim (Bool-cases (t == at)) [
    | inl here ↦ rw here (released-here t h n f [] prev at pos here c)
    | inr further ↦ let no_block : false ≡ true = rw further at b in cc
  ]
  released-Placed t h ((n, f) ∷ (m, e) ∷ bs) prev at pos b c = elim (Bool-cases (t == at)) [
    | inl here ↦ rw here (released-here t h n f ((m, e) ∷ bs) prev at pos here c)
    | inr further ↦
        let inside : is_block t (at + 32 + n) ((m, e) ∷ bs) ≡ true = rw further at b in
        rw further (
          Placed-cons h stop prev at n f bs _ m e _ c
            (released-Placed t h ((m, e) ∷ bs) at (at + 32 + n) (omega arith) inside c.4))
  ]

  backward-free :
      (t at : ℕ) (h : Heap W)
      → (h.cell t).last ≡ at
      → 0 < at
      → (h.cell at).free ≡ true
      → header_combine_backward t h ≡ header_combine_forward at h
  unfolding header_combine_backward
  backward-free t at h last pos free =
      let there : (at == null) ≡ false = ground arith in rw (last, there, free)

  backward-taken :
      (t at : ℕ) (h : Heap W)
      → (h.cell t).last ≡ at
      → (h.cell at).free ≡ false
      → header_combine_backward t h ≡ h
  unfolding header_combine_backward
  backward-taken t at h last taken = ground arith

  backward-first : (t : ℕ) (h : Heap W) → (h.cell t).last ≡ null → header_combine_backward t h ≡ h
  unfolding header_combine_backward
  backward-first t h last = rw last

  abbrev JoinIs : ℕ → Heap W → ℕ → ℕ → Blocks → Heap W → Type 0
  JoinIs t h prev at bs g = Placed h prev at stop (join_in t at bs) g

  -- The block right before `t`.
  join-here :
      (t : ℕ) (h : Heap W) (n : ℕ) (f : Bool) (m : ℕ) (e : Bool) (bs : Blocks) (prev at : ℕ)
      → 0 < at
      → (t == at + 32 + n) ≡ true
      → Chain h.cell prev at stop h.last_header ((n, f) ∷ (m, e) ∷ bs)
      → JoinIs t h prev at ((n, f) ∷ (m, e) ∷ bs) (header_combine_backward t h)
  join-here t h n true m e bs prev at pos hit c =
      let eq : t ≡ at + 32 + n = (==_iff t (at + 32 + n)).0 hit in
      let back : header_combine_backward t h ≡ header_combine_forward at h =
        backward-free t at h (ap (λ a. (h.cell a).last) eq ∙ c.4.2) pos c.1 in
      rw hit (
        subst (Placed h prev at stop (merge n true ((m, e) ∷ bs))) (sym back)
          (combine-Placed h prev at stop pos bound n true ((m, e) ∷ bs) c))
  join-here t h n false m e bs prev at pos hit c =
      let eq : t ≡ at + 32 + n = (==_iff t (at + 32 + n)).0 hit in
      let back : header_combine_backward t h ≡ h =
        backward-taken t at h (ap (λ a. (h.cell a).last) eq ∙ c.4.2) c.1 in
      let same : join_in t at ((n, false) ∷ (m, e) ∷ bs) ≡ (n, false) ∷ (m, e) ∷ bs = rw hit (
        ap (λ (r : Blocks). (n, false) ∷ r)
          (join_in-same t ((m, e) ∷ bs) (at + 32 + n) (omega arith))) in
      subst (JoinIs t h prev at ((n, false) ∷ (m, e) ∷ bs)) (sym back)
        (subst (λ r. Placed h prev at stop r h) (sym same) (Placed-refl h prev at stop _ c))

  -- Behind the first block, the block at `t` is joined to a free one before it.
  pub join-Placed :
      (t : ℕ) (h : Heap W) (n : ℕ) (f : Bool) (bs : Blocks) (prev at : ℕ)
      → 0 < at
      → is_block t (at + 32 + n) bs ≡ true
      → Chain h.cell prev at stop h.last_header ((n, f) ∷ bs)
      → JoinIs t h prev at ((n, f) ∷ bs) (header_combine_backward t h)
  join-Placed t h n f [] prev at pos b c = cc
  join-Placed t h n f ((m, e) ∷ bs) prev at pos b c = elim (Bool-cases (t == at + 32 + n)) [
    | inl hit ↦ join-here t h n f m e bs prev at pos hit c
    | inr miss ↦
        let inside : is_block t (at + 32 + n + 32 + m) bs ≡ true = rw miss at b in
        rw miss (
          Placed-cons h stop prev at n f bs _ m e _ c
            (join-Placed t h m e bs at (at + 32 + n) (omega arith) inside c.4))
  ]

  merge-free :
      (t : ℕ) (h : Heap W) (n : ℕ) (bs : Blocks) (at : ℕ)
      → t ≤ at
      → Chain h.cell null at stop h.last_header (merge n true bs)
      → (h.cell at).last ≡ null
  merge-free t h n [] at le c = c.2
  merge-free t h n ((m, true) ∷ bs) at le c = c.2
  merge-free t h n ((m, false) ∷ bs) at le c = c.2

  free-steps :
      (t : ℕ) (h : Heap W) → t < 2 ^ 63 → free (t + 32) h ≡ header_combine_backward t (released t h)
  unfolding free
  free-steps t h low = ap (λ a. header_combine_backward a (released a h)) (omega arith)

  is_block-lt :
      (t : ℕ) (h : Heap W) (bs : Blocks) (prev at : ℕ)
      → is_block t at bs ≡ true
      → Chain h.cell prev at stop h.last_header bs
      → t < 2 ^ 63
  is_block-lt t h [] prev at b c = cc
  is_block-lt t h ((n, f) ∷ bs) prev at b c =
      let le = Chain-le h.cell stop h.last_header ((n, f) ∷ bs) prev at c in
      elim (Bool-cases (t == at)) [
        | inl here ↦ ground arith
        | inr further ↦ is_block-lt t h bs at (at + 32 + n) (rw further at b) c.4
      ]

  -- The first block has no block before it to be joined to.
  free-first :
      (t : ℕ) (h : Heap W) (n : ℕ) (f : Bool) (bs : Blocks) (at : ℕ)
      → 0 < at
      → (t == at) ≡ true
      → Chain h.cell null at stop h.last_header ((n, f) ∷ bs)
      → Placed h null at stop
          (join_in t at (merge n true bs))
          (header_combine_backward t (released t h))
  free-first t h n f bs at pos here c =
      let e : t ≡ at = (==_iff t at).0 here in
      let p = released-here t h n f bs null at pos here c in
      let first : ((released t h).cell t).last ≡ null =
        ap (λ a. ((released t h).cell a).last) e
        ∙ merge-free t (released t h) n bs at (omega arith) p.chain in
      subst (λ r. Placed h null at stop r (header_combine_backward t (released t h)))
        (sym (join_in-same t (merge n true bs) at (omega arith)))
        (subst (Placed h null at stop (merge n true bs))
          (sym (backward-first t (released t h) first)) p)

  -- `free` of the address behind a header, over the whole list.
  pub free-Placed :
      (t : ℕ) (h : Heap W) (bs : Blocks) (at : ℕ)
      → 0 < at
      → is_block t at bs ≡ true
      → Chain h.cell null at stop h.last_header bs
      → Placed h null at stop (free_in t at bs) (free (t + 32) h)
  free-Placed t h [] at pos b c = cc
  free-Placed t h ((n, f) ∷ bs) at pos b c =
      let freed = free-steps t h (is_block-lt t h ((n, f) ∷ bs) null at b c) in
      elim (Bool-cases (t == at)) [
        | inl here ↦
            subst (Placed h null at stop (free_in t at ((n, f) ∷ bs))) (sym freed)
              (rw here (free-first t h n f bs at pos here c))
        | inr further ↦
            let inside : is_block t (at + 32 + n) bs ≡ true = rw further at b in
            let p = released-Placed t h ((n, f) ∷ bs) null at pos b c in
            let chain : Chain (released t h).cell null at stop (released t h).last_header
                ((n, f) ∷ release_in t (at + 32 + n) bs) =
              rw further at p.chain in
            let joined =
              join-Placed t (released t h) n f (release_in t (at + 32 + n) bs) null at pos
                (is_block-release_in t bs (at + 32 + n) inside) chain in
            subst (Placed h null at stop (free_in t at ((n, f) ∷ bs))) (sym freed)
              (rw further (Placed-trans h (released t h) _ null at stop _ _ p joined))
      ]
