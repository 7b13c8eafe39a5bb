-- ===== src/Calls/Frame.antt =====
-- What a process finds after it got the frame buffer.
use fenestella.Prelude.{
  ℕ, zero, suc, ◌+◌, ◌-◌, ◌*◌, ◌%◌, ◌^◌, ◌<◌, ◌≤◌, bit_and, bit_or, true, false, some, ◌≡◌, ◌≢◌,
  refl, subst, ◌∙◌, ap, arith, ◌==◌, leb, inl, inr, ==_iff, Bool-cases,
}
use fenestella.Paging.Desc.{address_mask, flags_user_page, indexer_assign}
use fenestella.Paging.Table.{Space, map_page, walk_page, load_pml4}
use fenestella.Paging.Table.Keep.{IsRoute, Avoids, Avoids-top, same_cell}
use fenestella.Paging.Table.Translate.{walk_page-map_page, map_page-pml4, map_page-IsRoute}
use fenestella.Calls.{
  FrameBuffer, Display, framebuffer_size, virtual_offset, no_holder, map_frame, fb_req,
}
use fenestella.Calls.Map.{load_pml4_self, load_pml4_twice, load_pml4-pml4}

-- Page `k` of the frame buffer: its address and its frame.
abbrev pub page : FrameBuffer → ℕ → ℕ
page fb k = (fb.frame_addr + k * 0x1000) % 2 ^ 64

abbrev pub frame : FrameBuffer → ℕ → ℕ
frame fb k = (fb.frame_addr + 2 ^ 64 - virtual_offset + k * 0x1000) % 2 ^ 64

abbrev pub last_index : FrameBuffer → ℕ → ℕ
last_index fb k = (indexer_assign (page fb k)).pml1

-- The tables lead to each of the first `n` pages, to a last entry of its own that is not read on
-- the way to any of them.
pub record IsLaidOut {A : Type 0} (s : Space A) (fb : FrameBuffer) (n : ℕ) (pdp pd pt : ℕ → ℕ)
    : Type 0 where
  pub route : (k : ℕ) → k < n → IsRoute s (page fb k) (pdp k) (pd k) (pt k)
  pub avoids :
      (j k : ℕ) → j < n → k < n → Avoids s (page fb k) (pdp k) (pd k) (pt j) (last_index fb j)
  pub apart :
      (j k : ℕ)
      → j < n
      → k < n
      → j ≢ k
      → same_cell (pt j) (last_index fb j) (pt k) (last_index fb k) ≡ false

-- The pages from `k` on are mapped, those before are as they were.
pub record Shown {A : Type 0} (fb : FrameBuffer) (n k : ℕ) (s t : Space A) : Type 0 where
  pub top : t.pml4 ≡ s.pml4
  pub kept : t.pmm ≡ s.pmm
  pub before : (j : ℕ) → j < k → j < n → walk_page t (page fb j) ≡ walk_page s (page fb j)
  pub shown :
      (j : ℕ)
      → k ≤ j
      → j < n
      → walk_page t (page fb j)
        ≡ bit_or (walk_page s (page fb j)) (bit_and (frame fb j) address_mask)

module _ {A : Type 0} (alloc_page : A → ℕ × A) (fuel : ℕ) (fb : FrameBuffer) (n : ℕ)
    (pdp pd pt : ℕ → ℕ) where
  IsLaidOut-map_page :
      (k : ℕ) (s s' : Space A)
      → k < n
      → IsLaidOut s fb n pdp pd pt
      → map_page alloc_page (suc fuel) (page fb k) (frame fb k) flags_user_page s
        ≡ some (page fb k, s')
      → (s'.pml4 ≡ s.pml4) × IsLaidOut s' fb n pdp pd pt
  IsLaidOut-map_page k s s' here laid e =
      let r = laid.route k here in
      let top = map_page-pml4 alloc_page s r (frame fb k) flags_user_page fuel s' e in
      (
        top,
        record {
          route = λ j below.
              map_page-IsRoute alloc_page s r (frame fb k) flags_user_page fuel s' e
                (laid.route j below) (laid.avoids k j here below);
          avoids = λ i j h h'. Avoids-top top (laid.avoids i j h h');
          apart = laid.apart;
        },
      )

  map_frame-step :
      (k steps : ℕ) (s s' : Space A)
      → k * 0x1000 < framebuffer_size fb
      → framebuffer_size fb < 2 ^ 32
      → map_page alloc_page (suc fuel) (page fb k) (frame fb k) flags_user_page s
        ≡ some (page fb k, s')
      → map_frame alloc_page (suc fuel) (suc steps) fb (k * 0x1000) s
        ≡ map_frame alloc_page (suc fuel) steps fb ((k + 1) * 0x1000) s'
  unfolding map_frame
  map_frame-step k steps s s' more bound e =
      let going : leb (framebuffer_size fb) (k * 0x1000) ≡ false = ground arith in
      let next : (k * 0x1000 + 0x1000) % 2 ^ 64 ≡ (k + 1) * 0x1000 = omega (arith, more, bound) in
      rw (going, e, next) refl

  map_frame-end :
      (k steps : ℕ) (s : Space A)
      → framebuffer_size fb ≤ k * 0x1000
      → map_frame alloc_page (suc fuel) (suc steps) fb (k * 0x1000) s ≡ some s
  unfolding map_frame
  map_frame-end k steps s over =
      let done : leb (framebuffer_size fb) (k * 0x1000) ≡ true = ground arith in rw done refl

  map_frame-Shown :
      (m k steps : ℕ) (s : Space A)
      → k + m ≡ n
      → m < steps
      → framebuffer_size fb ≤ n * 0x1000
      → n * 0x1000 < framebuffer_size fb + 0x1000
      → framebuffer_size fb < 2 ^ 32
      → IsLaidOut s fb n pdp pd pt
      → (t : Space A) × (map_frame alloc_page (suc fuel) steps fb (k * 0x1000) s ≡ some t)
        × Shown fb n k s t
  map_frame-Shown m k zero s e enough all last bound laid = absurd (omega arith)
  map_frame-Shown zero k (suc steps) s e enough all last bound laid = (
    s,
    map_frame-end k steps s (omega arith),
    record {
      top = refl;
      kept = refl;
      before = λ j h h'. refl;
      shown = λ j h h'. absurd (omega arith);
    },
  )
  map_frame-Shown (suc m) k (suc steps) s e enough all last bound laid =
      let here : k < n = omega arith in
      let (s', mapped, kept, found, others) =
        walk_page-map_page alloc_page s (laid.route k here) (frame fb k) flags_user_page
          (laid.avoids k k here here) fuel in
      let (top, laid') = IsLaidOut-map_page k s s' here laid mapped in
      let other : (j : ℕ) → j < n → k ≢ j → walk_page s' (page fb j) ≡ walk_page s (page fb j) =
        λ j below differ.
          others (page fb j) (pdp j) (pd j) (pt j) (laid.route j below) (laid.avoids k j here below)
            (laid.apart k j here below differ) in
      let (t, rest, after) =
        map_frame-Shown m (k + 1) steps s' (omega arith) (omega arith) all last bound laid' in
      (
        t,
        map_frame-step k steps s s' (omega arith) bound mapped ∙ rest,
        record {
          top = after.top ∙ top;
          kept = after.kept ∙ kept;
          before =
              λ j h h'. after.before j (omega arith) h' ∙ other j h' (λ same. absurd (omega arith));
          shown = λ j h h'. elim (Bool-cases (k == j)) [
            | inl same ↦
                let at : k ≡ j = (==_iff k j).0 same in
                subst
                  (λ i.
                    walk_page t (page fb i)
                    ≡ bit_or (walk_page s (page fb i)) (bit_and (frame fb i) address_mask))
                  at (after.before k (omega arith) here ∙ found)
            | inr differ ↦
                after.shown j (ground arith) h'
                ∙ ap (λ x. bit_or x (bit_and (frame fb j) address_mask)) (other j h' (ground arith))
          ];
        },
      )

  module _ (pid cr3 steps : ℕ) (d : Display A) where
    fb_req-map_frame :
        (t : Space A)
        → d.holder ≡ no_holder
        → map_frame alloc_page (suc fuel) steps fb 0 (load_pml4 cr3 d.space) ≡ some t
        → fb_req alloc_page (suc fuel) steps fb pid cr3 d
          ≡ some (fb.frame_addr, record { holder = pid; space = load_pml4 d.space.pml4 t })
    unfolding fb_req
    fb_req-map_frame t free e =
        let nobody : (d.holder == no_holder) ≡ true = ground arith in rw (fb_req, nobody, e) refl

    -- Where no process holds the frame buffer and the tables of a process with a valid id are laid
    -- out for its `n` pages, `fb_req` ends and returns the address of the frame buffer to that
    -- process, which holds it then; the register and the allocator are as before, each page of the
    -- frame buffer leads to its frame, joined digit by digit with what was there before, and from
    -- then on `fb_req` of any process returns 0 and changes nothing.
    pub fb_req-holder :
        d.holder ≡ no_holder
        → pid ≢ no_holder
        → framebuffer_size fb ≤ n * 0x1000
        → n * 0x1000 < framebuffer_size fb + 0x1000
        → n < steps
        → IsLaidOut (load_pml4 cr3 d.space) fb n pdp pd pt
        → (g : Display A) × (fb_req alloc_page (suc fuel) steps fb pid cr3 d
            ≡ some (fb.frame_addr, g))
          × (g.holder ≡ pid)
          × (g.space.pml4 ≡ d.space.pml4)
          × (g.space.pmm ≡ d.space.pmm)
          × ((k : ℕ)
              → k < n
              → walk_page (load_pml4 cr3 g.space) (page fb k)
                ≡ bit_or
                    (walk_page (load_pml4 cr3 d.space) (page fb k))
                    (bit_and (frame fb k) address_mask))
          × ((pid' cr3' steps' : ℕ)
              → fb_req alloc_page (suc fuel) steps' fb pid' cr3' g ≡ some (0, g))
    unfolding fb_req load_pml4 framebuffer_size
    fb_req-holder free valid all last enough laid =
        let (t, e, after) =
          map_frame-Shown n 0 steps (load_pml4 cr3 d.space) (omega arith) enough all last
            (omega arith) laid in
        let back : load_pml4 cr3 (load_pml4 d.space.pml4 t) ≡ t =
          load_pml4_twice t cr3 d.space.pml4
          ∙ load_pml4_self t cr3 (after.top ∙ load_pml4-pml4 d.space cr3) in
        let taken : (pid == no_holder) ≡ false = ground arith in
        (
          record { holder = pid; space = load_pml4 d.space.pml4 t },
          fb_req-map_frame t free e,
          refl,
          refl,
          after.kept,
          λ k below. ap (λ u. walk_page u (page fb k)) back ∙ after.shown k (omega arith) below,
          λ pid' cr3' steps'. rw taken refl,
        )
