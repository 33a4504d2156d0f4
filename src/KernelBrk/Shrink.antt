-- ===== src/KernelBrk/Shrink.antt =====
-- The second loop of `SetKernelBrk` (src/kernel.c): unmapping pages and freeing their frames.
use tiny_kernels.Prelude.{
  ℕ, zero, suc, ◌+◌, ◌-◌, ◌<◌, ◌≤◌, ◌≡◌, ◌≢◌, refl, sym, subst, ◌∙◌, ap, ◌⊎◌, inl, inr, Bool, true,
  false, some, ◌∷◌, arith, length, get_elem?, get_elem?-some, Bool-cases, some_unique, ltb,
}
use mathlib.Core.Option
use tiny_kernels.Prelude.Int.{pos}
use tiny_kernels.Prelude.Run.{ok, Returns, mono, ◌>>◌}
use tiny_kernels.Hardware.{max_pt_len, Pte, invalid_pte, tlb_flush}
use tiny_kernels.Memory.{Memory, modify, release_frame, vpn_in_region0, read_pte, write_register}
use tiny_kernels.Memory.Frames.{
  free_at, used_at, Counted, Released, release_frame-Released, free_frame-ok, used-not-free,
  length-modify,
}
use tiny_kernels.Memory.Tables.{
  get_elem?-modify_self, get_elem?-modify_ne, IsSized, unmap_region0-ok,
}
use tiny_kernels.KernelBrk.{shrink_page, shrink_loop}

-- The valid pages from `cur - k` up to `cur` are mapped to frames in use, no two to the same one.
pub record IsMapped (m : Memory) (k cur : ℕ) : Type 0 where
  pub in_use :
      (j : ℕ) (e : Pte)
      → cur ≤ j + k
      → j < cur
      → get_elem? m.pt_region0 j ≡ some e
      → e.valid ≡ true
      → used_at m.frame_table e.pfn ≡ true
  pub apart :
      (i j : ℕ) (e e' : Pte)
      → cur ≤ i + k
      → i < j
      → j < cur
      → get_elem? m.pt_region0 i ≡ some e
      → get_elem? m.pt_region0 j ≡ some e'
      → e.valid ≡ true
      → e'.valid ≡ true
      → e.pfn ≢ e'.pfn

-- What shrinking over those pages gives.
pub record Shrunk (m : Memory) (k cur : ℕ) (r : Bool) (t : Memory) : Type 0 where
  pub succeeds : r ≡ true
  pub sized : IsSized t
  pub counted : Counted m → Counted t
  pub same_brk : t.kernel_brk_page ≡ m.kernel_brk_page
  pub outside :
      (j : ℕ) → (j + k < cur) ⊎ (cur ≤ j) → get_elem? t.pt_region0 j ≡ get_elem? m.pt_region0 j
  pub gone :
      (j : ℕ)
      → cur ≤ j + k
      → j < cur
      → (e : Pte) × (get_elem? t.pt_region0 j ≡ some e) × (e.valid ≡ false)
  pub freed :
      (j : ℕ) (e : Pte)
      → cur ≤ j + k
      → j < cur
      → get_elem? m.pt_region0 j ≡ some e
      → e.valid ≡ true
      → free_at t.frame_table e.pfn ≡ true
  pub still_free : (f : ℕ) → free_at m.frame_table f ≡ true → free_at t.frame_table f ≡ true
  pub kept :
      (f : ℕ)
      → used_at m.frame_table f ≡ true
      → ((j : ℕ) (e : Pte)
          → cur ≤ j + k
          → j < cur
          → get_elem? m.pt_region0 j ≡ some e
          → e.valid ≡ true
          → e.pfn ≢ f)
      → used_at t.frame_table f ≡ true

-- A page is below the last one of the range or is that one.
last_or_below : (j c : ℕ) → j < suc c → (j < c) ⊎ (j ≡ c)
last_or_below j c h = grind arith

-- A round at an invalid page: nothing changes.
module _ (m t : Memory) (k c : ℕ) (e : Pte) (r : Bool) (at : get_elem? m.pt_region0 c ≡ some e)
    (off : e.valid ≡ false) (s : Shrunk m k c r t) where
  below_last :
      (j : ℕ) (x : Pte) → j < suc c → get_elem? m.pt_region0 j ≡ some x → x.valid ≡ true → j < c
  below_last j x h xat v = elim (last_or_below j c h) [
    | inl lt ↦ lt
    | inr q ↦ absurd (
        let same =
          some_unique (get_elem? m.pt_region0 c)
            (subst (λ y. get_elem? m.pt_region0 y ≡ some x) q xat) at in
        cc (ap (λ (y : Pte). y.valid) same))
  ]

  gone-invalid :
      (j : ℕ)
      → suc c ≤ j + suc k
      → j < suc c
      → (x : Pte) × (get_elem? t.pt_region0 j ≡ some x) × (x.valid ≡ false)
  gone-invalid j lo hi = elim (last_or_below j c hi) [
    | inl lt ↦ s.gone j (omega arith) lt
    | inr q ↦ (e, rw q (s.outside c (inr (omega arith)) ∙ at), off)
  ]

  Shrunk-invalid : Shrunk m (suc k) (suc c) r t
  Shrunk-invalid = record {
    succeeds = s.succeeds;
    sized = s.sized;
    counted = s.counted;
    same_brk = s.same_brk;
    outside = λ j far. s.outside j (ground arith);
    gone = gone-invalid;
    freed = λ j x lo hi xat v. s.freed j x (omega arith) (below_last j x hi xat v) xat v;
    still_free = s.still_free;
    kept = λ f u far. s.kept f u (λ j x lo hi xat v. far j x (omega arith) (omega arith) xat v);
  }

-- The memory when the page is unmapped and the flush of its entry is recorded.
abbrev unmapped : Memory → ℕ → Memory
unmapped m c = record m {
  pt_region0 = modify m.pt_region0 c (λ e. invalid_pte);
  registers = (tlb_flush, pos c) ∷ m.registers;
}

-- A round at a valid page, whose frame is in use.
module _ (m m1 : Memory) (k c : ℕ) (e : Pte) (at : get_elem? m.pt_region0 c ≡ some e)
    (on : e.valid ≡ true) (maps : IsMapped m (suc k) (suc c)) (z : IsSized m)
    (rel : Released (unmapped m c) e.pfn m1) where
  same_below : (j : ℕ) → j ≢ c → get_elem? m1.pt_region0 j ≡ get_elem? m.pt_region0 j
  same_below j ne =
      ap (λ x. get_elem? x j) rel.same_region0
      ∙ get_elem?-modify_ne m.pt_region0 c j (λ _. invalid_pte) (λ q. ne (sym q))

  IsSized-round : IsSized m1
  IsSized-round = record {
    table = ap length rel.same_region0 ∙ length-modify m.pt_region0 c (λ _. invalid_pte) ∙ z.table;
    frames = omega (arith, rel.size, z.frames);
  }

  IsMapped-round : IsMapped m1 k c
  IsMapped-round = record {
    in_use = λ j x lo hi xat v.
        let xat' = sym (same_below j (omega arith)) ∙ xat in
        let ne = maps.apart j c x e (omega arith) hi (omega arith) xat' at v on in
        (rel.others x.pfn (λ q. ne (sym q))).0 ∙ maps.in_use j x (omega arith) (omega arith) xat' v;
    apart = λ i j x y lo lt hi xat yat.
        maps.apart i j x y (omega arith) lt (omega arith) (sym (same_below i (omega arith)) ∙ xat)
          (sym (same_below j (omega arith)) ∙ yat);
  }

  module _ (r : Bool) (t : Memory) (s : Shrunk m1 k c r t) where
    gone-valid :
        (j : ℕ)
        → suc c ≤ j + suc k
        → j < suc c
        → (x : Pte) × (get_elem? t.pt_region0 j ≡ some x) × (x.valid ≡ false)
    gone-valid j lo hi = elim (last_or_below j c hi) [
      | inl lt ↦ s.gone j (omega arith) lt
      | inr q ↦ (
        invalid_pte,
        rw q (
            s.outside c (inr (omega arith))
            ∙ ap (λ x. get_elem? x c) rel.same_region0
            ∙ get_elem?-modify_self m.pt_region0 c (λ _. invalid_pte)
            ∙ ap (Option.map (λ _. invalid_pte)) at),
        refl,
      )
    ]

    freed-valid :
        (j : ℕ) (x : Pte)
        → suc c ≤ j + suc k
        → j < suc c
        → get_elem? m.pt_region0 j ≡ some x
        → x.valid ≡ true
        → free_at t.frame_table x.pfn ≡ true
    freed-valid j x lo hi xat v = elim (last_or_below j c hi) [
      | inl lt ↦ s.freed j x (omega arith) lt (same_below j (omega arith) ∙ xat) v
      | inr q ↦
          let same =
            some_unique (get_elem? m.pt_region0 c)
              (subst (λ y. get_elem? m.pt_region0 y ≡ some x) q xat) at in
          rw (ap (λ (y : Pte). y.pfn) same) (s.still_free e.pfn rel.now_free)
    ]

    still_free-valid : (f : ℕ) → free_at m.frame_table f ≡ true → free_at t.frame_table f ≡ true
    still_free-valid f h =
        let used = maps.in_use c e (omega arith) (omega arith) at on in
        let ne : e.pfn ≢ f = λ q. ground (arith, q, h, used-not-free m.frame_table e.pfn used) in
        s.still_free f ((rel.others f ne).1 ∙ h)

    Shrunk-valid : Shrunk m (suc k) (suc c) r t
    Shrunk-valid = record {
      succeeds = s.succeeds;
      sized = s.sized;
      counted = λ n. s.counted (rel.counted n);
      same_brk = s.same_brk ∙ rel.same_brk;
      outside = λ j far. s.outside j (ground arith) ∙ same_below j (ground arith);
      gone = gone-valid;
      freed = freed-valid;
      still_free = still_free-valid;
      kept = λ f u far.
          s.kept f ((rel.others f (far c e (omega arith) (omega arith) at on)).0 ∙ u)
            (λ j x lo hi xat v.
              far j x (omega arith) (omega arith) (sym (same_below j (omega arith)) ∙ xat) v);
    }

shrink_page-invalid : (c : ℕ) (e : Pte) (m : Memory) → e.valid ≡ false → shrink_page c e m ≡ ok tt m
unfolding shrink_page
shrink_page-invalid c e m off = rw off

shrink_page-valid :
    (c : ℕ) (e : Pte) (m : Memory)
    → e.valid ≡ true
    → c < max_pt_len
    → IsSized m
    → used_at m.frame_table e.pfn ≡ true
    → shrink_page c e m ≡ ok tt (release_frame e.pfn (unmapped m c))
unfolding shrink_page write_register
shrink_page-valid c e m on h z used =
    rw (on, unmap_region0-ok c m h z, free_frame-ok e.pfn (unmapped m c) used)

-- The loop unmaps all its pages and gives back exactly their frames.
pub shrink_loop-Shrunk :
    (k cur : ℕ) (m : Memory)
    → IsSized m
    → k ≤ cur
    → cur ≤ max_pt_len
    → IsMapped m k cur
    → Returns (Shrunk m k cur) (shrink_loop k cur m)
unfolding shrink_loop vpn_in_region0 read_pte
shrink_loop-Shrunk zero cur m z le h maps = record {
  succeeds = refl;
  sized = z;
  counted = λ c. c;
  same_brk = refl;
  outside = λ j far. refl;
  gone = λ j lo hi. absurd (omega arith);
  freed = λ j x lo hi. absurd (omega arith);
  still_free = λ f h. h;
  kept = λ f u far. u;
}
shrink_loop-Shrunk (suc k) zero m z le h maps = absurd (omega arith)
shrink_loop-Shrunk (suc k) (suc c) m z le h maps =
    let p : suc c - 1 ≡ c = omega arith in
    let inside : ltb c max_pt_len ≡ true = ground arith in
    let (e, at) = get_elem?-some m.pt_region0 c (omega (arith, z.table)) in
    rw (p, inside, at) (go e at (Bool-cases e.valid) (shrink_loop-Shrunk k c))
  where
    go :
        (e : Pte)
        → get_elem? m.pt_region0 c ≡ some e
        → (e.valid ≡ true) ⊎ (e.valid ≡ false)
        → ((m' : Memory)
            → IsSized m'
            → k ≤ c
            → c ≤ max_pt_len
            → IsMapped m' k c
            → Returns (Shrunk m' k c) (shrink_loop k c m'))
        → Returns (Shrunk m (suc k) (suc c)) ((shrink_page c e >> shrink_loop k c) m)
    go e at (inl on) ih =
        let used = maps.in_use c e (omega arith) (omega arith) at on in
        let m1 = release_frame e.pfn (unmapped m c) in
        let rel = release_frame-Released (unmapped m c) e.pfn used in
        rw (shrink_page-valid c e m on (omega arith) z used) (
          mono (Shrunk m1 k c) (Shrunk m (suc k) (suc c)) _
            (ih m1 (IsSized-round m m1 k c e at on maps z rel) (omega arith) (omega arith)
              (IsMapped-round m m1 k c e at on maps z rel))
            λ r t s. Shrunk-valid m m1 k c e at on maps z rel r t s)
    go e at (inr off) ih = rw (shrink_page-invalid c e m off) (
        mono (Shrunk m k c) (Shrunk m (suc k) (suc c)) _
          (ih m z (omega arith) (omega arith) (record {
            in_use = λ j x lo hi. maps.in_use j x (omega arith) (omega arith);
            apart = λ i j x y lo lt hi. maps.apart i j x y (omega arith) lt (omega arith);
          }))
          λ r t s. Shrunk-invalid m t k c e r at off s)
