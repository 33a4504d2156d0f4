-- ===== src/KernelBrk/Grow.antt =====
-- The first loop of `SetKernelBrk` (src/kernel.c): mapping new pages.
use tiny_kernels.Prelude.{
  ℕ, zero, suc, ◌+◌, ◌<◌, ◌≤◌, ◌^◌, ◌≡◌, ◌≢◌, refl, sym, subst, ◌∙◌, ap, ◌⊎◌, inl, inr, Bool, true,
  false, some, arith, length, get_elem?, some_unique, if◌then◌else◌,
}
use tiny_kernels.Prelude.Int.{ℤ, pos, minus_one, eq_ℤ}
use tiny_kernels.Prelude.Run.{pure, ◌>>◌, Returns, mono, bind}
use tiny_kernels.Hardware.{max_pt_len, prot_read_write, Pte}
use tiny_kernels.Memory.{Memory, frame_kernel, mapped, map_region0}
use tiny_kernels.Memory.Frames.{
  free_at, used_at, Counted, Taken, Allocated, alloc_frame-Allocated, used-not-free, free-lt-length,
}
use tiny_kernels.Memory.Tables.{get_elem?-modify_ne, modified, IsSized, with_page, map_region0-ok}
use tiny_kernels.Memory.Frames.{length-modify}
use tiny_kernels.KernelBrk.{grow_loop}

-- The page is mapped, readable and writable, to a frame that was free in `m` and is in use in `t`.
abbrev pub NewPage : Memory → Memory → ℕ → Type 0
NewPage m t j =
    (e : Pte) × (get_elem? t.pt_region0 j ≡ some e)
    × (e.valid ≡ true)
    × (e.prot ≡ prot_read_write)
    × (free_at m.frame_table e.pfn ≡ true)
    × (used_at t.frame_table e.pfn ≡ true)

-- What growing over the `k` pages from `cur` gives.
pub record Grown (m : Memory) (k cur : ℕ) (r : Bool) (t : Memory) : Type 0 where
  pub sized : IsSized t
  pub counted : Counted m → Counted t
  pub kept : (j : ℕ) → used_at m.frame_table j ≡ true → used_at t.frame_table j ≡ true
  pub outside :
      (j : ℕ) → (j < cur) ⊎ (cur + k ≤ j) → get_elem? t.pt_region0 j ≡ get_elem? m.pt_region0 j
  pub new_pages : r ≡ true → (j : ℕ) → cur ≤ j → j < cur + k → NewPage m t j
  pub apart :
      r ≡ true
      → (i j : ℕ) (e e' : Pte) → cur ≤ i
      → i < j
      → j < cur + k
      → get_elem? t.pt_region0 i ≡ some e
      → get_elem? t.pt_region0 j ≡ some e'
      → e.pfn ≢ e'.pfn
  pub same_brk : t.kernel_brk_page ≡ m.kernel_brk_page
  pub exhausted : r ≡ false → (j : ℕ) → free_at t.frame_table j ≡ false

nat_cases : (a b : ℕ) → a ≤ b → (a ≡ b) ⊎ (a + 1 ≤ b)
nat_cases a b h = grind arith

module _ (m m1 : Memory) (k cur i : ℕ) (taken : Taken m i m1) (small : i < 2 ^ 24)
    (in_table : cur < length m1.pt_region0) where
  m2 : Memory
  m2 = with_page m1 cur i

  -- A frame that is free after the round was free before it, and is not the new page's.
  free_before :
      (f : ℕ) → free_at m2.frame_table f ≡ true → (free_at m.frame_table f ≡ true) × (i ≢ f)
  unfolding m2
  free_before f h =
      let ne : i ≢ f =
        λ e. ground (arith, e, taken.in_use, used-not-free m1.frame_table i taken.in_use) in
      (ground (arith, taken.others f ne), ne)

  used_after : (f : ℕ) → used_at m.frame_table f ≡ true → used_at m2.frame_table f ≡ true
  unfolding m2
  used_after f h =
      let ne : i ≢ f = λ e. ground (arith, e, taken.was_free, used-not-free m.frame_table f h) in
      ground (arith, taken.others f ne)

  module _ (r : Bool) (t : Memory) (g : Grown m2 k (cur + 1) r t) where
    first_page :
        (e : Pte) × (get_elem? t.pt_region0 cur ≡ some e)
        × (e.valid ≡ true)
        × (e.prot ≡ prot_read_write)
        × (e.pfn ≡ i)
    unfolding m2
    first_page =
        let (e, at) = modified m1.pt_region0 cur (mapped (pos i) prot_read_write) in_table in
        (_, g.outside cur (inl (omega arith)) ∙ at, refl, refl, omega arith)

    first-NewPage : NewPage m t cur
    unfolding m2
    first-NewPage =
        let (e, at, v, p, f) = first_page in
        (e, at, v, p, rw f taken.was_free, rw f (g.kept i taken.in_use))

    later-NewPage : (j : ℕ) → NewPage m2 t j → NewPage m t j
    later-NewPage j (e, at, v, p, f, u) = (e, at, v, p, (free_before e.pfn f).0, u)

    outside-suc :
        (j : ℕ)
        → (j < cur) ⊎ (cur + suc k ≤ j)
        → get_elem? t.pt_region0 j ≡ get_elem? m.pt_region0 j
    unfolding m2
    outside-suc j far =
        g.outside j (ground arith)
        ∙ get_elem?-modify_ne m1.pt_region0 cur j (mapped (pos i) prot_read_write) (ground arith)
        ∙ ap (λ x. get_elem? x j) taken.same_region0

    new_pages-suc : r ≡ true → (j : ℕ) → cur ≤ j → j < cur + suc k → NewPage m t j
    new_pages-suc e j lo hi = elim (nat_cases cur j lo) [
      | inl here ↦ subst (NewPage m t) here first-NewPage
      | inr past ↦ later-NewPage j (g.new_pages e j past (omega arith))
    ]

    apart-suc :
        r ≡ true
        → (a j : ℕ) (e e' : Pte) → cur ≤ a
        → a < j
        → j < cur + suc k
        → get_elem? t.pt_region0 a ≡ some e
        → get_elem? t.pt_region0 j ≡ some e'
        → e.pfn ≢ e'.pfn
    apart-suc done a j e e' lo lt hi at at' same = elim (nat_cases cur a lo) [
      | inl here ↦
          let (x, xat, _, _, xf) = first_page in
          let (y, yat, _, _, yf, _) = g.new_pages done j (omega arith) (omega arith) in
          let ex : x ≡ e =
            some_unique (get_elem? t.pt_region0 a)
              (subst (λ c. get_elem? t.pt_region0 c ≡ some x) here xat) at in
          let ey : y ≡ e' = some_unique (get_elem? t.pt_region0 j) yat at' in
          (free_before y.pfn yf).1
            (sym xf ∙ ap (λ (z : Pte). z.pfn) ex ∙ same ∙ ap (λ (z : Pte). z.pfn) (sym ey))
      | inr past ↦ g.apart done a j e e' past lt (omega arith) at at' same
    ]

    Grown-suc : Grown m (suc k) cur r t
    unfolding m2
    Grown-suc = record {
      sized = g.sized;
      counted = λ c. g.counted (taken.counted c).0;
      kept = λ j h. g.kept j (used_after j h);
      outside = outside-suc;
      new_pages = new_pages-suc;
      apart = apart-suc;
      exhausted = g.exhausted;
      same_brk = g.same_brk ∙ taken.same_brk;
    }

-- The loop grows over all its pages, or runs out of frames; the kernel break stays.
pub grow_loop-Grown :
    (k cur : ℕ) (m : Memory)
    → IsSized m
    → cur + k ≤ max_pt_len
    → Returns (Grown m k cur) (grow_loop k cur m)
unfolding m2 grow_loop
grow_loop-Grown zero cur m z h = record {
  sized = z;
  counted = λ c. c;
  kept = λ j u. u;
  outside = λ j far. refl;
  new_pages = λ _ j lo hi. absurd (omega arith);
  apart = λ _ i j e e' lo lt hi. absurd (omega arith);
  same_brk = refl;
  exhausted = λ e. cc;
}
grow_loop-Grown (suc k) cur m z h =
    bind (Allocated m) (Grown m (suc k) cur) _ _
      (alloc_frame-Allocated frame_kernel minus_one m refl)
      (λ r m1 got. next r m1 got (grow_loop-Grown k (cur + 1)))
  where
    sized_after : (i : ℕ) (m1 : Memory) → Taken m i m1 → IsSized m1
    sized_after i m1 taken = record {
      table = ap length taken.same_region0 ∙ z.table;
      frames = omega (arith, z.frames, taken.size);
    }

    sized_page : (i : ℕ) (m1 : Memory) → IsSized m1 → IsSized (with_page m1 cur i)
    sized_page i m1 z1 = record {
      table = length-modify m1.pt_region0 cur (mapped (pos i) prot_read_write) ∙ z1.table;
      frames = z1.frames;
    }

    next :
        (r : ℤ) (m1 : Memory)
        → Allocated m r m1
        → ((m' : Memory)
            → IsSized m'
            → cur + 1 + k ≤ max_pt_len
            → Returns (Grown m' k (cur + 1)) (grow_loop k (cur + 1) m'))
        → Returns (Grown m (suc k) cur) (
            (if eq_ℤ r minus_one then pure false else (do map_region0 cur r; grow_loop k (cur + 1)))
              m1)
    next r m1 (inl (i, e, taken, _)) ih =
        rw (e, map_region0-ok cur i m1 (omega arith) (sized_after i m1 taken))
          (mono (Grown (with_page m1 cur i) k (cur + 1)) (Grown m (suc k) cur) _
            (ih (with_page m1 cur i) (sized_page i m1 (sized_after i m1 taken)) (omega arith))
            λ r t g.
              Grown-suc m m1 k cur i taken
                (omega (arith, z.frames, free-lt-length m.frame_table i taken.was_free))
                (omega (arith, (sized_after i m1 taken).table)) r t g)
    next r m1 (inr (e, same, none_free)) ih =
        rw (e, same)
          record {
            sized = z;
            counted = λ c. c;
            kept = λ j u. u;
            outside = λ j far. refl;
            new_pages = λ e. cc;
            apart = λ e. cc;
            same_brk = refl;
            exhausted = λ _. none_free;
          }
