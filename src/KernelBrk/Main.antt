-- ===== src/KernelBrk/Main.antt =====
-- `SetKernelBrk` of src/kernel.c as a whole, on each of its branches.
use tiny_kernels.Prelude.{
  ℕ, zero, ◌+◌, ◌-◌, ◌<◌, ◌≤◌, ◌≡◌, ◌≢◌, refl, ◌⊎◌, inl, inr, Bool, true, false, not, some, leb,
  ◌==◌, if◌then◌else◌, arith, get_elem?, Bool-cases,
}
use tiny_kernels.Prelude.Int.{ℤ, pos, minus_one}
use tiny_kernels.Prelude.Run.{ok, pure, Returns, bind, ◌>>=◌}
use tiny_kernels.Hardware.{max_pt_len, page_of, up_to_page, kstack_start_page, Pte}
use tiny_kernels.Memory.{Memory}
use tiny_kernels.Memory.Frames.{Counted, free_at, used_at}
use tiny_kernels.Memory.Tables.{IsSized}
use tiny_kernels.KernelBrk.{grow_loop, shrink_loop, set_brk_page, move_brk, set_kernel_brk}
use tiny_kernels.KernelBrk.Grow.{Grown, NewPage, grow_loop-Grown}
use tiny_kernels.KernelBrk.Shrink.{IsMapped, Shrunk, shrink_loop-Shrunk}

-- What moving the break from `cur` up to `target` gives: every page between is new and mapped to
-- a frame of its own, or the frames ran out and the break is where it was.
pub record BrkRaised (m : Memory) (target : ℕ) (r : ℤ) (t : Memory) : Type 0 where
  pub sized : IsSized t
  pub counted : Counted m → Counted t
  pub outside :
      (j : ℕ)
      → (j < m.kernel_brk_page) ⊎ (target ≤ j)
      → get_elem? t.pt_region0 j ≡ get_elem? m.pt_region0 j
  pub kept : (f : ℕ) → used_at m.frame_table f ≡ true → used_at t.frame_table f ≡ true
  pub result :
      ((r ≡ pos 0)
        × (t.kernel_brk_page ≡ target)
        × ((j : ℕ) → m.kernel_brk_page ≤ j → j < target → NewPage m t j)
        × ((i j : ℕ) (e e' : Pte)
            → m.kernel_brk_page ≤ i
            → i < j
            → j < target
            → get_elem? t.pt_region0 i ≡ some e
            → get_elem? t.pt_region0 j ≡ some e'
            → e.pfn ≢ e'.pfn))
      ⊎ ((r ≡ minus_one)
          × (t.kernel_brk_page ≡ m.kernel_brk_page)
          × ((f : ℕ) → free_at t.frame_table f ≡ false))

module _ (m : Memory) (target : ℕ) (z : IsSized m) (up : m.kernel_brk_page ≤ target)
    (h : target ≤ max_pt_len) where
  abbrev brk : ℕ
  brk = m.kernel_brk_page

  to_target : brk + (target - brk) ≡ target
  to_target = omega arith

  -- The part of `SetKernelBrk` behind its first loop.
  raise :
      (r : Bool) (t : Memory)
      → Grown m (target - brk) brk r t
      → Returns (BrkRaised m target) (
          (if not r then pure minus_one else (do
            shrunk ← shrink_loop zero brk
            if not shrunk then pure minus_one else set_brk_page target))
            t)
  unfolding shrink_loop set_brk_page
  raise true t g = record {
    sized = record { table = g.sized.table; frames = g.sized.frames };
    counted = g.counted;
    outside = λ j far. g.outside j (ground (arith, to_target));
    kept = g.kept;
    result = inl (
      refl,
      refl,
      λ j lo hi. g.new_pages refl j lo (omega (arith, to_target)),
      λ i j e e' lo lt hi. g.apart refl i j e e' lo lt (omega (arith, to_target)),
    );
  }
  raise false t g = record {
    sized = g.sized;
    counted = g.counted;
    outside = λ j far. g.outside j (ground (arith, to_target));
    kept = g.kept;
    result = inr (refl, g.same_brk, g.exhausted refl);
  }

  move_brk-raised : Returns (BrkRaised m target) (move_brk brk target m)
  unfolding move_brk
  move_brk-raised =
      let none_to_shrink : brk - target ≡ 0 = omega arith in
      bind (Grown m (target - brk) brk) (BrkRaised m target) _ _
        (grow_loop-Grown (target - brk) brk m z (omega (arith, to_target)))
        (rw none_to_shrink raise)

-- What moving the break down to `target` gives: the pages between are gone and exactly their
-- frames are free again. It does not fail.
pub record BrkLowered (m : Memory) (target : ℕ) (r : ℤ) (t : Memory) : Type 0 where
  pub succeeds : r ≡ pos 0
  pub moved : t.kernel_brk_page ≡ target
  pub sized : IsSized t
  pub counted : Counted m → Counted t
  pub outside :
      (j : ℕ)
      → (j < target) ⊎ (m.kernel_brk_page ≤ j)
      → get_elem? t.pt_region0 j ≡ get_elem? m.pt_region0 j
  pub gone :
      (j : ℕ)
      → target ≤ j
      → j < m.kernel_brk_page
      → (e : Pte) × (get_elem? t.pt_region0 j ≡ some e) × (e.valid ≡ false)
  pub freed :
      (j : ℕ) (e : Pte)
      → target ≤ j
      → j < m.kernel_brk_page
      → get_elem? m.pt_region0 j ≡ some e
      → e.valid ≡ true
      → free_at t.frame_table e.pfn ≡ true
  pub kept :
      (f : ℕ)
      → used_at m.frame_table f ≡ true
      → ((j : ℕ) (e : Pte)
          → target ≤ j
          → j < m.kernel_brk_page
          → get_elem? m.pt_region0 j ≡ some e
          → e.valid ≡ true
          → e.pfn ≢ f)
      → used_at t.frame_table f ≡ true

module _ (m : Memory) (target : ℕ) (z : IsSized m) (down : target ≤ m.kernel_brk_page)
    (h : m.kernel_brk_page ≤ max_pt_len)
    (maps : IsMapped m (m.kernel_brk_page - target) m.kernel_brk_page) where
  lower :
      (r : Bool) (t : Memory)
      → Shrunk m (m.kernel_brk_page - target) m.kernel_brk_page r t
      → Returns (BrkLowered m target) ((if not r then pure minus_one else set_brk_page target) t)
  unfolding set_brk_page
  lower false t s = absurd (cc (s.succeeds))
  lower true t s = record {
    succeeds = refl;
    moved = refl;
    sized = record { table = s.sized.table; frames = s.sized.frames };
    counted = s.counted;
    outside = λ j far. s.outside j (ground arith);
    gone = λ j lo hi. s.gone j (omega arith) hi;
    freed = λ j e lo hi. s.freed j e (omega arith) hi;
    kept = λ f u far. s.kept f u (λ j e lo hi. far j e (omega arith) hi);
  }

  move_brk-lowered : Returns (BrkLowered m target) (move_brk m.kernel_brk_page target m)
  unfolding move_brk grow_loop
  move_brk-lowered =
      let none_to_grow : target - m.kernel_brk_page ≡ 0 = omega arith in
      rw none_to_grow (
        bind (Shrunk m (m.kernel_brk_page - target) m.kernel_brk_page) (BrkLowered m target) _ _
          (shrink_loop-Shrunk (m.kernel_brk_page - target) m.kernel_brk_page m z (omega arith) h
            maps)
          lower)

-- The page that `SetKernelBrk` is asked for.
abbrev pub target_page : ℕ → ℕ
target_page addr = page_of (up_to_page addr)

set_kernel_brk-move :
    (addr : ℕ) (m : Memory)
    → addr ≢ 0
    → target_page addr < kstack_start_page
    → set_kernel_brk addr m ≡ move_brk m.kernel_brk_page (target_page addr) m
unfolding set_kernel_brk
set_kernel_brk-move addr m ne small =
    let n0 : (addr == 0) ≡ false = ground arith in
    let below : leb kstack_start_page (target_page addr) ≡ false = ground arith in rw (n0, below)

-- For an address other than NULL whose page is not below the break and is below the kernel stack,
-- with a whole table of region 0 and frame numbers of 24 bits, `SetKernelBrk` returns. Either it
-- returns 0 with the break at that page and every page between mapped, readable and writable, to a
-- frame of its own that was free and is in use, or it returns -1 with the break where it was and
-- no frame free. It keeps the frame counter right where it was right, and changes no page outside
-- and no frame that was in use.
pub set_kernel_brk-BrkRaised :
    (addr : ℕ) (m : Memory)
    → IsSized m
    → addr ≢ 0
    → target_page addr < kstack_start_page
    → m.kernel_brk_page ≤ target_page addr
    → Returns (BrkRaised m (target_page addr)) (set_kernel_brk addr m)
set_kernel_brk-BrkRaised addr m z ne small up =
    rw (set_kernel_brk-move addr m ne small)
      (move_brk-raised m (target_page addr) z up (omega arith))

-- For an address other than NULL whose page is not above the break, with a break below the kernel
-- stack, a whole table of region 0, frame numbers of 24 bits, and the valid pages between mapped
-- to frames in use, each to its own, `SetKernelBrk` returns 0 with the break at that page, those
-- pages invalid, and their frames free. It keeps the frame counter right where it was right, and
-- changes no page outside and no other frame in use.
pub set_kernel_brk-BrkLowered :
    (addr : ℕ) (m : Memory)
    → IsSized m
    → addr ≢ 0
    → target_page addr ≤ m.kernel_brk_page
    → m.kernel_brk_page < kstack_start_page
    → IsMapped m (m.kernel_brk_page - target_page addr) m.kernel_brk_page
    → Returns (BrkLowered m (target_page addr)) (set_kernel_brk addr m)
set_kernel_brk-BrkLowered addr m z ne down small maps =
    rw (set_kernel_brk-move addr m ne (omega arith))
      (move_brk-lowered m (target_page addr) z down (omega arith) maps)

-- `SetKernelBrk` of NULL, or of an address whose page is that of the kernel stack or above,
-- returns -1 and changes nothing.
pub set_kernel_brk_refused :
    (addr : ℕ) (m : Memory)
    → (addr ≡ 0) ⊎ (kstack_start_page ≤ target_page addr)
    → set_kernel_brk addr m ≡ ok minus_one m
unfolding set_kernel_brk
set_kernel_brk_refused addr m (inl e) = rw e
set_kernel_brk_refused addr m (inr h) = elim (Bool-cases (addr == 0)) [
  | inl e ↦ rw e
  | inr ne ↦
      let above : leb kstack_start_page (target_page addr) ≡ true = ground arith in rw (ne, above)
]
