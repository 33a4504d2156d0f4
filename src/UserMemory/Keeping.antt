-- ===== src/UserMemory/Keeping.antt =====
-- Frames in use through the operations of src/mem.c: they stay in use and keep their content.
use tiny_kernels.Prelude.{
  ℕ, ◌≡◌, refl, sym, ap, ◌∙◌, inl, inr, true, false, arith, ◌==◌, length, Bool-cases, subst,
}
use tiny_kernels.Prelude.{inl, inr, ◌<◌}
use tiny_kernels.Prelude.Int.{ℤ, pos}
use tiny_kernels.Prelude.Run.{ok, outcome}
use tiny_kernels.Prelude.{List}
use tiny_kernels.Hardware.{Register}
use tiny_kernels.Memory.{FrameUsage, is_free, alloc_frame}
use tiny_kernels.Memory.Frames.{Allocated, alloc_frame-Allocated, count_free-none}
use tiny_kernels.Memory.{Memory}
use tiny_kernels.Memory.Frames.{free_at, used_at, Counted, count_free, Taken}
use tiny_kernels.Memory.Tables.{IsSized, Cloned}
use tiny_kernels.UserMemory.Pages.{Taken-used, free-not-used}

-- Frames in use stay in use and keep their content, and the memory stays in order.
pub record FramesKept (m t : Memory) : Type 0 where
  pub counted : Counted m → Counted t
  pub sized : IsSized m → IsSized t
  pub in_use :
      (f : ℕ)
      → used_at m.frame_table f ≡ true
      → (used_at t.frame_table f ≡ true) × (t.contents f ≡ m.contents f)

pub FramesKept-refl : (m : Memory) → FramesKept m m
FramesKept-refl m = record { counted = λ h. h; sized = λ h. h; in_use = λ f h. (h, refl) }

pub FramesKept-trans : (m s t : Memory) → FramesKept m s → FramesKept s t → FramesKept m t
FramesKept-trans m s t a b = record {
  counted = λ h. b.counted (a.counted h);
  sized = λ h. b.sized (a.sized h);
  in_use = λ f h.
      let (h1, same1) = a.in_use f h in let (h2, same2) = b.in_use f h1 in (h2, same2 ∙ same1);
}

pub Taken-FramesKept : (m t : Memory) (f : ℕ) → Taken m f t → FramesKept m t
Taken-FramesKept m t f taken = record {
  counted = λ h. let (h1, _) = taken.counted h in h1;
  sized = λ z. record {
    table = ap length taken.same_region0 ∙ z.table;
    frames = omega (arith, taken.size, z.frames);
  };
  in_use = λ g u. (ground (arith, u, Taken-used m t f taken g), ap (λ h. h g) taken.same_contents);
}

pub FramesKept-registers :
    (m t : Memory) (l : List (Register × ℤ))
    → FramesKept m t
    → FramesKept m (record t { registers = l })
FramesKept-registers m t l kept = record {
  counted = kept.counted;
  sized = λ z. let y = kept.sized z in record { table = y.table; frames = y.frames };
  in_use = kept.in_use;
}

-- A copy to a frame that was free at the start.
pub Cloned-FramesKept :
    (m s t : Memory) (src dst : ℕ)
    → FramesKept m s
    → free_at m.frame_table dst ≡ true
    → Cloned src dst s t
    → FramesKept m t
Cloned-FramesKept m s t src dst kept was (same, table, count, len, _) = record {
  counted = λ h. count ∙ kept.counted h ∙ ap count_free (sym table);
  sized = λ z. let y = kept.sized z in record { table = len ∙ y.table; frames = rw table y.frames };
  in_use = λ g u.
      let (u1, same1) = kept.in_use g u in
      let gone : used_at m.frame_table dst ≡ false = free-not-used m.frame_table dst was in
      let test : (g == dst) ≡ false = elim (Bool-cases (g == dst)) [
        | inl q ↦
            let z : g ≡ dst = ground arith in
            absurd (ground (arith, subst (λ x. used_at m.frame_table x ≡ true) z u, gone))
        | inr q ↦ q
      ] in
      (rw table u1, same g ∙ rw test same1);
}

-- Where a frame is free, `allocFrame` takes one.
pub alloc_room :
    (u : FrameUsage) (pid : ℤ) (m : Memory)
    → is_free u ≡ false
    → Counted m
    → 0 < m.free_nframes
    → (i : ℕ) × (t : Memory) × (alloc_frame u pid m ≡ ok (pos i) t) × Taken m i t
alloc_room u pid m used counted room =
    let (r, t, e, h) =
      outcome (Allocated m) (alloc_frame u pid m) (alloc_frame-Allocated u pid m used) in
    elim h [
      | inl (i, is, taken, _) ↦ (i, t, e ∙ ap (λ x. ok x t) is, taken)
      | inr (is, same, nothing) ↦
          absurd (omega (arith, count_free-none m.frame_table nothing, counted))
    ]
