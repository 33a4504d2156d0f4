-- ===== src/Creation/KernelStacks.antt =====
-- The kernel stack of a new process: its frames, and the copy that KCCopy (src/kernel.c) makes.
use tiny_kernels.Prelude.{
  ℕ, ◌+◌, ◌<◌, ◌≤◌, ◌%◌, ◌^◌, ◌≡◌, ◌≢◌, refl, sym, ap, ◌∙◌, true, false, none, some, List, [], ◌∷◌,
  arith, ◌==◌, subst,
}
use tiny_kernels.Prelude.Int.{pos, negsuc, minus_one}
use tiny_kernels.Prelude.Run.{ok, outcome}
use tiny_kernels.Hardware.{Pte, tlb_flush}
use tiny_kernels.Memory.{Memory, frame_kernel, clone_frame}
use tiny_kernels.Memory.Frames.{free_at, used_at, Counted, Taken, used-lt-length, free-lt-length}
use tiny_kernels.Memory.Tables.{IsSized, Cloned, clone_frame-Cloned}
use tiny_kernels.UserMemory.Keeping.{
  FramesKept, FramesKept-trans, Taken-FramesKept, Cloned-FramesKept, alloc_room,
}
use tiny_kernels.UserMemory.Pages.{Taken-free, Taken-used, free-not-used}
use tiny_kernels.Kernel.{Ptr, null, Pcb, Kernel, KernelContext}
use tiny_kernels.Kernel.Scheduling.{HasMemory, with_pcb, load-ok, update-ok, write_pcb-if}
use tiny_kernels.Kernel.Switching.{on_memory-ok, register-ok}
use tiny_kernels.Creation.{
  stack_pte, kstack_frames, copy_kstack, initialize_kernel_stack_process, child_kstack, kc_copy,
}

-- Two frames that were free hold the kernel stack, a copy of the pages `e` and `e'`.
pub record StackCopied (m : Memory) (e e' : Pte) (f g : ℕ) (t : Memory) : Type 0 where
  pub kept : FramesKept m t
  pub first_free : free_at m.frame_table f ≡ true
  pub second_free : free_at m.frame_table g ≡ true
  pub apart : f ≢ g
  pub first_used : used_at t.frame_table f ≡ true
  pub second_used : used_at t.frame_table g ≡ true
  pub first_content : t.contents f ≡ m.contents e.pfn
  pub second_content : t.contents g ≡ m.contents e'.pfn

kstack_frames-two :
    (m : Memory)
    → Counted m
    → 2 ≤ m.free_nframes
    → (f g : ℕ) × (m1 m2 : Memory) × (kstack_frames 2 m
        ≡ ok (stack_pte (pos f) ∷ stack_pte (pos g) ∷ []) m2)
      × Taken m f m1
      × Taken m1 g m2
unfolding kstack_frames
kstack_frames-two m counted room =
    let (f, m1, eq, taken) = alloc_room frame_kernel minus_one m refl counted (omega arith) in
    let (counted1, less) = taken.counted counted in
    let (g, m2, eq2, taken2) = alloc_room frame_kernel minus_one m1 refl counted1 (omega arith) in
    (f, g, m1, m2, rw (eq, eq2) refl, taken, taken2)

-- A frame that is taken, or copied to, has a number of 24 bits.
small : (f : ℕ) → f < 2 ^ 24 → f % 2 ^ 24 ≡ f
small f h = omega arith

-- The two frames and the two copies, one after the other.
module _ (m m1 m2 m3 m4 : Memory) (e e' : Pte) (f g : ℕ) (used : used_at m.frame_table e.pfn ≡ true)
    (used' : used_at m.frame_table e'.pfn ≡ true) (taken : Taken m f m1) (taken2 : Taken m1 g m2)
    (cloned : Cloned e.pfn f m2 m3) (cloned2 : Cloned e'.pfn g m3 m4) where
  differ : f ≢ g
  differ z =
      let h = subst (λ x. free_at m1.frame_table x ≡ true) (sym z) taken2.was_free in
      ground (arith, free-not-used m1.frame_table f h, taken.in_use)

  second_was_free : free_at m.frame_table g ≡ true
  second_was_free = ground (arith, Taken-free m m1 f taken g, taken2.was_free)

  kept_by_first : FramesKept m m3
  kept_by_first =
      Cloned-FramesKept m m2 m3 e.pfn f
        (FramesKept-trans m m1 m2 (Taken-FramesKept m m1 f taken) (Taken-FramesKept m1 m2 g taken2))
        taken.was_free cloned

  copied_first : m4.contents f ≡ m.contents e.pfn
  copied_first =
      let (same, _, _, _, _) = cloned in
      let (same2, _, _, _, _) = cloned2 in
      let here : (f == f) ≡ true = ground arith in
      let far : (f == g) ≡ false = ground (arith, differ) in
      let last : m4.contents f ≡ m3.contents f = same2 f ∙ rw far refl in
      let first : m3.contents f ≡ m2.contents e.pfn = same f ∙ rw here refl in
      last ∙ first ∙ ap (λ h. h e.pfn) (taken2.same_contents ∙ taken.same_contents)

  copied_second : m4.contents g ≡ m.contents e'.pfn
  copied_second =
      let (same2, _, _, _, _) = cloned2 in
      let here : (g == g) ≡ true = ground arith in
      same2 g ∙ rw here (kept_by_first.in_use e'.pfn used').1

  pub two_copies : StackCopied m e e' f g m4
  two_copies =
      let (_, table, _, _, _) = cloned in
      let (_, table2, _, _, _) = cloned2 in
      let both : m4.frame_table ≡ m2.frame_table = table2 ∙ table in
      record {
        kept = Cloned-FramesKept m m3 m4 e'.pfn g kept_by_first second_was_free cloned2;
        first_free = taken.was_free;
        second_free = second_was_free;
        apart = differ;
        first_used = rw both (ground (arith, taken.in_use, Taken-used m1 m2 g taken2 f));
        second_used = rw both taken2.in_use;
        first_content = copied_first;
        second_content = copied_second;
      }

module _ (m : Memory) (e e' : Pte) (sized : IsSized m) (counted : Counted m)
    (room : 2 ≤ m.free_nframes) (used : used_at m.frame_table e.pfn ≡ true)
    (used' : used_at m.frame_table e'.pfn ≡ true) where
  pub kernel_stack-StackCopied :
      (f g : ℕ) × (s t : Memory) × (kstack_frames 2 m
        ≡ ok (stack_pte (pos f) ∷ stack_pte (pos g) ∷ []) s)
      × (copy_kstack 2 0 (e ∷ e' ∷ []) (stack_pte (pos f) ∷ stack_pte (pos g) ∷ []) s ≡ ok tt t)
      × StackCopied m e e' f g t
  unfolding copy_kstack
  kernel_stack-StackCopied =
      let (f, g, m1, m2, eq, taken, taken2) = kstack_frames-two m counted room in
      let k1 = Taken-FramesKept m m1 f taken in
      let k2 = FramesKept-trans m m1 m2 k1 (Taken-FramesKept m1 m2 g taken2) in
      let bf : f < 2 ^ 24 =
        omega (arith, free-lt-length m.frame_table f taken.was_free, sized.frames) in
      let bg : g < 2 ^ 24 =
        omega (arith, free-lt-length m1.frame_table g taken2.was_free, (k1.sized sized).frames) in
      let be : e.pfn < 2 ^ 24 =
        omega (arith, used-lt-length m.frame_table e.pfn used, sized.frames) in
      let be' : e'.pfn < 2 ^ 24 =
        omega (arith, used-lt-length m.frame_table e'.pfn used', sized.frames) in
      let (u3, m3, eq3, cloned) =
        outcome (λ _. Cloned e.pfn f m2) (clone_frame (pos e.pfn) (pos f) m2)
          (clone_frame-Cloned e.pfn f m2 be bf (k2.sized sized).table) in
      let k3 = Cloned-FramesKept m m2 m3 e.pfn f k2 taken.was_free cloned in
      let (u4, m4, eq4, cloned2) =
        outcome (λ _. Cloned e'.pfn g m3) (clone_frame (pos e'.pfn) (pos g) m3)
          (clone_frame-Cloned e'.pfn g m3 be' bg (k3.sized sized).table) in
      (
        f,
        g,
        m2,
        m4,
        eq,
        rw (small f bf, small g bg, eq3, eq4) refl,
        two_copies m m1 m2 m3 m4 e e' f g used used' taken taken2 cloned cloned2,
      )

abbrev pub stack_of : (f g : ℕ) → List Pte
stack_of f g = stack_pte (pos f) ∷ stack_pte (pos g) ∷ []

-- The new process gets a kernel stack, where it has none.
module _ (new : Ptr) (k : Kernel) (d : Pcb) (ne : new ≢ null) (at : k.pcbs new ≡ some d)
    (no_stack : d.kstack ≡ none) (room : HasMemory k) (f g : ℕ) (s : Memory)
    (eq : kstack_frames 2 k.memory ≡ ok (stack_of f g) s) where
  abbrev pub with_stack : Kernel
  with_stack =
      with_pcb (record k { calls = k.calls + 1; memory = s }) new
        (record d { kstack = some (stack_of f g) })

  child_kstack-ok : child_kstack new k ≡ ok (stack_of f g) with_stack
  unfolding child_kstack initialize_kernel_stack_process
  child_kstack-ok =
      let got : (k.malloc k.calls == null) ≡ false = ground (arith, room.gives k.calls) in
      let k1 = record k { calls = k.calls + 1 } in
      rw
        (
          load-ok new d k ne at,
          no_stack,
          got,
          room.stays k.calls k.memory,
          on_memory-ok (kstack_frames 2) (stack_of f g) s k1 eq,
          update-ok new (λ c. record c { kstack = some (stack_of f g) }) d
              (record k1 { memory = s }) ne at,
        )
        refl

-- The state after `KCCopy`, when the frames `f` and `g` hold the new kernel stack and `t` is the memory
-- after the copies.
abbrev pub kc_copied : KernelContext → Ptr → Kernel → Pcb → (f g : ℕ) → Memory → Kernel
kc_copied kc new k d f g t =
    record (with_pcb (with_pcb k new (record d { kernel_context = kc })) new
      (record d { kernel_context = kc; kstack = some (stack_of f g) })) {
        calls = k.calls + 1;
        memory = record t { registers = (tlb_flush, negsuc 3) ∷ t.registers };
      }

-- `KCCopy` for a process that has no kernel stack.
pub kc_copy-ok :
    (kc : KernelContext) (new : Ptr) (k : Kernel) (c d : Pcb) (e e' : Pte) (f g : ℕ) (s t : Memory)
    → new ≢ null
    → k.pcbs new ≡ some d
    → d.kstack ≡ none
    → HasMemory k
    → k.current_process ≢ null
    → k.current_process ≢ new
    → k.pcbs k.current_process ≡ some c
    → c.kstack ≡ some (e ∷ e' ∷ [])
    → kstack_frames 2 k.memory ≡ ok (stack_of f g) s
    → copy_kstack 2 0 (e ∷ e' ∷ []) (stack_of f g) s ≡ ok tt t
    → kc_copy kc new k ≡ ok tt (kc_copied kc new k d f g t)
unfolding kc_copy
kc_copy-ok kc new k c d e e' f g s t ne at no_stack room cne apart at_parent stack eq eq2 =
    let d1 = record d { kernel_context = kc } in
    let k1 = with_pcb k new d1 in
    let at1 : k1.pcbs new ≡ some d1 = rw (write_pcb-if k.pcbs new (some d1) new) (ground arith) in
    let d2 = record d1 { kstack = some (stack_of f g) } in
    let k2 = with_pcb (record k1 { calls = k.calls + 1; memory = s }) new d2 in
    let far : (k.current_process == new) ≡ false = ground (arith, apart) in
    let at2 : k2.pcbs k.current_process ≡ some c =
      rw (write_pcb-if k1.pcbs new (some d2) k.current_process, far) at_parent in
    rw
      (
        update-ok new (λ x. record x { kernel_context = kc }) d k ne at,
        child_kstack-ok new k1 d1 ne at1 no_stack room f g s eq,
        load-ok k.current_process c k2 cne at2,
        stack,
        on_memory-ok (copy_kstack 2 0 (e ∷ e' ∷ []) (stack_of f g)) tt t k2 eq2,
        register-ok tlb_flush (negsuc 3) (record k2 { memory = t }),
      )
      refl
