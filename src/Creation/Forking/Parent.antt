-- ===== src/Creation/Forking/Parent.antt =====
-- A Fork (src/syscalls/process.c) of the parent from end to end.
use tiny_kernels.Prelude.{
  ℕ, ◌+◌, ◌<◌, ◌≤◌, ◌≡◌, ◌≢◌, refl, sym, ap, ◌∙◌, true, false, none, some, [], ◌∷◌, ◌++◌, arith,
  ◌==◌, inl, inr, length, length-replicate, get_elem?-replicate, replicate_only, Bool-cases, subst,
}
use tiny_kernels.Prelude.Int.{pos, minus_one}
use tiny_kernels.Prelude.Run.{choose_else, ok, outcome, Returns}
use tiny_kernels.Hardware.{Pte, max_pt_len, invalid_pte}
use tiny_kernels.Memory.{Memory}
use tiny_kernels.Memory.Frames.{free_at, used_at}
use tiny_kernels.Kernel.{Ptr, null, Pcb, proc_ready, Kernel, write_pcb, after_fork, returned}
use tiny_kernels.Kernel.Scheduling.{
  HasMemory-same, HasMemory, with_pcb, load-ok, update-ok, write_pcb-if,
}
use tiny_kernels.UserMemory.{copy_pt}
use tiny_kernels.UserMemory.Keeping.{FramesKept-trans, FramesKept-registers}
use tiny_kernels.UserMemory.Pages.{held, among}
use tiny_kernels.UserMemory.Copying.{Kept, Copied, CanCopy, CopyResult}
use tiny_kernels.UserMemory.Copying.Loop.{copy_pt-CopyResult}
use tiny_kernels.Creation.{kstack_frames, copy_kstack, kc_copy, fork_resumed, fork}
use tiny_kernels.Creation.Slots.{new_process, Filled, filled, get_free_pcb-ok, filled-Filled}
use tiny_kernels.Creation.KernelStacks.{
  StackCopied, kernel_stack-StackCopied, stack_of, kc_copied, kc_copy-ok,
}
use tiny_kernels.Creation.Forking.{parent_after, forked, fork_resumed-ok, CanFork, Forked, Leaked}

module _ (k : Kernel) (i : ℕ) (c : Pcb) (e e' : Pte) (can : CanFork k i c e e') where
  abbrev p : Ptr
  p = k.current_process

  abbrev ch : Ptr
  ch = k.malloc k.calls

  -- The child's PCB before `CopyPT`, and the kernel then.
  abbrev d : Pcb
  d = record (new_process k) { ppid = c.pid; user_context = c.user_context }

  abbrev k2 : Kernel
  k2 = with_pcb (filled k i) ch d

  slot : Filled k i ch (filled k i)
  slot = filled-Filled i k can.malloc can.slot

  at_p1 : (filled k i).pcbs p ≡ some c
  at_p1 = slot.others p can.fresh ∙ can.at

  at_ch2 : k2.pcbs ch ≡ some d
  at_ch2 = rw (write_pcb-if (filled k i).pcbs ch (some d) ch) (ground arith)

  others2 : (a : Ptr) → a ≢ ch → k2.pcbs a ≡ k.pcbs a
  others2 a far =
      let test : (a == ch) ≡ false = ground (arith, far) in
      rw (write_pcb-if (filled k i).pcbs ch (some d) a, test) (slot.others a far)

  can_copy : CanCopy k2 c d p ch 0
  can_copy = record {
    src_not_null = can.not_null;
    dst_not_null = can.malloc.gives k.calls;
    differ = can.fresh;
    at_src = others2 p can.fresh ∙ can.at;
    at_dst = at_ch2;
    src_table = can.table;
    dst_table = length-replicate max_pt_len invalid_pte;
    sized = can.sized;
    maps = can.maps;
    empty =
        λ j x lo at. ap (λ (z : Pte). z.valid) (sym (replicate_only max_pt_len invalid_pte j x at));
  }

  module _ (pcb : Pcb) (k3 : Kernel) (kept : Kept k2 d ch pcb k3)
      (copied : Copied k2 c d max_pt_len 0 pcb.ptbr k3) where
    cur : k3.current_process ≡ p
    cur = ap (λ (z : Kernel). z.current_process) kept.rest

    mallocs : HasMemory k3
    mallocs =
        HasMemory-same k k3 (ap (λ (z : Kernel). z.malloc) kept.rest)
          (ap (λ (z : Kernel). z.heap) kept.rest) can.malloc

    no_stack : pcb.kstack ≡ none
    no_stack = ap (λ (z : Pcb). z.kstack) kept.only_table

    at_p3 : k3.pcbs p ≡ some c
    at_p3 = kept.other_pcbs p can.fresh ∙ others2 p can.fresh ∙ can.at

    room :
        length (held max_pt_len 0 c.ptbr) + 2 ≤ k.memory.free_nframes → 2 ≤ k3.memory.free_nframes
    room enough = omega (arith, copied.gained can.counted, copied.size, enough)

    module _ (f g : ℕ) (s t : Memory) (sc : StackCopied k3.memory e e' f g t) where
      abbrev d4 : Pcb
      d4 = record pcb { kernel_context = after_fork p; kstack = some (stack_of f g) }

      abbrev k4 : Kernel
      k4 = kc_copied (after_fork p) ch k3 pcb f g t

      abbrev k5 : Kernel
      k5 = forked p ch k4 c d4

      copied_kernel :
          kstack_frames 2 k3.memory ≡ ok (stack_of f g) s
          → copy_kstack 2 0 (e ∷ e' ∷ []) (stack_of f g) s ≡ ok tt t
          → kc_copy (after_fork p) ch k3 ≡ ok tt k4
      copied_kernel eq eq2 =
          kc_copy-ok (after_fork p) ch k3 c pcb e e' f g s t (can.malloc.gives k.calls) kept.at
            no_stack mallocs (λ z. can.not_null (sym cur ∙ z)) (λ z. can.fresh (sym cur ∙ z))
            (ap k3.pcbs cur ∙ at_p3) can.kstack eq eq2

      others4 : (a : Ptr) → a ≢ ch → k4.pcbs a ≡ k3.pcbs a
      unfolding write_pcb
      others4 a far = let test : (a == ch) ≡ false = ground (arith, far) in rw test refl

      at_ch4 : k4.pcbs ch ≡ some d4
      unfolding write_pcb
      at_ch4 = ground arith

      at_p4 : k4.pcbs p ≡ some c
      at_p4 = others4 p can.fresh ∙ at_p3

      resumed : fork_resumed p ch k4 ≡ ok (returned (pos 0)) k5
      resumed =
          subst (λ x. fork_resumed x ch k4 ≡ ok (returned (pos 0)) (forked x ch k4 c d4)) cur
            (fork_resumed-ok ch k4 c d4 (λ z. can.not_null (sym cur ∙ z)) (can.malloc.gives k.calls)
              (λ z. can.fresh (sym cur ∙ z)) (ap k4.pcbs cur ∙ at_p4) at_ch4 mallocs)

      parent_there : k5.pcbs p ≡ some (parent_after c ch (k.new_pid k.pids))
      unfolding write_pcb
      parent_there =
          let here : (p == p) ≡ true = ground arith in
          rw here (ap (λ (z : Pcb). some (parent_after c ch z.pid)) kept.only_table)

      child_there :
          k5.pcbs ch
          ≡ some (record d {
            state = proc_ready;
            ptbr = pcb.ptbr;
            kernel_context = after_fork p;
            kstack = some (stack_of f g);
          })
      unfolding write_pcb
      child_there =
          let far : (ch == p) ≡ false = ground (arith, can.fresh) in
          let here : (ch == ch) ≡ true = ground arith in
          rw (far, here)
            (ap
              (λ (z : Pcb). some (record z {
                state = proc_ready;
                kernel_context = after_fork p;
                kstack = some (stack_of f g);
              }))
              kept.only_table)

      others5 : (a : Ptr) → a ≢ p → a ≢ ch → k5.pcbs a ≡ k.pcbs a
      unfolding write_pcb
      others5 a far far' =
          let test : (a == p) ≡ false = ground (arith, far) in
          let test' : (a == ch) ≡ false = ground (arith, far') in
          let all : k5.pcbs a ≡ k3.pcbs a = rw (test, test') refl in
          all ∙ kept.other_pcbs a far' ∙ others2 a far'

      -- A frame that is free after the copy of the pages is none of theirs.
      still_free :
          (x : ℕ)
          → free_at k3.memory.frame_table x ≡ true
          → (free_at k.memory.frame_table x ≡ true) × (among x copied.frames ≡ false)
      still_free x h = let q = copied.free x in (ground (arith, q, h), ground (arith, q, h))

      new_frames :
          (x : ℕ)
          → among x (f ∷ g ∷ copied.frames) ≡ true
          → (free_at k.memory.frame_table x ≡ true) × (used_at k5.memory.frame_table x ≡ true)
      new_frames x h = elim (Bool-cases (x == f)) [
        | inl y ↦
            let z : x ≡ f = ground arith in rw z ((still_free f sc.first_free).0, sc.first_used)
        | inr y ↦ elim (Bool-cases (x == g)) [
          | inl w ↦
              let z : x ≡ g = ground arith in rw z ((still_free g sc.second_free).0, sc.second_used)
          | inr w ↦
              let inn : among x copied.frames ≡ true = ground (arith, h, y, w) in
              (copied.new x inn, (sc.kept.in_use x (ground (arith, copied.used x, inn))).0)
        ]
      ]

      result : Forked k i c e e' k5
      result = record {
        copy = pcb.ptbr;
        f = f;
        g = g;
        frames = copied.frames;
        parent = parent_there;
        child = child_there;
        others = others5;
        ready_queue = ap (λ (z : Kernel). z.ready_queue ++ ch ∷ []) kept.rest;
        slots = ap (λ (z : Kernel). z.proc_table) kept.rest;
        current = cur;
        all = copied.all;
        apart = (
          ground (arith, sc.apart, (still_free f sc.first_free).1),
          ((still_free g sc.second_free).1, copied.apart),
        );
        new = λ x h. (new_frames x h).0;
        in_use = λ x h. (new_frames x h).1;
        pages = λ j x lt q v.
            let (y, at, inn, same) = copied.copies j x (omega arith) (omega arith) q v in
            let held_on = (sc.kept.in_use y (ground (arith, copied.used y, inn))).1 in
            (y, at, inn, held_on ∙ same);
        no_page =
            λ j x lt q v. copied.passed j x q v ∙ get_elem?-replicate max_pt_len invalid_pte j lt;
        stack = sc.first_content ∙ (kept.frames.in_use e.pfn can.stack_used).1;
        stack' = sc.second_content ∙ (kept.frames.in_use e'.pfn can.stack_used').1;
        kept =
            FramesKept-registers k.memory t k5.memory.registers
              (FramesKept-trans k.memory k3.memory t kept.frames sc.kept);
      }

  -- The run, once `CopyPT` and the copy of the kernel stack have been done.
  fork-ok :
      (pcb : Pcb) (k3 : Kernel) (kept : Kept k2 d ch pcb k3)
      (copied : Copied k2 c d max_pt_len 0 pcb.ptbr k3) (f g : ℕ) (s t : Memory)
      (sc : StackCopied k3.memory e e' f g t)
      → copy_pt p ch k2 ≡ ok (pos 0) k3
      → kstack_frames 2 k3.memory ≡ ok (stack_of f g) s
      → copy_kstack 2 0 (e ∷ e' ∷ []) (stack_of f g) s ≡ ok tt t
      → fork k ≡ ok (returned (pos 0)) (k5 pcb k3 kept copied f g s t sc)
  unfolding fork
  fork-ok pcb k3 kept copied f g s t sc eq eq2 eq3 =
      let got : (k.malloc k.calls == null) ≡ false = ground (arith, can.malloc.gives k.calls) in
      rw (get_free_pcb-ok i k can.malloc can.slot) (
        choose_else (k.malloc k.calls == null) _ _ (filled k i) got
        ∙ rw
            (
              load-ok p c (filled k i) can.not_null at_p1,
              update-ok ch (λ x. record x { ppid = c.pid; user_context = c.user_context })
                  (new_process k) (filled k i) (can.malloc.gives k.calls) slot.pcb,
              eq,
              copied_kernel pcb k3 kept copied f g s t sc eq2 eq3,
            )
            (resumed pcb k3 kept copied f g s t sc))

  -- `Fork` returns 0 to the parent, where slot `i` is the first free one, `malloc` does not fail,
  -- does not move the break of the heap and gives another address than the parent's, the parent
  -- has a PCB with a kernel stack of two pages and a whole table, all of them in frames in use,
  -- the table of region 0 is whole, frame numbers have 24 bits, the counter of free frames is
  -- right, and there are as many free frames as the parent has pages and two more. The child is
  -- then in slot `i`, a new process, READY, at the end of the ready queue and of the parent's
  -- queue of children, with the parent's pid as `ppid` and the parent's context; the parent's
  -- result is the pid of the child. Each valid page of the parent has a page of the child with the
  -- same protection and content, the child has no other page, and its kernel stack has the content
  -- of the parent's; all these pages are in frames of their own, which were free and are in use.
  -- Frames that were in use stay in use and keep their content, and no other PCB changes.
  pub fork-Forked :
      length (held max_pt_len 0 c.ptbr) + 2 ≤ k.memory.free_nframes
      → Returns (λ r t. (r ≡ returned (pos 0)) × Forked k i c e e' t) (fork k)
  fork-Forked enough =
      let (r, k3, eq, (pcb, kept, h)) =
        outcome (CopyResult k2 c d ch max_pt_len 0) (copy_pt p ch k2)
          (copy_pt-CopyResult k2 c d p ch can_copy) in
      elim h [
        | inl (z, copied) ↦
            let (f, g, s, t, eq2, eq3, sc) =
              kernel_stack-StackCopied k3.memory e e' (kept.frames.sized can.sized)
                (kept.frames.counted can.counted) (room pcb k3 kept copied enough)
                (kept.frames.in_use e.pfn can.stack_used).0
                (kept.frames.in_use e'.pfn can.stack_used').0 in
            rw (fork-ok pcb k3 kept copied f g s t sc (eq ∙ ap (λ x. ok x k3) z) eq2 eq3)
              (refl, result pcb k3 kept copied f g s t sc)
        | inr (z, short) ↦
            let (nothing, few) = short in absurd (omega (arith, few can.counted, enough))
      ]

  fork-stopped :
      (k3 : Kernel) → copy_pt p ch k2 ≡ ok minus_one k3 → fork k ≡ ok (returned minus_one) k3
  unfolding fork
  fork-stopped k3 eq =
      let got : (k.malloc k.calls == null) ≡ false = ground (arith, can.malloc.gives k.calls) in
      rw (get_free_pcb-ok i k can.malloc can.slot) (
        choose_else (k.malloc k.calls == null) _ _ (filled k i) got
        ∙ rw
            (
              load-ok p c (filled k i) can.not_null at_p1,
              update-ok ch (λ x. record x { ppid = c.pid; user_context = c.user_context })
                  (new_process k) (filled k i) (can.malloc.gives k.calls) slot.pcb,
              eq,
            )
            refl)

  -- Under the conditions of `fork-Forked`, but with fewer free frames than the parent has pages,
  -- `Fork` returns -1, and the child is left behind: it has a PCB and slot `i`, and no frame is
  -- free. The ready queue and the other PCBs are unchanged.
  pub fork-Leaked :
      k.memory.free_nframes < length (held max_pt_len 0 c.ptbr)
      → Returns (λ r t. (r ≡ returned minus_one) × Leaked k i t) (fork k)
  fork-Leaked few =
      let (r, k3, eq, (pcb, kept, h)) =
        outcome (CopyResult k2 c d ch max_pt_len 0) (copy_pt p ch k2)
          (copy_pt-CopyResult k2 c d p ch can_copy) in
      elim h [
        | inl (z, copied) ↦ absurd (omega (arith, copied.gained can.counted, copied.size, few))
        | inr (z, short) ↦
            let (nothing, _) = short in
            rw (fork-stopped k3 (eq ∙ ap (λ x. ok x k3) z)) (
              refl,
              record {
                slots = ap (λ (z : Kernel). z.proc_table) kept.rest;
                child = (pcb, kept.at);
                no_frame = nothing;
                ready_queue = ap (λ (z : Kernel). z.ready_queue) kept.rest;
                others = λ a far. kept.other_pcbs a far ∙ others2 a far;
              },
            )
      ]
