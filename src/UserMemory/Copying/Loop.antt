-- ===== src/UserMemory/Copying/Loop.antt =====
-- The loop of CopyPT (src/mem.c), and the whole function.
use tiny_kernels.Prelude.{
  ℕ, zero, suc, ◌+◌, ◌<◌, ◌≤◌, ◌≡◌, ◌≢◌, refl, sym, ap, ◌∙◌, inl, inr, true, some, [], arith,
  length, get_elem?, get_elem?-some, Bool-cases,
}
use tiny_kernels.Prelude.Int.{pos, minus_one}
use tiny_kernels.Prelude.Run.{ok, Returns, mono, outcome}
use tiny_kernels.Hardware.{Pte, max_pt_len}
use tiny_kernels.Memory.{Memory, frame_user, mapped, alloc_frame, clone_frame}
use tiny_kernels.Memory.Frames.{
  count_free-none, Taken, Allocated, alloc_frame-Allocated, used-lt-length, free-lt-length,
}
use tiny_kernels.Memory.Tables.{IsSized, Cloned, clone_frame-Cloned, get_elem?-modify_ne}
use tiny_kernels.Kernel.{Ptr, Pcb, Kernel}
use tiny_kernels.Kernel.Scheduling.{load-ok}
use tiny_kernels.Kernel.Switching.{on_memory-ok}
use tiny_kernels.UserMemory.{copy_pt_loop, copy_pt}
use tiny_kernels.UserMemory.Lowering.{read_user-ok}
use tiny_kernels.UserMemory.Pages.{map_user_to-ok}
use tiny_kernels.UserMemory.Copying.{Kept, MapsUsed, CanCopy, CopyResult, Kept-refl, Kept-trans}
use tiny_kernels.UserMemory.Copying.Round.{
  d1, k2, Kept-round, Copied-round, Copied-skip, IsShort-round,
}

can_skip :
    (k : Kernel) (c d : Pcb) (src dst : Ptr) (i : ℕ)
    → CanCopy k c d src dst i
    → CanCopy k c d src dst (i + 1)
can_skip k c d src dst i can = record {
  src_not_null = can.src_not_null;
  dst_not_null = can.dst_not_null;
  differ = can.differ;
  at_src = can.at_src;
  at_dst = can.at_dst;
  src_table = can.src_table;
  dst_table = can.dst_table;
  sized = can.sized;
  maps = can.maps;
  empty = λ j e lo at. can.empty j e (omega arith) at;
}

can_go_on :
    (k : Kernel) (c d : Pcb) (src dst : Ptr) (i : ℕ) (d' : Pcb) (t : Kernel)
    → CanCopy k c d src dst i
    → Kept k d dst d' t
    → ((j : ℕ) → i ≢ j → get_elem? d'.ptbr j ≡ get_elem? d.ptbr j)
    → CanCopy t c d' src dst (i + 1)
can_go_on k c d src dst i d' t can kept same = record {
  src_not_null = can.src_not_null;
  dst_not_null = can.dst_not_null;
  differ = can.differ;
  at_src = kept.other_pcbs src can.differ ∙ can.at_src;
  at_dst = kept.at;
  src_table = can.src_table;
  dst_table = kept.length_table ∙ can.dst_table;
  sized = kept.frames.sized can.sized;
  maps = λ j e at on. let (u, _) = kept.frames.in_use e.pfn (can.maps j e at on) in u;
  empty = λ j e lo at. can.empty j e (omega arith) (sym (same j (omega arith)) ∙ at);
}

pub copy_pt_loop-full :
    (n i : ℕ) (k : Kernel) (c d : Pcb) (src dst : Ptr) (e : Pte)
    → CanCopy k c d src dst i
    → get_elem? c.ptbr i ≡ some e
    → e.valid ≡ true
    → alloc_frame frame_user d.pid k.memory ≡ ok minus_one k.memory
    → copy_pt_loop (suc n) i src dst k ≡ ok minus_one k
unfolding copy_pt_loop
copy_pt_loop-full n i k c d src dst e can here on eq =
    rw
      (
        read_user-ok src i c e k can.src_not_null can.at_src here,
        on,
        load-ok dst d k can.dst_not_null can.at_dst,
        on_memory-ok (alloc_frame frame_user d.pid) minus_one k.memory k eq,
      )
      refl

pub copy_pt_loop-round :
    (n i : ℕ) (k : Kernel) (c d : Pcb) (src dst : Ptr) (e : Pte) (f : ℕ) (m1 m2 : Memory)
    → CanCopy k c d src dst i
    → get_elem? c.ptbr i ≡ some e
    → e.valid ≡ true
    → i < length d.ptbr
    → alloc_frame frame_user d.pid k.memory ≡ ok (pos f) m1
    → clone_frame (pos e.pfn) (pos f) m1 ≡ ok tt m2
    → copy_pt_loop (suc n) i src dst k ≡ copy_pt_loop n (i + 1) src dst (k2 k d dst i e f m2)
unfolding copy_pt_loop
copy_pt_loop-round n i k c d src dst e f m1 m2 can here on in_table eq eq2 =
    rw
      (
        read_user-ok src i c e k can.src_not_null can.at_src here,
        on,
        load-ok dst d k can.dst_not_null can.at_dst,
        on_memory-ok (alloc_frame frame_user d.pid) (pos f) m1 k eq,
        on_memory-ok (clone_frame (pos e.pfn) (pos f)) tt m2 (record k { memory = m1 }) eq2,
        map_user_to-ok e.prot i f dst d (record k { memory = m2 }) can.dst_not_null can.at_dst
            in_table,
      )
      refl

clone_to :
    (k : Kernel) (c : Pcb) (e : Pte) (i f : ℕ) (m : Memory)
    → IsSized k.memory
    → get_elem? c.ptbr i ≡ some e
    → e.valid ≡ true
    → MapsUsed k c.ptbr
    → Taken k.memory f m
    → (u : Unit {0}) × (t : Memory) × (clone_frame (pos e.pfn) (pos f) m ≡ ok u t)
      × Cloned e.pfn f m t
clone_to k c e i f m sized here on maps taken =
    let used_src = used-lt-length k.memory.frame_table e.pfn (maps i e here on) in
    let was = free-lt-length k.memory.frame_table f taken.was_free in
    outcome (λ _. Cloned e.pfn f m) (clone_frame (pos e.pfn) (pos f) m)
      (clone_frame-Cloned e.pfn f m (omega (arith, used_src, sized.frames))
        (omega (arith, was, sized.frames)) (ap length taken.same_region0 ∙ sized.table))

pub copy_pt_loop-CopyResult :
    (n i : ℕ) (k : Kernel) (c d : Pcb) (src dst : Ptr)
    → CanCopy k c d src dst i
    → i + n ≤ max_pt_len
    → Returns (CopyResult k c d dst n i) (copy_pt_loop n i src dst k)
unfolding copy_pt_loop
copy_pt_loop-CopyResult zero i k c d src dst can fits = (
  d,
  Kept-refl k d dst can.at_dst,
  inl (
    refl,
    record {
      frames = [];
      all = refl;
      size = refl;
      gained = λ h. omega arith;
      apart = tt;
      new = λ f h. ground (arith, h);
      free = λ f. ground arith;
      used = λ f. ground arith;
      copies = λ j x lo hi q v. absurd (omega arith);
      passed = λ j x q v. refl;
      outside = λ j far. refl;
      kept = λ f h. refl;
    },
  ),
)
copy_pt_loop-CopyResult (suc n) i k c d src dst can fits =
    let (e, here) = get_elem?-some c.ptbr i (omega (arith, can.src_table)) in
    let in_table : i < length d.ptbr = omega (arith, can.dst_table) in
    elim (Bool-cases e.valid) [
      | inr off ↦
          rw (read_user-ok src i c e k can.src_not_null can.at_src here, off)
            (mono (CopyResult k c d dst n (i + 1)) (CopyResult k c d dst (suc n) i) _
              (copy_pt_loop-CopyResult n (i + 1) k c d src dst (can_skip k c d src dst i can)
                (omega arith))
              (λ r t (pcb, kept, h). (
                pcb,
                kept,
                elim h [
                  | inl (z, copied) ↦
                      inl (z, Copied-skip k c d n i e pcb.ptbr t here off in_table can.empty copied)
                  | inr (z, short) ↦
                      let (nothing, few) = short in inr (z, (nothing, λ h. rw (here, off) (few h)))
                ],
              )))
      | inl on ↦
          let (r, m1, eq, a) =
            outcome (Allocated k.memory) (alloc_frame frame_user d.pid k.memory)
              (alloc_frame-Allocated frame_user d.pid k.memory refl) in
          elim a [
            | inr (is, same, nothing) ↦
                rw
                  (copy_pt_loop-full n i k c d src dst e can here on
                    (eq ∙ ap (λ x. ok x m1) is ∙ ap (ok minus_one) same))
                  (
                    d,
                    Kept-refl k d dst can.at_dst,
                    inr (
                      refl,
                      (
                        nothing,
                        λ h.
                            rw (here, on)
                              (omega (arith, count_free-none k.memory.frame_table nothing, h)),
                      ),
                    ),
                  )
            | inl (f, is, taken, _) ↦
                let (u, m2, eq2, cloned) = clone_to k c e i f m1 can.sized here on can.maps taken in
                let kept = Kept-round k d dst i e f m1 m2 in_table can.at_dst taken cloned in
                let x = d1 d i e f in
                let s = k2 k d dst i e f m2 in
                rw
                  (copy_pt_loop-round n i k c d src dst e f m1 m2 can here on in_table
                    (eq ∙ ap (λ x. ok x m1) is) eq2)
                  (mono (CopyResult s c x dst n (i + 1)) (CopyResult k c d dst (suc n) i) _
                    (copy_pt_loop-CopyResult n (i + 1) s c x src dst
                      (can_go_on k c d src dst i x s can kept
                        (λ j ne. get_elem?-modify_ne d.ptbr i j (mapped (pos f) e.prot) ne))
                      (omega arith))
                    (λ r t (pcb, more, h). (
                      pcb,
                      Kept-trans k s t d x pcb dst kept more,
                      elim h [
                        | inl (z, copied) ↦ inl (
                          z,
                          Copied-round k c d dst i e f m1 m2 here on can.maps can.sized in_table
                              taken cloned n pcb.ptbr t copied,
                        )
                        | inr (z, short) ↦
                            inr (
                              z,
                              IsShort-round k c d dst i e f m1 m2 here on taken cloned n t short,
                            )
                      ],
                    )))
          ]
    ]

-- `CopyPT` between two different processes with PCBs and whole tables, where the valid pages of
-- the first are mapped to frames in use and the second has none, the table of region 0 is whole
-- and frame numbers have 24 bits, returns. Either it returns 0: each valid page of the first has a
-- page of the second with the same protection and content, in a frame of its own that was free, no
-- other page of the second and no other frame changes, and a right counter has gone down by the
-- number of these pages; or it returns -1 with no frame free, and a right counter was below that
-- number. In both cases frames that were in use stay in use and keep their content, a right
-- counter stays right, and no other PCB, and nothing else outside of the memory, changes.
pub copy_pt-CopyResult :
    (k : Kernel) (c d : Pcb) (src dst : Ptr)
    → CanCopy k c d src dst 0
    → Returns (CopyResult k c d dst max_pt_len 0) (copy_pt src dst k)
unfolding copy_pt
copy_pt-CopyResult k c d src dst can =
    copy_pt_loop-CopyResult max_pt_len 0 k c d src dst can (omega arith)
