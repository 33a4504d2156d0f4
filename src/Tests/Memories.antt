-- ===== src/Tests/Memories.antt =====
-- The theorems on frames, page tables and the kernel's break, at a machine with three frames.
use tiny_kernels.Prelude.{
  ℕ, ◌≡◌, refl, sym, true, some, List, [], ◌∷◌, arith, length, replicate, length-replicate,
  get_elem?, subst, some_unique, ◌∙◌,
}
use tiny_kernels.Prelude.Int.{pos, minus_one}
use tiny_kernels.Prelude.Run.{Returns}
use tiny_kernels.Hardware.{Pte, invalid_pte, max_pt_len, prot_read_write}
use tiny_kernels.Memory.{
  FrameDesc, FrameUsage, frame_free, frame_kernel, frame_user, Memory, modify, alloc_frame,
  free_frame, clone_frame,
}
use tiny_kernels.Memory.Frames.{
  Allocated, Released, alloc_frame-Allocated, free_frame-Released, length-modify,
}
use tiny_kernels.Memory.Tables.{IsSized, Cloned, clone_frame-Cloned}
use tiny_kernels.KernelBrk.{set_kernel_brk}
use tiny_kernels.KernelBrk.Shrink.{IsMapped}
use tiny_kernels.KernelBrk.Main.{
  BrkRaised, BrkLowered, set_kernel_brk-BrkRaised, set_kernel_brk-BrkLowered,
}

abbrev pub frame : ℕ → FrameUsage → FrameDesc
frame i u = record { pfn = i; usage = u; owner_pid = minus_one; last_used_tick = 0 }

abbrev kernel_page : Pte
kernel_page = record { valid = true; prot = prot_read_write; pfn = 0 }

-- Frame 0 is the kernel's, at page 2, and the break is page 3.
abbrev table : List Pte
table = modify (replicate max_pt_len invalid_pte) 2 (λ _. kernel_page)

abbrev machine : Memory
machine = record {
  frame_table = frame 0 frame_kernel ∷ frame 1 frame_free ∷ frame 2 frame_free ∷ [];
  free_nframes = 2;
  pt_region0 = table;
  kernel_brk_page = 3;
  contents = λ f. f ∷ [];
  registers = [];
}

length-table : length table ≡ max_pt_len
length-table =
    length-modify (replicate max_pt_len invalid_pte) 2 (λ _. kernel_page)
    ∙ length-replicate max_pt_len invalid_pte

machine-IsSized : IsSized machine
machine-IsSized = record { table = length-table; frames = omega arith }

alloc_frame-Allocated_example : Returns (Allocated machine) (alloc_frame frame_user (pos 1) machine)
alloc_frame-Allocated_example = alloc_frame-Allocated frame_user (pos 1) machine refl

free_frame-Released_example : Returns (λ _. Released machine 0) (free_frame (pos 0) machine)
free_frame-Released_example = free_frame-Released 0 machine refl

clone_frame-Cloned_example : Returns (λ _. Cloned 0 1 machine) (clone_frame (pos 0) (pos 1) machine)
clone_frame-Cloned_example = clone_frame-Cloned 0 1 machine (omega arith) (omega arith) length-table

set_kernel_brk-BrkRaised_example : Returns (BrkRaised machine 5) (set_kernel_brk 0x9001 machine)
set_kernel_brk-BrkRaised_example =
    set_kernel_brk-BrkRaised 0x9001 machine machine-IsSized (omega arith) (omega arith)
      (omega arith)

at_two : (j : ℕ) (e : Pte) → j ≡ 2 → get_elem? table j ≡ some e → kernel_page ≡ e
at_two j e q at =
    some_unique (get_elem? table 2) refl (subst (λ i. get_elem? table i ≡ some e) q at)

machine-IsMapped : IsMapped machine 1 3
machine-IsMapped = record {
  in_use = λ j e lo hi at v. rw (sym (at_two j e (omega arith) at)) refl;
  apart = λ i j e e' lo lt hi at at' v v'. absurd (omega arith);
}

set_kernel_brk-BrkLowered_example : Returns (BrkLowered machine 2) (set_kernel_brk 0x4000 machine)
set_kernel_brk-BrkLowered_example =
    set_kernel_brk-BrkLowered 0x4000 machine machine-IsSized (omega arith) (omega arith)
      (omega arith) machine-IsMapped
