-- ===== src/Tests/UserMemories.antt =====
-- The theorems on region 1 at a process with a full page table.
use tiny_kernels.Prelude.{
  [], ◌∷◌, ◌+◌, ◌≤◌, ◌≡◌, refl, true, arith, replicate, length-replicate, get_elem?-replicate, ◌==◌,
  if◌then◌else◌, some, none,
}
use mathlib.Core.Logic.{◌↔◌}
use tiny_kernels.Prelude.Int.{pos}
use tiny_kernels.Prelude.Run.{ok, out_of_fuel, Returns}
use tiny_kernels.Hardware.{Pte, invalid_pte, max_pt_len, prot_read_write, vmem_1_base, vmem_1_limit}
use tiny_kernels.Memory.{modify, frame_free, frame_kernel}
use tiny_kernels.Kernel.{Kernel, Pcb}
use tiny_kernels.UserMemory.{check_buffer, brk_shrink, grow_stack}
use tiny_kernels.UserMemory.Buffers.{check_buffer-inside}
use tiny_kernels.UserMemory.Lowering.{Bounces, brk_shrink-unchanged, brk_shrink-endless}
use tiny_kernels.UserMemory.StackGrowth.{StackGrown, grow_stack-StackGrown}
use tiny_kernels.Tests.Memories.{frame}
use tiny_kernels.Tests.Processes.{running, parent, memory}

check_buffer-inside_example :
    (check_buffer 0x15_0000 100 ≡ pos 0)
    ↔ ((vmem_1_base ≤ 0x15_0000) × (0x15_0000 + 100 ≤ vmem_1_limit))
check_buffer-inside_example = check_buffer-inside 0x15_0000 100 (omega arith)

abbrev user_page : Pte
user_page = record { valid = true; prot = prot_read_write; pfn = 0 }

-- No page of region 0 is mapped.
brk_shrink-unchanged_example : brk_shrink 4 5 3 10 running ≡ ok 3 running
brk_shrink-unchanged_example =
    brk_shrink-unchanged 4 3 2 10 running (omega arith)
      (λ v lo hi. (invalid_pte, get_elem?-replicate max_pt_len invalid_pte v (omega arith), refl))

-- Page 5 of region 0 is mapped, and page 6 is not.
abbrev lopsided : Kernel
lopsided = record running {
  memory = record memory {
    pt_region0 = modify (replicate max_pt_len invalid_pte) 5 (λ _. user_page);
  };
  pcbs =
      λ a. if a == 10 then some (record parent { ptbr = replicate max_pt_len user_page }) else none;
}

lopsided-Bounces : Bounces 5 10 lopsided
lopsided-Bounces = record {
  here = (user_page, refl, refl);
  next = (invalid_pte, refl, refl);
  not_null = omega arith;
  page = (
    record parent { ptbr = replicate max_pt_len user_page },
    refl,
    rw (length-replicate max_pt_len user_page) (omega arith),
  );
}

brk_shrink-endless_example : brk_shrink 1000 5 3 10 lopsided ≡ out_of_fuel
brk_shrink-endless_example = brk_shrink-endless 1000 5 3 10 lopsided (omega arith) lopsided-Bounces

abbrev stacked : Pcb
stacked = record parent {
  ptbr = replicate max_pt_len invalid_pte;
  user_stack_base_vaddr = 0x1f_e000;
}

-- A machine with two free frames, for a process with one page of stack.
abbrev growing : Kernel
growing = record running {
  memory = record memory {
    frame_table = frame 0 frame_kernel ∷ frame 1 frame_free ∷ frame 2 frame_free ∷ [];
    free_nframes = 2;
  };
  pcbs = λ a. if a == 10 then some stacked else none;
}

grow_stack-StackGrown_example :
    Returns (StackGrown growing stacked 0x1f_a004 125 2) (grow_stack 0x1f_a004 growing)
grow_stack-StackGrown_example =
    grow_stack-StackGrown 0x1f_a004 growing stacked 125 2 (omega arith) refl
      (length-replicate max_pt_len invalid_pte) (omega arith) refl refl (omega arith)
