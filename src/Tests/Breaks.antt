-- ===== src/Tests/Breaks.antt =====
-- A process raises its break over two pages.
use tiny_kernels.Prelude.{refl, some, none, arith, ◌==◌, if◌then◌else◌}
use tiny_kernels.Prelude.Run.{Returns}
use tiny_kernels.Kernel.{Pcb, Kernel}
use tiny_kernels.UserMemory.{brk}
use tiny_kernels.UserMemory.Raising.Main.{break_page, BrkResult, brk-BrkResult}
use tiny_kernels.Tests.Forks.{parent_kernel, length-table}
use tiny_kernels.Tests.UserPrograms.{process}

abbrev with_heap : Pcb
with_heap = record process { user_heap_end_vaddr = 0x10_0000 }

abbrev heap_kernel : Kernel
heap_kernel = record parent_kernel { pcbs = λ a. if a == 10 then some with_heap else none }

brk-BrkResult_example :
    Returns (BrkResult heap_kernel with_heap (break_page 0x10_1001)) (brk 1 0x10_1001 heap_kernel)
brk-BrkResult_example =
    brk-BrkResult 0 0x10_1001 heap_kernel with_heap (λ q. omega arith) (λ q. omega arith) refl
      (omega arith) (omega (arith, length-table)) (omega arith)
