-- ===== src/Tests/Loading.antt =====
-- A process with one page, in a machine with 16 frames, is given a program of three pages and a stack;
-- and a system call that halts the machine.
use tiny_kernels.Prelude.{
  ℕ, ◌≡◌, ◌∙◌, refl, true, inl, some, none, List, [], ◌∷◌, ◌++◌, arith, ◌==◌, if◌then◌else◌,
  replicate, length-replicate,
}
use tiny_kernels.Prelude.Run.{halted, Returns}
use tiny_kernels.Hardware.{max_pt_len, invalid_pte}
use tiny_kernels.Memory.{FrameDesc, frame_free, frame_user}
use tiny_kernels.Memory.Frames.{length-modify}
use tiny_kernels.Kernel.{Kernel, UserContext}
use tiny_kernels.Program.{LoadInfo, build_region1}
use tiny_kernels.Program.Region1.Building.{OwnsPages, HasRoom, Built, build_region1-Built}
use tiny_kernels.UserMemory.Pages.{held, among}
use tiny_kernels.SystemCall.{kernel_trap_handler, yalnix_delay}
use tiny_kernels.SystemCall.Refusals.{kernel_trap_handler-halted}
use tiny_kernels.Tests.Processes.{running, user_context, memory}
use tiny_kernels.Tests.Memories.{frame}
use tiny_kernels.Tests.UserPrograms.{process, table, last_page, args, view, typed}

abbrev frames : List FrameDesc
frames = replicate 7 (frame 0 frame_free) ++ frame 7 frame_user ∷ replicate 8 (frame 0 frame_free)

abbrev loading : Kernel
loading = record running {
  memory = record memory { frame_table = frames; free_nframes = 15 };
  pcbs = λ a. if a == 10 then some process else none;
}

abbrev load_info : LoadInfo
load_info = record {
  entry = 0x10_0000;
  t_faddr = 0;
  t_vaddr = 0x10_0000;
  t_npg = 1;
  id_faddr = 0x2000;
  id_vaddr = 0x10_2000;
  id_npg = 1;
  id_end = 0x10_2800;
  ud_npg = 1;
  ud_end = 0x10_5000;
}

held-table : held max_pt_len 0 table ≡ 7 ∷ []
held-table = refl

only : (f : ℕ) → among f (7 ∷ []) ≡ true → f ≡ 7
only f h = ground arith

process-OwnsPages : OwnsPages loading process
process-OwnsPages = record {
  table =
      length-modify (replicate max_pt_len invalid_pte) 127 (λ _. last_page)
      ∙ length-replicate max_pt_len invalid_pte;
  limit = refl;
  apart = (refl, tt);
  used = λ f h. let q : f ≡ 7 = only f h in rw q refl;
  counted = refl;
  frames = omega arith;
}

process-HasRoom : HasRoom loading process load_info args
process-HasRoom = record { text = omega arith; data_and_stack = omega arith; enough = omega arith }

build_region1-Built_example :
    Returns (λ _. Built loading process 10 load_info args) (build_region1 load_info args 10 loading)
build_region1-Built_example =
    build_region1-Built loading process 10 load_info args (omega arith) refl process-OwnsPages
      process-HasRoom

abbrev bad_delay : UserContext
bad_delay = record user_context { code = yalnix_delay; regs = 0xffff_fffe ∷ [] }

kernel_trap_handler-halted_example : kernel_trap_handler 0 view bad_delay typed ≡ halted
kernel_trap_handler-halted_example =
    kernel_trap_handler-halted typed process bad_delay (omega arith) refl 0 view
      (inl (refl, (0, refl)))
