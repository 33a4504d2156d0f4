-- ===== src/Tests/Starts.antt =====
-- The start of the kernel in four frames, with the break at page 3.
use tiny_kernels.Prelude.{refl, arith, ℕ, some, Option, List, [], replicate}
use tiny_kernels.Prelude.Run.{Returns}
use tiny_kernels.Memory.{FrameDesc, frame_user, Memory}
use tiny_kernels.Start.{initialize_vm, initialize_free_frame_list}
use tiny_kernels.Start.FrameList.{FramesReady, initialize_free_frame_list-FramesReady}
use tiny_kernels.Start.Region0.{Booted, initialize_vm-Booted}
use tiny_kernels.Tests.Memories.{frame}

abbrev blank : Memory
blank = record {
  frame_table = [];
  free_nframes = 7;
  pt_region0 = [];
  kernel_brk_page = 3;
  contents = λ f. [];
  registers = [];
}

abbrev any_block : ℕ → Option (List FrameDesc)
any_block n = some (replicate n (frame 9 frame_user))

initialize_free_frame_list-FramesReady_example :
    Returns (λ _. FramesReady 4 blank) (initialize_free_frame_list any_block 0x8000 blank)
initialize_free_frame_list-FramesReady_example =
    initialize_free_frame_list-FramesReady any_block (replicate 4 (frame 9 frame_user)) 0x8000 blank
      refl refl

initialize_vm-Booted_example : Returns (λ _. Booted 1 2 3 blank) (initialize_vm 1 2 3 blank)
initialize_vm-Booted_example =
    initialize_vm-Booted 1 2 3 blank (omega arith) (omega arith) (omega arith)
