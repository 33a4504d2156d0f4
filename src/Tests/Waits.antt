-- ===== src/Tests/Waits.antt =====
-- A process whose one page is the last of region 1 waits for a dead child, and has its exit status
-- stored in that page.
use tiny_kernels.Prelude.{◌≡◌, refl, none, some, [], ◌∷◌, arith, ◌==◌, if◌then◌else◌}
use tiny_kernels.Prelude.Int.{pos}
use tiny_kernels.Prelude.Run.{Returns}
use tiny_kernels.Kernel.{Kernel, returned}
use tiny_kernels.Process.{wait, wait_resumed}
use tiny_kernels.Process.Status.{CanStore}
use tiny_kernels.Process.Reap.{Reaped, Family}
use tiny_kernels.Process.Waits.{wait-Reaped, wait_resumed-Reaped}
use tiny_kernels.Tests.Processes.{dead, no-Strangers}
use tiny_kernels.Tests.UserPrograms.{
  process, table, table-last, table-others, loaded, loaded-HasWholeFrames, last-HasOwnFrames,
  last-IsWritable,
}

abbrev with_dead : Kernel
with_dead = record loaded {
  zombie_queue = 40 ∷ [];
  pcbs = λ a. if a == 10 then some process else if a == 40 then some dead else none;
}

process-Family : Family with_dead 10 process 40 dead
process-Family = record {
  curr_not_null = omega arith;
  z_not_null = omega arith;
  apart = omega arith;
  curr_at = refl;
  z_at = refl;
  grandchildren = tt;
}

process-CanStore : CanStore with_dead process 0x1f_f000
process-CanStore ne = (
  last-HasOwnFrames table table-last table-others,
  loaded-HasWholeFrames,
  last-IsWritable table table-last table-others 0x1f_f000 4 (omega arith) (omega arith),
)

wait-Reaped_example :
    Returns
      (λ r t. (r ≡ returned (pos 4)) × Reaped with_dead 10 process 0x1f_f000 40 dead t)
      (wait 0x1f_f000 with_dead)
wait-Reaped_example =
    wait-Reaped process 0x1f_f000 40 dead with_dead process-Family [] [] refl refl
      (no-Strangers with_dead) process-CanStore 20 (30 ∷ 40 ∷ []) refl

wait_resumed-Reaped_example :
    Returns
      (λ r t. (r ≡ returned (pos 4)) × Reaped with_dead 10 process 0x1f_f000 40 dead t)
      (wait_resumed 10 0x1f_f000 with_dead)
wait_resumed-Reaped_example =
    wait_resumed-Reaped process 0x1f_f000 40 dead with_dead process-Family [] [] refl refl
      (no-Strangers with_dead) process-CanStore
