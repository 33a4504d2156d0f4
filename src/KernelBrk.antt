-- ===== src/KernelBrk.antt =====
-- `SetKernelBrk` of src/kernel.c: the kernel's heap grows and shrinks by pages of region 0.
-- Each of its loops counts `cur_vpn` to `target_vpn`, and recurs on the rounds that are left.
pub mod Grow
pub mod Shrink
pub mod Main
use tiny_kernels.Prelude.{
  ℕ, zero, suc, ◌+◌, ◌-◌, Bool, true, false, not, ltb, leb, ◌==◌, if◌then◌else◌,
}
use tiny_kernels.Prelude.Int.{ℤ, pos, minus_one, eq_ℤ}
use tiny_kernels.Prelude.Run.{Cmd, ok, pure, get, or_fault, ◌>>=◌, ◌>>◌}
use tiny_kernels.Hardware.{page_of, up_to_page, kstack_start_page, Pte, tlb_flush}
use tiny_kernels.Memory.{
  Memory, frame_kernel, alloc_frame, free_frame, map_region0, unmap_region0, vpn_in_region0,
  read_pte, write_register,
}

-- `while (cur_vpn < target_vpn)`: false where no frame is left.
pub grow_loop : (rounds cur : ℕ) → Cmd Memory Bool
grow_loop zero cur = pure true
grow_loop (suc k) cur = do
  pfn ← alloc_frame frame_kernel minus_one
  if eq_ℤ pfn minus_one then pure false else do map_region0 cur pfn; grow_loop k (cur + 1)

-- `while (cur_vpn > target_vpn)`, with `cur` the page of this round: false out of region 0.
pub shrink_page : (cur : ℕ) → Pte → Cmd Memory (Unit {0})
shrink_page cur e =
    if not e.valid
    then pure tt
    else do unmap_region0 cur; write_register tlb_flush (pos cur); free_frame (pos e.pfn)

pub shrink_loop : (rounds cur : ℕ) → Cmd Memory Bool
shrink_loop zero cur = pure true
shrink_loop (suc k) cur = if not (vpn_in_region0 (cur - 1)) then pure false else do
  m ← get
  e ← or_fault (read_pte m.pt_region0 (cur - 1))
  shrink_page (cur - 1) e
  shrink_loop k (cur - 1)

pub set_brk_page : ℕ → Cmd Memory ℤ
set_brk_page target m = ok (pos 0) (record m { kernel_brk_page = target })

-- `SetKernelBrk` from its two loops on: the break is moved only where both end well.
pub move_brk : (cur target : ℕ) → Cmd Memory ℤ
move_brk cur target = do
  grown ← grow_loop (target - cur) cur
  if not grown then pure minus_one else do
    shrunk ← shrink_loop (cur - target) cur
    if not shrunk then pure minus_one else set_brk_page target

pub set_kernel_brk : (addr : ℕ) → Cmd Memory ℤ
set_kernel_brk addr =
    if addr == 0
    then pure minus_one
    else if leb kstack_start_page (page_of (up_to_page addr))
    then pure minus_one
    else do m ← get; move_brk m.kernel_brk_page (page_of (up_to_page addr))
