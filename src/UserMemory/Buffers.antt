-- ===== src/UserMemory/Buffers.antt =====
-- `CheckBuffer` of src/traps/trap.c.
use tiny_kernels.Prelude.{ℕ, ◌+◌, ◌-◌, ◌<◌, ◌≤◌, ◌%◌, ◌^◌, ◌≡◌, arith}
use mathlib.Core.Logic.{◌↔◌}
use tiny_kernels.Prelude.Int.{pos}
use tiny_kernels.Hardware.{vmem_1_base, vmem_1_limit}
use tiny_kernels.UserMemory.{check_buffer}

-- Where the end of a buffer does not overflow 32 bits, `CheckBuffer` accepts it exactly where it
-- is inside region 1.
pub check_buffer-inside :
    (addr len : ℕ)
    → addr + len < 2 ^ 32
    → (check_buffer addr len ≡ pos 0) ↔ ((vmem_1_base ≤ addr) × (addr + len ≤ vmem_1_limit))
unfolding check_buffer
check_buffer-inside addr len small =
    let e : (addr + len) % 2 ^ 32 ≡ addr + len = omega arith in rw e (ground arith)

-- `CheckBuffer` accepts every address from the base of region 1 up to its limit with a negative
-- length -n, n not above the address.
pub check_buffer_negative :
    (addr n : ℕ)
    → vmem_1_base ≤ addr
    → n ≤ addr
    → addr ≤ vmem_1_limit
    → 0 < n
    → check_buffer addr (2 ^ 32 - n) ≡ pos 0
unfolding check_buffer
check_buffer_negative addr n low under high neg =
    let e : (addr + (2 ^ 32 - n)) % 2 ^ 32 ≡ addr - n = omega arith in rw e (ground arith)
