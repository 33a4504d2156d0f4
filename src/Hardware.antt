-- ===== src/Hardware.antt =====
-- src/.yalnix/include/hardware.h, yalnix.h and ykernel.h: the constants of the machine that the
-- kernel computes with, its page rounding macros and page table entries. The machine is 32-bit:
-- addresses are numbers below 2 ^ 32.
use tiny_kernels.Prelude.{ℕ, ◌+◌, ◌-◌, ◌/◌, ◌%◌, ◌^◌, Bool, false}
use tiny_kernels.Prelude.Int.{ℤ, pos, negsuc}

abbrev pub page_size : ℕ
page_size = 0x2000

abbrev pub page_offset : ℕ
page_offset = 0x1fff

abbrev pub vmem_1_base : ℕ
vmem_1_base = 0x10_0000

abbrev pub vmem_1_limit : ℕ
vmem_1_limit = 0x20_0000

-- `MAX_PT_LEN`, the number of pages of either region.
abbrev pub max_pt_len : ℕ
max_pt_len = 128

abbrev pub kernel_stack_limit : ℕ
kernel_stack_limit = 0x10_0000

abbrev pub kernel_stack_base : ℕ
kernel_stack_base = 0xf_c000

-- `KSTACK_PAGES` and `KSTACK_START_PAGE` of src/include/kernel.h.
abbrev pub kstack_pages : ℕ
kstack_pages = 2

abbrev pub kstack_start_page : ℕ
kstack_start_page = 126

abbrev pub u32 : ℕ → ℕ
u32 n = n % 2 ^ 32

-- a - b in unsigned 32-bit arithmetic.
abbrev pub sub32 : ℕ → ℕ → ℕ
sub32 a b = (a + 2 ^ 32 - b) % 2 ^ 32

-- `n >> PAGESHIFT` of an unsigned n.
abbrev pub page_of : ℕ → ℕ
page_of n = n / 0x2000

abbrev pub down_to_page : ℕ → ℕ
down_to_page n = n - n % 0x2000

abbrev pub up_to_page : ℕ → ℕ
up_to_page n = down_to_page (u32 (n + 0x1fff))

-- The page number of an address of region 1.
abbrev pub vpn_of : ℕ → ℕ
vpn_of addr = page_of (sub32 addr vmem_1_base)

-- `PROT_READ`, `PROT_WRITE` and `PROT_EXEC` of the host's sys/mman.h, as the or of their bits.
abbrev pub prot_none : ℕ
prot_none = 0

abbrev pub prot_read : ℕ
prot_read = 1

abbrev pub prot_read_write : ℕ
prot_read_write = 3

abbrev pub prot_read_exec : ℕ
prot_read_exec = 5

-- `struct pte`: one bit, three bits and 24 bits.
pub record Pte : Type 0 where
  pub valid : Bool
  pub prot : ℕ
  pub pfn : ℕ

abbrev pub invalid_pte : Pte
invalid_pte = record { valid = false; prot = 0; pfn = 0 }

-- An `int` stored in the 24 bits of `pfn`.
abbrev pub to_pfn : ℤ → ℕ
to_pfn (pos n) = n % 2 ^ 24
to_pfn (negsuc n) = 2 ^ 24 - 1 - n % 2 ^ 24

pub data Register : Type 0 where
  vector_base vm_enable tlb_flush ptbr0 ptlr0 ptbr1 ptlr1 : Register
