-- ===== src/Kernel/UserBytes.antt =====
-- The bytes of region 1, which kernel code reaches through the page table of a process: `strcpy`,
-- `memset`, `bzero`, `read` and assignments through pointers of LoadProgram (src/kernel.c), and the
-- assignments through `status_ptr` of Wait (src/syscalls/process.c).
use tiny_kernels.Prelude.{
  ℕ, ◌+◌, ◌-◌, ◌/◌, ◌%◌, ◌&&◌, Option, none, some, List, [], ◌∷◌, ◌==◌, if◌then◌else◌, get_elem?,
  set,
}
use tiny_kernels.Prelude.Int.{ℤ, pos, negsuc}
use tiny_kernels.Prelude.Run.{Cmd, ok, pure, or_fault, ◌>>=◌, ◌>>◌}
use tiny_kernels.Hardware.{vpn_of, Pte, page_size, prot_read_write}
use tiny_kernels.Memory.{Memory}
use tiny_kernels.Kernel.{Ptr, Kernel, load}

-- The frame that a writable page is mapped to. A write to any other page is a fault.
abbrev pub writable_frame : Option Pte → Option ℕ
writable_frame none = none
writable_frame (some e) = if e.valid && e.prot == prot_read_write then some e.pfn else none

unfoldable pub frame_at : List Pte → (addr : ℕ) → Option ℕ
frame_at table addr = writable_frame (get_elem? table (vpn_of addr))

unfoldable pub write_frame : (pfn offset byte : ℕ) → Memory → Memory
write_frame pfn offset byte m = record m {
  contents = λ f. if f == pfn then set (m.contents f) offset byte else m.contents f;
}

-- The bytes at `addr` on become the given ones, through the page table of the process at `p`.
unfoldable pub write_user : Ptr → (addr : ℕ) → List ℕ → Cmd Kernel (Unit {0})
unfolding load frame_at write_frame
write_user p addr [] = pure tt
write_user p addr (b ∷ bs) = do
  c ← load p
  pfn ← or_fault (frame_at c.ptbr addr)
  λ k. ok tt (record k { memory = write_frame pfn (addr % page_size) b k.memory })
  write_user p (addr + 1) bs

-- A number of 32 bits as four bytes, the lowest first.
abbrev pub word : ℕ → List ℕ
word n = n % 0x100 ∷ n / 0x100 % 0x100 ∷ n / 0x1_0000 % 0x100 ∷ n / 0x100_0000 % 0x100 ∷ []

-- An `int` of the kernel as four bytes.
abbrev pub int_word : ℤ → List ℕ
int_word (pos n) = word n
int_word (negsuc n) = word (0xffff_ffff - n)

-- The string at the front of a block of bytes, up to its NUL.
abbrev pub c_string : List ℕ → List ℕ
c_string [] = []
c_string (b ∷ bs) = if b == 0 then [] else b ∷ c_string bs
