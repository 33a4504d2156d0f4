-- ===== src/Start.antt =====
-- src/init.c: the page table of region 0 at the start, and the table of the physical frames. The
-- arguments `text`, `data_page` and `brk` are the numbers that the machine's library sets: the first
-- page of the kernel's text, the first of its data, and the first behind its heap.
pub mod FrameList
pub mod Region0
pub mod Boot
use tiny_kernels.Prelude.{
  ℕ, zero, suc, ◌+◌, ◌-◌, ◌/◌, ◌<◌, ◌≡◌, refl, ap, Bool, true, false, ◌&&◌, Option, none, some,
  List, [], ◌∷◌, arith, ltb, leb, if◌then◌else◌, length, replicate,
}
use tiny_kernels.Prelude.Int.{ℤ, pos, minus_one}
use tiny_kernels.Prelude.Run.{Cmd, ok, pure, fault, get, or_fault, Returns, ◌>>=◌, ◌>>◌}
use tiny_kernels.Hardware.{
  invalid_pte, max_pt_len, prot_read_write, prot_read_exec, kstack_pages, kstack_start_page,
  page_size, ptbr0, ptlr0, ptbr1, ptlr1, vm_enable,
}
use tiny_kernels.Memory.{
  FrameDesc, frame_free, frame_kernel, Memory, mapped, update_region0, write_register,
}
use tiny_kernels.Kernel.{Ptr, Kernel, load, on_memory}

-- A loop that maps the pages from `vpn` on to the frames of the same number.
unfoldable pub map_identity : (rounds vpn prot : ℕ) → Cmd Memory (Unit {0})
map_identity zero vpn prot = pure tt
map_identity (suc n) vpn prot = do
  update_region0 vpn (mapped (pos vpn) prot)
  map_identity n (vpn + 1) prot

unfoldable pub clear_region0 : Cmd Memory (Unit {0})
clear_region0 m = ok tt (record m { pt_region0 = replicate max_pt_len invalid_pte })

-- `InitializeVM`
unfoldable pub initialize_vm : (text data_page brk : ℕ) → Cmd Memory (Unit {0})
unfolding map_identity clear_region0
initialize_vm text data_page brk = do
  clear_region0
  map_identity (data_page - text) text prot_read_exec
  map_identity (brk - data_page) data_page prot_read_write
  map_identity kstack_pages kstack_start_page prot_read_write

-- `EnableVM`. The value of `REG_PTBR0`, the address of the one table of region 0, is `region0`.
unfoldable pub enable_vm : (region0 : Ptr) → Cmd Kernel (Unit {0})
unfolding load write_register on_memory
enable_vm region0 = do
  on_memory (write_register ptbr0 (pos region0))
  on_memory (write_register ptlr0 (pos max_pt_len))
  k ← get
  c ← load k.current_process
  on_memory (write_register ptbr1 (pos k.current_process))
  on_memory (write_register ptlr1 (pos c.ptlr))
  on_memory (write_register vm_enable (pos 1))

abbrev pub idle_pid : ℤ
idle_pid = pos 0

-- The frame holds the kernel's text, data or heap.
abbrev pub is_kernel_frame : (base brk i : ℕ) → Bool
is_kernel_frame base brk i = leb base i && ltb i brk

unfoldable pub init_frame : (base brk i : ℕ) → FrameDesc → FrameDesc
init_frame base brk i f =
    if is_kernel_frame base brk i
    then record f { pfn = i; usage = frame_kernel; owner_pid = idle_pid }
    else record f { pfn = i; usage = frame_free; owner_pid = minus_one }

-- The loop of `InitializeFreeFrameList`, over the entries from `i` on: the table and the counter.
unfoldable pub init_frames : (base brk i free : ℕ) → List FrameDesc → List FrameDesc × ℕ
unfolding init_frame
init_frames base brk i free [] = ([], free)
init_frames base brk i free (f ∷ fs) =
    let rest =
      init_frames base brk (i + 1) (if is_kernel_frame base brk i then free else free + 1) fs in
    (init_frame base brk i f ∷ rest.0, rest.1)

-- A global that no code assigns.
abbrev pub text_section_base_page : ℕ
text_section_base_page = 0

-- `InitializeFreeFrameList`. `block` is what `malloc` returns
-- for a number of entries: entries with any content, or NULL, through which the loop would write.
unfoldable pub initialize_free_frame_list :
    (block : ℕ → Option (List FrameDesc)) (pmem_size : ℕ) → Cmd Memory (Unit {0})
unfolding init_frames
initialize_free_frame_list block pmem_size = do
  entries ← or_fault (block (pmem_size / page_size))
  λ m. ok tt (record m {
    frame_table = (init_frames text_section_base_page m.kernel_brk_page 0 0 entries).0;
    free_nframes = (init_frames text_section_base_page m.kernel_brk_page 0 0 entries).1;
  })
