-- ===== src/UserMemory.antt =====
-- Region 1, the memory of a process: `CopyPT` of src/mem.c, `Brk` of src/syscalls/process.c,
-- `growStack`, `CheckBuffer` and the handlers of memory, math and instruction traps of
-- src/traps/trap.c. A loop recurs on the number of its rounds where the code fixes it; the second
-- loop of `Brk` takes fuel.
pub mod Lowering
pub mod Buffers
pub mod Keeping
pub mod Copying
pub mod Raising
pub mod Pages
pub mod Rollback
pub mod StackLoop
pub mod StackGrowth
use tiny_kernels.Prelude.{
  ℕ, zero, suc, ◌+◌, ◌-◌, ◌*◌, Bool, true, false, not, ◌&&◌, ◌||◌, Option, none, some, List, [],
  ◌∷◌, ltb, ◌==◌, if◌then◌else◌, get_elem?,
}
use tiny_kernels.Prelude.Int.{ℤ, pos, minus_one, eq_ℤ}
use tiny_kernels.Prelude.Run.{Cmd, ok, pure, halt, stuck, get, or_fault, ◌>>=◌, ◌>>◌}
use tiny_kernels.Hardware.{
  Pte, page_size, page_of, vpn_of, up_to_page, down_to_page, sub32, u32, vmem_1_base, vmem_1_limit,
  prot_read_write, max_pt_len, kstack_pages, kstack_start_page, tlb_flush,
}
use tiny_kernels.Memory.{
  Memory, frame_kernel, frame_user, alloc_frame, alloc_specific_frame, free_frame, read_pte,
  write_pte, map_page, invalidated, clone_frame, write_register,
}
use tiny_kernels.Kernel.{
  Ptr, null, Pcb, UserContext, Kernel, KernelContext, Flow, returned, load, update, on_memory,
  malloc_result,
}
use tiny_kernels.Process.{exit}

-- An entry of the page table of the process at `p`, and its assignments.
unfoldable pub read_user : Ptr → (vpn : ℕ) → Cmd Kernel Pte
unfolding load read_pte
read_user p vpn = do c ← load p; or_fault (read_pte c.ptbr vpn)

unfoldable pub map_user : Ptr → (vpn : ℕ) → (pfn : ℤ) → (prot : ℕ) → Cmd Kernel (Unit {0})
unfolding load update map_page
map_user p vpn pfn prot = do
  c ← load p
  t ← or_fault (map_page c.ptbr vpn pfn prot)
  update p (λ c. record c { ptbr = t })

unfoldable pub invalidate_user : Ptr → (vpn : ℕ) → Cmd Kernel (Unit {0})
unfolding load update write_pte
invalidate_user p vpn = do
  c ← load p
  t ← or_fault (write_pte c.ptbr vpn invalidated)
  update p (λ c. record c { ptbr = t })

-- The loop of `CopyPT` from page `i` on.
pub copy_pt_loop : (rounds i : ℕ) → (src dst : Ptr) → Cmd Kernel ℤ
unfolding load read_user on_memory alloc_frame map_user
copy_pt_loop zero i src dst = pure (pos 0)
copy_pt_loop (suc n) i src dst = do
  e ← read_user src i
  if not e.valid then copy_pt_loop n (i + 1) src dst else do
    d ← load dst
    pfn ← on_memory (alloc_frame frame_user d.pid)
    if eq_ℤ pfn minus_one then pure minus_one else do
      on_memory (clone_frame (pos e.pfn) pfn)
      map_user dst i pfn e.prot
      copy_pt_loop n (i + 1) src dst

-- `CopyPT`
pub copy_pt : (src dst : Ptr) → Cmd Kernel ℤ
copy_pt src dst = copy_pt_loop max_pt_len 0 src dst

-- The first loop of `Brk`: false where no frame is left.
pub brk_grow : (rounds vpn : ℕ) → (curr : Ptr) → Cmd Kernel Bool
unfolding load read_user on_memory alloc_frame map_user
brk_grow zero vpn curr = pure true
brk_grow (suc n) vpn curr = do
  e ← read_user curr vpn
  if e.valid then brk_grow n (vpn + 1) curr else do
    c ← load curr
    pfn ← on_memory (alloc_frame frame_user c.pid)
    if eq_ℤ pfn minus_one
        then pure false
        else do map_user curr vpn pfn prot_read_write; brk_grow n (vpn + 1) curr

-- The second loop of `Brk`, which reads the table of region 0: the page number it ends with.
pub brk_shrink : (fuel vpn target : ℕ) → (curr : Ptr) → Cmd Kernel ℕ
unfolding read_user on_memory free_frame invalidate_user write_register
brk_shrink zero vpn target curr = stuck
brk_shrink (suc n) vpn target curr = if not (ltb target vpn) then pure vpn else do
  k ← get
  e0 ← or_fault (get_elem? k.memory.pt_region0 vpn)
  if not e0.valid then brk_shrink n (vpn - 1) target curr else do
    e ← read_user curr vpn
    on_memory (free_frame (pos e.pfn))
    invalidate_user curr vpn
    on_memory (write_register tlb_flush (pos (vpn * page_size + vmem_1_base)))
    brk_shrink n (vpn + 1) target curr

-- `Brk` from its loops on, between the pages of the old break and the new one.
pub move_user_brk : (fuel brk target : ℕ) → (curr : Ptr) → Cmd Kernel ℤ
unfolding brk_grow brk_shrink update
move_user_brk fuel brk target curr = do
  grown ← brk_grow (target - brk) brk curr
  if not grown then pure minus_one else do
    let vpn = if ltb brk target then target else brk
    vpn ← brk_shrink fuel vpn target curr
    update curr (λ c. record c { user_heap_end_vaddr = u32 (vpn * page_size + vmem_1_base) })
    pure (pos 0)

-- `Brk`
pub brk : (fuel addr : ℕ) → Cmd Kernel ℤ
unfolding load
brk fuel addr = if addr == 0 then pure minus_one else do
  k ← get
  c ← load k.current_process
  move_user_brk fuel (vpn_of (up_to_page c.user_heap_end_vaddr)) (vpn_of (up_to_page addr))
      k.current_process

-- The loop of `growStack` that gives back the frames of the pages mapped so far.
pub unmap_stack : (rounds j target : ℕ) → (curr : Ptr) → Cmd Kernel (Unit {0})
unfolding read_user on_memory free_frame invalidate_user
unmap_stack zero j target curr = pure tt
unmap_stack (suc n) j target curr = do
  e ← read_user curr (target + j)
  on_memory (free_frame (pos e.pfn))
  invalidate_user curr (target + j)
  unmap_stack n (j + 1) target curr

-- The loop of `growStack` from round `i` on: false where it returns `KILL`.
pub map_stack : (rounds i target : ℕ) → (curr : Ptr) → Cmd Kernel Bool
unfolding load on_memory alloc_frame map_user unmap_stack
map_stack zero i target curr = pure true
map_stack (suc n) i target curr = do
  c ← load curr
  pfn ← on_memory (alloc_frame frame_user c.pid)
  if eq_ℤ pfn minus_one
      then (do unmap_stack i 0 target curr; pure false)
      else do map_user curr (target + i) pfn prot_read_write; map_stack n (i + 1) target curr

-- `growStack`: false where it returns `KILL`.
pub grow_stack : (addr : ℕ) → Cmd Kernel Bool
unfolding load map_stack update
grow_stack addr = do
  k ← get
  let curr = k.current_process
  c ← load curr
  let target = vpn_of (down_to_page addr)
  grown ← map_stack (vpn_of (down_to_page c.user_stack_base_vaddr) - target) 0 target curr
  if not grown
      then pure false
      else do update curr (λ c. record c { user_stack_base_vaddr = down_to_page addr }); pure true

-- `YALNIX_MAPERR` and `YALNIX_ACCERR`, the codes of a memory trap.
pub data TrapCode : Type 0 where
  maperr accerr : TrapCode
  other_code : ℕ → TrapCode

abbrev pub is_maperr : TrapCode → Bool
is_maperr maperr = true
is_maperr accerr = false
is_maperr (other_code n) = false

-- `MemoryTrapHandler` for the address and the code of the trap. It returns to the process where it
-- returns.
pub memory_trap_handler : (addr : ℕ) → TrapCode → Cmd Kernel Flow
unfolding load grow_stack
memory_trap_handler addr code = do
  k ← get
  c ← load k.current_process
  if is_maperr code
        && ltb (up_to_page c.user_heap_end_vaddr) addr
        && ltb addr (down_to_page c.user_stack_base_vaddr)
      then (do grown ← grow_stack addr; if grown then pure (returned (pos 0)) else exit minus_one)
      else (elim code [
        | maperr ↦ exit minus_one
        | accerr ↦ exit minus_one
        | other_code n ↦ pure (returned (pos 0))
      ])

-- `MathTrapHandler` and `IllegalInstructionTrapHandler` end the process; `Exit` does not come back.
pub math_trap_handler : Cmd Kernel Flow
math_trap_handler = exit minus_one

pub illegal_instruction_trap_handler : Cmd Kernel Flow
illegal_instruction_trap_handler = exit minus_one

-- `CheckBuffer`. The sum takes the `int` length as the unsigned number of the same bits, and wraps.
pub check_buffer : (addr len : ℕ) → ℤ
check_buffer addr len =
    if ltb addr vmem_1_base || ltb vmem_1_limit (u32 (addr + len)) then minus_one else pos 0
