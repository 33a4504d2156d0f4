-- ===== src/Creation.antt =====
-- How a process comes to be: `allocNewPCB` and `getFreePCB` of src/proc.c, the kernel stack tables and
-- `KCCopy` of src/kernel.c, and `Fork` of src/syscalls/process.c. The table `proc_table` has been
-- allocated. A PCB that is freed again before the function returns is not stored.
pub mod Slots
pub mod KernelStacks
pub mod Forking
use tiny_kernels.Prelude.{
  ℕ, zero, suc, ◌+◌, Bool, true, false, not, Option, none, some, List, [], ◌∷◌, ◌==◌, if◌then◌else◌,
  get_elem?, set, replicate,
}
use mathlib.Core.Option
use tiny_kernels.Prelude.Int.{ℤ, pos, negsuc, minus_one, eq_ℤ}
use tiny_kernels.Prelude.Run.{Cmd, ok, pure, halt, get, or_fault, ◌>>=◌, ◌>>◌}
use tiny_kernels.Hardware.{
  Pte, invalid_pte, max_pt_len, vmem_1_base, vmem_1_limit, prot_read_write, to_pfn, kstack_pages,
  kstack_start_page, tlb_flush,
}
use tiny_kernels.Memory.{
  Memory, frame_kernel, alloc_frame, alloc_specific_frame, clone_frame, write_register,
}
use tiny_kernels.Kernel.{
  Ptr, null, Pcb, proc_free, proc_running, proc_ready, UserContext, KernelContext, no_context,
  after_fork, with_result, Flow, returned, Kernel, ready, children, load, store, update, enqueue,
  on_memory, malloc_result,
}
use tiny_kernels.UserMemory.{copy_pt}

-- The members of `UserContext` are cleared, with its 8 registers.
abbrev pub cleared_context : UserContext
cleared_context = record {
  vector = 0;
  code = 0;
  addr = 0;
  pc = 0;
  sp = 0;
  ebp = 0;
  regs = replicate 8 0;
}

abbrev pub fresh_pcb : Pcb
fresh_pcb = record {
  pid = pos 0;
  state = proc_free;
  ppid = minus_one;
  exit_status = pos 0;
  ptbr = replicate max_pt_len invalid_pte;
  ptlr = max_pt_len;
  user_context = cleared_context;
  kernel_context = no_context;
  kstack = none;
  user_heap_start_vaddr = vmem_1_base;
  user_heap_end_vaddr = vmem_1_base;
  user_stack_base_vaddr = vmem_1_limit;
  parent = null;
  children_processes = [];
  waiting_for_child_pid = minus_one;
  delay_ticks = pos 0;
  tty_read_buf = 0;
  tty_read_len = 0;
  tty_kernel_read_buf = none;
  kernel_read_size = 0;
}

-- `allocNewPCB`: for the PCB, its page table and its queue of children, in this order.
pub alloc_new_pcb : Cmd Kernel Ptr
unfolding malloc_result store
alloc_new_pcb = do
  process ← malloc_result
  if process == null then pure null else do
    ptbr ← malloc_result
    if ptbr == null then pure null else do
      queue ← malloc_result
      if queue == null then pure null else do store process fresh_pcb; pure process

-- The loop of `getFreePCB`: the first slot that is NULL.
unfoldable pub find_slot : List Ptr → Option ℕ
find_slot [] = none
find_slot (p ∷ ps) = if p == null then some 0 else Option.map suc (find_slot ps)

-- `helper_new_pid`
unfoldable pub next_pid : Cmd Kernel ℤ
next_pid k = ok (k.new_pid k.pids) (record k { pids = k.pids + 1 })

unfoldable pub set_slot : ℕ → Ptr → Cmd Kernel (Unit {0})
set_slot i p k = ok tt (record k { proc_table = set k.proc_table i p })

-- The part of `getFreePCB` for the slot that it has found.
pub fill_slot : ℕ → Cmd Kernel Ptr
unfolding alloc_new_pcb set_slot update next_pid
fill_slot i = do
  pcb ← alloc_new_pcb
  set_slot i pcb
  update pcb (λ c. record c { state = proc_running })
  pid ← next_pid
  update pcb (λ c. record c { pid = pid })
  pure pcb

-- `getFreePCB`
pub get_free_pcb : Cmd Kernel Ptr
unfolding find_slot fill_slot
get_free_pcb k = elim (find_slot k.proc_table) [ none ↦ ok null k | some i ↦ fill_slot i k ]

abbrev pub stack_pte : ℤ → Pte
stack_pte pfn = record { valid = true; prot = prot_read_write; pfn = to_pfn pfn }

-- The loop of `InitializeKernelStackProcess`: it halts where no frame is left.
pub kstack_frames : (rounds : ℕ) → Cmd Memory (List Pte)
unfolding alloc_frame
kstack_frames zero = pure []
kstack_frames (suc n) = do
  pfn ← alloc_frame frame_kernel minus_one
  if eq_ℤ pfn minus_one then halt else do more ← kstack_frames n; pure (stack_pte pfn ∷ more)

-- `InitializeKernelStackProcess`
pub initialize_kernel_stack_process : Cmd Kernel (Option (List Pte))
unfolding malloc_result on_memory kstack_frames
initialize_kernel_stack_process = do
  p ← malloc_result
  if p == null
      then pure none
      else do table ← on_memory (kstack_frames kstack_pages); pure (some table)

-- The loop of `InitializeKernelStackIdle`, which does not look at the result of `allocSpecificFrame`.
pub kstack_specific : (rounds i : ℕ) → Cmd Memory (List Pte)
unfolding alloc_specific_frame
kstack_specific zero i = pure []
kstack_specific (suc n) i = do
  alloc_specific_frame (pos (kstack_start_page + i)) frame_kernel minus_one
  more ← kstack_specific n (i + 1)
  pure (stack_pte (pos (kstack_start_page + i)) ∷ more)

-- `InitializeKernelStackIdle`
pub initialize_kernel_stack_idle : Cmd Kernel (Option (List Pte))
unfolding malloc_result on_memory kstack_specific
initialize_kernel_stack_idle = do
  p ← malloc_result
  if p == null
      then pure none
      else do table ← on_memory (kstack_specific kstack_pages 0); pure (some table)

-- The loop of `KCCopy` over the pages of the two kernel stacks.
pub copy_kstack : (rounds i : ℕ) → (parent child : List Pte) → Cmd Memory (Unit {0})
copy_kstack zero i parent child = pure tt
copy_kstack (suc n) i parent child = do
  from ← or_fault (get_elem? parent i)
  to ← or_fault (get_elem? child i)
  clone_frame (pos from.pfn) (pos to.pfn)
  copy_kstack n (i + 1) parent child

-- The kernel stack of the new process, which is made where there is none.
pub child_kstack : (new : Ptr) → Cmd Kernel (List Pte)
unfolding load update initialize_kernel_stack_process
child_kstack new = do
  c ← load new
  elim c.kstack [
    | some table ↦ pure table
    | none ↦ do
      table ← initialize_kernel_stack_process
      update new (λ c. record c { kstack = table })
      or_fault table
  ]

-- `KCCopy`
pub kc_copy : (kc_in : KernelContext) → (new : Ptr) → Cmd Kernel (Unit {0})
unfolding load update child_kstack on_memory copy_kstack write_register
kc_copy kc_in new = do
  update new (λ c. record c { kernel_context = kc_in })
  child ← child_kstack new
  k ← get
  c ← load k.current_process
  parent ← or_fault c.kstack
  on_memory (copy_kstack kstack_pages 0 parent child)
  on_memory (write_register tlb_flush (negsuc 3))

-- `Fork` from its switch on, for the parent and later for the child.
pub fork_resumed : (parent child : Ptr) → Cmd Kernel Flow
unfolding load update enqueue
fork_resumed parent child = do
  k ← get
  c ← load k.current_process
  p ← load parent
  if eq_ℤ c.pid p.pid
      then (do
        update child (λ c. record c { state = proc_ready })
        enqueue ready child
        enqueue (children parent) child
        d ← load child
        update k.current_process (λ c. record c { user_context = with_result d.pid c.user_context })
        pure (returned (pos 0)))
      else (do
        update k.current_process
            (λ c. record c { user_context = with_result (pos 0) c.user_context })
        update k.current_process (λ c. record c { parent = parent })
        pure (returned (pos 0)))

-- `Fork`, for the parent: `KCCopy` leaves it the current process.
pub fork : Cmd Kernel Flow
unfolding get_free_pcb load update kc_copy fork_resumed
fork = do
  child ← get_free_pcb
  if child == null then pure (returned minus_one) else do
    k ← get
    let parent = k.current_process
    p ← load parent
    update child (λ c. record c { ppid = p.pid; user_context = p.user_context })
    result ← copy_pt parent child
    if eq_ℤ result minus_one
        then pure (returned minus_one)
        else do kc_copy (after_fork parent) child; fork_resumed parent child
