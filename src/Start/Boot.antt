-- ===== src/Start/Boot.antt =====
-- The start of the kernel: `KernelStart` of src/kernel.c, with `InitializeProcTable`,
-- `InitializeInterruptVectorTable` and `InitializeTerminals` of src/init.c, and `InitializeProcQueues`,
-- `CreateIdlePCB` and `CloneRegion1` of src/proc.c.
use tiny_kernels.Prelude.{
  ℕ, zero, suc, ◌+◌, ◌-◌, false, not, ◌||◌, Option, none, some, List, [], ◌∷◌, ◌==◌, if◌then◌else◌,
  set, replicate,
}
use tiny_kernels.Prelude.Int.{pos, minus_one, eq_ℤ}
use tiny_kernels.Prelude.Run.{Cmd, ok, pure, halt, undefined, get, ◌>>=◌, ◌>>◌}
use tiny_kernels.Hardware.{
  vpn_of, page_size, max_pt_len, vmem_1_limit, prot_read_write, vector_base, vm_enable, tlb_flush,
  ptbr0, ptlr0, ptbr1, ptlr1,
}
use tiny_kernels.Memory.{FrameDesc, frame_user, alloc_frame, clone_frame, write_register}
use tiny_kernels.Kernel.{
  Ptr, null, proc_running, UserContext, after_start, Kernel, ready, load, update, on_memory,
  malloc_result, enqueue,
}
use tiny_kernels.UserMemory.{read_user, map_user}
use tiny_kernels.Clock.{clock_resumed}
use tiny_kernels.Creation.{
  cleared_context, get_free_pcb, initialize_kernel_stack_idle, initialize_kernel_stack_process,
  kc_copy,
}
use tiny_kernels.Program.{Executable, load_program}
use tiny_kernels.Terminals.{Terminals, on_kernel, set_terminal, num_terminals}
use tiny_kernels.Start.{initialize_vm, initialize_free_frame_list}

-- What the entries of `TRAP_VECTOR` point to.
pub data TrapHandler : Type 0 where
  not_implemented kernel_trap clock_trap illegal_trap memory_trap math_trap : TrapHandler
  tty_receive_trap tty_transmit_trap : TrapHandler

abbrev pub trap_vector_size : ℕ
trap_vector_size = 16

-- `InitializeInterruptVectorTable`: the table, whose entries at first are `NotImplementedTrapHandler`.
abbrev pub trap_vector : List TrapHandler
trap_vector =
    let t0 = replicate trap_vector_size not_implemented in
    let t1 = set t0 0 kernel_trap in
    let t2 = set t1 1 clock_trap in
    let t3 = set t2 3 memory_trap in
    let t4 = set t3 5 tty_receive_trap in
    let t5 = set t4 6 tty_transmit_trap in let t6 = set t5 4 math_trap in set t6 2 illegal_trap

-- What the machine's library and the host give to the start: the first page of the kernel's text, that
-- of its data and the first page behind its heap; the addresses of the table of region 0, the vector
-- and `DoIdle`; the block for the frame table; and the files, by name, where no name is "./user/init".
pub record BootImage : Type 0 where
  pub text : ℕ
  pub data_page : ℕ
  pub brk : ℕ
  pub region0 : ℕ
  pub vector : ℕ
  pub do_idle : ℕ
  pub block : ℕ → Option (List FrameDesc)
  pub program : Option (List ℕ) → Executable

abbrev pub max_procs : ℕ
max_procs = 128

-- `InitializeProcTable`, which does not test the result of `malloc`.
unfoldable pub initialize_proc_table : Cmd Kernel (Unit {0})
unfolding malloc_result
initialize_proc_table = do
  table ← malloc_result
  if table == null then undefined else λ k.
      ok tt (record k { proc_table = replicate max_procs null })

-- `malloc` and `queueCreate` with a call of `Halt` where they return NULL.
unfoldable pub malloc_or_halt : Cmd Kernel (Unit {0})
unfolding malloc_result
malloc_or_halt = do p ← malloc_result; if p == null then halt else pure tt

-- The loop of `InitializeTerminals` from terminal `i` on. The two queues are created before either is
-- tested.
unfoldable pub initialize_terminals_from : (rounds i : ℕ) → Cmd Terminals (Unit {0})
unfolding on_kernel malloc_result malloc_or_halt set_terminal
initialize_terminals_from zero i = pure tt
initialize_terminals_from (suc n) i = do
  readers ← on_kernel malloc_result
  writers ← on_kernel malloc_result
  if readers == null || writers == null then halt else do
    on_kernel malloc_or_halt
    set_terminal i (λ t. record t {
      blocked_readers = [];
      blocked_writers = [];
      read_buffer = [];
      write_buffer = none;
      write_buffer_position = 0;
      write_buffer_len = 0;
      current_writer = null;
      in_use = false;
    })
    initialize_terminals_from n (i + 1)

-- `InitializeTerminals`
unfoldable pub initialize_terminals : Cmd Terminals (Unit {0})
unfolding initialize_terminals_from
initialize_terminals = initialize_terminals_from num_terminals 0

-- `InitializeProcQueues`. The last queue, `waiting_parents`, is used nowhere.
unfoldable pub initialize_proc_queues : Cmd Kernel (Unit {0})
unfolding malloc_or_halt
initialize_proc_queues = do
  malloc_or_halt
  λ k. ok tt (record k { ready_queue = [] })
  malloc_or_halt
  λ k. ok tt (record k { blocked_queue = [] })
  malloc_or_halt
  λ k. ok tt (record k { zombie_queue = [] })
  malloc_or_halt

-- `CreateIdlePCB`. It does not test the frame of the stack, which may be -1.
unfoldable pub create_idle_pcb : (do_idle : ℕ) → Cmd Kernel Ptr
unfolding on_memory alloc_frame map_user update
create_idle_pcb do_idle = do
  idle ← get_free_pcb
  λ k. ok tt (record k { idle_proc = idle })
  if idle == null then halt else do
    pfn ← on_memory (alloc_frame frame_user (pos 0))
    map_user idle (vpn_of (vmem_1_limit - page_size)) pfn prot_read_write
    update idle (λ c. record c { user_context = record cleared_context { sp = vmem_1_limit - 4 } })
    kstack ← initialize_kernel_stack_idle
    update idle (λ c. record c { kstack = kstack })
    update idle (λ c. record c { user_context = record c.user_context { pc = do_idle } })
    update idle (λ c. record c { state = proc_running })
    pure idle

-- The loop of `CloneRegion1` from page `i` on. No code calls it.
unfoldable pub clone_region1_from : (rounds i : ℕ) → (from to : Ptr) → Cmd Kernel (Unit {0})
unfolding load read_user on_memory alloc_frame map_user
clone_region1_from zero i from to = pure tt
clone_region1_from (suc n) i from to = do
  e ← read_user from i
  if not e.valid then clone_region1_from n (i + 1) from to else do
    d ← load to
    pfn ← on_memory (alloc_frame frame_user d.pid)
    on_memory (clone_frame (pos e.pfn) pfn)
    map_user to i pfn e.prot
    clone_region1_from n (i + 1) from to

-- `CloneRegion1`
unfoldable pub clone_region1 : (from to : Ptr) → Cmd Kernel (Unit {0})
unfolding clone_region1_from
clone_region1 from to = clone_region1_from max_pt_len 0 from to

-- The registers of region 1, for the process at `p`.
unfoldable pub use_region1 : Ptr → Cmd Kernel (Unit {0})
unfolding on_memory write_register
use_region1 p = on_memory (do write_register ptbr1 (pos p); write_register ptlr1 (pos max_pt_len))

-- `KernelStart` up to the first `WriteRegister` of its own: the tables.
unfoldable pub start_tables : BootImage → (pmem_size : ℕ) → Cmd Terminals (Unit {0})
unfolding on_kernel on_memory initialize_free_frame_list initialize_vm write_register
    initialize_proc_table initialize_terminals initialize_proc_queues
start_tables image pmem_size = do
  on_kernel (
      on_memory (do
        λ m. ok tt (record m { kernel_brk_page = image.brk })
        initialize_free_frame_list image.block pmem_size
        initialize_vm image.text image.data_page image.brk
        write_register vector_base (pos image.vector)))
  on_kernel initialize_proc_table
  initialize_terminals
  on_kernel initialize_proc_queues

-- The part of `KernelStart` that makes the idle process, the current one from there on.
unfoldable pub start_idle : BootImage → Cmd Kernel (Unit {0})
unfolding on_memory write_register create_idle_pcb use_region1
start_idle image = do
  on_memory (do
    write_register ptbr0 (pos image.region0)
    write_register ptlr0 (pos max_pt_len)
    write_register vm_enable (pos 1))
  idle ← create_idle_pcb image.do_idle
  λ k. ok tt (record k { idle_proc = idle; current_process = idle })
  use_region1 idle

abbrev pub first_arg : List (List ℕ) → Option (List ℕ)
first_arg [] = none
first_arg (a ∷ rest) = some a

-- The part of `KernelStart` that makes the init process. A NULL from `getFreePCB` is an access through it.
unfoldable pub start_init : BootImage → (cmd_args : List (List ℕ)) → Cmd Kernel (Unit {0})
unfolding clock_resumed update use_region1 on_memory write_register load_program enqueue
start_init image cmd_args = do
  uctxt ← clock_resumed
  init ← get_free_pcb
  kstack ← initialize_kernel_stack_process
  update init (λ c. record c { kstack = kstack })
  update init (λ c. record c { user_context = uctxt })
  use_region1 init
  on_memory (write_register tlb_flush minus_one)
  load_status ← load_program (image.program (first_arg cmd_args)) cmd_args init
  if not (eq_ℤ load_status (pos 0)) then halt else do
    k ← get
    use_region1 k.idle_proc
    on_memory (write_register tlb_flush minus_one)
    enqueue ready init
    kc_copy after_start init

-- `KernelStart`: the context that the processor goes to.
unfoldable pub kernel_start :
    BootImage → (cmd_args : List (List ℕ)) → (pmem_size : ℕ) → Cmd Terminals UserContext
unfolding start_tables on_kernel start_idle start_init clock_resumed
kernel_start image cmd_args pmem_size = do
  start_tables image pmem_size
  on_kernel (start_idle image)
  on_kernel (start_init image cmd_args)
  on_kernel clock_resumed
