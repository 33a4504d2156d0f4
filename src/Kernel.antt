-- ===== src/Kernel.antt =====
-- The state of the kernel: src/include/proc.h, the globals of src/proc.c and src/kernel.c, and the
-- operations on it that the other parts share. A pointer to a PCB is its address, and 0 is NULL.
-- A queue is the list of the processes in it, first one first: the theorems below Queue show that
-- the linked queues of src/queue.c are such lists. `malloc` is not the kernel's: `malloc n` is what
-- the n-th call returns, an address or NULL, `heap n` what it does to the memory, and `calls` counts
-- the calls made. In the same way `new_pid` and `pids` stand for `helper_new_pid`, which the machine's library has.
pub mod Scheduling
pub mod Switching
pub mod UserBytes
use tiny_kernels.Prelude.{
  ℕ, zero, suc, ◌+◌, ◌-◌, ◌<◌, ◌%◌, ◌^◌, Bool, true, false, not, ◌&&◌, Option, none, some, List, [],
  ◌∷◌, ◌++◌, ltb, ◌==◌, if◌then◌else◌, get_elem?, set,
}
use tiny_kernels.Prelude.Int.{ℤ, pos, negsuc, minus_one}
use tiny_kernels.Prelude.Run.{
  Run, Cmd, ok, halted, fault, out_of_fuel, pure, halt, undefined, get, or_fault, and_then, ◌>>=◌,
  ◌>>◌,
}
use tiny_kernels.Hardware.{Pte, Register, ptbr1, ptlr1, tlb_flush, kstack_pages, kstack_start_page}
use tiny_kernels.Memory.{Memory, write_pte, write_register}

abbrev pub Ptr : Type 0
Ptr = ℕ

abbrev pub null : Ptr
null = 0

-- `proc_state_t`
pub data ProcState : Type 0 where
  proc_free proc_ready proc_running proc_blocked proc_zombie proc_orphan : ProcState

-- `UserContext`
pub record UserContext : Type 0 where
  pub vector : ℕ
  pub code : ℕ
  pub addr : ℕ
  pub pc : ℕ
  pub sp : ℕ
  pub ebp : ℕ
  pub regs : List ℕ

-- `KernelContext` is opaque to the kernel. Here it says where the kernel code of a process that is
-- not running goes on, with the variables that are still needed there.
pub data KernelContext : Type 0 where
  no_context : KernelContext
  after_start : KernelContext
  after_clock : KernelContext
  after_delay : KernelContext
  after_wait : (status_ptr : ℕ) → KernelContext
  after_exit : KernelContext
  after_fork : (parent : ℕ) → KernelContext
  after_tty_lock : (tty_id : ℕ) → (bytes : List ℕ) → KernelContext
  after_tty_read : KernelContext
  after_tty_write : (len : ℕ) → KernelContext

-- `PCB`, less `next`, `prev`, `last_run_tick`, `tty_write_buf` and `tty_write_len`, which no code reads.
pub record Pcb : Type 0 where
  pub pid : ℤ
  pub state : ProcState
  pub ppid : ℤ
  pub exit_status : ℤ
  pub ptbr : List Pte
  pub ptlr : ℕ
  pub user_context : UserContext
  pub kernel_context : KernelContext
  pub kstack : Option (List Pte)
  pub user_heap_start_vaddr : ℕ
  pub user_heap_end_vaddr : ℕ
  pub user_stack_base_vaddr : ℕ
  pub parent : Ptr
  pub children_processes : List Ptr
  pub waiting_for_child_pid : ℤ
  pub delay_ticks : ℤ
  pub tty_read_buf : Ptr
  pub tty_read_len : ℕ
  pub tty_kernel_read_buf : Option (List ℕ)
  pub kernel_read_size : ℕ

pub record Kernel : Type 0 where
  pub memory : Memory
  pub pcbs : Ptr → Option Pcb
  pub idle_proc : Ptr
  pub current_process : Ptr
  pub ready_queue : List Ptr
  pub blocked_queue : List Ptr
  pub zombie_queue : List Ptr
  pub malloc : ℕ → Ptr
  pub heap : ℕ → Memory → Memory
  pub calls : ℕ
  pub proc_table : List Ptr
  pub new_pid : ℕ → ℤ
  pub pids : ℕ

-- The queues that the code keeps.
pub data QueueId : Type 0 where
  ready blocked zombie : QueueId
  children : Ptr → QueueId

unfoldable pub write_pcb : (Ptr → Option Pcb) → Ptr → Option Pcb → Ptr → Option Pcb
write_pcb h p c a = if a == p then c else h a

-- `*p` for a PCB: a fault at NULL and at an address that holds none.
unfoldable pub load : Ptr → Cmd Kernel Pcb
load p k = if p == null then undefined k else or_fault (k.pcbs p) k

unfoldable pub store : Ptr → Pcb → Cmd Kernel (Unit {0})
unfolding write_pcb
store p c k = ok tt (record k { pcbs = write_pcb k.pcbs p (some c) })

-- Assignments to members of `*p`.
unfoldable pub update : Ptr → (Pcb → Pcb) → Cmd Kernel (Unit {0})
unfolding load store
update p g = do c ← load p; store p (g c)

-- A call of `malloc`: the address that it gives, or NULL. It may raise the break of the heap by
-- `SetKernelBrk`, and so take frames and map pages.
unfoldable pub malloc_result : Cmd Kernel Ptr
malloc_result k =
    ok (k.malloc k.calls) (record k { calls = k.calls + 1; memory = k.heap k.calls k.memory })

unfoldable pub read_queue : QueueId → Cmd Kernel (List Ptr)
unfolding load
read_queue ready k = ok k.ready_queue k
read_queue blocked k = ok k.blocked_queue k
read_queue zombie k = ok k.zombie_queue k
read_queue (children p) k = (do c ← load p; pure c.children_processes) k

unfoldable pub write_queue : QueueId → List Ptr → Cmd Kernel (Unit {0})
unfolding update
write_queue ready q k = ok tt (record k { ready_queue = q })
write_queue blocked q k = ok tt (record k { blocked_queue = q })
write_queue zombie q k = ok tt (record k { zombie_queue = q })
write_queue (children p) q k = update p (λ c. record c { children_processes = q }) k

-- `queueEnqueue`, `queueDequeue` and `queueRemove` on a queue that is not NULL, as lists.
unfoldable pub enqueue : QueueId → Ptr → Cmd Kernel (Unit {0})
unfolding malloc_result read_queue write_queue
enqueue id p = if p == null then halt else do
  q ← read_queue id
  node ← malloc_result
  if node == null then pure tt else write_queue id (q ++ p ∷ [])

abbrev pub head_or_null : List Ptr → Ptr
head_or_null [] = null
head_or_null (p ∷ q) = p

abbrev pub rest : List Ptr → List Ptr
rest [] = []
rest (p ∷ q) = q

unfoldable pub dequeue : QueueId → Cmd Kernel Ptr
unfolding read_queue write_queue
dequeue id = do q ← read_queue id; write_queue id (rest q); pure (head_or_null q)

abbrev pub without : Ptr → List Ptr → List Ptr
without p [] = []
without p (x ∷ q) = if x == p then q else x ∷ without p q

unfoldable pub dequeue_process : QueueId → Ptr → Cmd Kernel (Unit {0})
unfolding read_queue write_queue
dequeue_process id p =
    if p == null then halt else do q ← read_queue id; write_queue id (without p q)

-- A command of the memory as one of the kernel.
unfoldable pub on_memory : {A : Type 0} → Cmd Memory A → Cmd Kernel A
on_memory c k = elim (c k.memory) [
  | ok a m ↦ ok a (record k { memory = m })
  | halted ↦ halted
  | fault ↦ fault
  | out_of_fuel ↦ out_of_fuel
]

-- The loop of `KCSwitch`: the kernel stack pages of region 0 become those of the next process.
unfoldable pub map_kstack : (rounds i : ℕ) → List Pte → Cmd Memory (Unit {0})
unfolding write_pte
map_kstack zero i kstack = pure tt
map_kstack (suc n) i kstack = do
  e ← or_fault (get_elem? kstack i)
  m ← get
  t ← or_fault (write_pte m.pt_region0 (kstack_start_page + i) (λ _. e))
  λ m. ok tt (record m { pt_region0 = t })
  map_kstack n (i + 1) kstack

unfoldable pub set_current : Ptr → Cmd Kernel (Unit {0})
set_current p k = ok tt (record k { current_process = p })

-- `KCSwitch`, called by the hardware's `KernelContextSwitch` with the context `kc_in` of the code
-- that called it. The value written to `REG_PTBR1` is the process whose table it is.
unfoldable pub kc_switch : (kc_in : KernelContext) → (curr next : Ptr) → Cmd Kernel (Unit {0})
unfolding update set_current
kc_switch kc_in curr next = do
  if curr == null then pure tt else update curr (λ c. record c { kernel_context = kc_in })
  n ← load next
  kstack ← or_fault n.kstack
  on_memory (map_kstack kstack_pages 0 kstack)
  set_current next
  update next (λ c. record c { state = proc_running })
  on_memory (write_register ptbr1 (pos next))
  on_memory (write_register ptlr1 (pos n.ptlr))
  on_memory (write_register tlb_flush minus_one)

-- A user context with the result of a system call, `regs[0]`.
abbrev pub with_result : ℤ → UserContext → UserContext
with_result (pos n) u = record u { regs = set u.regs 0 n }
with_result (negsuc n) u = record u { regs = set u.regs 0 (0xffff_ffff - n) }

-- What a piece of kernel code does: it returns a value to its caller, or the processor has been
-- given to another process, and the rest of the code waits in the kernel context.
pub data Flow : Type 0 where
  returned : ℤ → Flow
  switched : Flow

-- `is_empty(ready_queue) ? idle_proc : queueDequeue(ready_queue)`
unfoldable pub next_process : Cmd Kernel Ptr
unfolding dequeue
next_process k = elim k.ready_queue [ [] ↦ ok k.idle_proc k | p ∷ q ↦ dequeue ready k ]

unfoldable pub switch_to : KernelContext → Ptr → Ptr → Cmd Kernel Flow
switch_to kc curr next = do kc_switch kc curr next; pure switched
