-- ===== src/Process.antt =====
-- src/syscalls/process.c: `Exit`, `Wait`, `GetPid` and `Delay`, and `deletePCB` of src/proc.c.
-- Each system call runs up to the switch to another process; what follows the switch is a function
-- of its own, run when the process is current again.
pub mod Status
pub mod Reap
pub mod Exits
pub mod Waits
pub mod Sleep
use tiny_kernels.Prelude.{
  ℕ, zero, suc, ◌+◌, ◌-◌, Bool, true, false, not, ◌&&◌, Option, none, some, List, [], ◌∷◌, ◌==◌,
  if◌then◌else◌,
}
use tiny_kernels.Prelude.Int.{ℤ, pos, negsuc, minus_one, eq_ℤ}
use tiny_kernels.Prelude.Run.{Cmd, ok, pure, halt, undefined, get, or_fault, ◌>>=◌, ◌>>◌}
use tiny_kernels.Kernel.{
  Ptr, null, Pcb, proc_ready, proc_blocked, proc_zombie, proc_orphan, Kernel, ready, blocked,
  zombie, children, after_wait, after_exit, after_delay, load, store, update, write_pcb, enqueue,
  dequeue, dequeue_process, next_process, switch_to, Flow, returned,
}
use tiny_kernels.Kernel.UserBytes.{int_word, write_user}

-- `deletePCBHelper` on each child.
pub orphan_children : List Ptr → Cmd Kernel (Unit {0})
unfolding update
orphan_children [] = pure tt
orphan_children (p ∷ ps) = do
  update p (λ c. record c { parent = null; state = proc_orphan })
  orphan_children ps

-- `free` of a PCB, with its page table, kernel stack table and queue of children.
pub free_pcb : Ptr → Cmd Kernel (Unit {0})
unfolding load write_pcb
free_pcb p = do load p; λ k. ok tt (record k { pcbs = write_pcb k.pcbs p none })

-- `deletePCB`
pub delete_pcb : Ptr → Cmd Kernel (Unit {0})
unfolding orphan_children free_pcb load
delete_pcb p =
    if p == null then halt else do c ← load p; orphan_children c.children_processes; free_pcb p

-- `if (parent && parent->waiting_for_child_pid) …` of `Exit`.
pub wake_parent : (parent : Ptr) → Cmd Kernel (Unit {0})
unfolding load update enqueue
wake_parent parent = if parent == null then pure tt else do
  c ← load parent
  if eq_ℤ c.waiting_for_child_pid (pos 0) then pure tt else do
    update parent (λ c. record c { state = proc_ready; waiting_for_child_pid = pos 0 })
    enqueue ready parent

-- `Exit`, which does not return: the process with pid 1 halts the machine.
pub exit : (status : ℤ) → Cmd Kernel Flow
unfolding load delete_pcb enqueue update wake_parent next_process switch_to
exit status = do
  k ← get
  let curr = k.current_process
  c ← load curr
  if eq_ℤ c.pid (pos 1) then (do delete_pcb curr; halt) else do
    enqueue zombie curr
    update curr (λ c. record c { exit_status = status; state = proc_zombie })
    wake_parent c.parent
    next ← next_process
    switch_to after_exit curr next

-- `if (status_ptr != NULL) *status_ptr = …`: the write goes through the page table of the running
-- process, and no test of the address comes before it.
pub store_status : (status_ptr : ℕ) → (status : ℤ) → Cmd Kernel (Unit {0})
unfolding write_user
store_status status_ptr status =
    if status_ptr == 0
    then pure tt
    else do k ← get; write_user k.current_process status_ptr (int_word status)

-- The body of the loops of `Wait` at a zombie child.
pub reap : (curr : Ptr) → (status_ptr : ℕ) → (z : Ptr) → Pcb → Cmd Kernel (Option ℤ)
unfolding store_status dequeue_process delete_pcb
reap curr status_ptr z c = do
  store_status status_ptr c.exit_status
  dequeue_process (children curr) z
  dequeue_process zombie z
  delete_pcb z
  pure (some c.pid)

-- The loops of `Wait` over the nodes of `zombie_queue`: the pid of the first zombie child.
pub reap_loop : (curr : Ptr) → (pid : ℤ) → (status_ptr : ℕ) → List Ptr → Cmd Kernel (Option ℤ)
unfolding load reap
reap_loop curr pid status_ptr [] = pure none
reap_loop curr pid status_ptr (z ∷ zs) = do
  c ← load z
  if eq_ℤ c.ppid pid then reap curr status_ptr z c else reap_loop curr pid status_ptr zs

pub reap_zombie : (curr : Ptr) → (pid : ℤ) → (status_ptr : ℕ) → Cmd Kernel (Option ℤ)
unfolding reap_loop
reap_zombie curr pid status_ptr k = reap_loop curr pid status_ptr k.zombie_queue k

-- `Wait` up to its switch.
pub block_to_wait : (curr : Ptr) → (status_ptr : ℕ) → Cmd Kernel Flow
unfolding update next_process switch_to
block_to_wait curr status_ptr = do
  update curr (λ c. record c { state = proc_blocked; waiting_for_child_pid = pos 1 })
  next ← next_process
  switch_to (after_wait status_ptr) curr next

pub wait : (status_ptr : ℕ) → Cmd Kernel Flow
unfolding load reap_zombie block_to_wait
wait status_ptr = do
  k ← get
  let curr = k.current_process
  c ← load curr
  elim c.children_processes [
    | [] ↦ pure (returned minus_one)
    | _ ∷ _ ↦ do
      r ← reap_zombie curr c.pid status_ptr
      elim r [ some pid ↦ pure (returned pid) | none ↦ block_to_wait curr status_ptr ]
  ]

-- `Wait` from its switch on, for the process at `curr`.
pub wait_resumed : (curr : Ptr) → (status_ptr : ℕ) → Cmd Kernel Flow
unfolding load reap_zombie
wait_resumed curr status_ptr = do
  c ← load curr
  r ← reap_zombie curr c.pid status_ptr
  pure (returned (elim r [ some pid ↦ pid | none ↦ minus_one ]))

pub get_pid : Cmd Kernel ℤ
unfolding load
get_pid k = (do c ← load k.current_process; pure c.pid) k

abbrev pub below_minus_one : ℤ → Bool
below_minus_one (pos n) = false
below_minus_one (negsuc zero) = false
below_minus_one (negsuc (suc n)) = true

-- `Delay` up to its switch. After it, `Delay` returns 0.
pub delay : (clock_ticks : ℤ) → Cmd Kernel Flow
unfolding update enqueue next_process switch_to
delay clock_ticks =
    if eq_ℤ clock_ticks (pos 0)
    then pure (returned (pos 0))
    else if below_minus_one clock_ticks
    then pure (returned minus_one)
    else do
      k ← get
      let curr = k.current_process
      update curr (λ c. record c { delay_ticks = clock_ticks; state = proc_blocked })
      enqueue blocked curr
      next ← next_process
      switch_to after_delay curr next
