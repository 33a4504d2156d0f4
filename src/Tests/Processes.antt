-- ===== src/Tests/Processes.antt =====
-- The theorems on scheduling and system calls, at a kernel of a few processes.
use tiny_kernels.Prelude.{
  ℕ, ◌+◌, ◌≡◌, refl, true, Option, none, some, [], ◌∷◌, arith, ◌==◌, if◌then◌else◌, replicate,
  length-replicate,
}
use tiny_kernels.Prelude.Int.{pos, minus_one}
use tiny_kernels.Prelude.Run.{Returns}
use tiny_kernels.Hardware.{Pte, invalid_pte, max_pt_len, prot_read_write}
use tiny_kernels.Memory.{Memory}
use tiny_kernels.Kernel.{
  Ptr, Pcb, ProcState, proc_ready, proc_running, proc_blocked, proc_zombie, no_context, after_clock,
  UserContext, Kernel, switched, kc_switch,
}
use tiny_kernels.Kernel.Scheduling.{HasMemory}
use tiny_kernels.Kernel.Switching.{Runnable, Switched, kc_switch-Switched}
use tiny_kernels.Process.{exit, wait, delay}
use tiny_kernels.Process.Reap.{Strangers}
use tiny_kernels.Process.Waits.{WaitBlocked, wait-Blocked}
use tiny_kernels.Process.Exits.{CanExit, Exited, exit-Exited}
use tiny_kernels.Process.Sleep.{CanDelay, delay-Waiting, delay-minus_one-Stuck}
use tiny_kernels.Clock.Ticks.{AllTicked, tick_processes-AllTicked}
use tiny_kernels.Clock.{tick_processes, clock_ticks, clock_trap_handler}
use tiny_kernels.Clock.Delays.{
  CanTick, Waiting, Woken, Stuck, clock_ticks-Waiting, clock_ticks-Woken,
}
use tiny_kernels.Clock.Rotation.{Interrupted, Rotated, clock_trap_handler-Rotated}

abbrev pub user_context : UserContext
user_context = record { vector = 0; code = 0; addr = 0; pc = 0; sp = 0; ebp = 0; regs = [] }

abbrev stack_page : ℕ → Pte
stack_page f = record { valid = true; prot = prot_read_write; pfn = f }

-- A process with its kernel stack in frames `f` and `f + 1`.
abbrev process : (pid : ℕ) → ProcState → (f : ℕ) → Pcb
process pid state f = record {
  pid = pos pid;
  state = state;
  ppid = pos 1;
  exit_status = pos 0;
  ptbr = [];
  ptlr = 128;
  user_context = user_context;
  kernel_context = no_context;
  kstack = some (stack_page f ∷ stack_page (f + 1) ∷ []);
  user_heap_start_vaddr = 0;
  user_heap_end_vaddr = 0;
  user_stack_base_vaddr = 0;
  parent = 10;
  children_processes = [];
  waiting_for_child_pid = minus_one;
  delay_ticks = pos 0;
  tty_read_buf = 0;
  tty_read_len = 0;
  tty_kernel_read_buf = none;
  kernel_read_size = 0;
}

abbrev pub memory : Memory
memory = record {
  frame_table = [];
  free_nframes = 0;
  pt_region0 = replicate max_pt_len invalid_pte;
  kernel_brk_page = 40;
  contents = λ f. [];
  registers = [];
}

-- The process at 10 with pid 1 is the parent of those at 20, 30 and 40.
abbrev pub parent : Pcb
parent = record (process 1 proc_running 1) { children_processes = 20 ∷ 30 ∷ 40 ∷ [] }

abbrev waiting_parent : Pcb
waiting_parent = record parent { state = proc_blocked; waiting_for_child_pid = pos 1 }

abbrev worker : Pcb
worker = process 2 proc_ready 3

abbrev pub sleeper : Pcb
sleeper = record (process 3 proc_blocked 5) { delay_ticks = pos 3 }

abbrev pub dead : Pcb
dead = record (process 4 proc_zombie 7) { exit_status = pos 9 }

abbrev pcbs : Ptr → Option Pcb
pcbs a =
    if a == 10
    then some parent
    else if a == 20
    then some worker
    else if a == 30
    then some sleeper
    else if a == 40
    then some dead
    else none

-- The parent runs, the worker is ready, the sleeper is blocked.
abbrev pub running : Kernel
running = record {
  memory = memory;
  pcbs = pcbs;
  idle_proc = 50;
  current_process = 10;
  ready_queue = 20 ∷ [];
  blocked_queue = 30 ∷ [];
  zombie_queue = [];
  malloc = λ n. n + 1000;
  heap = λ n m. m;
  calls = 0;
  proc_table = 50 ∷ 10 ∷ 20 ∷ 30 ∷ 40 ∷ 0 ∷ 0 ∷ [];
  new_pid = λ n. pos n;
  pids = 5;
}

-- The worker runs, and the parent waits.
abbrev working : Kernel
working = record running {
  current_process = 20;
  ready_queue = 50 ∷ [];
  pcbs = λ a.
      if a == 10
      then some waiting_parent
      else if a == 20
      then some worker
      else if a == 50
      then some (process 0 proc_ready 9)
      else none;
}

pub running-HasMemory : HasMemory running
running-HasMemory = record { gives = λ n. omega arith; stays = λ n m. refl }

running-CanTick : CanTick running
running-CanTick = record {
  distinct = (refl, tt);
  loaded = (omega arith, (sleeper, refl), tt);
  room = λ n. omega arith;
}

parent-Runnable : Runnable running 10 parent (stack_page 1) (stack_page 2)
parent-Runnable = record { not_null = omega arith; at = refl; kstack = refl }

worker-Runnable : Runnable running 20 worker (stack_page 3) (stack_page 4)
worker-Runnable = record { not_null = omega arith; at = refl; kstack = refl }

kc_switch-Switched_example :
    Returns
      (λ _. Switched after_clock running 10 parent 20 worker (stack_page 3) (stack_page 4))
      (kc_switch after_clock 10 20 running)
kc_switch-Switched_example =
    kc_switch-Switched after_clock running 10 parent (stack_page 1) (stack_page 2) 20 worker
      (stack_page 3) (stack_page 4) parent-Runnable worker-Runnable (omega arith)
      (length-replicate max_pt_len invalid_pte)

sleeper-Waiting : Waiting 30 2 running
sleeper-Waiting = record {
  can_tick = running-CanTick;
  blocked = refl;
  not_ready = refl;
  pcb = (sleeper, refl, refl);
}

clock_ticks-Waiting_example : Returns (λ _. Waiting 30 1) (clock_ticks 1 running)
clock_ticks-Waiting_example = clock_ticks-Waiting 30 1 1 running sleeper-Waiting

clock_ticks-Woken_example : Returns (λ _. Woken 30) (clock_ticks 3 running)
clock_ticks-Woken_example = clock_ticks-Woken 30 2 running sleeper-Waiting

parent-Interrupted : Interrupted running parent 20 []
parent-Interrupted = record {
  can_tick = running-CanTick;
  still = λ n m. refl;
  first = refl;
  apart = omega arith;
  not_blocked = refl;
  next_not_blocked = refl;
  running = refl;
  not_idle = refl;
  size = length-replicate max_pt_len invalid_pte;
}

clock_trap_handler-Rotated_example :
    Returns
      (λ r t. (r ≡ none) × Rotated user_context running parent 20 worker [] t)
      (clock_trap_handler user_context running)
clock_trap_handler-Rotated_example =
    clock_trap_handler-Rotated user_context running parent (stack_page 1) (stack_page 2) 20 worker
      (stack_page 3) (stack_page 4) [] parent-Runnable worker-Runnable parent-Interrupted

running-CanDelay : CanDelay running
running-CanDelay = record {
  can_tick = running-CanTick;
  not_blocked = refl;
  not_ready = refl;
  apart = omega arith;
  size = length-replicate max_pt_len invalid_pte;
}

delay-Waiting_example :
    Returns
      (λ r t. (r ≡ switched) × (t.current_process ≡ 20) × Waiting 10 4 t)
      (delay (pos 5) running)
delay-Waiting_example =
    delay-Waiting running parent (stack_page 1) (stack_page 2) worker (stack_page 3) (stack_page 4)
      parent-Runnable worker-Runnable running-CanDelay 4

delay-minus_one-Stuck_example :
    Returns
      (λ r t. (r ≡ switched) × Returns (λ _. Stuck 10) (clock_ticks 7 t))
      (delay minus_one running)
delay-minus_one-Stuck_example =
    delay-minus_one-Stuck running parent (stack_page 1) (stack_page 2) worker (stack_page 3)
      (stack_page 4) parent-Runnable worker-Runnable running-CanDelay 7

pub no-Strangers : (k : Kernel) → Strangers k (pos 1) []
no-Strangers k = record { loaded = tt; no_child = λ a x i e. absurd cc }

wait-Blocked_example :
    Returns (λ r t. (r ≡ switched) × WaitBlocked running parent 0 20 worker t) (wait 0 running)
wait-Blocked_example =
    wait-Blocked running parent (stack_page 1) (stack_page 2) worker (stack_page 3) (stack_page 4) 0
      parent-Runnable worker-Runnable (omega arith) (length-replicate max_pt_len invalid_pte) 20
      (30 ∷ 40 ∷ []) refl (no-Strangers running)

worker-CanExit : CanExit working worker waiting_parent 50 []
worker-CanExit = record {
  room = running-HasMemory;
  not_init = refl;
  has_parent = omega arith;
  parent_at = refl;
  parent_apart = omega arith;
  first = refl;
  next_apart = omega arith;
  next_not_parent = omega arith;
  size = length-replicate max_pt_len invalid_pte;
}

exit-Exited_example :
    Returns
      (λ r t.
        (r ≡ switched)
        × Exited (pos 7) working worker waiting_parent 50 (process 0 proc_ready 9) [] t)
      (exit (pos 7) working)
exit-Exited_example =
    exit-Exited (pos 7) working worker (stack_page 3) (stack_page 4) waiting_parent 50
      (process 0 proc_ready 9) (stack_page 9) (stack_page 10) []
      (record { not_null = omega arith; at = refl; kstack = refl })
      (record { not_null = omega arith; at = refl; kstack = refl }) worker-CanExit

tick_processes-AllTicked_example :
    Returns (λ _. AllTicked running (30 ∷ [])) (tick_processes (30 ∷ []) running)
tick_processes-AllTicked_example =
    tick_processes-AllTicked (30 ∷ []) running (refl, tt) (omega arith, (sleeper, refl), tt)
      (λ n. omega arith)
