-- ===== src/Clock.antt =====
-- `ClockTrapHandler` and `trapHandlerHelper` of src/traps/trap.c.
pub mod Ticks
pub mod Delays
pub mod Rotation
use tiny_kernels.Prelude.{
  ℕ, zero, suc, ◌+◌, ◌-◌, Bool, true, false, not, ◌&&◌, Option, none, some, List, [], ◌∷◌, ◌==◌,
  if◌then◌else◌,
}
use tiny_kernels.Prelude.Int.{ℤ, pos, negsuc, eq_ℤ}
use tiny_kernels.Prelude.Run.{Cmd, ok, pure, get, ◌>>=◌, ◌>>◌}
use tiny_kernels.Kernel.{
  Ptr, null, Pcb, ProcState, proc_ready, proc_running, proc_free, proc_blocked, proc_zombie,
  proc_orphan, UserContext, Kernel, ready, blocked, after_clock, load, update, enqueue, dequeue,
  dequeue_process, kc_switch,
}

-- One tick of a delayed process with the value of its `delay_ticks`, which counts down while it is
-- positive.
pub count_down : Ptr → (delay_ticks : ℤ) → Cmd Kernel (Unit {0})
unfolding update enqueue dequeue_process
count_down p (negsuc n) = pure tt
count_down p (pos zero) = pure tt
count_down p (pos (suc n)) = do
  update p (λ c. record c { delay_ticks = pos n })
  if n == 0
      then (do
        dequeue_process blocked p
        update p (λ c. record c { state = proc_ready })
        enqueue ready p)
      else pure tt

pub tick_process : Ptr → Cmd Kernel (Unit {0})
unfolding load count_down
tick_process p = do c ← load p; count_down p c.delay_ticks

-- `queueIterate` over the processes that are in the queue when it starts.
pub tick_processes : List Ptr → Cmd Kernel (Unit {0})
unfolding tick_process
tick_processes [] = pure tt
tick_processes (p ∷ ps) = do tick_process p; tick_processes ps

abbrev pub is_running : ProcState → Bool
is_running proc_running = true
is_running proc_free = false
is_running proc_ready = false
is_running proc_blocked = false
is_running proc_zombie = false
is_running proc_orphan = false

-- The countdown of one clock interrupt, and of several in a row.
pub clock_tick : Cmd Kernel (Unit {0})
clock_tick k = tick_processes k.blocked_queue k

pub clock_ticks : ℕ → Cmd Kernel (Unit {0})
clock_ticks zero = pure tt
clock_ticks (suc n) = do clock_tick; clock_ticks n

-- Putting the interrupted process back, and the switch to the next one.
pub preempt : (curr next : Ptr) → Cmd Kernel (Unit {0})
unfolding load update enqueue kc_switch
preempt curr next = do
  c ← load curr
  if is_running c.state && not (eq_ℤ c.pid (pos 0))
      then (do update curr (λ c. record c { state = proc_ready }); enqueue ready curr)
      else pure tt
  kc_switch after_clock curr next

-- The end of the handler, for the process that is current then.
unfoldable pub clock_resumed : Cmd Kernel UserContext
unfolding load
clock_resumed k = (do c ← load k.current_process; pure c.user_context) k

-- The handler: the context that the processor goes back to, or none where it has been given to
-- another process, and `clock_resumed` is still to be run for this one.
pub clock_trap_handler : UserContext → Cmd Kernel (Option UserContext)
unfolding update clock_tick dequeue preempt clock_resumed
clock_trap_handler ctx = do
  k ← get
  let curr = k.current_process
  update curr (λ c. record c { user_context = ctx })
  clock_tick
  next ← dequeue ready
  if next == null then (do c ← clock_resumed; pure (some c)) else (do preempt curr next; pure none)
