-- ===== src/Terminals/Reading.antt =====
-- Reading from terminals: `TtyRead` of src/syscalls/tty.c and `TtyTrapReceiveHandler` of
-- src/traps/trap.c. The bytes that `TtyReceive` gives are an argument.
pub mod Delivery
pub mod Serving
use tiny_kernels.Prelude.{
  ℕ, zero, suc, ◌+◌, ◌-◌, Bool, true, false, not, ◌||◌, Option, none, some, List, [], ◌∷◌, ◌++◌,
  ltb, ◌==◌, if◌then◌else◌, length, take, drop,
}
use tiny_kernels.Prelude.Int.{ℤ, pos, minus_one}
use tiny_kernels.Prelude.Run.{Cmd, pure, get, ◌>>=◌, ◌>>◌}
use tiny_kernels.Kernel.{
  Ptr, null, Pcb, proc_ready, proc_blocked, Kernel, ready, blocked, after_tty_read, load, update,
  malloc_result, enqueue, dequeue_process, next_process, switch_to, Flow, returned,
}
use tiny_kernels.Terminals.{
  Terminal, Terminals, on_kernel, terminal, set_terminal, is_terminal, is_positive, to_index,
}
use tiny_kernels.Kernel.{with_result}

-- The smaller of what is asked for and what is there.
abbrev pub at_most : (asked there : ℕ) → ℕ
at_most asked there = if ltb there asked then there else asked

-- `TtyRead` where there are bytes to read.
pub read_now : (curr : Ptr) → (tty_id len : ℕ) → Cmd Terminals Flow
unfolding terminal on_kernel malloc_result update set_terminal
read_now curr tty_id len = do
  t ← terminal tty_id
  let n = at_most len (length t.read_buffer)
  kernel_buffer ← on_kernel malloc_result
  if kernel_buffer == null then pure (returned minus_one) else do
    on_kernel (
        update curr (λ c. record c {
          tty_kernel_read_buf = some (take n t.read_buffer);
          kernel_read_size = n;
        }))
    set_terminal tty_id (λ t. record t { read_buffer = drop n t.read_buffer })
    pure (returned (pos n))

-- `queueEnqueue(terminal->blocked_readers, curr)`
pub wait_for_line : (tty_id : ℕ) → (curr : Ptr) → Cmd Terminals (Unit {0})
unfolding on_kernel malloc_result set_terminal
wait_for_line tty_id curr = do
  node ← on_kernel malloc_result
  if node == null
      then pure tt
      else set_terminal tty_id (λ t. record t { blocked_readers = t.blocked_readers ++ curr ∷ [] })

-- `TtyRead` up to its switch, after which it returns what the receive handler left in the context.
pub tty_read : (tty_id : ℤ) → (buf : Ptr) → (len : ℤ) → Cmd Terminals Flow
unfolding terminal read_now wait_for_line on_kernel enqueue update next_process switch_to
tty_read tty_id buf len =
    if not (is_terminal tty_id) || buf == null || not (is_positive len)
    then pure (returned minus_one)
    else do
      s ← get
      let curr = s.kernel.current_process
      t ← terminal (to_index tty_id)
      if ltb 0 (length t.read_buffer) then read_now curr (to_index tty_id) (to_index len) else do
        wait_for_line (to_index tty_id) curr
        on_kernel (do
          enqueue blocked curr
          update curr (λ c. record c {
            state = proc_blocked;
            tty_read_buf = buf;
            tty_read_len = to_index len;
          })
          next ← next_process
          switch_to after_tty_read curr next)

-- The bytes for a reader that has been waiting, in the loop of the receive handler.
pub give : (tty_id : ℕ) → (reader : Ptr) → Cmd Terminals (Unit {0})
unfolding terminal on_kernel load malloc_result update set_terminal
give tty_id reader = do
  c ← on_kernel (load reader)
  t ← terminal tty_id
  let n = at_most c.tty_read_len (length t.read_buffer)
  kernel_buffer ← on_kernel malloc_result
  if kernel_buffer == null
      then on_kernel
          (update reader (λ c. record c { user_context = with_result (pos 0) c.user_context }))
      else (do
        on_kernel (
            update reader (λ c. record c {
              tty_kernel_read_buf = some (take n t.read_buffer);
              kernel_read_size = n;
              user_context = with_result (pos n) c.user_context;
            }))
        set_terminal tty_id (λ t. record t { read_buffer = drop n t.read_buffer }))

-- The body of the loop of the receive handler.
pub deliver : (tty_id : ℕ) → (reader : Ptr) → Cmd Terminals (Unit {0})
unfolding give on_kernel dequeue_process update enqueue
deliver tty_id reader = do
  give tty_id reader
  on_kernel (do
    dequeue_process blocked reader
    update reader (λ c. record c { state = proc_ready })
    enqueue ready reader)

-- The loop of the receive handler, which takes a reader off the queue in each round.
pub deliver_loop : (tty_id : ℕ) → (readers : List Ptr) → Cmd Terminals (Unit {0})
unfolding terminal set_terminal deliver
deliver_loop tty_id [] = pure tt
deliver_loop tty_id (r ∷ rs) = do
  t ← terminal tty_id
  if length t.read_buffer == 0 then pure tt else do
    set_terminal tty_id (λ t. record t { blocked_readers = rs })
    deliver tty_id r
    deliver_loop tty_id rs

-- `TtyTrapReceiveHandler`
pub receive_handler : (tty_id : ℕ) → (received : List ℕ) → Cmd Terminals (Unit {0})
unfolding set_terminal terminal deliver_loop
receive_handler tty_id received = do
  set_terminal tty_id (λ t. record t { read_buffer = t.read_buffer ++ received })
  t ← terminal tty_id
  deliver_loop tty_id t.blocked_readers
