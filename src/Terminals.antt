-- ===== src/Terminals.antt =====
-- Writing to terminals: `TtyWrite` and `BeginTtyTransmit` of src/syscalls/tty.c, and
-- `TtyTrapTransmitHandler` of src/traps/trap.c. The bytes in the memory of the process that writes
-- are an argument. `sent` records the calls of `TtyTransmit` for a terminal, the oldest first.
pub mod Transmission
pub mod HandOver
pub mod Reading
use tiny_kernels.Prelude.{
  ℕ, zero, suc, ◌+◌, ◌-◌, Bool, true, false, not, ◌||◌, Option, none, some, List, [], ◌∷◌, ◌++◌,
  ltb, leb, ◌==◌, if◌then◌else◌, length, take, drop, set,
}
use tiny_kernels.Prelude.Int.{ℤ, pos, negsuc, minus_one, eq_ℤ}
use tiny_kernels.Prelude.Run.{Cmd, ok, halted, fault, out_of_fuel, pure, get, or_fault, ◌>>=◌, ◌>>◌}
use tiny_kernels.Kernel.{
  Ptr, null, Pcb, proc_ready, proc_blocked, UserContext, Kernel, ready, blocked, after_tty_lock,
  after_tty_write, update, malloc_result, enqueue, dequeue_process, next_process, switch_to,
  head_or_null, rest, Flow, returned, with_result,
}

abbrev pub terminal_max_line : ℕ
terminal_max_line = 1024

abbrev pub num_terminals : ℕ
num_terminals = 4

-- `terminal_t`. The read buffer is the bytes of it that are filled.
pub record Terminal : Type 0 where
  pub blocked_writers : List Ptr
  pub blocked_readers : List Ptr
  pub read_buffer : List ℕ
  pub write_buffer : Option (List ℕ)
  pub write_buffer_len : ℕ
  pub write_buffer_position : ℕ
  pub current_writer : Ptr
  pub in_use : Bool
  pub sent : List (List ℕ)

-- The kernel with its array `terminals`.
pub record Terminals : Type 0 where
  pub kernel : Kernel
  pub terminals : ℕ → Terminal

-- A command of the kernel as one with the terminals.
unfoldable pub on_kernel : {A : Type 0} → Cmd Kernel A → Cmd Terminals A
on_kernel c s = elim (c s.kernel) [
  | ok a k ↦ ok a (record s { kernel = k })
  | halted ↦ halted
  | fault ↦ fault
  | out_of_fuel ↦ out_of_fuel
]

unfoldable pub terminal : ℕ → Cmd Terminals Terminal
terminal i s = ok (s.terminals i) s

-- Assignments to members of `terminals[i]`.
unfoldable pub set_terminal : ℕ → (Terminal → Terminal) → Cmd Terminals (Unit {0})
set_terminal i g s =
    ok tt (record s { terminals = λ j. if j == i then g (s.terminals i) else s.terminals j })

-- `TtyTransmit` of `n` bytes of the write buffer from a position on.
unfoldable pub tty_transmit : (tty_id position n : ℕ) → Cmd Terminals (Unit {0})
unfolding terminal set_terminal
tty_transmit tty_id position n = do
  t ← terminal tty_id
  buf ← or_fault t.write_buffer
  set_terminal tty_id (λ t. record t { sent = t.sent ++ take n (drop position buf) ∷ [] })

-- `(n > TERMINAL_MAX_LINE) ? TERMINAL_MAX_LINE : n`
abbrev pub one_line : ℕ → ℕ
one_line n = if ltb terminal_max_line n then terminal_max_line else n

-- `BeginTtyTransmit`
pub begin_tty_transmit : (tty_id : ℕ) → (writer : Ptr) → (bytes : List ℕ) → Cmd Terminals ℤ
unfolding on_kernel malloc_result set_terminal update tty_transmit
begin_tty_transmit tty_id writer bytes = do
  p ← on_kernel malloc_result
  if p == null
      then (do
        set_terminal tty_id (λ t. record t { write_buffer = none })
        on_kernel
            (update writer (λ c. record c { user_context = with_result minus_one c.user_context }))
        pure minus_one)
      else (do
        set_terminal tty_id (λ t. record t {
          write_buffer = some bytes;
          write_buffer_len = length bytes;
          write_buffer_position = 0;
          current_writer = writer;
        })
        tty_transmit tty_id 0 (one_line (length bytes))
        set_terminal tty_id (λ t. record t { write_buffer_position = one_line (length bytes) })
        pure (pos 0))

-- The process at `writer` is put back on the ready queue.
unfoldable pub make_ready : Ptr → Cmd Kernel (Unit {0})
unfolding update enqueue
make_ready writer = do update writer (λ c. record c { state = proc_ready }); enqueue ready writer

-- `TtyWrite` from the point on where the terminal is this process's.
pub tty_write_locked : (curr : Ptr) → (tty_id : ℕ) → (bytes : List ℕ) → Cmd Terminals Flow
unfolding set_terminal begin_tty_transmit terminal on_kernel make_ready update enqueue next_process
    switch_to
tty_write_locked curr tty_id bytes = do
  set_terminal tty_id (λ t. record t { in_use = true })
  result ← begin_tty_transmit tty_id curr bytes
  if eq_ℤ result minus_one
      then (do
        set_terminal tty_id (λ t. record t { in_use = false })
        t ← terminal tty_id
        elim t.blocked_writers [
          | [] ↦ pure (returned minus_one)
          | w ∷ ws ↦ do
            set_terminal tty_id (λ t. record t { blocked_writers = ws })
            on_kernel (make_ready w)
            pure (returned minus_one)
        ])
      else (on_kernel (do
        update curr (λ c. record c { state = proc_blocked })
        enqueue blocked curr
        next ← next_process
        switch_to (after_tty_write (length bytes)) curr next))

-- `queueEnqueue(terminal->blocked_writers, curr)`
unfoldable pub wait_for_terminal : (tty_id : ℕ) → (curr : Ptr) → Cmd Terminals (Unit {0})
unfolding on_kernel malloc_result set_terminal
wait_for_terminal tty_id curr = do
  node ← on_kernel malloc_result
  if node == null
      then pure tt
      else set_terminal tty_id (λ t. record t { blocked_writers = t.blocked_writers ++ curr ∷ [] })

abbrev pub is_terminal : ℤ → Bool
is_terminal (pos n) = ltb n num_terminals
is_terminal (negsuc n) = false

abbrev pub is_positive : ℤ → Bool
is_positive (pos n) = ltb 0 n
is_positive (negsuc n) = false

abbrev pub to_index : ℤ → ℕ
to_index (pos n) = n
to_index (negsuc n) = 0

-- `TtyWrite`, up to its first switch, where `bytes` are the `len` bytes at `buf`.
pub tty_write : (tty_id : ℤ) → (buf : Ptr) → (len : ℤ) → (bytes : List ℕ) → Cmd Terminals Flow
unfolding terminal on_kernel wait_for_terminal tty_write_locked update enqueue next_process
    switch_to
tty_write tty_id buf len bytes =
    if not (is_terminal tty_id) || buf == null || not (is_positive len)
    then pure (returned minus_one)
    else do
      s ← get
      let curr = s.kernel.current_process
      t ← terminal (to_index tty_id)
      if not t.in_use then tty_write_locked curr (to_index tty_id) bytes else do
        wait_for_terminal (to_index tty_id) curr
        on_kernel (do
          update curr (λ c. record c { state = proc_blocked })
          enqueue blocked curr
          next ← next_process
          switch_to (after_tty_lock (to_index tty_id) bytes) curr next)

-- A process that was blocked is made ready.
unfoldable pub wake : Ptr → Cmd Kernel (Unit {0})
unfolding update dequeue_process enqueue
wake p = do
  update p (λ c. record c { state = proc_ready })
  dequeue_process blocked p
  enqueue ready p

-- The wake-up of the writer that is done, with the number of bytes written.
unfoldable pub wake_writer : Ptr → (bytes_written : ℕ) → Cmd Kernel (Unit {0})
unfolding update wake
wake_writer p bytes_written = if p == null then pure tt else do
  update p (λ c. record c { user_context = with_result (pos bytes_written) c.user_context })
  wake p

-- `TtyTrapTransmitHandler` where all bytes are sent.
pub finish_write : (tty_id : ℕ) → Cmd Terminals (Unit {0})
unfolding terminal set_terminal on_kernel wake_writer wake
finish_write tty_id = do
  t ← terminal tty_id
  set_terminal tty_id (λ t. record t {
    write_buffer = none;
    write_buffer_len = 0;
    write_buffer_position = 0;
    current_writer = null;
  })
  on_kernel (wake_writer t.current_writer t.write_buffer_len)
  elim t.blocked_writers [
    | [] ↦ set_terminal tty_id (λ t. record t { in_use = false })
    | w ∷ ws ↦ do set_terminal tty_id (λ t. record t { blocked_writers = ws }); on_kernel (wake w)
  ]

-- `TtyTrapTransmitHandler`
pub transmit_handler : (tty_id : ℕ) → Cmd Terminals (Unit {0})
unfolding terminal tty_transmit set_terminal finish_write
transmit_handler tty_id = do
  t ← terminal tty_id
  if not (ltb t.write_buffer_position t.write_buffer_len) then finish_write tty_id else do
    let n = one_line (t.write_buffer_len - t.write_buffer_position)
    tty_transmit tty_id t.write_buffer_position n
    set_terminal tty_id (λ t. record t { write_buffer_position = t.write_buffer_position + n })

-- Several transmit interrupts of one terminal.
pub transmit_handlers : (rounds tty_id : ℕ) → Cmd Terminals (Unit {0})
unfolding transmit_handler
transmit_handlers zero tty_id = pure tt
transmit_handlers (suc n) tty_id = do transmit_handler tty_id; transmit_handlers n tty_id
