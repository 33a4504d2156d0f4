-- ===== src/SystemCall.antt =====
-- System calls: `KernelTrapHandler` of src/traps/trap.c, the dispatch to the functions of the other
-- files. A handler ends with the context that the processor goes back to, or with none where the
-- processor has been given to another process; what is then left to do for the calling process is in
-- the function whose name ends in `_resumed`. What the memory of the calling process holds at an
-- address is an argument.
pub mod TtyRead
pub mod Refusals
use tiny_kernels.Prelude.{
  ℕ, ◌-◌, ◌^◌, Bool, true, false, not, ◌&&◌, Option, none, some, List, ltb, ◌==◌, if◌then◌else◌,
  get_elem?, take,
}
use tiny_kernels.Prelude.Int.{ℤ, pos, negsuc, minus_one, eq_ℤ}
use tiny_kernels.Prelude.Run.{Cmd, pure, halt, undefined, get, ◌>>=◌, ◌>>◌}
use tiny_kernels.Kernel.{
  Ptr, Pcb, UserContext, Kernel, KernelContext, no_context, after_start, after_clock, after_delay,
  after_wait, after_exit, after_fork, after_tty_lock, after_tty_read, after_tty_write, Flow,
  returned, switched, load, update, with_result,
}
use tiny_kernels.Process.{exit, wait, wait_resumed, get_pid, delay}
use tiny_kernels.UserMemory.{brk, check_buffer}
use tiny_kernels.Clock.{clock_resumed}
use tiny_kernels.Creation.{fork, fork_resumed}
use tiny_kernels.Program.{Executable, exec}
use tiny_kernels.Kernel.UserBytes.{write_user}
use tiny_kernels.Terminals.{Terminals, on_kernel, tty_write, tty_write_locked, is_positive}
use tiny_kernels.Terminals.Reading.{tty_read}

-- The codes of yalnix.h for the calls that the handler knows.
abbrev pub yalnix_fork : ℕ
yalnix_fork = 0xabcd_ef01

abbrev pub yalnix_exec : ℕ
yalnix_exec = 0xabcd_ef02

abbrev pub yalnix_exit : ℕ
yalnix_exit = 0xabcd_ef03

abbrev pub yalnix_wait : ℕ
yalnix_wait = 0xabcd_ef04

abbrev pub yalnix_getpid : ℕ
yalnix_getpid = 0xabcd_ef05

abbrev pub yalnix_brk : ℕ
yalnix_brk = 0xabcd_ef06

abbrev pub yalnix_delay : ℕ
yalnix_delay = 0xabcd_ef07

abbrev pub yalnix_tty_read : ℕ
yalnix_tty_read = 0xabcd_ef21

abbrev pub yalnix_tty_write : ℕ
yalnix_tty_write = 0xabcd_ef22

-- What the calling process has in its memory: the program whose file name is at an address, the strings
-- of a vector of arguments, and a number of bytes at an address.
pub record UserView : Type 0 where
  pub program : ℕ → Executable
  pub argvec : ℕ → List (List ℕ)
  pub bytes : (addr len : ℕ) → List ℕ

-- The 32 bits of a register as an `int`.
abbrev pub signed32 : ℕ → ℤ
signed32 n = if ltb n (2 ^ 31) then pos n else negsuc (2 ^ 32 - 1 - n)

-- A context has 8 registers, and the handler reads the first three.
abbrev pub reg : ℕ → UserContext → ℕ
reg i ctx = elim (get_elem? ctx.regs i) [ none ↦ 0 | some n ↦ n ]

abbrev pub Handled : Type 0
Handled = Option UserContext

-- `memcpy(&current_process->user_context, ctx, sizeof(UserContext))`
unfoldable pub save_context : UserContext → Cmd Kernel (Unit {0})
unfolding update
save_context ctx k = update k.current_process (λ c. record c { user_context = ctx }) k

-- The saved context with the result in `regs[0]`.
unfoldable pub finish : Flow → Cmd Kernel Handled
unfolding clock_resumed
finish (returned r) = do ctx ← clock_resumed; pure (some (with_result r ctx))
finish switched = pure none

-- The same where the handler takes `ERROR` for a reason to halt the machine.
unfoldable pub finish_or_halt : Flow → Cmd Kernel Handled
unfolding finish
finish_or_halt (returned r) = if eq_ℤ r minus_one then halt else finish (returned r)
finish_or_halt switched = pure none

-- After `Fork` the saved context has its result already.
unfoldable pub finish_fork : Flow → Cmd Kernel Handled
unfolding clock_resumed
finish_fork (returned r) =
    if eq_ℤ r minus_one then halt else do ctx ← clock_resumed; pure (some ctx)
finish_fork switched = pure none

unfoldable pub delay_trap : UserContext → Cmd Kernel Handled
unfolding save_context finish_or_halt
delay_trap ctx = do
  save_context ctx
  delay_result ← delay (signed32 (reg 0 ctx))
  finish_or_halt delay_result

unfoldable pub brk_trap : (fuel : ℕ) → UserContext → Cmd Kernel Handled
unfolding save_context finish_or_halt
brk_trap fuel ctx = do
  save_context ctx
  brk_result ← brk fuel (reg 0 ctx)
  finish_or_halt (returned brk_result)

unfoldable pub fork_trap : UserContext → Cmd Kernel Handled
unfolding save_context finish_fork
fork_trap ctx = do save_context ctx; fork_result ← fork; finish_fork fork_result

unfoldable pub getpid_trap : UserContext → Cmd Kernel Handled
unfolding save_context finish_or_halt
getpid_trap ctx = do save_context ctx; pid_result ← get_pid; finish_or_halt (returned pid_result)

unfoldable pub wait_trap : UserContext → Cmd Kernel Handled
unfolding save_context finish
wait_trap ctx = do save_context ctx; wait_pid ← wait (reg 0 ctx); finish wait_pid

unfoldable pub exit_trap : UserContext → Cmd Kernel Handled
exit_trap ctx = do
  r ← exit (signed32 (reg 0 ctx))
  pure (elim r [ returned v ↦ some ctx | switched ↦ none ])

unfoldable pub exec_trap : UserView → UserContext → Cmd Kernel Handled
unfolding save_context finish exec
exec_trap user ctx = do
  save_context ctx
  exec_result ← exec (user.program (reg 0 ctx)) (user.argvec (reg 1 ctx))
  finish (returned exec_result)

-- The bytes that `TtyRead` has left in the kernel go to the buffer of the process.
unfoldable pub unpack : (buf : ℕ) → Cmd Kernel (Unit {0})
unfolding load update
unpack buf = do
  k ← get
  c ← load k.current_process
  elim c.tty_kernel_read_buf [
    | none ↦ pure tt
    | some bytes ↦ do
      write_user k.current_process buf (take c.kernel_read_size bytes)
      update k.current_process (λ c. record c { tty_kernel_read_buf = none; kernel_read_size = 0 })
  ]

-- The handler from the return of `TtyRead` on.
unfoldable pub tty_read_returned : (buf : ℕ) → Flow → Cmd Kernel Handled
unfolding unpack finish
tty_read_returned buf switched = pure none
tty_read_returned buf (returned rc) = do
  if is_positive rc then unpack buf else pure tt
  finish (returned rc)

unfoldable pub tty_read_trap : UserContext → Cmd Terminals Handled
tty_read_trap ctx =
    if eq_ℤ (check_buffer (reg 1 ctx) (reg 2 ctx)) minus_one
    then pure (some (with_result minus_one ctx))
    else do
      on_kernel (save_context ctx)
      rc ← tty_read (signed32 (reg 0 ctx)) (reg 1 ctx) (signed32 (reg 2 ctx))
      on_kernel (tty_read_returned (reg 1 ctx) rc)

unfoldable pub tty_write_trap : UserView → UserContext → Cmd Terminals Handled
tty_write_trap user ctx =
    if eq_ℤ (check_buffer (reg 1 ctx) (reg 2 ctx)) minus_one
    then pure (some (with_result minus_one ctx))
    else do
      on_kernel (save_context ctx)
      rc ←
          tty_write (signed32 (reg 0 ctx)) (reg 1 ctx) (signed32 (reg 2 ctx))
            (user.bytes (reg 1 ctx) (reg 2 ctx))
      on_kernel (finish rc)

-- `KernelTrapHandler`
unfoldable pub kernel_trap_handler : (fuel : ℕ) → UserView → UserContext → Cmd Terminals Handled
kernel_trap_handler fuel user ctx =
    if ctx.code == yalnix_delay
    then on_kernel (delay_trap ctx)
    else if ctx.code == yalnix_brk
    then on_kernel (brk_trap fuel ctx)
    else if ctx.code == yalnix_fork
    then on_kernel (fork_trap ctx)
    else if ctx.code == yalnix_getpid
    then on_kernel (getpid_trap ctx)
    else if ctx.code == yalnix_wait
    then on_kernel (wait_trap ctx)
    else if ctx.code == yalnix_exit
    then on_kernel (exit_trap ctx)
    else if ctx.code == yalnix_exec
    then on_kernel (exec_trap user ctx)
    else if ctx.code == yalnix_tty_read
    then tty_read_trap ctx
    else if ctx.code == yalnix_tty_write
    then tty_write_trap user ctx
    else pure (some ctx)

-- What is left of a handler when its process at `curr` gets the processor back, by the place where it
-- gave it away. `buf` is the buffer of the call. A process that has exited, or whose context has not been
-- set, does not get the processor back.
unfoldable pub handler_resumed : (curr : Ptr) → (buf : ℕ) → KernelContext → Cmd Terminals Handled
handler_resumed curr buf no_context = undefined
handler_resumed curr buf after_start = on_kernel (do ctx ← clock_resumed; pure (some ctx))
handler_resumed curr buf after_clock = on_kernel (do ctx ← clock_resumed; pure (some ctx))
handler_resumed curr buf after_delay = on_kernel (finish (returned (pos 0)))
handler_resumed curr buf (after_wait status_ptr) =
    on_kernel (do r ← wait_resumed curr status_ptr; finish r)
handler_resumed curr buf after_exit = undefined
handler_resumed curr buf (after_fork parent) =
    on_kernel (do r ← fork_resumed parent curr; finish_fork r)
handler_resumed curr buf (after_tty_lock tty_id bytes) = do
  rc ← tty_write_locked curr tty_id bytes
  on_kernel (finish rc)
handler_resumed curr buf after_tty_read =
    on_kernel (do c ← load curr; tty_read_returned buf (returned (signed32 (reg 0 c.user_context))))
handler_resumed curr buf (after_tty_write len) = on_kernel (finish (returned (pos len)))
