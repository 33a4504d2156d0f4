-- ===== src/SystemCall/Refusals.antt =====
-- The system calls at which `KernelTrapHandler` of src/traps/trap.c halts the machine.
use tiny_kernels.Prelude.{ℕ, suc, ◌≡◌, ◌≢◌, ◌⊎◌, inl, inr, refl, true, false, some, arith, ◌==◌}
use tiny_kernels.Prelude.Int.{negsuc}
use tiny_kernels.Prelude.Run.{Run, halted}
use tiny_kernels.Kernel.{null, Pcb, UserContext, Kernel}
use tiny_kernels.Kernel.Scheduling.{with_pcb, update-ok}
use tiny_kernels.Process.Sleep.{delay-minus_two}
use tiny_kernels.UserMemory.Lowering.{brk-null}
use tiny_kernels.Terminals.{Terminals, on_kernel}
use tiny_kernels.SystemCall.{
  UserView, reg, signed32, yalnix_brk, yalnix_delay, save_context, finish_or_halt, delay_trap,
  brk_trap, kernel_trap_handler,
}

on_kernel-halted :
    {A : Type 0} (c : Kernel → Run Kernel A) (s : Terminals)
    → c s.kernel ≡ halted
    → on_kernel c s ≡ halted
unfolding on_kernel
on_kernel-halted c s h = rw (on_kernel, h)

-- A Delay of less than -1 ticks, or a Brk to NULL.
abbrev pub IsFatal : UserContext → Type 0
IsFatal ctx =
    ((ctx.code ≡ yalnix_delay) × ((n : ℕ) × (signed32 (reg 0 ctx) ≡ negsuc (suc n))))
    ⊎ ((ctx.code ≡ yalnix_brk) × (reg 0 ctx ≡ 0))

module _ (s : Terminals) (c : Pcb) (ctx : UserContext) (ne : s.kernel.current_process ≢ null)
    (at : s.kernel.pcbs s.kernel.current_process ≡ some c) where
  delay_trap-halted :
      (n : ℕ) → signed32 (reg 0 ctx) ≡ negsuc (suc n) → delay_trap ctx s.kernel ≡ halted
  unfolding delay_trap save_context finish_or_halt
  delay_trap-halted n e =
      let k = with_pcb s.kernel s.kernel.current_process (record c { user_context = ctx }) in
      rw
        (
          update-ok s.kernel.current_process (λ x. record x { user_context = ctx }) c s.kernel ne
              at,
          e,
          delay-minus_two n k,
        )
        refl

  brk_trap-halted : (fuel : ℕ) → reg 0 ctx ≡ 0 → brk_trap fuel ctx s.kernel ≡ halted
  unfolding brk_trap save_context finish_or_halt
  brk_trap-halted fuel e =
      let k = with_pcb s.kernel s.kernel.current_process (record c { user_context = ctx }) in
      rw
        (
          update-ok s.kernel.current_process (λ x. record x { user_context = ctx }) c s.kernel ne
              at,
          e,
          brk-null fuel k,
        )
        refl

  -- A system call Delay of less than -1 ticks, or a Brk to NULL, of a process with a PCB halts the
  -- machine.
  pub kernel_trap_handler-halted :
      (fuel : ℕ) (user : UserView) → IsFatal ctx → kernel_trap_handler fuel user ctx s ≡ halted
  unfolding kernel_trap_handler
  kernel_trap_handler-halted fuel user (inl (call, (n, e))) =
      let t1 : (ctx.code == yalnix_delay) ≡ true = ground (arith, call) in
      rw (t1, on_kernel-halted (delay_trap ctx) s (delay_trap-halted n e)) refl
  kernel_trap_handler-halted fuel user (inr (call, e)) =
      let t1 : (ctx.code == yalnix_delay) ≡ false = ground (arith, call) in
      let t2 : (ctx.code == yalnix_brk) ≡ true = ground (arith, call) in
      rw (t1, t2, on_kernel-halted (brk_trap fuel ctx) s (brk_trap-halted fuel e)) refl
