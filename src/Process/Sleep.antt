-- ===== src/Process/Sleep.antt =====
-- `Delay` of src/syscalls/process.c together with the clock interrupts that follow it.
use tiny_kernels.Prelude.{
  ℕ, suc, ◌+◌, ◌≡◌, ◌≢◌, refl, ◌∙◌, true, false, some, List, [], ◌∷◌, ◌++◌, arith, ◌==◌, length,
  inl, inr, Bool-cases,
}
use tiny_kernels.Prelude.Int.{negsuc, ℤ, pos, minus_one, eq_ℤ}
use tiny_kernels.Prelude.Run.{ok, Returns, bind, mono}
use tiny_kernels.Hardware.{Pte, max_pt_len}
use tiny_kernels.Kernel.{
  Ptr, null, Pcb, proc_running, proc_blocked, kc_switch, after_delay, Kernel, returned, switched,
  rest, switch_to,
}
use tiny_kernels.Kernel.Scheduling.{
  NeverFails-same, mem, Distinct, Loaded, with_pcb, update-ok, write_pcb-if, enqueue_blocked_moves,
  next_of, next_process-ok,
}
use tiny_kernels.Kernel.Switching.{Runnable, Switched, kc_switch-Switched}
use tiny_kernels.Process.{below_minus_one, delay}
use tiny_kernels.Clock.{clock_ticks}
use tiny_kernels.Clock.Delays.{CanTick, Waiting, Stuck, mem-append, clock_ticks-Stuck}

Distinct-snoc : (q : List Ptr) (p : Ptr) → Distinct q → mem p q ≡ false → Distinct (q ++ p ∷ [])
Distinct-snoc [] p d out = (refl, tt)
Distinct-snoc (x ∷ q) p (here, d) out =
    (mem-append x q (p ∷ []) ∙ ground (arith, here), Distinct-snoc q p d (ground arith))

-- No PCB of the first state is missing in the second.
abbrev Kept : Kernel → Kernel → Type 0
Kept k t = (a : Ptr) (x : Pcb) → k.pcbs a ≡ some x → (y : Pcb) × (t.pcbs a ≡ some y)

Loaded-snoc :
    (k t : Kernel) (q : List Ptr) (p : Ptr) (x : Pcb)
    → Kept k t
    → Loaded k q
    → p ≢ null
    → t.pcbs p ≡ some x
    → Loaded t (q ++ p ∷ [])
Loaded-snoc k t [] p x kept l ne at = (ne, (x, at), tt)
Loaded-snoc k t (a ∷ q) p x kept (na, (c, here), l) ne at =
    (na, kept a c here, Loaded-snoc k t q p x kept l ne at)

abbrev delayed : ℤ → Pcb → Pcb
delayed d c = record c { delay_ticks = d; state = proc_blocked }

-- A process that can call `Delay`: it is on neither queue, and another process can run next.
pub record CanDelay (k : Kernel) : Type 0 where
  pub can_tick : CanTick k
  pub not_blocked : mem k.current_process k.blocked_queue ≡ false
  pub not_ready : mem k.current_process (rest k.ready_queue) ≡ false
  pub apart : k.current_process ≢ next_of k
  pub size : length (k.heap k.calls k.memory).pt_region0 ≡ max_pt_len

module _ (k : Kernel) (c : Pcb) (e' f' : Pte) (n : Pcb) (e f : Pte)
    (from : Runnable k k.current_process c e' f') (to : Runnable k (next_of k) n e f)
    (can : CanDelay k) where
  module _ (d : ℤ) (not_zero : eq_ℤ d (pos 0) ≡ false) (accepted : below_minus_one d ≡ false) where
    abbrev k2 : Kernel
    k2 = record (with_pcb k k.current_process (delayed d c)) {
      calls = k.calls + 1;
      memory = k.heap k.calls k.memory;
      blocked_queue = k.blocked_queue ++ k.current_process ∷ [];
      ready_queue = rest k.ready_queue;
    }

    delay-ok : delay d k ≡ switch_to after_delay k.current_process (next_of k) k2
    unfolding delay
    delay-ok =
        rw
          (
            not_zero,
            accepted,
            update-ok k.current_process (delayed d) c k from.not_null from.at,
            enqueue_blocked_moves k.current_process (with_pcb k k.current_process (delayed d c))
                from.not_null can.can_tick.room,
            next_process-ok (record k2 { ready_queue = k.ready_queue }),
          )
          refl

    left : Runnable k2 k.current_process (delayed d c) e' f'
    left = record {
      not_null = from.not_null;
      at =
          rw (write_pcb-if k.pcbs k.current_process (some (delayed d c)) k.current_process)
            (ground arith);
      kstack = from.kstack;
    }

    right : Runnable k2 (next_of k) n e f
    right = record {
      not_null = to.not_null;
      at =
          rw (write_pcb-if k.pcbs k.current_process (some (delayed d c)) (next_of k))
            (ground (arith, to.at, can.apart));
      kstack = to.kstack;
    }

    abbrev IsSwitched : Kernel → Type 0
    IsSwitched = Switched after_delay k2 k.current_process (delayed d c) (next_of k) n e f

    delay-Switched : Returns (λ r t. (r ≡ switched) × IsSwitched t) (delay d k)
    unfolding switch_to
    delay-Switched = rw delay-ok (
        bind (λ _. IsSwitched) (λ r t. (r ≡ switched) × IsSwitched t)
          (kc_switch after_delay k.current_process (next_of k) k2) _
          (kc_switch-Switched after_delay k2 k.current_process (delayed d c) e' f' (next_of k) n e f
            left right can.apart can.size)
          (λ _ t s. (refl, s)))

    module _ (t : Kernel) (s : IsSwitched t) where
      caller_at :
          t.pcbs k.current_process ≡ some (record (delayed d c) { kernel_context = after_delay })
      caller_at = ground (arith, s.pcbs k.current_process, can.apart)

      kept : Kept k t
      kept a x at = elim (Bool-cases (a == next_of k)) [
        | inl i ↦ (record n { state = proc_running }, s.pcbs a ∙ rw i refl)
        | inr i ↦ elim (Bool-cases (a == k.current_process)) [
          | inl j ↦
              (record (delayed d c) { kernel_context = after_delay }, s.pcbs a ∙ rw (i, j) refl)
          | inr j ↦ (
            x,
            s.pcbs a
                ∙ rw (i, j)
                    (rw (write_pcb-if k.pcbs k.current_process (some (delayed d c)) a, j) at),
          )
        ]
      ]

      CanTick-delayed : CanTick t
      CanTick-delayed = record {
        distinct =
            rw s.blocked_queue (
              Distinct-snoc k.blocked_queue k.current_process can.can_tick.distinct
                can.not_blocked);
        loaded = rw s.blocked_queue (
            Loaded-snoc k t k.blocked_queue k.current_process _ kept can.can_tick.loaded
              from.not_null caller_at);
        room = NeverFails-same k t s.malloc can.can_tick.room;
      }

      now_blocked : mem k.current_process t.blocked_queue ≡ true
      now_blocked =
          rw
            (s.blocked_queue, mem-append k.current_process k.blocked_queue (k.current_process ∷ []))
            (ground arith)

      still_not_ready : mem k.current_process t.ready_queue ≡ false
      still_not_ready = rw s.ready_queue can.not_ready

  -- `Delay` of n + 1 ticks gives the processor to the next process, and leaves the caller on the
  -- blocked queue, off the ready queue, with `delay_ticks` equal to n + 1, in a state where clock
  -- ticks can count it down. The conditions: the blocked queue names each process once, each with
  -- a PCB, the caller is not on it, nor on the ready queue behind its first process, `malloc` does
  -- not fail, the next process is another one, both have a kernel stack of two pages, and the
  -- table of region 0 is whole after the call of `malloc`.
  pub delay-Waiting :
      (m : ℕ)
      → Returns
          (λ r t. (r ≡ switched) × (t.current_process ≡ next_of k) × Waiting k.current_process m t)
          (delay (pos (suc m)) k)
  delay-Waiting m =
      let d = pos (suc m) in
      let nz : eq_ℤ (pos (suc m)) (pos 0) ≡ false = ground arith in
      mono (λ r t. (r ≡ switched) × IsSwitched d nz refl t)
        (λ r t. (r ≡ switched) × (t.current_process ≡ next_of k) × Waiting k.current_process m t) _
        (delay-Switched d nz refl)
        λ r t h.
          let (e, s) = h in
          (
            e,
            s.current,
            record {
              can_tick = CanTick-delayed d nz refl t s;
              blocked = now_blocked d nz refl t s;
              not_ready = still_not_ready d nz refl t s;
              pcb = (_, caller_at d nz refl t s, refl);
            },
          )

  -- `Delay` of -1 blocks the caller too, and after any number of clock ticks the caller is still
  -- on the blocked queue and off the ready queue, with `delay_ticks` equal to -1. The conditions:
  -- the blocked queue names each process once, each with a PCB, the caller is not on it, nor on
  -- the ready queue behind its first process, `malloc` does not fail, the next process is another
  -- one, both have a kernel stack of two pages, and the table of region 0 is whole after the call
  -- of `malloc`.
  pub delay-minus_one-Stuck :
      (m : ℕ)
      → Returns
          (λ r t. (r ≡ switched) × Returns (λ _. Stuck k.current_process) (clock_ticks m t))
          (delay minus_one k)
  delay-minus_one-Stuck m =
      mono (λ r t. (r ≡ switched) × IsSwitched minus_one refl refl t)
        (λ r t. (r ≡ switched) × Returns (λ _. Stuck k.current_process) (clock_ticks m t)) _
        (delay-Switched minus_one refl refl)
        λ r t h.
          let (e, s) = h in
          (
            e,
            clock_ticks-Stuck k.current_process m t (record {
              can_tick = CanTick-delayed minus_one refl refl t s;
              blocked = now_blocked minus_one refl refl t s;
              not_ready = still_not_ready minus_one refl refl t s;
              pcb = (_, caller_at minus_one refl refl t s, refl);
            }),
          )

-- `Delay` of less than -1 ticks is refused.
pub delay-minus_two : (n : ℕ) (k : Kernel) → delay (negsuc (suc n)) k ≡ ok (returned minus_one) k
unfolding delay
delay-minus_two n k = refl
