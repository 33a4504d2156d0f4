-- ===== src/Clock/Rotation.antt =====
-- How the clock interrupt shares the processor: `ClockTrapHandler` of src/traps/trap.c.
use tiny_kernels.Prelude.{
  ◌+◌, ◌≡◌, ◌≢◌, refl, ◌∙◌, ap, true, false, none, some, List, [], ◌∷◌, ◌++◌, arith, ◌==◌, length,
}
use tiny_kernels.Prelude.Int.{pos, eq_ℤ}
use tiny_kernels.Prelude.Run.{ok, Returns, bind, mono}
use tiny_kernels.Hardware.{Pte, max_pt_len}
use tiny_kernels.Kernel.{
  Ptr, null, Pcb, proc_ready, proc_running, UserContext, Kernel, after_clock, kc_switch,
}
use tiny_kernels.Kernel.Scheduling.{
  NeverFails-same, StaysPut, StaysPut-same, HasMemory, mem, Loaded-cong, with_pcb, load-ok,
  update-ok, write_pcb-if, enqueue_ready,
}
use tiny_kernels.Kernel.Switching.{Runnable, Switched, kc_switch-Switched}
use tiny_kernels.Clock.{clock_tick, preempt, clock_trap_handler}
use tiny_kernels.Clock.Ticks.{expired, without_all, expired_cong, AllTicked}
use tiny_kernels.Clock.Delays.{CanTick, clock_tick-AllTicked}

-- A running process other than the idle one is interrupted by the clock, and others are ready.
pub record Interrupted (k : Kernel) (c : Pcb) (next : Ptr) (q : List Ptr) : Type 0 where
  pub can_tick : CanTick k
  pub still : StaysPut k
  pub first : k.ready_queue ≡ next ∷ q
  pub apart : k.current_process ≢ next
  pub not_blocked : mem k.current_process k.blocked_queue ≡ false
  pub next_not_blocked : mem next k.blocked_queue ≡ false
  pub running : c.state ≡ proc_running
  pub not_idle : eq_ℤ c.pid (pos 0) ≡ false
  pub size : length k.memory.pt_region0 ≡ max_pt_len

-- The processor has gone to the first ready process.
pub record Rotated (ctx : UserContext) (k : Kernel) (c : Pcb) (next : Ptr) (n : Pcb) (q : List Ptr)
    (t : Kernel) : Type 0 where
  pub current : t.current_process ≡ next
  pub ready_queue : t.ready_queue ≡ q ++ expired k.pcbs k.blocked_queue ++ k.current_process ∷ []
  pub blocked_queue : t.blocked_queue ≡ without_all (expired k.pcbs k.blocked_queue) k.blocked_queue
  pub interrupted :
      t.pcbs k.current_process
      ≡ some (record c { user_context = ctx; state = proc_ready; kernel_context = after_clock })
  pub resumed : t.pcbs next ≡ some (record n { state = proc_running })
  pub frames : t.memory.frame_table ≡ k.memory.frame_table

module _ (ctx : UserContext) (k : Kernel) (c : Pcb) (e' f' : Pte) (next : Ptr) (n : Pcb) (e f : Pte)
    (q : List Ptr) (from : Runnable k k.current_process c e' f') (to : Runnable k next n e f)
    (i : Interrupted k c next q) where
  abbrev curr : Ptr
  curr = k.current_process

  abbrev c1 : Pcb
  c1 = record c { user_context = ctx }

  abbrev k1 : Kernel
  k1 = with_pcb k curr c1

  others : (a : Ptr) → mem a k.blocked_queue ≡ true → k1.pcbs a ≡ k.pcbs a
  others a h =
      let apart : a ≢ curr = λ eq. ground (arith, i.not_blocked, h) in
      rw (write_pcb-if k.pcbs curr (some c1) a) (ground (arith, apart))

  can_tick : CanTick k1
  can_tick = record {
    distinct = i.can_tick.distinct;
    loaded = Loaded-cong k k1 k.blocked_queue others i.can_tick.loaded;
    room = i.can_tick.room;
  }

  module _ (t : Kernel) (h : AllTicked k1 k.blocked_queue t) where
    ready_after : t.ready_queue ≡ next ∷ (q ++ expired k.pcbs k.blocked_queue)
    ready_after = h.ready_queue ∙ rw (i.first, expired_cong k.pcbs k1.pcbs k.blocked_queue others)

    curr_after : t.pcbs curr ≡ some c1
    curr_after =
        h.pcbs curr c1 (rw (write_pcb-if k.pcbs curr (some c1) curr) (ground arith))
        ∙ rw (i.not_blocked) refl

    next_after : t.pcbs next ≡ some n
    next_after =
        h.pcbs next n
          (rw (write_pcb-if k.pcbs curr (some c1) next) (ground (arith, to.at, i.apart)))
        ∙ rw (i.next_not_blocked) refl

    abbrev waiting : List Ptr
    waiting = q ++ expired k.pcbs k.blocked_queue

    abbrev t1 : Kernel
    t1 = record t { ready_queue = waiting }

    abbrev c2 : Pcb
    c2 = record c1 { state = proc_ready }

    abbrev t2 : Kernel
    t2 = record (with_pcb t1 curr c2) { calls = t.calls + 1; ready_queue = waiting ++ curr ∷ [] }

    room : HasMemory t1
    room =
        let (_, _, _, _, m, g) = h.same in
        record {
          gives = NeverFails-same k t1 m i.can_tick.room;
          stays = StaysPut-same k t1 g i.still;
        }

    preempt-ok : preempt curr next t1 ≡ kc_switch after_clock curr next t2
    unfolding preempt
    preempt-ok = rw (
      load-ok curr c1 t1 from.not_null curr_after,
      i.running,
      i.not_idle,
      update-ok curr (λ x. record x { state = proc_ready }) c1 t1 from.not_null curr_after,
      enqueue_ready curr (with_pcb t1 curr c2) from.not_null room,
    )

    preempt-Rotated : Returns (λ _. Rotated ctx k c next n q) (preempt curr next t1)
    preempt-Rotated =
        let left : Runnable t2 curr c2 e' f' = record {
          not_null = from.not_null;
          at = rw (write_pcb-if t.pcbs curr (some c2) curr) (ground arith);
          kstack = from.kstack;
        } in
        let right : Runnable t2 next n e f = record {
          not_null = to.not_null;
          at = rw (write_pcb-if t.pcbs curr (some c2) next) (ground (arith, next_after, i.apart));
          kstack = to.kstack;
        } in
        let size : length t2.memory.pt_region0 ≡ max_pt_len =
          let (same, _, _, _, _, _) = h.same in rw (same i.still) i.size in
        rw preempt-ok (
          mono (λ _. Switched after_clock t2 curr c2 next n e f) (λ _. Rotated ctx k c next n q) _
            (kc_switch-Switched after_clock t2 curr c2 e' f' next n e f left right i.apart size)
            λ _ u s. record {
              current = s.current;
              ready_queue = s.ready_queue;
              blocked_queue =
                  s.blocked_queue
                  ∙ h.blocked_queue
                  ∙ rw (expired_cong k.pcbs k1.pcbs k.blocked_queue others);
              interrupted = ground (arith, s.pcbs curr, i.apart);
              resumed = ground (arith, s.pcbs next);
              frames =
                  s.frames
                  ∙ (let (same, _, _, _, _, _) = h.same in ap (λ m. m.frame_table) (same i.still));
            })

  -- At a clock interrupt of a running process other than the idle one, with `next` the first of
  -- the ready queue, the processes whose delay ends with this tick move from the blocked queue to
  -- the end of the ready queue; the interrupted process goes behind them in state READY, with the
  -- interrupted context in its PCB; `next` leaves the ready queue and is the current process, in
  -- state RUNNING. The handler does not go back to the interrupted process, and the frame table is
  -- unchanged. The conditions: the blocked queue names each process once, each with a PCB, and
  -- neither of these two, which differ; both have a kernel stack of two pages; `malloc` does not
  -- fail and does not move the break of the heap; the table of region 0 is whole.
  pub clock_trap_handler-Rotated :
      Returns (λ r t. (r ≡ none) × Rotated ctx k c next n q t) (clock_trap_handler ctx k)
  unfolding clock_trap_handler
  clock_trap_handler-Rotated =
      rw (update-ok curr (λ x. record x { user_context = ctx }) c k from.not_null from.at) (
        bind (λ _. AllTicked k1 k.blocked_queue) (λ r t. (r ≡ none) × Rotated ctx k c next n q t)
          (clock_tick k1) _ (clock_tick-AllTicked k1 can_tick)
          λ _ t h.
            let here : (next == null) ≡ false = ground (arith, to.not_null) in
            rw (ready_after t h, here)
              (bind (λ _. Rotated ctx k c next n q) (λ r t. (r ≡ none) × Rotated ctx k c next n q t)
                (preempt curr next (t1 t h)) (λ _. ok none) (preempt-Rotated t h)
                (λ _ u s. (refl, s))))
