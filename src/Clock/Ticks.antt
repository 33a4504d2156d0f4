-- ===== src/Clock/Ticks.antt =====
-- The countdown of delayed processes: `trapHandlerHelper` over `blocked_queue` (src/traps/trap.c).
use tiny_kernels.Prelude.{
  zero, suc, ◌≡◌, ◌≢◌, refl, sym, ◌∙◌, ap, inl, inr, Bool, true, false, Option, none, some, List,
  [], ◌∷◌, ◌++◌, append_assoc, append-nil, arith, ◌==◌, if◌then◌else◌, Bool-cases, some_unique,
  subst,
}
use tiny_kernels.Prelude.Int.{ℤ, pos, negsuc}
use tiny_kernels.Prelude.Run.{Returns, bind, mono}
use tiny_kernels.Kernel.{Ptr, null, Pcb, proc_ready, Kernel, without, write_pcb}
use tiny_kernels.Kernel.Scheduling.{
  NeverFails, NeverFails-same, StaysPut, StaysPut-same, enqueue_ready_moves, mem, Distinct, Loaded,
  Loaded-cong, with_pcb, load-ok, update-ok, write_pcb-if, dequeue_process_blocked,
}
use tiny_kernels.Clock.{count_down, tick_process, tick_processes}

-- The delay ends with this tick.
abbrev pub is_last : (delay_ticks : ℤ) → Bool
is_last (negsuc n) = false
is_last (pos n) = n == 1

abbrev pub after_tick : (delay_ticks : ℤ) → Pcb → Pcb
after_tick (negsuc n) c = c
after_tick (pos zero) c = c
after_tick (pos (suc zero)) c = record c { delay_ticks = pos 0; state = proc_ready }
after_tick (pos (suc (suc n))) c = record c { delay_ticks = pos (suc n) }

-- The parts of the kernel that no tick touches.
abbrev pub SameRest : Kernel → Kernel → Type 0
SameRest k t =
    (StaysPut k → t.memory ≡ k.memory)
    × (t.idle_proc ≡ k.idle_proc)
    × (t.current_process ≡ k.current_process)
    × (t.zombie_queue ≡ k.zombie_queue)
    × (t.malloc ≡ k.malloc)
    × (t.heap ≡ k.heap)

-- What the tick of the process at `p`, with the PCB `c` and delay `d`, changes.
pub record Ticked (k : Kernel) (p : Ptr) (c : Pcb) (d : ℤ) (t : Kernel) : Type 0 where
  pub pcbs : (a : Ptr) → t.pcbs a ≡ (if a == p then some (after_tick d c) else k.pcbs a)
  pub ready_queue : t.ready_queue ≡ (if is_last d then k.ready_queue ++ p ∷ [] else k.ready_queue)
  pub blocked_queue :
      t.blocked_queue ≡ (if is_last d then without p k.blocked_queue else k.blocked_queue)
  pub same : SameRest k t

same_rest : (k : Kernel) → SameRest k k
same_rest k = (λ still. refl, refl, refl, refl, refl, refl)

module _ (p : Ptr) (k : Kernel) (c : Pcb) (ne : p ≢ null) (room : NeverFails k)
    (at : k.pcbs p ≡ some c) where
  -- The PCB after the write of `delay_ticks`, and the last one.
  at_first : (g : Pcb → Pcb) → (with_pcb k p (g c)).pcbs p ≡ some (g c)
  at_first g = rw (write_pcb-if k.pcbs p (some (g c)) p) (ground arith)

  count_down-Ticked : (d : ℤ) → Returns (λ _. Ticked k p c d) (count_down p d k)
  unfolding count_down write_pcb
  count_down-Ticked (negsuc n) = record {
    pcbs = λ a. ground (arith, at);
    ready_queue = refl;
    blocked_queue = refl;
    same = same_rest k;
  }
  count_down-Ticked (pos zero) = record {
    pcbs = λ a. ground (arith, at);
    ready_queue = refl;
    blocked_queue = refl;
    same = same_rest k;
  }
  count_down-Ticked (pos (suc zero)) =
      let c1 = record c { delay_ticks = pos 0 } in
      let k1 = with_pcb k p c1 in
      let k2 = record k1 { blocked_queue = without p k1.blocked_queue } in
      let k3 = with_pcb k2 p (record c1 { state = proc_ready }) in
      rw
        (
          update-ok p (λ x. record x { delay_ticks = pos 0 }) c k ne at,
          dequeue_process_blocked p k1 ne,
          update-ok p (λ x. record x { state = proc_ready }) c1 k2 ne
              (at_first (λ x. record x { delay_ticks = pos 0 })),
          enqueue_ready_moves p k3 ne room,
        )
        (record {
          pcbs = λ a. ground arith;
          ready_queue = refl;
          blocked_queue = refl;
          same = (λ still. still k.calls k.memory, refl, refl, refl, refl, refl);
        })
  count_down-Ticked (pos (suc (suc n))) =
      let more : (suc n == 0) ≡ false = ground arith in
      let not_last : (suc (suc n) == 1) ≡ false = ground arith in
      rw (update-ok p (λ x. record x { delay_ticks = pos (suc n) }) c k ne at, more)
        (record {
          pcbs = λ a. refl;
          ready_queue = rw not_last;
          blocked_queue = rw not_last;
          same = same_rest k;
        })

  tick_process-Ticked : Returns (λ _. Ticked k p c c.delay_ticks) (tick_process p k)
  unfolding tick_process
  tick_process-Ticked = rw (load-ok p c k ne at) (count_down-Ticked c.delay_ticks)

abbrev pub delay_of : Option Pcb → ℤ
delay_of none = pos 0
delay_of (some c) = c.delay_ticks

-- The processes whose delay ends with this tick, in order.
abbrev pub expired : (Ptr → Option Pcb) → List Ptr → List Ptr
expired h [] = []
expired h (p ∷ ps) = if is_last (delay_of (h p)) then p ∷ expired h ps else expired h ps

abbrev pub without_all : List Ptr → List Ptr → List Ptr
without_all [] q = q
without_all (p ∷ ps) q = without_all ps (without p q)

-- What one tick of all the processes does: it counts each of them down once, and moves those whose
-- delay ends from the blocked queue to the end of the ready queue, in order.
pub record AllTicked (k : Kernel) (ps : List Ptr) (t : Kernel) : Type 0 where
  pub pcbs :
      (a : Ptr) (c : Pcb)
      → k.pcbs a ≡ some c
      → t.pcbs a ≡ some (if mem a ps then after_tick c.delay_ticks c else c)
  pub ready_queue : t.ready_queue ≡ k.ready_queue ++ expired k.pcbs ps
  pub blocked_queue : t.blocked_queue ≡ without_all (expired k.pcbs ps) k.blocked_queue
  pub same : SameRest k t

pub expired_cong :
    (h g : Ptr → Option Pcb) (ps : List Ptr)
    → ((a : Ptr) → mem a ps ≡ true → g a ≡ h a)
    → expired g ps ≡ expired h ps
expired_cong h g [] same = refl
expired_cong h g (p ∷ ps) same =
    ground (arith, same p, expired_cong h g ps (λ a i. same a (ground arith)))

expired_cons :
    (h : Ptr → Option Pcb) (p : Ptr) (ps : List Ptr) (c : Pcb)
    → h p ≡ some c
    → expired h (p ∷ ps) ≡ (if is_last c.delay_ticks then p ∷ expired h ps else expired h ps)
expired_cons h p ps c at =
    ap (λ o. if is_last (delay_of o) then p ∷ expired h ps else expired h ps) at

-- The first process has been ticked, then the others.
module _ (k k1 t : Kernel) (p : Ptr) (ps : List Ptr) (c : Pcb) (out : mem p ps ≡ false)
    (at : k.pcbs p ≡ some c) (one : Ticked k p c c.delay_ticks k1) where
  unchanged : (a : Ptr) → mem a ps ≡ true → k1.pcbs a ≡ k.pcbs a
  unchanged a i = ground (arith, one.pcbs a)

  same_expired : expired k1.pcbs ps ≡ expired k.pcbs ps
  same_expired = expired_cong k.pcbs k1.pcbs ps unchanged

  module _ (more : AllTicked k1 ps t) where
    at_first_process : t.pcbs p ≡ some (after_tick c.delay_ticks c)
    at_first_process =
        let new : k1.pcbs p ≡ some (after_tick c.delay_ticks c) = ground (arith, one.pcbs p) in
        more.pcbs p (after_tick c.delay_ticks c) new ∙ rw out

    pcbs_cons :
        (a : Ptr) (x : Pcb)
        → k.pcbs a ≡ some x
        → t.pcbs a ≡ some (if mem a (p ∷ ps) then after_tick x.delay_ticks x else x)
    pcbs_cons a x xat = elim (Bool-cases (a == p)) [
      | inl e ↦
          let q : a ≡ p = ground arith in
          let same : x ≡ c = some_unique (k.pcbs p) (subst (λ y. k.pcbs y ≡ some x) q xat) at in
          rw e (
            subst (λ y. t.pcbs y ≡ some (after_tick x.delay_ticks x)) (sym q)
              (rw same at_first_process))
      | inr e ↦ rw e (more.pcbs a x (one.pcbs a ∙ rw e xat))
    ]

    ready_cons : t.ready_queue ≡ k.ready_queue ++ expired k.pcbs (p ∷ ps)
    ready_cons =
        more.ready_queue
        ∙ rw (same_expired, expired_cons k.pcbs p ps c at, one.ready_queue)
            (elim (Bool-cases (is_last c.delay_ticks)) [
              | inl e ↦ rw e (append_assoc k.ready_queue (p ∷ []) (expired k.pcbs ps))
              | inr e ↦ rw e
            ])

    blocked_cons : t.blocked_queue ≡ without_all (expired k.pcbs (p ∷ ps)) k.blocked_queue
    blocked_cons =
        more.blocked_queue
        ∙ rw (same_expired, expired_cons k.pcbs p ps c at, one.blocked_queue)
            (elim (Bool-cases (is_last c.delay_ticks)) [ inl e ↦ rw e | inr e ↦ rw e ])

    AllTicked-cons : AllTicked k (p ∷ ps) t
    AllTicked-cons = record {
      pcbs = pcbs_cons;
      ready_queue = ready_cons;
      blocked_queue = blocked_cons;
      same =
          let (a, b, c, d, e, f) = one.same in
          let (a', b', c', d', e', f') = more.same in
          (
            λ still. a' (StaysPut-same k k1 f still) ∙ a still,
            b' ∙ b,
            c' ∙ c,
            d' ∙ d,
            e' ∙ e,
            f' ∙ f,
          );
    }

-- The calls of `trapHandlerHelper` for the processes of a list, which names each once, each with a
-- PCB, where `malloc` does not fail, all return: each positive `delay_ticks` is one less, and the
-- processes where it becomes 0 are in state READY and have moved from the blocked queue to the end
-- of the ready queue, in order. Other PCBs and queues do not change, nor does the memory where
-- `malloc` does not move the break of the heap.
pub tick_processes-AllTicked :
    (ps : List Ptr) (k : Kernel)
    → Distinct ps
    → Loaded k ps
    → NeverFails k
    → Returns (λ _. AllTicked k ps) (tick_processes ps k)
unfolding tick_processes
tick_processes-AllTicked [] k d l room = record {
  pcbs = λ a c at. at;
  ready_queue = sym (append-nil k.ready_queue);
  blocked_queue = refl;
  same = same_rest k;
}
tick_processes-AllTicked (p ∷ ps) k (out, d) (ne, (c, at), l) room =
    bind (λ _. Ticked k p c c.delay_ticks) (λ _. AllTicked k (p ∷ ps)) _ _
      (tick_process-Ticked p k c ne room at)
      (λ _ k1 one.
        mono (λ _. AllTicked k1 ps) (λ _. AllTicked k (p ∷ ps)) _
          (tick_processes-AllTicked ps k1 d
            (Loaded-cong k k1 ps (unchanged k k1 k1 p ps c out at one) l)
            (let (_, _, _, _, m, g) = one.same in NeverFails-same k k1 m room))
          λ _ t more. AllTicked-cons k k1 t p ps c out at one more)
