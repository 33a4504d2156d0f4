-- ===== src/Clock/Delays.antt =====
-- How long a delayed process waits: the countdown over several clock interrupts
-- (src/traps/trap.c, after `Delay` of src/syscalls/process.c).
use tiny_kernels.Prelude.{
  ℕ, zero, suc, ◌+◌, ◌≡◌, refl, ◌∙◌, inl, inr, true, false, not, ◌||◌, ◌&&◌, Option, some, List, [],
  ◌∷◌, ◌++◌, arith, ◌==◌, Bool-cases, subst,
}
use tiny_kernels.Prelude.Int.{pos, minus_one}
use tiny_kernels.Prelude.Run.{Returns, bind, mono}
use tiny_kernels.Kernel.{Ptr, Pcb, proc_ready, Kernel, without}
use tiny_kernels.Kernel.Scheduling.{NeverFails-same, NeverFails, mem, Distinct, Loaded}
use tiny_kernels.Clock.{clock_tick, clock_ticks}
use tiny_kernels.Clock.Ticks.{
  is_last, after_tick, delay_of, expired, without_all, AllTicked, tick_processes-AllTicked,
}

pub mem-append : (a : Ptr) (q r : List Ptr) → mem a (q ++ r) ≡ (mem a q || mem a r)
mem-append a [] r = refl
mem-append a (x ∷ q) r = ground (arith, mem-append a q r)

mem-without :
    (a p : Ptr) (q : List Ptr) → Distinct q → mem a (without p q) ≡ (mem a q && not (a == p))
mem-without a p [] d = refl
mem-without a p (x ∷ q) (out, d) = ground (arith, mem-without a p q d)

Distinct-without : (p : Ptr) (q : List Ptr) → Distinct q → Distinct (without p q)
Distinct-without p [] d = tt
Distinct-without p (x ∷ q) (out, d) = elim (Bool-cases (x == p)) [
  | inl e ↦ rw e d
  | inr e ↦ rw e (rw (mem-without x p q d) (rw out refl), Distinct-without p q d)
]

mem-without_all :
    (a : Ptr) (ps q : List Ptr)
    → Distinct q
    → mem a (without_all ps q) ≡ (mem a q && not (mem a ps))
mem-without_all a [] q d = ground arith
mem-without_all a (p ∷ ps) q d =
    ground (arith, mem-without_all a ps (without p q) (Distinct-without p q d), mem-without a p q d)

Distinct-without_all : (ps q : List Ptr) → Distinct q → Distinct (without_all ps q)
Distinct-without_all [] q d = d
Distinct-without_all (p ∷ ps) q d = Distinct-without_all ps (without p q) (Distinct-without p q d)

mem-expired :
    (h : Ptr → Option Pcb) (a : Ptr) (q : List Ptr)
    → mem a (expired h q) ≡ (mem a q && is_last (delay_of (h a)))
mem-expired h a [] = refl
mem-expired h a (p ∷ q) = elim (Bool-cases (a == p)) [
  | inl e ↦
      let q' : a ≡ p = ground arith in
      let same : is_last (delay_of (h p)) ≡ is_last (delay_of (h a)) = rw q' refl in
      ground (arith, mem-expired h a q, same)
  | inr e ↦ ground (arith, mem-expired h a q)
]

-- Each blocked process is there once, with a PCB, and `malloc` does not fail.
pub record CanTick (k : Kernel) : Type 0 where
  pub distinct : Distinct k.blocked_queue
  pub loaded : Loaded k k.blocked_queue
  pub room : NeverFails k

Loaded-ticked : (k t : Kernel) (ps q : List Ptr) → AllTicked k ps t → Loaded k q → Loaded t q
Loaded-ticked k t ps [] h l = tt
Loaded-ticked k t ps (p ∷ q) h (ne, (c, at), l) =
    (ne, (_, h.pcbs p c at), Loaded-ticked k t ps q h l)

Loaded-without : (k : Kernel) (p : Ptr) (q : List Ptr) → Loaded k q → Loaded k (without p q)
Loaded-without k p [] l = tt
Loaded-without k p (x ∷ q) (ne, at, l) = elim (Bool-cases (x == p)) [
  | inl e ↦ rw e l
  | inr e ↦ rw e (ne, at, Loaded-without k p q l)
]

Loaded-without_all : (k : Kernel) (ps q : List Ptr) → Loaded k q → Loaded k (without_all ps q)
Loaded-without_all k [] q l = l
Loaded-without_all k (p ∷ ps) q l = Loaded-without_all k ps (without p q) (Loaded-without k p q l)

-- The process at `a` waits for `n` more ticks and then one more.
pub record Waiting (a : Ptr) (n : ℕ) (k : Kernel) : Type 0 where
  pub can_tick : CanTick k
  pub blocked : mem a k.blocked_queue ≡ true
  pub not_ready : mem a k.ready_queue ≡ false
  pub pcb : (c : Pcb) × (k.pcbs a ≡ some c) × (c.delay_ticks ≡ pos (suc n))

-- The process at `a` has waited.
pub record Woken (a : Ptr) (k : Kernel) : Type 0 where
  pub not_blocked : mem a k.blocked_queue ≡ false
  pub ready : mem a k.ready_queue ≡ true
  pub state : (c : Pcb) × (k.pcbs a ≡ some c) × (c.state ≡ proc_ready)

CanTick-ticked : (k t : Kernel) → CanTick k → AllTicked k k.blocked_queue t → CanTick t
CanTick-ticked k t can h =
    let gone = expired k.pcbs k.blocked_queue in
    record {
      distinct = rw h.blocked_queue (Distinct-without_all gone k.blocked_queue can.distinct);
      loaded = rw h.blocked_queue (
          Loaded-without_all t gone k.blocked_queue
            (Loaded-ticked k t k.blocked_queue k.blocked_queue h can.loaded));
      room = let (_, _, _, _, m, g) = h.same in NeverFails-same k t m can.room;
    }

pub clock_tick-AllTicked :
    (k : Kernel) → CanTick k → Returns (λ _. AllTicked k k.blocked_queue) (clock_tick k)
unfolding clock_tick
clock_tick-AllTicked k can =
    tick_processes-AllTicked k.blocked_queue k can.distinct can.loaded can.room

module _ (a : Ptr) (k t : Kernel) (c : Pcb) (at : k.pcbs a ≡ some c)
    (here : mem a k.blocked_queue ≡ true) (h : AllTicked k k.blocked_queue t) where
  pcb_ticked : t.pcbs a ≡ some (after_tick c.delay_ticks c)
  pcb_ticked = h.pcbs a c at ∙ rw here

  last_here : mem a (expired k.pcbs k.blocked_queue) ≡ is_last c.delay_ticks
  last_here = mem-expired k.pcbs a k.blocked_queue ∙ rw (here, at)

  more_than_one :
      (n : ℕ) → c.delay_ticks ≡ pos (suc (suc n)) → mem a (expired k.pcbs k.blocked_queue) ≡ false
  more_than_one n e = last_here ∙ rw e (ground arith)

  just_one : c.delay_ticks ≡ pos 1 → mem a (expired k.pcbs k.blocked_queue) ≡ true
  just_one e = last_here ∙ rw e refl

-- One tick of a process that waits for more, and of one that does not.
Waiting-tick :
    (a : Ptr) (n : ℕ) (k : Kernel) → Waiting a (suc n) k → Returns (λ _. Waiting a n) (clock_tick k)
Waiting-tick a n k w =
    let (c, at, e) = w.pcb in
    mono (λ _. AllTicked k k.blocked_queue) (λ _. Waiting a n) _ (clock_tick-AllTicked k w.can_tick)
      λ _ t h.
        let stays = more_than_one a k t c at w.blocked h n e in
        let gone = expired k.pcbs k.blocked_queue in
        record {
          can_tick = CanTick-ticked k t w.can_tick h;
          blocked = rw (
            h.blocked_queue,
            mem-without_all a gone k.blocked_queue w.can_tick.distinct,
            w.blocked,
            stays,
          );
          not_ready = rw (h.ready_queue, mem-append a k.ready_queue gone, w.not_ready, stays);
          pcb = (after_tick c.delay_ticks c, pcb_ticked a k t c at w.blocked h, rw e refl);
        }

Woken-tick : (a : Ptr) (k : Kernel) → Waiting a 0 k → Returns (λ _. Woken a) (clock_tick k)
Woken-tick a k w =
    let (c, at, e) = w.pcb in
    mono (λ _. AllTicked k k.blocked_queue) (λ _. Woken a) _ (clock_tick-AllTicked k w.can_tick)
      λ _ t h.
        let goes = just_one a k t c at w.blocked h e in
        let gone = expired k.pcbs k.blocked_queue in
        record {
          not_blocked = rw (
            h.blocked_queue,
            mem-without_all a gone k.blocked_queue w.can_tick.distinct,
            w.blocked,
            goes,
          );
          ready = rw (h.ready_queue, mem-append a k.ready_queue gone, w.not_ready, goes);
          state = (after_tick c.delay_ticks c, pcb_ticked a k t c at w.blocked h, rw e refl);
        }

-- A process that is on the blocked queue and off the ready queue with `delay_ticks` equal to m + n
-- + 1 is, after m clock ticks, which all return, still on the blocked queue and off the ready
-- queue, with `delay_ticks` equal to n + 1, where the blocked queue names each process once, each
-- with a PCB, and `malloc` does not fail; and these conditions hold again after them.
pub clock_ticks-Waiting :
    (a : Ptr) (m n : ℕ) (k : Kernel)
    → Waiting a (m + n) k
    → Returns (λ _. Waiting a n) (clock_ticks m k)
unfolding clock_ticks
clock_ticks-Waiting a zero n k w = let e : 0 + n ≡ n = omega arith in subst (λ i. Waiting a i k) e w
clock_ticks-Waiting a (suc m) n k w =
    let e : suc m + n ≡ suc (m + n) = omega arith in
    bind (λ _. Waiting a (m + n)) (λ _. Waiting a n) (clock_tick k) (λ _. clock_ticks m)
      (Waiting-tick a (m + n) k (subst (λ i. Waiting a i k) e w))
      (λ _ t v. clock_ticks-Waiting a m n t v)

-- A process that is on the blocked queue and off the ready queue with `delay_ticks` equal to n + 1
-- is, after n + 1 clock ticks, which all return, off the blocked queue, on the ready queue and in
-- state READY, where the blocked queue names each process once, each with a PCB, and `malloc` does
-- not fail.
pub clock_ticks-Woken :
    (a : Ptr) (n : ℕ) (k : Kernel) → Waiting a n k → Returns (λ _. Woken a) (clock_ticks (suc n) k)
unfolding clock_ticks
clock_ticks-Woken a zero k w =
    bind (λ _. Woken a) (λ _. Woken a) (clock_tick k) (λ _. clock_ticks 0) (Woken-tick a k w)
      (λ _ t v. v)
clock_ticks-Woken a (suc n) k w =
    bind (λ _. Waiting a n) (λ _. Woken a) (clock_tick k) (λ _. clock_ticks (suc n))
      (Waiting-tick a n k w) (λ _ t v. clock_ticks-Woken a n t v)

-- A blocked process whose `delay_ticks` is -1.
pub record Stuck (a : Ptr) (k : Kernel) : Type 0 where
  pub can_tick : CanTick k
  pub blocked : mem a k.blocked_queue ≡ true
  pub not_ready : mem a k.ready_queue ≡ false
  pub pcb : (c : Pcb) × (k.pcbs a ≡ some c) × (c.delay_ticks ≡ minus_one)

Stuck-tick : (a : Ptr) (k : Kernel) → Stuck a k → Returns (λ _. Stuck a) (clock_tick k)
Stuck-tick a k w =
    let (c, at, e) = w.pcb in
    mono (λ _. AllTicked k k.blocked_queue) (λ _. Stuck a) _ (clock_tick-AllTicked k w.can_tick)
      λ _ t h.
        let stays : mem a (expired k.pcbs k.blocked_queue) ≡ false =
          last_here a k t c at w.blocked h ∙ rw e refl in
        let gone = expired k.pcbs k.blocked_queue in
        record {
          can_tick = CanTick-ticked k t w.can_tick h;
          blocked = rw (
            h.blocked_queue,
            mem-without_all a gone k.blocked_queue w.can_tick.distinct,
            w.blocked,
            stays,
          );
          not_ready = rw (h.ready_queue, mem-append a k.ready_queue gone, w.not_ready, stays);
          pcb = (after_tick c.delay_ticks c, pcb_ticked a k t c at w.blocked h, rw e refl);
        }

pub clock_ticks-Stuck :
    (a : Ptr) (m : ℕ) (k : Kernel) → Stuck a k → Returns (λ _. Stuck a) (clock_ticks m k)
unfolding clock_ticks
clock_ticks-Stuck a zero k w = w
clock_ticks-Stuck a (suc m) k w =
    bind (λ _. Stuck a) (λ _. Stuck a) (clock_tick k) (λ _. clock_ticks m) (Stuck-tick a k w)
      (λ _ t v. clock_ticks-Stuck a m t v)
