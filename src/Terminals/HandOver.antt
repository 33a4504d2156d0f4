-- ===== src/Terminals/HandOver.antt =====
-- `TtyTrapTransmitHandler` of src/traps/trap.c when all bytes are sent: the writer goes on, and the
-- terminal passes to the next one.
use tiny_kernels.Prelude.{
  ℕ, ◌+◌, ◌≤◌, ◌≡◌, ◌≢◌, refl, ◌∙◌, ◌⊎◌, inl, inr, true, false, none, some, List, [], ◌∷◌, ◌++◌,
  arith, ltb, ◌==◌, if◌then◌else◌, append_assoc,
}
use tiny_kernels.Prelude.Int.{pos}
use tiny_kernels.Prelude.Run.{ok, Returns, choose_else}
use tiny_kernels.Kernel.{Ptr, null, Pcb, proc_ready, Kernel, without, write_pcb, with_result}
use tiny_kernels.Kernel.Scheduling.{
  NeverFails, with_pcb, update-ok, write_pcb-if, enqueue_ready_moves, dequeue_process_blocked,
}
use tiny_kernels.Terminals.{
  Terminal, Terminals, terminal, set_terminal, on_kernel, wake, wake_writer, finish_write,
  transmit_handler,
}
use tiny_kernels.Terminals.Reading.Delivery.{on_kernel-ok}

-- A process on the blocked queue is made ready.
abbrev pub awake : Ptr → Pcb → Kernel → Kernel
awake p c k = record (with_pcb k p (record c { state = proc_ready })) {
  calls = k.calls + 1;
  memory = k.heap k.calls k.memory;
  blocked_queue = without p k.blocked_queue;
  ready_queue = k.ready_queue ++ p ∷ [];
}

wake-ok :
    (p : Ptr) (c : Pcb) (k : Kernel)
    → p ≢ null
    → k.pcbs p ≡ some c
    → NeverFails k
    → wake p k ≡ ok tt (awake p c k)
unfolding wake
wake-ok p c k ne at room =
    let k1 = with_pcb k p (record c { state = proc_ready }) in
    let k2 = record k1 { blocked_queue = without p k1.blocked_queue } in
    rw
      (
        update-ok p (λ x. record x { state = proc_ready }) c k ne at,
        dequeue_process_blocked p k1 ne,
        enqueue_ready_moves p k2 ne room,
      )
      refl

-- The writer's PCB with the number of bytes written.
abbrev pub with_count : Pcb → ℕ → Pcb
with_count c n = record c { user_context = with_result (pos n) c.user_context }

wake_writer-ok :
    (p : Ptr) (c : Pcb) (n : ℕ) (k : Kernel)
    → p ≢ null
    → k.pcbs p ≡ some c
    → NeverFails k
    → wake_writer p n k ≡ ok tt (awake p (with_count c n) (with_pcb k p (with_count c n)))
unfolding wake_writer
wake_writer-ok p c n k ne at room =
    let here : (p == null) ≡ false = ground (arith, ne) in
    let k1 = with_pcb k p (with_count c n) in
    let at1 : k1.pcbs p ≡ some (with_count c n) =
      rw (write_pcb-if k.pcbs p (some (with_count c n)) p) (ground arith) in
    choose_else (p == null) _ _ k here
    ∙ rw
        (update-ok p (λ x. record x { user_context = with_result (pos n) x.user_context }) c k ne
          at)
        (wake-ok p (with_count c n) k1 ne at1 room)

-- The terminal with nothing to send.
abbrev pub idle : Terminal → Terminal
idle t = record t {
  write_buffer = none;
  write_buffer_len = 0;
  write_buffer_position = 0;
  current_writer = null;
}

-- The writer at `p` is ready, with the number of bytes written as its result.
pub record Finished (s : Terminals) (i : ℕ) (c : Pcb) (t : Terminals) : Type 0 where
  pub writer :
      t.kernel.pcbs (s.terminals i).current_writer
      ≡ some (record (with_count c (s.terminals i).write_buffer_len) { state = proc_ready })
  pub other_terminals : (j : ℕ) → j ≢ i → t.terminals j ≡ s.terminals j

-- The terminal is free.
pub record Freed (s : Terminals) (i : ℕ) (t : Terminals) : Type 0 where
  pub ready_queue :
      t.kernel.ready_queue ≡ s.kernel.ready_queue ++ (s.terminals i).current_writer ∷ []
  pub blocked_queue :
      t.kernel.blocked_queue ≡ without (s.terminals i).current_writer s.kernel.blocked_queue
  pub terminal : t.terminals i ≡ record (idle (s.terminals i)) { in_use = false }
  pub others : (a : Ptr) → a ≢ (s.terminals i).current_writer → t.kernel.pcbs a ≡ s.kernel.pcbs a

-- The terminal stays in use, for the process at `q`, which had waited first.
pub record Passed (s : Terminals) (i : ℕ) (q : Ptr) (d : Pcb) (qs : List Ptr) (t : Terminals)
    : Type 0 where
  pub ready_queue :
      t.kernel.ready_queue ≡ s.kernel.ready_queue ++ (s.terminals i).current_writer ∷ q ∷ []
  pub blocked_queue :
      t.kernel.blocked_queue
      ≡ without q (without (s.terminals i).current_writer s.kernel.blocked_queue)
  pub next : t.kernel.pcbs q ≡ some (record d { state = proc_ready })
  pub terminal : t.terminals i ≡ record (idle (s.terminals i)) { blocked_writers = qs }
  pub others :
      (a : Ptr) → a ≢ (s.terminals i).current_writer → a ≢ q → t.kernel.pcbs a ≡ s.kernel.pcbs a

-- No process waits to write, or the first that waits has a PCB and is not the writer.
abbrev pub NextWriter : Terminals → ℕ → Type 0
NextWriter s i =
    ((s.terminals i).blocked_writers ≡ [])
    ⊎ ((q : Ptr) × (qs : List Ptr) × (d : Pcb) × ((s.terminals i).blocked_writers ≡ q ∷ qs)
        × (q ≢ null)
        × (q ≢ (s.terminals i).current_writer)
        × (s.kernel.pcbs q ≡ some d))

abbrev pub HandedOver : (s : Terminals) (i : ℕ) (c : Pcb) → NextWriter s i → Terminals → Type 0
HandedOver s i c (inl none_waits) t = Finished s i c t × Freed s i t
HandedOver s i c (inr (q, qs, d, waits, _, _, _)) t = Finished s i c t × Passed s i q d qs t

module _ (s : Terminals) (i : ℕ) (c : Pcb) (ne : (s.terminals i).current_writer ≢ null)
    (at : s.kernel.pcbs (s.terminals i).current_writer ≡ some c) (room : NeverFails s.kernel) where
  abbrev w : Ptr
  w = (s.terminals i).current_writer

  abbrev len : ℕ
  len = (s.terminals i).write_buffer_len

  -- The kernel with the writer awake, and the terminals with this one idle.
  abbrev k1 : Kernel
  k1 = awake w (with_count c len) (with_pcb s.kernel w (with_count c len))

  abbrev s0 : Terminals
  s0 = record s { terminals = λ j. if j == i then idle (s.terminals i) else s.terminals j }

  abbrev s1 : Terminals
  s1 = record s0 { kernel = k1 }

  woken : on_kernel (wake_writer w len) s0 ≡ ok tt s1
  woken = on_kernel-ok (wake_writer w len) tt k1 s0 (wake_writer-ok w c len s.kernel ne at room)

  writer_there : k1.pcbs w ≡ some (record (with_count c len) { state = proc_ready })
  unfolding write_pcb
  writer_there = ground arith

  others_there : (a : Ptr) → a ≢ w → k1.pcbs a ≡ s.kernel.pcbs a
  unfolding write_pcb
  others_there a far =
      let test : (a == (s.terminals i).current_writer) ≡ false = ground (arith, far) in rw test refl

  finish_write-Freed :
      (s.terminals i).blocked_writers ≡ []
      → Returns (λ _ t. Finished s i c t × Freed s i t) (finish_write i s)
  unfolding finish_write terminal set_terminal
  finish_write-Freed none_waits =
      let self : (i == i) ≡ true = ground arith in
      rw (woken, none_waits)
        (
          record {
            writer = writer_there;
            other_terminals =
                λ j far. let away : (j == i) ≡ false = ground (arith, far) in rw away refl;
          },
          record {
            ready_queue = refl;
            blocked_queue = refl;
            terminal = rw self refl;
            others = others_there;
          },
        )

  finish_write-Passed :
      (q : Ptr) (qs : List Ptr) (d : Pcb)
      → (s.terminals i).blocked_writers ≡ q ∷ qs
      → q ≢ null
      → q ≢ w
      → s.kernel.pcbs q ≡ some d
      → Returns (λ _ t. Finished s i c t × Passed s i q d qs t) (finish_write i s)
  unfolding finish_write terminal set_terminal write_pcb
  finish_write-Passed q qs d waits qne far at_q =
      let self : (i == i) ≡ true = ground arith in
      let test : ((s.terminals i).current_writer == q) ≡ false = ground (arith, far) in
      let k2 = awake q d k1 in
      let s2 = record s1 {
        terminals = λ j.
            if j == i then record (s1.terminals i) { blocked_writers = qs } else s1.terminals j;
      } in
      rw
        (
          woken,
          waits,
          on_kernel-ok (wake q) tt k2 s2 (wake-ok q d k1 qne (others_there q far ∙ at_q) room),
        )
        (
          record {
            writer = rw test writer_there;
            other_terminals =
                λ j away'. let away : (j == i) ≡ false = ground (arith, away') in rw away refl;
          },
          record {
            ready_queue = append_assoc s.kernel.ready_queue (w ∷ []) (q ∷ []);
            blocked_queue = refl;
            next = ground arith;
            terminal = rw self refl;
            others = λ a far_w far_q.
                let test' : (a == q) ≡ false = ground (arith, far_q) in
                rw test' (others_there a far_w);
          },
        )

  -- `TtyTrapTransmitHandler` of a terminal whose bytes are all sent, where `malloc` does not fail,
  -- its current writer has a PCB, and no process waits to write or the first that waits has a PCB
  -- and is another one, returns. The terminal has no writer and nothing to send; the writer is
  -- READY, with the number of bytes as its result, off the blocked queue, and at the end of the
  -- ready queue. Where no process waits, the terminal is no longer in use; otherwise the first
  -- that waits leaves the terminal's queue and the blocked queue, is READY behind the writer on
  -- the ready queue, and the terminal stays in use. No other PCB and no other terminal changes.
  pub transmit_handler-HandedOver :
      (s.terminals i).write_buffer_len ≤ (s.terminals i).write_buffer_position
      → (n : NextWriter s i) → Returns (λ _. HandedOver s i c n) (transmit_handler i s)
  unfolding transmit_handler terminal
  transmit_handler-HandedOver sent (inl none_waits) =
      let all : ltb (s.terminals i).write_buffer_position (s.terminals i).write_buffer_len ≡ false =
        ground (arith, sent) in
      rw all (finish_write-Freed none_waits)
  transmit_handler-HandedOver sent (inr (q, qs, d, waits, qne, far, at_q)) =
      let all : ltb (s.terminals i).write_buffer_position (s.terminals i).write_buffer_len ≡ false =
        ground (arith, sent) in
      rw all (finish_write-Passed q qs d waits qne far at_q)
