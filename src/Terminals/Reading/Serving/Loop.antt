-- ===== src/Terminals/Reading/Serving/Loop.antt =====
-- The loop of `TtyTrapReceiveHandler` (src/traps/trap.c), and the whole handler.
use tiny_kernels.Prelude.{
  ℕ, ◌-◌, ◌≡◌, ◌≢◌, refl, sym, ap, ◌∙◌, ◌⊎◌, inl, inr, true, false, some, List, [], ◌∷◌, ◌++◌,
  arith, ◌==◌, if◌then◌else◌, append_assoc, append-nil, length, length-append, take, drop,
  take-drop, Bool-cases, subst,
}
use tiny_kernels.Prelude.Int.{pos}
use tiny_kernels.Prelude.Run.{Returns, mono}
use tiny_kernels.Kernel.{Ptr, null, Pcb, proc_ready, write_pcb, with_result}
use tiny_kernels.Kernel.Scheduling.{NeverFails, mem, Distinct, Loaded, Loaded-cong}
use tiny_kernels.Terminals.{Terminals, terminal, set_terminal}
use tiny_kernels.Terminals.Transmission.{concat}
use tiny_kernels.Terminals.Reading.{at_most, deliver_loop, receive_handler}
use tiny_kernels.Terminals.Reading.Delivery.{length-take_min, after_delivery, deliver-ok}
use tiny_kernels.Terminals.Reading.Serving.{HaveParts, Served, with_input}

mem-append_left : (a : Ptr) (xs ys : List Ptr) → mem a (xs ++ ys) ≡ false → mem a xs ≡ false
mem-append_left a [] ys h = refl
mem-append_left a (x ∷ xs) ys h = ground (arith, h, mem-append_left a xs ys)

-- No reader is served, where there is no byte or no reader.
Served-stop :
    (s : Terminals) (i : ℕ) (readers : List Ptr)
    → (s.terminals i).blocked_readers ≡ readers
    → (readers ≡ []) ⊎ (length (s.terminals i).read_buffer ≡ 0)
    → Served s i readers s
Served-stop s i readers queue done = record {
  served = [];
  waiting = readers;
  split = refl;
  parts = [];
  have = tt;
  all = refl;
  queue = queue;
  done = done;
  ready_queue = sym (append-nil s.kernel.ready_queue);
  blocked_queue = refl;
  others = λ a out. refl;
  other_terminals = λ j far. refl;
}

HaveParts-cong :
    (s s' t : Terminals) (n : ℕ) (ps : List Ptr) (xs : List (List ℕ))
    → ((a : Ptr) → mem a ps ≡ true → s'.kernel.pcbs a ≡ s.kernel.pcbs a)
    → HaveParts s t n ps xs
    → HaveParts s' t n ps xs
HaveParts-cong s s' t n [] [] same h = tt
HaveParts-cong s s' t n [] (x ∷ xs) same h = h
HaveParts-cong s s' t n (p ∷ ps) [] same h = h
HaveParts-cong s s' t n (p ∷ ps) (x ∷ xs) same ((c, at, size, there), h) = (
  (c, same p (ground arith) ∙ at, size, there),
  HaveParts-cong s s' t (n - length x) ps xs (λ a inn. same a (ground arith)) h,
)

-- A round of the loop, and the rounds after it.
module _ (s : Terminals) (i : ℕ) (p : Ptr) (ps : List Ptr) (c : Pcb) (ne : p ≢ null)
    (at : s.kernel.pcbs p ≡ some c) (room : NeverFails s.kernel) (apart : mem p ps ≡ false) where
  -- The reader is taken off the queue, and gets its bytes.
  abbrev taken_off : Terminals
  taken_off = record s {
    terminals =
        λ j. if j == i then record (s.terminals i) { blocked_readers = ps } else s.terminals j;
  }

  abbrev next : Terminals
  next = after_delivery taken_off i p c ne at room

  abbrev bytes : List ℕ
  bytes = (s.terminals i).read_buffer

  abbrev part : List ℕ
  part = take (at_most c.tty_read_len (length bytes)) bytes

  same_bytes : (taken_off.terminals i).read_buffer ≡ bytes
  same_bytes = let self : (i == i) ≡ true = ground arith in rw self refl

  other_pcbs : (a : Ptr) → a ≢ p → next.kernel.pcbs a ≡ s.kernel.pcbs a
  unfolding write_pcb
  other_pcbs a far = let test : (a == p) ≡ false = ground (arith, far) in rw test refl

  left : (next.terminals i).read_buffer ≡ drop (at_most c.tty_read_len (length bytes)) bytes
  left = let self : (i == i) ≡ true = ground arith in rw self (rw same_bytes refl)

  still_waiting : (next.terminals i).blocked_readers ≡ ps
  still_waiting = let self : (i == i) ≡ true = ground arith in rw self refl

  fewer : length (next.terminals i).read_buffer ≡ length bytes - length part
  fewer =
      let whole = ap length (take-drop (at_most c.tty_read_len (length bytes)) bytes) in
      let sum = length-append part (drop (at_most c.tty_read_len (length bytes)) bytes) in
      ap length left ∙ omega (arith, whole, sum)

  part_size : length part ≡ at_most c.tty_read_len (length bytes)
  part_size = length-take_min c.tty_read_len bytes

  there :
      next.kernel.pcbs p
      ≡ some (record c {
        state = proc_ready;
        tty_kernel_read_buf = some part;
        kernel_read_size = length part;
        user_context = with_result (pos (length part)) c.user_context;
      })
  unfolding write_pcb
  there =
      let here : (p == p) ≡ true = ground arith in
      let awake = λ (n : ℕ) (b : List ℕ). some (record c {
        state = proc_ready;
        tty_kernel_read_buf = some (take (at_most c.tty_read_len (length b)) b);
        kernel_read_size = n;
        user_context = with_result (pos n) c.user_context;
      }) in
      rw here (
        ap (λ b. awake (at_most c.tty_read_len (length b)) b) same_bytes
        ∙ ap (λ n. awake n bytes) (sym part_size))

  far_from : (a : Ptr) (qs : List Ptr) → mem p qs ≡ false → mem a qs ≡ true → a ≢ p
  far_from a qs out inn z = let h = subst (λ x. mem x qs ≡ true) z inn in ground (arith, h, out)

  module _ (t : Terminals) (r : Served next i ps t) where
    not_served : mem p r.served ≡ false
    not_served = mem-append_left p r.served r.waiting (ap (mem p) (sym r.split) ∙ apart)

    served_after : (a : Ptr) → mem a r.served ≡ true → s.kernel.pcbs a ≡ next.kernel.pcbs a
    served_after a inn = sym (other_pcbs a (far_from a r.served not_served inn))

    Served-step : Served s i (p ∷ ps) t
    Served-step = record {
      served = p ∷ r.served;
      waiting = r.waiting;
      split = ap (λ x. p ∷ x) r.split;
      parts = part ∷ r.parts;
      have = (
        (c, at, part_size, r.others p not_served ∙ there),
        subst (λ n. HaveParts s t n r.served r.parts) fewer
            (HaveParts-cong next s t (length (next.terminals i).read_buffer) r.served r.parts
              served_after r.have),
      );
      all =
          append_assoc part (concat r.parts) (t.terminals i).read_buffer
          ∙ ap (λ x. part ++ x) (r.all ∙ left)
          ∙ take-drop (at_most c.tty_read_len (length bytes)) bytes;
      queue = r.queue;
      done = r.done;
      ready_queue = r.ready_queue ∙ append_assoc s.kernel.ready_queue (p ∷ []) r.served;
      blocked_queue = r.blocked_queue;
      others = λ a out.
          let far : a ≢ p = ground (arith, out) in
          r.others a (ground (arith, out)) ∙ other_pcbs a far;
      other_terminals = λ j far.
          let away : (j == i) ≡ false = ground (arith, far) in
          r.other_terminals j far ∙ rw away refl;
    }

deliver_loop-Served :
    (readers : List Ptr) (s : Terminals) (i : ℕ)
    → (s.terminals i).blocked_readers ≡ readers
    → NeverFails s.kernel
    → Distinct readers
    → Loaded s.kernel readers
    → Returns (λ _. Served s i readers) (deliver_loop i readers s)
unfolding deliver_loop terminal set_terminal
deliver_loop-Served [] s i queue room distinct loaded = Served-stop s i [] queue (inl refl)
deliver_loop-Served (p ∷ ps) s i queue room (apart, distinct) (ne, (c, at), loaded) =
    elim (Bool-cases (length (s.terminals i).read_buffer == 0)) [
      | inl empty ↦ rw empty (Served-stop s i (p ∷ ps) queue (inr (ground (arith, empty))))
      | inr some_left ↦
          let s1 = taken_off s i p ps c ne at room apart in
          let s2 = next s i p ps c ne at room apart in
          rw (some_left, deliver-ok s1 i p c ne at room)
            (mono (λ _. Served s2 i ps) (λ _. Served s i (p ∷ ps)) _
              (deliver_loop-Served ps s2 i (still_waiting s i p ps c ne at room apart) room distinct
                (Loaded-cong s.kernel s2.kernel ps
                  (λ a inn.
                    other_pcbs s i p ps c ne at room apart a
                      (far_from s i p ps c ne at room apart a ps apart inn))
                  loaded))
              (λ _ t r. Served-step s i p ps c ne at room apart t r))
    ]

-- `TtyTrapReceiveHandler` returns, where `malloc` does not fail and the readers that wait for the
-- terminal are different processes with PCBs. The received bytes stand behind those that the
-- terminal had, and the first readers take them in the order of the queue: each gets as many as it
-- asked for or as are left, with their number as its result, and is READY, off the blocked queue,
-- and at the end of the ready queue. Their parts followed by the bytes that the terminal keeps are
-- all the bytes there were; the readers behind them keep waiting, and either no reader waits or no
-- byte is left. No other PCB and no other terminal changes.
pub receive_handler-Served :
    (received : List ℕ) (s : Terminals) (i : ℕ)
    → NeverFails s.kernel
    → Distinct (s.terminals i).blocked_readers
    → Loaded s.kernel (s.terminals i).blocked_readers
    → Returns
        (λ _. Served (with_input i received s) i (s.terminals i).blocked_readers)
        (receive_handler i received s)
unfolding receive_handler terminal set_terminal
receive_handler-Served received s i room distinct loaded =
    let self : (i == i) ≡ true = ground arith in
    let same : ((with_input i received s).terminals i).blocked_readers
        ≡ (s.terminals i).blocked_readers =
      rw self refl in
    subst
      (λ rs.
        Returns (λ _. Served (with_input i received s) i (s.terminals i).blocked_readers)
          (deliver_loop i rs (with_input i received s)))
      (sym same)
      (deliver_loop-Served (s.terminals i).blocked_readers (with_input i received s) i same room
        distinct loaded)
