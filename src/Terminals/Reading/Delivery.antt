-- ===== src/Terminals/Reading/Delivery.antt =====
-- Where the bytes of a terminal go: `TtyRead` of src/syscalls/tty.c, and each reader that the loop of
-- `TtyTrapReceiveHandler` of src/traps/trap.c wakes.
use tiny_kernels.Prelude.{
  ℕ, zero, suc, ◌+◌, ◌<◌, ltb, ◌≡◌, ◌≢◌, refl, true, false, some, List, [], ◌∷◌, ◌++◌, arith, ◌==◌,
  if◌then◌else◌, length, take, drop, take-drop, ap,
}
use tiny_kernels.Prelude.Int.{pos}
use tiny_kernels.Prelude.Run.{Run, Cmd, ok, ◌>>◌, Returns}
use tiny_kernels.Kernel.{
  Ptr, null, Pcb, proc_ready, Kernel, returned, without, load, update, dequeue_process, enqueue,
  ready, blocked, write_pcb,
}
use tiny_kernels.Kernel.Scheduling.{
  NeverFails, with_pcb, load-ok, update-ok, write_pcb-if, enqueue_ready_moves,
  dequeue_process_blocked,
}
use tiny_kernels.Terminals.{Terminals, on_kernel, set_terminal, num_terminals}
use tiny_kernels.Kernel.{with_result}
use tiny_kernels.Terminals.Reading.{at_most, read_now, tty_read, give, deliver}

pub on_kernel-ok :
    {A : Type 0} (c : Kernel → Run Kernel A) (a : A) (k : Kernel) (s : Terminals)
    → c s.kernel ≡ ok a k
    → on_kernel c s ≡ ok a (record s { kernel = k })
unfolding on_kernel
on_kernel-ok c a k s h = rw (on_kernel, h)

pub length-take_min :
    (n : ℕ) (xs : List ℕ) → length (take (at_most n (length xs)) xs) ≡ at_most n (length xs)
length-take_min zero [] = refl
length-take_min zero (x ∷ xs) = let e : at_most 0 (length (x ∷ xs)) ≡ 0 = ground arith in rw e refl
length-take_min (suc n) [] = let e : at_most (suc n) 0 ≡ 0 = ground arith in rw e refl
length-take_min (suc n) (x ∷ xs) =
    let e : at_most (suc n) (length (x ∷ xs)) ≡ suc (at_most n (length xs)) = ground arith in
    rw e (ap suc (length-take_min n xs))

-- The process at `p`, which asked for `len` bytes, has the first ones of what the terminal had, and the
-- terminal has the others.
pub record HasRead (s : Terminals) (i : ℕ) (p : Ptr) (len : ℕ) (t : Terminals) : Type 0 where
  pub got : List ℕ
  pub pcb : Pcb
  pub at : t.kernel.pcbs p ≡ some pcb
  pub stash : pcb.tty_kernel_read_buf ≡ some got
  pub size : pcb.kernel_read_size ≡ length got
  pub all : got ++ (t.terminals i).read_buffer ≡ (s.terminals i).read_buffer
  pub enough : length got ≡ at_most len (length (s.terminals i).read_buffer)

module _ (s : Terminals) (i : ℕ) (p : Ptr) (c : Pcb) (ne : p ≢ null) (at : s.kernel.pcbs p ≡ some c)
    (room : NeverFails s.kernel) where
  abbrev pub buffer : List ℕ
  buffer = (s.terminals i).read_buffer

  abbrev pub counted : Kernel
  counted = record s.kernel {
    calls = s.kernel.calls + 1;
    memory = s.kernel.heap s.kernel.calls s.kernel.memory;
  }

  -- The PCB of the reader and the state, when it has the first bytes, `len` at most.
  abbrev pub with_stash : (len : ℕ) → Pcb → Pcb
  with_stash len x = record x {
    tty_kernel_read_buf = some (take (at_most len (length buffer)) buffer);
    kernel_read_size = at_most len (length buffer);
  }

  abbrev pub after_read : (len : ℕ) → Terminals
  after_read len = record {
    kernel = with_pcb counted p (with_stash len c);
    terminals = λ j.
        if j == i
        then record (s.terminals i) { read_buffer = drop (at_most len (length buffer)) buffer }
        else s.terminals j;
  }

  pub read_now-ok :
      (len : ℕ)
      → read_now p i len s ≡ ok (returned (pos (at_most len (length buffer)))) (after_read len)
  unfolding read_now set_terminal
  read_now-ok len =
      let got : (s.kernel.malloc s.kernel.calls == null) ≡ false =
        ground (arith, room s.kernel.calls) in
      let k1 = with_pcb counted p (with_stash len c) in
      rw
        (
          got,
          on_kernel-ok (update p (with_stash len)) tt k1 (record s { kernel = counted })
              (update-ok p (with_stash len) c counted ne at),
        )
        refl

  -- `TtyRead` of a process that has a PCB, at a terminal with bytes, where `malloc` does not fail,
  -- returns the number of bytes that it has left for the process, as many as were asked for or as
  -- there are: these bytes followed by those the terminal has left are those it had.
  pub read_now-HasRead :
      (len : ℕ)
      → Returns
          (λ r t. (r ≡ returned (pos (at_most len (length buffer)))) × HasRead s i p len t)
          (read_now p i len s)
  read_now-HasRead len =
      let self : (i == i) ≡ true = ground arith in
      rw (read_now-ok len) (
        refl,
        record {
          got = take (at_most len (length buffer)) buffer;
          pcb = with_stash len c;
          at = rw (write_pcb-if s.kernel.pcbs p (some (with_stash len c)) p) (ground arith);
          stash = refl;
          size = rw (length-take_min len buffer) refl;
          all = rw self (take-drop (at_most len (length buffer)) buffer);
          enough = length-take_min len buffer;
        },
      )

  -- What `deliver` leaves, with the reader awake.
  pub record Delivered (t : Terminals) : Type 0 where
    pub read : HasRead s i p c.tty_read_len t
    pub awake : (x : Pcb) × (t.kernel.pcbs p ≡ some x) × (x.state ≡ proc_ready)
    pub ready_queue : t.kernel.ready_queue ≡ s.kernel.ready_queue ++ p ∷ []
    pub blocked_queue : t.kernel.blocked_queue ≡ without p s.kernel.blocked_queue

  abbrev waking : Cmd Kernel (Unit {0})
  waking = do
    dequeue_process blocked p
    update p (λ x. record x { state = proc_ready })
    enqueue ready p

  -- The reader when it has its bytes, and when it is awake.
  abbrev pub with_line : Pcb → Pcb
  with_line x =
      let n = at_most c.tty_read_len (length buffer) in
      record x {
        tty_kernel_read_buf = some (take n buffer);
        kernel_read_size = n;
        user_context = with_result (pos n) x.user_context;
      }

  abbrev pub woken : Pcb
  woken = record (with_line c) { state = proc_ready }

  -- The state after a round of the loop.
  abbrev pub after_delivery : Terminals
  after_delivery =
      let k1 = with_pcb counted p (with_line c) in
      let k3 = with_pcb (record k1 { blocked_queue = without p k1.blocked_queue }) p woken in
      record {
        kernel = record k3 {
          calls = k3.calls + 1;
          memory = k3.heap k3.calls k3.memory;
          ready_queue = k3.ready_queue ++ p ∷ [];
        };
        terminals = λ j.
            if j == i
            then record (s.terminals i) {
              read_buffer = drop (at_most c.tty_read_len (length buffer)) buffer;
            }
            else s.terminals j;
      }

  at_woken : after_delivery.kernel.pcbs p ≡ some woken
  unfolding write_pcb
  at_woken = ground arith

  pub deliver-ok : deliver i p s ≡ ok tt after_delivery
  unfolding deliver give set_terminal
  deliver-ok =
      let n = at_most c.tty_read_len (length buffer) in
      let got : (s.kernel.malloc s.kernel.calls == null) ≡ false =
        ground (arith, room s.kernel.calls) in
      let k1 = with_pcb counted p (with_line c) in
      let k2 = record k1 { blocked_queue = without p k1.blocked_queue } in
      let wake = λ (x : Pcb). record x { state = proc_ready } in
      let at1 : k2.pcbs p ≡ some (with_line c) =
        rw (write_pcb-if s.kernel.pcbs p (some (with_line c)) p) (ground arith) in
      let k3 = with_pcb k2 p woken in
      let k4 = record k3 {
        calls = k3.calls + 1;
        memory = k3.heap k3.calls k3.memory;
        ready_queue = k3.ready_queue ++ p ∷ [];
      } in
      let s1 = record s { kernel = counted } in
      let s2 = record s {
        kernel = k1;
        terminals = λ j.
            if j == i
            then record (s.terminals i) { read_buffer = drop n buffer }
            else s.terminals j;
      } in
      rw
        (
          on_kernel-ok (load p) c s.kernel s (load-ok p c s.kernel ne at),
          got,
          on_kernel-ok (update p with_line) tt k1 s1 (update-ok p with_line c counted ne at),
          on_kernel-ok waking tt k4 s2 (
              rw
                (
                  dequeue_process_blocked p k1 ne,
                  update-ok p wake (with_line c) k2 ne at1,
                  enqueue_ready_moves p k3 ne room,
                )
                refl),
        )
        refl

  -- In a round of the loop of `TtyTrapReceiveHandler`, the waiting reader, which has a PCB, gets
  -- the first bytes of the terminal, as many as it asked for or as there are, where `malloc` does
  -- not fail: these bytes followed by those the terminal has left are those it had. The reader
  -- leaves the blocked queue and goes to the end of the ready queue, in state READY.
  pub deliver-Delivered : Returns (λ _. Delivered) (deliver i p s)
  deliver-Delivered =
      let n = at_most c.tty_read_len (length buffer) in
      let self : (i == i) ≡ true = ground arith in
      rw deliver-ok (record {
        read = record {
          got = take n buffer;
          pcb = woken;
          at = at_woken;
          stash = refl;
          size = rw (length-take_min c.tty_read_len buffer) refl;
          all = rw self (take-drop n buffer);
          enough = length-take_min c.tty_read_len buffer;
        };
        awake = (woken, at_woken, refl);
        ready_queue = refl;
        blocked_queue = refl;
      })

-- `TtyRead` of the current process with proper arguments, where the terminal has bytes.
pub tty_read-ok :
    (s : Terminals) (i : ℕ) (c : Pcb) (ne : s.kernel.current_process ≢ null)
    (at : s.kernel.pcbs s.kernel.current_process ≡ some c) (room : NeverFails s.kernel)
    (buf len : ℕ)
    → i < num_terminals
    → buf ≢ null
    → 0 < len
    → 0 < length (s.terminals i).read_buffer
    → tty_read (pos i) buf (pos len) s
      ≡ ok
          (returned (pos (at_most len (length (s.terminals i).read_buffer))))
          (after_read s i s.kernel.current_process c ne at room len)
unfolding tty_read
tty_read-ok s i c ne at room buf len valid set asked some_there =
    let t1 : ltb i num_terminals ≡ true = ground arith in
    let t2 : (buf == null) ≡ false = ground arith in
    let t3 : ltb 0 len ≡ true = ground arith in
    let t4 : ltb 0 (length (s.terminals i).read_buffer) ≡ true = ground arith in
    rw (t1, t2, t3, t4) (read_now-ok s i s.kernel.current_process c ne at room len)
