-- ===== src/Terminals/Reading/Serving.antt =====
-- `TtyTrapReceiveHandler` of src/traps/trap.c: all the readers that a line of input wakes.
pub mod Loop
use tiny_kernels.Prelude.{
  ℕ, zero, suc, ◌+◌, ◌-◌, ◌<◌, ◌≡◌, ◌≢◌, refl, sym, ap, ◌∙◌, ◌⊎◌, inl, inr, true, false, ◌||◌, some,
  List, [], ◌∷◌, ◌++◌, arith, ◌==◌, if◌then◌else◌, append_assoc, append-nil, length, length-append,
  take, drop, take-drop, Bool-cases, subst,
}
use tiny_kernels.Prelude.Int.{pos}
use tiny_kernels.Prelude.Run.{ok, Returns, mono}
use tiny_kernels.Kernel.{Ptr, null, Pcb, proc_ready, Kernel, without, write_pcb, with_result}
use tiny_kernels.Kernel.Scheduling.{HasMemory, mem, Distinct, Loaded, Loaded-cong}
use tiny_kernels.Terminals.{Terminal, Terminals, terminal, set_terminal}
use tiny_kernels.Terminals.Transmission.{concat}
use tiny_kernels.Terminals.Reading.{at_most, deliver, deliver_loop, receive_handler}
use tiny_kernels.Terminals.Reading.Delivery.{length-take_min, woken, after_delivery, deliver-ok}

-- The process at `p` is awake with these bytes, as many as it asked for or as the `n` that there were.
abbrev pub HasPart : (s t : Terminals) → (n : ℕ) → Ptr → List ℕ → Type 0
HasPart s t n p part =
    (c : Pcb) × (s.kernel.pcbs p ≡ some c)
    × (length part ≡ at_most c.tty_read_len n)
    × (t.kernel.pcbs p
        ≡ some (record c {
          state = proc_ready;
          tty_kernel_read_buf = some part;
          kernel_read_size = length part;
          user_context = with_result (pos (length part)) c.user_context;
        }))

-- Each reader has its part of the `n` bytes, in order.
abbrev pub HaveParts : (s t : Terminals) → (n : ℕ) → List Ptr → List (List ℕ) → Type 0
HaveParts s t n [] [] = Unit
HaveParts s t n [] (x ∷ xs) = ⊥
HaveParts s t n (p ∷ ps) [] = ⊥
HaveParts s t n (p ∷ ps) (x ∷ xs) = HasPart s t n p x × HaveParts s t (n - length x) ps xs

abbrev pub without_all : List Ptr → List Ptr → List Ptr
without_all [] queue = queue
without_all (p ∷ ps) queue = without_all ps (without p queue)

-- The first readers have got the bytes of the terminal, in order, until there were no more bytes or no
-- more readers.
pub record Served (s : Terminals) (i : ℕ) (readers : List Ptr) (t : Terminals) : Type 0 where
  pub served : List Ptr
  pub waiting : List Ptr
  pub split : readers ≡ served ++ waiting
  pub parts : List (List ℕ)
  pub have : HaveParts s t (length (s.terminals i).read_buffer) served parts
  pub all : concat parts ++ (t.terminals i).read_buffer ≡ (s.terminals i).read_buffer
  pub queue : (t.terminals i).blocked_readers ≡ waiting
  pub done : (waiting ≡ []) ⊎ (length (t.terminals i).read_buffer ≡ 0)
  pub ready_queue : t.kernel.ready_queue ≡ s.kernel.ready_queue ++ served
  pub blocked_queue : t.kernel.blocked_queue ≡ without_all served s.kernel.blocked_queue
  pub others : (a : Ptr) → mem a served ≡ false → t.kernel.pcbs a ≡ s.kernel.pcbs a
  pub other_terminals : (j : ℕ) → j ≢ i → t.terminals j ≡ s.terminals j

-- The bytes that `TtyReceive` gives stand behind those that the terminal has.
abbrev pub with_input : ℕ → List ℕ → Terminals → Terminals
with_input i received s = record s {
  terminals = λ j.
      if j == i
      then record (s.terminals i) { read_buffer = (s.terminals i).read_buffer ++ received }
      else s.terminals j;
}
