-- ===== src/Tests/TerminalWrites.antt =====
-- A write of 1500 bytes, which takes two lines.
use tiny_kernels.Prelude.{
  ℕ, ◌≡◌, ◌++◌, [], List, none, false, true, inr, refl, ◌∷◌, arith, length, replicate,
  length-replicate,
}
use tiny_kernels.Prelude.Run.{Returns, and_then}
use tiny_kernels.Terminals.{
  Terminal, Terminals, begin_tty_transmit, transmit_handler, transmit_handlers,
}
use tiny_kernels.Terminals.HandOver.{NextWriter, HandedOver, transmit_handler-HandedOver}
use tiny_kernels.Terminals.Transmission.{concat, ShortLines, transmit_handlers-concat}
use tiny_kernels.Tests.Processes.{running, parent, sleeper}

abbrev pub idle_terminal : Terminal
idle_terminal = record {
  blocked_writers = [];
  blocked_readers = [];
  read_buffer = [];
  write_buffer = none;
  write_buffer_len = 0;
  write_buffer_position = 0;
  current_writer = 0;
  in_use = false;
  sent = [];
}

abbrev quiet : Terminals
quiet = record { kernel = running; terminals = λ i. idle_terminal }

abbrev text : List ℕ
text = replicate 1500 65

transmit_handlers-concat_example :
    Returns
      (λ _ t.
        (concat (t.terminals 1).sent ≡ [] ++ text)
        × ShortLines (t.terminals 1).sent
        × ((t.terminals 1).write_buffer_position ≡ length text))
      (and_then (begin_tty_transmit 1 10 text quiet) (λ _. transmit_handlers 1 1))
transmit_handlers-concat_example =
    transmit_handlers-concat 1 1 10 text quiet (λ n. omega arith) tt
      (rw (length-replicate {A = ℕ} 1500 65) (omega arith))
      (rw (length-replicate {A = ℕ} 1500 65) (omega arith))

-- The process at 10 has sent its five bytes, and the one at 30 waits for the terminal.
abbrev all_sent : Terminals
all_sent = record {
  kernel = running;
  terminals = λ i. record idle_terminal {
    current_writer = 10;
    write_buffer_len = 5;
    write_buffer_position = 5;
    in_use = true;
    blocked_writers = 30 ∷ [];
  };
}

next_writer : NextWriter all_sent 1
next_writer = inr (30, [], sleeper, refl, (λ q. omega arith), (λ q. omega arith), refl)

transmit_handler-HandedOver_example :
    Returns (λ _. HandedOver all_sent 1 parent next_writer) (transmit_handler 1 all_sent)
transmit_handler-HandedOver_example =
    transmit_handler-HandedOver all_sent 1 parent (λ q. omega arith) refl (λ n. omega arith)
      (omega arith) next_writer
