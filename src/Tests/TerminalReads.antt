-- ===== src/Tests/TerminalReads.antt =====
-- Reads of a terminal with five bytes.
use tiny_kernels.Prelude.{refl, [], ◌∷◌, arith, none, some, ◌==◌, if◌then◌else◌}
use tiny_kernels.Prelude.Run.{Returns}
use tiny_kernels.Kernel.{Pcb}
use tiny_kernels.Terminals.{Terminals}
use tiny_kernels.Terminals.Reading.{receive_handler}
use tiny_kernels.Terminals.Reading.Serving.{Served, with_input}
use tiny_kernels.Terminals.Reading.Serving.Loop.{receive_handler-Served}
use tiny_kernels.Tests.Processes.{running, parent, sleeper}
use tiny_kernels.Tests.TerminalWrites.{idle_terminal}

abbrev reader : Pcb
reader = record sleeper { tty_read_len = 3 }

abbrev typed : Terminals
typed = record {
  kernel = record running {
    pcbs = λ a. if a == 10 then some parent else if a == 30 then some reader else none;
  };
  terminals = λ i. record idle_terminal { read_buffer = 104 ∷ 101 ∷ 108 ∷ 108 ∷ 111 ∷ [] };
}

abbrev other_reader : Pcb
other_reader = record sleeper { tty_read_len = 9 }

-- Two processes wait for what is typed at terminal 2.
abbrev waited_for : Terminals
waited_for = record {
  kernel = record running {
    pcbs = λ a. if a == 30 then some reader else if a == 40 then some other_reader else none;
  };
  terminals = λ i. record idle_terminal { blocked_readers = 30 ∷ 40 ∷ [] };
}

receive_handler-Served_example :
    Returns
      (λ _. Served (with_input 2 (104 ∷ 105 ∷ 33 ∷ 33 ∷ 10 ∷ []) waited_for) 2 (30 ∷ 40 ∷ []))
      (receive_handler 2 (104 ∷ 105 ∷ 33 ∷ 33 ∷ 10 ∷ []) waited_for)
receive_handler-Served_example =
    receive_handler-Served (104 ∷ 105 ∷ 33 ∷ 33 ∷ 10 ∷ []) waited_for 2 (λ n. omega arith)
      (refl, (refl, tt)) (omega arith, (reader, refl), (omega arith, (other_reader, refl), tt))
