-- ===== src/Tests/UserPrograms.antt =====
-- A process whose one page is the last of region 1: it gets the arguments "i" and "ok", and reads a line.
use tiny_kernels.Prelude.{
  ℕ, zero, suc, ==_iff, ◌+◌, ◌-◌, ◌≤◌, ◌≡◌, ◌≢◌, refl, sym, ap, ◌∙◌, inl, inr, true, false,
  Bool-cases, none, some, List, [], ◌∷◌, arith, ◌==◌, if◌then◌else◌, get_elem?, replicate,
  length-replicate,
}
use tiny_kernels.Prelude.Run.{Returns}
use tiny_kernels.Hardware.{
  vpn_of, Pte, invalid_pte, max_pt_len, page_size, prot_read_write, vmem_1_limit,
}
use tiny_kernels.Memory.{modify}
use tiny_kernels.Memory.Tables.{get_elem?-modify_ne, modified}
use tiny_kernels.Kernel.{Pcb, Kernel, UserContext}
use tiny_kernels.Program.{argc_addr, build_args, Executable}
use tiny_kernels.Kernel.UserBytes.{frame_at, write_user}
use tiny_kernels.Program.FlatMemory.{
  mapped_frame, mapped_at, HasOwnFrames, HasWholeFrames, IsWritable, FlatWritten,
  write_user-FlatWritten,
}
use tiny_kernels.Program.Arguments.Stack.{HasArguments, build_args-HasArguments}
use tiny_kernels.Terminals.{Terminals}
use tiny_kernels.SystemCall.{UserView, kernel_trap_handler, yalnix_tty_read}
use tiny_kernels.SystemCall.TtyRead.{AsksFor, Received, kernel_trap_handler-Received}
use tiny_kernels.Tests.Processes.{running, running-HasMemory, parent, user_context, memory}
use tiny_kernels.Tests.TerminalWrites.{idle_terminal}

abbrev pub last_page : Pte
last_page = record { valid = true; prot = prot_read_write; pfn = 7 }

abbrev pub table : List Pte
table = modify (replicate max_pt_len invalid_pte) 127 (λ _. last_page)

mapped-replicate : (n v : ℕ) → mapped_frame (get_elem? (replicate n invalid_pte) v) ≡ none
mapped-replicate zero v = refl
mapped-replicate (suc n) zero = refl
mapped-replicate (suc n) (suc v) = mapped-replicate n v

-- A table whose last page is this one, and in which no other page is valid.
module _ (t : List Pte) (last : get_elem? t 127 ≡ some last_page)
    (others : (v : ℕ) → 127 ≢ v → mapped_frame (get_elem? t v) ≡ none) where
  only_last : (addr f : ℕ) → mapped_at t addr ≡ some f → vpn_of addr ≡ 127
  only_last addr f e = elim (Bool-cases (vpn_of addr == 127)) [
    | inl here ↦ (==_iff (vpn_of addr) 127).0 here
    | inr away ↦
        let far : 127 ≢ vpn_of addr = λ q. cc ((==_iff (vpn_of addr) 127).1 (sym q), away) in
        let gone : mapped_frame (get_elem? t (vpn_of addr)) ≡ none = others (vpn_of addr) far in
        absurd (cc (gone, e))
  ]

  pub last-HasOwnFrames : HasOwnFrames t
  last-HasOwnFrames a b f ea eb = only_last a f ea ∙ sym (only_last b f eb)

  last_page-frame : (addr : ℕ) → vpn_of addr ≡ 127 → frame_at t addr ≡ some 7
  unfolding frame_at
  last_page-frame addr e = rw (e, last) refl

  pub last-IsWritable :
      (addr n : ℕ) → 0x1f_e000 ≤ addr → addr + n ≤ vmem_1_limit → IsWritable t addr n
  last-IsWritable addr n lo hi j from to = (
    record { low = omega arith; high = omega arith },
    (7, last_page-frame j (omega (arith, lo, hi, from, to))),
  )

pub table-last : get_elem? table 127 ≡ some last_page
table-last =
    (modified (replicate max_pt_len invalid_pte) 127 (λ _. last_page)
      (rw (length-replicate max_pt_len invalid_pte) (omega arith))).1

pub table-others : (v : ℕ) → 127 ≢ v → mapped_frame (get_elem? table v) ≡ none
table-others v far =
    ap mapped_frame
      (get_elem?-modify_ne (replicate max_pt_len invalid_pte) 127 v (λ _. last_page) far)
    ∙ mapped-replicate max_pt_len v

abbrev pub process : Pcb
process = record parent { ptbr = table }

abbrev pub loaded : Kernel
loaded = record running {
  memory = record memory { contents = λ f. replicate page_size 0 };
  pcbs = λ a. if a == 10 then some process else none;
}

pub loaded-HasWholeFrames : HasWholeFrames loaded.memory
loaded-HasWholeFrames f = length-replicate {A = ℕ} page_size 0

write_user-FlatWritten_example :
    Returns
      (λ _. FlatWritten process 0x1f_f000 (1 ∷ 2 ∷ []) loaded)
      (write_user 10 0x1f_f000 (1 ∷ 2 ∷ []) loaded)
write_user-FlatWritten_example =
    write_user-FlatWritten 10 process 0x1f_f000 (1 ∷ 2 ∷ []) loaded (omega arith) refl
      (last-HasOwnFrames table table-last table-others) loaded-HasWholeFrames
      (last-IsWritable table table-last table-others 0x1f_f000 2 (omega arith) (omega arith))

abbrev pub args : List (List ℕ)
args = (105 ∷ []) ∷ (111 ∷ 107 ∷ []) ∷ []

build_args-HasArguments_example :
    Returns (λ _. HasArguments process args loaded) (build_args args 10 loaded)
build_args-HasArguments_example =
    build_args-HasArguments 10 process (omega arith)
      (last-HasOwnFrames table table-last table-others) args
      (last-IsWritable table table-last table-others (argc_addr args)
        (vmem_1_limit - argc_addr args) (omega arith) (omega arith))
      loaded refl loaded-HasWholeFrames (omega arith) (omega arith)

abbrev call : UserContext
call = record user_context { code = yalnix_tty_read; regs = 2 ∷ 0x1f_f000 ∷ 3 ∷ [] }

abbrev pub typed : Terminals
typed = record {
  kernel = loaded;
  terminals = λ i. record idle_terminal { read_buffer = 104 ∷ 101 ∷ 108 ∷ 108 ∷ 111 ∷ [] };
}

call-AsksFor : AsksFor call 2 0x1f_f000 3
call-AsksFor = record {
  call = refl;
  terminal = refl;
  buffer = refl;
  number = refl;
  valid = omega arith;
  in_region1 = omega arith;
  fits = omega arith;
  positive = omega arith;
}

abbrev pub no_program : Executable
no_program = record { opens = false; load_info = none; read = λ o n. [] }

abbrev pub view : UserView
view = record { program = λ a. no_program; argvec = λ a. []; bytes = λ a n. [] }

kernel_trap_handler-Received_example :
    Returns
      (Received typed process call 2 0x1f_f000 3 call-AsksFor
        (omega arith)
        refl
        running-HasMemory
        (omega arith))
      (kernel_trap_handler 0 view call typed)
kernel_trap_handler-Received_example =
    kernel_trap_handler-Received typed process call 2 0x1f_f000 3 call-AsksFor (omega arith) refl
      running-HasMemory (omega arith) 0 view (last-HasOwnFrames table table-last table-others)
      loaded-HasWholeFrames
      (last-IsWritable table table-last table-others 0x1f_f000 3 (omega arith) (omega arith))
