-- ===== src/SystemCall/TtyRead.antt =====
-- The system call TtyRead from end to end: `KernelTrapHandler` of src/traps/trap.c, `TtyRead` of
-- src/syscalls/tty.c, and the bytes in the memory of the process.
use tiny_kernels.Prelude.{
  ℕ, ◌+◌, ◌<◌, ◌≤◌, ◌≡◌, ◌≢◌, refl, true, false, none, some, List, arith, ltb, ◌==◌, length, take,
  take-all, drop,
}
use tiny_kernels.Prelude.Int.{pos}
use tiny_kernels.Prelude.Run.{ok, Returns}
use tiny_kernels.Hardware.{vmem_1_base, vmem_1_limit}
use tiny_kernels.Kernel.{Ptr, null, Pcb, UserContext, Kernel, with_result, returned}
use tiny_kernels.Kernel.Scheduling.{HasMemory, with_pcb, load-ok, update-ok, write_pcb-if}
use tiny_kernels.Clock.{clock_resumed}
use tiny_kernels.UserMemory.{check_buffer}
use tiny_kernels.UserMemory.Buffers.{check_buffer-inside}
use tiny_kernels.Terminals.{Terminals, on_kernel, num_terminals}
use tiny_kernels.Terminals.Reading.{at_most}
use tiny_kernels.Terminals.Reading.Delivery.{on_kernel-ok, tty_read-ok, after_read, length-take_min}
use tiny_kernels.Program.FlatMemory.{
  KeepsOthers, written-KeepsOthers, byte_at, InRegion1, HasOwnFrames, HasWholeFrames, IsWritable,
  overlay, written, written-overlay, written-same, write_user-ok,
}
use tiny_kernels.SystemCall.{
  UserView, reg, yalnix_tty_read, yalnix_delay, yalnix_brk, yalnix_fork, yalnix_getpid, yalnix_wait,
  yalnix_exit, yalnix_exec, signed32, save_context, finish, unpack, tty_read_returned,
  tty_read_trap, kernel_trap_handler, Handled,
}

-- The bytes that are left in the kernel for the current process go to its buffer.
unpack-ok :
    (k : Kernel) (d : Pcb) (buf : ℕ) (stash bs : List ℕ)
    → k.current_process ≢ null
    → k.pcbs k.current_process ≡ some d
    → d.tty_kernel_read_buf ≡ some stash
    → take d.kernel_read_size stash ≡ bs
    → IsWritable d.ptbr buf (length bs)
    → unpack buf k
      ≡ ok tt (
          with_pcb
            (record k { memory = written d.ptbr buf bs k.memory })
            k.current_process
            (record d { tty_kernel_read_buf = none; kernel_read_size = 0 }))
unfolding unpack
unpack-ok k d buf stash bs ne at left all w =
    let k1 = record k { memory = written d.ptbr buf bs k.memory } in
    rw
      (
        load-ok k.current_process d k ne at,
        left,
        all,
        write_user-ok k.current_process d ne buf bs k at w,
      )
      (update-ok k.current_process
        (λ x. record x { tty_kernel_read_buf = none; kernel_read_size = 0 }) d k1 ne at)

-- The call asks for `len` bytes of terminal `i`, to be put at `buf`.
pub record AsksFor (ctx : UserContext) (i buf len : ℕ) : Type 0 where
  pub call : ctx.code ≡ yalnix_tty_read
  pub terminal : reg 0 ctx ≡ i
  pub buffer : reg 1 ctx ≡ buf
  pub number : reg 2 ctx ≡ len
  pub valid : i < num_terminals
  pub in_region1 : vmem_1_base ≤ buf
  pub fits : buf + len ≤ vmem_1_limit
  pub positive : 0 < len

module _ (s : Terminals) (c : Pcb) (ctx : UserContext) (i buf len : ℕ)
    (asks : AsksFor ctx i buf len) (ne : s.kernel.current_process ≢ null)
    (at : s.kernel.pcbs s.kernel.current_process ≡ some c) (room : HasMemory s.kernel)
    (there : 0 < length (s.terminals i).read_buffer) where
  abbrev pub caller : Ptr
  caller = s.kernel.current_process

  abbrev pub count : ℕ
  count = at_most len (length (s.terminals i).read_buffer)

  abbrev pub bytes : List ℕ
  bytes = take count (s.terminals i).read_buffer

  -- The state of the process in the course of the call.
  abbrev saved : Pcb
  saved = record c { user_context = ctx }

  abbrev entered : Terminals
  entered = record s { kernel = with_pcb s.kernel s.kernel.current_process saved }

  entered-pcb : entered.kernel.pcbs s.kernel.current_process ≡ some saved
  entered-pcb =
      rw (write_pcb-if s.kernel.pcbs s.kernel.current_process (some saved) s.kernel.current_process)
        (ground arith)

  dispatched :
      (fuel : ℕ) (user : UserView) → kernel_trap_handler fuel user ctx s ≡ tty_read_trap ctx s
  unfolding kernel_trap_handler
  dispatched fuel user =
      let t1 : (ctx.code == yalnix_delay) ≡ false = ground (arith, asks.call) in
      let t2 : (ctx.code == yalnix_brk) ≡ false = ground (arith, asks.call) in
      let t3 : (ctx.code == yalnix_fork) ≡ false = ground (arith, asks.call) in
      let t4 : (ctx.code == yalnix_getpid) ≡ false = ground (arith, asks.call) in
      let t5 : (ctx.code == yalnix_wait) ≡ false = ground (arith, asks.call) in
      let t6 : (ctx.code == yalnix_exit) ≡ false = ground (arith, asks.call) in
      let t7 : (ctx.code == yalnix_exec) ≡ false = ground (arith, asks.call) in
      let t8 : (ctx.code == yalnix_tty_read) ≡ true = ground (arith, asks.call) in
      rw (t1, t2, t3, t4, t5, t6, t7, t8) refl

  trap :
      tty_read_trap ctx s
      ≡ on_kernel
          (tty_read_returned (reg 1 ctx) (returned (pos count)))
          (after_read entered i s.kernel.current_process saved ne entered-pcb room.gives len)
  unfolding tty_read_trap save_context
  trap =
      let ok_buffer : check_buffer buf len ≡ pos 0 =
        (check_buffer-inside buf len (omega (arith, asks.fits))).1 (asks.in_region1, asks.fits) in
      let set : buf ≢ null = λ e. absurd (omega (arith, asks.in_region1)) in
      let small : signed32 len ≡ pos len = ground (arith, asks.fits) in
      let id : signed32 i ≡ pos i = ground (arith, asks.valid) in
      let k1 = with_pcb s.kernel s.kernel.current_process saved in
      rw
        (
          asks.terminal,
          asks.buffer,
          asks.number,
          ok_buffer,
          on_kernel-ok (save_context ctx) tt k1 s (
              update-ok s.kernel.current_process (λ x. record x { user_context = ctx }) c s.kernel
                ne at),
          small,
          id,
        )
        (rw
          (tty_read-ok entered i saved ne entered-pcb room.gives buf len asks.valid set
            asks.positive there)
          refl)

  -- The state when `TtyRead` has returned, and the PCB there.
  abbrev stashed : Pcb
  stashed = record saved { tty_kernel_read_buf = some bytes; kernel_read_size = count }

  abbrev returning : Kernel
  returning =
      (after_read entered i s.kernel.current_process saved ne entered-pcb room.gives len).kernel

  abbrev unpacked : Kernel
  unpacked =
      with_pcb (record returning { memory = written c.ptbr buf bytes returning.memory })
        s.kernel.current_process
        (record stashed { tty_kernel_read_buf = none; kernel_read_size = 0 })

  returned_lem :
      IsWritable c.ptbr buf count
      → tty_read_returned buf (returned (pos count)) returning
        ≡ ok (some (with_result (pos count) ctx)) unpacked
  unfolding tty_read_returned finish clock_resumed
  returned_lem w =
      let pcb : returning.pcbs s.kernel.current_process ≡ some stashed =
        rw
          (write_pcb-if entered.kernel.pcbs s.kernel.current_process (some stashed)
            s.kernel.current_process)
          (ground arith) in
      let last : unpacked.pcbs s.kernel.current_process
          ≡ some (record stashed { tty_kernel_read_buf = none; kernel_read_size = 0 }) =
        rw
          (write_pcb-if returning.pcbs s.kernel.current_process
            (some (record stashed { tty_kernel_read_buf = none; kernel_read_size = 0 }))
            s.kernel.current_process)
          (ground arith) in
      let len_bytes : length bytes ≡ count = length-take_min len (s.terminals i).read_buffer in
      let all : take count bytes ≡ bytes = take-all count bytes (omega (arith, len_bytes)) in
      let positive : ltb 0 count ≡ true = ground (arith, asks.positive, there) in
      rw
        (
          positive,
          unpack-ok returning stashed buf bytes bytes ne pcb refl all (rw len_bytes w),
          load-ok s.kernel.current_process
              (record stashed { tty_kernel_read_buf = none; kernel_read_size = 0 }) unpacked ne
              last,
        )
        refl

  -- The end of the call: the number of bytes in the context, the bytes in the memory of the process,
  -- of whose valid pages no other byte has changed, and the others still with the terminal.
  pub record Received (r : Handled) (t : Terminals) : Type 0 where
    pub result : r ≡ some (with_result (pos count) ctx)
    pub memory :
        (b : ℕ)
        → InRegion1 b
        → byte_at c.ptbr t.kernel.memory b ≡ overlay buf bytes (byte_at c.ptbr s.kernel.memory) b
    pub only_contents :
        t.kernel.memory ≡ record s.kernel.memory { contents = t.kernel.memory.contents }
    pub other_frames : KeepsOthers c.ptbr s.kernel.memory t.kernel.memory
    pub left : (t.terminals i).read_buffer ≡ drop count (s.terminals i).read_buffer
    pub others : (j : ℕ) → j ≢ i → t.terminals j ≡ s.terminals j
    pub no_stash : (d : Pcb) × (t.kernel.pcbs caller ≡ some d) × (d.tty_kernel_read_buf ≡ none)
    pub same_process : t.kernel.current_process ≡ caller

  -- At a system call TtyRead of a positive number of bytes into a buffer inside region 1, from a
  -- terminal that has bytes, by a process with a PCB, where `malloc` does not fail and does not
  -- move the break of the heap, its valid pages have frames of their own, each a page long, and
  -- the buffer can be written: `KernelTrapHandler` returns to the process. Its result is the
  -- number of bytes asked for or the number there are, the smaller one; as many of the first bytes
  -- of the terminal are at the buffer, and no other byte of a valid page, and of the memory
  -- nothing but the contents of the frames of these pages, has changed; the terminal keeps the
  -- other bytes, the other terminals are unchanged, and nothing is left in the kernel's buffer.
  pub kernel_trap_handler-Received :
      (fuel : ℕ) (user : UserView)
      → HasOwnFrames c.ptbr
      → HasWholeFrames s.kernel.memory
      → IsWritable c.ptbr buf count
      → Returns Received (kernel_trap_handler fuel user ctx s)
  kernel_trap_handler-Received fuel user own whole w =
      let len_bytes : length bytes ≡ count = length-take_min len (s.terminals i).read_buffer in
      let self : (i == i) ≡ true = ground arith in
      let s1 = after_read entered i s.kernel.current_process saved ne entered-pcb room.gives len in
      let d = record stashed { tty_kernel_read_buf = none; kernel_read_size = 0 } in
      rw
        (
          dispatched fuel user,
          trap,
          asks.buffer,
          on_kernel-ok (tty_read_returned buf (returned (pos count)))
              (some (with_result (pos count) ctx)) unpacked s1 (returned_lem w),
          room.stays s.kernel.calls s.kernel.memory,
        )
        (record {
          result = refl;
          memory = λ b rb.
              written-overlay c.ptbr own buf bytes s.kernel.memory b whole (rw len_bytes w) rb;
          only_contents = written-same c.ptbr buf bytes s.kernel.memory;
          other_frames = written-KeepsOthers c.ptbr buf bytes s.kernel.memory;
          left = rw self refl;
          others = λ j far. let apart : (j == i) ≡ false = ground arith in rw apart refl;
          no_stash = (
            d,
            rw
                (write_pcb-if returning.pcbs s.kernel.current_process (some d)
                  s.kernel.current_process)
                (ground arith),
            refl,
          );
          same_process = refl;
        })
