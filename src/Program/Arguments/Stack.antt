-- ===== src/Program/Arguments/Stack.antt =====
-- The stack that LoadProgram (src/kernel.c) builds for the arguments of the new program.
use tiny_kernels.Prelude.{
  ℕ, ◌+◌, ◌-◌, ◌*◌, ◌<◌, ◌≤◌, ◌≡◌, ◌≢◌, inl, ap, ◌∙◌, some, List, arith, length, replicate,
  length-replicate,
}
use tiny_kernels.Prelude.Run.{Returns, mono}
use tiny_kernels.Hardware.{vmem_1_base, vmem_1_limit, sub32}
use tiny_kernels.Memory.{Memory}
use tiny_kernels.Kernel.{Ptr, null, Pcb, Kernel}
use tiny_kernels.Program.{args_size, strings_start, argc_addr, build_args}
use tiny_kernels.Kernel.UserBytes.{word}
use tiny_kernels.Program.FlatMemory.{
  KeepsOthers, written-KeepsOthers, byte_at, InRegion1, HasOwnFrames, HasWholeFrames, IsWritable,
  written, written-same, written-HasWholeFrames, write_user-ok,
}
use tiny_kernels.Program.FlatMemory.Blocks.{written-outside, written-Holds}
use tiny_kernels.Program.Arguments.{
  AreStrings, read_word, read_strings, read_word-Holds, read_strings-HasArgv,
}
use tiny_kernels.Program.Arguments.Copying.{Copied, copy_args-Copied}

-- The arguments leave room on the stack: no address wraps.
abbrev pub IsFitting : List (List ℕ) → Type 0
IsFitting args = args_size args + 4 * length args + 148 ≤ 0x10_0000

-- What a program finds at its stack pointer: `argc`, and the vector of its arguments behind it.
pub record HasArguments (c : Pcb) (args : List (List ℕ)) (k t : Kernel) : Type 0 where
  pub argc : read_word (byte_at c.ptbr t.memory) (argc_addr args) ≡ some (length args)
  pub argv :
      (fuel : ℕ)
      → args_size args < fuel
      → read_strings (length args) fuel (byte_at c.ptbr t.memory) (argc_addr args + 4) ≡ some args
  pub only_memory : t ≡ record k { memory = t.memory }
  pub only_contents : t.memory ≡ record k.memory { contents = t.memory.contents }
  pub other_frames : KeepsOthers c.ptbr k.memory t.memory
  pub below :
      (b : ℕ)
      → InRegion1 b
      → b < argc_addr args
      → byte_at c.ptbr t.memory b ≡ byte_at c.ptbr k.memory b

addresses :
    (args : List (List ℕ))
    → IsFitting args
    → (strings_start args ≡ vmem_1_limit - args_size args)
      × (argc_addr args + 4 + 4 * length args + 8 ≤ strings_start args)
      × (vmem_1_base ≤ argc_addr args)
      × (argc_addr args < vmem_1_limit)
addresses args h = (omega arith, omega arith, omega arith, omega arith)

module _ (p : Ptr) (c : Pcb) (ne : p ≢ null) (own : HasOwnFrames c.ptbr) (args : List (List ℕ))
    (top : IsWritable c.ptbr (argc_addr args) (vmem_1_limit - argc_addr args)) where
  module _ (k : Kernel) (whole : HasWholeFrames k.memory) (fits : IsFitting args) where
    zeros : List ℕ
    zeros = replicate (sub32 vmem_1_limit (argc_addr args)) 0

    after_zeros : Memory
    after_zeros = written c.ptbr (argc_addr args) zeros k.memory

    after_argc : Memory
    after_argc = written c.ptbr (argc_addr args) (word (length args)) after_zeros

    zeros-IsWritable : IsWritable c.ptbr (argc_addr args) (length zeros)
    unfolding zeros
    zeros-IsWritable =
        let len : length zeros ≡ sub32 vmem_1_limit (argc_addr args) =
          length-replicate (sub32 vmem_1_limit (argc_addr args)) 0 in
        let (_, _, low, high) = addresses args fits in λ j lo hi. top j lo (omega arith)

    argc-IsWritable : IsWritable c.ptbr (argc_addr args) 4
    argc-IsWritable =
        let (at, gap, low, high) = addresses args fits in λ j lo hi. top j lo (omega arith)

    argc-outside :
        (b : ℕ)
        → InRegion1 b
        → b < argc_addr args
        → byte_at c.ptbr after_argc b ≡ byte_at c.ptbr k.memory b
    unfolding after_argc after_zeros
    argc-outside b rb h =
        written-outside c.ptbr own (argc_addr args) (word (length args)) after_zeros
          (written-HasWholeFrames c.ptbr (argc_addr args) zeros k.memory whole) argc-IsWritable b rb
          (inl h)
        ∙ written-outside c.ptbr own (argc_addr args) zeros k.memory whole zeros-IsWritable b rb
            (inl h)

    argc-contents : after_argc ≡ record k.memory { contents = after_argc.contents }
    unfolding after_argc after_zeros
    argc-contents =
        written-same c.ptbr (argc_addr args) (word (length args)) after_zeros
        ∙ ap (λ (q : Memory). record q { contents = after_argc.contents })
            (written-same c.ptbr (argc_addr args) zeros k.memory)

    argc-KeepsOthers : KeepsOthers c.ptbr k.memory after_argc
    unfolding after_argc after_zeros
    argc-KeepsOthers f away =
        written-KeepsOthers c.ptbr (argc_addr args) (word (length args)) after_zeros f away
        ∙ written-KeepsOthers c.ptbr (argc_addr args) zeros k.memory f away

    Copied-HasArguments :
        (t : Kernel)
        → AreStrings args
        → Copied c
            (argc_addr args + 4)
            (strings_start args)
            args
            (record k { memory = after_argc })
            t
        → HasArguments c args k t
    unfolding after_argc after_zeros
    Copied-HasArguments t strings r =
        let (at, gap, low, high) = addresses args fits in
        record {
          argc =
              read_word-Holds (byte_at c.ptbr t.memory) (argc_addr args) (length args) (omega arith)
                (λ j h.
                  r.below (argc_addr args + j)
                    (top (argc_addr args + j) (omega arith) (omega arith)).0 (omega arith)
                  ∙ written-Holds c.ptbr own (argc_addr args) (word (length args)) after_zeros
                      (written-HasWholeFrames c.ptbr (argc_addr args) zeros k.memory whole)
                      argc-IsWritable j h);
          argv = λ fuel big.
              read_strings-HasArgv fuel (byte_at c.ptbr t.memory) (argc_addr args + 4)
                (strings_start args) args big (omega arith) strings r.argv;
          only_memory = r.only_memory;
          only_contents =
              r.only_contents
              ∙ ap (λ (q : Memory). record q { contents = t.memory.contents }) argc-contents;
          other_frames = λ f away. r.other_frames f away ∙ argc-KeepsOthers f away;
          below = λ b rb h. r.below b rb (omega arith) ∙ argc-outside b rb h;
        }

  -- For arguments that are strings without a NUL and leave 148 bytes and their pointers free in
  -- region 1, and a process with a PCB whose pages from the new stack pointer up can be written,
  -- whose valid pages have frames of their own, each a page long, the end of `LoadProgram` that
  -- builds the stack returns. A program that reads its stack then finds the number of its
  -- arguments at the stack pointer and, behind it, a vector of pointers to exactly these strings.
  -- Below the stack pointer no byte of a valid page has changed, and nothing of the kernel but the
  -- contents of the frames of its valid pages.
  pub build_args-HasArguments :
      (k : Kernel)
      → k.pcbs p ≡ some c
      → HasWholeFrames k.memory
      → IsFitting args
      → AreStrings args
      → Returns (λ _. HasArguments c args k) (build_args args p k)
  unfolding build_args after_argc after_zeros zeros
  build_args-HasArguments k at whole fits strings =
      let m1 = after_zeros k whole fits in
      let m2 = after_argc k whole fits in
      let (start, gap, low, high) = addresses args fits in
      rw
        (
          write_user-ok p c ne (argc_addr args) (zeros k whole fits) k at
              (zeros-IsWritable k whole fits),
          write_user-ok p c ne (argc_addr args) (word (length args)) (record k { memory = m1 }) at
              (argc-IsWritable k whole fits),
        )
        (mono
          (λ _. Copied c (argc_addr args + 4) (strings_start args) args (record k { memory = m2 }))
          (λ _. HasArguments c args k) _
          (copy_args-Copied p c ne own (argc_addr args) top args (argc_addr args + 4)
            (strings_start args) (record k { memory = m2 }) at
            (written-HasWholeFrames c.ptbr (argc_addr args) (word (length args)) m1
              (written-HasWholeFrames c.ptbr (argc_addr args) (zeros k whole fits) k.memory whole))
            (omega arith) gap (omega arith) strings)
          (λ _ t r. Copied-HasArguments k whole fits t strings r))
