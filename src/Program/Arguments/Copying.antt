-- ===== src/Program/Arguments/Copying.antt =====
-- The last loop of LoadProgram (src/kernel.c), which copies the arguments to the new stack.
use tiny_kernels.Prelude.{
  ℕ, ◌+◌, ◌-◌, ◌*◌, ◌<◌, ◌≤◌, ◌≡◌, ◌≢◌, inl, inr, refl, ap, ◌∙◌, some, List, [], ◌∷◌, ◌++◌, arith,
  length, length-append,
}
use tiny_kernels.Prelude.Run.{Returns, mono}
use tiny_kernels.Hardware.{vmem_1_limit}
use tiny_kernels.Memory.{Memory}
use tiny_kernels.Kernel.{Ptr, null, Pcb, Kernel}
use tiny_kernels.Program.{args_size, save_args, copy_args}
use tiny_kernels.Kernel.UserBytes.{word}
use tiny_kernels.Program.FlatMemory.{
  KeepsOthers, byte_at, InRegion1, HasOwnFrames, HasWholeFrames, IsWritable, written,
  written-HasWholeFrames, write_user-ok,
}
use tiny_kernels.Program.FlatMemory.Blocks.{TwoWritten, written-TwoWritten}
use tiny_kernels.Program.Arguments.{AreStrings, c_string-append, drop-append, HasArgv}

-- After the copy: the vector and the strings, with every byte outside of them as it was.
pub record Copied (c : Pcb) (cpp cp : ℕ) (args : List (List ℕ)) (k t : Kernel) : Type 0 where
  pub only_memory : t ≡ record k { memory = t.memory }
  pub only_contents : t.memory ≡ record k.memory { contents = t.memory.contents }
  pub other_frames : KeepsOthers c.ptbr k.memory t.memory
  pub whole : HasWholeFrames t.memory
  pub argv : HasArgv (byte_at c.ptbr t.memory) cpp cp args
  pub below :
      (b : ℕ) → InRegion1 b → b < cpp → byte_at c.ptbr t.memory b ≡ byte_at c.ptbr k.memory b
  pub between :
      (b : ℕ)
      → InRegion1 b
      → cpp + 4 * length args + 8 ≤ b
      → b < cp
      → byte_at c.ptbr t.memory b ≡ byte_at c.ptbr k.memory b

module _ (p : Ptr) (c : Pcb) (ne : p ≢ null) (own : HasOwnFrames c.ptbr) (base : ℕ)
    (top : IsWritable c.ptbr base (vmem_1_limit - base)) where
  part : (addr n : ℕ) → base ≤ addr → addr + n ≤ vmem_1_limit → IsWritable c.ptbr addr n
  part addr n lo hi j from to = top j (omega arith) (omega arith)

  Copied-cons :
      (a : List ℕ) (rest : List (List ℕ)) (cpp cp : ℕ) (k : Kernel) (m : Memory) (t : Kernel)
      → TwoWritten c.ptbr cpp (word cp) cp (a ++ 0 ∷ []) k.memory m
      → base ≤ cpp
      → cpp + 4 * length (a ∷ rest) + 8 ≤ cp
      → cp + args_size (a ∷ rest) ≤ vmem_1_limit
      → Copied c (cpp + 4) (cp + length a + 1) rest (record k { memory = m }) t
      → Copied c cpp cp (a ∷ rest) k t
  Copied-cons a rest cpp cp k m t two lo gap hi r =
      let len : length (a ++ 0 ∷ []) ≡ length a + 1 = length-append a (0 ∷ []) in
      record {
        only_memory = r.only_memory;
        only_contents =
            r.only_contents
            ∙ ap (λ (q : Memory). record q { contents = t.memory.contents }) two.only_contents;
        other_frames = λ f away. r.other_frames f away ∙ two.other_frames f away;
        whole = r.whole;
        argv = (
          λ j h.
              r.below (cpp + j) (top (cpp + j) (omega arith) (omega arith)).0 (omega arith)
              ∙ two.first j h,
          λ j h.
              r.between (cp + j) (top (cp + j) (omega arith) (omega arith)).0 (omega arith)
                (omega arith)
              ∙ two.second j h,
          r.argv,
        );
        below = λ b rb h. r.below b rb (omega arith) ∙ two.outside b rb (inl h) (inl (omega arith));
        between = λ b rb h h'.
            r.between b rb (omega arith) (omega arith)
            ∙ two.outside b rb (inr (omega arith)) (inl h');
      }

  pub copy_args-Copied :
      (args : List (List ℕ)) (cpp cp : ℕ) (k : Kernel)
      → k.pcbs p ≡ some c
      → HasWholeFrames k.memory
      → base ≤ cpp
      → cpp + 4 * length args + 8 ≤ cp
      → cp + args_size args ≤ vmem_1_limit
      → AreStrings args
      → Returns (λ _. Copied c cpp cp args k) (copy_args (length args) cpp cp (save_args args) p k)
  unfolding copy_args save_args
  copy_args-Copied [] cpp cp k at whole lo gap hi is =
      let m1 = written c.ptbr cpp (word 0) k.memory in
      let m2 = written c.ptbr (cpp + 4) (word 0) m1 in
      let w1 : IsWritable c.ptbr cpp 4 = part cpp 4 lo (omega arith) in
      let w2 : IsWritable c.ptbr (cpp + 4) 4 = part (cpp + 4) 4 (omega arith) (omega arith) in
      rw
        (
          write_user-ok p c ne cpp (word 0) k at w1,
          write_user-ok p c ne (cpp + 4) (word 0) (record k { memory = m1 }) at w2,
        )
        (let two =
            written-TwoWritten c.ptbr own cpp (word 0) (cpp + 4) (word 0) k.memory whole w1 w2
              (omega arith) in
          record {
            only_memory = refl;
            only_contents = two.only_contents;
            other_frames = two.other_frames;
            whole = two.whole;
            argv = (two.first, two.second);
            below = λ b rb h. two.outside b rb (inl h) (inl (omega arith));
            between = λ b rb h h'. two.outside b rb (inr (omega arith)) (inr (omega arith));
          })
  copy_args-Copied (a ∷ rest) cpp cp k at whole lo gap hi (str, more) =
      let m1 = written c.ptbr cpp (word cp) k.memory in
      let m2 = written c.ptbr cp (a ++ 0 ∷ []) m1 in
      let len : length (a ++ 0 ∷ []) ≡ length a + 1 = length-append a (0 ∷ []) in
      let w1 : IsWritable c.ptbr cpp 4 = part cpp 4 lo (omega arith) in
      let w2 : IsWritable c.ptbr cp (length (a ++ 0 ∷ [])) =
        part cp (length (a ++ 0 ∷ [])) (omega arith) (omega arith) in
      rw
        (
          c_string-append a (save_args rest) str,
          drop-append a (save_args rest),
          write_user-ok p c ne cpp (word cp) k at w1,
          write_user-ok p c ne cp (a ++ 0 ∷ []) (record k { memory = m1 }) at w2,
        )
        (mono (λ _. Copied c (cpp + 4) (cp + length a + 1) rest (record k { memory = m2 }))
          (λ _. Copied c cpp cp (a ∷ rest) k) _
          (copy_args-Copied rest (cpp + 4) (cp + length a + 1) (record k { memory = m2 }) at
            (written-HasWholeFrames c.ptbr cp (a ++ 0 ∷ []) m1
              (written-HasWholeFrames c.ptbr cpp (word cp) k.memory whole))
            (omega arith) (omega arith) (omega arith) more)
          (λ _ t r.
            Copied-cons a rest cpp cp k m2 t
              (written-TwoWritten c.ptbr own cpp (word cp) cp (a ++ 0 ∷ []) k.memory whole w1 w2
                (omega arith))
              lo gap hi r))
