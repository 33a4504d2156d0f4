-- ===== src/Program/Arguments.antt =====
-- The arguments that LoadProgram (src/kernel.c) puts on the new stack, read back from it.
pub mod Copying
pub mod Stack
use tiny_kernels.Prelude.{
  ℕ, zero, suc, ◌+◌, ◌-◌, ◌*◌, ◌<◌, ◌≤◌, ◌%◌, ◌/◌, ◌^◌, ◌≡◌, ◌≢◌, ◌⊎◌, inl, inr, refl, sym, ap, ◌∙◌,
  subst, true, false, Option, none, some, List, [], ◌∷◌, ◌++◌, arith, ◌==◌, if◌then◌else◌, length,
  length-append, get_elem?, drop, replicate, length-replicate,
}
use mathlib.Core.Option
use tiny_kernels.Prelude.Run.{ok, Returns, mono}
use tiny_kernels.Hardware.{vmem_1_base, vmem_1_limit, sub32}
use tiny_kernels.Memory.{Memory}
use tiny_kernels.Kernel.{Ptr, null, Pcb, Kernel}
use tiny_kernels.Program.{args_size, save_args, copy_args, strings_start, argc_addr, build_args}
use tiny_kernels.Kernel.UserBytes.{word, c_string}
use tiny_kernels.Program.FlatMemory.{
  byte_at, InRegion1, HasOwnFrames, HasWholeFrames, IsWritable, written, written-same,
  written-HasWholeFrames, write_user-ok,
}
use tiny_kernels.Program.FlatMemory.Blocks.{
  written-outside, written-Holds, Holds, TwoWritten, written-TwoWritten,
}

-- A string has no NUL in it.
abbrev pub IsString : List ℕ → Type 0
IsString [] = Unit
IsString (b ∷ bs) = (0 < b) × IsString bs

abbrev pub AreStrings : List (List ℕ) → Type 0
AreStrings [] = Unit
AreStrings (a ∷ rest) = IsString a × AreStrings rest

-- How a program reads a number of 32 bits, a string, and a vector of `n` pointers to strings.
abbrev pub read_word : (ℕ → Option ℕ) → (addr : ℕ) → Option ℕ
read_word mem addr = Option.bind (mem addr) λ a. Option.bind (mem (addr + 1)) λ b.
    Option.bind (mem (addr + 2))
      λ c. Option.map (λ d. a + b * 0x100 + c * 0x1_0000 + d * 0x100_0000) (mem (addr + 3))

pub read_string : (fuel : ℕ) → (ℕ → Option ℕ) → (addr : ℕ) → Option (List ℕ)
read_string zero mem addr = none
read_string (suc n) mem addr = Option.bind (mem addr) λ b.
    let more = Option.map (λ s. b ∷ s) (read_string n mem (addr + 1)) in
    if b == 0 then some [] else more

pub read_strings : (n fuel : ℕ) → (ℕ → Option ℕ) → (addr : ℕ) → Option (List (List ℕ))
unfolding read_string
read_strings zero fuel mem addr = some []
read_strings (suc n) fuel mem addr = Option.bind (read_word mem addr) λ ptr.
    Option.bind (read_string fuel mem ptr)
      λ s. Option.map (λ more. s ∷ more) (read_strings n fuel mem (addr + 4))

pub read_word-Holds :
    (mem : ℕ → Option ℕ) (addr n : ℕ)
    → n < 2 ^ 32
    → Holds mem addr (word n)
    → read_word mem addr ≡ some n
unfolding Option.bind
read_word-Holds mem addr n small h =
    let e : addr + 0 ≡ addr = omega arith in
    let h0 : mem addr ≡ some (n % 0x100) =
      subst (λ a. mem a ≡ some (n % 0x100)) e (h 0 (omega arith)) in
    rw (h0, h 1 (omega arith), h 2 (omega arith), h 3 (omega arith)) (ap some (omega arith))

Holds-tail :
    (mem : ℕ → Option ℕ) (addr b : ℕ) (bs : List ℕ)
    → Holds mem addr (b ∷ bs)
    → Holds mem (addr + 1) bs
Holds-tail mem addr b bs h j lt =
    let e : addr + suc j ≡ addr + 1 + j = omega arith in
    subst (λ a. mem a ≡ get_elem? bs j) e (h (suc j) (omega arith))

Holds-head :
    (mem : ℕ → Option ℕ) (addr b : ℕ) (bs : List ℕ) → Holds mem addr (b ∷ bs) → mem addr ≡ some b
Holds-head mem addr b bs h =
    let e : addr + 0 ≡ addr = omega arith in subst (λ a. mem a ≡ some b) e (h 0 (omega arith))

read_string-Holds :
    (fuel : ℕ) (mem : ℕ → Option ℕ) (addr : ℕ) (s : List ℕ)
    → length s < fuel
    → IsString s
    → Holds mem addr (s ++ 0 ∷ [])
    → read_string fuel mem addr ≡ some s
unfolding read_string Option.bind
read_string-Holds zero mem addr s lt is h = absurd (omega arith)
read_string-Holds (suc n) mem addr [] lt is h = rw (Holds-head mem addr 0 [] h) refl
read_string-Holds (suc n) mem addr (b ∷ s) lt (nz, is) h =
    let test : (b == 0) ≡ false = ground arith in
    rw
      (
        Holds-head mem addr b (s ++ 0 ∷ []) h,
        test,
        read_string-Holds n mem (addr + 1) s (omega arith) is
            (Holds-tail mem addr b (s ++ 0 ∷ []) h),
      )
      refl

pub c_string-append : (a more : List ℕ) → IsString a → c_string (a ++ 0 ∷ more) ≡ a
c_string-append [] more is = refl
c_string-append (b ∷ a) more (nz, is) =
    let test : (b == 0) ≡ false = ground arith in
    rw test (ap (λ s. b ∷ s) (c_string-append a more is))

pub drop-append : (a more : List ℕ) → drop (length a + 1) (a ++ 0 ∷ more) ≡ more
drop-append [] more = refl
drop-append (b ∷ a) more =
    let e : suc (length a) + 1 ≡ suc (length a + 1) = omega arith in rw e (drop-append a more)

-- The vector at `cpp` points to the strings, which stand one after the other at `cp`, and ends in NULL.
abbrev pub HasArgv : (mem : ℕ → Option ℕ) → (cpp cp : ℕ) → List (List ℕ) → Type 0
HasArgv mem cpp cp [] = Holds mem cpp (word 0) × Holds mem (cpp + 4) (word 0)
HasArgv mem cpp cp (a ∷ rest) =
    Holds mem cpp (word cp)
    × Holds mem cp (a ++ 0 ∷ [])
    × HasArgv mem (cpp + 4) (cp + length a + 1) rest

pub read_strings-HasArgv :
    (fuel : ℕ) (mem : ℕ → Option ℕ) (cpp cp : ℕ) (args : List (List ℕ))
    → args_size args < fuel
    → cp + args_size args ≤ vmem_1_limit
    → AreStrings args
    → HasArgv mem cpp cp args
    → read_strings (length args) fuel mem cpp ≡ some args
unfolding read_strings Option.bind
read_strings-HasArgv fuel mem cpp cp [] big fits is h = refl
read_strings-HasArgv fuel mem cpp cp (a ∷ rest) big fits (is, more) (ptr, str, h) =
    rw
      (
        read_word-Holds mem cpp cp (omega arith) ptr,
        read_string-Holds fuel mem cp a (omega arith) is str,
        read_strings-HasArgv fuel mem (cpp + 4) (cp + length a + 1) rest (omega arith) (omega arith)
            more h,
      )
      refl
