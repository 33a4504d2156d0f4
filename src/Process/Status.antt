-- ===== src/Process/Status.antt =====
-- The store of an exit status through `status_ptr` in `Wait` of src/syscalls/process.c.
use tiny_kernels.Prelude.{
  ℕ, ◌≡◌, ◌≢◌, refl, inl, inr, some, arith, length, ◌==◌, if◌then◌else◌, Bool-cases,
}
use tiny_kernels.Prelude.Int.{ℤ, pos, negsuc}
use tiny_kernels.Prelude.Run.{ok}
use tiny_kernels.Memory.{Memory}
use tiny_kernels.Kernel.UserBytes.{int_word}
use tiny_kernels.Program.FlatMemory.{
  KeepsOthers, written-KeepsOthers, byte_at, InRegion1, HasOwnFrames, HasWholeFrames, IsWritable,
  overlay, written, written-overlay, written-same, write_user-ok,
}
use tiny_kernels.Kernel.{Pcb, Kernel, null}
use tiny_kernels.Process.{store_status}

-- Whether the process with the PCB `c` can store a status: through NULL, or at four addresses that it
-- can write, where its valid pages have frames of their own, each a page long.
abbrev pub CanStore : Kernel → Pcb → (status_ptr : ℕ) → Type 0
CanStore k c status_ptr =
    status_ptr ≢ 0 → HasOwnFrames c.ptbr × HasWholeFrames k.memory × IsWritable c.ptbr status_ptr 4

-- The memory with a status stored through `status_ptr`: the same one where that is NULL, and else one
-- in which the four bytes from there on are those of the status, no other byte of a valid page of the
-- process has changed, and nothing but the contents of the frames of its valid pages has.
pub record StatusStored (c : Pcb) (status_ptr : ℕ) (v : ℤ) (m t : Memory) : Type 0 where
  pub null_pointer : status_ptr ≡ 0 → t ≡ m
  pub bytes :
      status_ptr ≢ 0
      → (b : ℕ) → InRegion1 b
      → byte_at c.ptbr t b ≡ overlay status_ptr (int_word v) (byte_at c.ptbr m) b
  pub only_contents : t ≡ record m { contents = t.contents }
  pub other_frames : KeepsOthers c.ptbr m t

length-int_word : (v : ℤ) → length (int_word v) ≡ 4
length-int_word (pos n) = refl
length-int_word (negsuc n) = refl

abbrev pub stored : (c : Pcb) → ℕ → ℤ → Memory → Memory
stored c status_ptr v m = if status_ptr == 0 then m else written c.ptbr status_ptr (int_word v) m

-- What the store of a status does to the state.
pub store_status-ok :
    (status_ptr : ℕ) (v : ℤ) (k : Kernel) (c : Pcb)
    → k.current_process ≢ null
    → k.pcbs k.current_process ≡ some c
    → CanStore k c status_ptr
    → store_status status_ptr v k ≡ ok tt (record k { memory = stored c status_ptr v k.memory })
unfolding store_status
store_status-ok status_ptr v k c ne at can = elim (Bool-cases (status_ptr == 0)) [
  | inl e ↦ rw e refl
  | inr e ↦
      let (own, whole, w) = can (λ q. absurd (ground arith)) in
      rw e (
        write_user-ok k.current_process c ne status_ptr (int_word v) k at
          (rw (length-int_word v) w))
]

pub stored-StatusStored :
    (status_ptr : ℕ) (v : ℤ) (k : Kernel) (c : Pcb)
    → CanStore k c status_ptr
    → StatusStored c status_ptr v k.memory (stored c status_ptr v k.memory)
stored-StatusStored status_ptr v k c can = elim (Bool-cases (status_ptr == 0)) [
  | inl e ↦ rw e (record {
    null_pointer = λ q. refl;
    bytes = λ ne b rb. absurd (ground arith);
    only_contents = refl;
    other_frames = λ f away. refl;
  })
  | inr e ↦ rw e (record {
    null_pointer = λ q. absurd (ground arith);
    bytes = λ ne b rb.
        let (own, whole, w) = can ne in
        written-overlay c.ptbr own status_ptr (int_word v) k.memory b whole
          (rw (length-int_word v) w) rb;
    only_contents = written-same c.ptbr status_ptr (int_word v) k.memory;
    other_frames = written-KeepsOthers c.ptbr status_ptr (int_word v) k.memory;
  })
]
