-- ===== src/UserMemory/Raising.antt =====
-- Brk of src/syscalls/process.c where it raises the break.
pub mod Round
pub mod Main
use tiny_kernels.Prelude.{
  ℕ, zero, suc, ◌+◌, ◌-◌, ◌*◌, ◌<◌, ◌≤◌, ◌%◌, ◌^◌, ◌≡◌, ◌≢◌, refl, sym, ap, ◌∙◌, ◌⊎◌, inl, inr,
  Bool, true, false, not, ◌&&◌, ◌||◌, Option, none, some, List, [], ◌∷◌, arith, ltb, ◌==◌,
  if◌then◌else◌, length, get_elem?, get_elem?-some, Bool-cases, some_unique, subst,
}
use tiny_kernels.Prelude.Int.{ℤ, pos, minus_one}
use tiny_kernels.Prelude.Run.{ok, Returns, mono, outcome}
use tiny_kernels.Hardware.{
  Pte, max_pt_len, prot_read_write, page_size, up_to_page, u32, vmem_1_base,
}
use tiny_kernels.Memory.{Memory, nframes, frame_user, modify, mapped, alloc_frame}
use tiny_kernels.Memory.Frames.{
  free_at, Taken, Allocated, alloc_frame-Allocated, length-modify, free-lt-length,
}
use tiny_kernels.Memory.Tables.{get_elem?-modify_ne, modified}
use tiny_kernels.Kernel.{Ptr, null, Pcb, Kernel}
use tiny_kernels.Kernel.Scheduling.{with_pcb, load-ok, update-ok, write_pcb-if}
use tiny_kernels.Kernel.Switching.{on_memory-ok}
use tiny_kernels.UserMemory.{brk_grow, brk_shrink, move_user_brk, brk}
use tiny_kernels.UserMemory.Lowering.{read_user-ok}
use tiny_kernels.UserMemory.Pages.{among, Apart, add_frame, with_user_page, map_user-ok, Taken-free}
use tiny_kernels.UserMemory.Keeping.{Taken-FramesKept}
use tiny_kernels.UserMemory.Copying.{Kept, Kept-refl, Kept-trans}

abbrev pub page_valid : Option Pte → Bool
page_valid none = false
page_valid (some e) = e.valid

-- The frames of the pages from `v` on that were not valid before.
abbrev pub fresh : (n v : ℕ) → (old new : List Pte) → List ℕ
fresh zero v old new = []
fresh (suc n) v old new =
    let rest = fresh n (v + 1) old new in
    if page_valid (get_elem? old v) then rest else add_frame (get_elem? new v) rest

abbrev pub user_page : ℕ → Pte
user_page f = record { valid = true; prot = prot_read_write; pfn = f }

-- The pages from `v` on are valid: those that were stay as they are, each of the others has a new frame.
pub record Raised (k : Kernel) (c : Pcb) (n v : ℕ) (table : List Pte) (t : Kernel) : Type 0 where
  pub frames : List ℕ
  pub all : fresh n v c.ptbr table ≡ frames
  pub apart : Apart frames
  pub new : (f : ℕ) → among f frames ≡ true → free_at k.memory.frame_table f ≡ true
  pub free :
      (f : ℕ)
      → free_at t.memory.frame_table f ≡ (free_at k.memory.frame_table f && not (among f frames))
  pub pages :
      (j : ℕ) (e : Pte)
      → v ≤ j
      → j < v + n
      → get_elem? c.ptbr j ≡ some e
      → e.valid ≡ false
      → (f : ℕ) × (get_elem? table j ≡ some (user_page f)) × (among f frames ≡ true)
  pub valid :
      (j : ℕ) (e : Pte) → get_elem? c.ptbr j ≡ some e → e.valid ≡ true → get_elem? table j ≡ some e
  pub outside : (j : ℕ) → (j < v) ⊎ (v + n ≤ j) → get_elem? table j ≡ get_elem? c.ptbr j

-- Either the pages are there, or no frame is left.
abbrev pub RaiseResult :
    (k : Kernel) (c : Pcb) (curr : Ptr) (n v : ℕ) → Bool → (t : Kernel) → Type 0
RaiseResult k c curr n v r t =
    (pcb : Pcb) × Kept k c curr pcb t
    × (((r ≡ true) × Raised k c n v pcb.ptbr t)
        ⊎ ((r ≡ false) × ((f : ℕ) → free_at t.memory.frame_table f ≡ false)))
