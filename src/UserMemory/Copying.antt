-- ===== src/UserMemory/Copying.antt =====
-- CopyPT of src/mem.c: the pages of a process copied into those of another one.
pub mod Round
pub mod Loop
use tiny_kernels.Prelude.{
  ℕ, zero, suc, ◌+◌, ◌<◌, ◌≤◌, ◌%◌, ◌^◌, ◌≡◌, ◌≢◌, refl, sym, ap, ◌∙◌, ◌⊎◌, inl, inr, true, false,
  not, ◌&&◌, ◌||◌, some, List, [], ◌∷◌, arith, ◌==◌, if◌then◌else◌, length, get_elem?,
  get_elem?-some, Bool-cases, some_unique, subst,
}
use tiny_kernels.Prelude.Int.{ℤ, pos, minus_one}
use tiny_kernels.Prelude.Run.{ok, Returns, mono, outcome}
use tiny_kernels.Hardware.{Pte, max_pt_len}
use tiny_kernels.Memory.{Memory, nframes, frame_user, modify, mapped, alloc_frame, clone_frame}
use tiny_kernels.Memory.Frames.{
  free_at, used_at, Counted, count_free, count_free-none, Taken, Allocated, alloc_frame-Allocated,
  length-modify, used-lt-length, free-lt-length,
}
use tiny_kernels.Memory.Tables.{IsSized, Cloned, clone_frame-Cloned, get_elem?-modify_ne, modified}
use tiny_kernels.Kernel.{Ptr, null, Pcb, Kernel}
use tiny_kernels.Kernel.Scheduling.{with_pcb, load-ok, write_pcb-if}
use tiny_kernels.Kernel.Switching.{on_memory-ok}
use tiny_kernels.UserMemory.{copy_pt_loop, copy_pt}
use tiny_kernels.UserMemory.Lowering.{read_user-ok}
use tiny_kernels.UserMemory.Pages.{
  held, among, Apart, Taken-free, Taken-used, map_user_to-ok, free-not-used,
}
use tiny_kernels.UserMemory.Keeping.{
  FramesKept, FramesKept-refl, FramesKept-trans, Taken-FramesKept, Cloned-FramesKept,
}

-- What copying leaves as it was: all but the page table of the process at `dst`, and the frames that
-- were free.
pub record Kept (k : Kernel) (d : Pcb) (dst : Ptr) (pcb : Pcb) (t : Kernel) : Type 0 where
  pub at : t.pcbs dst ≡ some pcb
  pub only_table : pcb ≡ record d { ptbr = pcb.ptbr }
  pub length_table : length pcb.ptbr ≡ length d.ptbr
  pub other_pcbs : (a : Ptr) → a ≢ dst → t.pcbs a ≡ k.pcbs a
  pub rest : t ≡ record k { memory = t.memory; pcbs = t.pcbs }
  pub frames : FramesKept k.memory t.memory

pub Kept-refl : (k : Kernel) (d : Pcb) (dst : Ptr) → k.pcbs dst ≡ some d → Kept k d dst d k
Kept-refl k d dst at = record {
  at = at;
  only_table = refl;
  length_table = refl;
  other_pcbs = λ a h. refl;
  rest = refl;
  frames = FramesKept-refl k.memory;
}

-- The valid pages of a table are mapped to frames in use.
abbrev pub MapsUsed : Kernel → List Pte → Type 0
MapsUsed k table =
    (j : ℕ) (e : Pte)
    → get_elem? table j ≡ some e
    → e.valid ≡ true
    → used_at k.memory.frame_table e.pfn ≡ true

-- No page of a table from `i` on is valid.
abbrev pub IsEmptyFrom : ℕ → List Pte → Type 0
IsEmptyFrom i table = (j : ℕ) (e : Pte) → i ≤ j → get_elem? table j ≡ some e → e.valid ≡ false

-- Page `j` of the copy has the protection of the source's page, and a new frame with the same content.
abbrev pub IsCopy : (k t : Kernel) → (frames : List ℕ) → (copy : List Pte) → ℕ → Pte → Type 0
IsCopy k t frames copy j e =
    (f : ℕ) × (get_elem? copy j ≡ some (record e { pfn = f }))
    × (among f frames ≡ true)
    × (t.memory.contents f ≡ k.memory.contents e.pfn)

-- The pages from `i` on have been copied: where the source has a valid page, the copy has one with the
-- same protection, in a new frame with the same content.
pub record Copied (k : Kernel) (c d : Pcb) (n i : ℕ) (copy : List Pte) (t : Kernel) : Type 0 where
  pub frames : List ℕ
  pub all : held n i copy ≡ frames
  pub size : length frames ≡ length (held n i c.ptbr)
  pub gained : Counted k.memory → k.memory.free_nframes ≡ t.memory.free_nframes + length frames
  pub apart : Apart frames
  pub new : (f : ℕ) → among f frames ≡ true → free_at k.memory.frame_table f ≡ true
  pub free :
      (f : ℕ)
      → free_at t.memory.frame_table f ≡ (free_at k.memory.frame_table f && not (among f frames))
  pub used :
      (f : ℕ) → used_at t.memory.frame_table f ≡ (used_at k.memory.frame_table f || among f frames)
  pub copies :
      (j : ℕ) (e : Pte)
      → i ≤ j
      → j < i + n
      → get_elem? c.ptbr j ≡ some e
      → e.valid ≡ true
      → IsCopy k t frames copy j e
  pub passed :
      (j : ℕ) (e : Pte)
      → get_elem? c.ptbr j ≡ some e
      → e.valid ≡ false
      → get_elem? copy j ≡ get_elem? d.ptbr j
  pub outside : (j : ℕ) → (j < i) ⊎ (i + n ≤ j) → get_elem? copy j ≡ get_elem? d.ptbr j
  pub kept : (f : ℕ) → among f frames ≡ false → t.memory.contents f ≡ k.memory.contents f

-- The process at `src` can be copied to the one at `dst`, which has no page from `i` on.
pub record CanCopy (k : Kernel) (c d : Pcb) (src dst : Ptr) (i : ℕ) : Type 0 where
  pub src_not_null : src ≢ null
  pub dst_not_null : dst ≢ null
  pub differ : src ≢ dst
  pub at_src : k.pcbs src ≡ some c
  pub at_dst : k.pcbs dst ≡ some d
  pub src_table : length c.ptbr ≡ max_pt_len
  pub dst_table : length d.ptbr ≡ max_pt_len
  pub sized : IsSized k.memory
  pub maps : MapsUsed k c.ptbr
  pub empty : IsEmptyFrom i d.ptbr

-- No frame is left, and there were fewer than the pages of the source.
abbrev pub IsShort : (k : Kernel) (c : Pcb) (n i : ℕ) → (t : Kernel) → Type 0
IsShort k c n i t =
    ((f : ℕ) → free_at t.memory.frame_table f ≡ false)
    × (Counted k.memory → k.memory.free_nframes < length (held n i c.ptbr))

-- Either everything has been copied, or no frame is left.
abbrev pub CopyResult : (k : Kernel) (c d : Pcb) (dst : Ptr) (n i : ℕ) → ℤ → (t : Kernel) → Type 0
CopyResult k c d dst n i r t =
    (pcb : Pcb) × Kept k d dst pcb t
    × (((r ≡ pos 0) × Copied k c d n i pcb.ptbr t) ⊎ ((r ≡ minus_one) × IsShort k c n i t))

pub Kept-trans :
    (k s t : Kernel) (d x y : Pcb) (dst : Ptr)
    → Kept k d dst x s
    → Kept s x dst y t
    → Kept k d dst y t
Kept-trans k s t d x y dst a b = record {
  at = b.at;
  only_table = b.only_table ∙ ap (λ (z : Pcb). record z { ptbr = y.ptbr }) a.only_table;
  length_table = b.length_table ∙ a.length_table;
  other_pcbs = λ p far. b.other_pcbs p far ∙ a.other_pcbs p far;
  rest = b.rest ∙ ap (λ (z : Kernel). record z { memory = t.memory; pcbs = t.pcbs }) a.rest;
  frames = FramesKept-trans k.memory s.memory t.memory a.frames b.frames;
}
