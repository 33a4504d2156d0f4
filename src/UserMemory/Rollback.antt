-- ===== src/UserMemory/Rollback.antt =====
-- The loop of `growStack` of src/traps/trap.c that gives back what was mapped.
use tiny_kernels.Prelude.{
  ℕ, ◌+◌, ◌≤◌, ◌≡◌, ◌≢◌, ◌∙◌, true, not, ◌&&◌, ◌||◌, some, List, [], ◌∷◌, arith, length, subst,
}
use tiny_kernels.Prelude.Int.{pos}
use tiny_kernels.Prelude.Run.{Returns, mono}
use tiny_kernels.Hardware.{max_pt_len}
use tiny_kernels.Memory.{invalidated, free_frame, release_frame}
use tiny_kernels.Memory.Frames.{
  free_at, used_at, Counted, Released, free_frame-ok, release_frame-Released, length-modify,
}
use tiny_kernels.Memory.Tables.{get_elem?-modify_ne}
use tiny_kernels.Kernel.{Ptr, null, Pcb, Kernel}
use tiny_kernels.Kernel.Scheduling.{with_pcb, write_pcb-if}
use tiny_kernels.Kernel.Switching.{on_memory-ok}
use tiny_kernels.UserMemory.{unmap_stack}
use tiny_kernels.UserMemory.Lowering.{read_user-ok, invalidate_user-ok, without_page}
use tiny_kernels.UserMemory.Pages.{
  among, Apart, HasPages, AllUsed, HasTable, HasPages-cong, Released-free, Released-used,
}

-- What the loop that gives back the pages of `fs` does.
pub record Unmapped (k : Kernel) (curr : Ptr) (fs : List ℕ) (t : Kernel) : Type 0 where
  pub free :
      (f : ℕ) → free_at t.memory.frame_table f ≡ (free_at k.memory.frame_table f || among f fs)
  pub used :
      (f : ℕ)
      → used_at t.memory.frame_table f ≡ (used_at k.memory.frame_table f && not (among f fs))
  pub counted : Counted k.memory → Counted t.memory
  pub table : HasTable t curr

pub unmap_stack-Unmapped :
    (fs : List ℕ) (j target : ℕ) (curr : Ptr) (k : Kernel) (c : Pcb)
    → curr ≢ null
    → k.pcbs curr ≡ some c
    → length c.ptbr ≡ max_pt_len
    → target + j + length fs ≤ max_pt_len
    → HasPages c.ptbr (target + j) fs
    → Apart fs
    → AllUsed k.memory.frame_table fs
    → Returns (λ _. Unmapped k curr fs) (unmap_stack (length fs) j target curr k)
unfolding unmap_stack
unmap_stack-Unmapped [] j target curr k c ne at size fits pages apart used = record {
  free = λ f. ground arith;
  used = λ f. ground arith;
  counted = λ h. h;
  table = (c, at, size);
}
unmap_stack-Unmapped (f ∷ fs) j target curr k c ne at size fits ((e, here, v, p, is_f), pages)
      (out, apart) used =
    let in_use : used_at k.memory.frame_table e.pfn ≡ true = rw is_f (used f (ground arith)) in
    let m = release_frame e.pfn k.memory in
    let k1 = record k { memory = m } in
    let c1 = without_page c (target + j) in
    let k2 = with_pcb k1 curr c1 in
    let r =
      subst (λ i. Released k.memory i m) is_f (release_frame-Released k.memory e.pfn in_use) in
    let next : target + (j + 1) ≡ target + j + 1 = omega arith in
    rw
      (
        read_user-ok curr (target + j) c e k ne at here,
        on_memory-ok (free_frame (pos e.pfn)) tt m k (free_frame-ok e.pfn k.memory in_use),
        invalidate_user-ok curr (target + j) c k1 ne at (omega arith),
      )
      (mono (λ _. Unmapped k2 curr fs) (λ _. Unmapped k curr (f ∷ fs)) _
        (unmap_stack-Unmapped fs (j + 1) target curr k2 c1 ne
          (rw (write_pcb-if k.pcbs curr (some c1) curr) (ground arith))
          (length-modify c.ptbr (target + j) invalidated ∙ size) (omega arith)
          (rw next (
            HasPages-cong c.ptbr c1.ptbr (target + j + 1) fs
              (λ i lo hi. get_elem?-modify_ne c.ptbr (target + j) i invalidated (omega arith))
              pages))
          apart (λ g i. ground (arith, Released-used k.memory m f r g, used g, out)))
        λ _ t h. record {
          free = λ g. h.free g ∙ ground (arith, Released-free k.memory m f r g);
          used = λ g. h.used g ∙ ground (arith, Released-used k.memory m f r g);
          counted = λ q. h.counted (r.counted q);
          table = h.table;
        })
