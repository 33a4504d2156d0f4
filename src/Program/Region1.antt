-- ===== src/Program/Region1.antt =====
-- The new region 1 that LoadProgram (src/kernel.c) builds: the pages that its loops map.
pub mod Emptying
pub mod Building
use tiny_kernels.Prelude.{
  ℕ, zero, suc, ◌+◌, ◌-◌, ◌<◌, ◌≤◌, ◌^◌, ◌≡◌, ◌≢◌, refl, sym, ap, ◌∙◌, ◌⊎◌, inl, inr, true, false,
  not, ◌&&◌, ◌||◌, some, List, [], ◌∷◌, arith, ◌==◌, if◌then◌else◌, length, get_elem?, Bool-cases,
  some_unique, subst,
}
use tiny_kernels.Prelude.Int.{ℤ, pos, minus_one}
use tiny_kernels.Prelude.Run.{ok, Returns, mono, outcome}
use tiny_kernels.Hardware.{Pte, max_pt_len, prot_read_write}
use tiny_kernels.Memory.{Memory, FrameDesc, nframes, frame_user, modify, mapped, alloc_frame}
use tiny_kernels.Memory.Frames.{
  free_at, used_at, count_free-none, Counted, Taken, Allocated, alloc_frame-Allocated,
  length-modify,
}
use tiny_kernels.Kernel.{Ptr, null, Pcb, Kernel}
use tiny_kernels.Kernel.Scheduling.{with_pcb, load-ok, write_pcb-if}
use tiny_kernels.Kernel.Switching.{on_memory-ok}
use tiny_kernels.UserMemory.Keeping.{alloc_room}
use tiny_kernels.UserMemory.Pages.{among, with_user_page, map_user-ok}
use tiny_kernels.UserMemory.StackLoop.{Grew, Grew-step}
use tiny_kernels.Program.{map_pages}

-- A range of pages has been mapped to new frames, and only the page table of the process and the
-- use of frames has changed.
pub record MappedRange (k : Kernel) (c : Pcb) (p : Ptr) (v n : ℕ) (t : Kernel) : Type 0 where
  pub grew : Grew k c p v n t
  pub counted : Counted t.memory
  pub free_nframes : k.memory.free_nframes ≡ t.memory.free_nframes + n
  pub nframes_same : nframes t.memory ≡ nframes k.memory
  pub only_table :
      (d : Pcb)
      → t.pcbs p ≡ some d
      → (d ≡ record c { ptbr = d.ptbr }) × (length d.ptbr ≡ length c.ptbr)
  pub other_pcbs : (a : Ptr) → a ≢ p → t.pcbs a ≡ k.pcbs a

pub map_pages-MappedRange :
    (n v : ℕ) (p : Ptr) (k : Kernel) (c : Pcb)
    → p ≢ null
    → k.pcbs p ≡ some c
    → v + n ≤ length c.ptbr
    → nframes k.memory ≤ 2 ^ 24
    → Counted k.memory
    → n ≤ k.memory.free_nframes
    → Returns (λ _. MappedRange k c p v n) (map_pages n v p k)
unfolding map_pages
map_pages-MappedRange zero v p k c ne at fits small counted room = record {
  grew = record {
    frames = [];
    size = refl;
    apart = tt;
    new = λ f i. absurd cc;
    pcb = c;
    at = at;
    pages = tt;
    others = λ j far. refl;
    free = λ f. ground arith;
    used = λ f. ground arith;
  };
  counted = counted;
  free_nframes = omega arith;
  nframes_same = refl;
  only_table = λ d e.
      let q : c ≡ d = some_unique (k.pcbs p) at e in
      subst (λ x. (x ≡ record c { ptbr = x.ptbr }) × (length x.ptbr ≡ length c.ptbr)) q
        (refl, refl);
  other_pcbs = λ a far. refl;
}
map_pages-MappedRange (suc n) v p k c ne at fits small counted room =
    let (i, m, e, taken) = alloc_room frame_user c.pid k.memory refl counted (omega arith) in
    let in_table : v < length c.ptbr = omega arith in
    let c1 = with_user_page c v i in
    let k2 = with_pcb (record k { memory = m }) p c1 in
    let (counted1, fewer) = taken.counted counted in
    let len : length c1.ptbr ≡ length c.ptbr =
      length-modify c.ptbr v (mapped (pos i) prot_read_write) in
    rw
      (
        load-ok p c k ne at,
        on_memory-ok (alloc_frame frame_user c.pid) (pos i) m k e,
        map_user-ok p v i c (record k { memory = m }) ne at in_table,
      )
      (mono (λ _. MappedRange k2 c1 p (v + 1) n) (λ _. MappedRange k c p v (suc n)) _
        (map_pages-MappedRange n (v + 1) p k2 c1 ne
          (rw (write_pcb-if k.pcbs p (some c1) p) (ground arith)) (omega arith)
          (rw taken.size small) counted1 (omega arith))
        (λ _ t r. record {
          grew = Grew-step n v i [] p k c m in_table small taken t r.grew;
          counted = r.counted;
          free_nframes = omega (arith, r.free_nframes, fewer);
          nframes_same = r.nframes_same ∙ taken.size;
          only_table = λ d q. let (a, b) = r.only_table d q in (a, b ∙ len);
          other_pcbs = λ a far.
              let test : (a == p) ≡ false = ground (arith, far) in
              r.other_pcbs a far ∙ rw (write_pcb-if k.pcbs p (some c1) a, test) refl;
        }))
