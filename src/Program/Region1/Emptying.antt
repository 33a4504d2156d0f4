-- ===== src/Program/Region1/Emptying.antt =====
-- The loop of LoadProgram (src/kernel.c) that throws the old region 1 away.
use tiny_kernels.Prelude.{
  ℕ, zero, suc, ◌+◌, ◌<◌, ◌≤◌, ◌≡◌, ◌≢◌, refl, ap, ◌∙◌, inl, inr, true, false, ◌||◌, some, List,
  ◌∷◌, arith, ◌==◌, length, get_elem?, get_elem?-some, Bool-cases, subst,
}
use mathlib.Core.Option
use tiny_kernels.Prelude.Int.{pos}
use tiny_kernels.Prelude.Run.{Returns, mono}
use tiny_kernels.Hardware.{Pte}
use tiny_kernels.Memory.{Memory, nframes, invalidated, free_frame, release_frame}
use tiny_kernels.Memory.Frames.{
  free_at, used_at, Counted, free_frame-ok, release_frame-Released, length-modify,
}
use tiny_kernels.Memory.Tables.{get_elem?-modify_ne, get_elem?-modify_self}
use tiny_kernels.Kernel.{Ptr, null, Pcb, Kernel}
use tiny_kernels.Kernel.Scheduling.{with_pcb, write_pcb-if}
use tiny_kernels.Kernel.Switching.{on_memory-ok}
use tiny_kernels.UserMemory.Lowering.{read_user-ok, invalidate_user-ok, without_page}
use tiny_kernels.UserMemory.Pages.{held, among, Apart, AllUsed, Released-free, Released-used}
use tiny_kernels.Program.{release_pages}

held-cong :
    (n v : ℕ) (t s : List Pte)
    → ((j : ℕ) → v ≤ j → get_elem? s j ≡ get_elem? t j)
    → held n v s ≡ held n v t
held-cong zero v t s same = refl
held-cong (suc n) v t s same =
    rw (same v (omega arith), held-cong n (v + 1) t s (λ j h. same j (omega arith))) refl

-- The pages from `v` on are invalid, their frames free, and only the page table of the process and the
-- use of frames has changed.
pub record Emptied (k : Kernel) (c : Pcb) (p : Ptr) (n v : ℕ) (t : Kernel) : Type 0 where
  pub pcb : Pcb
  pub at : t.pcbs p ≡ some pcb
  pub only_table : pcb ≡ record c { ptbr = pcb.ptbr }
  pub length_table : length pcb.ptbr ≡ length c.ptbr
  pub invalid :
      (j : ℕ) → v ≤ j → j < v + n → (e : Pte) × (get_elem? pcb.ptbr j ≡ some e) × (e.valid ≡ false)
  pub before : (j : ℕ) → j < v → get_elem? pcb.ptbr j ≡ get_elem? c.ptbr j
  pub free :
      (f : ℕ)
      → free_at t.memory.frame_table f
        ≡ (free_at k.memory.frame_table f || among f (held n v c.ptbr))
  pub counted : Counted k.memory → Counted t.memory
  pub gained : t.memory.free_nframes ≡ k.memory.free_nframes + length (held n v c.ptbr)
  pub nframes_same : nframes t.memory ≡ nframes k.memory
  pub other_pcbs : (a : Ptr) → a ≢ p → t.pcbs a ≡ k.pcbs a

module _ (n v : ℕ) (p : Ptr) (k : Kernel) (c : Pcb) (e : Pte)
    (here : get_elem? c.ptbr v ≡ some e) where
  -- A page that is not valid is passed over.
  Emptied-skip :
      (t : Kernel) → e.valid ≡ false → Emptied k c p n (v + 1) t → Emptied k c p (suc n) v t
  Emptied-skip t off r =
      let same : held (suc n) v c.ptbr ≡ held n (v + 1) c.ptbr = rw (here, off) refl in
      record {
        pcb = r.pcb;
        at = r.at;
        only_table = r.only_table;
        length_table = r.length_table;
        invalid = λ j lo hi. elim (Bool-cases (v == j)) [
          | inl q ↦
              let z : v ≡ j = ground arith in
              subst (λ i. (x : Pte) × (get_elem? r.pcb.ptbr i ≡ some x) × (x.valid ≡ false)) z
                (e, r.before v (omega arith) ∙ here, off)
          | inr q ↦ r.invalid j (ground (arith, lo)) (omega arith)
        ];
        before = λ j h. r.before j (omega arith);
        free = λ f. r.free f ∙ rw same refl;
        counted = r.counted;
        gained = r.gained ∙ rw same refl;
        nframes_same = r.nframes_same;
        other_pcbs = r.other_pcbs;
      }

  module _ (on : e.valid ≡ true) (in_use : used_at k.memory.frame_table e.pfn ≡ true) where
    abbrev freed : Memory
    freed = release_frame e.pfn k.memory

    abbrev k2 : Kernel
    k2 = with_pcb (record k { memory = freed }) p (without_page c v)

    later : held n (v + 1) (without_page c v).ptbr ≡ held n (v + 1) c.ptbr
    later =
        held-cong n (v + 1) c.ptbr (without_page c v).ptbr
          (λ j h. get_elem?-modify_ne c.ptbr v j invalidated (omega arith))

    split : held (suc n) v c.ptbr ≡ e.pfn ∷ held n (v + 1) c.ptbr
    split = rw (here, on) refl

    free_later :
        (f : ℕ)
        → (free_at freed.frame_table f || among f (held n (v + 1) (without_page c v).ptbr))
          ≡ (free_at k.memory.frame_table f || among f (held (suc n) v c.ptbr))
    free_later f =
        let q =
          Released-free k.memory freed e.pfn (release_frame-Released k.memory e.pfn in_use) f in
        rw (later, split) (ground (arith, q))

    gained_later :
        freed.free_nframes + length (held n (v + 1) (without_page c v).ptbr)
        ≡ k.memory.free_nframes + length (held (suc n) v c.ptbr)
    unfolding release_frame
    gained_later = rw (later, split) (omega arith)

    -- The frame of a valid page is given back.
    Emptied-free :
        (t : Kernel) → Emptied k2 (without_page c v) p n (v + 1) t → Emptied k c p (suc n) v t
    Emptied-free t r =
        let z = release_frame-Released k.memory e.pfn in_use in
        record {
          pcb = r.pcb;
          at = r.at;
          only_table = r.only_table;
          length_table = r.length_table ∙ length-modify c.ptbr v invalidated;
          invalid = λ j lo hi. elim (Bool-cases (v == j)) [
            | inl q ↦
                let z : v ≡ j = ground arith in
                subst (λ i. (x : Pte) × (get_elem? r.pcb.ptbr i ≡ some x) × (x.valid ≡ false)) z
                  (
                    invalidated e,
                    r.before v (omega arith)
                        ∙ get_elem?-modify_self c.ptbr v invalidated
                        ∙ ap (Option.map invalidated) here,
                    refl,
                  )
            | inr q ↦ r.invalid j (ground (arith, lo)) (omega arith)
          ];
          before = λ j h.
              r.before j (omega arith) ∙ get_elem?-modify_ne c.ptbr v j invalidated (omega arith);
          free = λ f. r.free f ∙ free_later f;
          counted = λ h. r.counted (z.counted h);
          gained = r.gained ∙ gained_later;
          nframes_same = r.nframes_same ∙ z.size;
          other_pcbs = λ a far.
              let test : (a == p) ≡ false = ground (arith, far) in
              r.other_pcbs a far
              ∙ rw (write_pcb-if k.pcbs p (some (without_page c v)) a, test) refl;
        }

pub release_pages-Emptied :
    (n v : ℕ) (p : Ptr) (k : Kernel) (c : Pcb)
    → p ≢ null
    → k.pcbs p ≡ some c
    → v + n ≤ length c.ptbr
    → Apart (held n v c.ptbr)
    → AllUsed k.memory.frame_table (held n v c.ptbr)
    → Returns (λ _. Emptied k c p n v) (release_pages n v p k)
unfolding release_pages
release_pages-Emptied zero v p k c ne at fits apart used = record {
  pcb = c;
  at = at;
  only_table = refl;
  length_table = refl;
  invalid = λ j lo hi. absurd (omega arith);
  before = λ j h. refl;
  free = λ f. ground arith;
  counted = λ h. h;
  gained = omega arith;
  nframes_same = refl;
  other_pcbs = λ a far. refl;
}
release_pages-Emptied (suc n) v p k c ne at fits apart used =
    let (e, here) = get_elem?-some c.ptbr v (omega arith) in
    elim (Bool-cases e.valid) [
      | inr off ↦
          let same : held (suc n) v c.ptbr ≡ held n (v + 1) c.ptbr = rw (here, off) refl in
          rw (read_user-ok p v c e k ne at here, off)
            (mono (λ _. Emptied k c p n (v + 1)) (λ _. Emptied k c p (suc n) v) _
              (release_pages-Emptied n (v + 1) p k c ne at (omega arith) (subst Apart same apart)
                (subst (AllUsed k.memory.frame_table) same used))
              (λ _ t r. Emptied-skip n v p k c e here t off r))
      | inl on ↦
          let m = release_frame e.pfn k.memory in
          let k1 = record k { memory = m } in
          let c1 = without_page c v in
          let k2 = with_pcb k1 p c1 in
          let split : held (suc n) v c.ptbr ≡ e.pfn ∷ held n (v + 1) c.ptbr = rw (here, on) refl in
          let (out, apart') = subst Apart split apart in
          let used' = subst (AllUsed k.memory.frame_table) split used in
          let in_use : used_at k.memory.frame_table e.pfn ≡ true = used' e.pfn (ground arith) in
          let r = release_frame-Released k.memory e.pfn in_use in
          rw
            (
              read_user-ok p v c e k ne at here,
              on,
              on_memory-ok (free_frame (pos e.pfn)) tt m k (free_frame-ok e.pfn k.memory in_use),
              invalidate_user-ok p v c k1 ne at (omega arith),
            )
            (mono (λ _. Emptied k2 c1 p n (v + 1)) (λ _. Emptied k c p (suc n) v) _
              (release_pages-Emptied n (v + 1) p k2 c1 ne
                (rw (write_pcb-if k.pcbs p (some c1) p) (ground arith))
                (rw (length-modify c.ptbr v invalidated) (omega arith))
                (rw (later n v p k c e here on in_use) apart')
                (rw (later n v p k c e here on in_use)
                  (λ g i. ground (arith, Released-used k.memory m e.pfn r g, used' g, out))))
              (λ _ t s. Emptied-free n v p k c e here on in_use t s))
    ]
