-- ===== src/UserMemory/Raising/Main.antt =====
-- The first loop of Brk (src/syscalls/process.c), and the whole function where it raises the break.
use tiny_kernels.Prelude.{
  ℕ, zero, suc, ◌+◌, ◌-◌, ◌*◌, ◌<◌, ◌≤◌, ◌^◌, ◌≡◌, ◌≢◌, refl, ap, ◌∙◌, ◌⊎◌, inl, inr, false, some,
  [], arith, ltb, ◌==◌, if◌then◌else◌, length, get_elem?-some, Bool-cases,
}
use tiny_kernels.Prelude.Int.{ℤ, pos, minus_one}
use tiny_kernels.Prelude.Run.{ok, Returns, mono, outcome}
use tiny_kernels.Hardware.{vpn_of, page_size, up_to_page, u32, vmem_1_base}
use tiny_kernels.Memory.{nframes, frame_user, alloc_frame}
use tiny_kernels.Memory.Frames.{free_at, Allocated, alloc_frame-Allocated}
use tiny_kernels.Kernel.{Ptr, null, Pcb, Kernel}
use tiny_kernels.Kernel.Scheduling.{with_pcb, load-ok, update-ok}
use tiny_kernels.Kernel.Switching.{on_memory-ok}
use tiny_kernels.UserMemory.{brk_grow, brk_shrink, move_user_brk, brk}
use tiny_kernels.UserMemory.Lowering.{read_user-ok}
use tiny_kernels.UserMemory.Pages.{with_user_page, map_user-ok}
use tiny_kernels.UserMemory.Copying.{Kept, Kept-refl, Kept-trans}
use tiny_kernels.UserMemory.Raising.{Raised, RaiseResult}
use tiny_kernels.UserMemory.Raising.Round.{Raised-skip, round-Kept, Raised-round}

brk_grow-RaiseResult :
    (n v : ℕ) (k : Kernel) (c : Pcb) (curr : Ptr)
    → curr ≢ null
    → k.pcbs curr ≡ some c
    → v + n ≤ length c.ptbr
    → nframes k.memory ≤ 2 ^ 24
    → Returns (RaiseResult k c curr n v) (brk_grow n v curr k)
unfolding brk_grow
brk_grow-RaiseResult zero v k c curr ne at fits small = (
  c,
  Kept-refl k c curr at,
  inl (
    refl,
    record {
      frames = [];
      all = refl;
      apart = tt;
      new = λ f h. ground (arith, h);
      free = λ f. ground arith;
      pages = λ j x lo hi q off. absurd (omega arith);
      valid = λ j x q on. q;
      outside = λ j far. refl;
    },
  ),
)
brk_grow-RaiseResult (suc n) v k c curr ne at fits small =
    let in_table : v < length c.ptbr = omega arith in
    let (e, here) = get_elem?-some c.ptbr v in_table in
    elim (Bool-cases e.valid) [
      | inl on ↦
          rw (read_user-ok curr v c e k ne at here, on)
            (mono (RaiseResult k c curr n (v + 1)) (RaiseResult k c curr (suc n) v) _
              (brk_grow-RaiseResult n (v + 1) k c curr ne at (omega arith) small)
              (λ r t (pcb, kept, h). (
                pcb,
                kept,
                elim h [
                  | inl (z, raised) ↦ inl (z, Raised-skip k c n v e pcb.ptbr t here on raised)
                  | inr short ↦ inr short
                ],
              )))
      | inr off ↦
          let (r, m, eq, a) =
            outcome (Allocated k.memory) (alloc_frame frame_user c.pid k.memory)
              (alloc_frame-Allocated frame_user c.pid k.memory refl) in
          elim a [
            | inr (is, same, nothing) ↦
                rw
                  (
                    read_user-ok curr v c e k ne at here,
                    off,
                    load-ok curr c k ne at,
                    on_memory-ok (alloc_frame frame_user c.pid) minus_one k.memory k
                        (eq ∙ ap (λ x. ok x m) is ∙ ap (ok minus_one) same),
                  )
                  (c, Kept-refl k c curr at, inr (refl, nothing))
            | inl (f, is, taken, _) ↦
                let x = with_user_page c v f in
                let s = with_pcb (record k { memory = m }) curr x in
                let kept = round-Kept k c curr v f e m here off in_table small taken in
                rw
                  (
                    read_user-ok curr v c e k ne at here,
                    off,
                    load-ok curr c k ne at,
                    on_memory-ok (alloc_frame frame_user c.pid) (pos f) m k
                        (eq ∙ ap (λ x. ok x m) is),
                    map_user-ok curr v f c (record k { memory = m }) ne at in_table,
                  )
                  (mono (RaiseResult s x curr n (v + 1)) (RaiseResult k c curr (suc n) v) _
                    (brk_grow-RaiseResult n (v + 1) s x curr ne kept.at
                      (omega (arith, kept.length_table, fits)) (omega (arith, taken.size, small)))
                    (λ r t (pcb, more, h). (
                      pcb,
                      Kept-trans k s t c x pcb curr kept more,
                      elim h [
                        | inl (z, raised) ↦ inl (
                          z,
                          Raised-round k c curr v f e m here off in_table small taken n pcb.ptbr t
                              raised,
                        )
                        | inr short ↦ inr short
                      ],
                    )))
          ]
    ]

brk_shrink-here : (n v : ℕ) (curr : Ptr) (k : Kernel) → brk_shrink (suc n) v v curr k ≡ ok v k
unfolding brk_shrink
brk_shrink-here n v curr k = let stop : ltb v v ≡ false = ground arith in rw stop refl

-- The page of the break, rounded up.
abbrev pub break_page : ℕ → ℕ
break_page addr = vpn_of (up_to_page addr)

-- The break is at the page `target`, and the pages below it from the old one on are valid; or no frame is
-- left and the break is where it was.
abbrev pub BrkResult : (k : Kernel) (c : Pcb) (target : ℕ) → ℤ → (t : Kernel) → Type 0
BrkResult k c target r t =
    (pcb : Pcb) × (s : Kernel) × Kept k c k.current_process pcb s
    × (((r ≡ pos 0)
          × Raised k c (target - break_page c.user_heap_end_vaddr)
              (break_page c.user_heap_end_vaddr) pcb.ptbr s
          × (t
              ≡ with_pcb s k.current_process
                  (record pcb { user_heap_end_vaddr = u32 (target * page_size + vmem_1_base) })))
        ⊎ ((r ≡ minus_one) × ((f : ℕ) → free_at s.memory.frame_table f ≡ false) × (t ≡ s)))

-- `Brk` to an address other than NULL whose page is not below the break's, both rounded up, in the
-- table of the current process, which has a PCB, where frame numbers have 24 bits, returns. Either
-- it returns 0, with the break at that page: of the pages between, those that were valid are as
-- they were, and each other one is mapped, readable and writable, to a frame of its own that was
-- free; no other page of the process changes and no other frame is taken. Or it returns -1 with no
-- frame free and the break where it was. In both cases frames that were in use stay in use and
-- keep their content, a right counter of free frames stays right, and no other PCB changes.
pub brk-BrkResult :
    (fuel addr : ℕ) (k : Kernel) (c : Pcb)
    → addr ≢ 0
    → k.current_process ≢ null
    → k.pcbs k.current_process ≡ some c
    → break_page c.user_heap_end_vaddr ≤ break_page addr
    → break_page addr ≤ length c.ptbr
    → nframes k.memory ≤ 2 ^ 24
    → Returns (BrkResult k c (break_page addr)) (brk (suc fuel) addr k)
unfolding brk move_user_brk
brk-BrkResult fuel addr k c given ne at above fits small =
    let here : (addr == 0) ≡ false = ground (arith, given) in
    let curr = k.current_process in
    let b = break_page c.user_heap_end_vaddr in
    let (r, t, eq, (pcb, kept, h)) =
      outcome (RaiseResult k c curr (break_page addr - b) b)
        (brk_grow (break_page addr - b) b curr k)
        (brk_grow-RaiseResult (break_page addr - b) b k c curr ne at (omega arith) small) in
    let end : (if ltb b (break_page addr) then break_page addr else b) ≡ break_page addr =
      ground arith in
    elim h [
      | inl (z, raised) ↦
          rw
            (
              here,
              load-ok curr c k ne at,
              eq ∙ ap (λ x. ok x t) z,
              end,
              brk_shrink-here fuel (break_page addr) curr t,
              update-ok curr
                  (λ x. record x {
                    user_heap_end_vaddr = u32 (break_page addr * page_size + vmem_1_base);
                  })
                  pcb t ne kept.at,
            )
            (pcb, t, kept, inl (refl, raised, refl))
      | inr (z, nothing) ↦
          rw (here, load-ok curr c k ne at, eq ∙ ap (λ x. ok x t) z)
            (pcb, t, kept, inr (refl, nothing, refl))
    ]
