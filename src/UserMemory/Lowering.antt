-- ===== src/UserMemory/Lowering.antt =====
-- The second loop of `Brk` of src/syscalls/process.c, which tests the page table of region 0.
use tiny_kernels.Prelude.{
  ℕ, zero, suc, ◌+◌, ◌-◌, ◌*◌, ◌<◌, ◌≤◌, ◌≡◌, ◌≢◌, refl, ◌∙◌, ap, inl, inr, true, false, some, ◌∷◌,
  arith, ltb, Bool-cases, length, get_elem?, get_elem?-some,
}
use tiny_kernels.Prelude.Int.{minus_one, pos}
use tiny_kernels.Prelude.Run.{ok, out_of_fuel}
use tiny_kernels.Hardware.{Pte, page_size, vmem_1_base, tlb_flush}
use tiny_kernels.Memory.{Memory, modify, invalidated, free_frame, valid_pfn, release_frame, nframes}
use tiny_kernels.Memory.Frames.{length-modify}
use tiny_kernels.Kernel.{Ptr, null, Pcb, Kernel}
use tiny_kernels.Kernel.Scheduling.{with_pcb, load-ok, update-ok, write_pcb-if}
use tiny_kernels.Kernel.Switching.{on_memory-ok}
use tiny_kernels.UserMemory.{brk, read_user, invalidate_user, brk_shrink}

-- The second loop of `Brk`, where the pages above the target up to the one it starts at are
-- invalid in the table of region 0, and with more fuel than there are pages between, ends at the
-- target and changes nothing: it unmaps no page of the process and frees no frame.
pub brk_shrink-unchanged :
    (fuel target d : ℕ) (curr : Ptr) (k : Kernel)
    → d < fuel
    → ((v : ℕ)
        → target < v
        → v ≤ target + d
        → (e : Pte) × (get_elem? k.memory.pt_region0 v ≡ some e) × (e.valid ≡ false))
    → brk_shrink fuel (target + d) target curr k ≡ ok target k
unfolding brk_shrink
brk_shrink-unchanged zero target d curr k enough off = absurd (omega arith)
brk_shrink-unchanged (suc n) target zero curr k enough off =
    let done : ltb target (target + 0) ≡ false = ground arith in
    let e : target + 0 ≡ target = omega arith in rw (done, e) refl
brk_shrink-unchanged (suc n) target (suc d) curr k enough off =
    let more : ltb target (target + suc d) ≡ true = ground arith in
    let (e, at, inv) = off (target + suc d) (omega arith) (omega arith) in
    let next : target + suc d - 1 ≡ target + d = omega arith in
    rw (more, at, inv, next)
      (brk_shrink-unchanged n target d curr k (omega arith) (λ v lo hi. off v lo (omega arith)))

-- The table of region 0 has a valid page at `v` and an invalid one behind it, and the process at `curr` has
-- a page `v`.
pub record Bounces (v : ℕ) (curr : Ptr) (k : Kernel) : Type 0 where
  pub here : (e : Pte) × (get_elem? k.memory.pt_region0 v ≡ some e) × (e.valid ≡ true)
  pub next : (e : Pte) × (get_elem? k.memory.pt_region0 (v + 1) ≡ some e) × (e.valid ≡ false)
  pub not_null : curr ≢ null
  pub page : (c : Pcb) × (k.pcbs curr ≡ some c) × (v < length c.ptbr)

-- `freeFrame` always returns, and leaves region 0 alone.
freed :
    (i : ℕ) (m : Memory)
    → (t : Memory) × (free_frame (pos i) m ≡ ok tt t) × (t.pt_region0 ≡ m.pt_region0)
unfolding free_frame valid_pfn release_frame
freed i m = elim (Bool-cases (ltb i (nframes m))) [
  | inl e ↦ (release_frame i m, rw e refl, refl)
  | inr e ↦ (m, rw e refl, refl)
]

pub read_user-ok :
    (p : Ptr) (vpn : ℕ) (c : Pcb) (e : Pte) (k : Kernel)
    → p ≢ null
    → k.pcbs p ≡ some c
    → get_elem? c.ptbr vpn ≡ some e
    → read_user p vpn k ≡ ok e k
unfolding read_user
read_user-ok p vpn c e k ne at in_table = rw (load-ok p c k ne at, in_table) refl

abbrev pub without_page : Pcb → ℕ → Pcb
without_page c vpn = record c { ptbr = modify c.ptbr vpn invalidated }

pub invalidate_user-ok :
    (p : Ptr) (vpn : ℕ) (c : Pcb) (k : Kernel)
    → p ≢ null
    → k.pcbs p ≡ some c
    → vpn < length c.ptbr
    → invalidate_user p vpn k ≡ ok tt (with_pcb k p (without_page c vpn))
unfolding invalidate_user
invalidate_user-ok p vpn c k ne at in_table =
    let here : ltb vpn (length c.ptbr) ≡ true = ground arith in
    rw
      (
        load-ok p c k ne at,
        here,
        update-ok p (λ x. record x { ptbr = modify c.ptbr vpn invalidated }) c k ne at,
      )
      refl

module _ (n v target : ℕ) (curr : Ptr) (k : Kernel) (above : target < v)
    (b : Bounces v curr k) where
  round_up :
      (t : Kernel) × Bounces v curr t
      × (brk_shrink (suc n) v target curr k ≡ brk_shrink n (v + 1) target curr t)
  unfolding brk_shrink
  round_up =
      let more : ltb target v ≡ true = ground arith in
      let (e0, at0, on) = b.here in
      let (e1, at1, off) = b.next in
      let (c, at, in_table) = b.page in
      let (e, entry) = get_elem?-some c.ptbr v in_table in
      let (m, frees, same) = freed e.pfn k.memory in
      let k1 = record k { memory = m } in
      let k2 = with_pcb k1 curr (without_page c v) in
      let line = pos (v * page_size + vmem_1_base) in
      let k3 = record k2 { memory = record m { registers = (tlb_flush, line) ∷ m.registers } } in
      (
        k3,
        record {
          here = (e0, ap (λ t. get_elem? t v) same ∙ at0, on);
          next = (e1, ap (λ t. get_elem? t (v + 1)) same ∙ at1, off);
          not_null = b.not_null;
          page = (
            without_page c v,
            rw (write_pcb-if k.pcbs curr (some (without_page c v)) curr) (ground arith),
            rw (length-modify c.ptbr v invalidated) in_table,
          );
        },
        rw
            (
              more,
              at0,
              on,
              read_user-ok curr v c e k b.not_null at entry,
              on_memory-ok (free_frame (pos e.pfn)) tt m k frees,
              invalidate_user-ok curr v c k1 b.not_null at in_table,
            )
            refl,
      )

  round_down : brk_shrink (suc n) (v + 1) target curr k ≡ brk_shrink n v target curr k
  unfolding brk_shrink
  round_down =
      let more : ltb target (v + 1) ≡ true = ground arith in
      let (e, at, off) = b.next in
      let down : v + 1 - 1 ≡ v = omega arith in rw (more, at, off, down) refl

-- The second loop of `Brk` does not end, whatever its fuel, where the page it starts at is above
-- the target, is valid in the table of region 0 with an invalid page behind it, and is a page of
-- the table of the process, which has a PCB.
pub brk_shrink-endless :
    (fuel v target : ℕ) (curr : Ptr) (k : Kernel)
    → target < v
    → Bounces v curr k
    → brk_shrink fuel v target curr k ≡ out_of_fuel
brk_shrink-endless zero v target curr k above b = unfold brk_shrink in refl
brk_shrink-endless (suc zero) v target curr k above b =
    let (t, b', e) = round_up zero v target curr k above b in e ∙ (unfold brk_shrink in refl)
brk_shrink-endless (suc (suc n)) v target curr k above b =
    let (t, b', e) = round_up (suc n) v target curr k above b in
    e ∙ round_down n v target curr t above b' ∙ brk_shrink-endless n v target curr t above b'

-- `Brk` of NULL is refused.
pub brk-null : (fuel : ℕ) (k : Kernel) → brk fuel 0 k ≡ ok minus_one k
unfolding brk
brk-null fuel k = refl
