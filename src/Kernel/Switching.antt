-- ===== src/Kernel/Switching.antt =====
-- The switch between two processes: `KCSwitch` of src/kernel.c.
use tiny_kernels.Prelude.{
  ℕ, ◌+◌, ◌<◌, ◌≡◌, ◌≢◌, refl, ◌∙◌, ap, true, false, Option, some, List, [], ◌∷◌, arith, ltb, ◌==◌,
  if◌then◌else◌, length, get_elem?,
}
use tiny_kernels.Prelude.Int.{ℤ, pos, minus_one}
use tiny_kernels.Prelude.Run.{Run, ok, Returns}
use tiny_kernels.Hardware.{Pte, max_pt_len, kstack_pages, Register, ptbr1, ptlr1, tlb_flush}
use tiny_kernels.Memory.{Memory, modify, write_pte, write_register}
use tiny_kernels.Memory.Frames.{length-modify}
use tiny_kernels.Memory.Tables.{get_elem?-modify_ne, modified}
use tiny_kernels.Kernel.{
  Ptr, null, Pcb, proc_running, KernelContext, Kernel, write_pcb, on_memory, map_kstack,
  set_current, kc_switch,
}
use tiny_kernels.Kernel.Scheduling.{with_pcb, load-ok, update-ok, write_pcb-if}

-- The process at `p` has the PCB `c`, and a kernel stack of the two pages `e` and `f`.
pub record Runnable (k : Kernel) (p : Ptr) (c : Pcb) (e f : Pte) : Type 0 where
  pub not_null : p ≢ null
  pub at : k.pcbs p ≡ some c
  pub kstack : c.kstack ≡ some (e ∷ f ∷ [])

-- The state after the switch from `curr` to `next`, which had the PCBs `c` and `n`.
pub record Switched (kc : KernelContext) (k : Kernel) (curr : Ptr) (c : Pcb) (next : Ptr) (n : Pcb)
    (e f : Pte) (t : Kernel) : Type 0 where
  pub current : t.current_process ≡ next
  pub pcbs :
      (a : Ptr)
      → t.pcbs a ≡ (
          if a == next
          then some (record n { state = proc_running })
          else if a == curr
          then some (record c { kernel_context = kc })
          else k.pcbs a)
  pub stack_low : get_elem? t.memory.pt_region0 126 ≡ some e
  pub stack_high : get_elem? t.memory.pt_region0 127 ≡ some f
  pub other_pages :
      (vpn : ℕ) → vpn < 126 → get_elem? t.memory.pt_region0 vpn ≡ get_elem? k.memory.pt_region0 vpn
  pub frames : t.memory.frame_table ≡ k.memory.frame_table
  pub contents : t.memory.contents ≡ k.memory.contents
  pub ready_queue : t.ready_queue ≡ k.ready_queue
  pub blocked_queue : t.blocked_queue ≡ k.blocked_queue
  pub zombie_queue : t.zombie_queue ≡ k.zombie_queue
  pub malloc : t.malloc ≡ k.malloc
  pub heap : t.heap ≡ k.heap
  pub registers :
      t.memory.registers
      ≡ (tlb_flush, minus_one) ∷ (ptlr1, pos n.ptlr) ∷ (ptbr1, pos next) ∷ k.memory.registers

abbrev stack_table : List Pte → Pte → Pte → List Pte
stack_table t e f = modify (modify t (126 + 0) (λ _. e)) (126 + (0 + 1)) (λ _. f)

map_kstack-ok :
    (e f : Pte) (m : Memory)
    → length m.pt_region0 ≡ max_pt_len
    → map_kstack kstack_pages 0 (e ∷ f ∷ []) m
      ≡ ok tt (record m { pt_region0 = stack_table m.pt_region0 e f })
unfolding map_kstack write_pte
map_kstack-ok e f m size =
    let low : ltb 126 (length m.pt_region0) ≡ true = ground (arith, size) in
    let high : ltb 127 (length (modify m.pt_region0 126 (λ _. e))) ≡ true =
      rw (length-modify m.pt_region0 126 (λ _. e), size) refl in
    rw (low, high)

pub on_memory-ok :
    {A : Type 0} (c : Memory → Run Memory A) (a : A) (m : Memory) (k : Kernel)
    → c k.memory ≡ ok a m
    → on_memory c k ≡ ok a (record k { memory = m })
unfolding on_memory
on_memory-ok c a m k h = rw (on_memory, h)

pub register-ok :
    (r : Register) (v : ℤ) (k : Kernel)
    → on_memory (write_register r v) k
      ≡ ok tt (record k { memory = record k.memory { registers = (r, v) ∷ k.memory.registers } })
unfolding on_memory write_register
register-ok r v k = refl

module _ (kc : KernelContext) (k : Kernel) (curr : Ptr) (c : Pcb) (e' f' : Pte) (next : Ptr)
    (n : Pcb) (e f : Pte) (from : Runnable k curr c e' f') (to : Runnable k next n e f)
    (apart : curr ≢ next) (size : length k.memory.pt_region0 ≡ max_pt_len) where
  abbrev new_memory : Memory
  new_memory = record k.memory {
    pt_region0 = stack_table k.memory.pt_region0 e f;
    registers =
        (tlb_flush, minus_one) ∷ (ptlr1, pos n.ptlr) ∷ (ptbr1, pos next) ∷ k.memory.registers;
  }

  abbrev new_pcbs : Ptr → Option Pcb
  new_pcbs =
      write_pcb (write_pcb k.pcbs curr (some (record c { kernel_context = kc }))) next
        (some (record n { state = proc_running }))

  abbrev new_kernel : Kernel
  new_kernel = record k { memory = new_memory; current_process = next; pcbs = new_pcbs }

  abbrev with_running : Pcb → Run Kernel (Unit {0})
  with_running x = ok tt (record new_kernel {
    pcbs =
        write_pcb (write_pcb k.pcbs curr (some (record c { kernel_context = kc }))) next (some x);
  })

  kc_switch-ok : kc_switch kc curr next k ≡ ok tt new_kernel
  unfolding kc_switch set_current
  kc_switch-ok =
      let here : (curr == null) ≡ false = ground (arith, from.not_null) in
      let k1 = with_pcb k curr (record c { kernel_context = kc }) in
      let at1 : k1.pcbs next ≡ some n =
        rw (write_pcb-if k.pcbs curr (some (record c { kernel_context = kc })) next)
          (ground (arith, to.at)) in
      let m = record k.memory { pt_region0 = stack_table k.memory.pt_region0 e f } in
      let k2 = record k1 { memory = m; current_process = next } in
      let k3 = with_pcb k2 next (record n { state = proc_running }) in
      let k4 = record k3 { memory = record m { registers = (ptbr1, pos next) ∷ m.registers } } in
      let k5 = record k4 {
        memory = record k4.memory { registers = (ptlr1, pos n.ptlr) ∷ k4.memory.registers };
      } in
      rw
        (
          here,
          update-ok curr (λ x. record x { kernel_context = kc }) c k from.not_null from.at,
          load-ok next n k1 to.not_null at1,
          to.kstack,
          on_memory-ok (map_kstack kstack_pages 0 (e ∷ f ∷ [])) tt m k1
              (map_kstack-ok e f k.memory size),
          update-ok next (λ x. record x { state = proc_running }) n k2 to.not_null at1,
          register-ok ptbr1 (pos next) k3,
          register-ok ptlr1 (pos n.ptlr) k4,
          register-ok tlb_flush minus_one k5,
        )
        (ap (λ s. with_running (record n { state = proc_running; kstack = s })) to.kstack)

  -- `KCSwitch` between two different processes, which both have a PCB and a kernel stack of two
  -- pages, with a whole table of region 0: the kernel stack pages of region 0 are those of the
  -- next process and no other page of region 0 changes, the next process is the current one in
  -- state RUNNING, the context is saved in the PCB of the first, the registers are written with
  -- the page table of the next one and the TLB is flushed; queues and other PCBs do not change.
  pub kc_switch-Switched : Returns (λ _. Switched kc k curr c next n e f) (kc_switch kc curr next k)
  unfolding write_pcb
  kc_switch-Switched =
      let pt = k.memory.pt_region0 in
      let (old, was) = modified pt 126 (λ _. e) (omega (arith, size)) in
      let (old', was') =
        modified (modify pt 126 (λ _. e)) 127 (λ _. f)
          (rw (length-modify pt 126 (λ _. e)) (omega (arith, size))) in
      rw kc_switch-ok (record {
        current = refl;
        pcbs = λ a. refl;
        stack_low =
            get_elem?-modify_ne (modify pt 126 (λ _. e)) 127 126 (λ _. f) (omega arith) ∙ was;
        stack_high = was';
        other_pages = λ vpn h.
            get_elem?-modify_ne (modify pt 126 (λ _. e)) 127 vpn (λ _. f) (omega arith)
            ∙ get_elem?-modify_ne pt 126 vpn (λ _. e) (omega arith);
        frames = refl;
        contents = refl;
        ready_queue = refl;
        blocked_queue = refl;
        zombie_queue = refl;
        malloc = refl;
        heap = refl;
        registers = refl;
      })
