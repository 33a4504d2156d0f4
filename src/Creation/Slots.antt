-- ===== src/Creation/Slots.antt =====
-- `getFreePCB` of src/proc.c: the slot that it fills and the PCB that it puts there.
use tiny_kernels.Prelude.{
  ℕ, zero, suc, ◌+◌, ◌<◌, ◌≡◌, ◌≢◌, refl, false, some, List, [], ◌∷◌, arith, ◌==◌, get_elem?, set,
}
use tiny_kernels.Prelude.Run.{ok, fault, Returns}
use tiny_kernels.Kernel.{Ptr, null, Pcb, proc_running, Kernel, write_pcb}
use tiny_kernels.Kernel.Scheduling.{HasMemory, with_pcb, update-ok, write_pcb-if}
use tiny_kernels.Creation.{fresh_pcb, alloc_new_pcb, find_slot, fill_slot, get_free_pcb}

-- No slot before this one is NULL.
abbrev pub TakenBefore : List Ptr → ℕ → Type 0
TakenBefore t i = (j : ℕ) (p : Ptr) → j < i → get_elem? t j ≡ some p → p ≢ null

TakenBefore-cons :
    (p : Ptr) (ps : List Ptr) (i : ℕ) → p ≢ null → TakenBefore ps i → TakenBefore (p ∷ ps) (suc i)
TakenBefore-cons p ps i ne h zero q lt at = ground (arith, ne)
TakenBefore-cons p ps i ne h (suc j) q lt at = h j q (omega arith) at

find_slot-first :
    (t : List Ptr) (i : ℕ) → find_slot t ≡ some i → (get_elem? t i ≡ some null) × TakenBefore t i
unfolding find_slot
find_slot-first [] i e = absurd cc
find_slot-first (p ∷ ps) zero e = (ground arith, λ j q h at. absurd (omega arith))
find_slot-first (p ∷ ps) (suc i) e =
    let (at, others) = find_slot-first ps i (ground arith) in
    (at, TakenBefore-cons p ps i (ground arith) others)

-- The PCB of the new process.
abbrev pub new_process : Kernel → Pcb
new_process k = record fresh_pcb { state = proc_running; pid = k.new_pid k.pids }

pub record Filled (k : Kernel) (i : ℕ) (p : Ptr) (t : Kernel) : Type 0 where
  pub slot_free : get_elem? k.proc_table i ≡ some null
  pub before : TakenBefore k.proc_table i
  pub table : t.proc_table ≡ set k.proc_table i p
  pub pcb : t.pcbs p ≡ some (new_process k)
  pub others : (a : Ptr) → a ≢ p → t.pcbs a ≡ k.pcbs a
  pub memory : t.memory ≡ k.memory
  pub ready_queue : t.ready_queue ≡ k.ready_queue
  pub pids : t.pids ≡ k.pids + 1

-- The state after `getFreePCB` has filled slot `i`.
abbrev pub filled : Kernel → ℕ → Kernel
filled k i =
    let p = k.malloc k.calls in
    let k1 = record k {
      calls = k.calls + 1 + 1 + 1;
      pcbs = write_pcb k.pcbs p (some fresh_pcb);
      proc_table = set k.proc_table i p;
    } in
    let k2 = record (with_pcb k1 p (record fresh_pcb { state = proc_running })) {
      pids = k.pids + 1;
    } in
    with_pcb k2 p (new_process k)

module _ (i : ℕ) (k : Kernel) (room : HasMemory k) (found : find_slot k.proc_table ≡ some i) where
  pub get_free_pcb-ok : get_free_pcb k ≡ ok (k.malloc k.calls) (filled k i)
  unfolding get_free_pcb fill_slot alloc_new_pcb
  get_free_pcb-ok =
      let p = k.malloc k.calls in
      let ne : k.malloc k.calls ≢ null = room.gives k.calls in
      let got : (k.malloc k.calls == null) ≡ false = ground (arith, ne) in
      let got' : (k.malloc (k.calls + 1) == null) ≡ false =
        ground (arith, room.gives (k.calls + 1)) in
      let got'' : (k.malloc (k.calls + 1 + 1) == null) ≡ false =
        ground (arith, room.gives (k.calls + 1 + 1)) in
      let k1 = record k {
        calls = k.calls + 1 + 1 + 1;
        pcbs = write_pcb k.pcbs p (some fresh_pcb);
        proc_table = set k.proc_table i p;
      } in
      let at1 : k1.pcbs p ≡ some fresh_pcb =
        rw (write_pcb-if k.pcbs p (some fresh_pcb) p) (ground arith) in
      let c2 = record fresh_pcb { state = proc_running } in
      let k2 = record (with_pcb k1 p c2) { pids = k.pids + 1 } in
      let at2 : k2.pcbs p ≡ some c2 = rw (write_pcb-if k1.pcbs p (some c2) p) (ground arith) in
      rw
        (
          get_free_pcb,
          found,
          got,
          got',
          got'',
          room.stays k.calls k.memory,
          room.stays (k.calls + 1) k.memory,
          room.stays (k.calls + 1 + 1) k.memory,
          update-ok p (λ x. record x { state = proc_running }) fresh_pcb k1 ne at1,
          update-ok p (λ x. record x { pid = k.new_pid k.pids }) c2 k2 ne at2,
        )
        refl

  pub filled-Filled : Filled k i (k.malloc k.calls) (filled k i)
  unfolding write_pcb
  filled-Filled =
      let p = k.malloc k.calls in
      let (free, before) = find_slot-first k.proc_table i found in
      record {
        slot_free = free;
        before = before;
        table = refl;
        pcb = ground arith;
        others = λ a apart. let far : (a == p) ≡ false = ground (arith, apart) in rw far refl;
        memory = refl;
        ready_queue = refl;
        pids = refl;
      }

-- `getFreePCB`, where slot `i` is the first NULL one and the heap has room, returns a PCB and
-- puts it in that slot and no other: a fresh one, RUNNING, with the next pid. Every other PCB, the
-- memory and the ready queue are unchanged, and one pid is used up.
pub get_free_pcb-Filled :
    (i : ℕ) (k : Kernel)
    → HasMemory k
    → find_slot k.proc_table ≡ some i
    → Returns (λ r t. (r ≡ k.malloc k.calls) × Filled k i r t) (get_free_pcb k)
get_free_pcb-Filled i k room found =
    rw (get_free_pcb-ok i k room found) (refl, filled-Filled i k room found)

-- `getFreePCB`, where a slot is NULL and the `malloc` of the PCB fails, dereferences NULL.
pub get_free_pcb_undefined :
    (i : ℕ) (k : Kernel)
    → find_slot k.proc_table ≡ some i
    → k.malloc k.calls ≡ null
    → get_free_pcb k ≡ fault
unfolding get_free_pcb fill_slot alloc_new_pcb
get_free_pcb_undefined i k found fails = rw (get_free_pcb, found, fails) refl
