-- ===== src/Process/Reap.antt =====
-- What is done with a dead process: `deletePCB` of src/proc.c, and the loops of `Wait` of
-- src/syscalls/process.c.
use tiny_kernels.Prelude.{
  ℕ, ◌≡◌, ◌≢◌, refl, sym, ◌∙◌, ap, inl, inr, true, false, Option, none, some, List, [], ◌∷◌, ◌++◌,
  append-nil, arith, ◌==◌, if◌then◌else◌, Bool-cases,
}
use mathlib.Core.Option
use tiny_kernels.Prelude.Int.{ℤ, eq_ℤ}
use tiny_kernels.Prelude.Run.{ok, Returns, bind, mono}
use tiny_kernels.Kernel.{
  Ptr, null, Pcb, proc_orphan, Kernel, zombie, children, write_pcb, dequeue_process, without,
}
use tiny_kernels.Kernel.Scheduling.{
  mem, Loaded, Loaded-cong, with_pcb, load-ok, update-ok, write_pcb-if,
}
use tiny_kernels.Process.Status.{
  CanStore, StatusStored, stored, store_status-ok, stored-StatusStored,
}
use tiny_kernels.Process.{orphan_children, free_pcb, delete_pcb, reap, reap_loop, reap_zombie}

abbrev pub orphaned : Pcb → Pcb
orphaned c = record c { parent = null; state = proc_orphan }

-- The state with other PCBs.
abbrev pub with_pcbs : Kernel → (Ptr → Option Pcb) → Kernel
with_pcbs k h = record k { pcbs = h }

-- The PCBs after `deletePCBHelper` on each process of a list.
abbrev after_orphans : (Ptr → Option Pcb) → List Ptr → Ptr → Option Pcb
after_orphans h ps a = if mem a ps then Option.map orphaned (h a) else h a

-- Only PCBs change, and those of the list are orphaned.
record Orphaned (k : Kernel) (ps : List Ptr) (t : Kernel) : Type 0 where
  pcbs : (a : Ptr) → t.pcbs a ≡ after_orphans k.pcbs ps a
  same : t ≡ with_pcbs k t.pcbs

Loaded-kept :
    (k : Kernel) (p : Ptr) (x : Pcb) (ps : List Ptr) → Loaded k ps → Loaded (with_pcb k p x) ps
Loaded-kept k p x [] l = tt
Loaded-kept k p x (a ∷ ps) (ne, (c, at), l) = (
  ne,
  elim (Bool-cases (a == p)) [
    | inl e ↦ (x, rw (write_pcb-if k.pcbs p (some x) a, e))
    | inr e ↦ (c, rw (write_pcb-if k.pcbs p (some x) a, e) at)
  ],
  Loaded-kept k p x ps l,
)

after_cons :
    (k : Kernel) (p : Ptr) (ps : List Ptr) (c : Pcb)
    → k.pcbs p ≡ some c
    → (a : Ptr)
    → after_orphans (with_pcb k p (orphaned c)).pcbs ps a ≡ after_orphans k.pcbs (p ∷ ps) a
after_cons k p ps c at a = elim (Bool-cases (a == p)) [
  | inl e ↦
      let q : a ≡ p = ground arith in
      let here : k.pcbs a ≡ some c = rw q at in
      rw (write_pcb-if k.pcbs p (some (orphaned c)) a, e, here)
        (elim (Bool-cases (mem a ps)) [ inl i ↦ rw i refl | inr i ↦ rw i refl ])
  | inr e ↦ rw (write_pcb-if k.pcbs p (some (orphaned c)) a, e)
]

orphan_children-Orphaned :
    (ps : List Ptr) (k : Kernel) → Loaded k ps → Returns (λ _. Orphaned k ps) (orphan_children ps k)
unfolding orphan_children
orphan_children-Orphaned [] k l = record { pcbs = λ a. refl; same = refl }
orphan_children-Orphaned (p ∷ ps) k (ne, (c, at), l) =
    let k1 = with_pcb k p (orphaned c) in
    rw (update-ok p orphaned c k ne at) (
      mono (λ _. Orphaned k1 ps) (λ _. Orphaned k (p ∷ ps)) _
        (orphan_children-Orphaned ps k1 (Loaded-kept k p (orphaned c) ps l))
        λ _ t h. record { pcbs = λ a. h.pcbs a ∙ after_cons k p ps c at a; same = h.same })

-- The state after `deletePCB` of the process at `z`, whose PCB was `c`.
pub record Deleted (k : Kernel) (z : Ptr) (c : Pcb) (t : Kernel) : Type 0 where
  pub gone : t.pcbs z ≡ none
  pub others : (a : Ptr) → a ≢ z → t.pcbs a ≡ after_orphans k.pcbs c.children_processes a
  pub same : t ≡ with_pcbs k t.pcbs

still_there :
    (z : Ptr) (c : Pcb) (k t : Kernel)
    → k.pcbs z ≡ some c
    → Orphaned k c.children_processes t
    → (x : Pcb) × (t.pcbs z ≡ some x)
still_there z c k t at h = elim (Bool-cases (mem z c.children_processes)) [
  | inl i ↦ (orphaned c, h.pcbs z ∙ rw (i, at) refl)
  | inr i ↦ (c, h.pcbs z ∙ rw (i, at) refl)
]

pub delete_pcb-Deleted :
    (z : Ptr) (c : Pcb) (k : Kernel)
    → z ≢ null
    → k.pcbs z ≡ some c
    → Loaded k c.children_processes
    → Returns (λ _. Deleted k z c) (delete_pcb z k)
unfolding delete_pcb free_pcb write_pcb
delete_pcb-Deleted z c k ne at l =
    let here : (z == null) ≡ false = ground (arith, ne) in
    rw (here, load-ok z c k ne at)
      (bind (λ _. Orphaned k c.children_processes) (λ _. Deleted k z c)
        (orphan_children c.children_processes k) _
        (orphan_children-Orphaned c.children_processes k l)
        λ _ t h.
          let (x, left) = still_there z c k t at h in
          rw (load-ok z x t ne left) (record {
            gone = ground arith;
            others = λ a apart. ground (arith, h.pcbs a);
            same = rw h.same refl;
          }))

-- The state of `Wait` of the process at `curr`, with the PCB `c`, after it has reaped the zombie at
-- `z`, whose PCB was `d`.
pub record Reaped (k : Kernel) (curr : Ptr) (c : Pcb) (status_ptr : ℕ) (z : Ptr) (d : Pcb)
    (t : Kernel) : Type 0 where
  pub gone : t.pcbs z ≡ none
  pub parent :
      t.pcbs curr
      ≡ after_orphans
          (write_pcb k.pcbs curr
            (some (record c { children_processes = without z c.children_processes })))
          d.children_processes
          curr
  pub others : (a : Ptr) → a ≢ z → a ≢ curr → t.pcbs a ≡ after_orphans k.pcbs d.children_processes a
  pub zombie_queue : t.zombie_queue ≡ without z k.zombie_queue
  pub ready_queue : t.ready_queue ≡ k.ready_queue
  pub blocked_queue : t.blocked_queue ≡ k.blocked_queue
  pub current : t.current_process ≡ k.current_process
  pub status : StatusStored c status_ptr d.exit_status k.memory t.memory

dequeue_process_children :
    (curr z : Ptr) (c : Pcb) (k : Kernel)
    → z ≢ null
    → curr ≢ null
    → k.pcbs curr ≡ some c
    → dequeue_process (children curr) z k
      ≡ ok tt (with_pcb k curr (record c { children_processes = without z c.children_processes }))
unfolding dequeue_process
dequeue_process_children curr z c k ne ne' at =
    let here : (z == null) ≡ false = ground (arith, ne) in
    rw (
      here,
      load-ok curr c k ne' at,
      update-ok curr (λ x. record x { children_processes = without z c.children_processes }) c k ne'
          at,
    )

dequeue_process_zombie :
    (z : Ptr) (k : Kernel)
    → z ≢ null
    → dequeue_process zombie z k ≡ ok tt (record k { zombie_queue = without z k.zombie_queue })
unfolding dequeue_process
dequeue_process_zombie z k ne = let here : (z == null) ≡ false = ground (arith, ne) in rw here

-- A process at `curr` and a dead child of it at `z`.
pub record Family (k : Kernel) (curr : Ptr) (c : Pcb) (z : Ptr) (d : Pcb) : Type 0 where
  pub curr_not_null : curr ≢ null
  pub z_not_null : z ≢ null
  pub apart : curr ≢ z
  pub curr_at : k.pcbs curr ≡ some c
  pub z_at : k.pcbs z ≡ some d
  pub grandchildren : Loaded k d.children_processes

module _ (curr : Ptr) (c : Pcb) (status_ptr : ℕ) (z : Ptr) (d : Pcb) (k : Kernel)
    (f : Family k curr c z d) (run : k.current_process ≡ curr) (can : CanStore k c status_ptr) where
  others_kept :
      (a : Ptr)
      → a ≢ curr
      → (x : Pcb)
      → after_orphans (write_pcb k.pcbs curr (some x)) d.children_processes a
        ≡ after_orphans k.pcbs d.children_processes a
  others_kept a ne x =
      let same : write_pcb k.pcbs curr (some x) a ≡ k.pcbs a =
        rw (write_pcb-if k.pcbs curr (some x) a) (ground (arith, ne)) in
      rw same refl

  reap-Reaped :
      Returns
        (λ r t. (r ≡ some d.pid) × Reaped k curr c status_ptr z d t)
        (reap curr status_ptr z d k)
  unfolding reap
  reap-Reaped =
      let c1 = record c { children_processes = without z c.children_processes } in
      let k1 = record k { memory = stored c status_ptr d.exit_status k.memory } in
      let k2 = with_pcb k1 curr c1 in
      let k3 = record k2 { zombie_queue = without z k2.zombie_queue } in
      let z_at : k3.pcbs z ≡ some d =
        rw (write_pcb-if k.pcbs curr (some c1) z) (ground (arith, f.z_at, f.apart)) in
      rw
        (
          store_status-ok status_ptr d.exit_status k c (rw run f.curr_not_null) (rw run f.curr_at)
              can,
          dequeue_process_children curr z c k1 f.z_not_null f.curr_not_null f.curr_at,
          dequeue_process_zombie z k2 f.z_not_null,
        )
        (bind (λ _. Deleted k3 z d) (λ r t. (r ≡ some d.pid) × Reaped k curr c status_ptr z d t)
          (delete_pcb z k3) _
          (delete_pcb-Deleted z d k3 f.z_not_null z_at (
            Loaded-cong (with_pcb k curr c1) k3 d.children_processes (λ a i. refl)
              (Loaded-kept k curr c1 d.children_processes f.grandchildren)))
          λ _ t h. (
            refl,
            record {
              gone = h.gone;
              parent = h.others curr f.apart;
              others = λ a na nc. h.others a na ∙ others_kept a nc c1;
              zombie_queue = ap (λ t. t.zombie_queue) h.same;
              ready_queue = ap (λ t. t.ready_queue) h.same;
              blocked_queue = ap (λ t. t.blocked_queue) h.same;
              current = ap (λ t. t.current_process) h.same;
              status =
                  rw (ap (λ t. t.memory) h.same)
                    (stored-StatusStored status_ptr d.exit_status k c can);
            },
          ))

-- No process of the list is a child of the process with this pid.
pub record Strangers (k : Kernel) (pid : ℤ) (zs : List Ptr) : Type 0 where
  pub loaded : Loaded k zs
  pub no_child : (a : Ptr) (x : Pcb) → mem a zs ≡ true → k.pcbs a ≡ some x → eq_ℤ x.ppid pid ≡ false

reap_loop-skip :
    (curr : Ptr) (pid : ℤ) (status_ptr : ℕ) (front zs : List Ptr) (k : Kernel)
    → Strangers k pid front
    → reap_loop curr pid status_ptr (front ++ zs) k ≡ reap_loop curr pid status_ptr zs k
unfolding reap_loop
reap_loop-skip curr pid status_ptr [] zs k s = refl
reap_loop-skip curr pid status_ptr (p ∷ front) zs k s =
    let (ne, (x, at), l) = s.loaded in
    rw (load-ok p x k ne at, s.no_child p x (ground arith) at)
      (reap_loop-skip curr pid status_ptr front zs k
        (record { loaded = l; no_child = λ a y i. s.no_child a y (ground arith) }))

module _ (curr : Ptr) (c : Pcb) (status_ptr : ℕ) (z : Ptr) (d : Pcb) (k : Kernel)
    (f : Family k curr c z d) (front back : List Ptr) (queue : k.zombie_queue ≡ front ++ z ∷ back)
    (mine : eq_ℤ d.ppid c.pid ≡ true) (s : Strangers k c.pid front) (run : k.current_process ≡ curr)
    (can : CanStore k c status_ptr) where
  reap_zombie-first : reap_zombie curr c.pid status_ptr k ≡ reap curr status_ptr z d k
  unfolding reap_zombie reap_loop
  reap_zombie-first =
      ap (λ zs. reap_loop curr c.pid status_ptr zs k) queue
      ∙ reap_loop-skip curr c.pid status_ptr front (z ∷ back) k s
      ∙ rw (load-ok z d k f.z_not_null f.z_at, mine) refl

  pub reap_zombie-Reaped :
      Returns
        (λ r t. (r ≡ some d.pid) × Reaped k curr c status_ptr z d t)
        (reap_zombie curr c.pid status_ptr k)
  reap_zombie-Reaped = rw reap_zombie-first (reap-Reaped curr c status_ptr z d k f run can)

pub reap_zombie-none :
    (curr : Ptr) (pid : ℤ) (status_ptr : ℕ) (k : Kernel)
    → Strangers k pid k.zombie_queue
    → reap_zombie curr pid status_ptr k ≡ ok none k
unfolding reap_zombie reap_loop
reap_zombie-none curr pid status_ptr k s =
    ap (λ zs. reap_loop curr pid status_ptr zs k) (sym (append-nil k.zombie_queue))
    ∙ reap_loop-skip curr pid status_ptr k.zombie_queue [] k s
