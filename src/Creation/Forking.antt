-- ===== src/Creation/Forking.antt =====
-- Fork of src/syscalls/process.c, for the parent.
pub mod Parent
pub mod Child
use tiny_kernels.Prelude.{
  ℕ, zero, suc, ◌+◌, ◌<◌, ◌≤◌, ◌%◌, ◌^◌, ◌≡◌, ◌≢◌, refl, sym, ap, ◌∙◌, Bool, true, false, not, ◌&&◌,
  Option, none, some, List, [], ◌∷◌, ◌++◌, arith, ◌==◌, if◌then◌else◌, inl, inr, length, get_elem?,
  set, replicate, length-replicate, get_elem?-replicate, replicate_only, some_unique, Bool-cases,
  subst,
}
use tiny_kernels.Prelude.Int.{ℤ, pos, negsuc, minus_one, eq_ℤ, eq_ℤ_iff}
use tiny_kernels.Prelude.Run.{Cmd, ok, outcome, Returns}
use tiny_kernels.Hardware.{Pte, max_pt_len, invalid_pte}
use tiny_kernels.Memory.{Memory}
use tiny_kernels.Memory.Frames.{free_at, used_at, Counted}
use tiny_kernels.Memory.Tables.{IsSized}
use tiny_kernels.Kernel.{
  Ptr, null, Pcb, proc_ready, Kernel, KernelContext, write_pcb, after_fork, with_result, Flow,
  returned, ready, children,
}
use tiny_kernels.Kernel.Scheduling.{
  HasMemory, with_pcb, load-ok, update-ok, write_pcb-if, enqueue_ready, enqueue_children,
}
use tiny_kernels.UserMemory.{copy_pt}
use tiny_kernels.UserMemory.Keeping.{FramesKept, FramesKept-trans, FramesKept-registers}
use tiny_kernels.UserMemory.Pages.{held, among, Apart}
use tiny_kernels.UserMemory.Copying.{Kept, MapsUsed, IsCopy, Copied, CanCopy, CopyResult}
use tiny_kernels.UserMemory.Copying.Loop.{copy_pt-CopyResult}
use tiny_kernels.Creation.{
  kstack_frames, copy_kstack, find_slot, get_free_pcb, kc_copy, fork_resumed, fork,
}
use tiny_kernels.Creation.Slots.{new_process, Filled, filled, get_free_pcb-ok, filled-Filled}
use tiny_kernels.Creation.KernelStacks.{
  StackCopied, kernel_stack-StackCopied, stack_of, kc_copied, kc_copy-ok,
}

-- The parent and the child when the parent's `Fork` is over.
abbrev pub parent_after : Pcb → Ptr → ℤ → Pcb
parent_after c child pid = record c {
  children_processes = c.children_processes ++ child ∷ [];
  user_context = with_result pid c.user_context;
}

-- What `Fork` does after `KCCopy`, for the parent.
abbrev pub forked : Ptr → Ptr → Kernel → Pcb → Pcb → Kernel
forked p child k c d =
    let k1 = with_pcb k child (record d { state = proc_ready }) in
    let k2 = with_pcb k1 p (record c { children_processes = c.children_processes ++ child ∷ [] }) in
    record (with_pcb k2 p (parent_after c child d.pid)) {
      calls = k.calls + 1 + 1;
      ready_queue = k.ready_queue ++ child ∷ [];
    }

pub fork_resumed-ok :
    (child : Ptr) (k : Kernel) (c d : Pcb)
    → k.current_process ≢ null
    → child ≢ null
    → k.current_process ≢ child
    → k.pcbs k.current_process ≡ some c
    → k.pcbs child ≡ some d
    → HasMemory k
    → fork_resumed k.current_process child k
      ≡ ok (returned (pos 0)) (forked k.current_process child k c d)
unfolding fork_resumed
fork_resumed-ok child k c d ne cne apart at_p at_c room =
    let p = k.current_process in
    let same : eq_ℤ c.pid c.pid ≡ true = (eq_ℤ_iff c.pid c.pid).1 refl in
    let far : (k.current_process == child) ≡ false = ground (arith, apart) in
    let far' : (child == k.current_process) ≡ false = ground (arith, apart) in
    let d1 = record d { state = proc_ready } in
    let k1 = with_pcb k child d1 in
    let at1 : k1.pcbs p ≡ some c = rw (write_pcb-if k.pcbs child (some d1) p, far) at_p in
    let k2 = record k1 { calls = k.calls + 1; ready_queue = k.ready_queue ++ child ∷ [] } in
    let c1 = record c { children_processes = c.children_processes ++ child ∷ [] } in
    let k3 = with_pcb (record k2 { calls = k.calls + 1 + 1 }) p c1 in
    let at2 : k3.pcbs p ≡ some c1 = rw (write_pcb-if k1.pcbs p (some c1) p) (ground arith) in
    let at3 : k3.pcbs child ≡ some d1 =
      rw (write_pcb-if k1.pcbs p (some c1) child, far', write_pcb-if k.pcbs child (some d1) child)
        (ground arith) in
    rw
      (
        load-ok p c k ne at_p,
        load-ok p c k ne at_p,
        same,
        update-ok child (λ x. record x { state = proc_ready }) d k cne at_c,
        enqueue_ready child k1 cne room,
        enqueue_children p child c k2 cne ne at1 room,
        load-ok child d1 k3 cne at3,
        update-ok p (λ x. record x { user_context = with_result d.pid x.user_context }) c1 k3 ne
            at2,
      )
      refl

-- What `Fork` supposes: slot `i` is the first that is free, and the parent has a kernel stack of two
-- pages and a whole table, all of them in frames in use.
pub record CanFork (k : Kernel) (i : ℕ) (c : Pcb) (e e' : Pte) : Type 0 where
  pub malloc : HasMemory k
  pub slot : find_slot k.proc_table ≡ some i
  pub not_null : k.current_process ≢ null
  pub fresh : k.current_process ≢ k.malloc k.calls
  pub at : k.pcbs k.current_process ≡ some c
  pub kstack : c.kstack ≡ some (e ∷ e' ∷ [])
  pub stack_used : used_at k.memory.frame_table e.pfn ≡ true
  pub stack_used' : used_at k.memory.frame_table e'.pfn ≡ true
  pub table : length c.ptbr ≡ max_pt_len
  pub maps : MapsUsed k c.ptbr
  pub sized : IsSized k.memory
  pub counted : Counted k.memory

-- The child's PCB: a new process with the context and the pages of the parent.
abbrev pub child_after : Kernel → Pcb → List Pte → (f g : ℕ) → Pcb
child_after k c copy f g = record (new_process k) {
  state = proc_ready;
  ppid = c.pid;
  user_context = c.user_context;
  ptbr = copy;
  kernel_context = after_fork k.current_process;
  kstack = some (stack_of f g);
}

-- The child is a copy of the parent, in frames that were free.
pub record Forked (k : Kernel) (i : ℕ) (c : Pcb) (e e' : Pte) (t : Kernel) : Type 0 where
  pub copy : List Pte
  pub f : ℕ
  pub g : ℕ
  pub frames : List ℕ
  pub parent :
      t.pcbs k.current_process ≡ some (parent_after c (k.malloc k.calls) (k.new_pid k.pids))
  pub child : t.pcbs (k.malloc k.calls) ≡ some (child_after k c copy f g)
  pub others : (a : Ptr) → a ≢ k.current_process → a ≢ k.malloc k.calls → t.pcbs a ≡ k.pcbs a
  pub ready_queue : t.ready_queue ≡ k.ready_queue ++ k.malloc k.calls ∷ []
  pub slots : t.proc_table ≡ set k.proc_table i (k.malloc k.calls)
  pub current : t.current_process ≡ k.current_process
  pub all : held max_pt_len 0 copy ≡ frames
  pub apart : Apart (f ∷ g ∷ frames)
  pub new : (x : ℕ) → among x (f ∷ g ∷ frames) ≡ true → free_at k.memory.frame_table x ≡ true
  pub in_use : (x : ℕ) → among x (f ∷ g ∷ frames) ≡ true → used_at t.memory.frame_table x ≡ true
  pub pages :
      (j : ℕ) (x : Pte)
      → j < max_pt_len
      → get_elem? c.ptbr j ≡ some x
      → x.valid ≡ true
      → IsCopy k t frames copy j x
  pub no_page :
      (j : ℕ) (x : Pte)
      → j < max_pt_len
      → get_elem? c.ptbr j ≡ some x
      → x.valid ≡ false
      → get_elem? copy j ≡ some invalid_pte
  pub stack : t.memory.contents f ≡ k.memory.contents e.pfn
  pub stack' : t.memory.contents g ≡ k.memory.contents e'.pfn
  pub kept : FramesKept k.memory t.memory

-- What a `Fork` that runs out of frames leaves: the child keeps its slot and its PCB, and every frame is
-- in use.
pub record Leaked (k : Kernel) (i : ℕ) (t : Kernel) : Type 0 where
  pub slots : t.proc_table ≡ set k.proc_table i (k.malloc k.calls)
  pub child : (d : Pcb) × (t.pcbs (k.malloc k.calls) ≡ some d)
  pub no_frame : (x : ℕ) → free_at t.memory.frame_table x ≡ false
  pub ready_queue : t.ready_queue ≡ k.ready_queue
  pub others : (a : Ptr) → a ≢ k.malloc k.calls → t.pcbs a ≡ k.pcbs a

-- The child, when it first runs: it goes on behind the switch too, and tells itself apart by its pid.
pub fork_resumed-child :
    (parent : Ptr) (k : Kernel) (c d : Pcb)
    → k.current_process ≢ null
    → parent ≢ null
    → k.pcbs k.current_process ≡ some d
    → k.pcbs parent ≡ some c
    → d.pid ≢ c.pid
    → fork_resumed parent k.current_process k
      ≡ ok (returned (pos 0)) (
          with_pcb
            (with_pcb k k.current_process
              (record d { user_context = with_result (pos 0) d.user_context }))
            k.current_process
            (record d { user_context = with_result (pos 0) d.user_context; parent = parent }))
unfolding fork_resumed
fork_resumed-child parent k c d ne pne at at_p differ =
    let p = k.current_process in
    let other : eq_ℤ d.pid c.pid ≡ false = ground (arith, eq_ℤ_iff d.pid c.pid, differ) in
    let d1 = record d { user_context = with_result (pos 0) d.user_context } in
    let k1 = with_pcb k p d1 in
    let at1 : k1.pcbs k.current_process ≡ some d1 =
      rw (write_pcb-if k.pcbs k.current_process (some d1) k.current_process) (ground arith) in
    rw
      (
        load-ok p d k ne at,
        load-ok parent c k pne at_p,
        other,
        update-ok p (λ x. record x { user_context = with_result (pos 0) x.user_context }) d k ne at,
        update-ok p (λ x. record x { parent = parent }) d1 k1 ne at1,
      )
      refl
