-- ===== src/Process/Waits.antt =====
-- `Wait` of src/syscalls/process.c: the child that it reaps, and when it gives the processor away.
use tiny_kernels.Prelude.{
  ℕ, ◌≡◌, ◌≢◌, refl, ◌∙◌, true, false, Option, none, some, List, [], ◌∷◌, ◌++◌, arith, ◌==◌,
  if◌then◌else◌, length,
}
use tiny_kernels.Prelude.Int.{ℤ, pos, minus_one, eq_ℤ}
use tiny_kernels.Prelude.Run.{Cmd, and_then, pure, ok, Returns, bind}
use tiny_kernels.Hardware.{Pte, max_pt_len}
use tiny_kernels.Kernel.{
  Ptr, null, Pcb, proc_running, proc_blocked, kc_switch, after_wait, Kernel, Flow, returned,
  switched, rest, switch_to,
}
use tiny_kernels.Kernel.Scheduling.{
  with_pcb, load-ok, update-ok, write_pcb-if, next_of, next_process-ok,
}
use tiny_kernels.Kernel.Switching.{Runnable, Switched, kc_switch-Switched}
use tiny_kernels.Process.{reap_zombie, block_to_wait, wait, wait_resumed}
use tiny_kernels.Process.Status.{CanStore}
use tiny_kernels.Process.Reap.{Reaped, Family, Strangers, reap_zombie-Reaped, reap_zombie-none}

-- `Wait` of a process without children returns -1 and changes nothing.
pub wait-childless :
    (status_ptr : ℕ) (k : Kernel) (c : Pcb)
    → k.current_process ≢ null
    → k.pcbs k.current_process ≡ some c
    → c.children_processes ≡ []
    → wait status_ptr k ≡ ok (returned minus_one) k
unfolding wait
wait-childless status_ptr k c ne at empty = rw (load-ok k.current_process c k ne at, empty) refl

-- What `Wait` does with the result of its first loop.
abbrev after_reaping : Ptr → ℕ → Option ℤ → Cmd Kernel Flow
after_reaping curr status_ptr none = block_to_wait curr status_ptr
after_reaping curr status_ptr (some pid) = pure (returned pid)

wait-ok :
    (status_ptr : ℕ) (k : Kernel) (c : Pcb)
    → k.current_process ≢ null
    → k.pcbs k.current_process ≡ some c
    → (p : Ptr) (ps : List Ptr) → c.children_processes ≡ p ∷ ps
    → wait status_ptr k
      ≡ and_then
          (reap_zombie k.current_process c.pid status_ptr k)
          (after_reaping k.current_process status_ptr)
unfolding wait
wait-ok status_ptr k c ne at p ps child = rw (load-ok k.current_process c k ne at, child) refl

module _ (c : Pcb) (status_ptr : ℕ) (z : Ptr) (d : Pcb) (k : Kernel)
    (f : Family k k.current_process c z d) (front back : List Ptr)
    (queue : k.zombie_queue ≡ front ++ z ∷ back) (mine : eq_ℤ d.ppid c.pid ≡ true)
    (s : Strangers k c.pid front) (can : CanStore k c status_ptr) where
  abbrev IsReaped : Flow → Kernel → Type 0
  IsReaped r t = (r ≡ returned d.pid) × Reaped k k.current_process c status_ptr z d t

  -- `Wait` of a process that has children, with a child among the zombies and no child of it
  -- before that one in the zombie queue, returns the pid of that child, takes the child off the
  -- queue of children and the zombie queue, frees its PCB and orphans its children. It changes no
  -- other PCB and no other queue. Where the status pointer is NULL it changes no memory; otherwise
  -- the four bytes there are those of the exit status, no other byte of a valid page of the caller
  -- has changed, and of the memory nothing but the contents of the frames of these pages. The two
  -- processes differ, and they, the zombies before the child and the children of the child have
  -- PCBs; and where the status pointer is not NULL, the caller can write the four bytes there, and
  -- its valid pages have frames of their own, each a page long.
  pub wait-Reaped :
      (p : Ptr) (ps : List Ptr)
      → c.children_processes ≡ p ∷ ps
      → Returns IsReaped (wait status_ptr k)
  wait-Reaped p ps some_child =
      rw (wait-ok status_ptr k c f.curr_not_null f.curr_at p ps some_child) (
        bind (λ r t. (r ≡ some d.pid) × Reaped k k.current_process c status_ptr z d t) IsReaped
          (reap_zombie k.current_process c.pid status_ptr k)
          (after_reaping k.current_process status_ptr)
          (reap_zombie-Reaped k.current_process c status_ptr z d k f front back queue mine s refl
            can)
          λ r t h. let (e, more) = h in rw e (refl, more))

  -- When a process that waits is run again, with a child of it among the zombies and no child of
  -- it before that one in the zombie queue, `Wait` returns the pid of that child with the effects
  -- that the call has where it does not block. The two processes differ, and they, the zombies
  -- before the child and the children of the child have PCBs; and where the status pointer is not
  -- NULL, the caller can write the four bytes there, and its valid pages have frames of their own,
  -- each a page long.
  pub wait_resumed-Reaped : Returns IsReaped (wait_resumed k.current_process status_ptr k)
  unfolding wait_resumed
  wait_resumed-Reaped = rw (load-ok k.current_process c k f.curr_not_null f.curr_at) (
      bind (λ r t. (r ≡ some d.pid) × Reaped k k.current_process c status_ptr z d t) IsReaped
        (reap_zombie k.current_process c.pid status_ptr k) _
        (reap_zombie-Reaped k.current_process c status_ptr z d k f front back queue mine s refl can)
        λ r t h. let (e, more) = h in rw e (refl, more))

-- The process at `curr`, whose PCB was `c`, waits, and the one at `next`, whose PCB was `n`, runs.
pub record WaitBlocked (k : Kernel) (c : Pcb) (status_ptr : ℕ) (next : Ptr) (n : Pcb) (t : Kernel)
    : Type 0 where
  pub current : t.current_process ≡ next
  pub waiter :
      t.pcbs k.current_process
      ≡ some (record c {
        state = proc_blocked;
        waiting_for_child_pid = pos 1;
        kernel_context = after_wait status_ptr;
      })
  pub resumed : t.pcbs next ≡ some (record n { state = proc_running })
  pub others : (a : Ptr) → a ≢ k.current_process → a ≢ next → t.pcbs a ≡ k.pcbs a
  pub ready_queue : t.ready_queue ≡ rest k.ready_queue
  pub blocked_queue : t.blocked_queue ≡ k.blocked_queue
  pub zombie_queue : t.zombie_queue ≡ k.zombie_queue
  pub contents : t.memory.contents ≡ k.memory.contents
  pub frames : t.memory.frame_table ≡ k.memory.frame_table

module _ (k : Kernel) (c : Pcb) (e' f' : Pte) (n : Pcb) (e f : Pte) (status_ptr : ℕ)
    (from : Runnable k k.current_process c e' f') (to : Runnable k (next_of k) n e f)
    (apart : k.current_process ≢ next_of k) (size : length k.memory.pt_region0 ≡ max_pt_len) where
  abbrev c1 : Pcb
  c1 = record c { state = proc_blocked; waiting_for_child_pid = pos 1 }

  abbrev k2 : Kernel
  k2 = record (with_pcb k k.current_process c1) { ready_queue = rest k.ready_queue }

  left : Runnable k2 k.current_process c1 e' f'
  left = record {
    not_null = from.not_null;
    at = rw (write_pcb-if k.pcbs k.current_process (some c1) k.current_process) (ground arith);
    kstack = from.kstack;
  }

  right : Runnable k2 (next_of k) n e f
  right = record {
    not_null = to.not_null;
    at =
        rw (write_pcb-if k.pcbs k.current_process (some c1) (next_of k))
          (ground (arith, to.at, apart));
    kstack = to.kstack;
  }

  not_these :
      (a : Ptr)
      → a ≢ k.current_process
      → a ≢ next_of k
      → (if a == next_of k
          then some (record n { state = proc_running })
          else if a == k.current_process
          then some (record c1 { kernel_context = after_wait status_ptr })
          else k2.pcbs a)
        ≡ k.pcbs a
  not_these a nc nn =
      let one : (a == next_of k) ≡ false = ground (arith, nn) in
      let two : (a == k.current_process) ≡ false = ground (arith, nc) in
      rw (one, two) (rw (write_pcb-if k.pcbs k.current_process (some c1) a, two) refl)

  block_to_wait-Blocked :
      Returns
        (λ r t. (r ≡ switched) × WaitBlocked k c status_ptr (next_of k) n t)
        (block_to_wait k.current_process status_ptr k)
  unfolding block_to_wait switch_to
  block_to_wait-Blocked =
      rw
        (
          update-ok k.current_process
              (λ x. record x { state = proc_blocked; waiting_for_child_pid = pos 1 }) c k
              from.not_null from.at,
          next_process-ok (with_pcb k k.current_process c1),
        )
        (bind (λ _. Switched (after_wait status_ptr) k2 k.current_process c1 (next_of k) n e f)
          (λ r t. (r ≡ switched) × WaitBlocked k c status_ptr (next_of k) n t)
          (kc_switch (after_wait status_ptr) k.current_process (next_of k) k2) _
          (kc_switch-Switched (after_wait status_ptr) k2 k.current_process c1 e' f' (next_of k) n e
            f left right apart size)
          λ _ t s. (
            refl,
            record {
              current = s.current;
              waiter = ground (arith, s.pcbs k.current_process, apart);
              resumed = ground (arith, s.pcbs (next_of k));
              others = λ a nc nn. s.pcbs a ∙ not_these a nc nn;
              ready_queue = s.ready_queue;
              blocked_queue = s.blocked_queue;
              zombie_queue = s.zombie_queue;
              contents = s.contents;
              frames = s.frames;
            },
          ))

  -- `Wait` of a process that has children, none of them in the zombie queue, gives the processor
  -- to the next process: the first of the ready queue, which leaves it, or the idle process where
  -- it is empty. The caller is in state BLOCKED with `waiting_for_child_pid` equal to 1 and its
  -- status pointer kept; no other PCB, queue or frame changes. The conditions: the zombies have
  -- PCBs, the next process is another one, both have a kernel stack of two pages, and the table of
  -- region 0 is whole.
  pub wait-Blocked :
      (p : Ptr) (ps : List Ptr)
      → c.children_processes ≡ p ∷ ps
      → Strangers k c.pid k.zombie_queue
      → Returns
          (λ r t. (r ≡ switched) × WaitBlocked k c status_ptr (next_of k) n t)
          (wait status_ptr k)
  wait-Blocked p ps child s =
      rw
        (
          wait-ok status_ptr k c from.not_null from.at p ps child,
          reap_zombie-none k.current_process c.pid status_ptr k s,
        )
        block_to_wait-Blocked
