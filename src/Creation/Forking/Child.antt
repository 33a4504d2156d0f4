-- ===== src/Creation/Forking/Child.antt =====
-- A Fork (src/syscalls/process.c) on both sides.
use tiny_kernels.Prelude.{ℕ, ◌+◌, ◌≤◌, ◌≡◌, ◌≢◌, refl, true, false, some, arith, ◌==◌, length}
use tiny_kernels.Prelude.Int.{pos}
use tiny_kernels.Prelude.Run.{Returns, mono}
use tiny_kernels.Hardware.{Pte, max_pt_len}
use tiny_kernels.Kernel.{Ptr, Pcb, Kernel, write_pcb, with_result, Flow, returned}
use tiny_kernels.UserMemory.Pages.{held}
use tiny_kernels.Creation.{fork_resumed, fork}
use tiny_kernels.Creation.Forking.{child_after, fork_resumed-child, parent_after, CanFork, Forked}
use tiny_kernels.Creation.Forking.Parent.{fork-Forked}

module _ (k : Kernel) (i : ℕ) (c : Pcb) (e e' : Pte) (can : CanFork k i c e e') where
  abbrev p : Ptr
  p = k.current_process

  abbrev ch : Ptr
  ch = k.malloc k.calls

  -- The child's side of the call, after the parent's.
  abbrev pub ChildReturned : Flow → Kernel → Type 0
  ChildReturned r t =
      (r ≡ returned (pos 0))
      × ((d' : Pcb) × (t.pcbs ch ≡ some d')
          × (d'.user_context ≡ with_result (pos 0) c.user_context)
          × (d'.parent ≡ p)
          × (d'.ppid ≡ c.pid))
      × (t.pcbs p ≡ some (parent_after c ch (k.new_pid k.pids)))

  child_returned :
      (t : Kernel)
      → k.new_pid k.pids ≢ c.pid
      → Forked k i c e e' t
      → Returns ChildReturned (fork_resumed p ch (record t { current_process = ch }))
  unfolding write_pcb
  child_returned t differ r =
      let here : (ch == ch) ≡ true = ground arith in
      let far : (p == ch) ≡ false = ground (arith, can.fresh) in
      let d' = child_after k c r.copy r.f r.g in
      let u = with_result (pos 0) c.user_context in
      rw
        (fork_resumed-child p (record t { current_process = ch })
          (parent_after c ch (k.new_pid k.pids)) d' (can.malloc.gives k.calls) can.not_null r.child
          r.parent differ)
        (
          refl,
          (record d' { user_context = u; parent = p }, rw here refl, refl, refl, refl),
          rw far r.parent,
        )

  -- `Fork` returns twice: where it succeeds for the parent as `fork-Forked` says, and the next pid
  -- is not the parent's, the child, made the current process in the state that it leaves, goes on
  -- behind the switch and returns 0 too, with the parent's context but a result of 0, the parent
  -- as its `parent` and the parent's pid as `ppid`; and the parent still has the child among its
  -- children and the child's pid as its result.
  pub fork_twice :
      length (held max_pt_len 0 c.ptbr) + 2 ≤ k.memory.free_nframes
      → k.new_pid k.pids ≢ c.pid
      → Returns
          (λ r t. Returns ChildReturned (fork_resumed p ch (record t { current_process = ch })))
          (fork k)
  fork_twice enough differ =
      mono (λ r t. (r ≡ returned (pos 0)) × Forked k i c e e' t) _ (fork k)
        (fork-Forked k i c e e' can enough) (λ r t (_, done). child_returned t differ done)
