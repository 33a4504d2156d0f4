-- ===== src/Process/Exits.antt =====
-- `Exit` of src/syscalls/process.c: the zombie, its parent, and the process that runs next.
use tiny_kernels.Prelude.{
  ◌+◌, ◌≡◌, ◌≢◌, refl, ◌∙◌, ap, true, false, some, List, [], ◌∷◌, ◌++◌, arith, ◌==◌, if◌then◌else◌,
  length, inl, inr, Bool-cases,
}
use tiny_kernels.Prelude.Int.{ℤ, pos, eq_ℤ}
use tiny_kernels.Prelude.Run.{Run, fault, out_of_fuel, and_then, ok, halted, Returns, bind}
use tiny_kernels.Hardware.{Pte, max_pt_len}
use tiny_kernels.Kernel.{
  Ptr, null, Pcb, proc_running, proc_ready, proc_zombie, kc_switch, after_exit, Kernel, Flow,
  switched, rest, switch_to, next_process,
}
use tiny_kernels.Kernel.Scheduling.{
  HasMemory, Loaded, with_pcb, load-ok, update-ok, write_pcb-if, enqueue_zombie, next_process-ok,
}
use tiny_kernels.Kernel.Switching.{Runnable, Switched, kc_switch-Switched}
use tiny_kernels.Process.{delete_pcb, wake_parent, exit}
use tiny_kernels.Process.Reap.{Deleted, delete_pcb-Deleted}

then_halted :
    (P : Unit {0} → Kernel → Type 0) (r : Run Kernel (Unit {0}))
    → Returns P r
    → and_then {B = Flow} r (λ _ _. halted) ≡ halted
then_halted P (ok a s) h = refl
then_halted P halted h = absurd h
then_halted P fault h = absurd h
then_halted P out_of_fuel h = absurd h

-- `Exit` of the process with pid 1 halts the machine.
pub exit-init :
    (status : ℤ) (k : Kernel) (c : Pcb)
    → k.current_process ≢ null
    → k.pcbs k.current_process ≡ some c
    → Loaded k c.children_processes
    → eq_ℤ c.pid (pos 1) ≡ true
    → exit status k ≡ halted
unfolding exit
exit-init status k c ne at l init =
    rw (load-ok k.current_process c k ne at, init)
      (then_halted (λ _. Deleted k k.current_process c) (delete_pcb k.current_process k)
        (delete_pcb-Deleted k.current_process c k ne at l))

-- The PCB of the parent after the exit of a child.
abbrev pub woken : Pcb → Pcb
woken c =
    if eq_ℤ c.waiting_for_child_pid (pos 0)
    then c
    else record c { state = proc_ready; waiting_for_child_pid = pos 0 }

abbrev pub with_woken : Pcb → Ptr → List Ptr → List Ptr
with_woken c parent q = if eq_ℤ c.waiting_for_child_pid (pos 0) then q else q ++ parent ∷ []

abbrev pub zombified : ℤ → Pcb → Pcb
zombified status c = record c { exit_status = status; state = proc_zombie }

-- The process with the PCB `c` exits; its parent has the PCB `d`, and `next` is the first ready one.
pub record CanExit (k : Kernel) (c d : Pcb) (next : Ptr) (q : List Ptr) : Type 0 where
  pub room : HasMemory k
  pub not_init : eq_ℤ c.pid (pos 1) ≡ false
  pub has_parent : c.parent ≢ null
  pub parent_at : k.pcbs c.parent ≡ some d
  pub parent_apart : c.parent ≢ k.current_process
  pub first : k.ready_queue ≡ next ∷ q
  pub next_apart : k.current_process ≢ next
  pub next_not_parent : next ≢ c.parent
  pub size : length k.memory.pt_region0 ≡ max_pt_len

pub record Exited (status : ℤ) (k : Kernel) (c d : Pcb) (next : Ptr) (n : Pcb) (q : List Ptr)
    (t : Kernel) : Type 0 where
  pub current : t.current_process ≡ next
  pub zombie :
      t.pcbs k.current_process ≡ some (record (zombified status c) { kernel_context = after_exit })
  pub parent : t.pcbs c.parent ≡ some (woken d)
  pub resumed : t.pcbs next ≡ some (record n { state = proc_running })
  pub ready_queue : t.ready_queue ≡ with_woken d c.parent q
  pub zombie_queue : t.zombie_queue ≡ k.zombie_queue ++ k.current_process ∷ []
  pub blocked_queue : t.blocked_queue ≡ k.blocked_queue
  pub frames : t.memory.frame_table ≡ k.memory.frame_table

-- What `wake_parent` leaves.
abbrev after_wake : Kernel → Ptr → Pcb → Kernel
after_wake k parent d =
    if eq_ℤ d.waiting_for_child_pid (pos 0)
    then k
    else record (with_pcb k parent
        (record d { state = proc_ready; waiting_for_child_pid = pos 0 })) {
          calls = k.calls + 1;
          ready_queue = k.ready_queue ++ parent ∷ [];
        }

wake_parent-ok :
    (parent : Ptr) (d : Pcb) (k : Kernel)
    → HasMemory k
    → parent ≢ null
    → k.pcbs parent ≡ some d
    → wake_parent parent k ≡ ok tt (after_wake k parent d)
unfolding wake_parent
wake_parent-ok parent d k room ne at =
    let here : (parent == null) ≡ false = ground (arith, ne) in
    elim (Bool-cases (eq_ℤ d.waiting_for_child_pid (pos 0))) [
      | inl e ↦ rw (here, load-ok parent d k ne at, e) refl
      | inr e ↦
          let waking =
            λ (x : Pcb). record x { state = proc_ready; waiting_for_child_pid = pos 0 } in
          let got : (k.malloc k.calls == null) ≡ false = ground (arith, room.gives k.calls) in
          rw
            (
              here,
              load-ok parent d k ne at,
              e,
              update-ok parent waking d k ne at,
              got,
              room.stays k.calls k.memory,
            )
            refl
    ]

module _ (k : Kernel) (parent : Ptr) (d : Pcb) (at : k.pcbs parent ≡ some d) where
  after_wake-pcbs :
      (a : Ptr)
      → (after_wake k parent d).pcbs a ≡ (if a == parent then some (woken d) else k.pcbs a)
  after_wake-pcbs a = elim (Bool-cases (eq_ℤ d.waiting_for_child_pid (pos 0))) [
    | inl e ↦ rw e (elim (Bool-cases (a == parent)) [
      | inl s ↦ let q : a ≡ parent = ground arith in rw (s, q) at
      | inr s ↦ rw s refl
    ])
    | inr e ↦ rw e (write_pcb-if k.pcbs parent _ a)
  ]

  after_wake-ready : (after_wake k parent d).ready_queue ≡ with_woken d parent k.ready_queue
  after_wake-ready = elim (Bool-cases (eq_ℤ d.waiting_for_child_pid (pos 0))) [
    | inl e ↦ rw e refl
    | inr e ↦ rw e refl
  ]

  after_wake-rest :
      ((after_wake k parent d).zombie_queue ≡ k.zombie_queue)
      × ((after_wake k parent d).blocked_queue ≡ k.blocked_queue)
      × ((after_wake k parent d).memory ≡ k.memory)
  after_wake-rest = elim (Bool-cases (eq_ℤ d.waiting_for_child_pid (pos 0))) [
    | inl e ↦ rw e (refl, refl, refl)
    | inr e ↦ rw e (refl, refl, refl)
  ]

with_woken-cons :
    (d : Pcb) (parent next : Ptr) (q : List Ptr)
    → with_woken d parent (next ∷ q) ≡ next ∷ with_woken d parent q
with_woken-cons d parent next q = elim (Bool-cases (eq_ℤ d.waiting_for_child_pid (pos 0))) [
  | inl e ↦ rw e refl
  | inr e ↦ rw e refl
]

module _ (status : ℤ) (k : Kernel) (c : Pcb) (e' f' : Pte) (d : Pcb) (next : Ptr) (n : Pcb)
    (e f : Pte) (q : List Ptr) (from : Runnable k k.current_process c e' f')
    (to : Runnable k next n e f) (can : CanExit k c d next q) where
  abbrev curr : Ptr
  curr = k.current_process

  abbrev k1 : Kernel
  k1 = record k { calls = k.calls + 1; zombie_queue = k.zombie_queue ++ curr ∷ [] }

  abbrev k2 : Kernel
  k2 = with_pcb k1 curr (zombified status c)

  abbrev k3 : Kernel
  k3 = after_wake k2 c.parent d

  abbrev k4 : Kernel
  k4 = record k3 { ready_queue = with_woken d c.parent q }

  parent_at : k2.pcbs c.parent ≡ some d
  parent_at =
      rw (write_pcb-if k.pcbs curr (some (zombified status c)) c.parent)
        (ground (arith, can.parent_at, can.parent_apart))

  pcbs4 :
      (a : Ptr)
      → k4.pcbs a ≡ (
          if a == c.parent
          then some (woken d)
          else if a == curr
          then some (zombified status c)
          else k.pcbs a)
  pcbs4 a =
      after_wake-pcbs k2 c.parent d parent_at a
      ∙ ap (λ o. if a == c.parent then some (woken d) else o)
          (write_pcb-if k.pcbs curr (some (zombified status c)) a)

  ready3 : k3.ready_queue ≡ next ∷ with_woken d c.parent q
  ready3 =
      after_wake-ready k2 c.parent d parent_at
      ∙ ap (with_woken d c.parent) can.first
      ∙ with_woken-cons d c.parent next q

  next_found : next_process k3 ≡ ok next k4
  next_found =
      next_process-ok k3
      ∙ ap (λ r. ok (elim r [ [] ↦ k3.idle_proc | p ∷ _ ↦ p ]) (record k3 { ready_queue = rest r }))
          ready3

  left : Runnable k4 curr (zombified status c) e' f'
  left = record {
    not_null = from.not_null;
    at = pcbs4 curr ∙ ground (arith, can.parent_apart);
    kstack = from.kstack;
  }

  right : Runnable k4 next n e f
  right = record {
    not_null = to.not_null;
    at = pcbs4 next ∙ ground (arith, to.at, can.next_apart, can.next_not_parent);
    kstack = to.kstack;
  }

  exit-ok : exit status k ≡ switch_to after_exit curr next k4
  unfolding exit
  exit-ok =
      rw
        (
          load-ok curr c k from.not_null from.at,
          can.not_init,
          enqueue_zombie curr k from.not_null can.room,
          update-ok curr (zombified status) c k1 from.not_null from.at,
          wake_parent-ok c.parent d k2 can.room can.has_parent parent_at,
          next_found,
        )
        refl

  size : length k4.memory.pt_region0 ≡ max_pt_len
  size =
      let (_, _, same) = after_wake-rest k2 c.parent d parent_at in
      ap (λ m. length m.pt_region0) same ∙ can.size

  -- `Exit` of a process whose pid is not 1 and whose parent has a PCB: the process goes to the end
  -- of the zombie queue, in state ZOMBIE, with its exit status; the parent is put at the end of
  -- the ready queue, in state READY and with `waiting_for_child_pid` cleared, exactly where
  -- `waiting_for_child_pid` is not 0, and stays as it is otherwise; the first of the ready queue
  -- runs. The frame table and the blocked queue are unchanged. The conditions: `malloc` does not
  -- fail and does not move the break of the heap, the ready queue is not empty, its first process
  -- is neither of the two, which differ, it and the exiting process have a kernel stack of two
  -- pages, and the table of region 0 is whole.
  pub exit-Exited : Returns (λ r t. (r ≡ switched) × Exited status k c d next n q t) (exit status k)
  unfolding switch_to
  exit-Exited =
      let (zombies, blocked, same) = after_wake-rest k2 c.parent d parent_at in
      rw exit-ok (
        bind (λ _. Switched after_exit k4 curr (zombified status c) next n e f)
          (λ r t. (r ≡ switched) × Exited status k c d next n q t)
          (kc_switch after_exit curr next k4) _
          (kc_switch-Switched after_exit k4 curr (zombified status c) e' f' next n e f left right
            can.next_apart size)
          λ _ t s. (
            refl,
            record {
              current = s.current;
              zombie = ground (arith, s.pcbs curr, can.next_apart);
              parent =
                  s.pcbs c.parent
                  ∙ ground (arith, pcbs4 c.parent, can.next_not_parent, can.parent_apart);
              resumed = ground (arith, s.pcbs next);
              ready_queue = s.ready_queue;
              zombie_queue = s.zombie_queue ∙ zombies;
              blocked_queue = s.blocked_queue ∙ blocked;
              frames = s.frames ∙ ap (λ m. m.frame_table) same;
            },
          ))
