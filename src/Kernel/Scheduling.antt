-- ===== src/Kernel/Scheduling.antt =====
-- Lemmas on the shared operations of the kernel: PCBs, queues and allocation.
use tiny_kernels.Prelude.{
  ℕ, ◌+◌, ◌≡◌, ◌≢◌, refl, sym, ap, ◌∙◌, Bool, true, false, ◌||◌, Option, some, List, [], ◌∷◌, ◌++◌,
  arith, ◌==◌, if◌then◌else◌,
}
use tiny_kernels.Prelude.Run.{ok}
use tiny_kernels.Memory.{Memory}
use tiny_kernels.Kernel.{
  Ptr, null, Pcb, Kernel, ready, blocked, zombie, children, write_pcb, load, update, enqueue,
  dequeue, dequeue_process, next_process, head_or_null, rest, without,
}

-- No call of `malloc` fails.
abbrev pub NeverFails : Kernel → Type 0
NeverFails k = (n : ℕ) → k.malloc n ≢ null

-- No call of `malloc` moves the break of the heap, so that none changes the memory.
abbrev pub StaysPut : Kernel → Type 0
StaysPut k = (n : ℕ) (m : Memory) → k.heap n m ≡ m

-- The heap has room: no call of `malloc` fails, and none has to move the break.
pub record HasHeap (malloc : ℕ → Ptr) (heap : ℕ → Memory → Memory) : Type 0 where
  pub gives : (n : ℕ) → malloc n ≢ null
  pub stays : (n : ℕ) (m : Memory) → heap n m ≡ m

abbrev pub HasMemory : Kernel → Type 0
HasMemory k = HasHeap k.malloc k.heap

pub NeverFails-same : (k t : Kernel) → t.malloc ≡ k.malloc → NeverFails k → NeverFails t
NeverFails-same k t same room n z = room n (sym (ap (λ (f : ℕ → Ptr). f n) same) ∙ z)

pub StaysPut-same : (k t : Kernel) → t.heap ≡ k.heap → StaysPut k → StaysPut t
StaysPut-same k t same still n m = ap (λ (f : ℕ → Memory → Memory). f n m) same ∙ still n m

pub HasMemory-same :
    (k t : Kernel) → t.malloc ≡ k.malloc → t.heap ≡ k.heap → HasMemory k → HasMemory t
HasMemory-same k t same same' room = record {
  gives = NeverFails-same k t same room.gives;
  stays = StaysPut-same k t same' room.stays;
}

abbrev pub mem : Ptr → List Ptr → Bool
mem p [] = false
mem p (x ∷ xs) = (p == x) || mem p xs

abbrev pub Distinct : List Ptr → Type 0
Distinct [] = Unit
Distinct (p ∷ ps) = (mem p ps ≡ false) × Distinct ps

-- Each pointer is that of a PCB.
abbrev pub Loaded : Kernel → List Ptr → Type 0
Loaded k [] = Unit
Loaded k (p ∷ ps) = (p ≢ null) × ((c : Pcb) × (k.pcbs p ≡ some c)) × Loaded k ps

pub Loaded-cong :
    (k t : Kernel) (ps : List Ptr)
    → ((a : Ptr) → mem a ps ≡ true → t.pcbs a ≡ k.pcbs a)
    → Loaded k ps
    → Loaded t ps
Loaded-cong k t [] same l = tt
Loaded-cong k t (p ∷ ps) same (ne, (c, at), l) =
    (ne, (c, same p (ground arith) ∙ at), Loaded-cong k t ps (λ a i. same a (ground arith)) l)

abbrev pub with_pcb : Kernel → Ptr → Pcb → Kernel
with_pcb k p c = record k { pcbs = write_pcb k.pcbs p (some c) }

pub load-ok : (p : Ptr) (c : Pcb) (k : Kernel) → p ≢ null → k.pcbs p ≡ some c → load p k ≡ ok c k
unfolding load
load-ok p c k ne e = let here : (p == null) ≡ false = ground arith in rw (here, e)

pub update-ok :
    (p : Ptr) (g : Pcb → Pcb) (c : Pcb) (k : Kernel)
    → p ≢ null
    → k.pcbs p ≡ some c
    → update p g k ≡ ok tt (with_pcb k p (g c))
unfolding update
update-ok p g c k ne e = let here : (p == null) ≡ false = ground arith in rw (here, e)

pub write_pcb-if :
    (h : Ptr → Option Pcb) (p : Ptr) (c : Option Pcb) (a : Ptr)
    → write_pcb h p c a ≡ (if a == p then c else h a)
unfolding write_pcb
write_pcb-if h p c a = refl

-- Where `malloc` may move the break.
module _ (p : Ptr) (k : Kernel) (ne : p ≢ null) (room : NeverFails k) where
  pub enqueue_ready_moves :
      enqueue ready p k
      ≡ ok tt (record k {
        calls = k.calls + 1;
        memory = k.heap k.calls k.memory;
        ready_queue = k.ready_queue ++ p ∷ [];
      })
  unfolding enqueue
  enqueue_ready_moves =
      let here : (p == null) ≡ false = ground arith in
      let got : (k.malloc k.calls == null) ≡ false = ground (arith, room k.calls) in rw (here, got)

  pub enqueue_blocked_moves :
      enqueue blocked p k
      ≡ ok tt (record k {
        calls = k.calls + 1;
        memory = k.heap k.calls k.memory;
        blocked_queue = k.blocked_queue ++ p ∷ [];
      })
  unfolding enqueue
  enqueue_blocked_moves =
      let here : (p == null) ≡ false = ground arith in
      let got : (k.malloc k.calls == null) ≡ false = ground (arith, room k.calls) in rw (here, got)

module _ (p : Ptr) (k : Kernel) (ne : p ≢ null) (room : HasMemory k) where
  pub enqueue_ready :
      enqueue ready p k
      ≡ ok tt (record k { calls = k.calls + 1; ready_queue = k.ready_queue ++ p ∷ [] })
  unfolding enqueue
  enqueue_ready =
      let here : (p == null) ≡ false = ground arith in
      let got : (k.malloc k.calls == null) ≡ false = ground (arith, room.gives k.calls) in
      rw (here, got, room.stays k.calls k.memory)

  pub enqueue_zombie :
      enqueue zombie p k
      ≡ ok tt (record k { calls = k.calls + 1; zombie_queue = k.zombie_queue ++ p ∷ [] })
  unfolding enqueue
  enqueue_zombie =
      let here : (p == null) ≡ false = ground arith in
      let got : (k.malloc k.calls == null) ≡ false = ground (arith, room.gives k.calls) in
      rw (here, got, room.stays k.calls k.memory)

pub enqueue_children :
    (owner p : Ptr) (c : Pcb) (k : Kernel)
    → p ≢ null
    → owner ≢ null
    → k.pcbs owner ≡ some c
    → HasMemory k
    → enqueue (children owner) p k
      ≡ ok tt (
          with_pcb
            (record k { calls = k.calls + 1 })
            owner
            (record c { children_processes = c.children_processes ++ p ∷ [] }))
unfolding enqueue
enqueue_children owner p c k ne one at room =
    let here : (p == null) ≡ false = ground arith in
    let got : (k.malloc k.calls == null) ≡ false = ground (arith, room.gives k.calls) in
    rw
      (
        here,
        load-ok owner c k one at,
        got,
        room.stays k.calls k.memory,
        update-ok owner (λ x. record x { children_processes = c.children_processes ++ p ∷ [] }) c
            (record k { calls = k.calls + 1 }) one at,
      )
      refl

pub dequeue_ready :
    (k : Kernel)
    → dequeue ready k
      ≡ ok (head_or_null k.ready_queue) (record k { ready_queue = rest k.ready_queue })
unfolding dequeue
dequeue_ready k = refl

pub dequeue_process_blocked :
    (p : Ptr) (k : Kernel)
    → p ≢ null
    → dequeue_process blocked p k ≡ ok tt (record k { blocked_queue = without p k.blocked_queue })
unfolding dequeue_process
dequeue_process_blocked p k ne = let here : (p == null) ≡ false = ground arith in rw here

-- The process that runs next: the first ready one, or the idle process.
abbrev pub next_of : Kernel → Ptr
next_of k = elim k.ready_queue [ [] ↦ k.idle_proc | p ∷ q ↦ p ]

pub next_process-ok :
    (k : Kernel) → next_process k ≡ ok (next_of k) (record k { ready_queue = rest k.ready_queue })
unfolding next_process
next_process-ok k = ground arith
