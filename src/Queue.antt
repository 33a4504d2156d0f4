-- ===== src/Queue.antt =====
-- src/queue.c and src/include/queue.h: the doubly linked queues of processes, over an explicit
-- heap of `QueueNode_t` and `queue_t` objects. A process is the address of its PCB, and the
-- address 0 is NULL. `malloc` is not the kernel's: each allocating function takes what it returns,
-- an unused address or NULL, as its argument `fresh`. A loop takes fuel: the number of its rounds.
pub mod Seg
pub mod Enqueue
pub mod Dequeue
pub mod Unlink
pub mod Remove
pub mod Lookup
pub mod Iterate
pub mod Delete
use tiny_kernels.Prelude.{ℕ, zero, suc, Bool, true, false, Option, none, some, ◌==◌, if◌then◌else◌}
use tiny_kernels.Prelude.Run.{Cmd, ok, pure, halt, undefined, stuck, or_fault, ◌>>=◌, ◌>>◌}

abbrev pub Ptr : Type 0
Ptr = ℕ

abbrev pub null : Ptr
null = 0

-- `QueueNode_t`
pub record QueueNode : Type 0 where
  pub process : Ptr
  pub next : Ptr
  pub prev : Ptr

-- `queue_t`
pub record QueueEnds : Type 0 where
  pub head : Ptr
  pub tail : Ptr

abbrev pub node : Ptr → Ptr → Ptr → QueueNode
node process next prev = record { process = process; next = next; prev = prev }

pub record Store : Type 0 where
  pub nodes : Ptr → Option QueueNode
  pub queues : Ptr → Option QueueEnds

unfoldable pub write : {A : Type 0} → (Ptr → Option A) → Ptr → Option A → Ptr → Option A
write h p c a = if a == p then c else h a

-- `*node`: a fault at NULL and at an address that holds no node.
unfoldable pub load : Ptr → Cmd Store QueueNode
load p s = if p == null then undefined s else or_fault (s.nodes p) s

unfoldable pub store : Ptr → Option QueueNode → Cmd Store (Unit {0})
store p c s = ok tt (record s { nodes = write s.nodes p c })

unfoldable pub set_next : Ptr → Ptr → Cmd Store (Unit {0})
unfolding load store
set_next p q = do n ← load p; store p (some (record n { next = q }))

unfoldable pub set_prev : Ptr → Ptr → Cmd Store (Unit {0})
unfolding load store
set_prev p q = do n ← load p; store p (some (record n { prev = q }))

-- `free` of a node faults where `load` does.
unfoldable pub free_node : Ptr → Cmd Store (Unit {0})
unfolding load store
free_node p = do load p; store p none

unfoldable pub load_queue : Ptr → Cmd Store QueueEnds
load_queue q s = if q == null then undefined s else or_fault (s.queues q) s

unfoldable pub store_queue : Ptr → Option QueueEnds → Cmd Store (Unit {0})
store_queue q c s = ok tt (record s { queues = write s.queues q c })

-- `newNode`: the address of a cleared node, or NULL.
pub new_node : (fresh : Ptr) → Cmd Store Ptr
unfolding store
new_node fresh =
    if fresh == null then pure null else do store fresh (some (node null null null)); pure fresh

-- `queueCreate`
pub queue_create : (fresh : Ptr) → Cmd Store Ptr
unfolding store_queue
queue_create fresh =
    if fresh == null
    then pure null
    else do store_queue fresh (some (record { head = null; tail = null })); pure fresh

-- The body of the loop of `queueRemove` at the node that holds the process.
pub unlink : (queue p : Ptr) → QueueNode → Cmd Store (Unit {0})
unfolding load_queue store_queue set_next set_prev free_node
unlink queue p n = do
  q ← load_queue queue
  if n.prev == null
      then store_queue queue (some (record q { head = n.next }))
      else set_next n.prev n.next
  q ← load_queue queue
  if n.next == null
      then store_queue queue (some (record q { tail = n.prev }))
      else set_prev n.next n.prev
  free_node p

-- The loop of `queueRemove` from the node at `p`.
pub remove_loop : ℕ → (queue process p : Ptr) → Cmd Store (Unit {0})
unfolding load unlink
remove_loop zero queue process p = stuck
remove_loop (suc k) queue process p = if p == null then pure tt else do
  n ← load p
  if n.process == process then unlink queue p n else remove_loop k queue process n.next

pub queue_remove : (fuel : ℕ) → (queue process : Ptr) → Cmd Store (Unit {0})
unfolding load_queue remove_loop
queue_remove fuel queue process =
    if queue == null
    then halt
    else if process == null
    then halt
    else do q ← load_queue queue; remove_loop fuel queue process q.head

-- `queueEnqueue`: where no node can be allocated the queue stays as it is.
pub queue_enqueue : (fresh queue process : Ptr) → Cmd Store (Unit {0})
unfolding new_node load_queue store_queue store set_next
queue_enqueue fresh queue process =
    if queue == null then halt else if process == null then halt else do
      p ← new_node fresh
      if p == null then pure tt else do
        q ← load_queue queue
        store p (some (node process null q.tail))
        if q.head == null
            then store_queue queue (some (record q { head = p }))
            else set_next q.tail p
        q ← load_queue queue
        store_queue queue (some (record q { tail = p }))

-- `queueDequeue`: NULL from an empty queue.
pub queue_dequeue : (queue : Ptr) → Cmd Store Ptr
unfolding load_queue load store_queue set_prev free_node
queue_dequeue queue = if queue == null then halt else do
  q ← load_queue queue
  if q.head == null then pure null else do
    n ← load q.head
    store_queue queue
        (some (record { head = n.next; tail = if n.next == null then null else q.tail }))
    if n.next == null then pure tt else set_prev n.next null
    free_node q.head
    pure n.process

-- The loop of `queueIterate`: the next node is read before the call, which may free this one.
pub iterate_loop : ℕ → (Ptr → Cmd Store (Unit {0})) → (p : Ptr) → Cmd Store (Unit {0})
unfolding load
iterate_loop zero itemfunc p = stuck
iterate_loop (suc k) itemfunc p =
    if p == null then pure tt else do n ← load p; itemfunc n.process; iterate_loop k itemfunc n.next

-- `queueIterate` with an `itemfunc` that is not NULL.
pub queue_iterate : (fuel : ℕ) → (queue : Ptr) → (Ptr → Cmd Store (Unit {0})) → Cmd Store (Unit {0})
unfolding load_queue iterate_loop
queue_iterate fuel queue itemfunc =
    if queue == null then pure tt else do q ← load_queue queue; iterate_loop fuel itemfunc q.head

pub delete_loop : ℕ → (p : Ptr) → Cmd Store (Unit {0})
unfolding load free_node
delete_loop zero p = stuck
delete_loop (suc k) p =
    if p == null then pure tt else do n ← load p; free_node p; delete_loop k n.next

pub queue_delete : (fuel : ℕ) → (queue : Ptr) → Cmd Store (Unit {0})
unfolding load_queue store_queue delete_loop
queue_delete fuel queue =
    if queue == null
    then halt
    else do q ← load_queue queue; delete_loop fuel q.head; store_queue queue none

pub lookup_loop : ℕ → (process p : Ptr) → Cmd Store Bool
unfolding load
lookup_loop zero process p = stuck
lookup_loop (suc k) process p =
    if p == null
    then pure false
    else do n ← load p; if n.process == process then pure true else lookup_loop k process n.next

pub is_in_queue : (fuel : ℕ) → (queue process : Ptr) → Cmd Store Bool
unfolding load_queue lookup_loop
is_in_queue fuel queue process =
    if queue == null
    then halt
    else if process == null
    then halt
    else do q ← load_queue queue; lookup_loop fuel process q.head

pub is_empty : (queue : Ptr) → Cmd Store Bool
unfolding load_queue
is_empty queue = if queue == null then halt else do q ← load_queue queue; pure (q.head == null)
