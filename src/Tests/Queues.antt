-- ===== src/Tests/Queues.antt =====
-- The queue theorems at a queue of three processes.
use tiny_kernels.Prelude.{
  ◌≡◌, ◌≢◌, refl, Option, none, some, [], ◌∷◌, ◌++◌, arith, ◌==◌, if◌then◌else◌,
}
use tiny_kernels.Prelude.Run.{Returns}
use tiny_kernels.Queue.{
  Ptr, QueueNode, node, Store, queue_enqueue, queue_dequeue, queue_remove, queue_iterate,
  queue_delete,
}
use tiny_kernels.Queue.Seg.{Cells, IsQueue, Spares}
use tiny_kernels.Queue.Enqueue.{queue_enqueue-append}
use tiny_kernels.Queue.Dequeue.{Dequeued, queue_dequeue-first}
use tiny_kernels.Queue.Remove.{Removed, queue_remove-erase}
use tiny_kernels.Queue.Delete.{Without, queue_delete-Without}
use tiny_kernels.Queue.Iterate.{
  for_each, Remains, Remains-Chain, remove-LeavesRest, queue_iterate-for_each,
}

abbrev three_nodes : Ptr → Option QueueNode
three_nodes a =
    if a == 10
    then some (node 1 20 0)
    else if a == 20
    then some (node 2 30 10)
    else if a == 30
    then some (node 3 0 20)
    else none

abbrev three : Store
three = record {
  nodes = three_nodes;
  queues = λ a. if a == 100 then some (record { head = 10; tail = 30 }) else none;
}

abbrev cells : Cells
cells = (10, 1) ∷ (20, 2) ∷ (30, 3) ∷ []

three-IsQueue : IsQueue three 100 cells
three-IsQueue = record {
  ne_null = omega arith;
  ends = refl;
  chain = (
    omega arith,
    omega arith,
    refl,
    refl,
    (omega arith, omega arith, refl, refl, (omega arith, omega arith, refl, refl, tt)),
  );
}

queue_enqueue-append_example :
    Returns
      (λ _ t. IsQueue t 100 (cells ++ (40, 4) ∷ []) × Spares 100 (cells ++ (40, 4) ∷ []) three t)
      (queue_enqueue 40 100 4 three)
queue_enqueue-append_example =
    queue_enqueue-append three 100 40 4 (omega arith) (omega arith) refl cells three-IsQueue

queue_dequeue-first_example : Returns (Dequeued three 100 cells) (queue_dequeue 100 three)
queue_dequeue-first_example = queue_dequeue-first three 100 cells three-IsQueue

queue_remove-erase_example : Returns (λ _. Removed three 100 2 cells) (queue_remove 4 100 2 three)
queue_remove-erase_example =
    queue_remove-erase 4 three 100 2 cells (omega arith) three-IsQueue (omega arith)

queue_delete-Without_example :
    Returns
      (λ _ t.
        Without cells three.nodes t.nodes
        × (t.queues 100 ≡ none)
        × ((a : Ptr) → a ≢ 100 → t.queues a ≡ three.queues a))
      (queue_delete 4 100 three)
queue_delete-Without_example = queue_delete-Without 4 three 100 cells three-IsQueue (omega arith)

queue_iterate-for_each_example :
    queue_iterate 4 100 (queue_remove 4 100) three
    ≡ for_each (queue_remove 4 100) (1 ∷ 2 ∷ 3 ∷ []) three
queue_iterate-for_each_example =
    queue_iterate-for_each (Remains 4 100) (Remains-Chain 4 100) (queue_remove 4 100)
      (remove-LeavesRest 4 100) 4 three 100 cells (three-IsQueue, omega arith) three-IsQueue
      (omega arith)
