-- ===== src/Queue/Delete.antt =====
-- `queueDelete` of src/queue.c.
use tiny_kernels.Prelude.{
  ℕ, zero, suc, ◌<◌, ◌≡◌, ◌≢◌, refl, none, false, some, [], ◌∷◌, arith, ◌==◌, length, if◌then◌else◌,
}
use tiny_kernels.Prelude.Run.{Returns, bind, mono}
use tiny_kernels.Queue.{Ptr, null, QueueNode, Store, write, delete_loop, queue_delete}
use tiny_kernels.Queue.Seg.{Cells, Nodes, first, is_node, Seg, IsQueue, frame}

-- `g` is `h` less the nodes of `xs`.
abbrev pub Without : Cells → Nodes → Nodes → Type 0
Without xs h g = (a : Ptr) → g a ≡ (if is_node a xs then none else h a)

delete_loop_step :
    (k : ℕ) (s : Store) (p : Ptr) (n : QueueNode)
    → p ≢ null
    → s.nodes p ≡ some n
    → delete_loop (suc k) p s ≡ delete_loop k n.next (record s { nodes = write s.nodes p none })
unfolding delete_loop
delete_loop_step k s p n np at_p =
    let here : (p == null) ≡ false = ground arith in rw (here, here, at_p, here, at_p)

abbrev Freed : Cells → Store → Store → Type 0
Freed xs s t = Without xs s.nodes t.nodes × ((a : Ptr) → t.queues a ≡ s.queues a)

delete_loop-Freed :
    (k : ℕ) (s : Store) (b : Ptr) (xs : Cells)
    → Seg s.nodes b xs null
    → length xs < k
    → Returns (λ _. Freed xs s) (delete_loop k (first xs null) s)
delete_loop-Freed zero s b xs seg fuel = absurd (omega arith)
delete_loop-Freed (suc k) s b [] seg fuel = unfold delete_loop in (λ a. refl, λ a. refl)
delete_loop-Freed (suc k) s b ((p, v) ∷ xs) (np, nv, at_p, out, seg) fuel =
    rw (delete_loop_step k s p _ np at_p) (
      mono (λ _. Freed xs (record s { nodes = write s.nodes p none })) (λ _. Freed ((p, v) ∷ xs) s)
        _
        (delete_loop-Freed k (record s { nodes = write s.nodes p none }) p xs
          (frame s.nodes _ p xs null seg (λ a i. unfold write in ground arith)) (omega arith))
        λ _ t u. unfold write in (λ a. ground (arith, u.0 a), u.1))

-- `queueDelete` of a queue, with more fuel than it has nodes, returns; it frees every node of the
-- queue and the queue itself, and changes no other node and no other queue.
pub queue_delete-Without :
    (fuel : ℕ) (s : Store) (queue : Ptr) (xs : Cells)
    → IsQueue s queue xs
    → length xs < fuel
    → Returns
        (λ _ t.
          Without xs s.nodes t.nodes
          × (t.queues queue ≡ none)
          × ((a : Ptr) → a ≢ queue → t.queues a ≡ s.queues a))
        (queue_delete fuel queue s)
unfolding queue_delete write
queue_delete-Without fuel s queue xs is enough =
    let here : (queue == null) ≡ false = ground (arith, is) in
    rw (here, here, is.ends)
      (bind (λ _. Freed xs s) _ _ _ (delete_loop-Freed fuel s null xs is.chain enough)
        λ _ t u. (u.0, ground arith, λ a ne. ground (arith, u.1 a)))
