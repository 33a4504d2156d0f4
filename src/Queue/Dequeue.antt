-- ===== src/Queue/Dequeue.antt =====
-- `queueCreate`, `queueDequeue` and `is_empty` of src/queue.c.
use tiny_kernels.Prelude.{◌≡◌, ◌≢◌, refl, Bool, true, false, none, some, [], ◌∷◌, arith}
use tiny_kernels.Prelude.Run.{ok, Returns}
use tiny_kernels.Queue.{Ptr, null, node, Store, write, queue_create, queue_dequeue, is_empty}
use tiny_kernels.Queue.Seg.{Cells, first, last, IsQueue, Spares, relink_first}

abbrev pub head_or_null : Cells → Ptr
head_or_null [] = null
head_or_null ((p, v) ∷ xs) = v

abbrev pub rest : Cells → Cells
rest [] = []
rest ((p, v) ∷ xs) = xs

abbrev pub is_nil : Cells → Bool
is_nil [] = true
is_nil (x ∷ xs) = false

-- What `queueDequeue` of a queue with the cells `xs` gives: the first process, or NULL where there
-- is none, a queue of the others in order, and the first node freed.
abbrev pub Dequeued : Store → Ptr → Cells → Ptr → Store → Type 0
Dequeued s queue xs r t =
    (r ≡ head_or_null xs)
    × IsQueue t queue (rest xs)
    × (first xs null ≢ null → t.nodes (first xs null) ≡ none)
    × Spares queue xs s t

module _ (s : Store) (queue : Ptr) where
  dequeue_nil : IsQueue s queue [] → Returns (Dequeued s queue []) (queue_dequeue queue s)
  unfolding queue_dequeue
  dequeue_nil is = ground arith

  dequeue_one :
      (p v : Ptr)
      → IsQueue s queue ((p, v) ∷ [])
      → Returns (Dequeued s queue ((p, v) ∷ [])) (queue_dequeue queue s)
  unfolding queue_dequeue write
  dequeue_one p v is = ground arith

  dequeued : (p q w n tl : Ptr) → Store
  unfolding write
  dequeued p q w n tl = record {
    nodes = write (write s.nodes q (some (node w n null))) p none;
    queues = write s.queues queue (some (record { head = q; tail = tl }));
  }

  dequeue-dequeued :
      (p v q w n tl : Ptr)
      → queue ≢ null
      → s.queues queue ≡ some (record { head = p; tail = tl })
      → p ≢ null
      → q ≢ null
      → p ≢ q
      → s.nodes p ≡ some (node v q null)
      → s.nodes q ≡ some (node w n p)
      → queue_dequeue queue s ≡ ok v (dequeued p q w n tl)
  unfolding queue_dequeue dequeued
  dequeue-dequeued p v q w n tl nq ends np nq' apart at_p at_q = ground arith

  dequeue_more :
      (p v q w : Ptr) (xs : Cells)
      → IsQueue s queue ((p, v) ∷ (q, w) ∷ xs)
      → Returns (Dequeued s queue ((p, v) ∷ (q, w) ∷ xs)) (queue_dequeue queue s)
  unfolding dequeued write
  dequeue_more p v q w xs is =
      let (np, nv, at_p, out, at_rest) = is.chain in
      let (nq, nw, at_q, out', seg) = at_rest in
      rw
        (dequeue-dequeued p v q w (first xs null) (last q xs) is.ne_null is.ends np nq
          (ground arith) at_p at_q)
        (
          refl,
          record {
            ne_null = is.ne_null;
            ends = ground arith;
            chain =
                relink_first s.nodes _ p null q w xs null at_rest (ground arith)
                  (λ a i. ground arith);
          },
          ground arith,
          (λ a o. ground arith, ground arith),
        )

  -- `queueDequeue` of a queue returns its first process, or NULL where it is empty. The queue then
  -- has the other nodes in order, the first node is freed, and no node outside the queue and no
  -- other queue has changed.
  pub queue_dequeue-first :
      (xs : Cells) → IsQueue s queue xs → Returns (Dequeued s queue xs) (queue_dequeue queue s)
  queue_dequeue-first [] is = dequeue_nil is
  queue_dequeue-first ((p, v) ∷ []) is = dequeue_one p v is
  queue_dequeue-first ((p, v) ∷ (q, w) ∷ xs) is = dequeue_more p v q w xs is

  -- `is_empty` says whether the queue holds no process.
  pub is_empty-nil : (xs : Cells) → IsQueue s queue xs → is_empty queue s ≡ ok (is_nil xs) s
  unfolding is_empty
  is_empty-nil [] is = ground arith
  is_empty-nil ((p, v) ∷ xs) is = ground arith

-- `queueCreate` at an unused address makes an empty queue there and touches nothing else.
pub queue_create-nil :
    (s : Store) (fresh : Ptr)
    → fresh ≢ null
    → Returns (λ r t. (r ≡ fresh) × IsQueue t fresh [] × Spares fresh [] s t) (queue_create fresh s)
unfolding queue_create write
queue_create-nil s fresh ne = ground arith
