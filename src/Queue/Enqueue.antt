-- ===== src/Queue/Enqueue.antt =====
-- `queueEnqueue` and `queueCreate` of src/queue.c.
use tiny_kernels.Prelude.{◌≡◌, ◌≢◌, refl, inl, inr, none, some, [], ◌∷◌, ◌++◌, arith}
use tiny_kernels.Prelude.Run.{ok, Returns}
use tiny_kernels.Queue.{Ptr, null, node, Store, write, queue_enqueue}
use tiny_kernels.Queue.Seg.{
  Cells, Nodes, first, last, Seg, IsQueue, Spares, last-append, first-append, not-mem_of_none, cut,
  append, relink_last, last_split, is_node-append,
}

-- A new node behind the last one, `p`, which is linked to it.
linked-Seg :
    (h g : Nodes) (fresh process : Ptr) (ys : Cells) (p v : Ptr)
    → fresh ≢ null
    → process ≢ null
    → h fresh ≡ none
    → Seg h null (ys ++ (p, v) ∷ []) null
    → g p ≡ some (node v fresh (last null ys))
    → g fresh ≡ some (node process null p)
    → ((a : Ptr) → a ≢ p → a ≢ fresh → g a ≡ h a)
    → Seg g null ((ys ++ (p, v) ∷ []) ++ (fresh, process) ∷ []) null
linked-Seg h g fresh process ys p v ne nv unused seg at_p at_fresh same =
    let out = not-mem_of_none h null (ys ++ (p, v) ∷ []) null fresh seg unused in
    let (front, _, apart) = cut h null ys ((p, v) ∷ []) null seg in
    append _ null (ys ++ (p, v) ∷ []) ((fresh, process) ∷ []) null
      (relink_last h g null ys p v null fresh seg at_p (λ a i.
        same a (ground (arith, apart a))
          (ground (arith, out, is_node-append fresh ys ((p, v) ∷ [])))))
      (ne, nv, rw (last-append null ys ((p, v) ∷ [])) at_fresh, refl, tt)
      (λ a i. ground (arith, out))

-- What is at the last node of a queue.
last-node :
    (h : Nodes) (ys : Cells) (p v : Ptr)
    → Seg h null (ys ++ (p, v) ∷ []) null
    → (h p ≡ some (node v null (last null ys))) × (p ≢ null) × (v ≢ null)
last-node h ys p v seg =
    let (_, (ne, nv, e, _, _), _) = cut h null ys ((p, v) ∷ []) null seg in (e, ne, nv)

first-ne-null :
    (h : Nodes) (b : Ptr) (ys : Cells) (p v : Ptr)
    → Seg h b (ys ++ (p, v) ∷ []) null
    → first (ys ++ (p, v) ∷ []) null ≢ null
first-ne-null h b [] p v seg = seg.0
first-ne-null h b (y ∷ ys) p v seg = seg.0

module _ (s : Store) (queue fresh process : Ptr) (ne : fresh ≢ null) (nv : process ≢ null)
    (unused : s.nodes fresh ≡ none) where
  enqueue_empty :
      IsQueue s queue []
      → Returns
          (λ _ t.
            IsQueue t queue ((fresh, process) ∷ []) × Spares queue ((fresh, process) ∷ []) s t)
          (queue_enqueue fresh queue process s)
  unfolding queue_enqueue write
  enqueue_empty is = ground arith

  -- The store after an append behind the node `p`.
  appended : (hd p v b : Ptr) → Store
  unfolding write
  appended hd p v b = record {
    nodes =
        write
          (write (write s.nodes fresh (some (node null null null))) fresh
            (some (node process null p)))
          p (some (node v fresh b));
    queues = write s.queues queue (some (record { head = hd; tail = fresh }));
  }

  enqueue-appended :
      (hd p v b : Ptr)
      → queue ≢ null
      → s.queues queue ≡ some (record { head = hd; tail = p })
      → hd ≢ null
      → p ≢ null
      → s.nodes p ≡ some (node v null b)
      → queue_enqueue fresh queue process s ≡ ok tt (appended hd p v b)
  unfolding queue_enqueue appended
  enqueue-appended hd p v b nq ends nh np at_p = ground arith

  enqueue_last :
      (ys : Cells) (p v : Ptr)
      → IsQueue s queue (ys ++ (p, v) ∷ [])
      → Returns
          (λ _ t.
            IsQueue t queue ((ys ++ (p, v) ∷ []) ++ (fresh, process) ∷ [])
            × Spares queue ((ys ++ (p, v) ∷ []) ++ (fresh, process) ∷ []) s t)
          (queue_enqueue fresh queue process s)
  unfolding appended write
  enqueue_last ys p v is =
      let xs = ys ++ (p, v) ∷ [] in
      let (at_p, np, _) = last-node s.nodes ys p v is.chain in
      let hd = first xs null in
      let nh = first-ne-null s.nodes null ys p v is.chain in
      let tail_p = last-append null ys ((p, v) ∷ []) in
      rw (enqueue-appended hd p v (last null ys) is.ne_null (rw tail_p at is.ends) nh np at_p) (
        record {
          ne_null = is.ne_null;
          ends = ground (
            arith,
            first-append xs ((fresh, process) ∷ []) null,
            last-append null xs ((fresh, process) ∷ []),
            first-append ys ((p, v) ∷ []) null,
            first-append ys ((p, v) ∷ []) fresh,
          );
          chain =
              linked-Seg s.nodes _ fresh process ys p v ne nv unused is.chain (ground arith)
                (ground arith) (ground arith);
        },
        (
          λ a o. ground (
            arith,
            is_node-append a xs ((fresh, process) ∷ []),
            is_node-append a ys ((p, v) ∷ []),
          ),
          ground arith,
        ),
      )

  -- `queueEnqueue` of a process that is not NULL, where `malloc` gives an unused address, returns.
  -- The queue then has a node with the process behind its other nodes, and no node outside the
  -- queue and no other queue has changed.
  pub queue_enqueue-append :
      (xs : Cells)
      → IsQueue s queue xs
      → Returns
          (λ _ t.
            IsQueue t queue (xs ++ (fresh, process) ∷ [])
            × Spares queue (xs ++ (fresh, process) ∷ []) s t)
          (queue_enqueue fresh queue process s)
  queue_enqueue-append xs is = elim (last_split xs) [
    | inl e ↦ rw e (enqueue_empty (rw e at is))
    | inr (ys, p, v, e) ↦ rw e (enqueue_last ys p v (rw e at is))
  ]

  -- Where `malloc` fails, `queueEnqueue` drops the process and changes nothing.
  pub queue_enqueue-null :
      (xs : Cells) → IsQueue s queue xs → queue_enqueue null queue process s ≡ ok tt s
  unfolding queue_enqueue
  queue_enqueue-null xs is = ground arith
