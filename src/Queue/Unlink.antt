-- ===== src/Queue/Unlink.antt =====
-- The body of the loop of `queueRemove` (src/queue.c): unlinking one node.
use mathlib.Core.Option
use tiny_kernels.Prelude.{
  ◌≡◌, ◌≢◌, refl, sym, ap, ◌∙◌, ◌⊎◌, inl, inr, Option, none, some, [], ◌∷◌, ◌++◌, arith, ◌==◌,
  if◌then◌else◌,
}
use tiny_kernels.Prelude.Run.{ok, Returns}
use tiny_kernels.Queue.{Ptr, null, QueueNode, QueueEnds, node, Store, write, unlink}
use tiny_kernels.Queue.Seg.{
  Cells, Nodes, first, last, Seg, ◌∈◌, ◌∉◌, Disjoint, IsQueue, Spares, is_node-append, first-append,
  last-append, last_split, last_cases, null-not-mem, cut, append, relink_last, relink_first,
}

abbrev with_next : Ptr → QueueNode → QueueNode
with_next q n = record n { next = q }

abbrev with_prev : Ptr → QueueNode → QueueNode
with_prev q n = record n { prev = q }

relinked_snoc :
    (h g : Nodes) (zs : Cells) (p v s q : Ptr)
    → Seg h null (zs ++ (p, v) ∷ []) s
    → ((a : Ptr)
        → a ∈ zs ++ (p, v) ∷ []
        → g a
          ≡ (if a == last null (zs ++ (p, v) ∷ []) then Option.map (with_next q) (h a) else h a))
    → Seg g null (zs ++ (p, v) ∷ []) q
relinked_snoc h g zs p v s q seg change =
    let (front, (ne, nv, e, _, _), apart) = cut h null zs ((p, v) ∷ []) s seg in
    let at_last = last-append null zs ((p, v) ∷ []) in
    relink_last h g null zs p v s q seg
      (ground (arith, change p, at_last, is_node-append p zs ((p, v) ∷ [])))
      (λ a i. ground (arith, change a, at_last, apart a, is_node-append a zs ((p, v) ∷ [])))

-- A segment whose last node was given the successor `q`.
relinked_last :
    (h g : Nodes) (ys : Cells) (s q : Ptr)
    → Seg h null ys s
    → ((a : Ptr)
        → a ∈ ys
        → g a ≡ (if a == last null ys then Option.map (with_next q) (h a) else h a))
    → Seg g null ys q
relinked_last h g ys s q seg change = go ys (last_split ys) seg change
  where
    go :
        (xs : Cells)
        → (xs ≡ []) ⊎ ((zs : Cells) × (p : Ptr) × (v : Ptr) × (xs ≡ zs ++ (p, v) ∷ []))
        → Seg h null xs s
        → ((a : Ptr)
            → a ∈ xs
            → g a ≡ (if a == last null xs then Option.map (with_next q) (h a) else h a))
        → Seg g null xs q
    go xs (inl e) seg change = rw e tt
    go xs (inr (zs, p, v, e)) seg change =
        rw e (relinked_snoc h g zs p v s q (rw e at seg) (rw e at change))

-- A segment whose first node was given the predecessor `b'`.
relinked_first :
    (h g : Nodes) (b b' : Ptr) (zs : Cells)
    → Seg h b zs null
    → ((a : Ptr)
        → a ∈ zs
        → g a ≡ (if a == first zs null then Option.map (with_prev b') (h a) else h a))
    → Seg g b' zs null
relinked_first h g b b' [] seg change = tt
relinked_first h g b b' ((p, v) ∷ zs) (ne, nv, e, out, seg) change =
    relink_first h g b b' p v zs null (ne, nv, e, out, seg) (ground (arith, change p))
      (λ a i. ground (arith, change a))

module _ (s : Store) (queue : Ptr) (p b q : Ptr) where
  next_relinked : Nodes
  unfolding write
  next_relinked =
      if b == null then s.nodes else write s.nodes b (Option.map (with_next q) (s.nodes b))

  prev_relinked : Nodes
  unfolding next_relinked
  prev_relinked =
      if q == null
      then next_relinked
      else write next_relinked q (Option.map (with_prev b) (next_relinked q))

  head_relinked : (hd tl : Ptr) → Ptr → Option QueueEnds
  unfolding write
  head_relinked hd tl =
      if b == null then write s.queues queue (some (record { head = q; tail = tl })) else s.queues

  queues_relinked : (hd tl : Ptr) → Ptr → Option QueueEnds
  unfolding head_relinked
  queues_relinked hd tl =
      if q == null
      then write (head_relinked hd tl) queue
          (some (record { head = if b == null then q else hd; tail = b }))
      else head_relinked hd tl

  unlinked : (hd tl : Ptr) → Store
  unfolding prev_relinked queues_relinked
  unlinked hd tl = record { nodes = write prev_relinked p none; queues = queues_relinked hd tl }

  unlink-unlinked :
      (v hd tl : Ptr) (at_b at_q : QueueNode)
      → queue ≢ null
      → p ≢ null
      → s.queues queue ≡ some (record { head = hd; tail = tl })
      → s.nodes p ≡ some (node v q b)
      → (b ≢ null → s.nodes b ≡ some at_b)
      → (q ≢ null → s.nodes q ≡ some at_q)
      → b ≢ p
      → q ≢ p
      → (b ≡ q → b ≡ null)
      → unlink queue p (node v q b) s ≡ ok tt (unlinked hd tl)
  unfolding unlink unlinked
  unlink-unlinked v hd tl at_b at_q nq np ends at_p hb hq b_p q_p b_q = ground arith

  -- What the unlinking leaves at an address before the node, behind it, and elsewhere.
  at_front :
      (a : Ptr)
      → a ≢ p
      → a ≢ null
      → a ≢ q
      → write prev_relinked p none a
        ≡ (if a == b then Option.map (with_next q) (s.nodes a) else s.nodes a)
  unfolding prev_relinked
  at_front a ap an aq = ground arith

  at_back :
      (a : Ptr)
      → a ≢ p
      → a ≢ null
      → a ≢ b
      → write prev_relinked p none a
        ≡ (if a == q then Option.map (with_prev b) (s.nodes a) else s.nodes a)
  unfolding prev_relinked
  at_back a ap an ab = ground arith

  at_ends :
      (hd tl : Ptr)
      → s.queues queue ≡ some (record { head = hd; tail = tl })
      → queues_relinked hd tl queue
        ≡ some (record { head = if b == null then q else hd; tail = if q == null then b else tl })
  unfolding queues_relinked
  at_ends hd tl e = ground arith

  at_others :
      (a : Ptr)
      → a ≢ p
      → (b ≢ null → a ≢ b)
      → (q ≢ null → a ≢ q)
      → write prev_relinked p none a ≡ s.nodes a
  unfolding prev_relinked
  at_others a ap ab aq = ground arith

  at_queues : (hd tl : Ptr) (a : Ptr) → a ≢ queue → queues_relinked hd tl a ≡ s.queues a
  unfolding queues_relinked
  at_queues hd tl a ne = ground arith

-- The ends of a segment hold nodes.
node_at_last :
    (h : Nodes) (b : Ptr) (ys : Cells) (s : Ptr)
    → Seg h b ys s
    → (n : QueueNode) × (last b ys ≢ b → h (last b ys) ≡ some n)
node_at_last h b [] s seg = (node null null null, λ ne. absurd (ne refl))
node_at_last h b ((p, v) ∷ []) s (ne, nv, e, out, seg) = (node v s b, λ _. e)
node_at_last h b ((p, v) ∷ (q, w) ∷ ys) s (ne, nv, e, out, seg) =
    let (n, at) = node_at_last h p ((q, w) ∷ ys) s seg in
    (n, λ _. at (ground (arith, last_cases q ys)))

node_at_first :
    (h : Nodes) (b : Ptr) (zs : Cells)
    → Seg h b zs null
    → (n : QueueNode) × (first zs null ≢ null → h (first zs null) ≡ some n)
node_at_first h b [] seg = (node null null null, λ ne. absurd (ne refl))
node_at_first h b ((p, v) ∷ zs) (ne, nv, e, out, seg) = (node v (first zs null) b, λ _. e)

first_cases : (zs : Cells) → (first zs null ≡ null) ⊎ (first zs null ∈ zs)
first_cases [] = inl refl
first_cases ((p, v) ∷ zs) = inr (ground arith)

-- The ends of a queue with a node left out.
last_skip :
    (h : Nodes) (p b : Ptr) (zs : Cells)
    → Seg h p zs null
    → last b zs ≡ (if first zs null == null then b else last p zs)
last_skip h p b [] seg = refl
last_skip h p b ((q, w) ∷ zs) (ne, _, _, _, _) = ground arith

last-ne-null :
    (h : Nodes) (p : Ptr) (ys : Cells) (s : Ptr) → p ≢ null → Seg h p ys s → last p ys ≢ null
last-ne-null h p [] s ne seg = ne
last-ne-null h p ((q, w) ∷ ys) s ne (nq, _, _, _, seg) = last-ne-null h q ys s nq seg

first_skip :
    (h : Nodes) (ys : Cells) (s x y : Ptr)
    → Seg h null ys s
    → first ys x ≡ (if last null ys == null then x else first ys y)
first_skip h [] s x y seg = refl
first_skip h ((p, v) ∷ ys) s x y (ne, nv, e, out, seg) =
    ground (arith, last-ne-null h p ys s ne seg)

abbrev pub Unlinked : Store → Ptr → Cells → (p v : Ptr) → Cells → Store → Type 0
Unlinked s queue ys p v zs t =
    IsQueue t queue (ys ++ zs) × (t.nodes p ≡ none) × Spares queue (ys ++ (p, v) ∷ zs) s t

module _ (s : Store) (queue : Ptr) (ys : Cells) (p v : Ptr) (zs : Cells)
    (is : IsQueue s queue (ys ++ (p, v) ∷ zs)) where
  abbrev b : Ptr
  b = last null ys

  abbrev q : Ptr
  q = first zs null

  abbrev around : Cells
  around = ys ++ (p, v) ∷ zs

  left : Store
  unfolding unlinked
  left = unlinked s queue p b q (first around null) (last null around)

  unlink-left : unlink queue p (node v q b) s ≡ ok tt left
  unfolding left
  unlink-left =
      let (front, (np, nv, at_p, out, seg), apart) =
        cut s.nodes null ys ((p, v) ∷ zs) null is.chain in
      let (nb, at_b) = node_at_last s.nodes null ys p front in
      let (nq, at_q) = node_at_first s.nodes p zs seg in
      let b_cases = last_cases null ys in
      let q_cases = first_cases zs in
      unlink-unlinked s queue p b q v (first around null) (last null around) nb nq is.ne_null np
        is.ends at_p at_b at_q (ground (arith, apart b)) (ground arith) (ground (arith, apart b))

  left_ends :
      left.queues queue
      ≡ some (record { head = first (ys ++ zs) null; tail = last null (ys ++ zs) })
  unfolding left
  left_ends =
      at_ends s queue p b q (first around null) (last null around) is.ends
      ∙ ap some (λ i. record { head = eh i; tail = et i })
    where
      parts : Seg s.nodes null ys p × Seg s.nodes b ((p, v) ∷ zs) null × Disjoint ys ((p, v) ∷ zs)
      parts = cut s.nodes null ys ((p, v) ∷ zs) null is.chain

      eh : (if b == null then q else first around null) ≡ first (ys ++ zs) null
      eh =
          ap (λ x. if b == null then q else x) (first-append ys ((p, v) ∷ zs) null)
          ∙ sym (first_skip s.nodes ys p q p parts.0)
          ∙ sym (first-append ys zs null)

      et : (if q == null then b else last null around) ≡ last null (ys ++ zs)
      et =
          ap (λ x. if q == null then b else x) (last-append null ys ((p, v) ∷ zs))
          ∙ sym (last_skip s.nodes p b zs parts.1.4)
          ∙ sym (last-append null ys zs)

  left_chain : Seg left.nodes null (ys ++ zs) null
  unfolding left
  left_chain =
      let (front, (np, nv, at_p, out, seg), apart) =
        cut s.nodes null ys ((p, v) ∷ zs) null is.chain in
      let no_null = null-not-mem s.nodes null ys p front in
      let no_null' = null-not-mem s.nodes p zs null seg in
      let q_cases = first_cases zs in
      let b_cases = last_cases null ys in
      append _ null ys zs null
        (relinked_last s.nodes _ ys p q front (λ a i.
          at_front s queue p b q a (ground (arith, apart a)) (ground arith)
            (ground (arith, apart a))))
        (relinked_first s.nodes _ p b zs seg
          (λ a i. at_back s queue p b q a (ground arith) (ground arith) (ground (arith, apart b))))
        (λ a i. ground (arith, apart a))

  -- Unlinking the node between `ys` and `zs`.
  pub unlink-Unlinked : Returns (λ _. Unlinked s queue ys p v zs) (unlink queue p (node v q b) s)
  unfolding left write
  unlink-Unlinked =
      let b_cases = last_cases null ys in
      let q_cases = first_cases zs in
      rw unlink-left (
        record { ne_null = is.ne_null; ends = left_ends; chain = left_chain },
        ground arith,
        (
          λ a o.
              let apart : (a ∉ ys) × (a ∉ (p, v) ∷ zs) =
                ground (arith, is_node-append a ys ((p, v) ∷ zs)) in
              at_others s queue p b q a (ground arith) (λ nb. ground arith) (λ nq. ground arith),
          at_queues s queue p b q (first around null) (last null around),
        ),
      )
