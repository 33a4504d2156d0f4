-- ===== src/Queue/Seg.antt =====
-- What a chain of queue nodes stands for (src/queue.c): segments of doubly linked nodes, how writes
-- to their ends change them, and when a `queue_t` holds a list of processes.
use mathlib.Core.Bool.{or_assoc}
use tiny_kernels.Prelude.{
  ◌≡◌, ◌≢◌, refl, ◌⊎◌, inl, inr, Bool, true, false, ◌||◌, Option, none, some, List, [], ◌∷◌, ◌++◌,
  arith, ◌==◌,
}
use tiny_kernels.Queue.{Ptr, null, QueueNode, node, Store}

-- The address of each node and the process in it, in order.
abbrev pub Cells : Type 0
Cells = List (Ptr × Ptr)

abbrev pub Nodes : Type 0
Nodes = Ptr → Option QueueNode

abbrev pub is_node : Ptr → Cells → Bool
is_node a [] = false
is_node a ((p, v) ∷ xs) = (a == p) || is_node a xs

infix 40 ◌∈◌ ◌∉◌
abbrev pub ◌∈◌ : Ptr → Cells → Type 0
a ∈ xs = is_node a xs ≡ true

abbrev pub ◌∉◌ : Ptr → Cells → Type 0
a ∉ xs = is_node a xs ≡ false

-- The first address of the cells, or `stop`; the last one, or `b`.
abbrev pub first : Cells → Ptr → Ptr
first [] stop = stop
first ((p, v) ∷ xs) stop = p

abbrev pub last : Ptr → Cells → Ptr
last b [] = b
last b ((p, v) ∷ xs) = last p xs

-- Distinct nodes, each linked to the next one and back, from the one after `b` to the one before
-- `stop`.
abbrev pub Seg : Nodes → Ptr → Cells → Ptr → Type 0
Seg h b [] stop = Unit
Seg h b ((p, v) ∷ xs) stop =
    (p ≢ null) × (v ≢ null) × (h p ≡ some (node v (first xs stop) b)) × (p ∉ xs) × Seg h p xs stop

abbrev pub SameOutside : Cells → Nodes → Nodes → Type 0
SameOutside xs h g = (a : Ptr) → a ∉ xs → g a ≡ h a

abbrev pub Disjoint : Cells → Cells → Type 0
Disjoint xs ys = (a : Ptr) → a ∈ xs → a ∉ ys

abbrev pub processes : Cells → List Ptr
processes [] = []
processes ((p, v) ∷ xs) = v ∷ processes xs

pub is_node-append :
    (a : Ptr) (xs ys : Cells) → is_node a (xs ++ ys) ≡ (is_node a xs || is_node a ys)
is_node-append a [] ys = refl
is_node-append a (x ∷ xs) ys = rw (is_node-append a xs ys, or_assoc)

pub first-append : (xs ys : Cells) (s : Ptr) → first (xs ++ ys) s ≡ first xs (first ys s)
first-append [] ys s = refl
first-append (x ∷ xs) ys s = refl

pub last-append : (b : Ptr) (xs ys : Cells) → last b (xs ++ ys) ≡ last (last b xs) ys
last-append b [] ys = refl
last-append b ((p, v) ∷ xs) ys = last-append p xs ys

pub processes-append : (xs ys : Cells) → processes (xs ++ ys) ≡ processes xs ++ processes ys
processes-append [] ys = refl
processes-append ((p, v) ∷ xs) ys = rw (processes-append xs ys)

-- The last address is `b` itself or one of the cells.
pub last_cases : (b : Ptr) (xs : Cells) → (last b xs ≡ b) ⊎ (last b xs ∈ xs)
last_cases b [] = inl refl
last_cases b ((p, v) ∷ xs) = inr (ground (arith, last_cases p xs))

-- A segment survives any change that spares its own addresses.
pub frame :
    (h g : Nodes) (b : Ptr) (xs : Cells) (stop : Ptr)
    → Seg h b xs stop
    → ((a : Ptr) → a ∈ xs → g a ≡ h a)
    → Seg g b xs stop
frame h g b [] stop s same = tt
frame h g b ((p, v) ∷ xs) stop (ne, nv, e, out, s) same =
    (ne, nv, ground (arith, same p), out, frame h g p xs stop s (λ a i. same a (ground arith)))

pub not-mem_of_none :
    (h : Nodes) (b : Ptr) (xs : Cells) (stop a : Ptr) → Seg h b xs stop → h a ≡ none → a ∉ xs
not-mem_of_none h b [] stop a s unused = refl
not-mem_of_none h b ((p, v) ∷ xs) stop a (ne, nv, e, out, s) unused =
    ground (arith, not-mem_of_none h p xs stop a s unused)

-- NULL is no node of a segment.
pub null-not-mem : (h : Nodes) (b : Ptr) (xs : Cells) (stop : Ptr) → Seg h b xs stop → null ∉ xs
null-not-mem h b [] stop s = refl
null-not-mem h b ((p, v) ∷ xs) stop (ne, nv, e, out, s) = ground (arith, null-not-mem h p xs stop s)

-- Two segments in a row are one, and one can be cut anywhere.
pub append :
    (h : Nodes) (b : Ptr) (xs ys : Cells) (stop : Ptr)
    → Seg h b xs (first ys stop)
    → Seg h (last b xs) ys stop
    → Disjoint xs ys
    → Seg h b (xs ++ ys) stop
append h b [] ys stop s t apart = t
append h b ((p, v) ∷ xs) ys stop (ne, nv, e, out, s) t apart = (
  ne,
  nv,
  rw (first-append xs ys stop) e,
  rw (is_node-append p xs ys, out) (apart p (ground arith)),
  append h p xs ys stop s t (λ a i. apart a (ground arith)),
)

pub cut :
    (h : Nodes) (b : Ptr) (xs ys : Cells) (stop : Ptr)
    → Seg h b (xs ++ ys) stop
    → Seg h b xs (first ys stop) × Seg h (last b xs) ys stop × Disjoint xs ys
cut h b [] ys stop s = (tt, s, λ a i. cc)
cut h b ((p, v) ∷ xs) ys stop (ne, nv, e, out, s) =
    let (front, back, apart) = cut h p xs ys stop s in
    let (out', far) = split p xs ys out in
    ((ne, nv, rw (← first-append xs ys stop) e, out', front), back, λ a i. split_head a far apart i)
  where
    split : (a : Ptr) (xs ys : Cells) → a ∉ xs ++ ys → (a ∉ xs) × (a ∉ ys)
    split a xs ys o = ground (arith, is_node-append a xs ys)

    split_head : (a : Ptr) → p ∉ ys → Disjoint xs ys → ((a == p) || is_node a xs) ≡ true → a ∉ ys
    split_head a far apart i = ground (arith, apart a)

-- The last node is given another successor.
pub relink_last :
    (h g : Nodes) (b : Ptr) (xs : Cells) (p v s s' : Ptr)
    → Seg h b (xs ++ (p, v) ∷ []) s
    → g p ≡ some (node v s' (last b xs))
    → ((a : Ptr) → a ∈ xs → g a ≡ h a)
    → Seg g b (xs ++ (p, v) ∷ []) s'
relink_last h g b xs p v s s' seg e same =
    let (front, (ne, nv, _, out, _), apart) = cut h b xs ((p, v) ∷ []) s seg in
    append g b xs ((p, v) ∷ []) s' (frame h g b xs p front same) (ne, nv, e, out, tt) apart

-- The first node is given another predecessor.
pub relink_first :
    (h g : Nodes) (b b' p v : Ptr) (xs : Cells) (s : Ptr)
    → Seg h b ((p, v) ∷ xs) s
    → g p ≡ some (node v (first xs s) b')
    → ((a : Ptr) → a ∈ xs → g a ≡ h a)
    → Seg g b' ((p, v) ∷ xs) s
relink_first h g b b' p v xs s (ne, nv, _, out, seg) e same =
    (ne, nv, e, out, frame h g p xs s seg same)

-- Cells are empty or end in a last one.
pub last_split :
    (xs : Cells) → (xs ≡ []) ⊎ ((ys : Cells) × (p : Ptr) × (v : Ptr) × (xs ≡ ys ++ (p, v) ∷ []))
last_split [] = inl refl
last_split ((p, v) ∷ xs) = inr (extend (last_split xs))
  where
    extend :
        (xs ≡ []) ⊎ ((ys : Cells) × (p : Ptr) × (v : Ptr) × (xs ≡ ys ++ (p, v) ∷ []))
        → (ys : Cells) × (q : Ptr) × (w : Ptr) × ((p, v) ∷ xs ≡ ys ++ (q, w) ∷ [])
    extend (inl e) = ([], p, v, rw e)
    extend (inr (ys, q, w, e)) = ((p, v) ∷ ys, q, w, rw e)

-- The queue at address `queue` holds the cells.
pub record IsQueue (s : Store) (queue : Ptr) (xs : Cells) : Type 0 where
  pub ne_null : queue ≢ null
  pub ends : s.queues queue ≡ some (record { head = first xs null; tail = last null xs })
  pub chain : Seg s.nodes null xs null

-- A change of the store that spares the nodes of `xs` and all queues but `queue`.
abbrev pub Spares : Ptr → Cells → Store → Store → Type 0
Spares queue xs s t =
    SameOutside xs s.nodes t.nodes × ((a : Ptr) → a ≢ queue → t.queues a ≡ s.queues a)
