-- ===== src/Queue/Iterate.antt =====
-- `queueIterate` of src/queue.c, whose callback may take the visited process off the queue.
use tiny_kernels.Prelude.{
  ℕ, zero, suc, ◌<◌, ◌≡◌, ◌≢◌, refl, subst, List, false, some, [], ◌∷◌, arith, ◌==◌, length,
}
use tiny_kernels.Prelude.Run.{
  Run, Cmd, ok, halted, fault, out_of_fuel, pure, and_then, ◌>>◌, Returns, bind, mono,
}
use tiny_kernels.Queue.{Ptr, null, QueueNode, Store, iterate_loop, queue_iterate, queue_remove}
use tiny_kernels.Queue.Remove.{Removed, erase_first, queue_remove-erase}
use tiny_kernels.Queue.Seg.{Cells, Nodes, first, processes, Seg, IsQueue}

-- The calls that an iteration is meant to make, one for each process in order.
pub for_each : (Ptr → Cmd Store (Unit {0})) → List Ptr → Cmd Store (Unit {0})
for_each f [] = pure tt
for_each f (v ∷ vs) = f v >> for_each f vs

-- The nodes that are still to be visited: their addresses, processes and successors. What the
-- predecessors are does not matter.
abbrev pub Chain : Nodes → Cells → Type 0
Chain h [] = Unit
Chain h ((p, v) ∷ xs) =
    (p ≢ null)
    × ((n : QueueNode) × (h p ≡ some n) × (n.process ≡ v) × (n.next ≡ first xs null))
    × Chain h xs

-- A callback under an invariant of the store and the nodes still to be visited: the call on the
-- first process may free or relink its node, and leaves the rest of the chain in place.
abbrev pub LeavesRest : (Store → Cells → Type 0) → (Ptr → Cmd Store (Unit {0})) → Type 0
LeavesRest I f =
    (s : Store) (p v : Ptr) (xs : Cells)
    → I s ((p, v) ∷ xs)
    → (t : Store) → f v s ≡ ok tt t
    → I t xs

pub Seg-Chain : (h : Nodes) (b : Ptr) (xs : Cells) → Seg h b xs null → Chain h xs
Seg-Chain h b [] seg = tt
Seg-Chain h b ((p, v) ∷ xs) (np, nv, at_p, out, seg) =
    (np, (_, at_p, refl, refl), Seg-Chain h p xs seg)

iterate_step :
    (k : ℕ) (f : Ptr → Cmd Store (Unit {0})) (s : Store) (p : Ptr) (n : QueueNode)
    → p ≢ null
    → s.nodes p ≡ some n
    → iterate_loop (suc k) f p s ≡ and_then (f n.process s) (λ _. iterate_loop k f n.next)
unfolding iterate_loop
iterate_step k f s p n np at_p =
    let here : (p == null) ≡ false = ground arith in rw (here, here, at_p)

module _ (I : Store → Cells → Type 0)
    (chained : (s : Store) (xs : Cells) → I s xs → Chain s.nodes xs)
    (f : Ptr → Cmd Store (Unit {0})) (leaves : LeavesRest I f) where
  iterate_loop-for_each :
      (k : ℕ) (s : Store) (xs : Cells)
      → I s xs
      → length xs < k
      → iterate_loop k f (first xs null) s ≡ for_each f (processes xs) s
  unfolding for_each
  iterate_loop-for_each zero s xs inv fuel = absurd (omega arith)
  iterate_loop-for_each (suc k) s [] inv fuel = unfold iterate_loop in refl
  iterate_loop-for_each (suc k) s ((p, v) ∷ xs) inv fuel =
      let (np, (n, at_p, is_v, to), _) = chained s ((p, v) ∷ xs) inv in
      rw (iterate_step k f s p n np at_p, is_v, to) (go (f v s) refl (iterate_loop-for_each k))
    where
      go :
          (r : Run Store (Unit {0}))
          → f v s ≡ r
          → ((t : Store) (ys : Cells)
              → I t ys
              → length ys < k
              → iterate_loop k f (first ys null) t ≡ for_each f (processes ys) t)
          → and_then r (λ _. iterate_loop k f (first xs null))
            ≡ and_then r (λ _. for_each f (processes xs))
      go (ok tt t) e ih = ih t xs (leaves s p v xs inv t e) (omega arith)
      go halted e ih = refl
      go fault e ih = refl
      go out_of_fuel e ih = refl

  -- Under an invariant that says which nodes are still to be visited, and that the call on the
  -- process of the first of them keeps for the others, `queueIterate` over a queue, with more fuel
  -- than it has nodes, does what one call for each process of the queue in order does, also where
  -- a call takes its own process off the queue.
  pub queue_iterate-for_each :
      (fuel : ℕ) (s : Store) (queue : Ptr) (xs : Cells)
      → I s xs
      → IsQueue s queue xs
      → length xs < fuel
      → queue_iterate fuel queue f s ≡ for_each f (processes xs) s
  unfolding queue_iterate
  queue_iterate-for_each fuel s queue xs inv is enough =
      let here : (queue == null) ≡ false = ground (arith, is) in
      rw (here, here, is.ends) (iterate_loop-for_each fuel s xs inv enough)

-- The callback that takes its process off the queue that is iterated over, as the clock handler's
-- does with `blocked_queue`.
module _ (fuel : ℕ) (queue : Ptr) where
  abbrev pub Remains : Store → Cells → Type 0
  Remains s xs = IsQueue s queue xs × (length xs < fuel)

  pub Remains-Chain : (s : Store) (xs : Cells) → Remains s xs → Chain s.nodes xs
  Remains-Chain s xs (is, _) = Seg-Chain s.nodes null xs is.chain

  remove_first :
      (s : Store) (p v : Ptr) (xs : Cells)
      → Remains s ((p, v) ∷ xs)
      → Returns (λ _ t. Remains t xs) (queue_remove fuel queue v s)
  remove_first s p v xs (is, enough) =
      mono (λ _. Removed s queue v ((p, v) ∷ xs)) (λ _ t. Remains t xs) _
        (queue_remove-erase fuel s queue v ((p, v) ∷ xs) is.chain.1 is enough)
        λ _ t r. (subst (IsQueue t queue) (erase_first v p xs) r.0, omega arith)

  pub remove-LeavesRest : LeavesRest Remains (queue_remove fuel queue)
  remove-LeavesRest s p v xs inv t e = rw e at (remove_first s p v xs inv)

  for_each-remove :
      (s : Store) (xs : Cells)
      → Remains s xs
      → Returns (λ _ t. IsQueue t queue []) (for_each (queue_remove fuel queue) (processes xs) s)
  unfolding for_each
  for_each-remove s [] (is, _) = is
  for_each-remove s ((p, v) ∷ xs) inv =
      bind (λ _ t. Remains t xs) (λ _ t. IsQueue t queue []) _ _ (remove_first s p v xs inv)
        λ _ t. for_each-remove t xs

  -- `queueIterate` over a queue, with more fuel than it has nodes, with calls of `queueRemove`
  -- that each take their own process off that queue, returns and leaves the queue empty.
  pub queue_iterate-remove :
      (s : Store) (xs : Cells)
      → IsQueue s queue xs
      → length xs < fuel
      → Returns (λ _ t. IsQueue t queue []) (queue_iterate fuel queue (queue_remove fuel queue) s)
  queue_iterate-remove s xs is enough =
      rw
        (queue_iterate-for_each Remains Remains-Chain (queue_remove fuel queue) remove-LeavesRest
          fuel s queue xs (is, enough) is enough)
        (for_each-remove s xs (is, enough))
