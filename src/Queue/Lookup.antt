-- ===== src/Queue/Lookup.antt =====
-- `is_in_queue` of src/queue.c.
use tiny_kernels.Prelude.{
  ℕ, zero, suc, ◌<◌, ◌≡◌, ◌≢◌, refl, false, Bool, [], ◌∷◌, ◌||◌, arith, ◌==◌, length,
}
use tiny_kernels.Prelude.Run.{ok}
use tiny_kernels.Queue.{Ptr, null, Store, lookup_loop, is_in_queue}
use tiny_kernels.Queue.Seg.{Cells, first, Seg, IsQueue}

abbrev pub holds : Ptr → Cells → Bool
holds process [] = false
holds process ((p, v) ∷ xs) = (v == process) || holds process xs

lookup_loop-holds :
    (k : ℕ) (s : Store) (process b : Ptr) (xs : Cells)
    → Seg s.nodes b xs null
    → length xs < k
    → lookup_loop k process (first xs null) s ≡ ok (holds process xs) s
unfolding lookup_loop
lookup_loop-holds zero s process b xs seg fuel = absurd (omega arith)
lookup_loop-holds (suc k) s process b [] seg fuel = refl
lookup_loop-holds (suc k) s process b ((p, v) ∷ xs) seg fuel =
    ground (arith, lookup_loop-holds k s process p xs)

-- `is_in_queue` of a process that is not NULL and a queue, with more fuel than it has nodes,
-- changes nothing and says whether some node of the queue holds the process.
pub is_in_queue-holds :
    (fuel : ℕ) (s : Store) (queue process : Ptr) (xs : Cells)
    → process ≢ null
    → IsQueue s queue xs
    → length xs < fuel
    → is_in_queue fuel queue process s ≡ ok (holds process xs) s
unfolding is_in_queue
is_in_queue-holds fuel s queue process xs np is enough =
    ground (arith, lookup_loop-holds fuel s process null xs)
