-- ===== src/Queue/Remove.antt =====
-- `queueRemove` of src/queue.c.
use tiny_kernels.Prelude.{
  ℕ, zero, suc, ◌<◌, ◌≡◌, ◌≢◌, refl, subst, ◌⊎◌, inl, inr, true, false, some, [], ◌∷◌, ◌++◌,
  append_assoc, arith, ◌==◌, if◌then◌else◌, length, Bool-cases,
}
use tiny_kernels.Prelude.Run.{Returns, mono}
use tiny_kernels.Queue.{Ptr, null, QueueNode, Store, unlink, remove_loop, queue_remove}
use tiny_kernels.Queue.Seg.{Cells, first, last, Seg, IsQueue, Spares, cut}
use tiny_kernels.Queue.Unlink.{Unlinked, unlink-Unlinked}

-- The cells less the first one with the process.
pub erase : Ptr → Cells → Cells
erase process [] = []
erase process ((p, v) ∷ xs) = if v == process then xs else (p, v) ∷ erase process xs

-- The processes of the queue after a removal.
abbrev pub Removed : Store → Ptr → Ptr → Cells → Store → Type 0
Removed s queue process xs t = IsQueue t queue (erase process xs) × Spares queue xs s t

pub erase_first : (v p : Ptr) (xs : Cells) → erase v ((p, v) ∷ xs) ≡ xs
unfolding erase
erase_first v p xs = ground arith

-- The steps of the loop.
module _ (k : ℕ) (s : Store) (queue process p : Ptr) (n : QueueNode) (np : p ≢ null)
    (at_p : s.nodes p ≡ some n) where
  remove_loop_hit :
      (n.process == process) ≡ true → remove_loop (suc k) queue process p s ≡ unlink queue p n s
  unfolding remove_loop
  remove_loop_hit hit = let here : (p == null) ≡ false = ground arith in rw (here, here, at_p, hit)

  remove_loop_miss :
      (n.process == process) ≡ false
      → remove_loop (suc k) queue process p s ≡ remove_loop k queue process n.next s
  unfolding remove_loop
  remove_loop_miss miss =
      let here : (p == null) ≡ false = ground arith in rw (here, here, at_p, miss)

erase_hit :
    (process p v : Ptr) (zs : Cells) → (v == process) ≡ true → erase process ((p, v) ∷ zs) ≡ zs
unfolding erase
erase_hit process p v zs hit = rw hit

erase_miss :
    (process p v : Ptr) (zs : Cells)
    → (v == process) ≡ false
    → erase process ((p, v) ∷ zs) ≡ (p, v) ∷ erase process zs
unfolding erase
erase_miss process p v zs miss = rw miss

-- The loop of `queueRemove` behind the nodes of `ys`.
remove_loop-erase :
    (k : ℕ) (s : Store) (queue process : Ptr) (ys zs : Cells)
    → IsQueue s queue (ys ++ zs)
    → length zs < k
    → Returns
        (λ _ t. IsQueue t queue (ys ++ erase process zs) × Spares queue (ys ++ zs) s t)
        (remove_loop k queue process (first zs null) s)
remove_loop-erase zero s queue process ys zs is fuel = absurd (omega arith)
remove_loop-erase (suc k) s queue process ys [] is fuel =
    unfold remove_loop erase in (is, (λ a o. refl, λ a ne. refl))
remove_loop-erase (suc k) s queue process ys ((p, v) ∷ zs) is fuel =
    go (cut s.nodes null ys ((p, v) ∷ zs) null is.chain).1 (Bool-cases (v == process))
      (remove_loop-erase k s queue process (ys ++ (p, v) ∷ []) zs)
  where
    After : Cells → Cells → Store → Type 0
    After xs rest t = IsQueue t queue rest × Spares queue xs s t

    regroup : (ys ++ (p, v) ∷ []) ++ zs ≡ ys ++ (p, v) ∷ zs
    regroup = append_assoc ys ((p, v) ∷ []) zs

    go :
        Seg s.nodes (last null ys) ((p, v) ∷ zs) null
        → ((v == process) ≡ true) ⊎ ((v == process) ≡ false)
        → (IsQueue s queue ((ys ++ (p, v) ∷ []) ++ zs)
            → length zs < k
            → Returns
                (λ _. After ((ys ++ (p, v) ∷ []) ++ zs) ((ys ++ (p, v) ∷ []) ++ erase process zs))
                (remove_loop k queue process (first zs null) s))
        → Returns
            (λ _. After (ys ++ (p, v) ∷ zs) (ys ++ erase process ((p, v) ∷ zs)))
            (remove_loop (suc k) queue process p s)
    go (np, nv, at_p, out, seg) (inl hit) ih =
        rw (remove_loop_hit k s queue process p _ np at_p hit, erase_hit process p v zs hit)
          (mono (λ _. Unlinked s queue ys p v zs) (λ _. After (ys ++ (p, v) ∷ zs) (ys ++ zs)) _
            (unlink-Unlinked s queue ys p v zs is) λ _ t u. (u.0, u.2))
    go (np, nv, at_p, out, seg) (inr miss) ih =
        rw (remove_loop_miss k s queue process p _ np at_p miss, erase_miss process p v zs miss)
          (subst
            (λ xs.
              Returns (λ _. After xs (ys ++ (p, v) ∷ erase process zs))
                (remove_loop k queue process (first zs null) s))
            regroup
            (subst
              (λ xs.
                Returns (λ _. After ((ys ++ (p, v) ∷ []) ++ zs) xs)
                  (remove_loop k queue process (first zs null) s))
              (append_assoc ys ((p, v) ∷ []) (erase process zs))
              (ih (rw regroup is) (omega arith))))

-- For a process that is not NULL, and a queue of distinct doubly linked nodes with the cells `xs`,
-- given more fuel than it has nodes, `queueRemove` returns. The queue then is the same without the
-- first node that holds the process, or the same where none does, and no other node and no other
-- queue has changed.
pub queue_remove-erase :
    (fuel : ℕ) (s : Store) (queue process : Ptr) (xs : Cells)
    → process ≢ null
    → IsQueue s queue xs
    → length xs < fuel
    → Returns (λ _. Removed s queue process xs) (queue_remove fuel queue process s)
unfolding queue_remove
queue_remove-erase fuel s queue process xs np is enough =
    let start : queue_remove fuel queue process s
        ≡ remove_loop fuel queue process (first xs null) s =
      ground arith in
    rw start (remove_loop-erase fuel s queue process [] xs is enough)
