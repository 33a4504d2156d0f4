-- ===== src/Memory/Frames.antt =====
-- `allocFrame`, `allocSpecificFrame` and `freeFrame` of src/mem.c against the set of free frames.
use tiny_kernels.Prelude.{
  ℕ, zero, suc, ◌<◌, ◌≡◌, ◌≢◌, refl, ap, ◌⊎◌, inl, inr, Bool, true, false, none, some, List, [],
  ◌∷◌, arith, ltb, ◌==◌, if◌then◌else◌, length, Option-cases,
}
use tiny_kernels.Prelude.Int.{ℤ, pos, minus_one}
use tiny_kernels.Prelude.Run.{ok, Returns}
use tiny_kernels.Memory.{
  FrameUsage, frame_free, FrameDesc, Memory, is_free, nframes, find_free, mark, modify, take_frame,
  alloc_frame, release_frame, free_frame,
}

-- The frame exists and is free.
abbrev pub free_at : List FrameDesc → ℕ → Bool
free_at [] i = false
free_at (f ∷ fs) zero = is_free f.usage
free_at (f ∷ fs) (suc i) = free_at fs i

-- The frame exists and is in use.
abbrev pub used_at : List FrameDesc → ℕ → Bool
used_at [] i = false
used_at (f ∷ fs) zero = if is_free f.usage then false else true
used_at (f ∷ fs) (suc i) = used_at fs i

abbrev pub count_free : List FrameDesc → ℕ
count_free [] = 0
count_free (f ∷ fs) = if is_free f.usage then suc (count_free fs) else count_free fs

-- The counter counts the free frames.
abbrev pub Counted : Memory → Type 0
Counted m = m.free_nframes ≡ count_free m.frame_table

pub count_free-none : (t : List FrameDesc) → ((j : ℕ) → free_at t j ≡ false) → count_free t ≡ 0
count_free-none [] h = refl
count_free-none (f ∷ fs) h = ground (arith, h 0, count_free-none fs (λ j. h (suc j)))

pub find_free-free : (t : List FrameDesc) (i : ℕ) → find_free t ≡ some i → free_at t i ≡ true
unfolding find_free
find_free-free [] i e = absurd (cc)
find_free-free (f ∷ fs) zero e = ground arith
find_free-free (f ∷ fs) (suc i) e = find_free-free fs i (ground arith)

pub find_free-first :
    (t : List FrameDesc) (i j : ℕ) → find_free t ≡ some i → j < i → free_at t j ≡ false
unfolding find_free
find_free-first [] i j e h = absurd (cc)
find_free-first (f ∷ fs) zero j e h = absurd (omega arith)
find_free-first (f ∷ fs) (suc i) zero e h = ground arith
find_free-first (f ∷ fs) (suc i) (suc j) e h = find_free-first fs i j (ground arith) (omega arith)

pub find_free-none : (t : List FrameDesc) (j : ℕ) → find_free t ≡ none → free_at t j ≡ false
unfolding find_free
find_free-none [] j e = refl
find_free-none (f ∷ fs) zero e = ground arith
find_free-none (f ∷ fs) (suc j) e = find_free-none fs j (ground arith)

pub modify_used :
    (t : List FrameDesc) (i j : ℕ) (u : FrameUsage)
    → is_free u ≡ false
    → free_at t i ≡ true
    → (used_at (modify t i (mark u)) j ≡ (if i == j then true else used_at t j))
      × (free_at (modify t i (mark u)) j ≡ (if i == j then false else free_at t j))
modify_used [] i j u nf h = ground arith
modify_used (f ∷ fs) zero zero u nf h = ground arith
modify_used (f ∷ fs) zero (suc j) u nf h = ground arith
modify_used (f ∷ fs) (suc i) zero u nf h = ground arith
modify_used (f ∷ fs) (suc i) (suc j) u nf h = ground (arith, modify_used fs i j u nf h)

pub modify_freed :
    (t : List FrameDesc) (i j : ℕ)
    → i < length t
    → (used_at (modify t i (mark frame_free)) j ≡ (if i == j then false else used_at t j))
      × (free_at (modify t i (mark frame_free)) j ≡ (if i == j then true else free_at t j))
modify_freed [] i j h = absurd (omega arith)
modify_freed (f ∷ fs) zero zero h = ground arith
modify_freed (f ∷ fs) zero (suc j) h = ground arith
modify_freed (f ∷ fs) (suc i) zero h = ground arith
modify_freed (f ∷ fs) (suc i) (suc j) h = ground (arith, modify_freed fs i j (omega arith))

pub count_take :
    (t : List FrameDesc) (i : ℕ) (u : FrameUsage)
    → is_free u ≡ false
    → free_at t i ≡ true
    → count_free t ≡ suc (count_free (modify t i (mark u)))
count_take [] i u nf h = ground arith
count_take (f ∷ fs) zero u nf h = ground arith
count_take (f ∷ fs) (suc i) u nf h = ground (arith, count_take fs i u nf h)

pub count_release :
    (t : List FrameDesc) (i : ℕ)
    → used_at t i ≡ true
    → count_free (modify t i (mark frame_free)) ≡ suc (count_free t)
count_release [] i h = ground arith
count_release (f ∷ fs) zero h = ground arith
count_release (f ∷ fs) (suc i) h = ground (arith, count_release fs i h)

pub length-modify {ℓ} :
    {A : Type ℓ} (t : List A) (i : ℕ) (g : A → A) → length (modify t i g) ≡ length t
length-modify [] i g = refl
length-modify (x ∷ xs) zero g = refl
length-modify (x ∷ xs) (suc i) g = ap suc (length-modify xs i g)

pub used-lt-length : (t : List FrameDesc) (i : ℕ) → used_at t i ≡ true → i < length t
used-lt-length [] i h = ground arith
used-lt-length (f ∷ fs) zero h = omega arith
used-lt-length (f ∷ fs) (suc i) h = omega (arith, used-lt-length fs i h)

pub free-lt-length : (t : List FrameDesc) (i : ℕ) → free_at t i ≡ true → i < length t
free-lt-length [] i h = ground arith
free-lt-length (f ∷ fs) zero h = omega arith
free-lt-length (f ∷ fs) (suc i) h = omega (arith, free-lt-length fs i h)

pub used-not-free : (t : List FrameDesc) (j : ℕ) → used_at t j ≡ true → free_at t j ≡ false
used-not-free [] j h = refl
used-not-free (f ∷ fs) zero h = ground arith
used-not-free (f ∷ fs) (suc j) h = used-not-free fs j h

-- The frame goes from free to in use, and no other frame changes.
pub record Taken (m : Memory) (i : ℕ) (t : Memory) : Type 0 where
  pub was_free : free_at m.frame_table i ≡ true
  pub in_use : used_at t.frame_table i ≡ true
  pub others :
      (j : ℕ)
      → i ≢ j
      → (used_at t.frame_table j ≡ used_at m.frame_table j)
        × (free_at t.frame_table j ≡ free_at m.frame_table j)
  pub size : nframes t ≡ nframes m
  pub same_region0 : t.pt_region0 ≡ m.pt_region0
  pub same_brk : t.kernel_brk_page ≡ m.kernel_brk_page
  pub same_contents : t.contents ≡ m.contents
  pub counted : Counted m → Counted t × (m.free_nframes ≡ suc t.free_nframes)

take_frame-Taken :
    (m : Memory) (i : ℕ) (u : FrameUsage)
    → is_free u ≡ false
    → free_at m.frame_table i ≡ true
    → Taken m i (take_frame i u m)
unfolding take_frame
take_frame-Taken m i u nf h = record {
  was_free = h;
  in_use = ground (arith, modify_used m.frame_table i i u nf h);
  others = λ j ne. ground (arith, modify_used m.frame_table i j u nf h);
  size = length-modify m.frame_table i (mark u);
  same_region0 = refl;
  same_brk = refl;
  same_contents = refl;
  counted = λ c. ground (arith, count_take m.frame_table i u nf h);
}

-- What `allocFrame` gives: the least free frame, which it takes, or -1 where no frame is free, and
-- then the memory as it was.
abbrev pub Allocated : Memory → ℤ → Memory → Type 0
Allocated m r t =
    ((i : ℕ) × (r ≡ pos i) × Taken m i t × ((j : ℕ) → j < i → free_at m.frame_table j ≡ false))
    ⊎ ((r ≡ minus_one) × (t ≡ m) × ((j : ℕ) → free_at m.frame_table j ≡ false))

-- `allocFrame` for a usage other than FREE takes the least free frame, which it returns, and
-- changes the use of no other frame, or returns -1 and changes nothing where no frame is free. It
-- keeps the counter of free frames right where it was right.
pub alloc_frame-Allocated :
    (u : FrameUsage) (owner_pid : ℤ) (m : Memory)
    → is_free u ≡ false
    → Returns (Allocated m) (alloc_frame u owner_pid m)
unfolding alloc_frame
alloc_frame-Allocated u owner_pid m nf = elim (Option-cases (find_free m.frame_table)) [
  | inl e ↦ rw (e, alloc_frame) (inr (refl, refl, λ j. find_free-none m.frame_table j e))
  | inr (i, e) ↦
      rw (e, alloc_frame)
        (inl (
          i,
          refl,
          take_frame-Taken m i u nf (find_free-free m.frame_table i e),
          λ j. find_free-first m.frame_table i j e,
        ))
]

-- The frame goes from in use to free, and no other frame changes.
pub record Released (m : Memory) (i : ℕ) (t : Memory) : Type 0 where
  pub now_free : free_at t.frame_table i ≡ true
  pub others :
      (j : ℕ)
      → i ≢ j
      → (used_at t.frame_table j ≡ used_at m.frame_table j)
        × (free_at t.frame_table j ≡ free_at m.frame_table j)
  pub size : nframes t ≡ nframes m
  pub same_region0 : t.pt_region0 ≡ m.pt_region0
  pub same_brk : t.kernel_brk_page ≡ m.kernel_brk_page
  pub counted : Counted m → Counted t

pub release_frame-Released :
    (m : Memory) (i : ℕ) → used_at m.frame_table i ≡ true → Released m i (release_frame i m)
unfolding release_frame
release_frame-Released m i h =
    let valid = used-lt-length m.frame_table i h in
    record {
      now_free = ground (arith, modify_freed m.frame_table i i valid);
      others = λ j ne. ground (arith, modify_freed m.frame_table i j valid);
      size = length-modify m.frame_table i (mark frame_free);
      same_region0 = refl;
      same_brk = refl;
      counted = λ c. ground (arith, count_release m.frame_table i h);
    }

pub free_frame-ok :
    (i : ℕ) (m : Memory)
    → used_at m.frame_table i ≡ true
    → free_frame (pos i) m ≡ ok tt (release_frame i m)
unfolding free_frame
free_frame-ok i m h =
    let valid = used-lt-length m.frame_table i h in
    let here : ltb i (nframes m) ≡ true = ground arith in rw here

-- `freeFrame` of a frame in use makes that frame free and changes the use of no other frame. It
-- keeps the counter of free frames right where it was right.
pub free_frame-Released :
    (i : ℕ) (m : Memory)
    → used_at m.frame_table i ≡ true
    → Returns (λ _. Released m i) (free_frame (pos i) m)
free_frame-Released i m h = rw (free_frame-ok i m h) (release_frame-Released m i h)

count_refree :
    (t : List FrameDesc) (i : ℕ)
    → free_at t i ≡ true
    → count_free (modify t i (mark frame_free)) ≡ count_free t
count_refree [] i h = refl
count_refree (f ∷ fs) zero h = ground arith
count_refree (f ∷ fs) (suc i) h = ground (arith, count_refree fs i h)

-- Where the counter of free frames is right, `freeFrame` of a frame that is free already makes it
-- one more than the number of free frames.
pub free_frame_twice :
    (i : ℕ) (m : Memory)
    → free_at m.frame_table i ≡ true
    → Counted m
    → Returns (λ _ t. t.free_nframes ≡ suc (count_free t.frame_table)) (free_frame (pos i) m)
unfolding free_frame
free_frame_twice i m h c =
    let valid = free-lt-length m.frame_table i h in
    let here : ltb i (nframes m) ≡ true = ground arith in
    rw here (ground (arith, count_refree m.frame_table i h))
