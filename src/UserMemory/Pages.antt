-- ===== src/UserMemory/Pages.antt =====
-- Pages of region 1 that are mapped to frames of their own, and the steps that map them
-- (`allocFrame` and the assignments to a page table entry, in src/traps/trap.c).
use tiny_kernels.Prelude.{
  zero, Option, none, if◌then◌else◌, ℕ, suc, ◌+◌, ◌<◌, ◌≤◌, ◌≡◌, ◌≢◌, refl, sym, ◌∙◌, ap, ◌⊎◌, inl,
  inr, Bool, true, false, not, ◌&&◌, ◌||◌, some, List, [], ◌∷◌, ◌++◌, arith, ltb, ◌==◌, Bool-cases,
  length, get_elem?,
}
use tiny_kernels.Prelude.Int.{ℤ, pos, minus_one}
use tiny_kernels.Prelude.Run.{ok, outcome}
use tiny_kernels.Hardware.{Pte, max_pt_len, prot_read_write}
use tiny_kernels.Memory.{Memory, FrameDesc, frame_user, modify, mapped, alloc_frame}
use tiny_kernels.Memory.Frames.{
  free_at, used_at, Taken, Allocated, Released, alloc_frame-Allocated, used-not-free,
}
use tiny_kernels.Kernel.{Ptr, null, Pcb, Kernel}
use tiny_kernels.Kernel.Scheduling.{with_pcb, load-ok, update-ok}
use tiny_kernels.UserMemory.{map_user}

abbrev pub among : ℕ → List ℕ → Bool
among f [] = false
among f (g ∷ gs) = (f == g) || among f gs

abbrev pub add_frame : Option Pte → List ℕ → List ℕ
add_frame none fs = fs
add_frame (some e) fs = if e.valid then e.pfn ∷ fs else fs

-- The frames of the valid pages from `v` on.
abbrev pub held : (n v : ℕ) → List Pte → List ℕ
held zero v t = []
held (suc n) v t = add_frame (get_elem? t v) (held n (v + 1) t)

abbrev pub Apart : List ℕ → Type 0
Apart [] = Unit
Apart (f ∷ fs) = (among f fs ≡ false) × Apart fs

-- The pages from `v` on are mapped to the frames of the list, in order.
abbrev pub HasPages : List Pte → ℕ → List ℕ → Type 0
HasPages t v [] = Unit
HasPages t v (f ∷ fs) =
    ((e : Pte) × (get_elem? t v ≡ some e)
      × (e.valid ≡ true)
      × (e.prot ≡ prot_read_write)
      × (e.pfn ≡ f))
    × HasPages t (v + 1) fs

-- All frames of the list are in use.
abbrev pub AllUsed : List FrameDesc → List ℕ → Type 0
AllUsed t fs = (f : ℕ) → among f fs ≡ true → used_at t f ≡ true

-- The process at `curr` with a page table of this length, and nothing else about it.
abbrev pub HasTable : Kernel → Ptr → Type 0
HasTable k curr = (c : Pcb) × (k.pcbs curr ≡ some c) × (length c.ptbr ≡ max_pt_len)

pub HasPages-cong :
    (t s : List Pte) (v : ℕ) (fs : List ℕ)
    → ((j : ℕ) → v ≤ j → j < v + length fs → get_elem? s j ≡ get_elem? t j)
    → HasPages t v fs
    → HasPages s v fs
HasPages-cong t s v [] same h = tt
HasPages-cong t s v (f ∷ fs) same ((e, at, a, b, c), h) = (
  (e, same v (omega arith) (omega arith) ∙ at, a, b, c),
  HasPages-cong t s (v + 1) fs (λ j lo hi. same j (omega arith) (omega arith)) h,
)

-- One frame given back, or taken, as a change of the two tests.
module _ (m t : Memory) (f : ℕ) where
  pub Released-free :
      Released m f t → (g : ℕ) → free_at t.frame_table g ≡ (free_at m.frame_table g || (g == f))
  Released-free r g = elim (Bool-cases (g == f)) [
    | inl e ↦ let q : g ≡ f = ground arith in rw (e, q, r.now_free) (ground arith)
    | inr e ↦ rw e (ground (arith, r.others g))
  ]

  pub Released-used :
      Released m f t → (g : ℕ) → used_at t.frame_table g ≡ (used_at m.frame_table g && not (g == f))
  Released-used r g = elim (Bool-cases (g == f)) [
    | inl e ↦
        let q : g ≡ f = ground arith in
        let gone : used_at t.frame_table f ≡ false = elim (Bool-cases (used_at t.frame_table f)) [
          | inl u ↦ absurd (ground (arith, used-not-free t.frame_table f u, r.now_free))
          | inr u ↦ u
        ] in
        rw (e, q, gone) (ground arith)
    | inr e ↦ rw e (ground (arith, r.others g))
  ]

  pub Taken-free :
      Taken m f t → (g : ℕ) → free_at t.frame_table g ≡ (free_at m.frame_table g && not (g == f))
  Taken-free r g = elim (Bool-cases (g == f)) [
    | inl e ↦
        let q : g ≡ f = ground arith in
        rw (e, q, used-not-free t.frame_table f r.in_use) (ground arith)
    | inr e ↦ rw e (ground (arith, r.others g))
  ]

  pub Taken-used :
      Taken m f t → (g : ℕ) → used_at t.frame_table g ≡ (used_at m.frame_table g || (g == f))
  Taken-used r g = elim (Bool-cases (g == f)) [
    | inl e ↦ let q : g ≡ f = ground arith in rw (e, q, r.in_use) (ground arith)
    | inr e ↦ rw e (ground (arith, r.others g))
  ]

pub alloc_cases :
    (pid : ℤ) (m : Memory)
    → ((i : ℕ) × (t : Memory) × (alloc_frame frame_user pid m ≡ ok (pos i) t) × Taken m i t)
      ⊎ (alloc_frame frame_user pid m ≡ ok minus_one m)
alloc_cases pid m =
    let (r, t, e, h) =
      outcome (Allocated m) (alloc_frame frame_user pid m)
        (alloc_frame-Allocated frame_user pid m refl) in
    elim h [
      | inl (i, is, taken, _) ↦ inl (i, t, e ∙ ap (λ x. ok x t) is, taken)
      | inr (is, same, _) ↦ inr (e ∙ ap (λ x. ok x t) is ∙ ap (ok minus_one) same)
    ]

abbrev pub with_user_page : Pcb → ℕ → ℕ → Pcb
with_user_page c v i = record c { ptbr = modify c.ptbr v (mapped (pos i) prot_read_write) }

pub map_user_to-ok :
    (prot v i : ℕ) (p : Ptr) (c : Pcb) (k : Kernel)
    → p ≢ null
    → k.pcbs p ≡ some c
    → v < length c.ptbr
    → map_user p v (pos i) prot k
      ≡ ok tt (with_pcb k p (record c { ptbr = modify c.ptbr v (mapped (pos i) prot) }))
unfolding map_user
map_user_to-ok prot v i p c k ne at in_table =
    let here : ltb v (length c.ptbr) ≡ true = ground arith in
    rw
      (
        load-ok p c k ne at,
        here,
        update-ok p (λ x. record x { ptbr = modify c.ptbr v (mapped (pos i) prot) }) c k ne at,
      )
      refl

pub map_user-ok :
    (p : Ptr) (v i : ℕ) (c : Pcb) (k : Kernel)
    → p ≢ null
    → k.pcbs p ≡ some c
    → v < length c.ptbr
    → map_user p v (pos i) prot_read_write k ≡ ok tt (with_pcb k p (with_user_page c v i))
map_user-ok p v i c k ne at in_table = map_user_to-ok prot_read_write v i p c k ne at in_table

pub HasPages-snoc :
    (t : List Pte) (v f : ℕ) (fs : List ℕ)
    → HasPages t v fs
    → (e : Pte) × (get_elem? t (v + length fs) ≡ some e)
      × (e.valid ≡ true)
      × (e.prot ≡ prot_read_write)
      × (e.pfn ≡ f)
    → HasPages t v (fs ++ f ∷ [])
HasPages-snoc t v f [] h (e, at, a, b, c) =
    let z : v + 0 ≡ v = omega arith in ((e, ap (get_elem? t) (sym z) ∙ at, a, b, c), tt)
HasPages-snoc t v f (g ∷ fs) (page, h) (e, at, a, b, c) =
    let z : v + 1 + length fs ≡ v + suc (length fs) = omega arith in
    (page, HasPages-snoc t (v + 1) f fs h (e, ap (get_elem? t) z ∙ at, a, b, c))

pub among-snoc : (g f : ℕ) (fs : List ℕ) → among g (fs ++ f ∷ []) ≡ (among g fs || (g == f))
among-snoc g f [] = ground arith
among-snoc g f (x ∷ fs) = ground (arith, among-snoc g f fs)

pub Apart-snoc : (f : ℕ) (fs : List ℕ) → Apart fs → among f fs ≡ false → Apart (fs ++ f ∷ [])
Apart-snoc f [] a out = (refl, tt)
Apart-snoc f (x ∷ fs) (here, a) out =
    (rw (among-snoc x f fs) (ground (arith, here)), Apart-snoc f fs a (ground arith))

pub free-not-used : (t : List FrameDesc) (f : ℕ) → free_at t f ≡ true → used_at t f ≡ false
free-not-used t f h = elim (Bool-cases (used_at t f)) [
  | inl u ↦ absurd (ground (arith, used-not-free t f u))
  | inr u ↦ u
]

-- A frame that was free is none of those in use.
pub Apart-Taken :
    (gs : List ℕ) (i : ℕ) (k : Kernel) (m : Memory)
    → Taken k.memory i m
    → AllUsed k.memory.frame_table gs
    → among i gs ≡ false
Apart-Taken gs i k m taken used = elim (Bool-cases (among i gs)) [
  | inl e ↦ absurd (ground (arith, used i e, free-not-used k.memory.frame_table i taken.was_free))
  | inr e ↦ e
]
