-- ===== src/Program/FlatMemory.antt =====
-- Writes through a page table against a flat memory: for a table whose valid pages have frames of
-- their own, a write changes the bytes at its addresses and no others.
pub mod Blocks
use tiny_kernels.Prelude.{
  ℕ, zero, suc, ◌+◌, ◌-◌, ◌<◌, ◌≤◌, ◌%◌, ◌≡◌, ◌≢◌, refl, sym, ap, ◌∙◌, Bool, true, false, ◌&&◌,
  Option, none, some, List, [], ◌∷◌, arith, leb, ◌==◌, if◌then◌else◌, Bool-cases, Option-cases, ◌⊎◌,
  inl, inr, length, get_elem?, get_elem?-some, set,
}
use tiny_kernels.Prelude.Run.{ok, Returns}
use tiny_kernels.Hardware.{vpn_of, Pte, page_size, vmem_1_base, vmem_1_limit}
use tiny_kernels.Memory.{Memory}
use tiny_kernels.Kernel.{Ptr, null, Pcb, Kernel}
use tiny_kernels.Kernel.Scheduling.{load-ok}
use tiny_kernels.Kernel.UserBytes.{writable_frame, frame_at, write_frame, write_user}

abbrev pub byte_of : (frame : Option ℕ) → Memory → (offset : ℕ) → Option ℕ
byte_of none m offset = none
byte_of (some f) m offset = get_elem? (m.contents f) offset

-- The frame that a valid page is mapped to, whatever its protection is.
abbrev pub mapped_frame : Option Pte → Option ℕ
mapped_frame none = none
mapped_frame (some e) = if e.valid then some e.pfn else none

abbrev pub mapped_at : List Pte → (addr : ℕ) → Option ℕ
mapped_at table addr = mapped_frame (get_elem? table (vpn_of addr))

-- A page that can be written is valid.
writable_frame-mapped_frame :
    (e : Option Pte) (f : ℕ) → writable_frame e ≡ some f → mapped_frame e ≡ some f
writable_frame-mapped_frame none f h = h
writable_frame-mapped_frame (some e) f h = ground arith

pub frame_at-mapped_at :
    (table : List Pte) (addr f : ℕ) → frame_at table addr ≡ some f → mapped_at table addr ≡ some f
unfolding frame_at
frame_at-mapped_at table addr f at =
    writable_frame-mapped_frame (get_elem? table (vpn_of addr)) f at

-- The byte at an address of a valid page.
abbrev pub byte_at : List Pte → Memory → (addr : ℕ) → Option ℕ
byte_at table m addr = byte_of (mapped_at table addr) m (addr % page_size)

-- Frames that no page of the table is mapped to have the content that they had.
abbrev pub KeepsOthers : List Pte → (m t : Memory) → Type 0
KeepsOthers table m t =
    (f : ℕ) → ((a : ℕ) → mapped_at table a ≢ some f) → t.contents f ≡ m.contents f

-- An address of region 1.
pub record InRegion1 (addr : ℕ) : Type 0 where
  pub low : vmem_1_base ≤ addr
  pub high : addr < vmem_1_limit

-- Two valid pages have not the same frame.
abbrev pub HasOwnFrames : List Pte → Type 0
HasOwnFrames table =
    (a b f : ℕ) → mapped_at table a ≡ some f → mapped_at table b ≡ some f → vpn_of a ≡ vpn_of b

-- Each frame is a page long.
abbrev pub HasWholeFrames : Memory → Type 0
HasWholeFrames m = (f : ℕ) → length (m.contents f) ≡ page_size

-- The addresses of a block can be written.
abbrev pub IsWritable : List Pte → (addr n : ℕ) → Type 0
IsWritable table addr n =
    (j : ℕ) → addr ≤ j → j < addr + n → InRegion1 j × ((f : ℕ) × (frame_at table j ≡ some f))

abbrev pub or_old : Option ℕ → Option ℕ → Option ℕ
or_old none old = old
or_old (some v) old = some v

-- A flat memory with the bytes from `addr` on replaced.
abbrev pub overlay : (addr : ℕ) → List ℕ → (ℕ → Option ℕ) → ℕ → Option ℕ
overlay addr bs mem b = if leb addr b then or_old (get_elem? bs (b - addr)) (mem b) else mem b

-- What `write_user` makes of the memory.
pub written : List Pte → (addr : ℕ) → List ℕ → Memory → Memory
unfolding write_frame
written table addr [] m = m
written table addr (v ∷ bs) m = elim (frame_at table addr) [
  | none ↦ m
  | some f ↦ written table (addr + 1) bs (write_frame f (addr % page_size) v m)
]

get_elem?-set-if :
    (xs : List ℕ) (i j v : ℕ)
    → i < length xs
    → get_elem? (set xs i v) j ≡ (if i == j then some v else get_elem? xs j)
get_elem?-set-if [] i j v h = absurd (omega arith)
get_elem?-set-if (x ∷ xs) zero zero v h = ground arith
get_elem?-set-if (x ∷ xs) zero (suc j) v h = ground arith
get_elem?-set-if (x ∷ xs) (suc i) zero v h = ground arith
get_elem?-set-if (x ∷ xs) (suc i) (suc j) v h =
    ground (arith, get_elem?-set-if xs i j v (omega arith))

length-set_same : (xs : List ℕ) (i v : ℕ) → length (set xs i v) ≡ length xs
length-set_same [] i v = refl
length-set_same (x ∷ xs) zero v = refl
length-set_same (x ∷ xs) (suc i) v = ap suc (length-set_same xs i v)

write_frame-HasWholeFrames :
    (f i v : ℕ) (m : Memory) → HasWholeFrames m → HasWholeFrames (write_frame f i v m)
unfolding write_frame
write_frame-HasWholeFrames f i v m whole g =
    ground (arith, whole g, length-set_same (m.contents g) i v)

-- An address is its page and its offset.
same_addr :
    (a b : ℕ)
    → InRegion1 a
    → InRegion1 b
    → vpn_of a ≡ vpn_of b
    → a % page_size ≡ b % page_size
    → a ≡ b
same_addr a b ra rb e o = omega (arith, ra.low, ra.high, rb.low, rb.high)

module _ (table : List Pte) (own : HasOwnFrames table) where
  byte_at-write_frame :
      (a b f v : ℕ) (m : Memory)
      → InRegion1 a
      → InRegion1 b
      → HasWholeFrames m
      → frame_at table a ≡ some f
      → byte_at table (write_frame f (a % page_size) v m) b
        ≡ (if b == a then some v else byte_at table m b)
  unfolding write_frame
  byte_at-write_frame a b f v m ra rb whole at = elim (Option-cases (mapped_at table b)) [
    | inl e ↦
        let from : mapped_at table a ≡ some f = frame_at-mapped_at table a f at in
        let far : b ≢ a = λ q. cc in
        let test : (b == a) ≡ false = ground (arith, far) in rw (e, test) refl
    | inr (g, e) ↦ elim (Bool-cases (g == f)) [
      | inl same ↦
          let q : g ≡ f = ground arith in
          let page : vpn_of a ≡ vpn_of b =
            own a b f (frame_at-mapped_at table a f at) (e ∙ ap some q) in
          let offset_lt : a % page_size < length (m.contents g) = rw (whole g) (omega arith) in
          let test : (a % page_size == b % page_size) ≡ (b == a) =
            ground (arith, same_addr a b ra rb page, ap (λ x. x % page_size) {x = b} {y = a}) in
          rw
            (
              e,
              same,
              get_elem?-set-if (m.contents g) (a % page_size) (b % page_size) v offset_lt,
              test,
            )
            refl
      | inr other ↦
          let from : mapped_at table a ≡ some f = frame_at-mapped_at table a f at in
          let far : b ≢ a = λ q. absurd (ground arith) in
          let test : (b == a) ≡ false = ground (arith, far) in rw (e, other, test) refl
    ]
  ]

pub written-HasWholeFrames :
    (table : List Pte) (addr : ℕ) (bs : List ℕ) (m : Memory)
    → HasWholeFrames m
    → HasWholeFrames (written table addr bs m)
unfolding written
written-HasWholeFrames table addr [] m whole = whole
written-HasWholeFrames table addr (v ∷ bs) m whole = elim (Option-cases (frame_at table addr)) [
  | inl e ↦ rw (e, written) whole
  | inr (f, e) ↦
      rw (e, written)
        (written-HasWholeFrames table (addr + 1) bs (write_frame f (addr % page_size) v m)
          (write_frame-HasWholeFrames f (addr % page_size) v m whole))
]

IsWritable-suc :
    (table : List Pte) (addr n : ℕ) → IsWritable table addr (suc n) → IsWritable table (addr + 1) n
IsWritable-suc table addr n w j lo hi = w j (omega arith) (omega arith)

-- The bytes of a flat memory with a block replaced, one byte first and then the others.
overlay-cons :
    (addr v : ℕ) (bs : List ℕ) (mem mem' : ℕ → Option ℕ) (b : ℕ)
    → mem' b ≡ (if b == addr then some v else mem b)
    → overlay (addr + 1) bs mem' b ≡ overlay addr (v ∷ bs) mem b
overlay-cons addr v bs mem mem' b e = elim (Bool-cases (leb addr b)) [
  | inr below ↦ ground arith
  | inl above ↦ elim (Bool-cases (b == addr)) [
    | inl here ↦
        let zero_off : b - addr ≡ 0 = ground arith in
        let low : leb (addr + 1) b ≡ false = ground arith in rw (low, above, zero_off, e, here) refl
    | inr past ↦
        let off : b - addr ≡ suc (b - (addr + 1)) = ground arith in
        let high : leb (addr + 1) b ≡ true = ground arith in rw (high, above, off, e, past) refl
  ]
]

written-cons :
    (table : List Pte) (addr v f : ℕ) (bs : List ℕ) (m : Memory)
    → frame_at table addr ≡ some f
    → written table addr (v ∷ bs) m
      ≡ written table (addr + 1) bs (write_frame f (addr % page_size) v m)
unfolding written
written-cons table addr v f bs m here = rw (written, here) refl

module _ (p : Ptr) (c : Pcb) (ne : p ≢ null) where
  pub write_user-ok :
      (addr : ℕ) (bs : List ℕ) (k : Kernel)
      → k.pcbs p ≡ some c
      → IsWritable c.ptbr addr (length bs)
      → write_user p addr bs k ≡ ok tt (record k { memory = written c.ptbr addr bs k.memory })
  unfolding write_user written
  write_user-ok addr [] k at w = refl
  write_user-ok addr (v ∷ bs) k at w =
      let (r, (f, here)) = w addr (omega arith) (omega arith) in
      rw (load-ok p c k ne at, here)
        (write_user-ok (addr + 1) bs _ at (IsWritable-suc c.ptbr addr (length bs) w)
          ∙ ap (λ m. ok tt (record k { memory = m }))
              (sym (written-cons c.ptbr addr v f bs k.memory here)))

module _ (table : List Pte) (own : HasOwnFrames table) where
  -- For a table whose valid pages have frames of their own, writing bytes to addresses that can be
  -- written leaves a flat memory in which these bytes, and no others, have been replaced.
  pub written-overlay :
      (addr : ℕ) (bs : List ℕ) (m : Memory) (b : ℕ)
      → HasWholeFrames m
      → IsWritable table addr (length bs)
      → InRegion1 b
      → byte_at table (written table addr bs m) b ≡ overlay addr bs (byte_at table m) b
  unfolding written
  written-overlay addr [] m b whole w rb = ground arith
  written-overlay addr (v ∷ bs) m b whole w rb =
      let (ra, (f, here)) = w addr (omega arith) (omega arith) in
      let m' = write_frame f (addr % page_size) v m in
      rw (written, here)
        (written-overlay (addr + 1) bs m' b
            (write_frame-HasWholeFrames f (addr % page_size) v m whole)
            (IsWritable-suc table addr (length bs) w) rb
          ∙ overlay-cons addr v bs (byte_at table m) (byte_at table m') b
              (byte_at-write_frame table own addr b f v m ra rb whole here))

pub written-same :
    (table : List Pte) (addr : ℕ) (bs : List ℕ) (m : Memory)
    → written table addr bs m ≡ record m { contents = (written table addr bs m).contents }
unfolding written write_frame
written-same table addr [] m = refl
written-same table addr (v ∷ bs) m = elim (Option-cases (frame_at table addr)) [
  | inl e ↦ rw (e, written) refl
  | inr (f, e) ↦
      rw (e, written) (written-same table (addr + 1) bs (write_frame f (addr % page_size) v m))
]

pub written-KeepsOthers :
    (table : List Pte) (addr : ℕ) (bs : List ℕ) (m : Memory)
    → KeepsOthers table m (written table addr bs m)
unfolding written write_frame
written-KeepsOthers table addr [] m f away = refl
written-KeepsOthers table addr (v ∷ bs) m f away = elim (Option-cases (frame_at table addr)) [
  | inl e ↦ rw (e, written) refl
  | inr (g, e) ↦
      let far : f ≢ g = λ q. away addr (frame_at-mapped_at table addr g e ∙ ap some (sym q)) in
      let test : (f == g) ≡ false = ground (arith, far) in
      rw (e, written)
        (written-KeepsOthers table (addr + 1) bs (write_frame g (addr % page_size) v m) f away
          ∙ rw test refl)
]

-- The flat memory of the process has the block replaced, and nothing but the contents of its frames
-- has changed.
pub record FlatWritten (c : Pcb) (addr : ℕ) (bs : List ℕ) (k t : Kernel) : Type 0 where
  pub bytes :
      (b : ℕ)
      → InRegion1 b
      → byte_at c.ptbr t.memory b ≡ overlay addr bs (byte_at c.ptbr k.memory) b
  pub only_memory : t ≡ record k { memory = t.memory }
  pub only_contents : t.memory ≡ record k.memory { contents = t.memory.contents }
  pub other_frames : KeepsOthers c.ptbr k.memory t.memory
  pub whole : HasWholeFrames t.memory

-- For a process with a PCB whose valid pages have frames of their own, each a page long, writing
-- bytes through its page table at addresses that can be written refines a flat memory: it returns,
-- and the byte at each address of a valid page is the one written there, or the one it was where
-- none was written. Nothing but the contents of the frames of its valid pages has changed.
pub write_user-FlatWritten :
    (p : Ptr) (c : Pcb) (addr : ℕ) (bs : List ℕ) (k : Kernel)
    → p ≢ null
    → k.pcbs p ≡ some c
    → HasOwnFrames c.ptbr
    → HasWholeFrames k.memory
    → IsWritable c.ptbr addr (length bs)
    → Returns (λ _. FlatWritten c addr bs k) (write_user p addr bs k)
write_user-FlatWritten p c addr bs k ne at own whole w =
    rw (write_user-ok p c ne addr bs k at w) (record {
      bytes = λ b rb. written-overlay c.ptbr own addr bs k.memory b whole w rb;
      only_memory = refl;
      only_contents = written-same c.ptbr addr bs k.memory;
      other_frames = written-KeepsOthers c.ptbr addr bs k.memory;
      whole = written-HasWholeFrames c.ptbr addr bs k.memory whole;
    })
