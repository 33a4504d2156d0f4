-- ===== src/Memory.antt =====
-- src/mem.c and src/include/mem.h: the table of physical frames, the page table of region 0 and the
-- copying of frames through the two scratch pages.
-- `frame_table` has `nframes` entries, so `nframes` is its length. The content of a frame is a list
-- of bytes. `registers` records the calls of `WriteRegister`, the newest first.
pub mod Frames
pub mod Tables
use tiny_kernels.Prelude.{
  ℕ, zero, suc, ◌+◌, ◌-◌, ◌<◌, ◌%◌, ◌^◌, Bool, true, false, not, ◌&&◌, Option, none, some, List, [],
  ◌∷◌, ltb, leb, ◌==◌, if◌then◌else◌, length, get_elem?, set,
}
use mathlib.Core.Option
use tiny_kernels.Prelude.Int.{ℤ, pos, negsuc, minus_one}
use tiny_kernels.Prelude.Run.{Cmd, ok, pure, undefined, get, or_fault, ◌>>=◌, ◌>>◌}
use tiny_kernels.Hardware.{
  page_of, max_pt_len, kernel_stack_base, page_size, prot_read, prot_read_write, Pte, invalid_pte,
  to_pfn, Register, tlb_flush,
}

pub data FrameUsage : Type 0 where
  frame_free frame_kernel frame_user : FrameUsage

-- `frame_desc_t`
pub record FrameDesc : Type 0 where
  pub pfn : ℕ
  pub usage : FrameUsage
  pub owner_pid : ℤ
  pub last_used_tick : ℕ

pub record Memory : Type 0 where
  pub frame_table : List FrameDesc
  pub free_nframes : ℕ
  pub pt_region0 : List Pte
  pub kernel_brk_page : ℕ
  pub contents : ℕ → List ℕ
  pub registers : List (Register × ℤ)

abbrev pub is_free : FrameUsage → Bool
is_free frame_free = true
is_free frame_kernel = false
is_free frame_user = false

abbrev pub nframes : Memory → ℕ
nframes m = length m.frame_table

-- The loop of `allocFrame`: the first free frame.
pub find_free : List FrameDesc → Option ℕ
find_free [] = none
find_free (f ∷ fs) = if is_free f.usage then some 0 else Option.map suc (find_free fs)

abbrev pub mark : FrameUsage → FrameDesc → FrameDesc
mark u f = record f { usage = u; owner_pid = minus_one }

abbrev pub modify {ℓ} : {A : Type ℓ} → List A → ℕ → (A → A) → List A
modify [] i g = []
modify (x ∷ xs) zero g = g x ∷ xs
modify (x ∷ xs) (suc i) g = x ∷ modify xs i g

-- The writes that `allocFrame` and `allocSpecificFrame` share.
unfoldable pub take_frame : ℕ → FrameUsage → Memory → Memory
take_frame i u m = record m {
  frame_table = modify m.frame_table i (mark u);
  free_nframes = if ltb 0 m.free_nframes then m.free_nframes - 1 else m.free_nframes;
}

-- `allocFrame`. Its argument `owner_pid` is not used by the code.
unfoldable pub alloc_frame : FrameUsage → (owner_pid : ℤ) → Cmd Memory ℤ
unfolding find_free take_frame
alloc_frame u owner_pid m = elim (find_free m.frame_table) [
  | none ↦ ok minus_one m
  | some i ↦ ok (pos i) (take_frame i u m)
]

-- `allocSpecificFrame`: a negative pfn passes the test and is an access outside the table.
unfoldable pub alloc_specific_frame : ℤ → FrameUsage → (owner_pid : ℤ) → Cmd Memory ℤ
unfolding take_frame
alloc_specific_frame (negsuc n) u owner_pid m = undefined m
alloc_specific_frame (pos pfn) u owner_pid m =
    if leb (nframes m) pfn
    then ok minus_one m
    else (do
      f ← or_fault (get_elem? m.frame_table pfn)
      if not (is_free f.usage) then pure minus_one else λ m. ok (pos pfn) (take_frame pfn u m))
        m

unfoldable pub valid_pfn : ℤ → Memory → Bool
valid_pfn (pos pfn) m = ltb pfn (nframes m)
valid_pfn (negsuc n) m = false

-- The writes of `freeFrame` to a valid frame.
unfoldable pub release_frame : ℕ → Memory → Memory
release_frame i m = record m {
  frame_table = modify m.frame_table i (mark frame_free);
  free_nframes = m.free_nframes + 1;
}

unfoldable pub free_frame : ℤ → Cmd Memory (Unit {0})
unfolding valid_pfn release_frame
free_frame (negsuc n) m = ok tt m
free_frame (pos pfn) m =
    if not (valid_pfn (pos pfn) m) then ok tt m else ok tt (release_frame pfn m)

-- Reads and writes of an entry of a page table, faults outside of it.
unfoldable pub read_pte : List Pte → ℕ → Option Pte
read_pte t vpn = get_elem? t vpn

unfoldable pub write_pte : List Pte → ℕ → (Pte → Pte) → Option (List Pte)
write_pte t vpn g = if ltb vpn (length t) then some (modify t vpn g) else none

abbrev pub mapped : ℤ → ℕ → Pte → Pte
mapped pfn prot e = record e { valid = true; prot = prot; pfn = to_pfn pfn }

abbrev pub invalidated : Pte → Pte
invalidated e = record e { valid = false }

-- `MapPage`
unfoldable pub map_page : List Pte → (vpn : ℕ) → (pfn : ℤ) → (prot : ℕ) → Option (List Pte)
unfolding write_pte
map_page ptbr vpn pfn prot = write_pte ptbr vpn (mapped pfn prot)

unfoldable pub vpn_in_region0 : ℕ → Bool
vpn_in_region0 vpn = ltb vpn max_pt_len

pub update_region0 : ℕ → (Pte → Pte) → Cmd Memory (Unit {0})
unfolding write_pte
update_region0 vpn g = do
  m ← get
  t ← or_fault (write_pte m.pt_region0 vpn g)
  λ m. ok tt (record m { pt_region0 = t })

-- `MapRegion0`
pub map_region0 : ℕ → ℤ → Cmd Memory (Unit {0})
unfolding update_region0 vpn_in_region0
map_region0 vpn pfn =
    if not (vpn_in_region0 vpn) then pure tt else update_region0 vpn (mapped pfn prot_read_write)

-- `UnmapRegion0`
pub unmap_region0 : ℕ → Cmd Memory (Unit {0})
unfolding update_region0 vpn_in_region0
unmap_region0 vpn =
    if not (vpn_in_region0 vpn) then pure tt else update_region0 vpn (λ e. invalid_pte)

unfoldable pub write_register : Register → ℤ → Cmd Memory (Unit {0})
write_register r v m = ok tt (record m { registers = (r, v) ∷ m.registers })

abbrev pub scratch_addr_dst : ℕ
scratch_addr_dst = kernel_stack_base - page_size

abbrev pub scratch_addr_src : ℕ
scratch_addr_src = kernel_stack_base - page_size - page_size

-- The frame that a page of region 0 is mapped to: a fault where it is not.
frame_of : ℕ → Cmd Memory ℕ
unfolding read_pte
frame_of vpn = do
  m ← get
  e ← or_fault (read_pte m.pt_region0 vpn)
  if e.valid then pure e.pfn else undefined

-- `memcpy` of a page between two pages of region 0.
copy_page : (dst src : ℕ) → Cmd Memory (Unit {0})
unfolding frame_of
copy_page dst src = do
  d ← frame_of dst
  s ← frame_of src
  λ m. ok tt (record m { contents = λ f. if f == d then m.contents s else m.contents f })

-- `CloneFrame`
pub clone_frame : (pfn_src pfn_dst : ℤ) → Cmd Memory (Unit {0})
clone_frame pfn_src pfn_dst = do
  update_region0 (page_of scratch_addr_src) (mapped pfn_src prot_read)
  update_region0 (page_of scratch_addr_dst) (mapped pfn_dst prot_read_write)
  write_register tlb_flush (pos scratch_addr_src)
  write_register tlb_flush (pos scratch_addr_dst)
  copy_page (page_of scratch_addr_dst) (page_of scratch_addr_src)
  update_region0 (page_of scratch_addr_src) invalidated
  update_region0 (page_of scratch_addr_dst) invalidated
  write_register tlb_flush (pos scratch_addr_src)
  write_register tlb_flush (pos scratch_addr_dst)
