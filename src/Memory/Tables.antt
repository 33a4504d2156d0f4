-- ===== src/Memory/Tables.antt =====
-- Page tables (src/mem.c): `MapRegion0`, `UnmapRegion0`, and `CloneFrame`, which copies a frame by
-- way of two scratch pages of region 0.
use tiny_kernels.Prelude.{
  ℕ, zero, suc, ◌<◌, ◌≤◌, ◌^◌, ◌≡◌, ◌≢◌, refl, sym, ap, ◌∙◌, true, some, List, [], ◌∷◌, arith, ltb,
  ◌==◌, if◌then◌else◌, length, get_elem?, get_elem?-some,
}
use mathlib.Core.Option
use tiny_kernels.Prelude.Int.{pos}
use tiny_kernels.Prelude.Run.{ok, Returns}
use tiny_kernels.Hardware.{
  page_of, max_pt_len, prot_read, prot_read_write, Pte, invalid_pte, tlb_flush,
}
use tiny_kernels.Memory.{
  Memory, nframes, vpn_in_region0, modify, mapped, invalidated, update_region0, map_region0,
  unmap_region0, frame_of, copy_page, clone_frame, scratch_addr_src, scratch_addr_dst,
  write_register,
}
use tiny_kernels.Memory.Frames.{length-modify}

module _ {ℓ} {A : Type ℓ} where
  pub get_elem?-modify_self :
      (t : List A) (i : ℕ) (g : A → A) → get_elem? (modify t i g) i ≡ Option.map g (get_elem? t i)
  get_elem?-modify_self [] i g = refl
  get_elem?-modify_self (x ∷ xs) zero g = refl
  get_elem?-modify_self (x ∷ xs) (suc i) g = get_elem?-modify_self xs i g

  pub get_elem?-modify_ne :
      (t : List A) (i j : ℕ) (g : A → A) → i ≢ j → get_elem? (modify t i g) j ≡ get_elem? t j
  get_elem?-modify_ne [] i j g ne = refl
  get_elem?-modify_ne (x ∷ xs) zero zero g ne = absurd (ne refl)
  get_elem?-modify_ne (x ∷ xs) zero (suc j) g ne = refl
  get_elem?-modify_ne (x ∷ xs) (suc i) zero g ne = refl
  get_elem?-modify_ne (x ∷ xs) (suc i) (suc j) g ne =
      get_elem?-modify_ne xs i j g (λ e. ne (ap suc e))

pub update_region0-ok :
    (vpn : ℕ) (g : Pte → Pte) (m : Memory)
    → vpn < length m.pt_region0
    → update_region0 vpn g m ≡ ok tt (record m { pt_region0 = modify m.pt_region0 vpn g })
unfolding update_region0
update_region0-ok vpn g m h =
    let here : ltb vpn (length m.pt_region0) ≡ true = ground arith in rw here

-- The memory has a whole page table for region 0, and its frame numbers fit their 24 bits.
pub record IsSized (m : Memory) : Type 0 where
  pub table : length m.pt_region0 ≡ max_pt_len
  pub frames : nframes m ≤ 2 ^ 24

-- The memory with a page of region 0 mapped.
abbrev pub with_page : Memory → ℕ → ℕ → Memory
with_page m cur i = record m {
  pt_region0 = modify m.pt_region0 cur (mapped (pos i) prot_read_write);
}

pub map_region0-ok :
    (cur i : ℕ) (m : Memory)
    → cur < max_pt_len
    → IsSized m
    → map_region0 cur (pos i) m ≡ ok tt (with_page m cur i)
unfolding map_region0 vpn_in_region0
map_region0-ok cur i m h z =
    let here : ltb cur max_pt_len ≡ true = ground arith in
    rw here (update_region0-ok cur (mapped (pos i) prot_read_write) m (omega (arith, z.table)))

pub unmap_region0-ok :
    (cur : ℕ) (m : Memory)
    → cur < max_pt_len
    → IsSized m
    → unmap_region0 cur m
      ≡ ok tt (record m { pt_region0 = modify m.pt_region0 cur (λ e. invalid_pte) })
unfolding unmap_region0 vpn_in_region0
unmap_region0-ok cur m h z =
    let here : ltb cur max_pt_len ≡ true = ground arith in
    rw here (update_region0-ok cur (λ e. invalid_pte) m (omega (arith, z.table)))

frame_of-ok :
    (vpn : ℕ) (e : Pte) (m : Memory)
    → get_elem? m.pt_region0 vpn ≡ some e
    → e.valid ≡ true
    → frame_of vpn m ≡ ok e.pfn m
unfolding frame_of
frame_of-ok vpn e m h v = rw (h, v)

-- The entry of a page after `modify`, in bounds.
pub modified :
    (t : List Pte) (i : ℕ) (g : Pte → Pte)
    → i < length t
    → (e : Pte) × (get_elem? (modify t i g) i ≡ some (g e))
modified t i g h = let (e, at) = get_elem?-some t i h in (e, rw (get_elem?-modify_self t i g, at))

module _ (m : Memory) (i j : ℕ) (src dst : ℕ) (size_i : i < length m.pt_region0)
    (size_j : j < length m.pt_region0) (apart : i ≢ j) (small_src : src < 2 ^ 24)
    (small_dst : dst < 2 ^ 24) where
  -- Region 0 while the copy is made, and after it.
  during : List Pte
  during =
      modify (modify m.pt_region0 i (mapped (pos src) prot_read)) j
        (mapped (pos dst) prot_read_write)

  after : List Pte
  unfolding during
  after = modify (modify during i invalidated) j invalidated

  at_src : (e : Pte) × (get_elem? during i ≡ some e) × (e.valid ≡ true) × (e.pfn ≡ src)
  unfolding during
  at_src =
      let (e, at) = modified m.pt_region0 i (mapped (pos src) prot_read) size_i in
      (
        mapped (pos src) prot_read e,
        rw (get_elem?-modify_ne _ j i (mapped (pos dst) prot_read_write) (λ q. apart (sym q))) at,
        refl,
        omega arith,
      )

  at_dst : (e : Pte) × (get_elem? during j ≡ some e) × (e.valid ≡ true) × (e.pfn ≡ dst)
  unfolding during
  at_dst =
      let (e, at) =
        modified (modify m.pt_region0 i (mapped (pos src) prot_read)) j
          (mapped (pos dst) prot_read_write)
          (omega (arith, length-modify m.pt_region0 i (mapped (pos src) prot_read))) in
      (mapped (pos dst) prot_read_write e, at, refl, omega arith)

  length-during : length during ≡ length m.pt_region0
  unfolding during
  length-during = length-modify _ j _ ∙ length-modify m.pt_region0 i _

  length-after : length after ≡ length m.pt_region0
  unfolding after
  length-after = length-modify _ j _ ∙ length-modify during i _ ∙ length-during

  after_others : (k : ℕ) → i ≢ k → j ≢ k → get_elem? after k ≡ get_elem? m.pt_region0 k
  unfolding after
  after_others k ni nj =
      get_elem?-modify_ne _ j k _ nj
      ∙ get_elem?-modify_ne during i k _ ni
      ∙ get_elem?-modify_ne _ j k _ nj
      ∙ get_elem?-modify_ne m.pt_region0 i k _ ni

  copy_page-during :
      (t : Memory)
      → t.pt_region0 ≡ during
      → copy_page j i t
        ≡ ok tt (record t { contents = λ f. if f == dst then t.contents src else t.contents f })
  unfolding copy_page
  copy_page-during t e =
      let (ej, atj, vj, pj) = at_dst in
      let (ei, ati, vi, pi) = at_src in
      rw (frame_of-ok j ej t (rw e atj) vj, frame_of-ok i ei t (rw e ati) vi, pi, pj)

-- `CloneFrame` leaves the destination frame with the content of the source frame.
abbrev pub Cloned : (src dst : ℕ) → Memory → Memory → Type 0
Cloned src dst m t =
    ((f : ℕ) → t.contents f ≡ (if f == dst then m.contents src else m.contents f))
    × (t.frame_table ≡ m.frame_table)
    × (t.free_nframes ≡ m.free_nframes)
    × (length t.pt_region0 ≡ length m.pt_region0)
    × ((k : ℕ)
        → page_of scratch_addr_src ≢ k
        → page_of scratch_addr_dst ≢ k
        → get_elem? t.pt_region0 k ≡ get_elem? m.pt_region0 k)

-- `CloneFrame` between frames with numbers of 24 bits, with a whole table of region 0, gives the
-- destination frame the content of the source frame and changes no other content, no frame's use,
-- and no page of region 0 but the two scratch pages.
pub clone_frame-Cloned :
    (src dst : ℕ) (m : Memory)
    → src < 2 ^ 24
    → dst < 2 ^ 24
    → length m.pt_region0 ≡ max_pt_len
    → Returns (λ _. Cloned src dst m) (clone_frame (pos src) (pos dst) m)
unfolding clone_frame write_register after
clone_frame-Cloned src dst m hs hd size =
    let si : 124 < length m.pt_region0 = omega arith in
    let sj : 125 < length m.pt_region0 = omega arith in
    let ne : ◌≢◌ {A = ℕ} 124 125 = omega arith in
    let l1 = length-modify m.pt_region0 124 (mapped (pos src) prot_read) in
    let l2 = length-during m 124 125 src dst si sj ne hs hd in
    let l3 = length-modify (during m 124 125 src dst si sj ne hs hd) 124 invalidated in
    let m1 = record m { pt_region0 = modify m.pt_region0 124 (mapped (pos src) prot_read) } in
    let m2 = record m {
      pt_region0 = during m 124 125 src dst si sj ne hs hd;
      registers =
          (tlb_flush, pos scratch_addr_dst) ∷ (tlb_flush, pos scratch_addr_src) ∷ m.registers;
    } in
    let m3 = record m2 { contents = λ f. if f == dst then m.contents src else m.contents f } in
    let m4 = record m3 { pt_region0 = modify m3.pt_region0 124 invalidated } in
    rw
      (
        update_region0-ok 124 (mapped (pos src) prot_read) m si,
        update_region0-ok 125 (mapped (pos dst) prot_read_write) m1 (omega arith),
        copy_page-during m 124 125 src dst si sj ne hs hd m2 refl,
        update_region0-ok 124 invalidated m3 (omega arith),
        update_region0-ok 125 invalidated m4 (omega arith),
      )
      (
        λ f. refl,
        refl,
        refl,
        length-after m 124 125 src dst si sj ne hs hd,
        after_others m 124 125 src dst si sj ne hs hd,
      )
