-- ===== src/UserMemory/StackLoop.antt =====
-- The loop of `growStack` of src/traps/trap.c that maps pages.
use tiny_kernels.Prelude.{
  ℕ, zero, suc, ◌+◌, ◌<◌, ◌≤◌, ◌^◌, ◌≡◌, ◌≢◌, refl, ◌∙◌, ap, ◌⊎◌, inl, inr, Bool, true, false, not,
  ◌&&◌, ◌||◌, some, List, [], ◌∷◌, ◌++◌, arith, ◌==◌, Bool-cases, length, length-append, get_elem?,
  subst,
}
use tiny_kernels.Prelude.Int.{pos, minus_one}
use tiny_kernels.Prelude.Run.{ok, Returns, bind, mono}
use tiny_kernels.Hardware.{Pte, max_pt_len, prot_read_write}
use tiny_kernels.Memory.{Memory, nframes, frame_user, mapped, alloc_frame}
use tiny_kernels.Memory.Frames.{
  free_at, used_at, Counted, Taken, used-not-free, free-lt-length, length-modify,
}
use tiny_kernels.Memory.Tables.{get_elem?-modify_ne, modified}
use tiny_kernels.Kernel.{Ptr, null, Pcb, Kernel}
use tiny_kernels.Kernel.Scheduling.{with_pcb, load-ok, write_pcb-if}
use tiny_kernels.Kernel.Switching.{on_memory-ok}
use tiny_kernels.UserMemory.{unmap_stack, map_stack}
use tiny_kernels.UserMemory.Pages.{
  among, Apart, HasPages, AllUsed, HasTable, HasPages-cong, Taken-free, Taken-used, alloc_cases,
  with_user_page, map_user-ok, HasPages-snoc, among-snoc, Apart-snoc, free-not-used, Apart-Taken,
}
use tiny_kernels.UserMemory.Rollback.{Unmapped, unmap_stack-Unmapped}

-- The process at `curr` has mapped `n` new pages from `v` on, each to a frame of its own.
pub record Grew (k : Kernel) (c : Pcb) (curr : Ptr) (v n : ℕ) (t : Kernel) : Type 0 where
  pub frames : List ℕ
  pub size : length frames ≡ n
  pub apart : Apart frames
  pub new : (f : ℕ) → among f frames ≡ true → free_at k.memory.frame_table f ≡ true
  pub pcb : Pcb
  pub at : t.pcbs curr ≡ some pcb
  pub pages : HasPages pcb.ptbr v frames
  pub others : (j : ℕ) → (j < v) ⊎ (v + n ≤ j) → get_elem? pcb.ptbr j ≡ get_elem? c.ptbr j
  pub free :
      (f : ℕ)
      → free_at t.memory.frame_table f ≡ (free_at k.memory.frame_table f && not (among f frames))
  pub used :
      (f : ℕ) → used_at t.memory.frame_table f ≡ (used_at k.memory.frame_table f || among f frames)

-- The loop of `growStack`, where the frames `gs` have been taken before: it maps the pages that are
-- left, or gives those frames back.
pub record Stacked (k : Kernel) (c : Pcb) (curr : Ptr) (v n : ℕ) (gs : List ℕ) (r : Bool)
    (t : Kernel) : Type 0 where
  pub counted : Counted k.memory → Counted t.memory
  pub table : HasTable t curr
  pub grew : r ≡ true → Grew k c curr v n t
  pub restored :
      r ≡ false
      → (f : ℕ)
      → (free_at t.memory.frame_table f ≡ (free_at k.memory.frame_table f || among f gs))
        × (used_at t.memory.frame_table f ≡ (used_at k.memory.frame_table f && not (among f gs)))

-- A round that maps a page, and the rounds after it.
module _ (n v i : ℕ) (gs : List ℕ) (curr : Ptr) (k : Kernel) (c : Pcb) (m : Memory)
    (in_table : v < length c.ptbr) (small : nframes k.memory ≤ 2 ^ 24)
    (taken : Taken k.memory i m) where
  abbrev c1 : Pcb
  c1 = with_user_page c v i

  abbrev k2 : Kernel
  k2 = with_pcb (record k { memory = m }) curr c1

  new_page :
      (e : Pte) × (get_elem? c1.ptbr v ≡ some e)
      × (e.valid ≡ true)
      × (e.prot ≡ prot_read_write)
      × (e.pfn ≡ i)
  new_page =
      let (e, at) = modified c.ptbr v (mapped (pos i) prot_read_write) in_table in
      let bound = free-lt-length k.memory.frame_table i taken.was_free in
      (mapped (pos i) prot_read_write e, at, refl, refl, omega arith)

  module _ (t : Kernel) (g : Grew k2 c1 curr (v + 1) n t) where
    not_again : among i g.frames ≡ false
    not_again = elim (Bool-cases (among i g.frames)) [
      | inl e ↦ absurd (ground (arith, g.new i e, used-not-free m.frame_table i taken.in_use))
      | inr e ↦ e
    ]

    was_free : (f : ℕ) → among f (i ∷ g.frames) ≡ true → free_at k.memory.frame_table f ≡ true
    was_free f inn = elim (Bool-cases (f == i)) [
      | inl e ↦ let q : f ≡ i = ground arith in rw q taken.was_free
      | inr e ↦ ground (arith, g.new f, Taken-free k.memory m i taken f)
    ]

    first_page :
        (e : Pte) × (get_elem? g.pcb.ptbr v ≡ some e)
        × (e.valid ≡ true)
        × (e.prot ≡ prot_read_write)
        × (e.pfn ≡ i)
    first_page =
        let (e, at, a, b, d) = new_page in (e, g.others v (inl (omega arith)) ∙ at, a, b, d)

    pub Grew-step : Grew k c curr v (suc n) t
    Grew-step = record {
      frames = i ∷ g.frames;
      size = ap suc g.size;
      apart = (not_again, g.apart);
      new = was_free;
      pcb = g.pcb;
      at = g.at;
      pages = (first_page, g.pages);
      others = λ j far.
          g.others j (ground (arith, far))
          ∙ get_elem?-modify_ne c.ptbr v j (mapped (pos i) prot_read_write) (ground (arith, far));
      free = λ f. g.free f ∙ ground (arith, Taken-free k.memory m i taken f);
      used = λ f. g.used f ∙ ground (arith, Taken-used k.memory m i taken f);
    }

  back :
      (f : ℕ)
      → (f == i) ≡ true
      → (free_at k.memory.frame_table f ≡ true) × (used_at k.memory.frame_table f ≡ false)
  back f e =
      let q : f ≡ i = ground arith in
      (rw q taken.was_free, rw q (free-not-used k.memory.frame_table i taken.was_free))

  Stacked-step :
      (r : Bool) (t : Kernel)
      → Stacked k2 c1 curr (v + 1) n (gs ++ i ∷ []) r t
      → Stacked k c curr v (suc n) gs r t
  Stacked-step r t s = record {
    counted = λ h. s.counted (taken.counted h).0;
    table = s.table;
    grew = λ e. Grew-step t (s.grew e);
    restored = λ e f.
        let (a, b) = s.restored e f in
        (
          a ∙ ground (arith, Taken-free k.memory m i taken f, among-snoc f i gs, back f),
          b ∙ ground (arith, Taken-used k.memory m i taken f, among-snoc f i gs, back f),
        );
  }

pub map_stack-Stacked :
    (n target : ℕ) (gs : List ℕ) (curr : Ptr) (k : Kernel) (c : Pcb)
    → curr ≢ null
    → k.pcbs curr ≡ some c
    → length c.ptbr ≡ max_pt_len
    → target + length gs + n ≤ max_pt_len
    → nframes k.memory ≤ 2 ^ 24
    → HasPages c.ptbr target gs
    → Apart gs
    → AllUsed k.memory.frame_table gs
    → Returns (Stacked k c curr (target + length gs) n gs) (map_stack n (length gs) target curr k)
unfolding map_stack
map_stack-Stacked zero target gs curr k c ne at size fits small pages apart used = record {
  counted = λ h. h;
  table = (c, at, size);
  grew = λ _. record {
    frames = [];
    size = refl;
    apart = tt;
    new = λ f i. absurd cc;
    pcb = c;
    at = at;
    pages = tt;
    others = λ j far. refl;
    free = λ f. ground arith;
    used = λ f. ground arith;
  };
  restored = λ e. absurd cc;
}
map_stack-Stacked (suc n) target gs curr k c ne at size fits small pages apart used =
    elim (alloc_cases c.pid k.memory) [
      | inl (i, m, e, taken) ↦
          let v = target + length gs in
          let in_table : v < length c.ptbr = omega arith in
          let one_more : length (gs ++ i ∷ []) ≡ length gs + 1 = length-append gs (i ∷ []) in
          let over : target + (length gs + 1) ≡ v + 1 = omega arith in
          let kn = k2 n v i gs curr k c m in_table small taken in
          let cn = with_user_page c v i in
          let unused = Apart-Taken gs i k m taken used in
          let ih =
            map_stack-Stacked n target (gs ++ i ∷ []) curr kn cn ne
              (rw (write_pcb-if k.pcbs curr (some cn) curr) (ground arith))
              (length-modify c.ptbr v (mapped (pos i) prot_read_write) ∙ size)
              (omega (arith, one_more)) (rw taken.size small)
              (HasPages-snoc cn.ptbr target i gs
                (HasPages-cong c.ptbr cn.ptbr target gs
                  (λ j lo hi.
                    get_elem?-modify_ne c.ptbr v j (mapped (pos i) prot_read_write) (omega arith))
                  pages)
                (new_page n v i gs curr k c m in_table small taken))
              (Apart-snoc i gs apart unused)
              (λ f inn.
                ground (arith, among-snoc f i gs, Taken-used k.memory m i taken f, used f)) in
          let moved =
            subst
              (λ l.
                Returns (Stacked kn cn curr (target + l) n (gs ++ i ∷ []))
                  (map_stack n l target curr kn))
              one_more ih in
          rw
            (
              load-ok curr c k ne at,
              on_memory-ok (alloc_frame frame_user c.pid) (pos i) m k e,
              map_user-ok curr v i c (record k { memory = m }) ne at in_table,
            )
            (mono (Stacked kn cn curr (v + 1) n (gs ++ i ∷ [])) (Stacked k c curr v (suc n) gs) _
              (subst
                (λ w.
                  Returns (Stacked kn cn curr w n (gs ++ i ∷ []))
                    (map_stack n (length gs + 1) target curr kn))
                over moved)
              (Stacked-step n v i gs curr k c m in_table small taken))
      | inr e ↦
          rw
            (
              load-ok curr c k ne at,
              on_memory-ok (alloc_frame frame_user c.pid) minus_one k.memory k e,
            )
            (bind (λ _. Unmapped k curr gs) (Stacked k c curr (target + length gs) (suc n) gs)
              (unmap_stack (length gs) 0 target curr k) (λ _. ok false)
              (unmap_stack-Unmapped gs 0 target curr k c ne at size (omega arith)
                (let z : target + 0 ≡ target = omega arith in rw z pages) apart used)
              λ _ t u. record {
                counted = u.counted;
                table = u.table;
                grew = λ q. absurd cc;
                restored = λ _ f. (u.free f, u.used f);
              })
    ]
