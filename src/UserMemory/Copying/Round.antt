-- ===== src/UserMemory/Copying/Round.antt =====
-- A round of the loop of CopyPT (src/mem.c), before the rounds that follow it.
use tiny_kernels.Prelude.{
  ℕ, suc, ◌+◌, ◌<◌, ◌≤◌, ◌%◌, ◌^◌, ◌≡◌, ◌≢◌, refl, sym, ap, ◌∙◌, inl, inr, true, false, some, List,
  ◌∷◌, arith, ◌==◌, length, get_elem?, get_elem?-some, Bool-cases, some_unique, subst,
}
use tiny_kernels.Prelude.Int.{pos}
use tiny_kernels.Hardware.{Pte}
use tiny_kernels.Memory.{Memory, modify, mapped}
use tiny_kernels.Memory.Frames.{free_at, count_free, Taken, length-modify, free-lt-length}
use tiny_kernels.Memory.Tables.{IsSized, Cloned, get_elem?-modify_ne, modified}
use tiny_kernels.Kernel.{Ptr, Pcb, Kernel}
use tiny_kernels.Kernel.Scheduling.{with_pcb, write_pcb-if}
use tiny_kernels.UserMemory.Pages.{among, Taken-free, Taken-used}
use tiny_kernels.UserMemory.Copying.{Kept, MapsUsed, IsEmptyFrom, IsCopy, Copied, IsShort}
use tiny_kernels.UserMemory.Keeping.{Taken-FramesKept, Cloned-FramesKept}

-- The process at `dst`, and the kernel, with page `i` mapped to a copy of the page `e`.
abbrev pub d1 : Pcb → ℕ → Pte → ℕ → Pcb
d1 d i e f = record d { ptbr = modify d.ptbr i (mapped (pos f) e.prot) }

abbrev pub k2 : Kernel → Pcb → Ptr → ℕ → Pte → ℕ → Memory → Kernel
k2 k d dst i e f m2 = with_pcb (record k { memory = m2 }) dst (d1 d i e f)

pub Kept-round :
    (k : Kernel) (d : Pcb) (dst : Ptr) (i : ℕ) (e : Pte) (f : ℕ) (m1 m2 : Memory)
    → i < length d.ptbr
    → k.pcbs dst ≡ some d
    → Taken k.memory f m1
    → Cloned e.pfn f m1 m2
    → Kept k d dst (d1 d i e f) (k2 k d dst i e f m2)
Kept-round k d dst i e f m1 m2 in_table at taken cloned = record {
  at = rw (write_pcb-if k.pcbs dst (some (d1 d i e f)) dst) (ground arith);
  only_table = refl;
  length_table = length-modify d.ptbr i (mapped (pos f) e.prot);
  other_pcbs = λ a far.
      let test : (a == dst) ≡ false = ground (arith, far) in
      rw (write_pcb-if k.pcbs dst (some (d1 d i e f)) a, test) refl;
  rest = refl;
  frames =
      Cloned-FramesKept k.memory m1 m2 e.pfn f (Taken-FramesKept k.memory m1 f taken) taken.was_free
        cloned;
}

-- A round that copies a valid page.
module _ (k : Kernel) (c d : Pcb) (dst : Ptr) (i : ℕ) (e : Pte) (f : ℕ) (m1 m2 : Memory)
    (here : get_elem? c.ptbr i ≡ some e) (on : e.valid ≡ true) (maps : MapsUsed k c.ptbr)
    (sized : IsSized k.memory) (in_table : i < length d.ptbr) (taken : Taken k.memory f m1)
    (cloned : Cloned e.pfn f m1 m2) where
  small : f % 2 ^ 24 ≡ f
  small =
      let h = free-lt-length k.memory.frame_table f taken.was_free in omega (arith, h, sized.frames)

  -- The entry of the copied page.
  at_page : get_elem? (d1 d i e f).ptbr i ≡ some (record e { pfn = f })
  at_page =
      let (x, q) = modified d.ptbr i (mapped (pos f) e.prot) in_table in
      let z : mapped (pos f) e.prot x ≡ record e { pfn = f } = rw (small, on) refl in q ∙ ap some z

  module _ (n : ℕ) (copy : List Pte) (t : Kernel)
      (r : Copied (k2 k d dst i e f m2) c (d1 d i e f) n (i + 1) copy t) where
    page_kept : get_elem? copy i ≡ some (record e { pfn = f })
    page_kept = r.outside i (inl (omega arith)) ∙ at_page

    not_again : among f r.frames ≡ false
    not_again = elim (Bool-cases (among f r.frames)) [
      | inl q ↦
          let (_, table, _, _, _) = cloned in
          let h : free_at m1.frame_table f ≡ true = ap (λ x. free_at x f) (sym table) ∙ r.new f q in
          absurd (ground (arith, h, Taken-free k.memory m1 f taken f))
      | inr q ↦ q
    ]

    was_free : (g : ℕ) → among g (f ∷ r.frames) ≡ true → free_at k.memory.frame_table g ≡ true
    was_free g h = elim (Bool-cases (g == f)) [
      | inl q ↦ let z : g ≡ f = ground arith in rw z taken.was_free
      | inr q ↦
          let (_, table, _, _, _) = cloned in
          let h1 : free_at m1.frame_table g ≡ true =
            ap (λ x. free_at x g) (sym table) ∙ r.new g (ground (arith, h, q)) in
          ground (arith, h1, Taken-free k.memory m1 f taken g)
    ]

    first : IsCopy k t (f ∷ r.frames) copy i e
    first =
        let (same, _, _, _, _) = cloned in
        let test : (f == f) ≡ true = ground arith in
        (
          f,
          page_kept,
          ground arith,
          r.kept f not_again ∙ same f ∙ rw test (ap (λ h. h e.pfn) taken.same_contents),
        )

    page_copied :
        (j : ℕ) (x : Pte)
        → i ≤ j
        → j < i + suc n
        → get_elem? c.ptbr j ≡ some x
        → x.valid ≡ true
        → IsCopy k t (f ∷ r.frames) copy j x
    page_copied j x lo hi q v = elim (Bool-cases (i == j)) [
      | inl y ↦
          let z : i ≡ j = ground arith in
          let w : e ≡ x = some_unique (get_elem? c.ptbr i) here (rw z q) in
          subst (λ b. IsCopy k t (f ∷ r.frames) copy b x) z
            (subst (IsCopy k t (f ∷ r.frames) copy i) w first)
      | inr y ↦
          let (g, at', inn, cont) = r.copies j x (ground (arith, lo)) (omega arith) q v in
          (
            g,
            at',
            ground (arith, inn),
            cont
                ∙ ((Cloned-FramesKept k.memory m1 m2 e.pfn f (Taken-FramesKept k.memory m1 f taken)
                      taken.was_free cloned).in_use
                    x.pfn (maps j x q v)).1,
          )
    ]

    page_passed :
        (j : ℕ) (x : Pte)
        → get_elem? c.ptbr j ≡ some x
        → x.valid ≡ false
        → get_elem? copy j ≡ get_elem? d.ptbr j
    page_passed j x q v =
        let ne : i ≢ j = λ z.
          let w : e ≡ x = some_unique (get_elem? c.ptbr i) here (rw z q) in
          ground (arith, on, v, ap (λ y. y.valid) w) in
        r.passed j x q v ∙ get_elem?-modify_ne d.ptbr i j (mapped (pos f) e.prot) ne

    content_kept :
        (g : ℕ) → among g (f ∷ r.frames) ≡ false → t.memory.contents g ≡ k.memory.contents g
    content_kept g out =
        let (same, _, _, _, _) = cloned in
        let test : (g == f) ≡ false = ground (arith, out) in
        r.kept g (ground (arith, out)) ∙ same g ∙ rw test (ap (λ h. h g) taken.same_contents)

    pub Copied-round : Copied k c d (suc n) i copy t
    Copied-round =
        let (same, table, count, _, _) = cloned in
        record {
          frames = f ∷ r.frames;
          all = rw (page_kept, on) (ap (λ x. f ∷ x) r.all);
          size = rw (here, on) (ap suc r.size);
          gained = λ h.
              let (h1, less) = taken.counted h in
              let rest = r.gained (count ∙ h1 ∙ ap count_free (sym table)) in
              omega (arith, less, rest, count);
          apart = (not_again, r.apart);
          new = was_free;
          free = λ g. r.free g ∙ rw table (ground (arith, Taken-free k.memory m1 f taken g));
          used = λ g. r.used g ∙ rw table (ground (arith, Taken-used k.memory m1 f taken g));
          copies = page_copied;
          passed = page_passed;
          outside = λ j far.
              r.outside j (ground (arith, far))
              ∙ get_elem?-modify_ne d.ptbr i j (mapped (pos f) e.prot) (ground (arith, far));
          kept = content_kept;
        }

-- A round that passes over a page that is not valid.
pub Copied-skip :
    (k : Kernel) (c d : Pcb) (n i : ℕ) (e : Pte) (copy : List Pte) (t : Kernel)
    → get_elem? c.ptbr i ≡ some e
    → e.valid ≡ false
    → i < length d.ptbr
    → IsEmptyFrom i d.ptbr
    → Copied k c d n (i + 1) copy t
    → Copied k c d (suc n) i copy t
Copied-skip k c d n i e copy t here off in_table empty r =
    let (x, at) = get_elem?-some d.ptbr i in_table in
    let none_here : get_elem? copy i ≡ some x = r.outside i (inl (omega arith)) ∙ at in
    record {
      frames = r.frames;
      all = rw (none_here, empty i x (omega arith) at) r.all;
      size = r.size ∙ rw (here, off) refl;
      gained = r.gained;
      apart = r.apart;
      new = r.new;
      free = r.free;
      used = r.used;
      copies = λ j y lo hi q v.
          let ne : i ≢ j = λ z.
            let w : e ≡ y = some_unique (get_elem? c.ptbr i) here (rw z q) in
            ground (arith, off, v, ap (λ u. u.valid) w) in
          r.copies j y (omega arith) (omega arith) q v;
      passed = r.passed;
      outside = λ j far. r.outside j (ground (arith, far));
      kept = r.kept;
    }

pub IsShort-round :
    (k : Kernel) (c d : Pcb) (dst : Ptr) (i : ℕ) (e : Pte) (f : ℕ) (m1 m2 : Memory)
    → get_elem? c.ptbr i ≡ some e
    → e.valid ≡ true
    → Taken k.memory f m1
    → Cloned e.pfn f m1 m2
    → (n : ℕ) (t : Kernel) → IsShort (k2 k d dst i e f m2) c n (i + 1) t
    → IsShort k c (suc n) i t
IsShort-round k c d dst i e f m1 m2 here on taken (_, table, count, _, _) n t (nothing, few) = (
  nothing,
  λ h.
      let (h1, less) = taken.counted h in
      let less2 = few (count ∙ h1 ∙ ap count_free (sym table)) in
      rw (here, on) (omega (arith, less2, less, count)),
)
