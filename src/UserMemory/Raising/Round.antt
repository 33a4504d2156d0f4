-- ===== src/UserMemory/Raising/Round.antt =====
-- A round of the first loop of Brk (src/syscalls/process.c), before the rounds that follow it.
use tiny_kernels.Prelude.{
  ℕ, zero, suc, ◌+◌, ◌<◌, ◌≤◌, ◌%◌, ◌^◌, ◌≡◌, ◌≢◌, refl, sym, ap, ◌∙◌, inl, inr, true, false, some,
  List, ◌∷◌, arith, ◌==◌, length, get_elem?, Bool-cases, some_unique, subst,
}
use tiny_kernels.Prelude.Int.{pos}
use tiny_kernels.Hardware.{Pte, prot_read_write}
use tiny_kernels.Memory.{Memory, nframes, mapped}
use tiny_kernels.Memory.Frames.{free_at, Taken, length-modify, free-lt-length}
use tiny_kernels.Memory.Tables.{get_elem?-modify_ne, modified}
use tiny_kernels.Kernel.{Ptr, Pcb, Kernel}
use tiny_kernels.Kernel.Scheduling.{with_pcb, write_pcb-if}
use tiny_kernels.UserMemory.Pages.{among, with_user_page, Taken-free}
use tiny_kernels.UserMemory.Keeping.{Taken-FramesKept}
use tiny_kernels.UserMemory.Copying.{Kept}
use tiny_kernels.UserMemory.Raising.{fresh, user_page, Raised}

fresh-cong :
    (n v : ℕ) (old old' new : List Pte)
    → ((j : ℕ) → v ≤ j → get_elem? old' j ≡ get_elem? old j)
    → fresh n v old' new ≡ fresh n v old new
fresh-cong zero v old old' new same = refl
fresh-cong (suc n) v old old' new same =
    rw (same v (omega arith), fresh-cong n (v + 1) old old' new (λ j h. same j (omega arith))) refl

-- A round that passes over a valid page.
pub Raised-skip :
    (k : Kernel) (c : Pcb) (n v : ℕ) (e : Pte) (table : List Pte) (t : Kernel)
    → get_elem? c.ptbr v ≡ some e
    → e.valid ≡ true
    → Raised k c n (v + 1) table t
    → Raised k c (suc n) v table t
Raised-skip k c n v e table t here on r = record {
  frames = r.frames;
  all = rw (here, on) r.all;
  apart = r.apart;
  new = r.new;
  free = r.free;
  pages = λ j x lo hi q off.
      let ne : v ≢ j = λ z.
        let w : e ≡ x = some_unique (get_elem? c.ptbr v) here (rw z q) in
        ground (arith, on, off, ap (λ u. u.valid) w) in
      r.pages j x (omega arith) (omega arith) q off;
  valid = r.valid;
  outside = λ j far. r.outside j (ground (arith, far));
}

-- A round that maps a page.
module _ (k : Kernel) (c : Pcb) (curr : Ptr) (v f : ℕ) (e : Pte) (m : Memory)
    (here : get_elem? c.ptbr v ≡ some e) (off : e.valid ≡ false) (in_table : v < length c.ptbr)
    (small : nframes k.memory ≤ 2 ^ 24) (taken : Taken k.memory f m) where
  abbrev pub c1 : Pcb
  c1 = with_user_page c v f

  abbrev pub k2 : Kernel
  k2 = with_pcb (record k { memory = m }) curr c1

  at_page : get_elem? c1.ptbr v ≡ some (user_page f)
  at_page =
      let (x, q) = modified c.ptbr v (mapped (pos f) prot_read_write) in_table in
      let bound = free-lt-length k.memory.frame_table f taken.was_free in
      let same : f % 2 ^ 24 ≡ f = omega arith in
      let z : mapped (pos f) prot_read_write x ≡ user_page f = rw same refl in q ∙ ap some z

  pub round-Kept : Kept k c curr c1 k2
  round-Kept = record {
    at = rw (write_pcb-if k.pcbs curr (some c1) curr) (ground arith);
    only_table = refl;
    length_table = length-modify c.ptbr v (mapped (pos f) prot_read_write);
    other_pcbs = λ a far.
        let test : (a == curr) ≡ false = ground (arith, far) in
        rw (write_pcb-if k.pcbs curr (some c1) a, test) refl;
    rest = refl;
    frames = Taken-FramesKept k.memory m f taken;
  }

  other_page : (j : ℕ) → v ≢ j → get_elem? c1.ptbr j ≡ get_elem? c.ptbr j
  other_page j ne = get_elem?-modify_ne c.ptbr v j (mapped (pos f) prot_read_write) ne

  module _ (n : ℕ) (table : List Pte) (t : Kernel) (r : Raised k2 c1 n (v + 1) table t) where
    page_kept : get_elem? table v ≡ some (user_page f)
    page_kept = r.outside v (inl (omega arith)) ∙ at_page

    not_again : among f r.frames ≡ false
    not_again = elim (Bool-cases (among f r.frames)) [
      | inl q ↦ absurd (ground (arith, r.new f q, Taken-free k.memory m f taken f))
      | inr q ↦ q
    ]

    was_free : (g : ℕ) → among g (f ∷ r.frames) ≡ true → free_at k.memory.frame_table g ≡ true
    was_free g h = elim (Bool-cases (g == f)) [
      | inl q ↦ let z : g ≡ f = ground arith in rw z taken.was_free
      | inr q ↦ ground (arith, r.new g, h, q, Taken-free k.memory m f taken g)
    ]

    page_raised :
        (j : ℕ) (x : Pte)
        → v ≤ j
        → j < v + suc n
        → get_elem? c.ptbr j ≡ some x
        → x.valid ≡ false
        → (g : ℕ) × (get_elem? table j ≡ some (user_page g)) × (among g (f ∷ r.frames) ≡ true)
    page_raised j x lo hi q v_off = elim (Bool-cases (v == j)) [
      | inl y ↦
          let z : v ≡ j = ground arith in
          subst
            (λ b.
              (g : ℕ) × (get_elem? table b ≡ some (user_page g)) × (among g (f ∷ r.frames) ≡ true))
            z (f, page_kept, ground arith)
      | inr y ↦
          let ne : v ≢ j = ground (arith, y) in
          let (g, at, inn) =
            r.pages j x (ground (arith, lo)) (omega arith) (other_page j ne ∙ q) v_off in
          (g, at, ground (arith, inn))
    ]

    pub Raised-round : Raised k c (suc n) v table t
    Raised-round = record {
      frames = f ∷ r.frames;
      all =
          rw (here, off, page_kept)
            (ap (λ x. f ∷ x)
              (sym (fresh-cong n (v + 1) c.ptbr c1.ptbr table (λ j h. other_page j (omega arith)))
                ∙ r.all));
      apart = (not_again, r.apart);
      new = was_free;
      free = λ g. r.free g ∙ ground (arith, Taken-free k.memory m f taken g);
      pages = page_raised;
      valid = λ j x q on.
          let ne : v ≢ j = λ z.
            let w : e ≡ x = some_unique (get_elem? c.ptbr v) here (rw z q) in
            ground (arith, off, on, ap (λ u. u.valid) w) in
          r.valid j x (other_page j ne ∙ q) on;
      outside = λ j far. r.outside j (ground (arith, far)) ∙ other_page j (ground (arith, far));
    }
