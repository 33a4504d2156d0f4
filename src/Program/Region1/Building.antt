-- ===== src/Program/Region1/Building.antt =====
-- The whole new region 1 of LoadProgram (src/kernel.c): the old pages thrown away, then the pages of the
-- text, of the data and of the stack.
use tiny_kernels.Prelude.{
  ℕ, ◌+◌, ◌-◌, ◌<◌, ◌≤◌, ◌^◌, ◌≡◌, ◌≢◌, refl, ap, ◌∙◌, ◌⊎◌, inl, Bool, true, false, not, ◌&&◌, ◌||◌,
  some, List, ◌∷◌, arith, length, get_elem?,
}
use tiny_kernels.Prelude.Int.{ℤ, negsuc}
use tiny_kernels.Prelude.Run.{Returns, bind}
use tiny_kernels.Hardware.{vpn_of, Pte, Register, max_pt_len, sub32, tlb_flush}
use tiny_kernels.Memory.{nframes}
use tiny_kernels.Memory.Frames.{free_at, Counted}
use tiny_kernels.Kernel.{Ptr, null, Pcb, Kernel}
use tiny_kernels.Kernel.Scheduling.{load-ok}
use tiny_kernels.Kernel.Switching.{register-ok}
use tiny_kernels.UserMemory.Pages.{held, among, Apart, AllUsed, HasPages, HasPages-cong}
use tiny_kernels.Program.{
  LoadInfo, stack_pages, data_pages, int_rounds, release_pages, map_pages, build_region1,
}
use tiny_kernels.Program.Region1.{MappedRange, map_pages-MappedRange}
use tiny_kernels.Program.Region1.Emptying.{Emptied, release_pages-Emptied}

none_of : (p x y z : Bool) → (((p && not x) && not y) && not z) ≡ (p && not (x || y || z))
none_of false x y z = refl
none_of true true y z = refl
none_of true false true z = refl
none_of true false false z = refl

-- The process at `p` owns its pages: their frames are in use, and no two of them share one.
pub record OwnsPages (k : Kernel) (c : Pcb) : Type 0 where
  pub table : length c.ptbr ≡ max_pt_len
  pub limit : c.ptlr ≡ max_pt_len
  pub apart : Apart (held max_pt_len 0 c.ptbr)
  pub used : AllUsed k.memory.frame_table (held max_pt_len 0 c.ptbr)
  pub counted : Counted k.memory
  pub frames : nframes k.memory ≤ 2 ^ 24

-- The text is below the data, the data below the stack, with a page between, and there are frames for
-- all of them when those of the old pages have been given back.
pub record HasRoom (k : Kernel) (c : Pcb) (li : LoadInfo) (args : List (List ℕ)) : Type 0 where
  pub text : vpn_of li.t_vaddr + li.t_npg ≤ vpn_of li.id_vaddr
  pub data_and_stack : vpn_of li.id_vaddr + data_pages li + stack_pages args < max_pt_len
  pub enough :
      li.t_npg + data_pages li + stack_pages args
      ≤ k.memory.free_nframes + length (held max_pt_len 0 c.ptbr)

module _ (k : Kernel) (c : Pcb) (p : Ptr) (li : LoadInfo) (args : List (List ℕ)) where
  abbrev pub text_page : ℕ
  text_page = vpn_of li.t_vaddr

  abbrev pub data_page : ℕ
  data_page = vpn_of li.id_vaddr

  abbrev pub stack_page : ℕ
  stack_page = max_pt_len - stack_pages args

  -- The pages of the three segments have frames of their own, which were free or had been the process's.
  pub record Built (t : Kernel) : Type 0 where
    pub pcb : Pcb
    pub at : t.pcbs p ≡ some pcb
    pub only_table : pcb ≡ record c { ptbr = pcb.ptbr }
    pub table : length pcb.ptbr ≡ max_pt_len
    pub text : List ℕ
    pub data_frames : List ℕ
    pub stack : List ℕ
    pub text_size : length text ≡ li.t_npg
    pub data_size : length data_frames ≡ data_pages li
    pub stack_size : length stack ≡ stack_pages args
    pub text_pages : HasPages pcb.ptbr text_page text
    pub data_pages_mapped : HasPages pcb.ptbr data_page data_frames
    pub stack_pages_mapped : HasPages pcb.ptbr stack_page stack
    pub apart : Apart text × Apart data_frames × Apart stack
    pub data_not_text : (f : ℕ) → among f data_frames ≡ true → among f text ≡ false
    pub stack_not_others :
        (f : ℕ) → among f stack ≡ true → (among f text ≡ false) × (among f data_frames ≡ false)
    pub no_other_page :
        (j : ℕ)
        → (j < text_page) ⊎ (text_page + li.t_npg ≤ j)
        → (j < data_page) ⊎ (data_page + data_pages li ≤ j)
        → j < stack_page
        → (e : Pte) × (get_elem? pcb.ptbr j ≡ some e) × (e.valid ≡ false)
    pub free :
        (f : ℕ)
        → free_at t.memory.frame_table f ≡ (
            (free_at k.memory.frame_table f || among f (held max_pt_len 0 c.ptbr))
            && not (among f text || among f data_frames || among f stack))
    pub counted : Counted t.memory
    pub other_pcbs : (a : Ptr) → a ≢ p → t.pcbs a ≡ k.pcbs a

  Built-flushed :
      (t : Kernel) (l : List (Register × ℤ))
      → Built t
      → Built (record t { memory = record t.memory { registers = l } })
  Built-flushed t l b = record {
    pcb = b.pcb;
    at = b.at;
    only_table = b.only_table;
    table = b.table;
    text = b.text;
    data_frames = b.data_frames;
    stack = b.stack;
    text_size = b.text_size;
    data_size = b.data_size;
    stack_size = b.stack_size;
    text_pages = b.text_pages;
    data_pages_mapped = b.data_pages_mapped;
    stack_pages_mapped = b.stack_pages_mapped;
    apart = b.apart;
    data_not_text = b.data_not_text;
    stack_not_others = b.stack_not_others;
    no_other_page = b.no_other_page;
    free = b.free;
    counted = b.counted;
    other_pcbs = b.other_pcbs;
  }

  module _ (ne : p ≢ null) (at : k.pcbs p ≡ some c) (owns : OwnsPages k c)
      (room : HasRoom k c li args) where
    compose :
        (k1 k2 k3 t : Kernel) (e : Emptied k c p max_pt_len 0 k1)
        (x : MappedRange k1 e.pcb p text_page li.t_npg k2)
        (y : MappedRange k2 x.grew.pcb p data_page (data_pages li) k3)
        → MappedRange k3 y.grew.pcb p stack_page (stack_pages args) t
        → Built t
    compose k1 k2 k3 t e x y z =
        let a = x.grew.pcb in
        let b = y.grew.pcb in
        let d = z.grew.pcb in
        let (ea, la) = x.only_table a x.grew.at in
        let (eb, lb) = y.only_table b y.grew.at in
        let (ed, ld) = z.only_table d z.grew.at in
        let geometry = room.data_and_stack in
        let below = room.text in
        record {
          pcb = d;
          at = z.grew.at;
          only_table =
              ed
              ∙ ap (λ (q : Pcb). record q { ptbr = d.ptbr }) eb
              ∙ ap (λ (q : Pcb). record q { ptbr = d.ptbr }) ea
              ∙ ap (λ (q : Pcb). record q { ptbr = d.ptbr }) e.only_table;
          table = ld ∙ lb ∙ la ∙ e.length_table ∙ owns.table;
          text = x.grew.frames;
          data_frames = y.grew.frames;
          stack = z.grew.frames;
          text_size = x.grew.size;
          data_size = y.grew.size;
          stack_size = z.grew.size;
          text_pages =
              HasPages-cong b.ptbr d.ptbr text_page x.grew.frames
                (λ j lo hi. z.grew.others j (inl (omega (arith, x.grew.size))))
                (HasPages-cong a.ptbr b.ptbr text_page x.grew.frames
                  (λ j lo hi. y.grew.others j (inl (omega (arith, x.grew.size)))) x.grew.pages);
          data_pages_mapped =
              HasPages-cong b.ptbr d.ptbr data_page y.grew.frames
                (λ j lo hi. z.grew.others j (inl (omega (arith, y.grew.size)))) y.grew.pages;
          stack_pages_mapped = z.grew.pages;
          apart = (x.grew.apart, y.grew.apart, z.grew.apart);
          data_not_text = λ f h. ground (arith, y.grew.new f h, x.grew.free f);
          stack_not_others = λ f h. ground (arith, z.grew.new f h, y.grew.free f, x.grew.free f);
          no_other_page = λ j t' d' s'.
              let (q, here, off) = e.invalid j (omega arith) (omega arith) in
              (q, z.grew.others j (inl s') ∙ y.grew.others j d' ∙ x.grew.others j t' ∙ here, off);
          free = λ f.
              z.grew.free f
              ∙ rw (y.grew.free f, x.grew.free f, e.free f)
                  (none_of (free_at k.memory.frame_table f || among f (held max_pt_len 0 c.ptbr))
                    (among f x.grew.frames) (among f y.grew.frames) (among f z.grew.frames));
          counted = z.counted;
          other_pcbs = λ q far.
              z.other_pcbs q far ∙ y.other_pcbs q far ∙ x.other_pcbs q far ∙ e.other_pcbs q far;
        }

    stack-loaded :
        (k1 k2 k3 : Kernel) (e : Emptied k c p max_pt_len 0 k1)
        (x : MappedRange k1 e.pcb p text_page li.t_npg k2)
        (y : MappedRange k2 x.grew.pcb p data_page (data_pages li) k3)
        → y.grew.pcb.ptlr ≡ max_pt_len
    stack-loaded k1 k2 k3 e x y =
        let (ea, la) = x.only_table x.grew.pcb x.grew.at in
        let (eb, lb) = y.only_table y.grew.pcb y.grew.at in
        ap (λ (q : Pcb). q.ptlr) eb
        ∙ ap (λ (q : Pcb). q.ptlr) ea
        ∙ ap (λ (q : Pcb). q.ptlr) e.only_table
        ∙ owns.limit

    stack_step :
        (k1 k2 k3 : Kernel) (e : Emptied k c p max_pt_len 0 k1)
        (x : MappedRange k1 e.pcb p text_page li.t_npg k2)
        (y : MappedRange k2 x.grew.pcb p data_page (data_pages li) k3)
        → Returns
            (λ _. MappedRange k3 y.grew.pcb p stack_page (stack_pages args))
            (map_pages (stack_pages args) (sub32 y.grew.pcb.ptlr (stack_pages args)) p k3)
    stack_step k1 k2 k3 e x y =
        let at_top : sub32 y.grew.pcb.ptlr (stack_pages args) ≡ stack_page =
          rw (stack-loaded k1 k2 k3 e x y) (omega (arith, room.data_and_stack)) in
        let (ea, la) = x.only_table x.grew.pcb x.grew.at in
        let (eb, lb) = y.only_table y.grew.pcb y.grew.at in
        rw at_top (
          map_pages-MappedRange (stack_pages args) stack_page p k3 y.grew.pcb ne y.grew.at
            (omega (arith, la, lb, e.length_table, owns.table, room.data_and_stack))
            (omega (arith, y.nframes_same, x.nframes_same, e.nframes_same, owns.frames)) y.counted
            (omega (arith, y.free_nframes, x.free_nframes, e.gained, room.enough)))

    data_step :
        (k1 k2 : Kernel) (e : Emptied k c p max_pt_len 0 k1)
        (x : MappedRange k1 e.pcb p text_page li.t_npg k2)
        → Returns
            (λ _. MappedRange k2 x.grew.pcb p data_page (data_pages li))
            (map_pages (int_rounds (data_pages li)) data_page p k2)
    data_step k1 k2 e x =
        let few : int_rounds (data_pages li) ≡ data_pages li =
          ground (arith, room.data_and_stack) in
        let (ea, la) = x.only_table x.grew.pcb x.grew.at in
        rw few (
          map_pages-MappedRange (data_pages li) data_page p k2 x.grew.pcb ne x.grew.at
            (omega (arith, la, e.length_table, owns.table, room.data_and_stack))
            (omega (arith, x.nframes_same, e.nframes_same, owns.frames)) x.counted
            (omega (arith, x.free_nframes, e.gained, room.enough)))

    -- The part of `LoadProgram` that builds the new region 1 returns, for a process with a PCB
    -- that owns its pages (in a whole table, mapped to frames in use, each to its own), a right
    -- counter of free frames, frame numbers of 24 bits, segments of which each lies below the
    -- next, with a page free below the stack, and as many frames as they need among the free ones
    -- and those of the process. Then the pages of the text, of the data and of the stack are
    -- mapped, readable and writable, each to a frame of its own, and no other page is valid; these
    -- frames are exactly the ones that were free or the process's before and are not free now; the
    -- counter of free frames is right; and no other PCB, nor anything of this one but its table,
    -- has changed.
    pub build_region1-Built : Returns (λ _. Built) (build_region1 li args p k)
    unfolding build_region1
    build_region1-Built =
        bind (λ _. Emptied k c p max_pt_len 0) (λ _. Built) (release_pages max_pt_len 0 p k) _
          (release_pages-Emptied max_pt_len 0 p k c ne at (omega (arith, owns.table)) owns.apart
            owns.used)
          λ _ k1 e.
            bind (λ _. MappedRange k1 e.pcb p text_page li.t_npg) (λ _. Built)
              (map_pages li.t_npg text_page p k1) _
              (map_pages-MappedRange li.t_npg text_page p k1 e.pcb ne e.at
                (omega (arith, e.length_table, owns.table, room.text, room.data_and_stack))
                (omega (arith, e.nframes_same, owns.frames)) (e.counted owns.counted)
                (omega (arith, e.gained, room.enough)))
              λ _ k2 x.
                bind (λ _. MappedRange k2 x.grew.pcb p data_page (data_pages li)) (λ _. Built)
                  (map_pages (int_rounds (data_pages li)) data_page p k2) _ (data_step k1 k2 e x)
                  λ _ k3 y. rw (load-ok p y.grew.pcb k3 ne y.grew.at) (
                    bind (λ _. MappedRange k3 y.grew.pcb p stack_page (stack_pages args))
                      (λ _. Built)
                      (map_pages (stack_pages args) (sub32 y.grew.pcb.ptlr (stack_pages args)) p k3)
                      _ (stack_step k1 k2 k3 e x y)
                      λ _ t z. rw (register-ok tlb_flush (negsuc 2) t) (
                        Built-flushed t ((tlb_flush, negsuc 2) ∷ t.memory.registers)
                          (compose k1 k2 k3 t e x y z)))
