-- ===== src/UserMemory/StackGrowth.antt =====
-- `growStack` of src/traps/trap.c: the pages it maps, and that it gives them back where it fails.
use tiny_kernels.Prelude.{
  ℕ, ◌+◌, ◌-◌, ◌<◌, ◌≤◌, ◌^◌, ◌≡◌, ◌≢◌, refl, ◌∙◌, ◌⊎◌, Bool, true, false, not, ◌||◌, some, List,
  [], arith, if◌then◌else◌, length, get_elem?, subst,
}
use tiny_kernels.Prelude.Run.{ok, ◌>>◌, Returns, bind}
use tiny_kernels.Hardware.{vpn_of, max_pt_len, down_to_page}
use tiny_kernels.Memory.{nframes}
use tiny_kernels.Memory.Frames.{free_at, used_at, Counted}
use tiny_kernels.Kernel.{null, Pcb, Kernel, update}
use tiny_kernels.Kernel.Scheduling.{with_pcb, load-ok, update-ok, write_pcb-if}
use tiny_kernels.UserMemory.{map_stack, grow_stack}
use tiny_kernels.UserMemory.Pages.{among, Apart, HasPages}
use tiny_kernels.UserMemory.StackLoop.{Stacked, map_stack-Stacked}

-- What `growStack` to the page of an address does: see below.
pub record StackGrown (k : Kernel) (c : Pcb) (addr v n : ℕ) (r : Bool) (t : Kernel) : Type 0 where
  pub counted : Counted k.memory → Counted t.memory
  pub moved :
      r ≡ true
      → (x : Pcb) × (t.pcbs k.current_process ≡ some x)
        × (x.user_stack_base_vaddr ≡ down_to_page addr)
  pub grown :
      r ≡ true
      → (fs : List ℕ) × (length fs ≡ n)
        × Apart fs
        × ((f : ℕ) → among f fs ≡ true → free_at k.memory.frame_table f ≡ true)
        × ((x : Pcb) × (t.pcbs k.current_process ≡ some x)
            × HasPages x.ptbr v fs
            × ((j : ℕ) → (j < v) ⊎ (v + n ≤ j) → get_elem? x.ptbr j ≡ get_elem? c.ptbr j))
        × ((f : ℕ)
            → used_at t.memory.frame_table f ≡ (used_at k.memory.frame_table f || among f fs))
  pub restored :
      r ≡ false
      → (f : ℕ)
      → (free_at t.memory.frame_table f ≡ free_at k.memory.frame_table f)
        × (used_at t.memory.frame_table f ≡ used_at k.memory.frame_table f)

module _ (addr : ℕ) (k : Kernel) (c : Pcb) (v n : ℕ) (ne : k.current_process ≢ null)
    (at : k.pcbs k.current_process ≡ some c) (size : length c.ptbr ≡ max_pt_len)
    (small : nframes k.memory ≤ 2 ^ 24) (target : vpn_of (down_to_page addr) ≡ v)
    (pages : vpn_of (down_to_page c.user_stack_base_vaddr) - v ≡ n)
    (fits : v + n ≤ max_pt_len) where
  finish :
      (r : Bool) (t : Kernel)
      → Stacked k c k.current_process v n [] r t
      → Returns (StackGrown k c addr v n) (
          (if not r then ok false else (do
            update k.current_process (λ x. record x { user_stack_base_vaddr = down_to_page addr })
            ok true))
            t)
  finish false t s = record {
    counted = s.counted;
    moved = λ e. absurd cc;
    grown = λ e. absurd cc;
    restored = λ _ f. let (a, b) = s.restored refl f in (a ∙ ground arith, b ∙ ground arith);
  }
  finish true t s =
      let g = s.grew refl in
      let x = record g.pcb { user_stack_base_vaddr = down_to_page addr } in
      let here : (with_pcb t k.current_process x).pcbs k.current_process ≡ some x =
        rw (write_pcb-if t.pcbs k.current_process (some x) k.current_process) (ground arith) in
      rw
        (update-ok k.current_process (λ y. record y { user_stack_base_vaddr = down_to_page addr })
          g.pcb t ne g.at)
        (record {
          counted = s.counted;
          moved = λ _. (x, here, refl);
          grown = λ _. (g.frames, g.size, g.apart, g.new, (x, here, g.pages, g.others), g.used);
          restored = λ e. absurd cc;
        })

  -- `growStack` to an address, of a process with a whole page table, where `n` pages lie between
  -- the page `v` of the address and that of the stack base, these end in region 1, and frame
  -- numbers have 24 bits, returns. Either it succeeds: the stack base is the page of the address,
  -- the `n` pages from `v` on are mapped, readable and writable, each to a frame of its own that
  -- was free, no other page of the process changes, and no other frame is taken; or it returns
  -- KILL, and exactly the frames that were free before are free, and those in use in use. It keeps
  -- the counter of free frames right where it was right.
  pub grow_stack-StackGrown : Returns (StackGrown k c addr v n) (grow_stack addr k)
  unfolding grow_stack
  grow_stack-StackGrown =
      let z : v + 0 ≡ v = omega arith in
      let looped : Returns (Stacked k c k.current_process v n [])
          (map_stack n 0 v k.current_process k) =
        subst
          (λ w.
            Returns (Stacked k c k.current_process w n []) (map_stack n 0 v k.current_process k))
          z
          (map_stack-Stacked n v [] k.current_process k c ne at size (omega arith) small tt tt
            (λ f i. absurd cc)) in
      rw (load-ok k.current_process c k ne at, target, pages)
        (bind (Stacked k c k.current_process v n []) (StackGrown k c addr v n)
          (map_stack n 0 v k.current_process k) _ looped finish)
