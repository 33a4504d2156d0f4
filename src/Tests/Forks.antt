-- ===== src/Tests/Forks.antt =====
-- A process with one page and a kernel stack of two pages makes a copy of itself.
use tiny_kernels.Prelude.{
  ℕ, ◌≡◌, ◌≢◌, refl, sym, ap, ◌∙◌, inl, inr, true, none, some, List, [], ◌∷◌, ◌++◌, arith, ◌==◌,
  if◌then◌else◌, Bool-cases, replicate, length-replicate, replicate_only, get_elem?, some_unique,
  subst, length, ==_iff,
}
use tiny_kernels.Prelude.Int.{pos, minus_one}
use tiny_kernels.Prelude.Run.{Returns}
use tiny_kernels.Hardware.{Pte, max_pt_len, invalid_pte}
use tiny_kernels.Memory.{FrameDesc, frame_free, frame_user, frame_kernel}
use tiny_kernels.Memory.Frames.{used_at, length-modify}
use tiny_kernels.Memory.Tables.{IsSized, get_elem?-modify_ne}
use tiny_kernels.Kernel.{Pcb, Kernel, returned}
use tiny_kernels.UserMemory.{copy_pt}
use tiny_kernels.UserMemory.Copying.{MapsUsed, CanCopy, CopyResult}
use tiny_kernels.UserMemory.Copying.Loop.{copy_pt-CopyResult}
use tiny_kernels.Creation.{find_slot, fork_resumed, fork}
use tiny_kernels.Creation.Forking.{CanFork, Forked, Leaked}
use tiny_kernels.Creation.Forking.Parent.{fork-Forked, fork-Leaked}
use tiny_kernels.Creation.Forking.Child.{ChildReturned, fork_twice}
use tiny_kernels.Tests.Processes.{running-HasMemory, running, memory}
use tiny_kernels.Tests.Memories.{frame}
use tiny_kernels.Tests.UserPrograms.{process, table, last_page, table-last}

abbrev frames : List FrameDesc
frames =
    frame 0 frame_free
    ∷ frame 0 frame_kernel
    ∷ frame 0 frame_kernel
    ∷ (replicate 4 (frame 0 frame_free) ++ frame 7 frame_user ∷ replicate 8 (frame 0 frame_free))

abbrev new_child : Pcb
new_child = record process { ptbr = replicate max_pt_len invalid_pte }

abbrev pub parent_kernel : Kernel
parent_kernel = record running {
  memory = record memory { frame_table = frames; free_nframes = 13 };
  pcbs = λ a. if a == 10 then some process else if a == 20 then some new_child else none;
}

pub length-table : length table ≡ max_pt_len
length-table =
    length-modify (replicate max_pt_len invalid_pte) 127 (λ _. last_page)
    ∙ length-replicate max_pt_len invalid_pte

table-MapsUsed : (k : Kernel) → used_at k.memory.frame_table 7 ≡ true → MapsUsed k table
table-MapsUsed k u j e at on = elim (Bool-cases (127 == j)) [
  | inl y ↦
      let z : 127 ≡ j = (==_iff 127 j).0 y in
      let w : last_page ≡ e =
        some_unique (get_elem? table 127) table-last (ap (get_elem? table) z ∙ at) in
      subst (λ (x : Pte). used_at k.memory.frame_table x.pfn ≡ true) w u
  | inr y ↦
      let far : 127 ≢ j = λ q. cc ((==_iff 127 j).1 q, y) in
      let was = get_elem?-modify_ne (replicate max_pt_len invalid_pte) 127 j (λ _. last_page) far in
      let w : invalid_pte ≡ e = replicate_only max_pt_len invalid_pte j e (sym was ∙ at) in
      absurd (cc (on, ap (λ (x : Pte). x.valid) w))
]

parent_kernel-IsSized : IsSized parent_kernel.memory
parent_kernel-IsSized = record {
  table = length-replicate max_pt_len invalid_pte;
  frames = omega arith;
}

can_copy : CanCopy parent_kernel process new_child 10 20 0
can_copy = record {
  src_not_null = λ q. omega arith;
  dst_not_null = λ q. omega arith;
  differ = λ q. omega arith;
  at_src = refl;
  at_dst = refl;
  src_table = length-table;
  dst_table = length-replicate max_pt_len invalid_pte;
  sized = parent_kernel-IsSized;
  maps = table-MapsUsed parent_kernel refl;
  empty =
      λ j e lo at. ap (λ (x : Pte). x.valid) (sym (replicate_only max_pt_len invalid_pte j e at));
}

copy_pt-CopyResult_example :
    Returns
      (CopyResult parent_kernel process new_child 20 max_pt_len 0)
      (copy_pt 10 20 parent_kernel)
copy_pt-CopyResult_example = copy_pt-CopyResult parent_kernel process new_child 10 20 can_copy

abbrev stack_page : ℕ → Pte
stack_page f = record last_page { pfn = f }

can_fork : CanFork parent_kernel 5 process (stack_page 1) (stack_page 2)
unfolding find_slot
can_fork = record {
  malloc = running-HasMemory;
  slot = refl;
  not_null = λ q. omega arith;
  fresh = λ q. omega arith;
  at = refl;
  kstack = refl;
  stack_used = refl;
  stack_used' = refl;
  table = length-table;
  maps = table-MapsUsed parent_kernel refl;
  sized = parent_kernel-IsSized;
  counted = refl;
}

fork-Forked_example :
    Returns
      (λ r t.
        (r ≡ returned (pos 0)) × Forked parent_kernel 5 process (stack_page 1) (stack_page 2) t)
      (fork parent_kernel)
fork-Forked_example =
    fork-Forked parent_kernel 5 process (stack_page 1) (stack_page 2) can_fork (omega arith)

fork_twice_example :
    Returns
      (λ r t.
        Returns
          (ChildReturned parent_kernel 5 process (stack_page 1) (stack_page 2) can_fork)
          (fork_resumed 10 1000 (record t { current_process = 1000 })))
      (fork parent_kernel)
fork_twice_example =
    fork_twice parent_kernel 5 process (stack_page 1) (stack_page 2) can_fork (omega arith)
      (λ q. ground (arith, q))

abbrev full_kernel : Kernel
full_kernel = record parent_kernel {
  memory = record memory {
    frame_table = replicate 7 (frame 0 frame_kernel) ++ frame 7 frame_user ∷ [];
    free_nframes = 0;
  };
}

full_kernel-CanFork : CanFork full_kernel 5 process (stack_page 1) (stack_page 2)
unfolding find_slot
full_kernel-CanFork = record {
  malloc = running-HasMemory;
  slot = refl;
  not_null = λ q. omega arith;
  fresh = λ q. omega arith;
  at = refl;
  kstack = refl;
  stack_used = refl;
  stack_used' = refl;
  table = length-table;
  maps = table-MapsUsed full_kernel refl;
  sized = record { table = length-replicate max_pt_len invalid_pte; frames = omega arith };
  counted = refl;
}

fork-Leaked_example :
    Returns (λ r t. (r ≡ returned minus_one) × Leaked full_kernel 5 t) (fork full_kernel)
fork-Leaked_example =
    fork-Leaked full_kernel 5 process (stack_page 1) (stack_page 2) full_kernel-CanFork
      (omega arith)
