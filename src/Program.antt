-- ===== src/Program.antt =====
-- Loading a program: `LoadProgram` of src/kernel.c, and `Exec` of src/syscalls/process.c. The file is
-- an argument: whether it opens, what `LoadInfo` says of it, and what `read` gives of it. The page
-- table that the machine walks while the program is loaded is that of the process it is loaded into.
pub mod FlatMemory
pub mod Arguments
pub mod Region1
use tiny_kernels.Prelude.{
  ℕ, zero, suc, ◌+◌, ◌-◌, ◌*◌, ◌%◌, ◌^◌, Bool, true, false, not, ◌&&◌, ◌||◌, Option, none, some,
  List, [], ◌∷◌, ◌++◌, ltb, leb, ◌==◌, if◌then◌else◌, length, replicate, drop,
}
use tiny_kernels.Prelude.Int.{ℤ, pos, negsuc, minus_one, eq_ℤ}
use tiny_kernels.Prelude.Run.{Cmd, pure, get, or_fault, ◌>>=◌, ◌>>◌}
use tiny_kernels.Hardware.{
  vpn_of, Pte, page_size, page_of, down_to_page, sub32, u32, vmem_1_base, vmem_1_limit,
  prot_read_write, prot_read_exec, max_pt_len, tlb_flush,
}
use tiny_kernels.Memory.{frame_user, alloc_frame, free_frame, write_pte, write_register}
use tiny_kernels.Kernel.{
  Ptr, null, Pcb, Kernel, UserContext, load, update, on_memory, malloc_result,
}
use tiny_kernels.UserMemory.{read_user, map_user, invalidate_user}
use tiny_kernels.Kernel.UserBytes.{write_user, word, c_string}

-- `struct load_info`, less `t_end` and `ud_vaddr`, which the kernel does not read.
pub record LoadInfo : Type 0 where
  pub entry : ℕ
  pub t_faddr : ℕ
  pub t_vaddr : ℕ
  pub t_npg : ℕ
  pub id_faddr : ℕ
  pub id_vaddr : ℕ
  pub id_npg : ℕ
  pub id_end : ℕ
  pub ud_npg : ℕ
  pub ud_end : ℕ

-- A file: whether `open` succeeds, what `LoadInfo` finds, and the bytes that `read` gives at an offset
-- for a number of them.
pub record Executable : Type 0 where
  pub opens : Bool
  pub load_info : Option LoadInfo
  pub read : (offset n : ℕ) → List ℕ

-- `KILL`
abbrev pub kill : ℤ
kill = negsuc 1

-- The bytes that the arguments take with their NULs: `size`.
abbrev pub args_size : List (List ℕ) → ℕ
args_size [] = 0
args_size (a ∷ rest) = length a + 1 + args_size rest

abbrev pub post_argv_null_space : ℕ
post_argv_null_space = 0x20

-- Where the strings start, `cp`.
abbrev pub strings_start : List (List ℕ) → ℕ
strings_start args = sub32 vmem_1_limit (args_size args)

-- Where `argc` and the pointers start, `cpp`, and with it the stack pointer.
abbrev pub argc_addr : List (List ℕ) → ℕ
argc_addr args =
    let a = sub32 (strings_start args) (u32 ((length args + 3 + post_argv_null_space) * 4)) in
    a - a % 8

-- `stack_npg`
abbrev pub stack_pages : List (List ℕ) → ℕ
stack_pages args = page_of (sub32 vmem_1_limit (down_to_page (argc_addr args)))

-- `data_npg`, as the bits of an `int`.
abbrev pub data_pages : LoadInfo → ℕ
data_pages li = u32 (li.id_npg + li.ud_npg)

-- An `int` is at least 128: its bits are those of a positive number.
abbrev pub too_many : ℕ → Bool
too_many n = ltb n (2 ^ 31) && leb max_pt_len n

-- No page is left between the heap and the stack.
abbrev pub too_large : LoadInfo → List (List ℕ) → Bool
too_large li args = too_many (u32 (stack_pages args + vpn_of li.id_vaddr + data_pages li))

-- The rounds of a loop from 0 up to an `int`, which are none where it is negative.
abbrev pub int_rounds : ℕ → ℕ
int_rounds n = if ltb n (2 ^ 31) then n else 0

-- The loop that gives back the frames of the old region 1.
unfoldable pub release_pages : (rounds vpn : ℕ) → Ptr → Cmd Kernel (Unit {0})
unfolding read_user on_memory free_frame invalidate_user
release_pages zero vpn proc = pure tt
release_pages (suc n) vpn proc = do
  e ← read_user proc vpn
  if e.valid then (do on_memory (free_frame (pos e.pfn)); invalidate_user proc vpn) else pure tt
  release_pages n (vpn + 1) proc

-- A loop that maps pages from `vpn` on to new frames. Where none is left the frame is -1.
unfoldable pub map_pages : (rounds vpn : ℕ) → Ptr → Cmd Kernel (Unit {0})
unfolding load on_memory alloc_frame map_user
map_pages zero vpn proc = pure tt
map_pages (suc n) vpn proc = do
  c ← load proc
  pfn ← on_memory (alloc_frame frame_user c.pid)
  map_user proc vpn pfn prot_read_write
  map_pages n (vpn + 1) proc

-- The loop that makes the pages of the text executable, and no longer writable.
unfoldable pub protect_pages : (rounds vpn : ℕ) → Ptr → Cmd Kernel (Unit {0})
unfolding load write_pte update
protect_pages zero vpn proc = pure tt
protect_pages (suc n) vpn proc = do
  c ← load proc
  t ← or_fault (write_pte c.ptbr vpn (λ e. record e { prot = prot_read_exec }))
  update proc (λ c. record c { ptbr = t })
  protect_pages n (vpn + 1) proc

-- `lseek` and `read` of whole pages: whether all were there.
unfoldable pub read_segment : Executable → (offset vaddr pages : ℕ) → Ptr → Cmd Kernel Bool
read_segment exe offset vaddr pages proc = do
  let bytes = exe.read offset (u32 (pages * page_size))
  write_user proc vaddr bytes
  pure (length bytes == u32 (pages * page_size))

-- The first loop over the arguments saves them, each with its NUL, in `argbuf`.
unfoldable pub save_args : List (List ℕ) → List ℕ
save_args [] = []
save_args (a ∷ rest) = a ++ 0 ∷ save_args rest

-- The last loop, over the saved arguments, with the NULLs behind it.
unfoldable pub copy_args : (rounds cpp cp : ℕ) → (saved : List ℕ) → Ptr → Cmd Kernel (Unit {0})
copy_args zero cpp cp saved proc = do
  write_user proc cpp (word 0)
  write_user proc (cpp + 4) (word 0)
copy_args (suc n) cpp cp saved proc = do
  let a = c_string saved
  write_user proc cpp (word cp)
  write_user proc cp (a ++ 0 ∷ [])
  copy_args n (cpp + 4) (cp + length a + 1) (drop (length a + 1) saved) proc

-- The arguments on the new stack.
unfoldable pub build_args : List (List ℕ) → Ptr → Cmd Kernel (Unit {0})
build_args args proc = do
  write_user proc (argc_addr args) (replicate (sub32 vmem_1_limit (argc_addr args)) 0)
  write_user proc (argc_addr args) (word (length args))
  copy_args (length args) (argc_addr args + 4) (strings_start args) (save_args args) proc

-- The new region 1, its pages writable.
unfoldable pub build_region1 : LoadInfo → List (List ℕ) → Ptr → Cmd Kernel (Unit {0})
build_region1 li args proc = do
  release_pages max_pt_len 0 proc
  map_pages li.t_npg (vpn_of li.t_vaddr) proc
  map_pages (int_rounds (data_pages li)) (vpn_of li.id_vaddr) proc
  c ← load proc
  map_pages (stack_pages args) (sub32 c.ptlr (stack_pages args)) proc
  on_memory (write_register tlb_flush (negsuc 2))

-- The end of `LoadProgram`, from the change of the text's protection on.
unfoldable pub finish_load : LoadInfo → List (List ℕ) → Ptr → Cmd Kernel (Unit {0})
finish_load li args proc = do
  protect_pages li.t_npg (vpn_of li.t_vaddr) proc
  on_memory (write_register tlb_flush (negsuc 2))
  write_user proc li.id_end (replicate (sub32 li.ud_end li.id_end) 0)
  update proc (λ c. record c {
    user_context = record c.user_context { pc = li.entry };
    user_heap_start_vaddr = u32 (vpn_of li.id_vaddr * page_size + vmem_1_base);
    user_heap_end_vaddr = u32 (vpn_of li.id_vaddr * page_size + vmem_1_base);
    user_stack_base_vaddr = u32 (sub32 c.ptlr (stack_pages args) * page_size + vmem_1_base);
  })
  build_args args proc

-- `LoadProgram` where all its checks have succeeded.
unfoldable pub load_image : Executable → LoadInfo → List (List ℕ) → Ptr → Cmd Kernel ℤ
load_image exe li args proc = do
  update proc (λ c. record c { user_context = record c.user_context { sp = argc_addr args } })
  argbuf ← malloc_result
  if argbuf == null then pure kill else do
    build_region1 li args proc
    text_read ← read_segment exe li.t_faddr li.t_vaddr li.t_npg proc
    if not text_read then pure kill else do
      data_read ← read_segment exe li.id_faddr li.id_vaddr li.id_npg proc
      if not data_read then pure kill else do finish_load li args proc; pure (pos 0)

-- `LoadProgram`
unfoldable pub load_program : Executable → List (List ℕ) → Ptr → Cmd Kernel ℤ
load_program exe args proc = if not exe.opens then pure minus_one else elim exe.load_info [
  | none ↦ pure minus_one
  | some li ↦
      if ltb li.entry vmem_1_base || too_large li args
      then pure minus_one
      else load_image exe li args proc
]

-- `Exec`
unfoldable pub exec : Executable → List (List ℕ) → Cmd Kernel ℤ
exec exe args = do
  k ← get
  load_status ← load_program exe args k.current_process
  if eq_ℤ load_status minus_one then pure minus_one else pure (pos 0)
