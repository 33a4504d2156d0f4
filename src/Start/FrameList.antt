-- ===== src/Start/FrameList.antt =====
-- The table of the frames that `InitializeFreeFrameList` of src/init.c leaves.
use tiny_kernels.Prelude.{
  ℕ, zero, suc, ◌+◌, ◌/◌, ◌<◌, ◌≡◌, refl, ap, ◌∙◌, Option, some, List, [], ◌∷◌, arith, ltb,
  if◌then◌else◌, length,
}
use tiny_kernels.Prelude.Run.{Returns}
use tiny_kernels.Hardware.{page_size}
use tiny_kernels.Memory.{FrameDesc, Memory, nframes}
use tiny_kernels.Memory.Frames.{count_free, used_at, Counted}
use tiny_kernels.Start.{
  is_kernel_frame, init_frame, init_frames, initialize_free_frame_list, text_section_base_page,
}

init_frames-count :
    (base brk i free : ℕ) (fs : List FrameDesc)
    → (init_frames base brk i free fs).1 ≡ free + count_free ((init_frames base brk i free fs).0)
unfolding init_frames init_frame
init_frames-count base brk i free [] = omega arith
init_frames-count base brk i free (f ∷ fs) = ground (
  arith,
  init_frames-count base brk (i + 1) free fs,
  init_frames-count base brk (i + 1) (free + 1) fs,
)

init_frames-length :
    (base brk i free : ℕ) (fs : List FrameDesc)
    → length ((init_frames base brk i free fs).0) ≡ length fs
unfolding init_frames
init_frames-length base brk i free [] = refl
init_frames-length base brk i free (f ∷ fs) =
    ap suc (
      init_frames-length base brk (i + 1) (if is_kernel_frame base brk i then free else free + 1)
        fs)

init_frames-used :
    (base brk i free j : ℕ) (fs : List FrameDesc)
    → j < length fs
    → used_at ((init_frames base brk i free fs).0) j ≡ is_kernel_frame base brk (i + j)
unfolding init_frames init_frame
init_frames-used base brk i free j [] h = absurd (omega arith)
init_frames-used base brk i free zero (f ∷ fs) h = ground arith
init_frames-used base brk i free (suc j) (f ∷ fs) h = ground (
  arith,
  init_frames-used base brk (i + 1) (if is_kernel_frame base brk i then free else free + 1) j fs
      (omega arith),
)

-- A table with the given number of frames and a true count of the free ones. Those in use are the
-- ones below the break.
pub record FramesReady (n : ℕ) (m t : Memory) : Type 0 where
  pub size : nframes t ≡ n
  pub counted : Counted t
  pub in_use : (j : ℕ) → j < n → used_at t.frame_table j ≡ ltb j m.kernel_brk_page
  pub same_region0 : t.pt_region0 ≡ m.pt_region0

-- Where `malloc` returns a block of `pmem_size / PAGESIZE` entries, `InitializeFreeFrameList`
-- returns. The frame table then has that many frames, whatever the block held; the counter is the
-- number of free frames; the frames in use are those below the kernel's break; and region 0 is
-- unchanged.
pub initialize_free_frame_list-FramesReady :
    (block : ℕ → Option (List FrameDesc)) (entries : List FrameDesc) (pmem_size : ℕ) (m : Memory)
    → block (pmem_size / page_size) ≡ some entries
    → length entries ≡ pmem_size / page_size
    → Returns
        (λ _. FramesReady (pmem_size / page_size) m)
        (initialize_free_frame_list block pmem_size m)
unfolding initialize_free_frame_list
initialize_free_frame_list-FramesReady block entries pmem_size m allocated size =
    rw allocated (record {
      size = init_frames-length text_section_base_page m.kernel_brk_page 0 0 entries ∙ size;
      counted =
          omega (arith, init_frames-count text_section_base_page m.kernel_brk_page 0 0 entries);
      in_use = λ j h. ground (
        arith,
        init_frames-used text_section_base_page m.kernel_brk_page 0 0 j entries (rw size h),
      );
      same_region0 = refl;
    })
