-- ===== src/Memory/Tests.antt =====
-- kernel/memory/src/lib.rs: runs of the two allocators.
use project_qlinux.Prelude.{ℕ, ◌+◌, ◌*◌, ◌-◌, ◌^◌, ◌<◌, ◌≡◌, ◌⊎◌, refl, arith, ok, err}
use project_qlinux.Memory.{
  BumpAllocator, FrameAllocator, alloc, zero_size, bad_alignment, out_of_memory, overflow,
  alloc_frame, free_frame, page_size, double_free, wipe_page, new_frames,
}
use project_qlinux.Memory.Bump.{Block, alloc-Block}
use project_qlinux.Memory.Frames.{used, IsValid, new_frames-used, new_frames-IsValid}
use project_qlinux.Memory.Frames.Use.{Takes, alloc_frame-Takes, Gives, free_frame-Gives}
use project_qlinux.Memory.Unaligned.{free_frame-next_frame, inner}

abbrev heap : BumpAllocator
heap = record { heap_start = 1000; heap_end = 5000; next = 1001 }

alloc_errors :
    (alloc heap 0 8 ≡ err zero_size)
    × (alloc heap 8 24 ≡ err bad_alignment)
    × (alloc heap 5000 8 ≡ err out_of_memory)
    × (alloc heap (2 ^ 64 - 8) 8 ≡ err overflow)
unfolding alloc
alloc_errors = (refl, refl, refl, refl)

alloc-Block_example :
    ((addr : ℕ) × (b' : BumpAllocator) × (alloc heap 16 8 ≡ ok (addr, b'))
      × Block heap 16 8 addr b')
    ⊎ (alloc heap 16 8 ≡ err out_of_memory) × (5000 < 1001 + 8 + 16)
alloc-Block_example = alloc-Block heap 16 3 (omega arith) (omega arith)

abbrev empty_frames : FrameAllocator
empty_frames = new_frames 0x100000 100

abbrev empty_IsValid : IsValid empty_frames
empty_IsValid = new_frames-IsValid 0x100000 100 (omega arith)

alloc_frame-Takes_example :
    (i : ℕ) × (addr : ℕ) × (f' : FrameAllocator) × (alloc_frame empty_frames ≡ ok (addr, f'))
    × Takes empty_frames i addr f'
unfolding new_frames
alloc_frame-Takes_example =
    alloc_frame-Takes empty_frames 5 empty_IsValid (omega arith) (omega arith)
      (new_frames-used 0x100000 100 5)

-- The first frame of an allocator that had none in use.
first_taken :
    (i : ℕ) × (addr : ℕ) × (f' : FrameAllocator) × (alloc_frame empty_frames ≡ ok (addr, f'))
    × Takes empty_frames i addr f'
unfolding new_frames
first_taken =
    alloc_frame-Takes empty_frames 5 empty_IsValid (omega arith) (omega arith)
      (new_frames-used 0x100000 100 5)

abbrev one_used : FrameAllocator
one_used = first_taken.2

abbrev one_used_IsValid : IsValid one_used
one_used_IsValid = first_taken.4.now_used.still_valid

-- The address in the middle of the frame.
free_frame-next_frame_example :
    (f' : FrameAllocator) × (free_frame one_used (λ a. 5) (inner one_used (λ a. 5) first_taken.0 8)
      ≡ ok (f', wipe_page (λ a. 5) (inner one_used (λ a. 5) first_taken.0 8)))
    × Gives one_used (inner one_used (λ a. 5) first_taken.0 8) first_taken.0 f'
    × (wipe_page
          (λ a. 5)
          (inner one_used (λ a. 5) first_taken.0 8)
          (one_used.phys_base + (first_taken.0 + 1) * page_size)
        ≡ 0)
free_frame-next_frame_example =
    free_frame-next_frame one_used (λ a. 5) first_taken.0 8 one_used_IsValid (omega arith)
      (omega arith) (omega (arith, first_taken.4.inside, first_taken.4.now_used.same_total))
      (λ free. omega (arith, free, first_taken.4.now_used.there))

-- A frame that is free is refused as a double free, a frame in use is taken back.
free_frame-Gives_example :
    (used empty_frames 0 ≡ 0) × (free_frame empty_frames (λ a. 5) 0x100000 ≡ err double_free)
    ⊎ (f' : FrameAllocator) × (free_frame empty_frames (λ a. 5) 0x100000
        ≡ ok (f', wipe_page (λ a. 5) 0x100000))
      × Gives empty_frames 0x100000 0 f'
unfolding new_frames
free_frame-Gives_example =
    free_frame-Gives empty_frames (λ a. 5) 0x100000 empty_IsValid (omega arith) (omega arith)
