-- ===== src/Memory.antt =====
-- kernel/memory/src/lib.rs: memory regions, the bump allocator of the heap and the allocator of
-- physical frames. Addresses are usize, 64 bits wide. The loop of `alloc` around its
-- compare-and-swap is taken as one step, since nothing else changes `next` in between.
pub mod Frames
pub mod Bump
pub mod Unaligned
mod Tests
use project_qlinux.Prelude.{
  ℕ, zero, suc, ◌+◌, ◌-◌, ◌*◌, ◌/◌, ◌%◌, ◌^◌, min, Bool, true, false, not, ◌&&◌, Option, none, some,
  List, [], ◌∷◌, ltb, leb, ◌==◌, if◌then◌else◌, get_or, set, replicate, Result, ok, err, ◌>>=◌,
  ◌>>◌, refuse_if, ok_or, checked_add, bit_and, bit_or,
}
use project_qlinux.Prelude.Words.{u64}
use project_qlinux.Prelude.Testbit.{all_but}

abbrev pub page_size : ℕ
page_size = 4096

abbrev pub max_frames : ℕ
max_frames = 1024 * 256

abbrev pub bitmap_words : ℕ
bitmap_words = max_frames / 64

pub data AllocError : Type 0 where
  out_of_memory zero_size bad_alignment overflow invalid_address double_free : AllocError

pub data RegionKind : Type 0 where
  kernel_code kernel_data user_code user_data mmio_device reserved : RegionKind

pub record VirtualMemoryRegion : Type 0 where
  pub base : ℕ
  pub extent : ℕ  -- the field `length`
  pub kind : RegionKind

unfoldable pub contains : VirtualMemoryRegion → ℕ → Bool
contains r addr = leb r.base addr && ltb addr (u64 (r.base + r.extent))

abbrev user_kind : RegionKind → Bool
user_kind user_code = true
user_kind user_data = true
user_kind _ = false

unfoldable pub is_user : VirtualMemoryRegion → Bool
is_user r = user_kind r.kind

pub record BumpAllocator : Type 0 where
  pub heap_start : ℕ
  pub heap_end : ℕ
  pub next : ℕ

unfoldable pub new_bump : ℕ → ℕ → BumpAllocator
new_bump heap_start heap_end = record {
  heap_start = heap_start;
  heap_end = heap_end;
  next = heap_start;
}

-- One binary digit is set.
abbrev pub is_power_of_two : ℕ → Bool
is_power_of_two n = not (n == 0) && bit_and n (n - 1) == 0

-- `x & !(align - 1)` keeps what `align - 1` does not have.
abbrev pub round_down : ℕ → ℕ → ℕ
round_down x align = x - bit_and x (align - 1)

unfoldable pub alloc : BumpAllocator → ℕ → ℕ → Result AllocError (ℕ × BumpAllocator)
alloc b size align = do
  refuse_if (size == 0) zero_size
  refuse_if (not (is_power_of_two align)) bad_alignment
  bumped ← ok_or (checked_add b.next (align - 1)) overflow
  let aligned = round_down bumped align
  next ← ok_or (checked_add aligned size) overflow
  refuse_if (ltb b.heap_end next) out_of_memory
  ok (aligned, record b { next = next })

unfoldable pub used_bytes : BumpAllocator → ℕ
used_bytes b = b.next - b.heap_start

unfoldable pub free_bytes : BumpAllocator → ℕ
free_bytes b = b.heap_end - b.next

pub record FrameAllocator : Type 0 where
  pub bitmap : List ℕ
  pub total : ℕ
  pub free_count : ℕ
  pub phys_base : ℕ

unfoldable pub new_frames : ℕ → ℕ → FrameAllocator
new_frames phys_base total = record {
  bitmap = replicate bitmap_words 0;
  total = total;
  free_count = total;
  phys_base = phys_base;
}

-- `trailing_ones` of a word of `n` bits.
unfoldable pub trailing_ones : ℕ → ℕ → ℕ
trailing_ones zero w = 0
trailing_ones (suc n) w = let rest = trailing_ones n (w / 2) in if w % 2 == 1 then rest + 1 else 0

-- The loop over the words: the word and the bit to take, if the loop does not end without.
unfoldable pub find_free : ℕ → ℕ → List ℕ → Option (ℕ × ℕ)
unfolding trailing_ones
find_free total word_idx [] = none
find_free total word_idx (w ∷ ws) =
    let rest = find_free total (word_idx + 1) ws in
    let bit = trailing_ones 64 w in
    if w == 2 ^ 64 - 1
    then rest
    else if leb total (word_idx * 64 + bit)
    then none
    else some (word_idx, bit)

abbrev pub word : FrameAllocator → ℕ → ℕ
word f i = get_or f.bitmap i 0

abbrev pub allocated : FrameAllocator → Option (ℕ × ℕ) → Result AllocError (ℕ × FrameAllocator)
allocated f none = err out_of_memory
allocated f (some (i, bit)) = ok (
  u64 (f.phys_base + (i * 64 + bit) * page_size),
  record f { bitmap = set f.bitmap i (bit_or (word f i) (2 ^ bit)); free_count = f.free_count - 1 },
)

-- The address of the frame.
unfoldable pub alloc_frame : FrameAllocator → Result AllocError (ℕ × FrameAllocator)
alloc_frame f =
    if f.free_count == 0 then err out_of_memory else allocated f (find_free f.total 0 f.bitmap)

-- Physical memory, by address; a page from an address on is overwritten by zeros.
abbrev pub wipe_page : (ℕ → ℕ) → ℕ → ℕ → ℕ
wipe_page mem addr a = if leb addr a && ltb a (addr + page_size) then 0 else mem a

unfoldable pub free_frame :
    FrameAllocator → (ℕ → ℕ) → ℕ → Result AllocError (FrameAllocator × (ℕ → ℕ))
free_frame f mem phys_addr = do
  let frame_idx = (phys_addr - f.phys_base) / page_size
  let i = frame_idx / 64
  let bit = frame_idx % 64
  refuse_if (ltb phys_addr f.phys_base) invalid_address
  refuse_if (leb f.total frame_idx) invalid_address
  refuse_if (bit_and (word f i) (2 ^ bit) == 0) double_free
  ok (
    record f {
      bitmap = set f.bitmap i (bit_and (word f i) (all_but 64 bit));
      free_count = f.free_count + 1;
    },
    wipe_page mem phys_addr,
  )

abbrev pub reserve_frame : FrameAllocator → ℕ → FrameAllocator
reserve_frame f frame_idx =
    let i = frame_idx / 64 in
    let bit = frame_idx % 64 in
    if bit_and (word f i) (2 ^ bit) == 0
    then record f {
      bitmap = set f.bitmap i (bit_or (word f i) (2 ^ bit));
      free_count = f.free_count - 1;
    }
    else f

-- The loop over `n` frames from `frame_idx` on.
unfoldable pub reserve_frames : ℕ → ℕ → FrameAllocator → FrameAllocator
reserve_frames zero frame_idx f = f
reserve_frames (suc n) frame_idx f = reserve_frames n (frame_idx + 1) (reserve_frame f frame_idx)

unfoldable pub reserve_range : FrameAllocator → ℕ → ℕ → FrameAllocator
unfolding reserve_frames
reserve_range f phys_start phys_end =
    let start_frame = (phys_start - f.phys_base) / page_size in
    let end_frame = u64 (phys_end - f.phys_base + page_size - 1) / page_size in
    reserve_frames (min end_frame f.total - start_frame) start_frame f
