-- ===== src/Memory/Frames/Use.antt =====
-- kernel/memory/src/lib.rs: alloc_frame and free_frame as changes of the set of frames in use.
use project_qlinux.Prelude.{
  ℕ, zero, suc, ◌+◌, ◌-◌, ◌*◌, ◌/◌, ◌%◌, ◌^◌, ◌≤◌, ◌<◌, ◌≡◌, ◌≢◌, ◌⊎◌, refl, sym, ap, ◌∙◌, subst,
  false, Bool-cases, inl, inr, Option, none, some, List, [], ◌∷◌, arith, leb, ltb, ◌==◌, length,
  get_or, set, length-set, get_or-set_self, get_or-set_ne, bit_or, bit_and, ok, err, ==_iff,
}
use native.Mathlib.Decide.{ℕ_discrete}
use project_qlinux.Prelude.Words.{u64}
use project_qlinux.Prelude.Bits.{bit_and-le}
use project_qlinux.Prelude.Testbit.{
  testbit, testbit-set_self, testbit-set_ne, testbit-clear_self, testbit-clear_ne, all_but,
  bit_and_pow-zero_iff, bit_or-lt, pow-lt_pow,
}
use project_qlinux.Memory.{
  FrameAllocator, max_frames, bitmap_words, page_size, word, find_free, allocated, alloc_frame,
  free_frame, wipe_page, double_free,
}
use project_qlinux.Memory.Frames.{used, IsValid, Found, find_free-Found, AllSmall}

-- The bitmap with word `k` replaced.
abbrev with_word : FrameAllocator → ℕ → ℕ → ℕ → FrameAllocator
with_word f k w n = record f { bitmap = set f.bitmap k w; free_count = n }

-- Words stay below 2^64 when one of them is replaced.
set-AllSmall : (ws : List ℕ) (k w : ℕ) → AllSmall ws → w < 2 ^ 64 → AllSmall (set ws k w)
unfolding AllSmall
set-AllSmall [] k w small h = small
set-AllSmall (x ∷ ws) zero w small h = go
  where
    go : (i : ℕ) → get_or (w ∷ ws) i 0 < 2 ^ 64
    go zero = h
    go (suc i) = small (suc i)
set-AllSmall (x ∷ ws) (suc k) w small h = go (set-AllSmall ws k w (λ j. small (suc j)) h)
  where
    go : AllSmall (set ws k w) → (i : ℕ) → get_or (x ∷ set ws k w) i 0 < 2 ^ 64
    go rest zero = small 0
    go rest (suc i) = rest i

with_word-IsValid :
    (f : FrameAllocator) (k w n : ℕ) → IsValid f → w < 2 ^ 64 → IsValid (with_word f k w n)
unfolding AllSmall
with_word-IsValid f k w n v h = record {
  storage = length-set f.bitmap k w ∙ v.storage;
  small = set-AllSmall f.bitmap k w v.small h;
  total_in = v.total_in;
}

-- Two allocators that differ in one digit of the bitmap.
pub record Differ (i value : ℕ) (f f' : FrameAllocator) : Type 0 where
  pub there : used f' i ≡ value
  pub elsewhere : (j : ℕ) → j ≢ i → used f' j ≡ used f j
  pub still_valid : IsValid f'
  pub same_total : f'.total ≡ f.total
  pub same_base : f'.phys_base ≡ f.phys_base

with_word-Differ :
    (f : FrameAllocator) (k b w n value : ℕ)
    → IsValid f
    → k < bitmap_words
    → b < 64
    → w < 2 ^ 64
    → testbit b w ≡ value
    → ((j : ℕ) → j < 64 → j ≢ b → testbit j w ≡ testbit j (word f k))
    → Differ (k * 64 + b) value f (with_word f k w n)
with_word-Differ f k b w n value v hk hb hw here others = record {
  there = rw (word_at, digit_at, get_or-set_self f.bitmap k w 0 inside) here;
  elsewhere = other;
  still_valid = with_word-IsValid f k w n v hw;
  same_total = refl;
  same_base = refl;
}
  where
    word_at : (k * 64 + b) / 64 ≡ k
    word_at = omega (arith, hb)

    digit_at : (k * 64 + b) % 64 ≡ b
    digit_at = omega (arith, hb)

    inside : k < length f.bitmap
    inside = omega (arith, hk, v.storage)

    other : (j : ℕ) → j ≢ k * 64 + b → used (with_word f k w n) j ≡ used f j
    other j ne = elim (ℕ_discrete k (j / 64)) [
      | yes same ↦
          rw (sym same, get_or-set_self f.bitmap k w 0 inside)
            (others (j % 64) (omega arith) (omega (arith, ne, same)))
      | no apart ↦ ap (testbit (j % 64)) (get_or-set_ne f.bitmap k (j / 64) w 0 apart)
    ]

module _ (f : FrameAllocator) (v : IsValid f) where
  pub allocated-Differ :
      (k b : ℕ)
      → k < bitmap_words
      → b < 64
      → Differ (k * 64 + b) 1 f (with_word f k (bit_or (word f k) (2 ^ b)) (f.free_count - 1))
  allocated-Differ k b hk hb =
      with_word-Differ f k b (bit_or (word f k) (2 ^ b)) (f.free_count - 1) 1 v hk hb
        (bit_or-lt 64 (word f k) (2 ^ b) (v.small k) (pow-lt_pow b 64 hb))
        (testbit-set_self b (word f k)) (λ j lt ne. testbit-set_ne j b (word f k) ne)

  pub freed-Differ :
      (k b : ℕ)
      → k < bitmap_words
      → b < 64
      → Differ
          (k * 64 + b)
          0
          f
          (with_word f k (bit_and (word f k) (all_but 64 b)) (f.free_count + 1))
  freed-Differ k b hk hb =
      with_word-Differ f k b (bit_and (word f k) (all_but 64 b)) (f.free_count + 1) 0 v hk hb
        (omega (arith, bit_and-le (word f k) (all_but 64 b)))
        (testbit-clear_self 64 b (word f k) hb)
        (λ j lt ne. testbit-clear_ne 64 j b (word f k) lt hb ne)

-- What a call of `alloc_frame` that returns frame `i` promises.
pub record Takes (f : FrameAllocator) (i addr : ℕ) (f' : FrameAllocator) : Type 0 where
  pub inside : i < f.total
  pub address : addr ≡ u64 (f.phys_base + i * page_size)
  pub was_free : used f i ≡ 0
  pub lowest : (j : ℕ) → j < i → used f j ≡ 1
  pub now_used : Differ i 1 f f'
  pub count : f'.free_count ≡ f.free_count - 1

-- `alloc_frame` on what the scan has found.
allocated_ok :
    (f : FrameAllocator) (o : Option (ℕ × ℕ)) (m : ℕ)
    → IsValid f
    → Found f.total 0 f.bitmap o
    → m < f.total
    → used f m ≡ 0
    → (i : ℕ) × (addr : ℕ) × (f' : FrameAllocator) × (allocated f o ≡ ok (addr, f'))
      × Takes f i addr f'
unfolding Found
allocated_ok f none m v found h free = absurd (
    omega (
      arith,
      v.storage,
      v.total_in,
      free,
      found (m / 64) (m % 64) (omega arith) (omega (arith, v.storage, v.total_in, h))
          (omega (arith, h)),
    ))
allocated_ok f (some (k, b)) m v (i, at_i, inside, small, low, clear, full) h free = (
  k * 64 + b,
  u64 (f.phys_base + (k * 64 + b) * page_size),
  with_word f k (bit_or (word f k) (2 ^ b)) (f.free_count - 1),
  refl,
  record {
    inside = low;
    address = refl;
    was_free = rw (word_at, digit_at, same) clear;
    lowest = λ j less.
        full (j / 64) (j % 64) (omega arith) (omega (arith, less, inside, at_i, small))
          (omega (arith, less, at_i));
    now_used = allocated-Differ f v k b (omega (arith, inside, at_i, v.storage)) small;
    count = refl;
  },
)
  where
    same : k ≡ i
    same = omega (arith, at_i)

    word_at : (k * 64 + b) / 64 ≡ k
    word_at = omega (arith, small)

    digit_at : (k * 64 + b) % 64 ≡ b
    digit_at = omega (arith, small)

-- On a valid bitmap, with a free count above 0 and a free frame m below the total, alloc_frame
-- answers the address of the lowest free frame, which is below the total; that frame alone
-- changes, to in use, the count goes down by 1, and the bitmap stays valid.
pub alloc_frame-Takes :
    (f : FrameAllocator) (m : ℕ)
    → IsValid f
    → 0 < f.free_count
    → m < f.total
    → used f m ≡ 0
    → (i : ℕ) × (addr : ℕ) × (f' : FrameAllocator) × (alloc_frame f ≡ ok (addr, f'))
      × Takes f i addr f'
unfolding alloc_frame AllSmall
alloc_frame-Takes f m v some_left h free =
    let none_left : (f.free_count == 0) ≡ false = ground (arith, some_left) in
    rw none_left (
      allocated_ok f (find_free f.total 0 f.bitmap) m v (find_free-Found f.total f.bitmap 0 v.small)
        h free)

-- What a call of `free_frame` that succeeds does.
pub record Gives (f : FrameAllocator) (addr i : ℕ) (f' : FrameAllocator) : Type 0 where
  pub now_free : Differ i 0 f f'
  pub count : f'.free_count ≡ f.free_count + 1

-- On a valid bitmap, for an address not below the base whose frame is below the total,
-- free_frame answers DoubleFree if the frame is free, and else overwrites a page from the
-- address on by zeros, makes that frame alone free, counts it and keeps the bitmap valid.
pub free_frame-Gives :
    (f : FrameAllocator) (mem : ℕ → ℕ) (addr : ℕ)
    → IsValid f
    → f.phys_base ≤ addr
    → (addr - f.phys_base) / page_size < f.total
    → (used f ((addr - f.phys_base) / page_size) ≡ 0) × (free_frame f mem addr ≡ err double_free)
      ⊎ (f' : FrameAllocator) × (free_frame f mem addr ≡ ok (f', wipe_page mem addr))
        × Gives f addr ((addr - f.phys_base) / page_size) f'
unfolding free_frame
free_frame-Gives f mem addr v above below =
    let i : ℕ = (addr - f.phys_base) / page_size in
    let c₁ : ltb addr f.phys_base ≡ false = ground (arith, above) in
    let c₂ : leb f.total i ≡ false = ground (arith, below) in
    let iff = bit_and_pow-zero_iff (i % 64) (word f (i / 64)) in
    elim (Bool-cases (bit_and (word f (i / 64)) (2 ^ (i % 64)) == 0)) [
      | inl e ↦
          inl
            (iff.0 ((==_iff (bit_and (word f (i / 64)) (2 ^ (i % 64))) 0).0 e), rw (c₁, c₂, e) refl)
      | inr ne ↦ inr (
        with_word f (i / 64) (bit_and (word f (i / 64)) (all_but 64 (i % 64))) (f.free_count + 1),
        rw (c₁, c₂, ne) refl,
        record { now_free = freed_at i (omega (arith, v.total_in, below)); count = refl },
      )
    ]
  where
    freed_at :
        (i : ℕ)
        → i < max_frames
        → Differ i 0 f (
            with_word f
              (i / 64)
              (bit_and (word f (i / 64)) (all_but 64 (i % 64)))
              (f.free_count + 1))
    freed_at i lt =
        let parts : i / 64 * 64 + i % 64 ≡ i = omega arith in
        subst
          (λ j. Differ j 0 f (
            with_word f (i / 64) (bit_and (word f (i / 64)) (all_but 64 (i % 64)))
              (f.free_count + 1)))
          parts (freed-Differ f v (i / 64) (i % 64) (omega (arith, lt)) (omega arith))
