-- ===== src/Memory/Unaligned.antt =====
-- kernel/memory/src/lib.rs: free_frame at an address that is not the start of a frame.
use project_qlinux.Prelude.{
  ℕ, ◌+◌, ◌*◌, ◌-◌, ◌/◌, ◌≤◌, ◌<◌, ◌≡◌, ◌≢◌, ◌∙◌, sym, ap, subst, inl, inr, arith, ok,
}
use project_qlinux.Memory.{FrameAllocator, page_size, free_frame, wipe_page}
use project_qlinux.Memory.Frames.{IsValid, used}
use project_qlinux.Memory.Frames.Use.{free_frame-Gives, Gives}

module _ (f : FrameAllocator) (mem : ℕ → ℕ) (i r : ℕ) where
  abbrev pub inner : ℕ
  inner = f.phys_base + i * page_size + r

  -- For a valid bitmap and a frame i in use, free_frame accepts an address that lies r bytes
  -- into the frame, with r from 1 to 4095, frees the frame, and overwrites the first byte of the
  -- next frame by zero.
  pub free_frame-next_frame :
      IsValid f
      → 0 < r
      → r < page_size
      → i < f.total
      → used f i ≢ 0
      → (f' : FrameAllocator) × (free_frame f mem inner ≡ ok (f', wipe_page mem inner))
        × Gives f inner i f'
        × (wipe_page mem inner (f.phys_base + (i + 1) * page_size) ≡ 0)
  free_frame-next_frame v pos small below in_use =
      let at_frame : (inner - f.phys_base) / page_size ≡ i = omega (arith, small) in
      let wiped : wipe_page mem inner (f.phys_base + (i + 1) * page_size) ≡ 0 =
        ground (arith, pos, small) in
      let lt : (inner - f.phys_base) / page_size < f.total = omega (arith, at_frame, below) in
      let above : f.phys_base ≤ inner = omega arith in
      elim (free_frame-Gives f mem inner v above lt) [
        | inl free ↦ absurd (in_use (ap (used f) (sym at_frame) ∙ free.0))
        | inr (f', ran, gives) ↦ (f', ran, subst (λ j. Gives f inner j f') at_frame gives, wiped)
      ]
