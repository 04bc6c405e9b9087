-- ===== src/Memory/Bump.antt =====
-- kernel/memory/src/lib.rs: BumpAllocator::alloc and where its blocks lie.
use project_qlinux.Prelude.{
  ℕ, ◌+◌, ◌-◌, ◌*◌, ◌/◌, ◌%◌, ◌^◌, ◌≤◌, ◌<◌, ◌≡◌, ◌⊎◌, inl, inr, Bool-cases, ◌∙◌, refl, ap, true,
  false, arith, ok, err, ltb, ◌==◌, bit_and,
}
use native.Mathlib.Nat.{mod_self, mod-lt, mod-eq_of_lt, mul-add-mod_self_left, div-add-mod}
use project_qlinux.Prelude.Digits.{low_digits}
use project_qlinux.Prelude.Testbit.{pow_pos}
use project_qlinux.Memory.{BumpAllocator, alloc, is_power_of_two, out_of_memory}

-- Rounding down to a multiple.
rounded : (p x : ℕ) → 0 < p → (x - x % p) % p ≡ 0
rounded p x pos =
    let whole : x - x % p ≡ p * (x / p) + 0 = omega (arith, div-add-mod x p) in
    ap (λ y. y % p) whole ∙ mul-add-mod_self_left p (x / p) 0 ∙ mod-eq_of_lt pos

-- A block of `size` bytes for the alignment `align` out of `b`, leaving `b'`.
pub record Block (b : BumpAllocator) (size align addr : ℕ) (b' : BumpAllocator) : Type 0 where
  pub aligned : addr % align ≡ 0
  pub fresh : b.next ≤ addr
  pub close : addr < b.next + align
  pub in_heap : addr + size ≤ b.heap_end
  pub taken : b' ≡ record b { next = addr + size }

power-IsPower : (k : ℕ) → is_power_of_two (2 ^ k) ≡ true
power-IsPower k =
    let r : bit_and (2 ^ k) (2 ^ k - 1) ≡ 0 = low_digits k (2 ^ k) ∙ mod_self (2 ^ k) in
    ground (arith, r, pow_pos k)

-- For a size above 0 and an alignment 2 ^ k with next + 2 ^ k + size at most 2 ^ 64, alloc
-- either answers an address that is a multiple of the alignment, from next on and below next + 2
-- ^ k, with the block inside the heap and next moved to its end, or answers OutOfMemory, and
-- then the heap ends before next + 2 ^ k + size.
pub alloc-Block :
    (b : BumpAllocator) (size k : ℕ)
    → 0 < size
    → b.next + 2 ^ k + size ≤ 2 ^ 64
    → ((addr : ℕ) × (b' : BumpAllocator) × (alloc b size (2 ^ k) ≡ ok (addr, b'))
        × Block b size (2 ^ k) addr b')
      ⊎ (alloc b size (2 ^ k) ≡ err out_of_memory) × (b.heap_end < b.next + 2 ^ k + size)
unfolding alloc
alloc-Block b size k pos room =
    let c₁ : (size == 0) ≡ false = ground (arith, pos) in
    let c₂ : ltb (b.next + (2 ^ k - 1)) (2 ^ 64) ≡ true = ground (arith, room, pos, pow_pos k) in
    let m : ℕ = b.next + (2 ^ k - 1) in
    let addr : ℕ = m - m % 2 ^ k in
    let low = mod-lt m (pow_pos k) in
    let c₃ : ltb (addr + size) (2 ^ 64) ≡ true = ground (arith, room, pow_pos k) in
    rw (c₁, power-IsPower k, c₂, low_digits k (b.next + (2 ^ k - 1)))
      (elim (Bool-cases (ltb b.heap_end (addr + size))) [
        | inl over ↦ rw (c₃, over) (inr (refl, ground (arith, over)))
        | inr fits ↦
            rw (c₃, fits)
              (inl (
                addr,
                record b { next = addr + size },
                refl,
                record {
                  aligned = rounded (2 ^ k) m (pow_pos k);
                  fresh = omega (arith, low);
                  close = omega (arith, pow_pos k);
                  in_heap = ground (arith, fits);
                  taken = refl;
                },
              ))
      ])
