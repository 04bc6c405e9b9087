-- ===== src/Syscall/Pointers.antt =====
-- kernel/syscall/src/lib.rs: validate_user_ptr.
use project_qlinux.Prelude.{
  ℕ, ◌+◌, ◌^◌, ◌≤◌, ◌<◌, ◌≡◌, ◌⊎◌, refl, true, false, Bool-cases, inl, inr, ◌&&◌, ◌||◌, arith, ltb,
  ◌==◌, ok, err,
}
use project_qlinux.Syscall.{Kernel, validate_user_ptr, user_virt_max, efault}

-- A range of user memory: not empty, not at 0, below the limit, and apart from the kernel image if
-- there is one.
pub record IsUserRange {D : Type 0} (k : Kernel D) (ptr size : ℕ) : Type 0 where
  pub some_address : 0 < ptr
  pub some_bytes : 0 < size
  pub below_limit : ptr + size ≤ user_virt_max
  pub apart : (k.hi ≤ k.lo) ⊎ (k.hi ≤ ptr) ⊎ (ptr + size ≤ k.lo)

module _ {D : Type 0} (k : Kernel D) (ptr size : ℕ) where
  -- Validate_user_ptr answers ok exactly for the ranges that are not empty, do not begin at 0,
  -- end at or below USER_VIRT_MAX and are apart from the kernel image, if there is one; for the
  -- others it answers EFAULT.
  pub validate_user_ptr_cases :
      (validate_user_ptr k ptr size ≡ ok tt) × IsUserRange k ptr size
      ⊎ (validate_user_ptr k ptr size ≡ err efault) × (IsUserRange k ptr size → ⊥)
  unfolding validate_user_ptr
  validate_user_ptr_cases = elim (Bool-cases (ptr == 0 || size == 0)) [
    | inl a ↦ inr (rw a refl, λ r. ground (arith, a, r.some_address, r.some_bytes))
    | inr a ↦ elim (Bool-cases (ltb (ptr + size) (2 ^ 64))) [
      | inr b ↦ inr (rw (a, b) refl, λ r. ground (arith, b, r.below_limit))
      | inl b ↦ elim (Bool-cases (ltb user_virt_max (ptr + size))) [
        | inl c ↦ inr (rw (a, b, c) refl, λ r. ground (arith, c, r.below_limit))
        | inr c ↦ elim (Bool-cases (ltb k.lo k.hi && (ltb ptr k.hi && ltb k.lo (ptr + size)))) [
          | inl d ↦ inr (rw (a, b, c, d) refl, λ r. overlap d r.apart)
          | inr d ↦ inl (
            rw (a, b, c, d) refl,
            record {
              some_address = ground (arith, a);
              some_bytes = ground (arith, a);
              below_limit = ground (arith, c);
              apart = separate d;
            },
          )
        ]
      ]
    ]
  ]
    where
      overlap :
          ltb k.lo k.hi && (ltb ptr k.hi && ltb k.lo (ptr + size)) ≡ true
          → (k.hi ≤ k.lo) ⊎ (k.hi ≤ ptr) ⊎ (ptr + size ≤ k.lo)
          → ⊥
      overlap d apart = ground (arith, d, apart)

      separate :
          ltb k.lo k.hi && (ltb ptr k.hi && ltb k.lo (ptr + size)) ≡ false
          → (k.hi ≤ k.lo) ⊎ (k.hi ≤ ptr) ⊎ (ptr + size ≤ k.lo)
      separate d = ground (arith, d)
