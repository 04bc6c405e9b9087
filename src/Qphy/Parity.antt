-- ===== src/Qphy/Parity.antt =====
-- kernel/qphy/src/lib.rs: the parity of an interval, and the search for a position where two buffers differ.
use project_qlinux.Prelude.{
  ℕ, zero, suc, ◌+◌, ◌-◌, ◌/◌, ◌%◌, ◌≤◌, ◌<◌, ◌≡◌, ◌≢◌, refl, sym, ap, ◌∙◌, Bool, true, false,
  Bool-cases, inl, inr, List, arith, ltb, ◌==◌, ==_iff, bit_xor,
}
use native.Mathlib.Decide.{dec_lt}
use project_qlinux.Qphy.{get_bit, par_loop, par, narrow}

get_bit-lt : (buf : List ℕ) (i : ℕ) → get_bit buf i < 2
unfolding get_bit
get_bit-lt buf i = omega arith

-- On single bits, `^` is the sum modulo 2.
xor_sum : (p q : ℕ) → p < 2 → q < 2 → bit_xor p q ≡ (p + q) % 2
xor_sum zero zero h g = refl
xor_sum zero (suc zero) h g = refl
xor_sum (suc zero) zero h g = refl
xor_sum (suc zero) (suc zero) h g = refl
xor_sum (suc (suc p)) q h g = absurd (omega arith)
xor_sum zero (suc (suc q)) h g = absurd (omega arith)
xor_sum (suc zero) (suc (suc q)) h g = absurd (omega arith)

module _ (perm : ℕ → ℕ) (buf : List ℕ) where
  -- The ones at n positions from i on.
  ones : ℕ → ℕ → ℕ
  ones zero i = 0
  ones (suc n) i = get_bit buf (perm i) + ones n (i + 1)

  ones_add : (m n i : ℕ) → ones (m + n) i ≡ ones m i + ones n (i + m)
  unfolding ones
  ones_add zero n i =
      let l : 0 + n ≡ n = omega arith in let r : i + 0 ≡ i = omega arith in rw (l, r) (omega arith)
  ones_add (suc m) n i =
      let l : suc m + n ≡ suc (m + n) = omega arith in
      let r : i + suc m ≡ i + 1 + m = omega arith in rw (l, r) (omega (arith, ones_add m n (i + 1)))

  par_loop-ones : (n i p : ℕ) → p < 2 → par_loop perm buf n i p ≡ (p + ones n i) % 2
  unfolding par_loop ones
  par_loop-ones zero i p h = omega (arith, h)
  par_loop-ones (suc n) i p h =
      let e = xor_sum p (get_bit buf (perm i)) h (get_bit-lt buf (perm i)) in
      omega
        (arith, par_loop-ones n (i + 1) (bit_xor p (get_bit buf (perm i))) (omega (arith, e)), e)

  par-ones : (lo hi : ℕ) → par perm buf lo hi ≡ ones (hi - lo) lo % 2
  par-ones lo hi = omega (arith, par_loop-ones (hi - lo) lo 0 (omega arith))

  -- The parity of an interval is that of its two parts together.
  halves :
      (lo mid hi : ℕ)
      → lo ≤ mid
      → mid ≤ hi
      → par perm buf lo hi ≡ (par perm buf lo mid + par perm buf mid hi) % 2
  halves lo mid hi h g =
      let whole : hi - lo ≡ (mid - lo) + (hi - mid) = omega arith in
      let there : lo + (mid - lo) ≡ mid = omega arith in
      let sum : ones (hi - lo) lo ≡ ones (mid - lo) lo + ones (hi - mid) mid =
        ap (λ n. ones n lo) whole
        ∙ ones_add (mid - lo) (hi - mid) lo
        ∙ ap (λ j. ones (mid - lo) lo + ones (hi - mid) j) there in
      omega (arith, par-ones lo hi, par-ones lo mid, par-ones mid hi, sum)

  -- An interval of one position has the parity of its bit, an empty one has none.
  par_one : (lo : ℕ) → par perm buf lo (lo + 1) ≡ get_bit buf (perm lo)
  unfolding ones
  par_one lo =
      let one : lo + 1 - lo ≡ 1 = omega arith in
      par-ones lo (lo + 1) ∙ ap (λ n. ones n lo % 2) one ∙ (omega (arith, get_bit-lt buf (perm lo)))

  par_empty : (lo hi : ℕ) → hi ≤ lo → par perm buf lo hi ≡ 0
  unfolding ones
  par_empty lo hi h =
      let none_left : hi - lo ≡ 0 = omega arith in
      par-ones lo hi ∙ ap (λ n. ones n lo % 2) none_left

module _ (perm : ℕ → ℕ) (a b : List ℕ) where
  -- Two buffers that differ in an interval's parity differ at the position that `narrow` finds.
  pub narrow-differs :
      (fuel lo hi leaked : ℕ)
      → hi ≤ lo + fuel
      → par perm a lo hi ≢ par perm b lo hi
      → get_bit a (perm (narrow perm a b fuel lo hi leaked).0)
        ≢ get_bit b (perm (narrow perm a b fuel lo hi leaked).0)
  unfolding narrow
  narrow-differs zero lo hi leaked enough ne =
      absurd
        (ne (par_empty perm a lo hi (omega arith) ∙ sym (par_empty perm b lo hi (omega arith))))
  narrow-differs (suc fuel) lo hi leaked enough ne = elim (Bool-cases (ltb 1 (hi - lo))) [
    | inr short ↦ rw short (λ e. one short e (dec_lt lo hi))
    | inl long ↦ elim (Bool-cases (par perm a lo mid == par perm b lo mid)) [
      | inl same ↦
          rw (long, same)
            (narrow-differs fuel mid hi (leaked + 1) (ground (arith, enough, long))
              (λ e. ne (joined long ((==_iff (par perm a lo mid) (par perm b lo mid)).0 same) e)))
      | inr apart ↦
          rw (long, apart)
            (narrow-differs fuel lo mid (leaked + 1) (ground (arith, enough, long))
              (λ e. differ apart ((==_iff (par perm a lo mid) (par perm b lo mid)).1 e)))
    ]
  ]
    where
      mid : ℕ
      mid = (lo + hi) / 2

      differ : {t : Bool} → t ≡ false → t ≡ true → ⊥
      differ e f = cc

      joined :
          ltb 1 (hi - lo) ≡ true
          → par perm a lo mid ≡ par perm b lo mid
          → par perm a mid hi ≡ par perm b mid hi
          → par perm a lo hi ≡ par perm b lo hi
      joined long low high =
          let l : lo ≤ mid = ground (arith, long) in
          let h : mid ≤ hi = ground (arith, long) in
          omega (arith, halves perm a lo mid hi l h, halves perm b lo mid hi l h, low, high)

      one : ltb 1 (hi - lo) ≡ false → get_bit a (perm lo) ≡ get_bit b (perm lo) → Dec (lo < hi) → ⊥
      one short e (no empty) = ne (
          par_empty perm a lo hi (omega (arith, empty))
          ∙ sym (par_empty perm b lo hi (omega (arith, empty))))
      one short e (yes some_left) =
          let next : lo + 1 ≡ hi = ground (arith, short, some_left) in
          ne (
            ap (par perm a lo) (sym next)
            ∙ par_one perm a lo
            ∙ e
            ∙ sym (par_one perm b lo)
            ∙ ap (par perm b lo) next)
