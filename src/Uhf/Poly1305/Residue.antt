-- ===== src/Uhf/Poly1305/Residue.antt =====
-- The limb arithmetic of Poly1305 as arithmetic modulo 2 ^ 130 - 5, with the bounds that keep every
-- u64 sum from wrapping.
use project_qlinux.Prelude.{ℕ, ◌+◌, ◌-◌, ◌*◌, ◌/◌, ◌%◌, ◌^◌, ◌≤◌, ◌<◌, ◌≡◌, refl, ap, ◌∙◌, arith}
use project_qlinux.Prelude.Words.{u64, mod_of_multiple}
use native.Mathlib.Nat.{mul-le-mul}
use project_qlinux.Uhf.Poly1305.{Limbs, reduce, columns, mul_r, carry_round, propagate_carry}

-- The field's prime.
abbrev pub p130 : ℕ
p130 = 2 ^ 130 - 5

-- The number that five limbs stand for.
abbrev pub value : Limbs → ℕ
value h = h.l0 + h.l1 * 2 ^ 26 + h.l2 * 2 ^ 52 + h.l3 * 2 ^ 78 + h.l4 * 2 ^ 104

-- Limbs between two blocks: the second may run over 26 bits a little.
pub record IsReduced (h : Limbs) : Type 0 where
  pub b0 : h.l0 < 2 ^ 26
  pub b1 : h.l1 < 2 ^ 26 + 2 ^ 10
  pub b2 : h.l2 < 2 ^ 26
  pub b3 : h.l3 < 2 ^ 26
  pub b4 : h.l4 < 2 ^ 26

abbrev pub AllBelow : ℕ → Limbs → Type 0
AllBelow m h = (h.l0 < m) × (h.l1 < m) × (h.l2 < m) × (h.l3 < m) × (h.l4 < m)

-- One carry round keeps the number modulo the prime and bounds the limbs.
reduce_carry :
    (d : Limbs)
    → AllBelow (2 ^ 59) d
    → (value (reduce d)
          + ((d.l4 + (d.l3 + (d.l2 + (d.l1 + d.l0 / 2 ^ 26) / 2 ^ 26) / 2 ^ 26) / 2 ^ 26) / 2 ^ 26)
            * p130
        ≡ value d)
unfolding reduce
reduce_carry d h = omega arith

reduce-IsReduced : (d : Limbs) → AllBelow (2 ^ 59) d → IsReduced (reduce d)
unfolding reduce
reduce-IsReduced d h = omega arith

-- A key's limbs have 26 bits.
abbrev pub IsKeyLimbs : Limbs → Type 0
IsKeyLimbs r = AllBelow (2 ^ 26) r

product_bound : (a b : ℕ) → a < 2 ^ 28 → b < 5 * 2 ^ 26 → a * b ≤ 2 ^ 28 * (5 * 2 ^ 26)
product_bound a b h k = mul-le-mul {n₂ = 2 ^ 28} {m₂ = 5 * 2 ^ 26} (omega arith) (omega arith)

-- Five products of a limb by a key limb, five times it at most, fit a word.
dot_bound :
    (a0 a1 a2 a3 a4 b0 b1 b2 b3 b4 : ℕ)
    → a0 < 2 ^ 28
    → a1 < 2 ^ 28
    → a2 < 2 ^ 28
    → a3 < 2 ^ 28
    → a4 < 2 ^ 28
    → b0 < 5 * 2 ^ 26
    → b1 < 5 * 2 ^ 26
    → b2 < 5 * 2 ^ 26
    → b3 < 5 * 2 ^ 26
    → b4 < 5 * 2 ^ 26
    → a0 * b0 + a1 * b1 + a2 * b2 + a3 * b3 + a4 * b4 < 2 ^ 59
dot_bound a0 a1 a2 a3 a4 b0 b1 b2 b3 b4 h0 h1 h2 h3 h4 k0 k1 k2 k3 k4 = omega (
  arith,
  product_bound a0 b0 h0 k0,
  product_bound a1 b1 h1 k1,
  product_bound a2 b2 h2 k2,
  product_bound a3 b3 h3 k3,
  product_bound a4 b4 h4 k4,
)

-- The same columns with no wrap.
abbrev true_columns : Limbs → Limbs → Limbs
true_columns h r = record {
  l0 = h.l0 * r.l0 + h.l1 * (r.l4 * 5) + h.l2 * (r.l3 * 5) + h.l3 * (r.l2 * 5) + h.l4 * (r.l1 * 5);
  l1 = h.l0 * r.l1 + h.l1 * r.l0 + h.l2 * (r.l4 * 5) + h.l3 * (r.l3 * 5) + h.l4 * (r.l2 * 5);
  l2 = h.l0 * r.l2 + h.l1 * r.l1 + h.l2 * r.l0 + h.l3 * (r.l4 * 5) + h.l4 * (r.l3 * 5);
  l3 = h.l0 * r.l3 + h.l1 * r.l2 + h.l2 * r.l1 + h.l3 * r.l0 + h.l4 * (r.l4 * 5);
  l4 = h.l0 * r.l4 + h.l1 * r.l3 + h.l2 * r.l2 + h.l3 * r.l1 + h.l4 * r.l0;
}

true_columns-AllBelow :
    (h r : Limbs) → AllBelow (2 ^ 28) h → IsKeyLimbs r → AllBelow (2 ^ 59) (true_columns h r)
true_columns-AllBelow h r a k = (
  dot_bound h.l0 h.l1 h.l2 h.l3 h.l4 r.l0 (r.l4 * 5) (r.l3 * 5) (r.l2 * 5) (r.l1 * 5) a.0 a.1 a.2
      a.3 a.4 (omega arith) (omega arith) (omega arith) (omega arith) (omega arith),
  dot_bound h.l0 h.l1 h.l2 h.l3 h.l4 r.l1 r.l0 (r.l4 * 5) (r.l3 * 5) (r.l2 * 5) a.0 a.1 a.2 a.3 a.4
      (omega arith) (omega arith) (omega arith) (omega arith) (omega arith),
  dot_bound h.l0 h.l1 h.l2 h.l3 h.l4 r.l2 r.l1 r.l0 (r.l4 * 5) (r.l3 * 5) a.0 a.1 a.2 a.3 a.4
      (omega arith) (omega arith) (omega arith) (omega arith) (omega arith),
  dot_bound h.l0 h.l1 h.l2 h.l3 h.l4 r.l3 r.l2 r.l1 r.l0 (r.l4 * 5) a.0 a.1 a.2 a.3 a.4
      (omega arith) (omega arith) (omega arith) (omega arith) (omega arith),
  dot_bound h.l0 h.l1 h.l2 h.l3 h.l4 r.l4 r.l3 r.l2 r.l1 r.l0 a.0 a.1 a.2 a.3 a.4 (omega arith)
      (omega arith) (omega arith) (omega arith) (omega arith),
)

fits_word : (x m : ℕ) → x < 2 ^ 59 → m ≡ x → u64 m ≡ x
fits_word x m h e = omega arith

-- No sum of the columns wraps.
columns_lem : (h r : Limbs) → AllBelow (2 ^ 28) h → IsKeyLimbs r → columns h r ≡ true_columns h r
unfolding columns
columns_lem h r a k =
    let e1 : u64 (r.l1 * 5) ≡ r.l1 * 5 = omega arith in
    let e2 : u64 (r.l2 * 5) ≡ r.l2 * 5 = omega arith in
    let e3 : u64 (r.l3 * 5) ≡ r.l3 * 5 = omega arith in
    let e4 : u64 (r.l4 * 5) ≡ r.l4 * 5 = omega arith in
    let t = true_columns-AllBelow h r a k in
    rw (e1, e2, e3, e4)
      (λ i. record {
        l0 = fits_word _ _ t.0 refl i;
        l1 = fits_word _ _ t.1 refl i;
        l2 = fits_word _ _ t.2 refl i;
        l3 = fits_word _ _ t.3 refl i;
        l4 = fits_word _ _ t.4 refl i;
      })

-- The part of the product above 2 ^ 130.
abbrev folded : Limbs → Limbs → ℕ
folded h r =
    h.l1 * r.l4
    + h.l2 * r.l3
    + h.l3 * r.l2
    + h.l4 * r.l1
    + (h.l2 * r.l4 + h.l3 * r.l3 + h.l4 * r.l2) * 2 ^ 26
    + (h.l3 * r.l4 + h.l4 * r.l3) * 2 ^ 52
    + h.l4 * r.l4 * 2 ^ 78

value-true_columns :
    (h r : Limbs) → value (true_columns h r) + folded h r * p130 ≡ value h * value r
value-true_columns h r = omega arith

mul_r-true_columns :
    (h r : Limbs) → AllBelow (2 ^ 28) h → IsKeyLimbs r → mul_r h r ≡ reduce (true_columns h r)
unfolding mul_r
mul_r-true_columns h r a k = ap reduce (columns_lem h r a k)

-- For limbs below 2 ^ 28 and key limbs below 2 ^ 26, mul_r multiplies modulo 2 ^ 130 - 5 with no
-- loss to the u64 wrap, and leaves limbs below 2 ^ 26, the second below 2 ^ 26 + 2 ^ 10.
pub mul_r_lem :
    (h r : Limbs)
    → AllBelow (2 ^ 28) h
    → IsKeyLimbs r
    → (value (mul_r h r) % p130 ≡ (value h * value r) % p130) × IsReduced (mul_r h r)
mul_r_lem h r a k =
    let t = true_columns-AllBelow h r a k in
    rw (mul_r-true_columns h r a k) (
      mod_of_multiple p130 _ _ _ (reduce_carry (true_columns h r) t)
          ∙ mod_of_multiple p130 _ _ _ (value-true_columns h r),
      reduce-IsReduced (true_columns h r) t,
    )

-- Fully carried limbs: the number has at most 130 bits.
pub record IsCarried (h : Limbs) : Type 0 where
  pub c0 : h.l0 < 2 ^ 26
  pub c1 : h.l1 < 2 ^ 26
  pub c2 : h.l2 < 2 ^ 26
  pub c3 : h.l3 < 2 ^ 26
  pub c4 : h.l4 < 2 ^ 26

carry_round_lem :
    (h : Limbs)
    → IsReduced h
    → (value (carry_round h)
          + ((h.l4 + (h.l3 + (h.l2 + (h.l1 + h.l0 / 2 ^ 26) / 2 ^ 26) / 2 ^ 26) / 2 ^ 26) / 2 ^ 26)
            * p130
        ≡ value h)
unfolding carry_round
carry_round_lem h b = omega arith

carry_round-IsReduced : (h : Limbs) → IsReduced h → IsReduced (carry_round h)
unfolding carry_round
carry_round-IsReduced h b = omega arith

carry_twice-IsCarried : (h : Limbs) → IsReduced h → IsCarried (carry_round (carry_round h))
unfolding carry_round
carry_twice-IsCarried h b = omega arith

-- For limbs as mul_r leaves them, propagate_carry keeps the number modulo 2 ^ 130 - 5 and leaves
-- five limbs below 2 ^ 26.
pub propagate_carry_lem :
    (h : Limbs)
    → IsReduced h
    → (value (propagate_carry h) % p130 ≡ value h % p130) × IsCarried (propagate_carry h)
unfolding propagate_carry
propagate_carry_lem h b = (
  mod_of_multiple p130 _ _ _ (carry_round_lem (carry_round h) (carry_round-IsReduced h b))
      ∙ mod_of_multiple p130 _ _ _ (carry_round_lem h b),
  carry_twice-IsCarried h b,
)
