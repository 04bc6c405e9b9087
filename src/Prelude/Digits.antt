-- ===== src/Prelude/Digits.antt =====
-- The digits of `&`: a mask of ones is a remainder, and a mask of two parts works on each part.
use project_qlinux.Prelude.{
  ℕ, zero, suc, ◌+◌, ◌-◌, ◌*◌, ◌/◌, ◌%◌, ◌^◌, ◌<◌, ◌≡◌, ◌∙◌, sym, ap, ap₂, arith, bit_and,
}
use native.Mathlib.Nat.{
  mul_comm, mul_assoc, pow-suc, mod-lt, mod-eq_of_lt, mul-add-mod_self_left, div-add-mod,
}
use project_qlinux.Prelude.Bits.{bit_and_step, bit_and-zero_right, double_pow}
use project_qlinux.Prelude.Testbit.{pow_pos}

-- The remainder by twice `p`.
mod_double : (p x : ℕ) → 0 < p → 2 * (x / 2 % p) + x % 2 ≡ x % (p * 2)
mod_double p x pos =
    let low = mod-lt (x / 2) pos in
    let whole : p * 2 * (x / 2 / p) + (2 * (x / 2 % p) + x % 2) ≡ x =
      ap (λ t. t + (2 * (x / 2 % p) + x % 2))
        (ap (λ t. t * (x / 2 / p)) (mul_comm p 2) ∙ mul_assoc 2 p (x / 2 / p))
      ∙ (omega (arith, div-add-mod (x / 2) p)) in
    sym (mod-eq_of_lt (omega (arith, low)))
    ∙ sym (mul-add-mod_self_left (p * 2) (x / 2 / p) (2 * (x / 2 % p) + x % 2))
    ∙ ap (λ y. y % (p * 2)) whole

-- `x & (2^k - 1)` is the remainder.
pub low_digits : (k x : ℕ) → bit_and x (2 ^ k - 1) ≡ x % 2 ^ k
low_digits zero x = omega (arith, bit_and-zero_right x x (omega arith))
low_digits (suc k) x =
    let p = pow-suc 2 k in
    let pos = pow_pos k in
    let half : (2 ^ suc k - 1) / 2 ≡ 2 ^ k - 1 = omega (arith, p, pos) in
    let odd : (2 ^ suc k - 1) % 2 ≡ 1 = omega (arith, p, pos) in
    let step : bit_and x (2 ^ suc k - 1) ≡ 2 * bit_and (x / 2) (2 ^ k - 1) + x % 2 =
      omega (arith, bit_and_step x (2 ^ suc k - 1), half, odd, ap (bit_and (x / 2)) half) in
    step
    ∙ ap (λ y. 2 * y + x % 2) (low_digits k (x / 2))
    ∙ mod_double (2 ^ k) x pos
    ∙ ap (λ y. x % y) (sym p)

-- The lowest `k` digits, and those above them.
pub bit_and_parts :
    (k b m x y : ℕ)
    → b < 2 ^ k
    → m < 2 ^ k
    → bit_and (b + x * 2 ^ k) (m + y * 2 ^ k) ≡ bit_and b m + bit_and x y * 2 ^ k
bit_and_parts zero b m x y hb hm =
    let eb : b ≡ 0 = omega (arith, hb) in
    let em : m ≡ 0 = omega (arith, hm) in
    rw (eb, em)
      (ap₂ bit_and {x = 0 + x * 2 ^ 0} {y = x} {u = 0 + y * 2 ^ 0} {v = y} (omega arith)
          (omega arith)
        ∙ (omega (arith, bit_and-zero_right 0 0 (omega arith))))
bit_and_parts (suc k) b m x y hb hm =
    let p = pow-suc 2 k in
    let dx = double_pow x k in
    let dy = double_pow y k in
    let hx : (b + x * 2 ^ suc k) / 2 ≡ b / 2 + x * 2 ^ k = omega (arith, dx) in
    let hy : (m + y * 2 ^ suc k) / 2 ≡ m / 2 + y * 2 ^ k = omega (arith, dy) in
    let lx : (b + x * 2 ^ suc k) % 2 ≡ b % 2 = omega (arith, dx) in
    let ly : (m + y * 2 ^ suc k) % 2 ≡ m % 2 = omega (arith, dy) in
    omega (
      arith,
      lx,
      ly,
      bit_and_step (b + x * 2 ^ suc k) (m + y * 2 ^ suc k),
      bit_and_step b m,
      ap₂ bit_and hx hy,
      bit_and_parts k (b / 2) (m / 2) x y (omega (arith, p, hb)) (omega (arith, p, hm)),
      double_pow (bit_and x y) k,
    )
