-- ===== src/Prelude/Testbit.antt =====
-- The binary digits of a number, and what setting, clearing and flipping one of them does.
use Prim.Native.Nat.{
  ℕ, zero, suc, ◌-◌, ◌*◌, ◌/◌, ◌%◌, ◌^◌, ◌<◌, min, max, differ, bit_and, bit_or, bit_xor,
}
use mathlib.Core.Path.{◌≡◌, refl, sym, ap, ◌∙◌}
use mathlib.Core.Logic.{◌≢◌, ◌↔◌}
use native.Mathlib.Nat.{pow-suc, pow-succ', div-div-eq-div-mul}
use native.Mathlib.Omega.{arith}
use project_qlinux.Prelude.Bits.{
  bit_xor_step, bit_or_step, bit_and_step, double_pow, bit_and-zero_right,
}

-- Digit `k`, from the lowest.
abbrev pub testbit : ℕ → ℕ → ℕ
testbit zero w = w % 2
testbit (suc k) w = testbit k (w / 2)

pub testbit-lt : (k w : ℕ) → testbit k w < 2
testbit-lt zero w = omega arith
testbit-lt (suc k) w = testbit-lt k (w / 2)

half_pow : (k : ℕ) → (2 ^ suc k / 2 ≡ 2 ^ k) × (2 ^ suc k % 2 ≡ 0)
half_pow k = omega (arith, pow-suc 2 k)

pub testbit-zero : (k : ℕ) → testbit k 0 ≡ 0
testbit-zero zero = refl
testbit-zero (suc k) = testbit-zero k

-- Digit by digit, `|` is the larger, `&` the smaller, and `^` tells whether the two differ.
pub testbit-bit_or : (k a b : ℕ) → testbit k (bit_or a b) ≡ max (testbit k a) (testbit k b)
testbit-bit_or zero a b = omega (arith, bit_or_step a b)
testbit-bit_or (suc k) a b =
    let half : bit_or a b / 2 ≡ bit_or (a / 2) (b / 2) = omega (arith, bit_or_step a b) in
    rw half (testbit-bit_or k (a / 2) (b / 2))

pub testbit-bit_and : (k a b : ℕ) → testbit k (bit_and a b) ≡ min (testbit k a) (testbit k b)
testbit-bit_and zero a b = omega (arith, bit_and_step a b)
testbit-bit_and (suc k) a b =
    let half : bit_and a b / 2 ≡ bit_and (a / 2) (b / 2) = omega (arith, bit_and_step a b) in
    rw half (testbit-bit_and k (a / 2) (b / 2))

differ-lt : (x y : ℕ) → x < 2 → y < 2 → differ x y < 2
differ-lt zero y p q = q
differ-lt (suc zero) zero p q = omega arith
differ-lt (suc zero) (suc zero) p q = omega arith
differ-lt (suc zero) (suc (suc y)) p q = absurd (omega arith)
differ-lt (suc (suc x)) y p q = absurd (omega arith)

pub testbit-bit_xor : (k a b : ℕ) → testbit k (bit_xor a b) ≡ differ (testbit k a) (testbit k b)
testbit-bit_xor zero a b =
    omega (arith, bit_xor_step a b, differ-lt (a % 2) (b % 2) (omega arith) (omega arith))
testbit-bit_xor (suc k) a b =
    let half : bit_xor a b / 2 ≡ bit_xor (a / 2) (b / 2) =
      omega (arith, bit_xor_step a b, differ-lt (a % 2) (b % 2) (omega arith) (omega arith)) in
    rw half (testbit-bit_xor k (a / 2) (b / 2))

pub testbit-pow_self : (k : ℕ) → testbit k (2 ^ k) ≡ 1
testbit-pow_self zero = refl
testbit-pow_self (suc k) = rw (half_pow k).0 (testbit-pow_self k)

pub testbit-pow_ne : (j k : ℕ) → j ≢ k → testbit j (2 ^ k) ≡ 0
testbit-pow_ne zero zero h = absurd (h refl)
testbit-pow_ne zero (suc k) h = (half_pow k).1
testbit-pow_ne (suc j) zero h = testbit-zero j
testbit-pow_ne (suc j) (suc k) h = rw (half_pow k).0 (testbit-pow_ne j k (λ e. h (ap suc e)))

-- The test `w & (1 << k)`.
pub bit_and_pow : (k w : ℕ) → bit_and w (2 ^ k) ≡ testbit k w * 2 ^ k
bit_and_pow zero w =
    omega (arith, bit_and_step w 1, bit_and-zero_right (w / 2) (w / 2) (omega arith))
bit_and_pow (suc k) w =
    let h = half_pow k in
    let e : bit_and w (2 ^ suc k) ≡ 2 * bit_and (w / 2) (2 ^ k) =
      bit_and_step w (2 ^ suc k) ∙ (rw (h.0, h.1) (omega arith)) in
    e ∙ (omega (arith, bit_and_pow k (w / 2), double_pow (testbit k (w / 2)) k))

-- `w |= 1 << k`.
pub testbit-set_self : (k w : ℕ) → testbit k (bit_or w (2 ^ k)) ≡ 1
testbit-set_self k w =
    testbit-bit_or k w (2 ^ k) ∙ (omega (arith, testbit-pow_self k, testbit-lt k w))

pub testbit-set_ne : (j k w : ℕ) → j ≢ k → testbit j (bit_or w (2 ^ k)) ≡ testbit j w
testbit-set_ne j k w h = testbit-bit_or j w (2 ^ k) ∙ (omega (arith, testbit-pow_ne j k h))

-- `w ^= 1 << k`.
differ_one : (x : ℕ) → x < 2 → differ x 1 ≡ 1 - x
differ_one zero h = refl
differ_one (suc zero) h = refl
differ_one (suc (suc x)) h = absurd (omega arith)

differ_zero : (x : ℕ) → x < 2 → differ x 0 ≡ x
differ_zero zero h = refl
differ_zero (suc zero) h = refl
differ_zero (suc (suc x)) h = absurd (omega arith)

pub testbit-flip_self : (k w : ℕ) → testbit k (bit_xor w (2 ^ k)) ≡ 1 - testbit k w
testbit-flip_self k w =
    testbit-bit_xor k w (2 ^ k)
    ∙ ap (differ (testbit k w)) (testbit-pow_self k)
    ∙ differ_one (testbit k w) (testbit-lt k w)

pub testbit-flip_ne : (j k w : ℕ) → j ≢ k → testbit j (bit_xor w (2 ^ k)) ≡ testbit j w
testbit-flip_ne j k w h =
    testbit-bit_xor j w (2 ^ k)
    ∙ ap (differ (testbit j w)) (testbit-pow_ne j k h)
    ∙ differ_zero (testbit j w) (testbit-lt j w)

-- `!(1 << k)` in `n` bits.
abbrev pub all_but : ℕ → ℕ → ℕ
all_but n k = 2 ^ n - 1 - 2 ^ k

pub pow_pos : (k : ℕ) → 0 < 2 ^ k
pow_pos zero = omega arith
pow_pos (suc k) = omega (arith, pow_pos k, pow-suc 2 k)

pub pow-lt_pow : (k n : ℕ) → k < n → 2 ^ k < 2 ^ n
pow-lt_pow zero zero h = absurd (omega arith)
pow-lt_pow zero (suc n) h = omega (arith, pow_pos n, pow-suc 2 n)
pow-lt_pow (suc k) zero h = absurd (omega arith)
pow-lt_pow (suc k) (suc n) h = omega (arith, pow-lt_pow k n (omega arith), pow-suc 2 n, pow-suc 2 k)

pub all_ones : (j n : ℕ) → j < n → testbit j (2 ^ n - 1) ≡ 1
all_ones j zero h = absurd (omega arith)
all_ones zero (suc n) h = omega (arith, pow-suc 2 n, pow_pos n)
all_ones (suc j) (suc n) h =
    let half : (2 ^ suc n - 1) / 2 ≡ 2 ^ n - 1 = omega (arith, pow-suc 2 n, pow_pos n) in
    rw half (all_ones j n (omega arith))

testbit-all_but_self : (n k : ℕ) → k < n → testbit k (all_but n k) ≡ 0
testbit-all_but_self zero k h = absurd (omega arith)
testbit-all_but_self (suc n) zero h = omega (arith, pow-suc 2 n, pow_pos n)
testbit-all_but_self (suc n) (suc k) h =
    let half : all_but (suc n) (suc k) / 2 ≡ all_but n k =
      omega (arith, pow-suc 2 n, pow-suc 2 k, pow-lt_pow k n (omega arith)) in
    rw half (testbit-all_but_self n k (omega arith))

testbit-all_but_ne : (n j k : ℕ) → j < n → k < n → j ≢ k → testbit j (all_but n k) ≡ 1
testbit-all_but_ne zero j k h g ne = absurd (omega arith)
testbit-all_but_ne (suc n) zero zero h g ne = absurd (ne refl)
testbit-all_but_ne (suc n) zero (suc k) h g ne =
    omega (arith, pow-suc 2 n, pow-suc 2 k, pow-lt_pow k n (omega arith))
testbit-all_but_ne (suc n) (suc j) zero h g ne =
    let half : all_but (suc n) 0 / 2 ≡ 2 ^ n - 1 = omega (arith, pow-suc 2 n, pow_pos n) in
    rw half (all_ones j n (omega arith))
testbit-all_but_ne (suc n) (suc j) (suc k) h g ne =
    let half : all_but (suc n) (suc k) / 2 ≡ all_but n k =
      omega (arith, pow-suc 2 n, pow-suc 2 k, pow-lt_pow k n (omega arith)) in
    rw half (testbit-all_but_ne n j k (omega arith) (omega arith) (λ e. ne (ap suc e)))

-- `w &= !(1 << k)`.
pub testbit-clear_self : (n k w : ℕ) → k < n → testbit k (bit_and w (all_but n k)) ≡ 0
testbit-clear_self n k w h =
    testbit-bit_and k w (all_but n k) ∙ (omega (arith, testbit-all_but_self n k h))

pub testbit-clear_ne :
    (n j k w : ℕ) → j < n → k < n → j ≢ k → testbit j (bit_and w (all_but n k)) ≡ testbit j w
testbit-clear_ne n j k w h g ne =
    testbit-bit_and j w (all_but n k)
    ∙ (omega (arith, testbit-all_but_ne n j k h g ne, testbit-lt j w))

-- `w & (1 << k) == 0` exactly if the digit is 0.
pub bit_and_pow-zero_iff : (k w : ℕ) → (bit_and w (2 ^ k) ≡ 0) ↔ (testbit k w ≡ 0)
bit_and_pow-zero_iff k w = (
  (λ h. zero_factor (testbit k w) (testbit-lt k w) (sym (bit_and_pow k w) ∙ h)),
  (λ h. bit_and_pow k w ∙ (rw h (omega arith))),
)
  where
    zero_factor : (t : ℕ) → t < 2 → t * 2 ^ k ≡ 0 → t ≡ 0
    zero_factor zero h e = refl
    zero_factor (suc zero) h e = absurd (omega (arith, pow_pos k))
    zero_factor (suc (suc t)) h e = absurd (omega arith)

-- The digit as the source reads it, by a shift.
pub testbit-shift : (k w : ℕ) → w / 2 ^ k % 2 ≡ testbit k w
testbit-shift zero w = omega arith
testbit-shift (suc k) w =
    ap (λ t. t % 2) (ap (λ m. w / m) (pow-succ' 2 k) ∙ sym (div-div-eq-div-mul w 2 (2 ^ k)))
    ∙ testbit-shift k (w / 2)

pub bit_or-lt : (n a b : ℕ) → a < 2 ^ n → b < 2 ^ n → bit_or a b < 2 ^ n
bit_or-lt zero a b h g =
    let z : a ≡ 0 = omega arith in let y : b ≡ 0 = omega arith in rw (z, y) (omega arith)
bit_or-lt (suc n) a b h g =
    let p = pow-suc 2 n in
    omega (arith, bit_or_step a b, bit_or-lt n (a / 2) (b / 2) (omega arith) (omega arith))
