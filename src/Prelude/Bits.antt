-- ===== src/Prelude/Bits.antt =====
-- Laws of the native bit operations at variables, from their recursion on binary digits.
use Prim.Native.Nat.{ℕ, zero, suc, ◌+◌, ◌*◌, ◌/◌, ◌%◌, ◌^◌, ◌≤◌, ◌<◌, min, max, differ, digits}
use Prim.Native.Nat.{bit_and, bit_or, bit_xor, bit_and-bitwise, bit_or-bitwise, bit_xor-bitwise}
use mathlib.Core.Path.{◌≡◌, refl, sym, ap, ◌∙◌}
use mathlib.Core.Logic.{◌↔◌}
use native.Mathlib.Nat.{pow-suc}
use native.Mathlib.Decide.{dec_lt}
use native.Mathlib.Omega.{arith}

-- The result does not depend on how many digits are looked at, if there are enough.
module _ (op : ℕ → ℕ → ℕ) (rest : ℕ → ℕ) where
  same_result : (x y k l : ℕ) → x ≤ l → x ≤ k → digits rest op k x y ≡ digits rest op l x y
  same_result zero y zero zero lo hi = refl
  same_result zero y zero (suc l) lo hi = refl
  same_result zero y (suc k) zero lo hi = refl
  same_result zero y (suc k) (suc l) lo hi = refl
  same_result (suc x) y (suc k) (suc l) lo hi =
      ap (λ t. t * 2 + op (suc x % 2) (y % 2))
        (same_result (suc x / 2) (y / 2) k l (omega arith) (omega arith))
  same_result (suc x) y zero l lo hi = absurd (omega arith)
  same_result (suc x) y (suc k) zero lo hi = absurd (omega arith)

  lowest_digit :
      (x y : ℕ)
      → op (suc x % 2) (y % 2) + 2 * digits rest op (suc x / 2) (suc x / 2) (y / 2)
        ≡ digits rest op (suc x) (suc x) y
  lowest_digit x y =
      omega (arith, same_result (suc x / 2) (y / 2) x (suc x / 2) (omega arith) (omega arith))

-- One equation for the lowest digit of each operation.
pub bit_xor_step : (x y : ℕ) → bit_xor x y ≡ differ (x % 2) (y % 2) + 2 * bit_xor (x / 2) (y / 2)
bit_xor_step zero y = simp bit_xor-bitwise (omega arith)
bit_xor_step (suc x) y = sym (simp bit_xor-bitwise (lowest_digit differ (λ t. t) x y))

pub bit_or_step : (x y : ℕ) → bit_or x y ≡ max (x % 2) (y % 2) + 2 * bit_or (x / 2) (y / 2)
bit_or_step zero y = simp bit_or-bitwise (omega arith)
bit_or_step (suc x) y = sym (simp bit_or-bitwise (lowest_digit max (λ t. t) x y))

pub bit_and_step : (x y : ℕ) → bit_and x y ≡ min (x % 2) (y % 2) + 2 * bit_and (x / 2) (y / 2)
bit_and_step zero y = simp bit_and-bitwise (omega arith)
bit_and_step (suc x) y = sym (simp bit_and-bitwise (lowest_digit min (λ _. 0) x y))

-- The laws go from `a / 2` to `a`; the count `n` bounds both numbers.
differ_cancel : (x y : ℕ) → x < 2 → y < 2 → differ (differ x y) y ≡ x
differ_cancel zero zero p q = refl
differ_cancel zero (suc zero) p q = refl
differ_cancel (suc zero) zero p q = refl
differ_cancel (suc zero) (suc zero) p q = refl
differ_cancel (suc (suc x)) y p q = absurd (omega arith)
differ_cancel x (suc (suc y)) p q = absurd (omega arith)

differ-lt : (x y : ℕ) → x < 2 → y < 2 → differ x y < 2
differ-lt zero y p q = q
differ-lt (suc zero) zero p q = omega arith
differ-lt (suc zero) (suc zero) p q = omega arith
differ-lt (suc zero) (suc (suc y)) p q = absurd (omega arith)
differ-lt (suc (suc x)) y p q = absurd (omega arith)

bit_xor_digits :
    (a b : ℕ)
    → (bit_xor a b / 2 ≡ bit_xor (a / 2) (b / 2)) × (bit_xor a b % 2 ≡ differ (a % 2) (b % 2))
bit_xor_digits a b =
    omega (arith, bit_xor_step a b, differ-lt (a % 2) (b % 2) (omega arith) (omega arith))

cancel_fuel : (n a k : ℕ) → a ≤ n → k ≤ n → bit_xor (bit_xor a k) k ≡ a
cancel_fuel zero zero zero p q = refl
cancel_fuel zero zero (suc k) p q = absurd (omega arith)
cancel_fuel zero (suc a) k p q = absurd (omega arith)
cancel_fuel (suc n) a k p q =
    rw
      (
        bit_xor_step (bit_xor a k) k,
        (bit_xor_digits a k).0,
        (bit_xor_digits a k).1,
        cancel_fuel n (a / 2) (k / 2) (omega arith) (omega arith),
        differ_cancel (a % 2) (k % 2) (omega arith) (omega arith),
      )
      (omega arith)

-- Adding the same pad twice gives the byte back.
pub bit_xor_cancel : (a k : ℕ) → bit_xor (bit_xor a k) k ≡ a
bit_xor_cancel a k = cancel_fuel (a + k) a k (omega arith) (omega arith)

differ_same : (x y : ℕ) → x < 2 → y < 2 → (differ x y ≡ 0) ↔ (x ≡ y)
differ_same zero zero p q = ((λ e. e), (λ e. e))
differ_same zero (suc zero) p q = ((λ e. omega arith), (λ e. omega arith))
differ_same (suc zero) zero p q = ((λ e. omega arith), (λ e. omega arith))
differ_same (suc zero) (suc zero) p q = ((λ e. refl), (λ e. refl))
differ_same (suc (suc x)) y p q = absurd (omega arith)
differ_same x (suc (suc y)) p q = absurd (omega arith)

bit_xor-zero_iff_fuel : (n a b : ℕ) → a ≤ n → b ≤ n → (bit_xor a b ≡ 0) ↔ (a ≡ b)
bit_xor-zero_iff_fuel zero zero zero p q = ((λ e. refl), (λ e. refl))
bit_xor-zero_iff_fuel zero zero (suc b) p q = absurd (omega arith)
bit_xor-zero_iff_fuel zero (suc a) b p q = absurd (omega arith)
bit_xor-zero_iff_fuel (suc n) a b p q =
    let ih : (bit_xor (a / 2) (b / 2) ≡ 0) ↔ (a / 2 ≡ b / 2) =
      bit_xor-zero_iff_fuel n (a / 2) (b / 2) (omega arith) (omega arith) in
    let low : (differ (a % 2) (b % 2) ≡ 0) ↔ (a % 2 ≡ b % 2) =
      differ_same (a % 2) (b % 2) (omega arith) (omega arith) in
    (
      (λ e. omega (
        arith,
        bit_xor_step a b,
        ih.0 (omega (arith, bit_xor_step a b)),
        low.0 (omega (arith, bit_xor_step a b)),
      )),
      (λ e. omega (arith, bit_xor_step a b, ih.1 (omega arith), low.1 (omega arith))),
    )

-- Two numbers differ in no bit exactly when they are equal.
pub bit_xor-zero_iff : (a b : ℕ) → (bit_xor a b ≡ 0) ↔ (a ≡ b)
bit_xor-zero_iff a b = bit_xor-zero_iff_fuel (a + b) a b (omega arith) (omega arith)

bit_or-zero_fuel : (n a b : ℕ) → a ≤ n → b ≤ n → (bit_or a b ≡ 0) → (a ≡ 0) × (b ≡ 0)
bit_or-zero_fuel zero a b p q h = omega arith
bit_or-zero_fuel (suc n) a b p q h =
    let ih : (a / 2 ≡ 0) × (b / 2 ≡ 0) =
      bit_or-zero_fuel n (a / 2) (b / 2) (omega arith) (omega arith)
        (omega (arith, bit_or_step a b)) in
    omega (arith, bit_or_step a b)

-- `|` is zero only where both sides are.
pub bit_or-zero_iff : (a b : ℕ) → (bit_or a b ≡ 0) ↔ (a ≡ 0) × (b ≡ 0)
bit_or-zero_iff a b =
    (bit_or-zero_fuel (a + b) a b (omega arith) (omega arith), λ h. rw (h.0, h.1) refl)

bit_or-zero_right : (n a : ℕ) → a ≤ n → bit_or a 0 ≡ a
bit_or-zero_right zero zero h = refl
bit_or-zero_right zero (suc a) h = absurd (omega arith)
bit_or-zero_right (suc n) a h =
    omega (arith, bit_or_step a 0, bit_or-zero_right n (a / 2) (omega arith))

pub bit_and-zero_right : (n a : ℕ) → a ≤ n → bit_and a 0 ≡ 0
bit_and-zero_right zero zero h = refl
bit_and-zero_right zero (suc a) h = absurd (omega arith)
bit_and-zero_right (suc n) a h =
    omega (arith, bit_and_step a 0, bit_and-zero_right n (a / 2) (omega arith))

pub double_pow : (q k : ℕ) → q * 2 ^ suc k ≡ 2 * (q * 2 ^ k)
double_pow q k = omega (arith, ap (λ (t : ℕ). q * t) (pow-suc 2 k))

-- `(q << k) | r` is a sum where `r` has at most `k` bits.
pub bit_or_shifted : (k q r : ℕ) → r < 2 ^ k → bit_or (q * 2 ^ k) r ≡ q * 2 ^ k + r
bit_or_shifted zero q zero h =
    let e : q * 2 ^ 0 ≡ q = omega arith in
    rw e (bit_or-zero_right q q (omega arith) ∙ (omega arith))
bit_or_shifted zero q (suc r) h = absurd (omega arith)
bit_or_shifted (suc k) q r h =
    let p : 2 ^ suc k ≡ 2 * 2 ^ k = pow-suc 2 k ∙ (omega arith) in
    let e : q * 2 ^ suc k ≡ 2 * (q * 2 ^ k) = double_pow q k in
    let half : (q * 2 ^ suc k) / 2 ≡ q * 2 ^ k = omega arith in
    let ih : bit_or (q * 2 ^ k) (r / 2) ≡ q * 2 ^ k + r / 2 =
      bit_or_shifted k q (r / 2) (omega arith) in
    rw (bit_or_step (q * 2 ^ suc k) r, half, ih) (omega arith)

bit_or_comm_fuel : (n a b : ℕ) → a ≤ n → b ≤ n → bit_or a b ≡ bit_or b a
bit_or_comm_fuel zero zero zero p q = refl
bit_or_comm_fuel zero zero (suc b) p q = absurd (omega arith)
bit_or_comm_fuel zero (suc a) b p q = absurd (omega arith)
bit_or_comm_fuel (suc n) a b p q = omega (
  arith,
  bit_or_step a b,
  bit_or_step b a,
  bit_or_comm_fuel n (a / 2) (b / 2) (omega arith) (omega arith),
)

pub bit_or_comm : (a b : ℕ) → bit_or a b ≡ bit_or b a
bit_or_comm a b = bit_or_comm_fuel (a + b) a b (omega arith) (omega arith)

-- The field may also stand on the left.
pub bit_or_field : (k q r : ℕ) → r < 2 ^ k → bit_or r (q * 2 ^ k) ≡ r + q * 2 ^ k
bit_or_field k q r h = bit_or_comm r (q * 2 ^ k) ∙ bit_or_shifted k q r h ∙ (omega arith)

bit_and-le_fuel : (n a b : ℕ) → a ≤ n → bit_and a b ≤ b
bit_and-le_fuel zero zero b h = omega (arith, bit_and-bitwise 0 b)
bit_and-le_fuel zero (suc a) b h = absurd (omega arith)
bit_and-le_fuel (suc n) a b h = elim (dec_lt 0 a) [
  | yes pos ↦ omega (arith, bit_and_step a b, bit_and-le_fuel n (a / 2) (b / 2) (omega arith))
  | no none ↦ let e : a ≡ 0 = omega arith in rw e (omega (arith, bit_and-bitwise 0 b))
]

pub bit_and-le : (a b : ℕ) → bit_and a b ≤ b
bit_and-le a b = bit_and-le_fuel a a b (omega arith)
