-- ===== src/Uhf/Umac.antt =====
-- uhf/src/lib.rs: the reduction modulo 2 ^ 61 - 1 at the end of `Umac64`.
use project_qlinux.Prelude.{
  ℕ, ◌+◌, ◌-◌, ◌*◌, ◌/◌, ◌%◌, ◌^◌, ◌≤◌, ◌<◌, ◌≡◌, ◌↔◌, arith, leb, if◌then◌else◌,
}
use native.Mathlib.Nat.{mul-le-mul}
use project_qlinux.Prelude.Words.{u64, u128}

abbrev pub p61 : ℕ
p61 = 2 ^ 61 - 1

-- `v as u64 & P61` keeps the low 61 bits; `(v >> 61) as u64` drops what leaves the word.
pub mod_p61 : ℕ → ℕ
mod_p61 v =
    let lo = u64 v % 2 ^ 61 in
    let hi = u64 (v / 2 ^ 61) in let s = u64 (lo + hi) in if leb p61 s then s - p61 else s

pub add_mod_p61 : ℕ → ℕ → ℕ
add_mod_p61 a b = let s = u64 (a + b) in if leb p61 s then s - p61 else s

pub axu_finish : ℕ → ℕ → ℕ → ℕ
unfolding mod_p61 add_mod_p61
axu_finish a x b = add_mod_p61 (mod_p61 (u128 (a * x))) (b % 2 ^ 61)

-- Below 2 ^ 122 - 1, mod_p61 is the remainder modulo 2 ^ 61 - 1.
pub mod_p61_lem : (v : ℕ) → v < 2 ^ 122 - 1 → mod_p61 v ≡ v % p61
unfolding mod_p61
mod_p61_lem v h = ground arith

-- Below 2 ^ 124, mod_p61 is the remainder modulo 2 ^ 61 - 1 exactly when the part above the low
-- 61 bits and the low 61 bits add up to less than 2 * (2 ^ 61 - 1).
pub mod_p61_iff :
    (v : ℕ) → v < 2 ^ 124 → (mod_p61 v ≡ v % p61) ↔ (v / 2 ^ 61 + v % 2 ^ 61 < 2 * p61)
unfolding mod_p61
mod_p61_iff v h = (λ e. ground (arith, e, h), λ small. ground (arith, small, h))

-- For factors below 2 ^ 61, axu_finish is a * x plus the low 61 bits of b, modulo 2 ^ 61 - 1.
pub axu_finish_lem :
    (a x b : ℕ) → a < 2 ^ 61 → x < 2 ^ 61 → axu_finish a x b ≡ (a * x + b % 2 ^ 61) % p61
unfolding axu_finish mod_p61 add_mod_p61
axu_finish_lem a x b ha hx =
    let bound : a * x ≤ (2 ^ 61 - 1) * (2 ^ 61 - 1) =
      mul-le-mul {n₂ = 2 ^ 61 - 1} {m₂ = 2 ^ 61 - 1} (omega arith) (omega arith) in
    ground arith
