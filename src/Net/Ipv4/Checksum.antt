-- ===== src/Net/Ipv4/Checksum.antt =====
-- The Internet checksum: sums modulo 65535, and a sum that includes its checksum verifies.
use project_qlinux.Prelude.{
  ℕ, zero, suc, ◌+◌, ◌*◌, ◌/◌, ◌%◌, ◌^◌, ◌≤◌, ◌<◌, ◌≡◌, ◌∙◌, Bool-cases, ◌⊎◌, inl, inr, List, [],
  ◌∷◌, arith, ◌==◌, length,
}
use project_qlinux.Prelude.Words.{u32, IsBytes}
use project_qlinux.Net.Ipv4.{checksum_add, checksum_finish, fold_carries}

-- One round keeps the sum modulo 65535 and does not make it zero.
fold_carries_lem :
    (fuel s : ℕ)
    → 0 < s
    → (k : ℕ) × (fold_carries fuel s + k * 65535 ≡ s) × (0 < fold_carries fuel s)
unfolding fold_carries
fold_carries_lem zero s h = (0, omega arith, h)
fold_carries_lem (suc fuel) s h = elim (Bool-cases (s / 2 ^ 16 == 0)) [
  | inl done ↦ rw done (0, omega arith, h)
  | inr more ↦
      let r = fold_carries_lem fuel (s % 2 ^ 16 + s / 2 ^ 16) (omega arith) in
      rw more (r.0 + s / 2 ^ 16, omega (arith, r.1), r.2)
]

-- Four rounds bring any u32 below 2 ^ 16.
pub fold_carries-lt : (s : ℕ) → s < 2 ^ 32 → fold_carries 4 s < 2 ^ 16
unfolding fold_carries
fold_carries-lt s h = ground arith

-- For a sum above 0 with sum + 65535 below 2 ^ 32, adding its checksum, or 0xffff where that is
-- 0, gives a sum that finishes to 0.
pub checksum_finish-add :
    (s c : ℕ)
    → 0 < s
    → s + 65535 < 2 ^ 32
    → (c ≡ checksum_finish s) ⊎ ((checksum_finish s ≡ 0) × (c ≡ 65535))
    → checksum_finish (s + c) ≡ 0
unfolding checksum_finish
checksum_finish-add s c h small e =
    let a = fold_carries_lem 4 s h in
    let a16 = fold_carries-lt s (omega arith) in
    let b = fold_carries_lem 4 (s + c) (omega arith) in
    let b16 : fold_carries 4 (s + c) < 2 ^ 16 = fold_carries-lt (s + c) (omega arith) in
    omega (arith, a.1, a.2, b.1, b.2)

-- The sum of the words, with no wrap.
abbrev pub words_sum : List ℕ → ℕ
words_sum [] = 0
words_sum (b ∷ []) = b * 256
words_sum (b ∷ c ∷ rest) = b * 256 + c + words_sum rest

pub checksum_add_lem :
    (d : List ℕ) (s : ℕ) → s + words_sum d < 2 ^ 32 → checksum_add s d ≡ s + words_sum d
unfolding checksum_add
checksum_add_lem [] s h = omega arith
checksum_add_lem (b ∷ []) s h = omega arith
checksum_add_lem (b ∷ c ∷ rest) s h =
    let e : u32 (s + (b * 256 + c)) ≡ s + (b * 256 + c) = omega arith in
    rw e (checksum_add_lem rest (s + (b * 256 + c)) (omega arith) ∙ (omega arith))

pub words_sum-le : (d : List ℕ) → IsBytes d → words_sum d ≤ 65535 * length d
words_sum-le [] h = omega arith
words_sum-le (b ∷ []) h = omega arith
words_sum-le (b ∷ c ∷ rest) h = omega (arith, words_sum-le rest h.1.1)
