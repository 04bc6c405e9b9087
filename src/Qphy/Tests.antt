-- ===== src/Qphy/Tests.antt =====
-- kernel/qphy/src/lib.rs: a buffer with one wrong bit.
use project_qlinux.Prelude.{ℕ, ◌%◌, ◌≡◌, ◌≢◌, refl, List, [], ◌∷◌, arith}
use project_qlinux.Qphy.{get_bit, flip_bit, correct_chunk, narrow, par, par_loop, reconcile}
use project_qlinux.Qphy.Correction.{correct_chunk_lem, reconcile-Closer}

abbrev alice : List ℕ
alice = 5 ∷ 3 ∷ []

abbrev bob : List ℕ
bob = 5 ∷ 7 ∷ []

abbrev in_order : ℕ → ℕ
in_order i = i % 16

corrected : correct_chunk in_order alice 16 0 (bob, 0) ≡ (alice, 5)
unfolding correct_chunk narrow par_loop get_bit flip_bit
corrected = refl

parities_differ : par in_order alice 0 16 ≢ par in_order bob 0 16
unfolding par_loop get_bit
parities_differ e = absurd (ground (arith, e))

correct_chunk_lem_example :
    (p : ℕ) × (get_bit alice p ≢ get_bit bob p)
    × (get_bit (correct_chunk in_order alice 16 0 (bob, 0)).0 p ≡ get_bit alice p)
    × ((j : ℕ) → j ≢ p → get_bit (correct_chunk in_order alice 16 0 (bob, 0)).0 j ≡ get_bit bob j)
correct_chunk_lem_example =
    correct_chunk_lem in_order alice 16 0 0 bob (λ i. omega arith) parities_differ

reconcile-Closer_example :
    ((j : ℕ)
      → get_bit bob j ≡ get_bit alice j
      → get_bit (reconcile alice 16 bob).0 j ≡ get_bit alice j)
    × (reconcile alice 16 alice ≡ (alice, 0))
reconcile-Closer_example = reconcile-Closer alice 16 bob
