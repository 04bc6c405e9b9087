-- ===== src/Uhf/CtEq.antt =====
-- uhf/src/lib.rs: the comparisons whose time does not depend on where the inputs differ.
use project_qlinux.Prelude.{
  ℕ, zero, suc, ◌+◌, ◌≤◌, ◌<◌, ◌≡◌, ◌≢◌, refl, sym, ap, ap₂, ◌∙◌, ◌↔◌, Bool, true, false, List, [],
  ◌∷◌, arith, length, drop, get_or, ◌==◌, ==_iff, if◌then◌else◌, bit_or, bit_xor, Bool-cases, inl,
  inr,
}
use native.Mathlib.Decide.{dec_lt}
use project_qlinux.Prelude.Bits.{bit_xor-zero_iff, bit_or-zero_iff}

-- `for i in 0..16 { diff |= a[i] ^ b[i]; }`, with the rounds left and the index.
pub diff_loop : ℕ → ℕ → List ℕ → List ℕ → ℕ → ℕ
diff_loop zero i a b diff = diff
diff_loop (suc n) i a b diff =
    diff_loop n (i + 1) a b (bit_or diff (bit_xor (get_or a i 0) (get_or b i 0)))

unfoldable pub ct_eq_16 : List ℕ → List ℕ → Bool
unfolding diff_loop
ct_eq_16 a b = diff_loop 16 0 a b 0 == 0

-- The loop over `zip`.
pub diff_zip : List ℕ → List ℕ → ℕ → ℕ
diff_zip [] ys diff = diff
diff_zip (x ∷ xs) [] diff = diff
diff_zip (x ∷ xs) (y ∷ ys) diff = diff_zip xs ys (bit_or diff (bit_xor x y))

pub ct_eq_slice : List ℕ → List ℕ → Bool
unfolding diff_zip
ct_eq_slice a b = if length a == length b then diff_zip a b 0 == 0 else false

or_xor_iff : (d x y : ℕ) → (bit_or d (bit_xor x y) ≡ 0) ↔ (d ≡ 0) × (x ≡ y)
or_xor_iff d x y = (
  (λ e. let h = (bit_or-zero_iff d (bit_xor x y)).0 e in (h.0, (bit_xor-zero_iff x y).0 h.1)),
  (λ h. (bit_or-zero_iff d (bit_xor x y)).1 (h.0, (bit_xor-zero_iff x y).1 h.1)),
)

AgreeFrom : ℕ → ℕ → List ℕ → List ℕ → Type 0
AgreeFrom n i a b = (j : ℕ) → i ≤ j → j < i + n → get_or a j 0 ≡ get_or b j 0

diff_loop-zero_iff :
    (n i : ℕ) (a b : List ℕ) (d : ℕ) → (diff_loop n i a b d ≡ 0) ↔ (d ≡ 0) × AgreeFrom n i a b
unfolding diff_loop AgreeFrom
diff_loop-zero_iff zero i a b d = ((λ e. (e, λ j p q. absurd (omega arith))), (λ h. h.0))
diff_loop-zero_iff (suc n) i a b d =
    let x : ℕ = get_or a i 0 in
    let y : ℕ = get_or b i 0 in
    let ih = diff_loop-zero_iff n (i + 1) a b (bit_or d (bit_xor x y)) in
    (
      (λ e.
          let h = ih.0 e in
          let k = (or_xor_iff d x y).0 h.0 in
          (
            k.0,
            λ j p q. elim (dec_lt i j) [
              | yes later ↦ h.1 j (omega arith) (omega arith)
              | no now ↦ let same : j ≡ i = omega arith in rw same k.1
            ],
          )),
      (λ h. ih.1 (
        (or_xor_iff d x y).1 (h.0, h.1 i (omega arith) (omega arith)),
        λ j p q. h.1 j (omega arith) (omega arith),
      )),
    )

agree-eq :
    (a b : List ℕ)
    → length a ≡ length b
    → ((j : ℕ) → j < length a → get_or a j 0 ≡ get_or b j 0)
    → a ≡ b
agree-eq [] [] e h = refl
agree-eq [] (y ∷ b) e h = absurd (omega arith)
agree-eq (x ∷ a) [] e h = absurd (omega arith)
agree-eq (x ∷ a) (y ∷ b) e h =
    ap₂ ◌∷◌ (h 0 (omega arith)) (agree-eq a b (omega arith) (λ j p. h (suc j) (omega arith)))

-- On two lists of 16 bytes, ct_eq_16 answers true exactly when they are equal.
pub ct_eq_16_iff : (a b : List ℕ) → length a ≡ 16 → length b ≡ 16 → (ct_eq_16 a b ≡ true) ↔ (a ≡ b)
unfolding ct_eq_16 AgreeFrom
ct_eq_16_iff a b la lb =
    let d : ℕ = diff_loop 16 0 a b 0 in
    let loop = diff_loop-zero_iff 16 0 a b 0 in
    (
      (λ t.
          agree-eq a b (la ∙ sym lb)
            (λ j p. (loop.0 ((==_iff d 0).0 t)).1 j (omega arith) (omega arith))),
      (λ e. (==_iff d 0).1 (loop.1 (refl, λ j p q. ap (λ l. get_or l j 0) e))),
    )

diff_zip-zero_iff :
    (a b : List ℕ) (d : ℕ) → length a ≡ length b → (diff_zip a b d ≡ 0) ↔ (d ≡ 0) × (a ≡ b)
unfolding diff_zip
diff_zip-zero_iff [] [] d e = ((λ h. (h, refl)), (λ h. h.0))
diff_zip-zero_iff [] (y ∷ b) d e = absurd (omega arith)
diff_zip-zero_iff (x ∷ a) [] d e = absurd (omega arith)
diff_zip-zero_iff (x ∷ a) (y ∷ b) d e =
    let ih = diff_zip-zero_iff a b (bit_or d (bit_xor x y)) (omega arith) in
    (
      (λ h. let k = ih.0 h in let l = (or_xor_iff d x y).0 k.0 in (l.0, ap₂ ◌∷◌ l.1 k.1)),
      (λ h. ih.1 ((or_xor_iff d x y).1 (h.0, ap (λ l. get_or l 0 0) h.1), ap (drop 1) h.1)),
    )

ne_of_test : (m n : ℕ) → (m == n) ≡ false → m ≢ n
ne_of_test m n h = ground arith

-- On any two slices, ct_eq_slice answers true exactly when they are equal.
pub ct_eq_slice_iff : (a b : List ℕ) → (ct_eq_slice a b ≡ true) ↔ (a ≡ b)
unfolding ct_eq_slice
ct_eq_slice_iff a b = elim (Bool-cases (length a == length b)) [
  | inl same ↦
      let z = diff_zip-zero_iff a b 0 ((==_iff (length a) (length b)).0 same) in
      let d : ℕ = diff_zip a b 0 in
      rw same ((λ t. (z.0 ((==_iff d 0).0 t)).1), (λ e. (==_iff d 0).1 (z.1 (refl, e))))
  | inr other ↦ rw other (
    (λ t. cc),
    (λ e. absurd (ne_of_test (length a) (length b) other (ap (λ (l : List ℕ). length l) e))),
  )
]
