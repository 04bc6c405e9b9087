-- ===== src/Qphy/Correction.antt =====
-- kernel/qphy/src/lib.rs: which bits reconcile flips.
use project_qlinux.Prelude.{
  ℕ, zero, suc, ◌+◌, ◌-◌, ◌*◌, ◌/◌, ◌%◌, ◌^◌, ◌≤◌, ◌<◌, ◌≡◌, ◌≢◌, refl, sym, ap, ◌∙◌, true, false,
  Bool-cases, inl, inr, List, [], ◌∷◌, arith, ◌==◌, get_or, set, get_or-set_ne, bit_xor, length,
}
use native.Mathlib.Nat.{add-mul}
use native.Mathlib.Decide.{ℕ_discrete, dec_lt}
use project_qlinux.Prelude.Testbit.{testbit, testbit-shift, testbit-flip_self, testbit-flip_ne}
use project_qlinux.Qphy.{
  get_bit, flip_bit, par, narrow, correct_chunk, chunk_loop, Pass, passes, permuted, run_passes,
  rounds, reconcile, bytes_eq, ec_max_rounds,
}
use project_qlinux.Qphy.Parity.{narrow-differs}

get_bit-testbit : (buf : List ℕ) (i : ℕ) → get_bit buf i ≡ testbit (i % 8) (get_or buf (i / 8) 0)
unfolding get_bit
get_bit-testbit buf i = testbit-shift (i % 8) (get_or buf (i / 8) 0)

-- Reading after `set`, in range or not.
get_or-set_in : (xs : List ℕ) (k v : ℕ) → k < length xs → get_or (set xs k v) k 0 ≡ v
get_or-set_in [] k v h = absurd (omega arith)
get_or-set_in (x ∷ xs) zero v h = refl
get_or-set_in (x ∷ xs) (suc k) v h = get_or-set_in xs k v (omega arith)

set_out : (xs : List ℕ) (k v : ℕ) → length xs ≤ k → set xs k v ≡ xs
set_out [] k v h = refl
set_out (x ∷ xs) zero v h = absurd (omega arith)
set_out (x ∷ xs) (suc k) v h = ap (λ ys. x ∷ ys) (set_out xs k v (omega arith))

flip_bit_ne : (buf : List ℕ) (i j : ℕ) → j ≢ i → get_bit (flip_bit buf i) j ≡ get_bit buf j
unfolding flip_bit
flip_bit_ne buf i j ne =
    get_bit-testbit (set buf (i / 8) v) j
    ∙ same (ℕ_discrete (i / 8) (j / 8))
    ∙ sym (get_bit-testbit buf j)
  where
    v : ℕ
    v = bit_xor (get_or buf (i / 8) 0) (2 ^ (i % 8))

    in_word :
        Dec (i / 8 < length buf)
        → i / 8 ≡ j / 8
        → testbit (j % 8) (get_or (set buf (i / 8) v) (i / 8) 0)
          ≡ testbit (j % 8) (get_or buf (i / 8) 0)
    in_word (yes h) e =
        ap (testbit (j % 8)) (get_or-set_in buf (i / 8) v h)
        ∙ testbit-flip_ne (j % 8) (i % 8) (get_or buf (i / 8) 0) (omega (arith, ne, e))
    in_word (no h) e =
        ap (λ xs. testbit (j % 8) (get_or xs (i / 8) 0)) (set_out buf (i / 8) v (omega (arith, h)))

    same :
        Dec (i / 8 ≡ j / 8)
        → testbit (j % 8) (get_or (set buf (i / 8) v) (j / 8) 0)
          ≡ testbit (j % 8) (get_or buf (j / 8) 0)
    same (yes e) = rw (sym e) (in_word (dec_lt (i / 8) (length buf)) e)
    same (no n) = ap (testbit (j % 8)) (get_or-set_ne buf (i / 8) (j / 8) v 0 n)

get_bit-lt : (buf : List ℕ) (i : ℕ) → get_bit buf i < 2
unfolding get_bit
get_bit-lt buf i = omega arith

flip_bit_self :
    (buf : List ℕ) (i : ℕ) → i / 8 < length buf → get_bit (flip_bit buf i) i ≡ 1 - get_bit buf i
unfolding flip_bit
flip_bit_self buf i h =
    let v : ℕ = bit_xor (get_or buf (i / 8) 0) (2 ^ (i % 8)) in
    get_bit-testbit (set buf (i / 8) v) i
    ∙ ap (testbit (i % 8)) (get_or-set_in buf (i / 8) v h)
    ∙ testbit-flip_self (i % 8) (get_or buf (i / 8) 0)
    ∙ ap (λ t. 1 - t) (sym (get_bit-testbit buf i))

-- Bits that agree with a's still do.
pub Closer : List ℕ → List ℕ → List ℕ → Type 0
Closer a b b' = (j : ℕ) → get_bit b j ≡ get_bit a j → get_bit b' j ≡ get_bit a j

flip_bit-Closer : (a b : List ℕ) (i : ℕ) → get_bit a i ≢ get_bit b i → Closer a b (flip_bit b i)
unfolding Closer
flip_bit-Closer a b i ne = λ j agree. go j agree (ℕ_discrete j i)
  where
    go : (j : ℕ) → get_bit b j ≡ get_bit a j → Dec (j ≡ i) → get_bit (flip_bit b i) j ≡ get_bit a j
    go j agree (yes e) = absurd (ne (ap (get_bit a) (sym e) ∙ sym agree ∙ ap (get_bit b) e))
    go j agree (no n) = flip_bit_ne b i j n ∙ agree

module _ (perm : ℕ → ℕ) (a : List ℕ) where
  not_same : (x y : ℕ) → (x == y) ≡ false → x ≢ y
  not_same x y f e = absurd (ground (arith, f, e))

  chunk_differs :
      (chunk_bits chunk leaked : ℕ) (b : List ℕ)
      → (par perm a (chunk * chunk_bits) ((chunk + 1) * chunk_bits)
          == par perm b (chunk * chunk_bits) ((chunk + 1) * chunk_bits))
        ≡ false
      → get_bit a (
          perm
            (narrow perm a b chunk_bits (chunk * chunk_bits) ((chunk + 1) * chunk_bits) leaked).0)
        ≢ get_bit b (
            perm
              (narrow perm a b chunk_bits (chunk * chunk_bits) ((chunk + 1) * chunk_bits) leaked).0)
  chunk_differs chunk_bits chunk leaked b apart =
      let lo : ℕ = chunk * chunk_bits in
      let hi : ℕ = (chunk + 1) * chunk_bits in
      let size : hi ≡ lo + chunk_bits = next_interval chunk chunk_bits in
      narrow-differs perm a b chunk_bits lo hi leaked (omega (arith, size))
        (not_same (par perm a lo hi) (par perm b lo hi) apart)
    where
      next_interval : (c n : ℕ) → (c + 1) * n ≡ c * n + n
      next_interval c n = add-mul c 1 n ∙ (omega arith)

  correct_chunk-Closer :
      (chunk_bits chunk leaked : ℕ) (b : List ℕ)
      → Closer a b (correct_chunk perm a chunk_bits chunk (b, leaked)).0
  unfolding correct_chunk Closer
  correct_chunk-Closer chunk_bits chunk leaked b =
      let lo : ℕ = chunk * chunk_bits in
      let hi : ℕ = (chunk + 1) * chunk_bits in
      elim (Bool-cases (par perm a lo hi == par perm b lo hi)) [
        | inl same ↦ rw same (λ j agree. agree)
        | inr apart ↦ rw apart (
            flip_bit-Closer a b (perm (narrow perm a b chunk_bits lo hi (leaked + 1)).0)
              (chunk_differs chunk_bits chunk (leaked + 1) b apart))
      ]

  -- For an interval in which the parities of the two buffers differ, and positions that all lie
  -- inside the second buffer, correct_chunk changes one position, where the buffers differed, so
  -- that they agree there, and no other.
  pub correct_chunk_lem :
      (chunk_bits chunk leaked : ℕ) (b : List ℕ)
      → ((i : ℕ) → perm i / 8 < length b)
      → par perm a (chunk * chunk_bits) ((chunk + 1) * chunk_bits)
        ≢ par perm b (chunk * chunk_bits) ((chunk + 1) * chunk_bits)
      → (p : ℕ) × (get_bit a p ≢ get_bit b p)
        × (get_bit (correct_chunk perm a chunk_bits chunk (b, leaked)).0 p ≡ get_bit a p)
        × ((j : ℕ)
            → j ≢ p
            → get_bit (correct_chunk perm a chunk_bits chunk (b, leaked)).0 j ≡ get_bit b j)
  unfolding correct_chunk
  correct_chunk_lem chunk_bits chunk leaked b inside ne =
      let lo : ℕ = chunk * chunk_bits in
      let hi : ℕ = (chunk + 1) * chunk_bits in
      let apart : (par perm a lo hi == par perm b lo hi) ≡ false = ground (arith, ne) in
      let p : ℕ = perm (narrow perm a b chunk_bits lo hi (leaked + 1)).0 in
      let d = chunk_differs chunk_bits chunk (leaked + 1) b apart in
      rw apart (
        p,
        d,
        omega (
          arith,
          flip_bit_self b p (inside (narrow perm a b chunk_bits lo hi (leaked + 1)).0),
          get_bit-lt a p,
          get_bit-lt b p,
          d,
        ),
        λ j other. flip_bit_ne b p j other,
      )

  chunk_loop-Closer :
      (chunk_bits n chunk : ℕ) (s : List ℕ × ℕ)
      → Closer a s.0 (chunk_loop perm a chunk_bits n chunk s).0
  unfolding chunk_loop Closer
  chunk_loop-Closer chunk_bits zero chunk s j agree = agree
  chunk_loop-Closer chunk_bits (suc n) chunk (b, leaked) j agree =
      chunk_loop-Closer chunk_bits n (chunk + 1) (correct_chunk perm a chunk_bits chunk (b, leaked))
        j (correct_chunk-Closer chunk_bits chunk leaked b j agree)

module _ (a : List ℕ) (nbits : ℕ) where
  run_passes-Closer :
      (round : ℕ) (ps : List Pass) (s : List ℕ × ℕ) → Closer a s.0 (run_passes a nbits round ps s).0
  unfolding run_passes Closer
  run_passes-Closer round [] s j agree = agree
  run_passes-Closer round (p ∷ ps) s j agree =
      let perm = permuted a nbits (p.mul0 * (1 + 2 * round)) round in
      let n = nbits / p.chunk_bits in
      run_passes-Closer round ps (chunk_loop perm a p.chunk_bits n 0 s) j
        (chunk_loop-Closer perm a p.chunk_bits n 0 s j agree)

  rounds-Closer : (n round : ℕ) (s : List ℕ × ℕ) → Closer a s.0 (rounds a nbits n round s).0
  unfolding rounds Closer
  rounds-Closer zero round s j agree = agree
  rounds-Closer (suc n) round s j agree = elim (Bool-cases (bytes_eq a s.0)) [
    | inl e ↦ rw e agree
    | inr e ↦ rw e (
        rounds-Closer n (round + 1) (run_passes a nbits round passes s) j
          (run_passes-Closer round passes s j agree))
  ]

  bytes_eq_refl : (xs : List ℕ) → bytes_eq xs xs ≡ true
  bytes_eq_refl [] = refl
  bytes_eq_refl (x ∷ xs) = let e : (x == x) ≡ true = ground arith in rw (e, bytes_eq_refl xs) refl

  -- For any buffers and number of bits, a position where b agrees with a still agrees after
  -- reconcile, and a buffer reconciled with itself stays as it is, with no parity made public.
  pub reconcile-Closer :
      (b : List ℕ)
      → ((j : ℕ) → get_bit b j ≡ get_bit a j → get_bit (reconcile a nbits b).0 j ≡ get_bit a j)
        × (reconcile a nbits a ≡ (a, 0))
  unfolding reconcile rounds Closer
  reconcile-Closer b = (rounds-Closer ec_max_rounds 0 (b, 0), rw (bytes_eq_refl a) refl)
