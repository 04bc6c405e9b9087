-- ===== src/Qphy.antt =====
-- kernel/qphy/src/lib.rs, its classical part: the correction of one end's raw key towards the
-- other's, the hash that shortens it, and the driver's interface. The quantum channel and the
-- floating-point estimate of what was leaked are a simulation and are not modelled.
pub mod Parity
pub mod Correction
mod Tests
use project_qlinux.Prelude.{
  ℕ, zero, suc, ◌+◌, ◌-◌, ◌*◌, ◌/◌, ◌%◌, ◌^◌, Bool, true, false, ◌&&◌, List, [], ◌∷◌, ltb, ◌==◌,
  if◌then◌else◌, length, get_or, set, take, replicate, bit_and, bit_xor, Result, ok, err, ◌++◌,
}
use project_qlinux.Prelude.Words.{u64, to_le}

abbrev pub key_block_bytes : ℕ
key_block_bytes = 256

abbrev pub key_block_bits : ℕ
key_block_bits = key_block_bytes * 8

abbrev pub raw_bytes : ℕ
raw_bytes = key_block_bytes * 2

abbrev pub raw_bits : ℕ
raw_bits = raw_bytes * 8

abbrev pub pa_seed : ℕ
pa_seed = 0x51444E5F50413031

pub data PhyError : Type 0 where
  no_device insufficient_samples reconciliation_failed : PhyError
  qber_exceeded insufficient_secrecy : ℕ → PhyError

-- `(buf[i / 8] >> (i % 8)) & 1`. The source panics past the buffer's end, where this is 0; the
-- program passes positions below 8 times the buffer's length only.
unfoldable pub get_bit : List ℕ → ℕ → ℕ
get_bit buf i = get_or buf (i / 8) 0 / 2 ^ (i % 8) % 2

-- `buf[i / 8] ^= 1 << (i % 8)`. The source panics past the buffer's end, where this changes
-- nothing; the program passes no such position.
unfoldable pub flip_bit : List ℕ → ℕ → List ℕ
flip_bit buf i = set buf (i / 8) (bit_xor (get_or buf (i / 8) 0) (2 ^ (i % 8)))

abbrev pub ec_max_rounds : ℕ
ec_max_rounds = 12

-- The length of the intervals of a pass, and the factor of its permutation.
pub record Pass : Type 0 where
  pub chunk_bits : ℕ
  pub mul0 : ℕ

abbrev pub passes : List Pass
passes =
    record { chunk_bits = 16; mul0 = 1 }
    ∷ record { chunk_bits = 32; mul0 = 1237 }
    ∷ record { chunk_bits = 64; mul0 = 797 }
    ∷ record { chunk_bits = 128; mul0 = 1531 }
    ∷ record { chunk_bits = 256; mul0 = 389 }
    ∷ []

abbrev pub bytes_eq : List ℕ → List ℕ → Bool
bytes_eq [] [] = true
bytes_eq (x ∷ xs) (y ∷ ys) = x == y && bytes_eq xs ys
bytes_eq _ _ = false

module _ (perm : ℕ → ℕ) where
  -- The fold of `par` over the next n positions.
  unfoldable pub par_loop : List ℕ → ℕ → ℕ → ℕ → ℕ
  par_loop buf zero i p = p
  par_loop buf (suc n) i p = par_loop buf n (i + 1) (bit_xor p (get_bit buf (perm i)))

  abbrev pub par : List ℕ → ℕ → ℕ → ℕ
  par buf lo hi = par_loop buf (hi - lo) lo 0

  module _ (a : List ℕ) where
    -- The loop that halves the interval, for at most `fuel` rounds: its lower end, and the parities
    -- made public so far.
    unfoldable pub narrow : List ℕ → ℕ → ℕ → ℕ → ℕ → ℕ × ℕ
    narrow b zero lo hi leaked = (lo, leaked)
    narrow b (suc fuel) lo hi leaked =
        let mid = (lo + hi) / 2 in
        let same = par a lo mid == par b lo mid in
        let rest =
          narrow b fuel (if same then mid else lo) (if same then hi else mid) (leaked + 1) in
        if ltb 1 (hi - lo) then rest else (lo, leaked)

    -- One interval. It has `chunk_bits` positions, so that as many halvings are enough.
    unfoldable pub correct_chunk : ℕ → ℕ → List ℕ × ℕ → List ℕ × ℕ
    unfolding narrow
    correct_chunk chunk_bits chunk (b, leaked) =
        let lo = chunk * chunk_bits in
        let hi = (chunk + 1) * chunk_bits in
        let found = narrow b chunk_bits lo hi (leaked + 1) in
        if par a lo hi == par b lo hi then (b, leaked + 1) else (flip_bit b (perm found.0), found.1)

    -- The intervals of a pass, from `chunk` on.
    unfoldable pub chunk_loop : ℕ → ℕ → ℕ → List ℕ × ℕ → List ℕ × ℕ
    chunk_loop chunk_bits zero chunk s = s
    chunk_loop chunk_bits (suc n) chunk s =
        chunk_loop chunk_bits n (chunk + 1) (correct_chunk chunk_bits chunk s)

module _ (a : List ℕ) (nbits : ℕ) where
  abbrev pub permuted : ℕ → ℕ → ℕ → ℕ
  permuted mul round i = (i * mul + round * 101) % nbits

  unfoldable pub run_passes : ℕ → List Pass → List ℕ × ℕ → List ℕ × ℕ
  run_passes round [] s = s
  run_passes round (p ∷ ps) s =
      let mul = p.mul0 * (1 + 2 * round) in
      run_passes round ps
        (chunk_loop (permuted mul round) a p.chunk_bits (nbits / p.chunk_bits) 0 s)

  unfoldable pub rounds : ℕ → ℕ → List ℕ × ℕ → List ℕ × ℕ
  rounds zero round s = s
  rounds (suc n) round s =
      let rest = rounds n (round + 1) (run_passes round passes s) in
      if bytes_eq a s.0 then s else rest

  -- The corrected buffer, and the number of parities made public.
  unfoldable pub reconcile : List ℕ → List ℕ × ℕ
  reconcile b = rounds ec_max_rounds 0 (b, 0)
