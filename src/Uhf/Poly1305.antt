-- ===== src/Uhf/Poly1305.antt =====
-- uhf/src/lib.rs: Poly1305 over five 26-bit limbs. A u64 sum or product wraps at 2 ^ 64; inside one
-- sum the wraps are written once, at its end. `& mask26` is `% 2 ^ 26` and `>> k` is `/ 2 ^ k`.
pub mod Residue
pub mod Rfc
pub mod Stream
pub mod Mac
pub mod Clamp
pub mod Rfc8439
pub mod Tests
use project_qlinux.Prelude.{
  ℕ, zero, suc, ◌+◌, ◌-◌, ◌*◌, ◌/◌, ◌%◌, ◌^◌, Bool, true, false, List, [], ◌∷◌, ◌++◌, ltb, leb,
  ◌==◌, if◌then◌else◌, length, set, get_or, take, drop, replicate, slice, overwrite, bit_and,
  bit_or,
}
use project_qlinux.Prelude.Words.{u64, u128, to_le, from_le}

abbrev pub poly1305_tag_len : ℕ
poly1305_tag_len = 16

abbrev pub poly1305_key_len : ℕ
poly1305_key_len = 32

abbrev pub block_len : ℕ
block_len = 16

-- `[u32; 5]` and `[u64; 5]`.
pub record Limbs : Type 0 where
  pub l0 : ℕ
  pub l1 : ℕ
  pub l2 : ℕ
  pub l3 : ℕ
  pub l4 : ℕ

-- `[u32; 4]`.
pub record Words4 : Type 0 where
  pub w0 : ℕ
  pub w1 : ℕ
  pub w2 : ℕ
  pub w3 : ℕ

pub record Poly1305Key : Type 0 where
  pub r : Limbs
  pub s : Words4

-- The mask of the first half of the key, byte by byte.
unfoldable pub clamp : List ℕ → List ℕ
clamp raw =
    get_or raw 0 0
    ∷ get_or raw 1 0
    ∷ get_or raw 2 0
    ∷ bit_and (get_or raw 3 0) 0x0f
    ∷ bit_and (get_or raw 4 0) 0xfc
    ∷ get_or raw 5 0
    ∷ get_or raw 6 0
    ∷ bit_and (get_or raw 7 0) 0x0f
    ∷ bit_and (get_or raw 8 0) 0xfc
    ∷ get_or raw 9 0
    ∷ get_or raw 10 0
    ∷ bit_and (get_or raw 11 0) 0x0f
    ∷ bit_and (get_or raw 12 0) 0xfc
    ∷ get_or raw 13 0
    ∷ get_or raw 14 0
    ∷ bit_and (get_or raw 15 0) 0x0f
    ∷ []

-- The 26-bit limbs of a number; the fifth has `top` or-ed in.
abbrev pub split_limbs : ℕ → ℕ → Limbs
split_limbs m top = record {
  l0 = m % 2 ^ 26;
  l1 = m / 2 ^ 26 % 2 ^ 26;
  l2 = m / 2 ^ 52 % 2 ^ 26;
  l3 = m / 2 ^ 78 % 2 ^ 26;
  l4 = bit_or (m / 2 ^ 104 % 2 ^ 26) top;
}

pub new_key : List ℕ → Poly1305Key
unfolding clamp
new_key raw = record {
  r =
      let r_val = from_le (clamp raw) in
      record {
        l0 = r_val % 2 ^ 26;
        l1 = r_val / 2 ^ 26 % 2 ^ 26;
        l2 = r_val / 2 ^ 52 % 2 ^ 26;
        l3 = r_val / 2 ^ 78 % 2 ^ 26;
        l4 = r_val / 2 ^ 104 % 2 ^ 26;
      };
  s = record {
    w0 = from_le (slice raw 16 20);
    w1 = from_le (slice raw 20 24);
    w2 = from_le (slice raw 24 28);
    w3 = from_le (slice raw 28 32);
  };
}

pub record Poly1305 : Type 0 where
  pub h : Limbs
  pub r : Limbs
  pub s : Words4
  pub buf : List ℕ
  pub buf_len : ℕ

abbrev pub zero_limbs : Limbs
zero_limbs = record { l0 = 0; l1 = 0; l2 = 0; l3 = 0; l4 = 0 }

pub new : Poly1305Key → Poly1305
new key = record { h = zero_limbs; r = key.r; s = key.s; buf = replicate block_len 0; buf_len = 0 }

-- The carries of `mul_r`, once round.
pub reduce : Limbs → Limbs
reduce d =
    let c0 = d.l0 / 2 ^ 26 in
    let d1 = u64 (d.l1 + c0) in
    let c1 = d1 / 2 ^ 26 in
    let d2 = u64 (d.l2 + c1) in
    let c2 = d2 / 2 ^ 26 in
    let d3 = u64 (d.l3 + c2) in
    let c3 = d3 / 2 ^ 26 in
    let d4 = u64 (d.l4 + c3) in
    let c4 = d4 / 2 ^ 26 in
    let h0 = u64 (d.l0 % 2 ^ 26 + u64 (c4 * 5)) in
    record {
      l0 = h0 % 2 ^ 26;
      l1 = u64 (d1 % 2 ^ 26 + h0 / 2 ^ 26);
      l2 = d2 % 2 ^ 26;
      l3 = d3 % 2 ^ 26;
      l4 = d4 % 2 ^ 26;
    }

-- The column sums of `mul_r`, with `2 ^ 130` folded to 5.
pub columns : Limbs → Limbs → Limbs
columns h r =
    let r5_0 = u64 (r.l1 * 5) in
    let r5_1 = u64 (r.l2 * 5) in
    let r5_2 = u64 (r.l3 * 5) in
    let r5_3 = u64 (r.l4 * 5) in
    record {
      l0 = u64 (h.l0 * r.l0 + h.l1 * r5_3 + h.l2 * r5_2 + h.l3 * r5_1 + h.l4 * r5_0);
      l1 = u64 (h.l0 * r.l1 + h.l1 * r.l0 + h.l2 * r5_3 + h.l3 * r5_2 + h.l4 * r5_1);
      l2 = u64 (h.l0 * r.l2 + h.l1 * r.l1 + h.l2 * r.l0 + h.l3 * r5_3 + h.l4 * r5_2);
      l3 = u64 (h.l0 * r.l3 + h.l1 * r.l2 + h.l2 * r.l1 + h.l3 * r.l0 + h.l4 * r5_3);
      l4 = u64 (h.l0 * r.l4 + h.l1 * r.l3 + h.l2 * r.l2 + h.l3 * r.l1 + h.l4 * r.l0);
    }

pub mul_r : Limbs → Limbs → Limbs
unfolding reduce columns
mul_r h r = reduce (columns h r)

-- `for i in 0..5 { self.h[i] = self.h[i].wrapping_add(n[i]); }`
pub add_limbs : Limbs → Limbs → Limbs
add_limbs h n = record {
  l0 = u64 (h.l0 + n.l0);
  l1 = u64 (h.l1 + n.l1);
  l2 = u64 (h.l2 + n.l2);
  l3 = u64 (h.l3 + n.l3);
  l4 = u64 (h.l4 + n.l4);
}

pub process_block : Poly1305 → List ℕ → Bool → Poly1305
unfolding add_limbs
process_block c block add_hibit =
    let hi_bit = if add_hibit then 1 else 0 in
    let n = split_limbs (from_le block) (hi_bit * 2 ^ 24) in
    record c { h = mul_r (add_limbs c.h n) c.r }

-- `while data.len() >= BLOCK`, with the bytes left over. The data's length is fuel enough.
pub whole_blocks : ℕ → Poly1305 → List ℕ → Poly1305 × List ℕ
whole_blocks zero c bytes = (c, bytes)
whole_blocks (suc fuel) c bytes =
    let rest =
      whole_blocks fuel (process_block c (take block_len bytes) true) (drop block_len bytes) in
    if leb block_len (length bytes) then rest else (c, bytes)

-- `if !data.is_empty()`: the rest goes into the buffer.
pub keep_rest : Poly1305 × List ℕ → Poly1305
keep_rest (c, []) = c
keep_rest (c, x ∷ rest) = record c { buf = overwrite (x ∷ rest) c.buf; buf_len = length (x ∷ rest) }

-- The last lines of `update`: whole blocks, then the rest is kept.
pub absorb : Poly1305 → List ℕ → Poly1305
unfolding whole_blocks keep_rest
absorb c bytes = keep_rest (whole_blocks (length bytes) c bytes)

pub update : Poly1305 → List ℕ → Poly1305
unfolding absorb
update c msg =
    let need = block_len - c.buf_len in
    let filled = take c.buf_len c.buf ++ take need msg in
    if c.buf_len == 0
    then absorb c msg
    else if ltb (length msg) need
    then record c {
      buf = take c.buf_len c.buf ++ overwrite msg (drop c.buf_len c.buf);
      buf_len = c.buf_len + length msg;
    }
    else absorb (record (process_block (record c { buf = filled }) filled true) { buf_len = 0 })
        (drop need msg)

-- One round of `propagate_carry`.
pub carry_round : Limbs → Limbs
carry_round h =
    let h1 = u64 (h.l1 + h.l0 / 2 ^ 26) in
    let h2 = u64 (h.l2 + h1 / 2 ^ 26) in
    let h3 = u64 (h.l3 + h2 / 2 ^ 26) in
    let h4 = u64 (h.l4 + h3 / 2 ^ 26) in
    let h0 = u64 (h.l0 % 2 ^ 26 + u64 (h4 / 2 ^ 26 * 5)) in
    record {
      l0 = h0 % 2 ^ 26;
      l1 = u64 (h1 % 2 ^ 26 + h0 / 2 ^ 26);
      l2 = h2 % 2 ^ 26;
      l3 = h3 % 2 ^ 26;
      l4 = h4 % 2 ^ 26;
    }

pub propagate_carry : Limbs → Limbs
unfolding carry_round
propagate_carry h = carry_round (carry_round h)

-- A u128 shift drops what leaves the word.
pub h_to_u128 : Limbs → ℕ
h_to_u128 h =
    bit_or
      (bit_or (bit_or (bit_or h.l0 (u128 (h.l1 * 2 ^ 26))) (u128 (h.l2 * 2 ^ 52)))
        (u128 (h.l3 * 2 ^ 78)))
      (u128 (h.l4 * 2 ^ 104))

pub s_to_u128 : Words4 → ℕ
s_to_u128 s = bit_or (bit_or (bit_or s.w0 (s.w1 * 2 ^ 32)) (s.w2 * 2 ^ 64)) (s.w3 * 2 ^ 96)

-- The padded last block: the bytes kept, a 1, and zeros.
pub pad_block : Poly1305 → List ℕ
pad_block c = set (overwrite (take c.buf_len c.buf) (replicate block_len 0)) c.buf_len 1

pub finalize : Poly1305 → List ℕ
unfolding pad_block
finalize c =
    let c' = if ltb 0 c.buf_len then process_block c (pad_block c) false else c in
    let h = propagate_carry c'.h in to_le poly1305_tag_len (u128 (h_to_u128 h + s_to_u128 c'.s))

pub mac : Poly1305Key → List ℕ → List ℕ
unfolding finalize
mac key msg = finalize (update (new key) msg)
