-- ===== src/Uhf/Poly1305/Mac.antt =====
-- The tag: `finalize` and `mac` against the MAC of RFC 8439.
use project_qlinux.Prelude.{
  ℕ, zero, suc, ◌+◌, ◌-◌, ◌*◌, ◌%◌, ◌^◌, ◌≤◌, ◌<◌, ◌≡◌, refl, sym, ap, ap₂, ◌∙◌, subst, true, false,
  List, [], ◌∷◌, ◌++◌, arith, length, take, drop, set, replicate, append-nil, inl, inr, Bool-cases,
  if◌then◌else◌, ltb, length-take, drop-replicate, set-append, overwrite, length-replicate,
  length-append,
}
use project_qlinux.Prelude.Bits.{bit_or_field}
use project_qlinux.Prelude.Words.{
  u128, to_le, from_le, from_le-lt, from_le-append, from_le-zeros, IsBytes, IsBytes-parts,
  IsBytes-append,
}
use project_qlinux.Uhf.Poly1305.{
  Limbs, Words4, Poly1305, Poly1305Key, process_block, propagate_carry, h_to_u128, s_to_u128,
  pad_block, finalize, mac,
}
use project_qlinux.Uhf.Poly1305.Residue.{
  p130, value, IsReduced, IsKeyLimbs, IsCarried, propagate_carry_lem,
}
use project_qlinux.Uhf.Poly1305.Rfc.{
  chunk_value, accumulate, accumulate_one, residue, residue_lem, rfc_mac, rfc_mac_lem, joined,
  last_chunk,
}
use project_qlinux.Uhf.Poly1305.Stream.{Absorbed, process_block_lem}

-- The words of the second half of the key have 32 bits.
abbrev pub IsKey : Poly1305Key → Type 0
IsKey k =
    IsKeyLimbs k.r × (k.s.w0 < 2 ^ 32) × (k.s.w1 < 2 ^ 32) × (k.s.w2 < 2 ^ 32) × (k.s.w3 < 2 ^ 32)

abbrev pub s_value : Words4 → ℕ
s_value s = s.w0 + s.w1 * 2 ^ 32 + s.w2 * 2 ^ 64 + s.w3 * 2 ^ 96

h_to_u128_lem : (h : Limbs) → IsCarried h → h_to_u128 h ≡ value h % 2 ^ 128
unfolding h_to_u128
h_to_u128_lem h c =
    let e1 : u128 (h.l1 * 2 ^ 26) ≡ h.l1 * 2 ^ 26 = omega arith in
    let e2 : u128 (h.l2 * 2 ^ 52) ≡ h.l2 * 2 ^ 52 = omega arith in
    let e3 : u128 (h.l3 * 2 ^ 78) ≡ h.l3 * 2 ^ 78 = omega arith in
    let e4 : u128 (h.l4 * 2 ^ 104) ≡ h.l4 % 2 ^ 24 * 2 ^ 104 = omega arith in
    rw
      (
        e1,
        e2,
        e3,
        e4,
        bit_or_field 26 h.l1 h.l0 c.c0,
        bit_or_field 52 h.l2 (h.l0 + h.l1 * 2 ^ 26) (omega arith),
        bit_or_field 78 h.l3 (h.l0 + h.l1 * 2 ^ 26 + h.l2 * 2 ^ 52) (omega arith),
        bit_or_field 104 (h.l4 % 2 ^ 24) (h.l0 + h.l1 * 2 ^ 26 + h.l2 * 2 ^ 52 + h.l3 * 2 ^ 78)
            (omega arith),
      )
      (omega arith)

s_to_u128_lem : (k : Poly1305Key) → IsKey k → s_to_u128 k.s ≡ s_value k.s
unfolding s_to_u128
s_to_u128_lem k v =
    let s = k.s in
    rw (
      bit_or_field 32 s.w1 s.w0 v.1,
      bit_or_field 64 s.w2 (s.w0 + s.w1 * 2 ^ 32) (omega arith),
      bit_or_field 96 s.w3 (s.w0 + s.w1 * 2 ^ 32 + s.w2 * 2 ^ 64) (omega arith),
    )

pad_lem :
    (n : ℕ) (tail : List ℕ)
    → length tail ≡ n
    → n < 16
    → set (overwrite tail (replicate 16 0)) n 1 ≡ tail ++ 1 ∷ replicate (15 - n) 0
pad_lem n tail e h =
    let z : drop {A = ℕ} (length tail) (replicate 16 0) ≡ 0 ∷ replicate (15 - n) 0 =
      drop-replicate (length tail) 16 0
      ∙ ap (λ k. replicate k 0) {x = 16 - length tail} {y = suc (15 - n)} (omega arith) in
    rw z (set-append n tail 0 (replicate (15 - n) 0) 1 (sym e))

-- The limbs that the carries of `finalize` start from.
unfoldable pub last_limbs : Poly1305 → Limbs
unfolding pad_block
last_limbs c = if ltb 0 c.buf_len then (process_block c (pad_block c) false).h else c.h

IsBytes-zeros : (n : ℕ) → IsBytes (replicate n 0)
IsBytes-zeros zero = tt
IsBytes-zeros (suc n) = (omega arith, IsBytes-zeros n)

-- The padded block is the number of the chunk left over, and fits sixteen bytes.
pad_block_lem :
    (n : ℕ) (tail : List ℕ)
    → length tail ≡ n
    → n < 16
    → IsBytes tail
    → let pad = set (overwrite tail (replicate 16 0)) n 1 in
      (from_le pad ≡ chunk_value tail) × (from_le pad < 2 ^ 128)
pad_block_lem n tail e h b =
    let zeros : List ℕ = replicate (15 - n) 0 in
    let p = pad_lem n tail e h in
    let full : List ℕ = tail ++ 1 ∷ zeros in
    let size : length full ≡ 16 =
      length-append tail (1 ∷ zeros) ∙ (omega (arith, length-replicate {A = ℕ} (15 - n) 0)) in
    let bytes : IsBytes full =
      IsBytes-append tail (1 ∷ zeros) b (omega arith, IsBytes-zeros (15 - n)) in
    let bound : from_le full < 2 ^ 128 = rw size at (from_le-lt full bytes) in
    let same : from_le full ≡ chunk_value tail =
      from_le-append tail (1 ∷ zeros)
      ∙ ap (λ t. from_le tail + 256 ^ length tail * (1 + 256 * t)) (from_le-zeros (15 - n))
      ∙ sym (from_le-append tail (1 ∷ [])) in
    rw p (same, bound)

last_chunk-cons : (tail : List ℕ) → 0 < length tail → last_chunk tail ≡ tail ∷ []
last_chunk-cons [] h = absurd (omega arith)
last_chunk-cons (x ∷ xs) h = refl

last_chunk-nil : (tail : List ℕ) → length tail ≡ 0 → last_chunk tail ≡ []
last_chunk-nil [] h = refl
last_chunk-nil (x ∷ xs) h = absurd (omega arith)

ltb_pos : (n : ℕ) → ltb 0 n ≡ true → 0 < n
ltb_pos n h = ground arith

ltb_zero : (n : ℕ) → ltb 0 n ≡ false → n ≡ 0
ltb_zero n h = ground arith

-- With the last chunk in, the limbs hold the residue of the whole message.
pub last_limbs_lem :
    (key : Poly1305Key) (msg : List ℕ) (c : Poly1305)
    → IsKeyLimbs key.r
    → IsBytes msg
    → Absorbed key msg c
    → (value (last_limbs c) % p130 ≡ residue (value key.r) msg) × IsReduced (last_limbs c)
unfolding last_limbs
last_limbs_lem key msg c k b a =
    let r : ℕ = value key.r in
    let tail : List ℕ = take c.buf_len c.buf in
    let n : length tail ≡ c.buf_len =
      length-take c.buf_len c.buf ∙ (omega (arith, a.summed.storage, a.short)) in
    let tail_bytes = (IsBytes-parts (joined a.cs) tail (subst IsBytes (sym a.splits) b)).1 in
    let whole : residue r msg ≡ accumulate r 0 (a.cs ++ last_chunk tail) =
      ap (residue r) (sym a.splits)
      ∙ residue_lem r a.cs tail a.summed.whole (omega (arith, n, a.short)) in
    elim (Bool-cases (ltb 0 c.buf_len)) [
      | inl pos ↦
          let pad = pad_block_lem c.buf_len tail n a.short tail_bytes in
          let m =
            process_block_lem c (pad_block c) false a.summed.reduced (rw a.summed.same_r k)
              (unfold pad_block in pad.1) in
          let one : last_chunk tail ≡ tail ∷ [] =
            last_chunk-cons tail (omega (arith, n, ltb_pos c.buf_len pos)) in
          rw pos (
            m.0
                ∙ ap (λ t. (t + (from_le (pad_block c) + 0 * 2 ^ 128)) * value c.r % p130)
                    a.summed.sum
                ∙ ap (λ t. (accumulate r 0 a.cs + t) * value c.r % p130)
                    ((omega arith) ∙ (unfold pad_block in pad.0))
                ∙ ap (λ t. (accumulate r 0 a.cs + chunk_value tail) * value t % p130)
                    a.summed.same_r
                ∙ sym (accumulate_one r a.cs tail)
                ∙ ap (λ t. accumulate r 0 (a.cs ++ t)) (sym one)
                ∙ sym whole,
            m.1,
          )
      | inr none' ↦
          let nil : last_chunk tail ≡ [] = last_chunk-nil tail (n ∙ ltb_zero c.buf_len none') in
          rw none' (
            a.summed.sum
                ∙ ap (accumulate r 0) (sym (append-nil a.cs))
                ∙ ap (λ t. accumulate r 0 (a.cs ++ t)) (sym nil)
                ∙ sym whole,
            a.summed.reduced,
          )
    ]

-- The carried number behind a tag, before its low 128 bits are taken.
unfoldable pub last_value : Poly1305 → ℕ
unfolding last_limbs
last_value c = value (propagate_carry (last_limbs c))

-- Carrying leaves at most 130 bits, so the number is the residue or the residue plus the prime.
pub last_value_lem :
    (key : Poly1305Key) (msg : List ℕ) (c : Poly1305)
    → IsKeyLimbs key.r
    → IsBytes msg
    → Absorbed key msg c
    → (last_value c % p130 ≡ residue (value key.r) msg) × (last_value c < 2 ^ 130)
unfolding last_value
last_value_lem key msg c k b a =
    let l = last_limbs_lem key msg c k b a in
    let q = propagate_carry_lem (last_limbs c) l.1 in
    (q.0 ∙ l.0, omega (arith, q.1.c0, q.1.c1, q.1.c2, q.1.c3, q.1.c4))

same_words :
    (c : Poly1305) → (if ltb 0 c.buf_len then process_block c (pad_block c) false else c).s ≡ c.s
unfolding process_block
same_words c = ground arith

same_limbs :
    (c : Poly1305)
    → (if ltb 0 c.buf_len then process_block c (pad_block c) false else c).h ≡ last_limbs c
unfolding last_limbs
same_limbs c = ground arith

-- The tag is the carried number plus the second half of the key, modulo 2 ^ 128.
pub finalize_lem :
    (key : Poly1305Key) (msg : List ℕ) (c : Poly1305)
    → IsKey key
    → IsBytes msg
    → Absorbed key msg c
    → finalize c ≡ to_le 16 (u128 (last_value c + s_value key.s))
unfolding finalize last_value
finalize_lem key msg c k b a =
    let l = last_limbs_lem key msg c k.0 b a in
    let q = propagate_carry_lem (last_limbs c) l.1 in
    ap (λ t. to_le 16 (u128 t))
      (ap₂ (λ s t. h_to_u128 (propagate_carry s) + s_to_u128 t) (same_limbs c)
          (same_words c ∙ a.summed.same_s)
        ∙ ap₂ (λ s t. s + t) (h_to_u128_lem (propagate_carry (last_limbs c)) q.1)
            (s_to_u128_lem key k))
    ∙ ap (to_le 16) (omega arith)

-- Where the residue is at least 5 the tag is the one of RFC 8439.
pub finalize-rfc_mac :
    (key : Poly1305Key) (msg : List ℕ) (c : Poly1305)
    → IsKey key
    → IsBytes msg
    → Absorbed key msg c
    → 5 ≤ residue (value key.r) msg
    → finalize c ≡ rfc_mac (value key.r) (s_value key.s) msg
finalize-rfc_mac key msg c k b a large =
    let v = last_value_lem key msg c k.0 b a in
    let e : last_value c ≡ residue (value key.r) msg = omega (arith, v.0, v.1) in
    finalize_lem key msg c k b a
    ∙ ap (λ t. to_le 16 (u128 (t + s_value key.s))) e
    ∙ sym (rfc_mac_lem (value key.r) (s_value key.s) msg)

pub length-mac : (key : Poly1305Key) (msg : List ℕ) → length (mac key msg) ≡ 16
unfolding mac
length-mac key msg = refl

pub length-finalize : (c : Poly1305) → length (finalize c) ≡ 16
unfolding finalize
length-finalize c = refl
