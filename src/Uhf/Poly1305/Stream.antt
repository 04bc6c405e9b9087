-- ===== src/Uhf/Poly1305/Stream.antt =====
-- `update` in pieces: what the accumulator and the buffer hold after any sequence of updates.
use project_qlinux.Prelude.{
  ℕ, zero, suc, ◌+◌, ◌-◌, ◌*◌, ◌/◌, ◌%◌, ◌^◌, ◌≤◌, ◌<◌, ◌≡◌, refl, sym, ap, ◌∙◌, Bool, true, false,
  List, [], ◌∷◌, ◌++◌, arith, length, take, drop, append_assoc, append-nil, inl, inr, Bool-cases,
  leb, if◌then◌else◌, bit_or, length-take, length-drop, take-append-drop, ◌==◌, ltb, overwrite,
  take-append, length-append, subst, ==_iff,
}
use project_qlinux.Prelude.Bits.{bit_or_field}
use project_qlinux.Prelude.Words.{
  from_le, from_le-lt, from_le-append, IsBytes, IsBytes-take, IsBytes-drop, IsBytes-append,
  IsBytes-parts, mod-mul_left,
}
use native.Mathlib.Nat.{mod-add-mod}
use project_qlinux.Uhf.Poly1305.{
  Limbs, Poly1305, Poly1305Key, split_limbs, add_limbs, process_block, whole_blocks, keep_rest,
  absorb, update, new,
}
use project_qlinux.Uhf.Poly1305.Residue.{p130, value, AllBelow, IsReduced, IsKeyLimbs, mul_r_lem}
use project_qlinux.Uhf.Poly1305.Rfc.{
  chunk_value, accumulate, accumulate_one, accumulate_none, joined, joined-append, AllWhole,
  AllWhole-append,
}

-- The top bit of a block is or-ed into a limb that has 24 bits.
split_limbs_lem :
    (m b : ℕ)
    → m < 2 ^ 128
    → b < 2
    → (value (split_limbs m (b * 2 ^ 24)) ≡ m + b * 2 ^ 128)
      × AllBelow (2 ^ 26) (split_limbs m (b * 2 ^ 24))
split_limbs_lem m b h k =
    let e : bit_or (m / 2 ^ 104 % 2 ^ 26) (b * 2 ^ 24) ≡ m / 2 ^ 104 % 2 ^ 26 + b * 2 ^ 24 =
      bit_or_field 24 b (m / 2 ^ 104 % 2 ^ 26) (omega arith) in
    (omega (arith, e), omega (arith, e))

add_limbs_lem :
    (h n : Limbs)
    → IsReduced h
    → AllBelow (2 ^ 26) n
    → (value (add_limbs h n) ≡ value h + value n) × AllBelow (2 ^ 28) (add_limbs h n)
unfolding add_limbs
add_limbs_lem h n a b = omega arith

bit-lt : (b : Bool) → (if b then 1 else 0) < 2
bit-lt true = omega arith
bit-lt false = omega arith

-- Only the residues of the factors matter.
residue_step : (a n r : ℕ) → ((a + n) * r) % p130 ≡ ((a % p130 + n) * r) % p130
residue_step a n r =
    sym (mod-mul_left p130 (a + n) r)
    ∙ ap (λ t. (t * r) % p130) (sym (mod-add-mod a p130 n))
    ∙ mod-mul_left p130 (a % p130 + n) r

-- One block: add its number, with 2 ^ 128 for a whole one, and multiply.
pub process_block_lem :
    (c : Poly1305) (block : List ℕ) (whole : Bool)
    → IsReduced c.h
    → IsKeyLimbs c.r
    → from_le block < 2 ^ 128
    → (value (process_block c block whole).h % p130
        ≡ ((value c.h % p130 + (from_le block + (if whole then 1 else 0) * 2 ^ 128)) * value c.r)
          % p130)
      × IsReduced (process_block c block whole).h
unfolding process_block
process_block_lem c block whole red key small =
    let b : ℕ = if whole then 1 else 0 in
    let top : ℕ = b * 2 ^ 24 in
    let n = split_limbs (from_le block) top in
    let s = split_limbs_lem (from_le block) b small (bit-lt whole) in
    let t = add_limbs_lem c.h n red s.1 in
    let m = mul_r_lem (add_limbs c.h n) c.r t.1 key in
    (
      m.0
          ∙ ap (λ v. (v * value c.r) % p130) (t.0 ∙ ap (λ v. value c.h + v) s.0)
          ∙ residue_step (value c.h) (from_le block + b * 2 ^ 128) (value c.r),
      m.1,
    )

-- What has been added up, over whole chunks only.
pub record Summed (key : Poly1305Key) (cs : List (List ℕ)) (c : Poly1305) : Type 0 where
  pub whole : AllWhole cs
  pub reduced : IsReduced c.h
  pub sum : value c.h % p130 ≡ accumulate (value key.r) 0 cs
  pub same_r : c.r ≡ key.r
  pub same_s : c.s ≡ key.s
  pub storage : length c.buf ≡ 16

chunk_value_lem : (d : List ℕ) → chunk_value d ≡ from_le d + 256 ^ length d
chunk_value_lem d = from_le-append d (1 ∷ []) ∙ (omega arith)

block-lt : (d : List ℕ) → IsBytes d → length d ≡ 16 → from_le d < 2 ^ 128
block-lt d h e = rw e at (from_le-lt d h)

pub process_block-Summed :
    (key : Poly1305Key) (cs : List (List ℕ)) (c : Poly1305) (d : List ℕ)
    → IsKeyLimbs key.r
    → Summed key cs c
    → IsBytes d
    → length d ≡ 16
    → Summed key (cs ++ d ∷ []) (process_block c d true)
process_block-Summed key cs c d k s h e =
    let small = block-lt d h e in
    let key' : IsKeyLimbs c.r = rw s.same_r k in
    let m = process_block_lem c d true s.reduced key' small in
    let v : chunk_value d ≡ from_le d + 2 ^ 128 = rw e at (chunk_value_lem d) in
    record {
      whole = AllWhole-append cs (d ∷ []) s.whole (e, tt);
      reduced = m.1;
      sum =
          m.0
          ∙ ap (λ t. (t + (from_le d + 1 * 2 ^ 128)) * value c.r % p130) s.sum
          ∙ ap (λ t. (accumulate (value key.r) 0 cs + (from_le d + 1 * 2 ^ 128)) * value t % p130)
              s.same_r
          ∙ ap (λ t. (accumulate (value key.r) 0 cs + t) * value key.r % p130)
              ((omega arith) ∙ sym v)
          ∙ sym (accumulate_one (value key.r) cs d);
      same_r = unfold process_block in s.same_r;
      same_s = unfold process_block in s.same_s;
      storage = unfold process_block in s.storage;
    }

ltb_lt : (m n : ℕ) → ltb m n ≡ true → m < n
ltb_lt m n h = ground arith

ltb-false : (m n : ℕ) → ltb m n ≡ false → n ≤ m
ltb-false m n h = ground arith

leb_le : (m n : ℕ) → leb m n ≡ true → m ≤ n
leb_le m n h = ground arith

leb-false : (m n : ℕ) → leb m n ≡ false → n < m
leb-false m n h = ground arith

-- What a run of whole blocks leaves: the chunks taken, and a rest too short for one more.
record Ran (key : Poly1305Key) (cs : List (List ℕ)) (c : Poly1305) (bytes : List ℕ)
    (out : Poly1305 × List ℕ) : Type 0 where
  more : List (List ℕ)
  splits : joined more ++ out.1 ≡ bytes
  added : Summed key (cs ++ more) out.0
  short : length out.1 < 16
  same_len : out.0.buf_len ≡ c.buf_len

whole_blocks-Ran :
    (fuel : ℕ) (key : Poly1305Key) (cs : List (List ℕ)) (c : Poly1305) (bytes : List ℕ)
    → IsKeyLimbs key.r
    → Summed key cs c
    → IsBytes bytes
    → length bytes ≤ fuel
    → Ran key cs c bytes (whole_blocks fuel c bytes)
unfolding whole_blocks
whole_blocks-Ran zero key cs c bytes k s h f = record {
  more = [];
  splits = refl;
  added = rw (append-nil cs) s;
  short = omega arith;
  same_len = refl;
}
whole_blocks-Ran (suc fuel) key cs c bytes k s h f = elim (Bool-cases (leb 16 (length bytes))) [
  | inl long ↦
      let d : List ℕ = take 16 bytes in
      let n : 16 ≤ length bytes = leb_le 16 (length bytes) long in
      let e : length d ≡ 16 = length-take 16 bytes ∙ (omega arith) in
      let ih =
        whole_blocks-Ran fuel key (cs ++ d ∷ []) (process_block c d true) (drop 16 bytes) k
          (process_block-Summed key cs c d k s (IsBytes-take 16 bytes h) e)
          (IsBytes-drop 16 bytes h) (omega (arith, length-drop 16 bytes)) in
      rw long (record {
        more = d ∷ ih.more;
        splits =
            append_assoc d (joined ih.more) _
            ∙ ap (λ t. d ++ t) ih.splits
            ∙ take-append-drop 16 bytes;
        added = rw (append_assoc cs (d ∷ []) ih.more) at ih.added;
        short = ih.short;
        same_len = ih.same_len ∙ (unfold process_block in refl);
      })
  | inr less ↦ rw less (record {
    more = [];
    splits = refl;
    added = rw (append-nil cs) s;
    short = leb-false 16 (length bytes) less;
    same_len = refl;
  })
]

-- A context that has taken in exactly the message: whole chunks summed up, and the rest buffered.
pub record Absorbed (key : Poly1305Key) (msg : List ℕ) (c : Poly1305) : Type 0 where
  pub cs : List (List ℕ)
  pub summed : Summed key cs c
  pub short : c.buf_len < 16
  pub splits : joined cs ++ take c.buf_len c.buf ≡ msg

keep_rest-Absorbed :
    (key : Poly1305Key) (cs : List (List ℕ)) (c : Poly1305) (bytes : List ℕ)
    (out : Poly1305 × List ℕ)
    → c.buf_len ≡ 0
    → Ran key cs c bytes out
    → Absorbed key (joined cs ++ bytes) (keep_rest out)
unfolding keep_rest
keep_rest-Absorbed key cs c bytes (c', []) z r =
    let n : c'.buf_len ≡ 0 = r.same_len ∙ z in
    record {
      cs = cs ++ r.more;
      summed = r.added;
      short = omega arith;
      splits =
          rw (n, append-nil) (joined-append cs r.more)
          ∙ ap (λ t. joined cs ++ t) (sym (append-nil (joined r.more)) ∙ r.splits);
    }
keep_rest-Absorbed key cs c bytes (c', x ∷ rest) z r = record {
  cs = cs ++ r.more;
  summed = record {
    whole = r.added.whole;
    reduced = r.added.reduced;
    sum = r.added.sum;
    same_r = r.added.same_r;
    same_s = r.added.same_s;
    storage =
        length-append (x ∷ rest) (drop (length (x ∷ rest)) c'.buf)
        ∙ (omega (arith, length-drop (length (x ∷ rest)) c'.buf, r.added.storage, r.short));
  };
  short = r.short;
  splits =
      ap (λ t. joined (cs ++ r.more) ++ t) (take-append (length (x ∷ rest)) (x ∷ rest) _ refl)
      ∙ ap (λ t. t ++ x ∷ rest) (joined-append cs r.more)
      ∙ append_assoc (joined cs) (joined r.more) (x ∷ rest)
      ∙ ap (λ t. joined cs ++ t) r.splits;
}

absorb-Absorbed :
    (key : Poly1305Key) (cs : List (List ℕ)) (c : Poly1305) (bytes : List ℕ)
    → IsKeyLimbs key.r
    → Summed key cs c
    → IsBytes bytes
    → c.buf_len ≡ 0
    → Absorbed key (joined cs ++ bytes) (absorb c bytes)
unfolding absorb
absorb-Absorbed key cs c bytes k s h z =
    keep_rest-Absorbed key cs c bytes (whole_blocks (length bytes) c bytes) z
      (whole_blocks-Ran (length bytes) key cs c bytes k s h (omega arith))

pub new-Absorbed : (key : Poly1305Key) → Absorbed key [] (new key)
unfolding new
new-Absorbed key = record {
  cs = [];
  summed = record {
    whole = tt;
    reduced = omega arith;
    sum = accumulate_none (value key.r);
    same_r = refl;
    same_s = refl;
    storage = refl;
  };
  short = omega arith;
  splits = refl;
}

-- The buffer with a short message behind its bytes.
more_buffered-Absorbed :
    (key : Poly1305Key) (msg : List ℕ) (c : Poly1305) (data' : List ℕ)
    → Absorbed key msg c
    → length data' < 16 - c.buf_len
    → Absorbed key (msg ++ data') (record c {
      buf = take c.buf_len c.buf ++ overwrite data' (drop c.buf_len c.buf);
      buf_len = c.buf_len + length data';
    })
more_buffered-Absorbed key msg c data' a h =
    let kept : List ℕ = take c.buf_len c.buf in
    let k : length kept ≡ c.buf_len =
      length-take c.buf_len c.buf ∙ (omega (arith, a.summed.storage, a.short)) in
    let rest : List ℕ = drop (length data') (drop c.buf_len c.buf) in
    let whole : (kept ++ data') ++ rest ≡ kept ++ (data' ++ rest) = append_assoc kept data' rest in
    record {
      cs = a.cs;
      summed = record {
        whole = a.summed.whole;
        reduced = a.summed.reduced;
        sum = a.summed.sum;
        same_r = a.summed.same_r;
        same_s = a.summed.same_s;
        storage =
            length-append kept (data' ++ rest)
            ∙ (omega (
              arith,
              k,
              length-append data' rest,
              length-drop (length data') (drop c.buf_len c.buf),
              length-drop c.buf_len c.buf,
              a.summed.storage,
              a.short,
            ));
      };
      short = omega (arith, a.short);
      splits =
          ap (λ t. joined a.cs ++ take (c.buf_len + length data') t) (sym whole)
          ∙ ap (λ t. joined a.cs ++ t)
              (take-append (c.buf_len + length data') (kept ++ data') rest
                (sym (length-append kept data' ∙ ap (λ t. t + length data') k)))
          ∙ sym (append_assoc (joined a.cs) kept data')
          ∙ ap (λ t. t ++ data') a.splits;
    }

-- Filling the buffer makes a whole block; the rest of the message is taken in behind it.
fill-Absorbed :
    (key : Poly1305Key) (msg : List ℕ) (c : Poly1305) (data' : List ℕ)
    → IsKeyLimbs key.r
    → IsBytes msg
    → IsBytes data'
    → Absorbed key msg c
    → 16 - c.buf_len ≤ length data'
    → let filled = take c.buf_len c.buf ++ take (16 - c.buf_len) data' in
      Absorbed key (msg ++ data') (
        absorb
          (record (process_block (record c { buf = filled }) filled true) { buf_len = 0 })
          (drop (16 - c.buf_len) data'))
fill-Absorbed key msg c data' k hm hd a h =
    let need : ℕ = 16 - c.buf_len in
    let kept : List ℕ = take c.buf_len c.buf in
    let filled : List ℕ = kept ++ take need data' in
    let n : length filled ≡ 16 =
      length-append kept (take need data')
      ∙ (omega (
        arith,
        length-take c.buf_len c.buf,
        length-take need data',
        a.summed.storage,
        a.short,
      )) in
    let kept_bytes = (IsBytes-parts (joined a.cs) kept (subst IsBytes (sym a.splits) hm)).1 in
    let start : Summed key a.cs (record c { buf = filled }) = record {
      whole = a.summed.whole;
      reduced = a.summed.reduced;
      sum = a.summed.sum;
      same_r = a.summed.same_r;
      same_s = a.summed.same_s;
      storage = n;
    } in
    let next =
      process_block-Summed key a.cs (record c { buf = filled }) filled k start
        (IsBytes-append kept (take need data') kept_bytes (IsBytes-take need data' hd)) n in
    let whole : joined (a.cs ++ filled ∷ []) ++ drop need data' ≡ msg ++ data' =
      ap (λ t. t ++ drop need data') (joined-append a.cs (filled ∷ []))
      ∙ append_assoc (joined a.cs) (filled ++ []) (drop need data')
      ∙ ap (λ t. joined a.cs ++ (t ++ drop need data')) (append-nil filled)
      ∙ ap (λ t. joined a.cs ++ t)
          (append_assoc kept (take need data') (drop need data')
            ∙ ap (λ t. kept ++ t) (take-append-drop need data'))
      ∙ sym (append_assoc (joined a.cs) kept data')
      ∙ ap (λ t. t ++ data') a.splits in
    subst
      (λ m. Absorbed key m (
        absorb (record (process_block (record c { buf = filled }) filled true) { buf_len = 0 })
          (drop need data')))
      whole
      (absorb-Absorbed key (a.cs ++ filled ∷ [])
        (record (process_block (record c { buf = filled }) filled true) { buf_len = 0 })
        (drop need data') k
        (record {
          whole = next.whole;
          reduced = next.reduced;
          sum = next.sum;
          same_r = next.same_r;
          same_s = next.same_s;
          storage = next.storage;
        })
        (IsBytes-drop need data' hd) refl)

-- A context that has absorbed a message of bytes under a key with 26-bit limbs has, after
-- update, absorbed the message followed by the new bytes, whatever was buffered.
pub update-Absorbed :
    (key : Poly1305Key) (msg : List ℕ) (c : Poly1305) (data' : List ℕ)
    → IsKeyLimbs key.r
    → IsBytes msg
    → IsBytes data'
    → Absorbed key msg c
    → Absorbed key (msg ++ data') (update c data')
unfolding update
update-Absorbed key msg c data' k hm hd a = elim (Bool-cases (c.buf_len == 0)) [
  | inl z ↦
      let z' : c.buf_len ≡ 0 = (==_iff c.buf_len 0).0 z in
      let e : joined a.cs ≡ msg =
        sym (append-nil (joined a.cs))
        ∙ ap (λ n. joined a.cs ++ take n c.buf) (sym z')
        ∙ a.splits in
      rw z (
        subst (λ m. Absorbed key (m ++ data') (absorb c data')) e
          (absorb-Absorbed key a.cs c data' k a.summed hd z'))
  | inr nz ↦ elim (Bool-cases (ltb (length data') (16 - c.buf_len))) [
    | inl less ↦ rw (nz, less) (more_buffered-Absorbed key msg c data' a (ltb_lt _ _ less))
    | inr more ↦ rw (nz, more) (fill-Absorbed key msg c data' k hm hd a (ltb-false _ _ more))
  ]
]
