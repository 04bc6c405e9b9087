-- ===== src/Uhf/Nh.antt =====
-- uhf/src/lib.rs: the key of `Umac64`, the NH compression, and the message code.
use project_qlinux.Prelude.{
  ℕ, zero, suc, ◌+◌, ◌-◌, ◌*◌, ◌/◌, ◌%◌, ◌^◌, ◌≤◌, ◌<◌, ◌≡◌, ◌↔◌, min, max, refl, sym, ap, ap₂, ◌∙◌,
  false, not, List, [], ◌∷◌, ◌++◌, arith, ◌==◌, if◌then◌else◌, length, length-append, get_or, take,
  drop, slice, take-append_le, drop-append_le, length-drop, bit_or, bit_xor, Result, ok, err, ◌>>◌,
  refuse_if,
}
use native.Mathlib.Decide.{dec_lt}
use project_qlinux.Prelude.Words.{u64, from_le}
use project_qlinux.Prelude.Bits.{bit_xor-zero_iff}
use project_qlinux.Prelude.Testbit.{bit_or-lt, testbit, testbit-bit_or, testbit-shift}
use project_qlinux.Uhf.Umac.{axu_finish}

pub data UhfError : Type 0 where
  invalid_key_length empty_input invalid_tag_length tag_mismatch : UhfError

abbrev pub nh_key_words : ℕ
nh_key_words = 64

abbrev pub nh_key_len : ℕ
nh_key_len = nh_key_words * 8

pub record UmacKey : Type 0 where
  pub nh_key : List ℕ
  pub axu_a : ℕ
  pub axu_b : ℕ

-- n words of 8 bytes; a last chunk that is shorter counts as filled up by zeros.
unfoldable pub words_of : ℕ → List ℕ → List ℕ
words_of zero bytes = []
words_of (suc n) bytes = from_le (take 8 bytes) ∷ words_of n (drop 8 bytes)

pub new_umac_key : List ℕ → Result UhfError UmacKey
unfolding words_of
new_umac_key raw = do
  refuse_if (not (length raw == nh_key_len + 16)) invalid_key_length
  ok record {
    nh_key = words_of nh_key_words raw;
    axu_a = from_le (slice raw nh_key_len (nh_key_len + 8));
    axu_b = from_le (slice raw (nh_key_len + 8) (nh_key_len + 16));
  }

-- The loop of `nh_compress`, for the next n words.
unfoldable pub nh_loop : List ℕ → List ℕ → ℕ → ℕ → ℕ → ℕ
nh_loop key msg zero i acc = acc
nh_loop key msg (suc n) i acc =
    let a = u64 (get_or msg i 0 + get_or key (2 * i) 0) in
    let b = u64 (get_or msg i 0 + get_or key (2 * i + 1) 0) in
    nh_loop key msg n (i + 1) (u64 (acc + u64 (a * b)))

pub nh_compress : List ℕ → List ℕ → ℕ
unfolding nh_loop
nh_compress key msg = nh_loop key msg (min (length msg) (nh_key_words / 2)) 0 0

pub msg_to_words : List ℕ → List ℕ
unfolding words_of
msg_to_words msg = words_of (min ((length msg + 7) / 8) (nh_key_words / 2)) msg

pub umac : UmacKey → List ℕ → ℕ
unfolding nh_compress msg_to_words
umac key msg =
    if length msg == 0
    then key.axu_b
    else axu_finish key.axu_a (nh_compress key.nh_key (msg_to_words msg)) key.axu_b

-- The highest bit of `diff | -diff` tells whether `diff` is not 0.
pub umac_verify : UmacKey → List ℕ → ℕ → Result UhfError (Unit {0})
unfolding umac
umac_verify key msg expected =
    let diff = bit_xor (umac key msg) expected in
    let top = bit_or diff (u64 (2 ^ 64 - diff)) / 2 ^ 63 in
    if u64 (2 ^ 64 + 1 - top) % 2 == 1 then ok tt else err tag_mismatch

-- Words from the front of a message do not depend on what follows them.
words_of-append :
    (n : ℕ) (xs ys : List ℕ) → n * 8 ≤ length xs → words_of n (xs ++ ys) ≡ words_of n xs
unfolding words_of
words_of-append zero xs ys h = refl
words_of-append (suc n) xs ys h = ap₂ ◌∷◌ (ap from_le (take-append_le 8 xs ys (omega (arith, h)))) (
    ap (words_of n) (drop-append_le 8 xs ys (omega (arith, h)))
    ∙ words_of-append n (drop 8 xs) ys (omega (arith, h, length-drop 8 xs)))

umac_words :
    (key : UmacKey) (msg : List ℕ)
    → 0 < length msg
    → umac key msg ≡ axu_finish key.axu_a (nh_compress key.nh_key (msg_to_words msg)) key.axu_b
unfolding umac
umac_words key msg h =
    let some_bytes : (length msg == 0) ≡ false = ground (arith, h) in rw some_bytes refl

-- For any key, a message of 256 bytes and that message with anything behind it have the same
-- code.
pub umac_prefix :
    (key : UmacKey) (xs ys : List ℕ) → length xs ≡ 256 → umac key (xs ++ ys) ≡ umac key xs
unfolding msg_to_words
umac_prefix key xs ys e =
    umac_words key (xs ++ ys) (omega (arith, longer, e))
    ∙ ap (λ ws. axu_finish key.axu_a (nh_compress key.nh_key ws) key.axu_b) same
    ∙ sym (umac_words key xs (omega (arith, e)))
  where
    longer : length (xs ++ ys) ≡ length xs + length ys
    longer = length-append xs ys

    full : min ((length xs + 7) / 8) 32 ≡ 32
    full = omega (arith, e)

    full_more : min ((length (xs ++ ys) + 7) / 8) 32 ≡ 32
    full_more = omega (arith, e, longer)

    same : msg_to_words (xs ++ ys) ≡ msg_to_words xs
    same =
        ap (λ n. words_of n (xs ++ ys)) full_more
        ∙ words_of-append 32 xs ys (omega (arith, e))
        ∙ ap (λ n. words_of n xs) (sym full)

-- The highest bit of a word of 64 bits, and of what `|` makes of two.
top_bit : (w : ℕ) → w < 2 ^ 64 → w / 2 ^ 63 ≡ testbit 63 w
top_bit w h = omega (arith, testbit-shift 63 w, h)

some_top : (d n : ℕ) → 0 < d → d < 2 ^ 64 → n ≡ 2 ^ 64 - d → max (d / 2 ^ 63) (n / 2 ^ 63) ≡ 1
some_top d n pos h e = omega (arith, pos, h, e)

top_set : (d : ℕ) → 0 < d → d < 2 ^ 64 → bit_or d (u64 (2 ^ 64 - d)) / 2 ^ 63 ≡ 1
top_set d pos h =
    let n : ℕ = u64 (2 ^ 64 - d) in
    let small : n < 2 ^ 64 = omega arith in
    let same : n ≡ 2 ^ 64 - d = omega (arith, pos, h) in
    top_bit (bit_or d n) (bit_or-lt 64 d n h small)
    ∙ testbit-bit_or 63 d n
    ∙ ap₂ max (sym (top_bit d h)) (sym (top_bit n small))
    ∙ some_top d n pos h same

-- For a code and an expected code of 64 bits, the check succeeds exactly when they are equal.
pub umac_verify_iff :
    (key : UmacKey) (msg : List ℕ) (expected : ℕ)
    → bit_xor (umac key msg) expected < 2 ^ 64
    → (umac_verify key msg expected ≡ ok tt) ↔ (umac key msg ≡ expected)
unfolding umac_verify
umac_verify_iff key msg expected h = elim (dec_lt 0 (bit_xor (umac key msg) expected)) [
  | yes pos ↦
      let t = top_set (bit_xor (umac key msg) expected) pos h in
      rw t (
        (λ e. absurd (ground (arith, e))),
        (λ e. absurd (omega (arith, pos, (bit_xor-zero_iff (umac key msg) expected).1 e))),
      )
  | no empty ↦
      let z : bit_xor (umac key msg) expected ≡ 0 = omega (arith, empty) in
      rw z ((λ e. (bit_xor-zero_iff (umac key msg) expected).0 z), (λ e. refl))
]
