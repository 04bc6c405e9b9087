-- ===== src/Uhf/Poly1305/Clamp.antt =====
-- The key of RFC 8439 as two numbers, and `clamp` against the mask that the RFC puts on the first.
use project_qlinux.Prelude.{
  ℕ, zero, suc, ◌+◌, ◌*◌, ◌^◌, ◌≤◌, ◌<◌, ◌≡◌, refl, sym, ap, ◌∙◌, List, [], ◌∷◌, arith, length,
  take, drop, bit_and, get_or,
}
use project_qlinux.Prelude.Bits.{bit_and-le}
use project_qlinux.Prelude.Digits.{low_digits, bit_and_parts}
use project_qlinux.Prelude.Words.{from_le, IsBytes, IsBytes-take, get_or-lt}
use project_qlinux.Uhf.Poly1305.{clamp}

-- `r` is the first half of the key, as a number, under the mask that RFC 8439 2.5 gives.
abbrev pub clamped_r : List ℕ → ℕ
clamped_r raw = bit_and (from_le (take 16 raw)) 0x0ffffffc0ffffffc0ffffffc0fffffff

-- `s` is the second half.
abbrev pub pad_s : List ℕ → ℕ
pad_s raw = from_le (drop 16 raw)

-- The mask's bytes.
abbrev masks : List ℕ
masks =
    0xff ∷ 0xff ∷ 0xff ∷ 0x0f ∷ 0xfc ∷ 0xff ∷ 0xff ∷ 0x0f ∷ 0xfc ∷ 0xff ∷ 0xff ∷ 0x0f ∷ 0xfc ∷ 0xff
    ∷ 0xff ∷ 0x0f ∷ []

-- Byte by byte with a mask.
abbrev zip_and : List ℕ → List ℕ → List ℕ
zip_and [] ms = []
zip_and (x ∷ xs) [] = []
zip_and (x ∷ xs) (m ∷ ms) = bit_and x m ∷ zip_and xs ms

from_le-zip_and :
    (xs ms : List ℕ)
    → IsBytes xs
    → IsBytes ms
    → length xs ≡ length ms
    → from_le (zip_and xs ms) ≡ bit_and (from_le xs) (from_le ms)
from_le-zip_and [] [] hx hm e = refl
from_le-zip_and [] (m ∷ ms) hx hm e = absurd (omega arith)
from_le-zip_and (x ∷ xs) [] hx hm e = absurd (omega arith)
from_le-zip_and (x ∷ xs) (m ∷ ms) hx hm e =
    let ih = from_le-zip_and xs ms hx.1 hm.1 (omega arith) in
    let parts = bit_and_parts 8 x m (from_le xs) (from_le ms) hx.0 hm.0 in
    omega (
      arith,
      ih,
      parts,
      ap (λ a. bit_and a (m + from_le ms * 2 ^ 8)) {x = x + from_le xs * 2 ^ 8}
          {y = from_le (x ∷ xs)} (omega arith),
      ap (bit_and (from_le (x ∷ xs))) {x = m + from_le ms * 2 ^ 8} {y = from_le (m ∷ ms)}
          (omega arith),
    )

-- `n` bytes from `i` on, by their indices.
abbrev bytes_at : List ℕ → ℕ → ℕ → List ℕ
bytes_at raw i zero = []
bytes_at raw i (suc n) = get_or raw i 0 ∷ bytes_at raw (suc i) n

bytes_at-tail : (x : ℕ) (raw : List ℕ) (i n : ℕ) → bytes_at (x ∷ raw) (suc i) n ≡ bytes_at raw i n
bytes_at-tail x raw i zero = refl
bytes_at-tail x raw i (suc n) = ap (λ t. get_or raw i 0 ∷ t) (bytes_at-tail x raw (suc i) n)

bytes_at_lem : (raw : List ℕ) (n : ℕ) → n ≤ length raw → bytes_at raw 0 n ≡ take n raw
bytes_at_lem raw zero h = refl
bytes_at_lem [] (suc n) h = absurd (omega arith)
bytes_at_lem (x ∷ raw) (suc n) h =
    ap (λ t. x ∷ t) (bytes_at-tail x raw 0 n ∙ bytes_at_lem raw n (omega arith))

-- The mask 0xff keeps a byte.
whole_byte : (raw : List ℕ) (i : ℕ) → IsBytes raw → bit_and (get_or raw i 0) 0xff ≡ get_or raw i 0
whole_byte raw i b = low_digits 8 (get_or raw i 0) ∙ (omega (arith, get_or-lt raw i b))

clamp-zip_and : (raw : List ℕ) → IsBytes raw → clamp raw ≡ zip_and (bytes_at raw 0 16) masks
unfolding clamp
clamp-zip_and raw b = sym (
    rw
      (
        whole_byte raw 0 b,
        whole_byte raw 1 b,
        whole_byte raw 2 b,
        whole_byte raw 5 b,
        whole_byte raw 6 b,
        whole_byte raw 9 b,
        whole_byte raw 10 b,
        whole_byte raw 13 b,
        whole_byte raw 14 b,
      )
      refl)

-- For a key of 32 bytes, the bytes that clamp leaves are the RFC's number.
pub clamp_lem : (raw : List ℕ) → length raw ≡ 32 → IsBytes raw → from_le (clamp raw) ≡ clamped_r raw
clamp_lem raw n b =
    let size : length (bytes_at raw 0 16) ≡ length masks = refl in
    let e = bytes_at_lem raw 16 (omega arith) in
    ap from_le (clamp-zip_and raw b ∙ ap (λ t. zip_and t masks) e)
    ∙ from_le-zip_and (take 16 raw) masks (IsBytes-take 16 raw b) (omega arith)
        (ap length (sym e) ∙ size)

pub clamped_r-lt : (raw : List ℕ) → clamped_r raw < 2 ^ 128
clamped_r-lt raw =
    omega (arith, bit_and-le (from_le (take 16 raw)) 0x0ffffffc0ffffffc0ffffffc0fffffff)
