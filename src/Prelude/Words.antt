-- ===== src/Prelude/Words.antt =====
-- Machine words: wrap-around and the byte orders.
use Prim.Native.Nat.{ℕ, zero, suc, ◌+◌, ◌*◌, ◌/◌, ◌%◌, ◌^◌, ◌≤◌, ◌<◌}
use mathlib.Core.Path.{◌≡◌, refl, ap, ◌∙◌, sym}
use mathlib.Core.List.{List, [], ◌∷◌, ◌++◌}
use native.Mathlib.Nat.{add-mul-mod_self_right, mod-add-div', pow-suc}
use native.Mathlib.Omega.{arith}
use project_qlinux.Prelude.Lists.{
  length, take, drop, replicate, get_or, length-take, take-append-drop,
}

abbrev pub u16 : ℕ → ℕ
u16 x = x % 2 ^ 16

abbrev pub u32 : ℕ → ℕ
u32 x = x % 2 ^ 32

abbrev pub u64 : ℕ → ℕ
u64 x = x % 2 ^ 64

abbrev pub u128 : ℕ → ℕ
u128 x = x % 2 ^ 128

-- `x.to_le_bytes()` of an n-byte word.
abbrev pub to_le : ℕ → ℕ → List ℕ
to_le zero x = []
to_le (suc n) x = (x % 256) ∷ to_le n (x / 256)

-- `from_le_bytes`.
abbrev pub from_le : List ℕ → ℕ
from_le [] = 0
from_le (b ∷ bs) = b + 256 * from_le bs

-- `x.to_be_bytes()`.
abbrev pub to_be : ℕ → ℕ → List ℕ
to_be zero x = []
to_be (suc n) x = to_be n (x / 256) ++ (x % 256) ∷ []

abbrev from_be_acc : ℕ → List ℕ → ℕ
from_be_acc acc [] = acc
from_be_acc acc (b ∷ bs) = from_be_acc (acc * 256 + b) bs

-- `from_be_bytes`.
abbrev pub from_be : List ℕ → ℕ
from_be bs = from_be_acc 0 bs

abbrev pub IsBytes : List ℕ → Type 0
IsBytes [] = Unit
IsBytes (b ∷ bs) = (b < 256) × IsBytes bs

pub length-to_le : (n x : ℕ) → length (to_le n x) ≡ n
length-to_le zero x = refl
length-to_le (suc n) x = ap suc (length-to_le n (x / 256))

-- The powers of two that bound a word, as numerals.
pub from_le-lt : (bs : List ℕ) → IsBytes bs → from_le bs < 256 ^ length bs
from_le-lt [] h = omega arith
from_le-lt (b ∷ bs) h =
    let ih : from_le bs < 256 ^ length bs = from_le-lt bs h.1 in
    let e : 256 ^ suc (length bs) ≡ 256 * 256 ^ length bs =
      pow-suc 256 (length bs) ∙ (omega arith) in
    omega (arith, h.0)

-- A congruence by an explicit multiple.
pub mod_of_multiple : (m a b k : ℕ) → a + k * m ≡ b → a % m ≡ b % m
mod_of_multiple m a b k e = sym (add-mul-mod_self_right a k m) ∙ ap (λ t. t % m) e

-- Factors may be reduced first.
pub mod-mul_left : (m a b : ℕ) → (a % m * b) % m ≡ (a * b) % m
mod-mul_left m a b =
    mod_of_multiple m (a % m * b) (a * b) (a / m * b)
      (omega (arith, ap (λ (t : ℕ). t * b) (mod-add-div' a m)))

pub IsBytes-append : (xs ys : List ℕ) → IsBytes xs → IsBytes ys → IsBytes (xs ++ ys)
IsBytes-append [] ys h k = k
IsBytes-append (x ∷ xs) ys h k = (h.0, IsBytes-append xs ys h.1 k)

pub IsBytes-take : (n : ℕ) (xs : List ℕ) → IsBytes xs → IsBytes (take n xs)
IsBytes-take zero xs h = tt
IsBytes-take (suc n) [] h = tt
IsBytes-take (suc n) (x ∷ xs) h = (h.0, IsBytes-take n xs h.1)

pub IsBytes-drop : (n : ℕ) (xs : List ℕ) → IsBytes xs → IsBytes (drop n xs)
IsBytes-drop zero xs h = h
IsBytes-drop (suc n) [] h = tt
IsBytes-drop (suc n) (x ∷ xs) h = IsBytes-drop n xs h.1

pub IsBytes-to_le : (n x : ℕ) → IsBytes (to_le n x)
IsBytes-to_le zero x = tt
IsBytes-to_le (suc n) x = (omega arith, IsBytes-to_le n (x / 256))

pub from_le-append :
    (xs ys : List ℕ) → from_le (xs ++ ys) ≡ from_le xs + 256 ^ length xs * from_le ys
from_le-append [] ys = omega arith
from_le-append (x ∷ xs) ys =
    omega (arith, from_le-append xs ys, ap (λ (t : ℕ). t * from_le ys) (pow-suc 256 (length xs)))

pub from_le-zeros : (n : ℕ) → from_le (replicate n 0) ≡ 0
from_le-zeros zero = refl
from_le-zeros (suc n) = omega (arith, from_le-zeros n)

pub IsBytes-parts : (xs ys : List ℕ) → IsBytes (xs ++ ys) → IsBytes xs × IsBytes ys
IsBytes-parts [] ys h = (tt, h)
IsBytes-parts (x ∷ xs) ys h = let r = IsBytes-parts xs ys h.1 in ((h.0, r.0), r.1)

pub get_or-lt : (xs : List ℕ) (i : ℕ) → IsBytes xs → get_or xs i 0 < 256
get_or-lt [] i h = omega arith
get_or-lt (x ∷ xs) zero h = h.0
get_or-lt (x ∷ xs) (suc i) h = get_or-lt xs i h.1

-- A list read in two parts.
pub from_le_parts :
    (n : ℕ) (xs : List ℕ)
    → n ≤ length xs
    → from_le xs ≡ from_le (take n xs) + 256 ^ n * from_le (drop n xs)
from_le_parts n xs h =
    let k : length (take n xs) ≡ n = length-take n xs ∙ (omega arith) in
    ap from_le (sym (take-append-drop n xs))
    ∙ from_le-append (take n xs) (drop n xs)
    ∙ ap (λ m. from_le (take n xs) + 256 ^ m * from_le (drop n xs)) k

pub from_le-to_le : (n x : ℕ) → x < 256 ^ n → from_le (to_le n x) ≡ x
from_le-to_le zero x h = omega arith
from_le-to_le (suc n) x h =
    let e : 256 ^ suc n ≡ 256 * 256 ^ n = pow-suc 256 n ∙ (omega arith) in
    let ih = from_le-to_le n (x / 256) (omega arith) in omega (arith, ih)
