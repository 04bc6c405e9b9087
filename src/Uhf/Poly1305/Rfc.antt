-- ===== src/Uhf/Poly1305/Rfc.antt =====
-- The MAC that RFC 8439 describes, with whole numbers: an independent description of `Poly1305.mac`.
use project_qlinux.Prelude.{
  ℕ, zero, suc, ◌+◌, ◌*◌, ◌%◌, ◌≤◌, ◌<◌, ◌≡◌, refl, sym, ap, ◌∙◌, List, [], ◌∷◌, ◌++◌, arith,
  length, take, drop, append_assoc, take-append, drop-append, take_all, drop_all, length-append,
  ap₂,
}
use project_qlinux.Prelude.Words.{to_le, from_le, u128}
use project_qlinux.Uhf.Poly1305.Residue.{p130}

-- A chunk of at most 16 bytes with a 1 byte behind it, read in little-endian order.
abbrev pub chunk_value : List ℕ → ℕ
chunk_value c = from_le (c ++ 1 ∷ [])

unfoldable pub accumulate : ℕ → ℕ → List (List ℕ) → ℕ
accumulate r acc [] = acc
accumulate r acc (c ∷ cs) = accumulate r ((acc + chunk_value c) * r % p130) cs

-- The message in chunks of 16 bytes; its length is fuel enough.
unfoldable pub chunks : ℕ → List ℕ → List (List ℕ)
chunks zero m = []
chunks (suc fuel) [] = []
chunks (suc fuel) (x ∷ xs) = take 16 (x ∷ xs) ∷ chunks fuel (drop 16 (x ∷ xs))

unfoldable pub residue : ℕ → List ℕ → ℕ
unfolding accumulate chunks
residue r m = accumulate r 0 (chunks (length m) m)

unfoldable pub rfc_mac : ℕ → ℕ → List ℕ → List ℕ
unfolding residue
rfc_mac r s m = to_le 16 (u128 (residue r m + s))

abbrev pub joined : List (List ℕ) → List ℕ
joined [] = []
joined (c ∷ cs) = c ++ joined cs

abbrev pub AllWhole : List (List ℕ) → Type 0
AllWhole [] = Unit
AllWhole (c ∷ cs) = (length c ≡ 16) × AllWhole cs

pub accumulate-append :
    (r acc : ℕ) (cs ds : List (List ℕ))
    → accumulate r acc (cs ++ ds) ≡ accumulate r (accumulate r acc cs) ds
unfolding accumulate
accumulate-append r acc [] ds = refl
accumulate-append r acc (c ∷ cs) ds = accumulate-append r ((acc + chunk_value c) * r % p130) cs ds

pub accumulate_one :
    (r : ℕ) (cs : List (List ℕ)) (d : List ℕ)
    → accumulate r 0 (cs ++ d ∷ []) ≡ (accumulate r 0 cs + chunk_value d) * r % p130
unfolding accumulate
accumulate_one r cs d = accumulate-append r 0 cs (d ∷ [])

pub accumulate_none : (r : ℕ) → 0 ≡ accumulate r 0 []
unfolding accumulate
accumulate_none r = refl

pub joined-append : (cs ds : List (List ℕ)) → joined (cs ++ ds) ≡ joined cs ++ joined ds
joined-append [] ds = refl
joined-append (c ∷ cs) ds =
    ap (λ t. c ++ t) (joined-append cs ds) ∙ sym (append_assoc c (joined cs) (joined ds))

pub AllWhole-append : (cs ds : List (List ℕ)) → AllWhole cs → AllWhole ds → AllWhole (cs ++ ds)
AllWhole-append [] ds a b = b
AllWhole-append (c ∷ cs) ds a b = (a.0, AllWhole-append cs ds a.1 b)

-- The chunk that is left over, if any.
abbrev pub last_chunk : List ℕ → List (List ℕ)
last_chunk [] = []
last_chunk (x ∷ xs) = (x ∷ xs) ∷ []

chunks-nil : (fuel : ℕ) → chunks fuel [] ≡ []
unfolding chunks
chunks-nil zero = refl
chunks-nil (suc fuel) = refl

-- Whole chunks and a shorter rest are the chunks of their concatenation.
pub chunks-joined :
    (fuel : ℕ) (cs : List (List ℕ)) (rest : List ℕ)
    → AllWhole cs
    → length rest < 16
    → length (joined cs ++ rest) ≤ fuel
    → chunks fuel (joined cs ++ rest) ≡ cs ++ last_chunk rest
unfolding chunks
chunks-joined zero [] [] w h f = refl
chunks-joined (suc fuel) [] [] w h f = refl
chunks-joined zero [] (x ∷ xs) w h f = absurd (omega arith)
chunks-joined (suc fuel) [] (x ∷ xs) w h f =
    ap₂ (λ s t. (x ∷ s) ∷ t) (take_all 15 xs (omega arith))
      (ap (chunks fuel) (drop_all 15 xs (omega arith)) ∙ chunks-nil fuel)
chunks-joined fuel ([] ∷ cs) rest w h f = absurd (omega (arith, w.0))
chunks-joined zero ((x ∷ c) ∷ cs) rest w h f = absurd (omega arith)
chunks-joined (suc fuel) ((x ∷ c) ∷ cs) rest w h f =
    let all : List ℕ = joined cs ++ rest in
    let e : (c ++ joined cs) ++ rest ≡ c ++ all = append_assoc c (joined cs) rest in
    let k : length (c ++ all) ≡ length c + length all = length-append c all in
    rw (e, take-append 15 c all (omega (arith, w.0)), drop-append 15 c all (omega (arith, w.0)))
      (ap (λ t. (x ∷ c) ∷ t) (chunks-joined fuel cs rest w.1 h (omega (arith, ap length e, w.0))))

pub residue_lem :
    (r : ℕ) (cs : List (List ℕ)) (rest : List ℕ)
    → AllWhole cs
    → length rest < 16
    → residue r (joined cs ++ rest) ≡ accumulate r 0 (cs ++ last_chunk rest)
unfolding residue
residue_lem r cs rest w h = ap (accumulate r 0) (chunks-joined _ cs rest w h (omega arith))

pub rfc_mac_lem : (r s : ℕ) (m : List ℕ) → rfc_mac r s m ≡ to_le 16 (u128 (residue r m + s))
unfolding rfc_mac
rfc_mac_lem r s m = refl
