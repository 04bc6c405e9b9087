-- ===== src/Memory/Frames.antt =====
-- kernel/memory/src/lib.rs: the bitmap of FrameAllocator as a set of frames in use, and its scan.
pub mod Use
use project_qlinux.Prelude.{
  ℕ, zero, suc, ◌+◌, ◌-◌, ◌*◌, ◌/◌, ◌%◌, ◌^◌, ◌≤◌, ◌<◌, ◌≡◌, ◌≢◌, refl, sym, ap, ◌∙◌, subst, Bool,
  true, false, Bool-cases, inl, inr, Option, none, some, Option-cases, List, [], ◌∷◌, arith, leb,
  ◌==◌, if◌then◌else◌, length, length-replicate, replicate, get_or, set, length-set,
  get_or-set_self, get_or-set_ne, bit_or, bit_and, Result, ok, err, ==_iff,
}
use native.Mathlib.Nat.{pow-suc}
use native.Mathlib.Decide.{ℕ_discrete, dec_lt}
use project_qlinux.Prelude.Testbit.{
  testbit, testbit-zero, testbit-lt, testbit-set_self, testbit-set_ne, testbit-clear_self,
  testbit-clear_ne, all_ones, all_but, bit_and_pow-zero_iff,
}
use project_qlinux.Memory.{
  FrameAllocator, AllocError, max_frames, bitmap_words, page_size, word, trailing_ones, find_free,
  allocated, alloc_frame, new_frames, out_of_memory,
}

-- 1 if frame `i` is in use.
abbrev pub used : FrameAllocator → ℕ → ℕ
used f i = testbit (i % 64) (word f (i / 64))

pub record IsValid (f : FrameAllocator) : Type 0 where
  pub storage : length f.bitmap ≡ bitmap_words
  pub small : (i : ℕ) → word f i < 2 ^ 64
  pub total_in : f.total ≤ max_frames

-- The lowest zero digit of a word that is not all ones, with ones below it.
trailing_ones_lem :
    (n w : ℕ)
    → w < 2 ^ n
    → w ≢ 2 ^ n - 1
    → (trailing_ones n w < n)
      × (testbit (trailing_ones n w) w ≡ 0)
      × ((j : ℕ) → j < trailing_ones n w → testbit j w ≡ 1)
unfolding trailing_ones
trailing_ones_lem zero w h ne = absurd (ne (omega arith))
trailing_ones_lem (suc n) w h ne = elim (Bool-cases (w % 2 == 1)) [
  | inl odd ↦
      let o : w % 2 ≡ 1 = (==_iff (w % 2) 1).0 odd in
      let p = pow-suc 2 n in
      let ih = trailing_ones_lem n (w / 2) (omega arith) (λ e. ne (omega arith)) in
      let step : trailing_ones n (w / 2) + 1 ≡ suc (trailing_ones n (w / 2)) = omega arith in
      rw (odd, step) (omega (arith, ih.0), ih.1, λ j less. below j o (λ i q. ih.2 i q) less)
  | inr even ↦
      let o : w % 2 ≢ 1 = λ e. false_ne (sym even ∙ (==_iff (w % 2) 1).1 e) in
      rw even (omega arith, omega (arith, o), λ j less. absurd (omega arith))
]
  where
    false_ne : false ≢ true
    false_ne e = cc

    below :
        (j : ℕ)
        → w % 2 ≡ 1
        → ((i : ℕ) → i < trailing_ones n (w / 2) → testbit i (w / 2) ≡ 1)
        → j < suc (trailing_ones n (w / 2))
        → testbit j w ≡ 1
    below zero o low less = o
    below (suc j) o low less = low j (omega arith)

pub AllSmall : List ℕ → Type 0
AllSmall ws = (i : ℕ) → get_or ws i 0 < 2 ^ 64

-- Digit `r` of word `q` is 1 wherever `before` holds.
abbrev Full : (ℕ → ℕ → Type 0) → List ℕ → Type 0
Full before ws = (q r : ℕ) → r < 64 → q < length ws → before q r → testbit r (get_or ws q 0) ≡ 1

full_word : (r : ℕ) → r < 64 → testbit r (2 ^ 64 - 1) ≡ 1
full_word r h = all_ones r 64 h

-- What the scan finds: a free frame below the total, with all frames before it in use. If it finds
-- none, all frames below the total are in use.
pub Found : ℕ → ℕ → List ℕ → Option (ℕ × ℕ) → Type 0
Found total wi ws none = Full (λ q r. (wi + q) * 64 + r < total) ws
Found total wi ws (some (k, b)) =
    (i : ℕ) × (k ≡ wi + i)
    × (i < length ws)
    × (b < 64)
    × (k * 64 + b < total)
    × (testbit b (get_or ws i 0) ≡ 0)
    × Full (λ q r. q * 64 + r < i * 64 + b) ws

module _ (total : ℕ) where
  skip_full :
      (wi w : ℕ) (ws : List ℕ) (o : Option (ℕ × ℕ))
      → w ≡ 2 ^ 64 - 1
      → Found total (wi + 1) ws o
      → Found total wi (w ∷ ws) o
  unfolding Found
  skip_full wi w ws none e f = all
    where
      all : Full (λ q r. (wi + q) * 64 + r < total) (w ∷ ws)
      all zero r h k b = ap (testbit r) e ∙ full_word r h
      all (suc q) r h k b = f q r h (omega arith) (omega arith)
  skip_full wi w ws (some (k, b)) e (i, at_i, inside, small, low, clear, full) =
      (suc i, omega arith, omega arith, small, low, clear, all)
    where
      all : Full (λ q r. q * 64 + r < suc i * 64 + b) (w ∷ ws)
      all zero r h k b = ap (testbit r) e ∙ full_word r h
      all (suc q) r h k b = full q r h (omega arith) (omega arith)

  pub find_free-Found :
      (ws : List ℕ) (wi : ℕ) → AllSmall ws → Found total wi ws (find_free total wi ws)
  unfolding Found find_free AllSmall
  find_free-Found [] wi small = λ q r h k b. absurd (omega arith)
  find_free-Found (w ∷ ws) wi small = elim (Bool-cases (w == 2 ^ 64 - 1)) [
    | inl e ↦ rw e (
        skip_full wi w ws (find_free total (wi + 1) ws) ((==_iff w (2 ^ 64 - 1)).0 e)
          (find_free-Found ws (wi + 1) (λ i. small (suc i))))
    | inr ne ↦
        let t =
          trailing_ones_lem 64 w (small 0) (λ e. false_ne (sym ne ∙ (==_iff w (2 ^ 64 - 1)).1 e)) in
        elim (Bool-cases (leb total (wi * 64 + trailing_ones 64 w))) [
          | inl out ↦ rw (ne, out) (ends t.0 t.2 out)
          | inr inside ↦
              rw (ne, inside)
                (0, omega arith, omega arith, t.0, ground (arith, inside), t.1, low t.2 t.0)
        ]
  ]
    where
      false_ne : false ≢ true
      false_ne e = cc

      low :
          ((j : ℕ) → j < trailing_ones 64 w → testbit j w ≡ 1)
          → trailing_ones 64 w < 64
          → Full (λ q r. q * 64 + r < 0 * 64 + trailing_ones 64 w) (w ∷ ws)
      low ones lt zero r h k b = ones r (omega arith)
      low ones lt (suc q) r h k b = absurd (omega arith)

      ends :
          trailing_ones 64 w < 64
          → ((j : ℕ) → j < trailing_ones 64 w → testbit j w ≡ 1)
          → leb total (wi * 64 + trailing_ones 64 w) ≡ true
          → Full (λ q r. (wi + q) * 64 + r < total) (w ∷ ws)
      ends lt ones out zero r h k b = ones r (ground (arith, out))
      ends lt ones out (suc q) r h k b = absurd (ground (arith, out))

-- A new allocator has no frame in use.
get_or-zeros : (n i : ℕ) → get_or {A = ℕ} (replicate n 0) i 0 ≡ 0
get_or-zeros zero i = refl
get_or-zeros (suc n) zero = refl
get_or-zeros (suc n) (suc i) = get_or-zeros n i

pub new_frames-used : (base total i : ℕ) → used (new_frames base total) i ≡ 0
unfolding new_frames
new_frames-used base total i =
    ap (testbit (i % 64)) (get_or-zeros bitmap_words (i / 64)) ∙ testbit-zero (i % 64)

pub new_frames-IsValid : (base total : ℕ) → total ≤ max_frames → IsValid (new_frames base total)
unfolding new_frames
new_frames-IsValid base total h = record {
  storage = length-replicate {A = ℕ} bitmap_words 0;
  small = λ i. omega (arith, get_or-zeros bitmap_words i);
  total_in = h;
}
