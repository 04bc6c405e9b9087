-- ===== src/Prelude/Ring.antt =====
-- Arrays used as rings: reading round the end, and writing a run of items round the end.
use Prim.Native.Nat.{ℕ, zero, suc, ◌+◌, ◌-◌, ◌%◌, ◌≤◌, ◌<◌}
use mathlib.Core.Path.{◌≡◌, refl, ◌∙◌, ap, ap₂, sym}
use mathlib.Core.Logic.{◌≢◌}
use mathlib.Core.List.{List, [], ◌∷◌, ◌++◌, append-nil}
use native.Mathlib.Nat.{mod-add-mod, mod-eq_of_lt, mod-eq-sub-mod}
use native.Mathlib.Decide.{dec_lt}
use native.Mathlib.Omega.{arith}
use project_qlinux.Prelude.Lists.{length, get_or, set, take, drop, replicate, length-set}
use project_qlinux.Prelude.Lists.{get_or-set_self, get_or-set_ne, take-append, drop-append}

-- `k < size` steps on from `h` do not come back to `h`.
step_ne : (size h k : ℕ) → h < size → suc k < size → (h + suc k) % size ≢ h
step_ne size h k hh hk = elim (dec_lt (h + suc k) size) [
  | yes p ↦ omega (arith, mod-eq_of_lt p)
  | no p ↦ omega (
    arith,
    mod-eq-sub-mod {n = h + suc k} {m = size} (omega arith),
    mod-eq_of_lt {n = h + suc k - size} {m = size} (omega arith),
  )
]

pub step-add : (size h n : ℕ) → ((h + 1) % size + n) % size ≡ (h + suc n) % size
step-add size h n = rw mod-add-mod (ap (λ t. t % size) (omega arith))

pub add-add_mod : (size h m n : ℕ) → ((h + m) % size + n) % size ≡ (h + (m + n)) % size
add-add_mod size h m n = rw mod-add-mod (ap (λ t. t % size) (omega arith))

pub mod-lt_pos : (size h k : ℕ) → h < size → k % size < size
mod-lt_pos size h k p = grind arith

module _ {ℓ} {A : Type ℓ} where
  -- The `n` items from index `h` on, going round at `size`; `d` stands for a read out of range.
  abbrev pub window : List A → ℕ → A → ℕ → ℕ → List A
  window buf size d h zero = []
  window buf size d h (suc n) = get_or buf h d ∷ window buf size d ((h + 1) % size) n

  -- `for x in xs { buf[w] = x; w = (w + 1) % size; }`
  unfoldable pub store : ℕ → List A → ℕ → List A → List A
  store size buf w [] = buf
  store size buf w (x ∷ xs) = store size (set buf w x) ((w + 1) % size) xs

  pub length-store :
      (size : ℕ) (buf : List A) (w : ℕ) (xs : List A) → length (store size buf w xs) ≡ length buf
  unfolding store
  length-store size buf w [] = refl
  length-store size buf w (x ∷ xs) =
      length-store size (set buf w x) ((w + 1) % size) xs ∙ length-set buf w x

  pub length-window :
      (buf : List A) (size : ℕ) (d : A) (h n : ℕ) → length (window buf size d h n) ≡ n
  length-window buf size d h zero = refl
  length-window buf size d h (suc n) = ap suc (length-window buf size d ((h + 1) % size) n)

  pub window-append :
      (buf : List A) (size : ℕ) (d : A) (h n m : ℕ)
      → h < size
      → window buf size d h (n + m) ≡ window buf size d h n ++ window buf size d ((h + n) % size) m
  window-append buf size d h zero m p =
      let e : 0 + m ≡ m = omega arith in
      let f : (h + 0) % size ≡ h = ap (λ k. k % size) (omega arith) ∙ mod-eq_of_lt p in rw (e, f)
  window-append buf size d h (suc n) m p =
      let e : suc n + m ≡ suc (n + m) = omega arith in
      rw (e, ← step-add size h n)
        (ap (λ t. get_or buf h d ∷ t)
          (window-append buf size d ((h + 1) % size) n m (mod-lt_pos size h (h + 1) p)))

  -- A write outside a window does not change it.
  window-set_ne :
      (buf : List A) (size : ℕ) (d : A) (w k m start : ℕ) (x : A)
      → w < size
      → suc k + m ≤ size
      → start ≡ (w + suc k) % size
      → window (set buf w x) size d start m ≡ window buf size d start m
  window-set_ne buf size d w k zero start x p q e = refl
  window-set_ne buf size d w k (suc m) start x p q e =
      ap₂ ◌∷◌
        (get_or-set_ne buf w start x d (λ f. step_ne size w k p (omega arith) (sym e ∙ sym f)))
        (window-set_ne buf size d w (suc k) m ((start + 1) % size) x p (omega arith) next)
    where
      next : (start + 1) % size ≡ (w + suc (suc k)) % size
      next = rw (e, add-add_mod size w (suc k) 1) (ap (λ t. t % size) (omega arith))

  -- A run of writes leaves the index before it alone.
  get_or-store :
      (xs : List A) (buf : List A) (size : ℕ) (d : A) (h k w : ℕ)
      → h < size
      → suc k + length xs ≤ size
      → w ≡ (h + suc k) % size
      → get_or (store size buf w xs) h d ≡ get_or buf h d
  unfolding store
  get_or-store [] buf size d h k w p q e = refl
  get_or-store (x ∷ xs) buf size d h k w p q e =
      get_or-store xs (set buf w x) size d h (suc k) ((w + 1) % size) p (omega arith) next
      ∙ get_or-set_ne buf w h x d (λ f. step_ne size h k p (omega arith) (sym e ∙ f))
    where
      next : (w + 1) % size ≡ (h + suc (suc k)) % size
      next = rw (e, add-add_mod size h (suc k) 1) (ap (λ t. t % size) (omega arith))

  -- A run of writes shows from its start, and what comes after it is unchanged.
  pub window-store_start :
      (xs : List A) (buf : List A) (size : ℕ) (d : A) (w m : ℕ)
      → size ≤ length buf
      → w < size
      → length xs + m ≤ size
      → window (store size buf w xs) size d w (length xs + m)
        ≡ xs ++ window buf size d ((w + length xs) % size) m
  unfolding store
  window-store_start [] buf size d w m c p q =
      let e : 0 + m ≡ m = omega arith in
      let f : (w + 0) % size ≡ w = ap (λ k. k % size) (omega arith) ∙ mod-eq_of_lt p in rw (e, f)
  window-store_start (x ∷ xs) buf size d w m c p q =
      let e : suc (length xs) + m ≡ suc (length xs + m) = omega arith in
      let w' : ℕ = (w + 1) % size in
      rw e (
        ap₂ ◌∷◌
          (get_or-store xs (set buf w x) size d w 0 w' p (omega arith) refl
            ∙ get_or-set_self buf w x d (omega arith))
          (window-store_start xs (set buf w x) size d w' m (rw (length-set buf w x) c)
              (mod-lt_pos size w (w + 1) p) (omega arith)
            ∙ ap (λ t. xs ++ t)
                (window-set_ne buf size d w (length xs) m ((w' + length xs) % size) x p
                    (omega arith) (step-add size w (length xs))
                  ∙ ap (λ t. window buf size d t m) (step-add size w (length xs)))))

  -- A run of writes just past a window extends it.
  pub window-store_end :
      (xs : List A) (buf : List A) (size : ℕ) (d : A) (n h w : ℕ)
      → size ≤ length buf
      → h < size
      → n + length xs ≤ size
      → w ≡ (h + n) % size
      → window (store size buf w xs) size d h (n + length xs) ≡ window buf size d h n ++ xs
  window-store_end xs buf size d zero h w c p q e =
      let f : w ≡ h = e ∙ (ap (λ k. k % size) (omega arith) ∙ mod-eq_of_lt p) in
      let g : 0 + length xs ≡ length xs + 0 = omega arith in
      rw (f, g) (window-store_start xs buf size d h 0 c p (omega arith) ∙ append-nil xs)
  window-store_end xs buf size d (suc n) h w c p q e =
      let f : suc n + length xs ≡ suc (n + length xs) = omega arith in
      rw f (
        ap₂ ◌∷◌ (get_or-store xs buf size d h n w p (omega arith) e) (
          window-store_end xs buf size d n ((h + 1) % size) w c (mod-lt_pos size h (h + 1) p)
            (omega arith) (e ∙ sym (step-add size h n))))

  pub replicate-append : (n k : ℕ) (x : A) → replicate n x ++ replicate k x ≡ replicate (n + k) x
  replicate-append zero k x = ap (λ t. replicate t x) (omega arith)
  replicate-append (suc n) k x =
      let e : suc n + k ≡ suc (n + k) = omega arith in
      rw e (ap (λ t. x ∷ t) (replicate-append n k x))

  -- Past a run of writes nothing changes.
  pub window-store_after :
      (xs : List A) (buf : List A) (size : ℕ) (d : A) (w m start : ℕ)
      → size ≤ length buf
      → w < size
      → length xs + m ≤ size
      → start ≡ (w + length xs) % size
      → window (store size buf w xs) size d start m ≡ window buf size d start m
  window-store_after xs buf size d w m start c p q e =
      let whole = window-append (store size buf w xs) size d w (length xs) m p in
      let run = window-store_start xs buf size d w m c p q in
      let first = window (store size buf w xs) size d w (length xs) in
      rw e (
        sym (drop-append (length xs) first _ (sym (length-window _ size d w (length xs))))
        ∙ (ap (drop (length xs)) (sym whole ∙ run) ∙ drop-append (length xs) xs _ refl))

  -- Dropping items from a window moves its start.
  pub drop-window :
      (buf : List A) (size : ℕ) (d : A) (h n m : ℕ)
      → h < size
      → drop n (window buf size d h (n + m)) ≡ window buf size d ((h + n) % size) m
  drop-window buf size d h n m p =
      ap (drop n) (window-append buf size d h n m p)
      ∙ drop-append n (window buf size d h n) _ (sym (length-window buf size d h n))

  pub take-window :
      (buf : List A) (size : ℕ) (d : A) (h n m : ℕ)
      → h < size
      → take n (window buf size d h (n + m)) ≡ window buf size d h n
  take-window buf size d h n m p =
      ap (take n) (window-append buf size d h n m p)
      ∙ take-append n (window buf size d h n) _ (sym (length-window buf size d h n))

  get_or-replicate : (n i : ℕ) (x : A) → get_or (replicate n x) i x ≡ x
  get_or-replicate zero i x = refl
  get_or-replicate (suc n) zero x = refl
  get_or-replicate (suc n) (suc i) x = get_or-replicate n i x

  -- A ring of one repeated item looks the same from everywhere.
  pub window-replicate :
      (k size h n : ℕ) (x : A) → window (replicate k x) size x h n ≡ replicate n x
  window-replicate k size h zero x = refl
  window-replicate k size h (suc n) x =
      ap₂ ◌∷◌ (get_or-replicate k h x) (window-replicate k size ((h + 1) % size) n x)
