-- ===== src/Ksync/Exclusion.antt =====
-- kernel/ksync/src/lib.rs: the number of threads that hold the lock, and its flag.
use project_qlinux.Prelude.{
  ℕ, zero, suc, ◌+◌, ◌≤◌, ◌<◌, ◌≡◌, ◌≢◌, refl, ap, ◌∙◌, Bool, true, false, Bool-cases, inl, inr,
  List, [], ◌∷◌, arith, length, replicate, get_or, set,
}
use native.Mathlib.Decide.{ℕ_discrete}
use project_qlinux.Ksync.{
  Phase, outside, trying, spinning, holding, SpinLock, phase, goes, exchange, look, unlock, Step,
  locking, exchanged, failed, looked, tried, wrote, unlocked, Reached, start, next, new_lock,
}

abbrev weight : Phase → ℕ
weight holding = 1
weight outside = 0
weight trying = 0
weight spinning = 0

-- How many threads hold the lock.
unfoldable pub holders : List Phase → ℕ
holders [] = 0
holders (p ∷ ps) = weight p + holders ps

-- A thread that moves changes the number by its own weight; out of range nothing moves.
holders-set :
    (ps : List Phase) (i : ℕ) (p : Phase)
    → weight (get_or ps i outside) ≡ 0
    → weight p ≡ 0
    → holders (set ps i p) ≡ holders ps
unfolding holders
holders-set [] i p old new = refl
holders-set (q ∷ ps) zero p old new = omega (arith, old, new)
holders-set (q ∷ ps) (suc i) p old new = ap (λ n. weight q + n) (holders-set ps i p old new)

holders-set_in :
    (ps : List Phase) (i : ℕ)
    → i < length ps
    → weight (get_or ps i outside) ≡ 0
    → holders (set ps i holding) ≡ holders ps + 1
unfolding holders
holders-set_in [] i h old = absurd (omega arith)
holders-set_in (q ∷ ps) zero h old = omega (arith, old)
holders-set_in (q ∷ ps) (suc i) h old = omega (arith, holders-set_in ps i (omega arith) old)

holders-set_out :
    (ps : List Phase) (i : ℕ)
    → get_or ps i outside ≡ holding
    → holders (set ps i outside) + 1 ≡ holders ps
unfolding holders
holders-set_out [] i e = absurd (ground (arith, e))
holders-set_out (q ∷ ps) zero e = let w : weight q ≡ 1 = ap weight e in omega (arith, w)
holders-set_out (q ∷ ps) (suc i) e = omega (arith, holders-set_out ps i e)

abbrev as_number : Bool → ℕ
as_number true = 1
as_number false = 0

as_number-le : (b : Bool) → as_number b ≤ 1
as_number-le true = omega arith
as_number-le false = omega arith

as_number-pos : (b : Bool) → 0 < as_number b → b ≡ true
as_number-pos true h = refl
as_number-pos false h = absurd (omega arith)

-- One that holds the lock is counted, and two different ones are counted twice.
holders-pos : (ps : List Phase) (i : ℕ) → get_or ps i outside ≡ holding → 1 ≤ holders ps
unfolding holders
holders-pos [] i e = absurd (ground (arith, e))
holders-pos (q ∷ ps) zero e = let w : weight q ≡ 1 = ap weight e in omega (arith, w)
holders-pos (q ∷ ps) (suc i) e = omega (arith, holders-pos ps i e)

holders-two :
    (ps : List Phase) (i j : ℕ)
    → i ≢ j
    → get_or ps i outside ≡ holding
    → get_or ps j outside ≡ holding
    → 2 ≤ holders ps
unfolding holders
holders-two [] i j ne e f = absurd (ground (arith, e))
holders-two (q ∷ ps) zero zero ne e f = absurd (ne refl)
holders-two (q ∷ ps) zero (suc j) ne e f =
    let w : weight q ≡ 1 = ap weight e in omega (arith, w, holders-pos ps j f)
holders-two (q ∷ ps) (suc i) zero ne e f =
    let w : weight q ≡ 1 = ap weight f in omega (arith, w, holders-pos ps i e)
holders-two (q ∷ ps) (suc i) (suc j) ne e f =
    omega (arith, holders-two ps i j (λ same. ne (ap suc same)) e f)

none_holds : (n : ℕ) → holders (replicate n outside) ≡ 0
unfolding holders
none_holds zero = refl
none_holds (suc n) = omega (arith, none_holds n)

-- The flag tells how many hold the lock.
pub Kept : {T : Type 0} → SpinLock T → Type 0
Kept s = holders s.threads ≡ as_number s.locked

module _ {T : Type 0} where
  moves :
      (s : SpinLock T) (i : ℕ) (p : Phase)
      → Kept s
      → weight (phase s i) ≡ 0
      → weight p ≡ 0
      → Kept (goes s i p)
  unfolding Kept
  moves s i p k old new = holders-set s.threads i p old new ∙ k

  exchange-Kept :
      (s : SpinLock T) (i : ℕ) (p : Phase)
      → Kept s
      → weight (phase s i) ≡ 0
      → weight p ≡ 0
      → i < length s.threads
      → Kept (exchange s i p)
  unfolding Kept exchange
  exchange-Kept s i p k old new h = elim (Bool-cases s.locked) [
    | inl b ↦ rw b (holders-set s.threads i p old new ∙ k ∙ ap as_number b)
    | inr b ↦ rw b (omega (arith, holders-set_in s.threads i h old, k ∙ ap as_number b))
  ]

  Step-Kept : (s t : SpinLock T) → Step s t → Kept s → Kept t
  unfolding Kept look unlock
  Step-Kept _ _ (locking s i e) k = moves s i trying k (ap weight e) refl
  Step-Kept _ _ (exchanged s i e h) k = exchange-Kept s i spinning k (ap weight e) refl h
  Step-Kept _ _ (failed s i e) k = moves s i spinning k (ap weight e) refl
  Step-Kept _ _ (looked s i e) k = elim (Bool-cases s.locked) [
    | inl b ↦ rw b (k ∙ ap as_number b)
    | inr b ↦ rw b (holders-set s.threads i trying (ap weight e) refl ∙ k ∙ ap as_number b)
  ]
  Step-Kept _ _ (tried s i e h) k = exchange-Kept s i outside k (ap weight e) refl h
  Step-Kept _ _ (wrote s i v e) k = k
  Step-Kept _ _ (unlocked s i e) k =
      omega (arith, holders-set_out s.threads i e, k, as_number-le s.locked)

  Reached-Kept : (s t : SpinLock T) → Reached s t → Kept s → Kept t
  Reached-Kept _ _ (start s) k = k
  Reached-Kept _ _ (next s t u r step) k = Step-Kept t u step (Reached-Kept s t r k)

  -- For n threads and any value, however their steps interleave on a new lock, two threads that
  -- hold it are the same thread, and the flag is set while one holds it.
  pub holding_alone :
      (v : T) (n : ℕ) (s : SpinLock T) (i j : ℕ)
      → Reached (new_lock v (replicate n outside)) s
      → phase s i ≡ holding
      → phase s j ≡ holding
      → (i ≡ j) × (s.locked ≡ true)
  unfolding new_lock Kept
  holding_alone v n s i j r e f =
      let k : Kept s = Reached-Kept (new_lock v (replicate n outside)) s r (none_holds n) in
      let one = holders-pos s.threads i e in
      (same k (ℕ_discrete i j), as_number-pos s.locked (omega (arith, k, one)))
    where
      same : Kept s → Dec (i ≡ j) → i ≡ j
      same k (yes eq) = eq
      same k (no ne) =
          absurd (omega (arith, k, as_number-le s.locked, holders-two s.threads i j ne e f))
