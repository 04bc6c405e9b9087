-- ===== src/KeyPool/Once.antt =====
-- key_pool/src/lib.rs: the ids of the blocks of a pool, and which of them are spent.
use project_qlinux.Prelude.{
  ℕ, zero, suc, ◌+◌, ◌≤◌, ◌<◌, ◌≡◌, ◌≢◌, List, [], ◌∷◌, ◌++◌, arith, length, set,
}
use project_qlinux.KeyPool.{available, in_use, KeyBlock, block_at, emptied, remove}

-- The ids rise along the list, from `lo` on, and stay below `hi`.
unfoldable pub Rising : ℕ → ℕ → List KeyBlock → Type 0
Rising lo hi [] = lo ≤ hi
Rising lo hi (b ∷ bs) = (lo ≤ b.id) × Rising (b.id + 1) hi bs

-- No block with this id is available.
unfoldable pub Spent : ℕ → List KeyBlock → Type 0
Spent n [] = Unit
Spent n (b ∷ bs) = (b.state ≡ available → b.id ≢ n) × Spent n bs

-- Every id of the list is below `hi`, spent, and not in the list a second time.
unfoldable pub Fresh : ℕ → List ℕ → Type 0
Fresh n [] = Unit
Fresh n (m ∷ ms) = (n ≢ m) × Fresh n ms

unfoldable pub Distinct : List ℕ → Type 0
Distinct [] = Unit
Distinct (n ∷ ns) = Fresh n ns × Distinct ns

unfoldable pub AllSpent : ℕ → List KeyBlock → List ℕ → Type 0
AllSpent hi blocks [] = Unit
AllSpent hi blocks (n ∷ ns) = (n < hi) × Spent n blocks × AllSpent hi blocks ns

pub Rising-le : (lo hi : ℕ) (bs : List KeyBlock) → Rising lo hi bs → lo ≤ hi
unfolding Rising
Rising-le lo hi [] r = r
Rising-le lo hi (b ∷ bs) (le, r) = omega (arith, le, Rising-le (b.id + 1) hi bs r)

Rising-above : (lo hi n : ℕ) (bs : List KeyBlock) → Rising lo hi bs → n < lo → Spent n bs
unfolding Rising Spent
Rising-above lo hi n [] r h = tt
Rising-above lo hi n (b ∷ bs) (le, r) h =
    ((λ a e. absurd (omega arith)), Rising-above (b.id + 1) hi n bs r (omega arith))

Rising-weaker : (lo lo' hi : ℕ) (bs : List KeyBlock) → lo' ≤ lo → Rising lo hi bs → Rising lo' hi bs
unfolding Rising
Rising-weaker lo lo' hi [] h r = omega arith
Rising-weaker lo lo' hi (b ∷ bs) h (le, r) = (omega arith, r)

pub Rising-set :
    (lo hi : ℕ) (bs : List KeyBlock) (i : ℕ)
    → Rising lo hi bs
    → Rising lo hi (set bs i (emptied (block_at bs i)))
unfolding Rising
Rising-set lo hi [] i r = r
Rising-set lo hi (b ∷ bs) zero (le, r) = (le, r)
Rising-set lo hi (b ∷ bs) (suc i) (le, r) = (le, Rising-set (b.id + 1) hi bs i r)

pub Rising-remove :
    (lo hi : ℕ) (bs : List KeyBlock) (i : ℕ) → Rising lo hi bs → Rising lo hi (remove bs i)
unfolding Rising
Rising-remove lo hi [] i r = r
Rising-remove lo hi (b ∷ bs) zero (le, r) = Rising-weaker (b.id + 1) lo hi bs (omega arith) r
Rising-remove lo hi (b ∷ bs) (suc i) (le, r) = (le, Rising-remove (b.id + 1) hi bs i r)

pub Rising-append :
    (lo hi : ℕ) (bs : List KeyBlock) (b : KeyBlock)
    → b.id ≡ hi
    → Rising lo hi bs
    → Rising lo (hi + 1) (bs ++ (b ∷ []))
unfolding Rising
Rising-append lo hi [] b e r = (omega arith, omega arith)
Rising-append lo hi (x ∷ bs) b e (le, r) = (le, Rising-append (x.id + 1) hi bs b e r)

not_available : in_use ≢ available
not_available e = absurd (ground arith)

-- The block taken is spent afterwards; what was spent stays so.
pub Spent-set_self :
    (lo hi : ℕ) (bs : List KeyBlock) (i : ℕ)
    → Rising lo hi bs
    → i < length bs
    → Spent (block_at bs i).id (set bs i (emptied (block_at bs i)))
unfolding Rising Spent
Spent-set_self lo hi [] i r h = absurd (omega arith)
Spent-set_self lo hi (b ∷ bs) zero (le, r) h =
    ((λ a. absurd (not_available a)), Rising-above (b.id + 1) hi b.id bs r (omega arith))
Spent-set_self lo hi (b ∷ bs) (suc i) (le, r) h = (
  (λ a e. below (b.id + 1) bs i r (omega arith) (omega arith)),
  Spent-set_self (b.id + 1) hi bs i r (omega arith),
)
  where
    below :
        (lo : ℕ) (bs : List KeyBlock) (i : ℕ)
        → Rising lo hi bs
        → i < length bs
        → (block_at bs i).id < lo
        → ⊥
    below lo [] i r h lt = absurd (omega arith)
    below lo (b ∷ bs) zero (le, r) h lt = omega arith
    below lo (b ∷ bs) (suc i) (le, r) h lt = below (b.id + 1) bs i r (omega arith) (omega arith)

module _ (n : ℕ) where
  pub Spent-set :
      (bs : List KeyBlock) (i : ℕ) → Spent n bs → Spent n (set bs i (emptied (block_at bs i)))
  unfolding Spent
  Spent-set [] i s = tt
  Spent-set (b ∷ bs) zero (here, s) = ((λ a. absurd (not_available a)), s)
  Spent-set (b ∷ bs) (suc i) (here, s) = (here, Spent-set bs i s)

  pub Spent-remove : (bs : List KeyBlock) (i : ℕ) → Spent n bs → Spent n (remove bs i)
  unfolding Spent
  Spent-remove [] i s = tt
  Spent-remove (b ∷ bs) zero (here, s) = s
  Spent-remove (b ∷ bs) (suc i) (here, s) = (here, Spent-remove bs i s)

  pub Spent-append :
      (bs : List KeyBlock) (b : KeyBlock) → b.id ≢ n → Spent n bs → Spent n (bs ++ (b ∷ []))
  unfolding Spent
  Spent-append [] b ne s = ((λ a. ne), tt)
  Spent-append (x ∷ bs) b ne (here, s) = (here, Spent-append bs b ne s)

  -- A spent id is not that of an available block.
  pub Spent-ne :
      (bs : List KeyBlock) (i : ℕ)
      → Spent n bs
      → i < length bs
      → (block_at bs i).state ≡ available
      → (block_at bs i).id ≢ n
  unfolding Spent
  Spent-ne [] i s h a = absurd (omega arith)
  Spent-ne (b ∷ bs) zero (here, s) h a = here a
  Spent-ne (b ∷ bs) (suc i) (here, s) h a = Spent-ne bs i s (omega arith) a
