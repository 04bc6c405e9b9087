-- ===== src/KeyPool/History.antt =====
-- key_pool/src/lib.rs: histories of a pool, every order of adding, handing out and consuming blocks.
use project_qlinux.Prelude.{
  ℕ, zero, suc, ◌+◌, ◌≤◌, ◌<◌, ◌≡◌, refl, subst, Bool, true, false, Bool-cases, inl, inr, Option,
  none, some, List, [], ◌∷◌, ◌++◌, arith, length, set, leb, ◌==◌, ◌&&◌, position, position-passes,
  Result, ok, err, ltb, ◌^◌,
}
use project_qlinux.KeyPool.{
  KeyState, available, in_use, consumed, key_state_eq, KeyBlock, KeyPoolManager, KeyPoolError,
  add_key_material, acquire, consume, block_at, emptied, usable, remove, hand_out, drop_block,
  sum_available, new_pool,
}
use project_qlinux.KeyPool.Once.{
  Rising, Spent, Fresh, Distinct, AllSpent, Rising-le, Rising-set, Rising-remove, Rising-append,
  Spent-set_self, Spent-set, Spent-remove, Spent-append, Spent-ne,
}

-- The ids handed out, after one more call of `acquire`.
abbrev pub with_id : Result KeyPoolError (ℕ × List ℕ) → List ℕ → List ℕ
with_id (ok (id, key)) ids = id ∷ ids
with_id (err e) ids = ids

-- The pools that calls on a new pool lead to, each with the ids handed out so far.
pub data Reached : KeyPoolManager → List ℕ → Type 0 where
  started :
      (low_water_mark : ℕ) (pool : KeyPoolManager)
      → new_pool low_water_mark ≡ ok pool
      → Reached pool []
  added :
      (pool : KeyPoolManager) (ids : List ℕ) (bytes : List ℕ)
      → Reached pool ids
      → Reached (add_key_material pool bytes).1 ids
  asked :
      (pool : KeyPoolManager) (ids : List ℕ) (needed : ℕ)
      → Reached pool ids
      → Reached (acquire pool needed).1 (with_id (acquire pool needed).0 ids)
  released :
      (pool : KeyPoolManager) (ids : List ℕ) (id : ℕ)
      → Reached pool ids
      → Reached (consume pool id).1 ids

record Inv (pool : KeyPoolManager) (ids : List ℕ) : Type 0 where
  rising : Rising 0 pool.next_id pool.blocks
  spent : AllSpent pool.next_id pool.blocks ids
  distinct : Distinct ids

-- What is spent stays spent under a change of the blocks that makes nothing available.
AllSpent-map :
    (hi hi' : ℕ) (bs bs' : List KeyBlock)
    → hi ≤ hi'
    → ((n : ℕ) → n < hi → Spent n bs → Spent n bs')
    → (ids : List ℕ) → AllSpent hi bs ids
    → AllSpent hi' bs' ids
unfolding AllSpent
AllSpent-map hi hi' bs bs' le f [] a = tt
AllSpent-map hi hi' bs bs' le f (n ∷ ns) (lt, s, a) =
    (omega arith, f n lt s, AllSpent-map hi hi' bs bs' le f ns a)

-- An id that is not spent is not one of them.
AllSpent-Fresh :
    (hi : ℕ) (bs : List KeyBlock) (i : ℕ)
    → i < length bs
    → (block_at bs i).state ≡ available
    → (ids : List ℕ) → AllSpent hi bs ids
    → Fresh (block_at bs i).id ids
unfolding AllSpent Fresh
AllSpent-Fresh hi bs i h e [] a = tt
AllSpent-Fresh hi bs i h e (n ∷ ns) (lt, s, a) =
    (Spent-ne n bs i s h e, AllSpent-Fresh hi bs i h e ns a)

-- The lock has no part in it.
with_lock :
    {pool : KeyPoolManager} {ids : List ℕ} (b : Bool)
    → Inv pool ids
    → Inv (record pool { poisoned = b }) ids
with_lock b v = record { rising = v.rising; spent = v.spent; distinct = v.distinct }

added-Inv :
    (pool : KeyPoolManager) (ids : List ℕ) (bytes : List ℕ)
    → Inv pool ids
    → Inv (add_key_material pool bytes).1 ids
unfolding add_key_material
added-Inv pool ids bytes v = elim (Bool-cases (length bytes == 0)) [
  | inl a ↦ rw a v
  | inr a ↦ elim (Bool-cases pool.poisoned) [
    | inl b ↦ rw (a, b) (with_lock true v)
    | inr b ↦ elim (Bool-cases (ltb (pool.next_id + 1) (2 ^ 64))) [
      | inl c ↦
          rw (a, b, c)
            record {
              rising = Rising-append 0 pool.next_id pool.blocks new refl v.rising;
              spent =
                  AllSpent-map pool.next_id (pool.next_id + 1) pool.blocks
                    (pool.blocks ++ (new ∷ [])) (omega arith)
                    (λ n lt. Spent-append n pool.blocks new (λ e. omega arith)) ids v.spent;
              distinct = v.distinct;
            }
      | inr c ↦ rw (a, b, c) (with_lock true v)
    ]
  ]
]
  where
    new : KeyBlock
    new = record { id = pool.next_id; bytes = bytes; state = available }

below_hi :
    (lo hi : ℕ) (bs : List KeyBlock) (i : ℕ)
    → Rising lo hi bs
    → i < length bs
    → (block_at bs i).id < hi
unfolding Rising
below_hi lo hi [] i r h = absurd (omega arith)
below_hi lo hi (b ∷ bs) zero (le, r) h = omega (arith, Rising-le (b.id + 1) hi bs r)
below_hi lo hi (b ∷ bs) (suc i) (le, r) h = below_hi (b.id + 1) hi bs i r (omega arith)

hand_out-Inv :
    (pool : KeyPoolManager) (ids : List ℕ) (needed : ℕ) (o : Option ℕ)
    → Inv pool ids
    → position (usable needed) pool.blocks ≡ o
    → Inv (hand_out pool needed o).1 (with_id (hand_out pool needed o).0 ids)
unfolding Distinct AllSpent
hand_out-Inv pool ids needed none v at = v
hand_out-Inv pool ids needed (some i) v at =
    let p = position-passes (usable needed) (block_at [] 0) pool.blocks i at in
    let hi = pool.next_id in
    let bs = pool.blocks in
    let bs' = set bs i (emptied (block_at bs i)) in
    let usable_now : (block_at bs i).state ≡ available = state_eq_sound (block_at bs i).state (
      and_left (key_state_eq (block_at bs i).state available)
        (leb needed (length (block_at bs i).bytes)) p.0) in
    record {
      rising = Rising-set 0 hi bs i v.rising;
      spent = (
        below_hi 0 hi bs i v.rising p.1,
        Spent-set_self 0 hi bs i v.rising p.1,
        AllSpent-map hi hi bs bs' (omega arith) (λ n lt. Spent-set n bs i) ids v.spent,
      );
      distinct = (AllSpent-Fresh hi bs i p.1 usable_now ids v.spent, v.distinct);
    }
  where
    and_left : (a b : Bool) → a && b ≡ true → a ≡ true
    and_left true b e = refl
    and_left false b e = e

    state_eq_sound : (s : KeyState) → key_state_eq s available ≡ true → s ≡ available
    state_eq_sound available e = refl
    state_eq_sound in_use e = absurd (ground arith)
    state_eq_sound consumed e = absurd (ground arith)

drop_block-Inv :
    (pool : KeyPoolManager) (ids : List ℕ) (o : Option ℕ)
    → Inv pool ids
    → Inv (drop_block pool o).1 ids
drop_block-Inv pool ids none v = v
drop_block-Inv pool ids (some i) v =
    elim (Bool-cases (key_state_eq (block_at pool.blocks i).state consumed)) [
      | inl c ↦ rw c v
      | inr n ↦ rw n record {
        rising = Rising-remove 0 pool.next_id pool.blocks i v.rising;
        spent =
            AllSpent-map pool.next_id pool.next_id pool.blocks (remove pool.blocks i) (omega arith)
              (λ m lt. Spent-remove m pool.blocks i) ids v.spent;
        distinct = v.distinct;
      }
    ]

module _ (pool : KeyPoolManager) (ids : List ℕ) (v : Inv pool ids) where
  asked-Inv : (needed : ℕ) → Inv (acquire pool needed).1 (with_id (acquire pool needed).0 ids)
  unfolding acquire
  asked-Inv needed =
      let total = sum_available pool.blocks in
      elim (Bool-cases (needed == 0)) [
        | inl a ↦ rw a v
        | inr a ↦ elim (Bool-cases pool.poisoned) [
          | inl b ↦ rw (a, b) (with_lock true v)
          | inr b ↦ elim (Bool-cases (ltb total pool.low_water_mark)) [
            | inl c ↦ rw (a, b, c) (with_lock false v)
            | inr c ↦ elim (Bool-cases (ltb total needed)) [
              | inl d ↦ rw (a, b, c, d) (with_lock false v)
              | inr d ↦
                  rw (a, b, c, d)
                    (hand_out-Inv (record pool { poisoned = false }) ids needed
                      (position (usable needed) pool.blocks) (with_lock false v) refl)
            ]
          ]
        ]
      ]

  released-Inv : (id : ℕ) → Inv (consume pool id).1 ids
  unfolding consume
  released-Inv id = elim (Bool-cases pool.poisoned) [
    | inl b ↦ rw b (with_lock true v)
    | inr b ↦ rw b (
        drop_block-Inv (record pool { poisoned = false }) ids
          (position (λ (b : KeyBlock). b.id == id) pool.blocks) (with_lock false v))
  ]

started-Inv :
    (low_water_mark : ℕ) (pool : KeyPoolManager) → new_pool low_water_mark ≡ ok pool → Inv pool []
unfolding new_pool Rising AllSpent Distinct
started-Inv low_water_mark pool e = elim (Bool-cases (ltb low_water_mark 64)) [
  | inl a ↦ absurd (ground (arith, rw a at e))
  | inr a ↦
      let made : empty ≡ pool = ok_injective empty pool (rw a at e) in
      subst (λ q. Inv q []) made record { rising = omega arith; spent = tt; distinct = tt }
]
  where
    empty : KeyPoolManager
    empty = record { blocks = []; next_id = 0; poisoned = false; low_water_mark = low_water_mark }

    ok_injective :
        (p q : KeyPoolManager) → Path (Result KeyPoolError KeyPoolManager) (ok p) (ok q) → p ≡ q
    ok_injective p q e = cc

Reached-Inv : (pool : KeyPoolManager) (ids : List ℕ) → Reached pool ids → Inv pool ids
Reached-Inv _ _ (started low_water_mark pool e) = started-Inv low_water_mark pool e
Reached-Inv _ _ (added pool ids bytes r) = added-Inv pool ids bytes (Reached-Inv pool ids r)
Reached-Inv _ _ (asked pool ids needed r) = asked-Inv pool ids (Reached-Inv pool ids r) needed
Reached-Inv _ _ (released pool ids id r) = released-Inv pool ids (Reached-Inv pool ids r) id

-- However calls of add_key_material, acquire and consume follow one another on a new pool, the
-- ids that acquire hands out are distinct: no block of key bytes is handed out twice.
pub Reached-Distinct : (pool : KeyPoolManager) (ids : List ℕ) → Reached pool ids → Distinct ids
Reached-Distinct pool ids r = (Reached-Inv pool ids r).distinct

Rising-above_lo :
    (lo hi : ℕ) (bs : List KeyBlock) (i : ℕ)
    → Rising lo hi bs
    → i < length bs
    → lo ≤ (block_at bs i).id
unfolding Rising
Rising-above_lo lo hi [] i r h = absurd (omega arith)
Rising-above_lo lo hi (b ∷ bs) zero (le, r) h = le
Rising-above_lo lo hi (b ∷ bs) (suc i) (le, r) h =
    omega (arith, le, Rising-above_lo (b.id + 1) hi bs i r (omega arith))

Rising-position :
    (lo hi : ℕ) (bs : List KeyBlock) (i : ℕ)
    → Rising lo hi bs
    → i < length bs
    → position (λ (x : KeyBlock). x.id == (block_at bs i).id) bs ≡ some i
unfolding Rising
Rising-position lo hi [] i r h = absurd (omega arith)
Rising-position lo hi (b ∷ bs) zero (le, r) h =
    let same : (b.id == b.id) ≡ true = ground arith in rw same refl
Rising-position lo hi (b ∷ bs) (suc i) (le, r) h =
    let apart : (b.id == (block_at bs i).id) ≡ false =
      ground (arith, Rising-above_lo (b.id + 1) hi bs i r (omega arith)) in
    rw (apart, Rising-position (b.id + 1) hi bs i r (omega arith)) refl

-- A block of a pool that was reached is the first with its id.
pub Reached-position :
    (pool : KeyPoolManager) (ids : List ℕ) (i : ℕ)
    → Reached pool ids
    → i < length pool.blocks
    → position (λ (x : KeyBlock). x.id == (block_at pool.blocks i).id) pool.blocks ≡ some i
Reached-position pool ids i r h =
    Rising-position 0 pool.next_id pool.blocks i (Reached-Inv pool ids r).rising h
