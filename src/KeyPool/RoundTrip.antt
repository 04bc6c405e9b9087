-- ===== src/KeyPool/RoundTrip.antt =====
-- otp_engine/src/lib.rs: encrypt and decrypt_with_key over the pool.
use project_qlinux.Prelude.{
  ℕ, zero, suc, ◌≤◌, ◌<◌, ◌≡◌, refl, ap, ap₂, ◌∙◌, Bool, true, false, some, List, [], ◌∷◌, arith,
  length, take, length-take, leb, ltb, ◌==◌, ◌&&◌, set, get_or-set_self, position, position-passes,
  ok,
}
use project_qlinux.Prelude.Bits.{bit_xor_cancel}
use project_qlinux.KeyPool.{
  available, key_state_eq, KeyBlock, KeyPoolManager, acquire, consume, block_at, emptied, usable,
  remove, sum_available,
}
use project_qlinux.KeyPool.History.{Reached, Reached-position}
use project_qlinux.KeyPool.Otp.{xor_zip, encrypt, decrypt_with_key}

xor_zip_cancel : (ps ks : List ℕ) → length ps ≤ length ks → xor_zip (xor_zip ps ks) ks ≡ ps
xor_zip_cancel [] ks h = refl
xor_zip_cancel (p ∷ ps) [] h = absurd (omega arith)
xor_zip_cancel (p ∷ ps) (k ∷ ks) h =
    ap₂ ◌∷◌ (bit_xor_cancel p k) (xor_zip_cancel ps ks (omega arith))

length-xor_zip : (ps ks : List ℕ) → length ps ≤ length ks → length (xor_zip ps ks) ≡ length ps
length-xor_zip [] ks h = refl
length-xor_zip (p ∷ ps) [] h = absurd (omega arith)
length-xor_zip (p ∷ ps) (k ∷ ks) h = ap suc (length-xor_zip ps ks (omega arith))

decrypt_cancels :
    (ps key : List ℕ)
    → 0 < length ps
    → length ps ≤ length key
    → decrypt_with_key (xor_zip ps key) key ≡ ok ps
unfolding decrypt_with_key
decrypt_cancels ps key pos enough =
    let n = length-xor_zip ps key enough in
    let some_bytes : (length (xor_zip ps key) == 0) ≡ false = ground (arith, n, pos) in
    let long_enough : ltb (length key) (length (xor_zip ps key)) ≡ false =
      ground (arith, n, enough) in
    rw (some_bytes, long_enough, xor_zip_cancel ps key enough) refl

-- Emptying a block leaves its id, so that `consume` finds what it would have found.
position-emptied :
    (n : ℕ) (bs : List KeyBlock) (i : ℕ)
    → position (λ (x : KeyBlock). x.id == n) (set bs i (emptied (block_at bs i)))
      ≡ position (λ (x : KeyBlock). x.id == n) bs
position-emptied n [] i = refl
position-emptied n (x ∷ bs) zero = refl
position-emptied n (x ∷ bs) (suc i) = rw (position-emptied n bs i) refl

remove-set : (bs : List KeyBlock) (i : ℕ) (v : KeyBlock) → remove (set bs i v) i ≡ remove bs i
remove-set [] i v = refl
remove-set (x ∷ bs) zero v = refl
remove-set (x ∷ bs) (suc i) v = ap (λ r. x ∷ r) (remove-set bs i v)

-- An available block with `n` bytes at `i`, and none before it.
pub record Served (pool : KeyPoolManager) (n i : ℕ) : Type 0 where
  pub first : position (usable n) pool.blocks ≡ some i
  pub unpoisoned : pool.poisoned ≡ false
  pub above_mark : pool.low_water_mark ≤ sum_available pool.blocks
  pub enough : n ≤ sum_available pool.blocks

module _ (pool : KeyPoolManager) (ps : List ℕ) (i : ℕ) where
  abbrev b : KeyBlock
  b = block_at pool.blocks i

  abbrev key : List ℕ
  key = take (length ps) b.bytes

  abbrev taken : KeyPoolManager
  taken = record pool { blocks = set pool.blocks i (emptied b) }

  acquire-ok :
      0 < length ps → Served pool (length ps) i → acquire pool (length ps) ≡ (ok (b.id, key), taken)
  unfolding acquire
  acquire-ok pos s =
      let c₁ : (length ps == 0) ≡ false = ground (arith, pos) in
      let c₂ : ltb (sum_available pool.blocks) pool.low_water_mark ≡ false =
        ground (arith, s.above_mark) in
      let c₃ : ltb (sum_available pool.blocks) (length ps) ≡ false = ground (arith, s.enough) in
      simp (c₁, s.unpoisoned, c₂, c₃, s.first)

  inside : Served pool (length ps) i → i < length pool.blocks
  inside s = (position-passes (usable (length ps)) (block_at [] 0) pool.blocks i s.first).1

  long_enough : Served pool (length ps) i → length ps ≤ length b.bytes
  long_enough s =
      let t = (position-passes (usable (length ps)) (block_at [] 0) pool.blocks i s.first).0 in
      ground
        (arith, and_right (key_state_eq b.state available) (leb (length ps) (length b.bytes)) t)
    where
      and_right : (a c : Bool) → a && c ≡ true → c ≡ true
      and_right true c e = e
      and_right false c e = absurd (ground arith)

  consume-taken :
      Served pool (length ps) i
      → position (λ (x : KeyBlock). x.id == b.id) pool.blocks ≡ some i
      → consume taken b.id ≡ (ok tt, record pool { blocks = remove pool.blocks i })
  unfolding consume
  consume-taken s found =
      let at = position-emptied b.id pool.blocks i ∙ found in
      let e = get_or-set_self pool.blocks i (emptied b) (block_at [] 0) (inside s) in
      simp (s.unpoisoned, at, e, remove-set pool.blocks i (emptied b))

  length-key : Served pool (length ps) i → length key ≡ length ps
  length-key s = omega (arith, length-take (length ps) b.bytes, long_enough s)

  -- In a pool reached by calls from a new one, whose lock is not poisoned, and whose available
  -- bytes reach the low water mark and the length of the message, if the block at i is the first
  -- available one long enough for a message that is not empty, encrypt answers the block's id
  -- with the message XORed with its first bytes, the block is gone from the pool, and
  -- decrypt_with_key with these bytes gives the message back.
  pub encrypt-decrypt :
      (ids : List ℕ)
      → Reached pool ids
      → 0 < length ps
      → Served pool (length ps) i
      → (encrypt pool ps
          ≡ (ok (b.id, xor_zip ps key), record pool { blocks = remove pool.blocks i }))
        × (decrypt_with_key (xor_zip ps key) key ≡ ok ps)
  unfolding encrypt
  encrypt-decrypt ids r pos s =
      let found = Reached-position pool ids i r (inside s) in
      let c₁ : (length ps == 0) ≡ false = ground (arith, pos) in
      let c₂ : ltb (length key) (length ps) ≡ false = ground (arith, length-key s) in
      (
        simp (c₁, acquire-ok pos s, consume-taken s found, c₂),
        decrypt_cancels ps key pos (omega (arith, length-key s)),
      )
