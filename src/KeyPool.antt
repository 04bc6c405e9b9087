-- ===== src/KeyPool.antt =====
-- key_pool/src/lib.rs: blocks of key material behind one mutex. A call takes the pool and returns
-- its result with the pool after it. A lock whose holder has panicked is poisoned for good. The
-- lengths of the blocks add up below 2 ^ 64, since all of them are in memory.
pub mod Otp
pub mod Once
pub mod History
pub mod RoundTrip
mod Tests
use project_qlinux.Prelude.{
  ℕ, zero, suc, ◌+◌, ◌≤◌, ◌^◌, Bool, true, false, ◌&&◌, Option, none, some, List, [], ◌∷◌, ◌++◌,
  ltb, leb, ◌==◌, if◌then◌else◌, length, get_or, set, take, drop, position, Result, ok, err,
}

abbrev pub default_low_water_mark : ℕ
default_low_water_mark = 1024

abbrev pub min_low_water_mark : ℕ
min_low_water_mark = 64

pub data KeyState : Type 0 where
  available in_use consumed : KeyState

abbrev pub key_state_eq : KeyState → KeyState → Bool
key_state_eq available available = true
key_state_eq in_use in_use = true
key_state_eq consumed consumed = true
key_state_eq _ _ = false

pub record KeyBlock : Type 0 where
  pub id : ℕ
  pub bytes : List ℕ  -- the field `data`
  pub state : KeyState

pub data KeyPoolError : Type 0 where
  insufficient_keys below_low_water_mark already_consumed invalid_low_water_mark empty_key_material
        lock_poisoned :
      KeyPoolError

-- `KeyPoolManager` with the `PoolState` in its mutex.
pub record KeyPoolManager : Type 0 where
  pub blocks : List KeyBlock
  pub next_id : ℕ
  pub poisoned : Bool
  pub low_water_mark : ℕ

unfoldable pub new_pool : ℕ → Result KeyPoolError KeyPoolManager
new_pool low_water_mark =
    if ltb low_water_mark min_low_water_mark
    then err invalid_low_water_mark
    else ok record { blocks = []; next_id = 0; poisoned = false; low_water_mark = low_water_mark }

abbrev no_block : KeyBlock
no_block = record { id = 0; bytes = []; state = consumed }

abbrev pub block_at : List KeyBlock → ℕ → KeyBlock
block_at blocks i = get_or blocks i no_block

-- What a call comes to: a value of the source's `Result`, or a panic.
pub data Outcome {ℓ} (A : Type ℓ) : Type ℓ where
  returned : Result KeyPoolError A → Outcome A
  panicked : Outcome A

-- A panic of `checked_add(1).expect(..)` leaves the lock poisoned.
unfoldable pub add_key_material : KeyPoolManager → List ℕ → Outcome ℕ × KeyPoolManager
add_key_material pool bytes =
    if length bytes == 0
    then (returned (err empty_key_material), pool)
    else if pool.poisoned
    then (returned (err lock_poisoned), pool)
    else if ltb (pool.next_id + 1) (2 ^ 64)
    then (
      returned (ok pool.next_id),
      record pool {
        next_id = pool.next_id + 1;
        blocks =
            pool.blocks ++ (record { id = pool.next_id; bytes = bytes; state = available } ∷ []);
      },
    )
    else (panicked, record pool { poisoned = true })

-- `blocks.iter().filter(..).map(..).sum()`.
unfoldable pub sum_available : List KeyBlock → ℕ
sum_available [] = 0
sum_available (b ∷ bs) =
    let rest = sum_available bs in
    if key_state_eq b.state available then length b.bytes + rest else rest

abbrev pub usable : ℕ → KeyBlock → Bool
usable needed b = key_state_eq b.state available && leb needed (length b.bytes)

-- The block's data is moved out of it, and it is marked as in use.
abbrev pub emptied : KeyBlock → KeyBlock
emptied b = record b { state = in_use; bytes = [] }

abbrev pub hand_out :
    KeyPoolManager → ℕ → Option ℕ → Result KeyPoolError (ℕ × List ℕ) × KeyPoolManager
hand_out pool needed none = (err insufficient_keys, pool)
hand_out pool needed (some i) =
    let b = block_at pool.blocks i in
    (ok (b.id, take needed b.bytes), record pool { blocks = set pool.blocks i (emptied b) })

unfoldable pub acquire : KeyPoolManager → ℕ → Result KeyPoolError (ℕ × List ℕ) × KeyPoolManager
unfolding sum_available
acquire pool needed =
    let total = sum_available pool.blocks in
    if needed == 0
    then (err insufficient_keys, pool)
    else if pool.poisoned
    then (err lock_poisoned, pool)
    else if ltb total pool.low_water_mark
    then (err below_low_water_mark, pool)
    else if ltb total needed
    then (err insufficient_keys, pool)
    else hand_out pool needed (position (usable needed) pool.blocks)

-- `Vec::remove`.
abbrev pub remove {ℓ} : {A : Type ℓ} → List A → ℕ → List A
remove [] i = []
remove (x ∷ xs) zero = xs
remove (x ∷ xs) (suc i) = x ∷ remove xs i

abbrev pub drop_block : KeyPoolManager → Option ℕ → Result KeyPoolError (Unit {0}) × KeyPoolManager
drop_block pool none = (ok tt, pool)
drop_block pool (some i) =
    if key_state_eq (block_at pool.blocks i).state consumed
    then (err already_consumed, pool)
    else (ok tt, record pool { blocks = remove pool.blocks i })

unfoldable pub consume : KeyPoolManager → ℕ → Result KeyPoolError (Unit {0}) × KeyPoolManager
consume pool id =
    if pool.poisoned
    then (err lock_poisoned, pool)
    else drop_block pool (position (λ (b : KeyBlock). b.id == id) pool.blocks)

unfoldable pub available_bytes : KeyPoolManager → Result KeyPoolError ℕ
unfolding sum_available
available_bytes pool = if pool.poisoned then err lock_poisoned else ok (sum_available pool.blocks)
