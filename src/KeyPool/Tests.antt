-- ===== src/KeyPool/Tests.antt =====
-- key_pool/src/lib.rs and otp_engine/src/lib.rs: runs of the pool and of the one-time pad.
use project_qlinux.Prelude.{◌≡◌, refl, [], ◌∷◌, false, replicate, ok, err, arith}
use project_qlinux.KeyPool.{
  KeyPoolManager, add_key_material, acquire, consume, new_pool, below_low_water_mark,
  empty_key_material, invalid_low_water_mark, insufficient_keys, sum_available, returned, remove,
}
use project_qlinux.KeyPool.Otp.{encrypt, decrypt_with_key, xor_zip}
use project_qlinux.KeyPool.History.{Reached, started, added, asked, Reached-Distinct, with_id}
use project_qlinux.KeyPool.Once.{Distinct}
use project_qlinux.KeyPool.RoundTrip.{Served, encrypt-decrypt}

abbrev empty_pool : KeyPoolManager
empty_pool = record { blocks = []; next_id = 0; poisoned = false; low_water_mark = 64 }

abbrev two_blocks : KeyPoolManager
unfolding add_key_material
two_blocks = (add_key_material (add_key_material empty_pool (replicate 60 7)).1 (replicate 70 9)).1

abbrev two_blocks_reached : Reached two_blocks []
unfolding add_key_material new_pool
two_blocks_reached =
    added _ _ (replicate 70 9) (added _ _ (replicate 60 7) (started 64 empty_pool refl))

new_pool_mark : new_pool 63 ≡ err invalid_low_water_mark
unfolding new_pool
new_pool_mark = refl

empty_refused : (add_key_material empty_pool []).0 ≡ returned (err empty_key_material)
unfolding add_key_material
empty_refused = refl

below_mark : (acquire empty_pool 1).0 ≡ err below_low_water_mark
unfolding acquire sum_available
below_mark = refl

-- No single block is as long, though the pool has the bytes.
no_block_is_long : (acquire two_blocks 71).0 ≡ err insufficient_keys
unfolding acquire sum_available add_key_material
no_block_is_long = refl

consume_unknown : consume two_blocks 5 ≡ (ok tt, two_blocks)
unfolding consume add_key_material
consume_unknown = refl

Reached-Distinct_example : Distinct (with_id (acquire two_blocks 2).0 [])
Reached-Distinct_example =
    Reached-Distinct (acquire two_blocks 2).1 (with_id (acquire two_blocks 2).0 [])
      (asked two_blocks [] 2 two_blocks_reached)

abbrev two_served : Served two_blocks 2 0
unfolding sum_available add_key_material
two_served = record {
  first = refl;
  unpoisoned = refl;
  above_mark = omega arith;
  enough = omega arith;
}

encrypt-decrypt_example :
    (encrypt two_blocks (1 ∷ 2 ∷ []) ≡ (
      ok (0, xor_zip (1 ∷ 2 ∷ []) (7 ∷ 7 ∷ [])),
      record two_blocks { blocks = remove two_blocks.blocks 0 },
    ))
    × (decrypt_with_key (xor_zip (1 ∷ 2 ∷ []) (7 ∷ 7 ∷ [])) (7 ∷ 7 ∷ []) ≡ ok (1 ∷ 2 ∷ []))
unfolding two_blocks
encrypt-decrypt_example =
    encrypt-decrypt two_blocks (1 ∷ 2 ∷ []) 0 [] two_blocks_reached (omega arith) two_served
