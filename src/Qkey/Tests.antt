-- ===== src/Qkey/Tests.antt =====
-- Concrete runs of the theorems on lanes and peers.
use project_qlinux.Prelude.{
  ◌+◌, ◌-◌, ◌^◌, ◌<◌, ◌≡◌, refl, [], ◌∷◌, ◌++◌, arith, max, length, drop, take as take_first, ok,
  err, if◌then◌else◌, ◌==◌, ltb,
}
use project_qlinux.Qkey.{
  KeyLane, PeerKeys, role_a, role_b, new_keys, lane_capacity, deposit, take, consume_through,
  peek_at, deposit_block, tx, rx, empty_input, already_consumed, insufficient_key,
}
use project_qlinux.Qkey.Stream.{
  Tracks, deposit-Tracks, take-Tracks, peek_at-stream, consume_through-Tracks,
}
use project_qlinux.Qkey.Peer.{
  TracksBoth, deposit_block-TracksBoth, even_part, odd_part, Blocks, deposit_all, AllFit, total,
  even_bytes, odd_bytes, Paired, ends-Paired,
}
use project_qlinux.Qkey.Sample.{key_block, fed, used, fed-Tracks, used-Tracks, used-base}

deposit-Tracks_example :
    (l' : KeyLane) × (deposit used key_block ≡ ok l')
    × Tracks (key_block ++ key_block) l'
    × (l'.base ≡ max used.base (length key_block + length key_block - lane_capacity))
deposit-Tracks_example =
    deposit-Tracks key_block used key_block used-Tracks (omega arith) (omega arith) (omega arith)

take-Tracks_example :
    (l' : KeyLane) × (take used 8 ≡ ok (used.base, take_first 8 (drop used.base key_block), l'))
    × Tracks key_block l'
    × (l'.base ≡ used.base + 8)
take-Tracks_example =
    take-Tracks key_block used 8 used-Tracks (omega arith) (omega (arith, used-base))

peek_at-stream_example : peek_at used 44 4 ≡ (
    if 4 == 0
    then err empty_input
    else if ltb 44 used.base
    then err already_consumed
    else if ltb (length key_block) (44 + 4)
    then err insufficient_key
    else ok (take_first 4 (drop 44 key_block)))
peek_at-stream_example = peek_at-stream key_block used 44 4 used-Tracks

consume_through-Tracks_example :
    (l' : KeyLane) × (consume_through used 44 4 ≡ ok l') × Tracks key_block l' × (l'.base ≡ 44 + 4)
consume_through-Tracks_example =
    consume_through-Tracks key_block used 44 4 used-Tracks (omega (arith, used-base)) (omega arith)

abbrev peer : PeerKeys
peer = record { role = role_b; lane0 = fed; lane1 = used }

peer-TracksBoth : TracksBoth key_block key_block peer
peer-TracksBoth = record { first = fed-Tracks; second = used-Tracks }

abbrev blocks : Blocks
blocks = (4, 1 ∷ 2 ∷ 3 ∷ []) ∷ (7, 8 ∷ 9 ∷ []) ∷ (6, 5 ∷ []) ∷ []

blocks-AllFit : AllFit blocks
unfolding AllFit
blocks-AllFit =
    (omega arith, omega arith, (omega arith, omega arith, (omega arith, omega arith, tt)))

blocks_total : total blocks < 2 ^ 64
unfolding total
blocks_total = omega arith

even_blocks : even_bytes [] blocks ≡ 1 ∷ 2 ∷ 3 ∷ 5 ∷ []
unfolding even_bytes
even_blocks = refl

ends-Paired_example :
    (a : PeerKeys) × (b : PeerKeys) × (deposit_all (new_keys role_a) blocks ≡ ok a)
    × (deposit_all (new_keys role_b) blocks ≡ ok b)
    × Paired (even_bytes [] blocks) (tx a) (rx b) 2
    × Paired (odd_bytes [] blocks) (tx b) (rx a) 2
ends-Paired_example = ends-Paired blocks 2 blocks-AllFit blocks_total

deposit_block-TracksBoth_example :
    (k' : PeerKeys) × (deposit_block peer 3 (1 ∷ 2 ∷ []) ≡ ok k')
    × TracksBoth (even_part 3 key_block (1 ∷ 2 ∷ [])) (odd_part 3 key_block (1 ∷ 2 ∷ [])) k'
    × (k'.role ≡ role_b)
deposit_block-TracksBoth_example =
    deposit_block-TracksBoth key_block key_block peer 3 (1 ∷ 2 ∷ []) peer-TracksBoth (omega arith)
      (omega arith) (omega arith) (omega arith)
