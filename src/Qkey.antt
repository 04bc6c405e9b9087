-- ===== src/Qkey.antt =====
-- kernel/qkey/src/lib.rs: the store of one-time key bytes. A lane is a ring buffer whose bytes
-- carry absolute offsets; a peer has two lanes, one for each direction.
-- A method returns the new lane; an error leaves the lane as it was.
pub mod Valid
pub mod Stream
pub mod Peer
pub mod Sample
mod Tests
use project_qlinux.Prelude.{
  ℕ, zero, suc, ◌+◌, ◌-◌, ◌*◌, ◌%◌, ◌^◌, Bool, true, false, Option, none, some, List, [], ◌∷◌, ltb,
  ◌==◌, if◌then◌else◌, length, set, get_or, replicate, Result, ok, err, ◌>>=◌, ◌>>◌, refuse_if,
  ok_or, checked_sub, checked_add,
}
use project_qlinux.Prelude.Ring.{window, store}

abbrev pub lane_capacity : ℕ
lane_capacity = 16 * 1024

pub data KeyError : Type 0 where
  insufficient_key already_consumed block_too_large empty_input : KeyError

-- The constructors `A` and `B` of the source.
pub data LinkRole : Type 0 where
  role_a role_b : LinkRole

pub tx_lane : LinkRole → ℕ
tx_lane role_a = 0
tx_lane role_b = 1

pub rx_lane : LinkRole → ℕ
unfolding tx_lane
rx_lane r = 1 - tx_lane r

pub record KeyLane : Type 0 where
  pub buf : List ℕ
  pub read : ℕ
  pub count : ℕ
  pub base : ℕ  -- u64, the absolute offset of `buf[read]`

pub new : KeyLane
new = record { buf = replicate lane_capacity 0; read = 0; count = 0; base = 0 }

abbrev pub available : KeyLane → ℕ
available l = l.count

abbrev pub next_offset : KeyLane → ℕ
next_offset l = l.base

-- `copy_out`: `n` bytes from `skip` bytes behind the read index on.
pub copy_out : KeyLane → ℕ → ℕ → List ℕ
copy_out l skip n = window l.buf lane_capacity 0 ((l.read + skip) % lane_capacity) n

-- The loop of `discard`: each byte passed is overwritten by 0.
pub discard_bytes : ℕ → KeyLane → KeyLane
discard_bytes zero l = l
discard_bytes (suc n) l =
    discard_bytes n (record l { buf = set l.buf l.read 0; read = (l.read + 1) % lane_capacity })

pub discard : KeyLane → ℕ → KeyLane
unfolding discard_bytes
discard l n =
    let l' = discard_bytes n l in record l' { count = l'.count - n; base = (l'.base + n) % 2 ^ 64 }

abbrev pub is_empty : List ℕ → Bool
is_empty [] = true
is_empty (x ∷ xs) = false

-- A full lane drops its oldest unused bytes.
pub deposit : KeyLane → List ℕ → Result KeyError KeyLane
deposit l key = do
  refuse_if (is_empty key) empty_input
  refuse_if (ltb lane_capacity (length key)) block_too_large
  let overflow = l.count + length key - lane_capacity
  let l' = if ltb 0 overflow then discard l overflow else l
  ok (record l' {
    buf = store lane_capacity l'.buf ((l'.read + l'.count) % lane_capacity) key;
    count = l'.count + length key;
  })

-- The start offset and the `n` bytes that go into `out`.
pub take : KeyLane → ℕ → Result KeyError (ℕ × List ℕ × KeyLane)
take l n = do
  refuse_if (n == 0) empty_input
  refuse_if (ltb l.count n) insufficient_key
  ok (l.base, copy_out l 0 n, discard l n)

pub peek_at : KeyLane → ℕ → ℕ → Result KeyError (List ℕ)
peek_at l offset n = do
  refuse_if (n == 0) empty_input
  skip ← ok_or (checked_sub offset l.base) already_consumed
  need ← ok_or (checked_add skip n) insufficient_key
  refuse_if (ltb l.count need) insufficient_key
  ok (copy_out l skip n)

pub consume_through : KeyLane → ℕ → ℕ → Result KeyError KeyLane
consume_through l offset n = do
  skip ← ok_or (checked_sub offset l.base) already_consumed
  end ← ok_or (checked_add skip n) insufficient_key
  refuse_if (ltb l.count end) insufficient_key
  ok (discard l end)

pub wipe : KeyLane → KeyLane
wipe l = record {
  buf = replicate (length l.buf) 0;
  read = 0;
  count = 0;
  base = (l.base + l.count) % 2 ^ 64;
}

-- The array `lanes: [KeyLane; 2]`.
pub record PeerKeys : Type 0 where
  pub role : LinkRole
  pub lane0 : KeyLane
  pub lane1 : KeyLane

pub new_keys : LinkRole → PeerKeys
new_keys role = record { role = role; lane0 = new; lane1 = new }

pub lane : PeerKeys → ℕ → KeyLane
lane k i = if i == 0 then k.lane0 else k.lane1

pub set_lane : PeerKeys → ℕ → KeyLane → PeerKeys
set_lane k i l = if i == 0 then record k { lane0 = l } else record k { lane1 = l }

pub tx : PeerKeys → KeyLane
unfolding lane tx_lane
tx k = lane k (tx_lane k.role)

pub rx : PeerKeys → KeyLane
unfolding lane rx_lane
rx k = lane k (rx_lane k.role)

-- What a call through `tx()` or `rx()` leaves.
pub set_tx : PeerKeys → KeyLane → PeerKeys
unfolding set_lane tx_lane
set_tx k l = set_lane k (tx_lane k.role) l

pub set_rx : PeerKeys → KeyLane → PeerKeys
unfolding set_lane rx_lane
set_rx k l = set_lane k (rx_lane k.role) l

-- `block_seq & 1` picks the lane.
pub deposit_block : PeerKeys → ℕ → List ℕ → Result KeyError PeerKeys
deposit_block k block_seq key = do
  let i = block_seq % 2
  l ← deposit (lane k i) key
  ok (set_lane k i l)

pub wipe_keys : PeerKeys → PeerKeys
wipe_keys k = record k { lane0 = wipe k.lane0; lane1 = wipe k.lane1 }
