-- ===== src/Qkey/Peer.antt =====
-- The two lanes of a peer. Both ends put block `seq` on lane `seq & 1`; the roles cross the lanes,
-- so what one end sends with is what the other receives with, and never what it sends with itself.
use project_qlinux.Prelude.{
  ℕ, ◌+◌, ◌%◌, ◌^◌, ◌≤◌, ◌<◌, ◌≡◌, ◌≢◌, refl, ◌∙◌, inl, inr, List, [], ◌∷◌, ◌++◌, arith, length,
  length-append, ok, err, Result, ◌>>=◌, if◌then◌else◌, ◌==◌, Bool-cases,
}
use project_qlinux.Qkey.{
  PeerKeys, LinkRole, role_a, role_b, tx_lane, rx_lane, lane, set_lane, tx, rx, deposit_block,
  lane_capacity, KeyLane, KeyError, take, peek_at, new_keys,
}
use project_qlinux.Qkey.Stream.{Tracks, new-Tracks, deposit-Tracks, take-stream, peek_at-stream}

-- Lane 0 tracks one stream and lane 1 another.
pub record TracksBoth (s0 s1 : List ℕ) (k : PeerKeys) : Type 0 where
  pub first : Tracks s0 k.lane0
  pub second : Tracks s1 k.lane1

-- The send lane and the receive lane are different, and the other role has them crossed.
pub roles_mirrored :
    (r : LinkRole)
    → (tx_lane r ≢ rx_lane r)
      × (tx_lane role_a ≡ rx_lane role_b)
      × (tx_lane role_b ≡ rx_lane role_a)
unfolding tx_lane rx_lane
roles_mirrored role_a = (omega arith, refl, refl)
roles_mirrored role_b = (omega arith, refl, refl)

-- The streams after block `seq`: the lane of its parity has grown.
abbrev pub even_part : ℕ → List ℕ → List ℕ → List ℕ
even_part seq s key = if seq % 2 == 0 then s ++ key else s

abbrev pub odd_part : ℕ → List ℕ → List ℕ → List ℕ
odd_part seq s key = if seq % 2 == 0 then s else s ++ key

-- If the two lanes of a peer track two streams, a block of 1 to 16384 bytes that keeps both
-- streams shorter than 2 ^ 64 is accepted, the lanes then track the streams of which the one of
-- the block number's parity has grown by the block, and the role is unchanged.
pub deposit_block-TracksBoth :
    (s0 s1 : List ℕ) (k : PeerKeys) (seq : ℕ) (key : List ℕ)
    → TracksBoth s0 s1 k
    → 0 < length key
    → length key ≤ lane_capacity
    → length s0 + length key < 2 ^ 64
    → length s1 + length key < 2 ^ 64
    → (k' : PeerKeys) × (deposit_block k seq key ≡ ok k')
      × TracksBoth (even_part seq s0 key) (odd_part seq s1 key) k'
      × (k'.role ≡ k.role)
unfolding deposit_block lane set_lane
deposit_block-TracksBoth s0 s1 k seq key t pos fits small0 small1 =
    let d0 = deposit-Tracks s0 k.lane0 key t.first pos fits small0 in
    let d1 = deposit-Tracks s1 k.lane1 key t.second pos fits small1 in
    elim (Bool-cases (seq % 2 == 0)) [
      | inl even ↦ (
        record k { lane0 = d0.0 },
        rw (even, d0.1),
        rw even (record { first = d0.2; second = t.second }),
        refl,
      )
      | inr odd ↦ (
        record k { lane1 = d1.0 },
        rw (odd, d1.1),
        rw odd (record { first = t.first; second = d1.2 }),
        refl,
      )
    ]

-- The link's key blocks in the order of their arrival, each with its number.
abbrev pub Blocks : Type 0
Blocks = List (ℕ × List ℕ)

-- One end's handling of them.
unfoldable pub deposit_all : PeerKeys → Blocks → Result KeyError PeerKeys
deposit_all k [] = ok k
deposit_all k ((seq, key) ∷ blocks) = do k' ← deposit_block k seq key; deposit_all k' blocks

-- Every block has 1 to 16384 bytes.
unfoldable pub AllFit : Blocks → Type 0
AllFit [] = Unit
AllFit ((seq, key) ∷ blocks) = (0 < length key) × (length key ≤ lane_capacity) × AllFit blocks

unfoldable pub total : Blocks → ℕ
total [] = 0
total ((seq, key) ∷ blocks) = length key + total blocks

-- The bytes of the even blocks behind `s`, and those of the odd ones.
unfoldable pub even_bytes : List ℕ → Blocks → List ℕ
even_bytes s [] = s
even_bytes s ((seq, key) ∷ blocks) = even_bytes (even_part seq s key) blocks

unfoldable pub odd_bytes : List ℕ → Blocks → List ℕ
odd_bytes s [] = s
odd_bytes s ((seq, key) ∷ blocks) = odd_bytes (odd_part seq s key) blocks

-- The same lanes at the other role.
abbrev at_role : LinkRole → PeerKeys → PeerKeys
at_role r k = record k { role = r }

part_length :
    (seq : ℕ) (s key : List ℕ)
    → (length (even_part seq s key) ≤ length s + length key)
      × (length (odd_part seq s key) ≤ length s + length key)
part_length seq s key = ground (arith, length-append s key)

deposit_block-at_role :
    (r : LinkRole) (k k' : PeerKeys) (seq : ℕ) (key : List ℕ)
    → deposit_block k seq key ≡ ok k'
    → deposit_block (at_role r k) seq key ≡ ok (at_role r k')
unfolding deposit_block lane set_lane
deposit_block-at_role r k k' seq key e = ground (arith, e)

-- All blocks are accepted, at either role, and the lanes hold the even and the odd ones.
deposit_all_lem :
    (r : LinkRole) (blocks : Blocks) (s0 s1 : List ℕ) (k : PeerKeys)
    → TracksBoth s0 s1 k
    → AllFit blocks
    → length s0 + total blocks < 2 ^ 64
    → length s1 + total blocks < 2 ^ 64
    → (k' : PeerKeys) × (deposit_all k blocks ≡ ok k')
      × (deposit_all (at_role r k) blocks ≡ ok (at_role r k'))
      × TracksBoth (even_bytes s0 blocks) (odd_bytes s1 blocks) k'
      × (k'.role ≡ k.role)
unfolding deposit_all AllFit total even_bytes odd_bytes
deposit_all_lem r [] s0 s1 k t fit small0 small1 = (k, refl, refl, t, refl)
deposit_all_lem r ((seq, key) ∷ blocks) s0 s1 k t fit small0 small1 =
    let d = deposit_block-TracksBoth s0 s1 k seq key t fit.0 fit.1 (omega arith) (omega arith) in
    let p0 = part_length seq s0 key in
    let p1 = part_length seq s1 key in
    let ih =
      deposit_all_lem r blocks (even_part seq s0 key) (odd_part seq s1 key) d.0 d.2 fit.2
        (omega (arith, p0.0)) (omega (arith, p1.1)) in
    (ih.0, rw d.1 ih.1, rw (deposit_block-at_role r k d.0 seq key d.1) ih.2, ih.3, ih.4 ∙ d.3)

-- The key bytes that `take` hands out.
abbrev pub bytes_of : Result KeyError (ℕ × List ℕ × KeyLane) → Result KeyError (List ℕ)
bytes_of (ok (offset, key, l)) = ok key
bytes_of (err e) = err e

-- A lane that one end sends with and a lane that the other receives with: both track `s`, at the
-- same base, and at its base the receiver finds what the sender takes.
pub record Paired (s : List ℕ) (send receive : KeyLane) (n : ℕ) : Type 0 where
  pub sends : Tracks s send
  pub receives : Tracks s receive
  pub same_base : receive.base ≡ send.base
  pub same_bytes : peek_at receive send.base n ≡ bytes_of (take send n)

-- A lane is paired with itself.
same-Paired : (s : List ℕ) (l : KeyLane) (n : ℕ) → Tracks s l → Paired s l l n
same-Paired s l n t = record {
  sends = t;
  receives = t;
  same_base = refl;
  same_bytes = rw (peek_at-stream s l l.base n t, take-stream s l n t) (ground arith);
}

-- If two new peers of the two roles are given the same blocks, each of 1 to 16384 bytes and less
-- than 2 ^ 64 in all, both accept all of them; then what A sends with is what B receives with,
-- the bytes of the even blocks, and what B sends with is what A receives with, the bytes of the
-- odd blocks: the lanes stand at the same base, and for every size the receiver finds at the
-- sender's offset the bytes, or the error, that take gives the sender.
pub ends-Paired :
    (blocks : Blocks) (n : ℕ)
    → AllFit blocks
    → total blocks < 2 ^ 64
    → (a : PeerKeys) × (b : PeerKeys) × (deposit_all (new_keys role_a) blocks ≡ ok a)
      × (deposit_all (new_keys role_b) blocks ≡ ok b)
      × Paired (even_bytes [] blocks) (tx a) (rx b) n
      × Paired (odd_bytes [] blocks) (tx b) (rx a) n
unfolding new_keys tx rx
ends-Paired blocks n fit small =
    let d =
      deposit_all_lem role_b blocks [] [] (new_keys role_a)
        (record { first = new-Tracks; second = new-Tracks }) fit (omega (arith, small))
        (omega (arith, small)) in
    let a : PeerKeys = d.0 in
    let r : a.role ≡ role_a = d.4 in
    (
      a,
      at_role role_b a,
      d.1,
      d.2,
      rw r (same-Paired (even_bytes [] blocks) a.lane0 n d.3.first),
      rw r (same-Paired (odd_bytes [] blocks) a.lane1 n d.3.second),
    )
