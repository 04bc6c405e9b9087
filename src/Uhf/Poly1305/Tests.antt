-- ===== src/Uhf/Poly1305/Tests.antt =====
-- Concrete runs of the theorems on Poly1305, the test vector of RFC 8439 2.5.2 among them.
use project_qlinux.Prelude.{ℕ, ◌-◌, ◌^◌, ◌≤◌, ◌≡◌, ◌≢◌, refl, List, [], ◌∷◌, ◌++◌, arith, replicate}
use project_qlinux.Uhf.Poly1305.{
  Limbs, clamp, new_key, new, reduce, columns, mul_r, add_limbs, process_block, whole_blocks,
  keep_rest, absorb, update, carry_round, propagate_carry, h_to_u128, s_to_u128, pad_block,
  finalize, mac,
}
use project_qlinux.Uhf.Poly1305.Residue.{p130, value, IsReduced}
use project_qlinux.Uhf.Poly1305.Rfc.{residue, accumulate, chunks, rfc_mac}
use project_qlinux.Uhf.Poly1305.Stream.{Absorbed, new-Absorbed, update-Absorbed}
use project_qlinux.Uhf.Poly1305.Mac.{last_limbs, last_value, s_value}
use project_qlinux.Uhf.Poly1305.Clamp.{clamped_r, pad_s}
use project_qlinux.Uhf.Poly1305.Rfc8439.{new_key_lem, mac-rfc_mac, finalize-ne-rfc_mac}

-- The key and the message of the RFC.
abbrev rfc_key : List ℕ
rfc_key =
    0x85 ∷ 0xd6 ∷ 0xbe ∷ 0x78 ∷ 0x57 ∷ 0x55 ∷ 0x6d ∷ 0x33 ∷ 0x7f ∷ 0x44 ∷ 0x52 ∷ 0xfe ∷ 0x42 ∷ 0xd5
    ∷ 0x06 ∷ 0xa8 ∷ 0x01 ∷ 0x03 ∷ 0x80 ∷ 0x8a ∷ 0xfb ∷ 0x0d ∷ 0xb2 ∷ 0xfd ∷ 0x4a ∷ 0xbf ∷ 0xf6
    ∷ 0xaf ∷ 0x41 ∷ 0x49 ∷ 0xf5 ∷ 0x1b ∷ []

abbrev rfc_message : List ℕ
rfc_message =
    67 ∷ 114 ∷ 121 ∷ 112 ∷ 116 ∷ 111 ∷ 103 ∷ 114 ∷ 97 ∷ 112 ∷ 104 ∷ 105 ∷ 99 ∷ 32 ∷ 70 ∷ 111 ∷ 114
    ∷ 117 ∷ 109 ∷ 32 ∷ 82 ∷ 101 ∷ 115 ∷ 101 ∷ 97 ∷ 114 ∷ 99 ∷ 104 ∷ 32 ∷ 71 ∷ 114 ∷ 111 ∷ 117 ∷ 112
    ∷ []

abbrev rfc_tag : List ℕ
rfc_tag =
    0xa8 ∷ 0x06 ∷ 0x1d ∷ 0xc1 ∷ 0x30 ∷ 0x51 ∷ 0x36 ∷ 0xc6 ∷ 0xc2 ∷ 0x2b ∷ 0x8b ∷ 0xaf ∷ 0x0c ∷ 0x01
    ∷ 0x27 ∷ 0xa9 ∷ []

rfc_vector : mac (new_key rfc_key) rfc_message ≡ rfc_tag
unfolding mac new_key clamp new update absorb whole_blocks keep_rest process_block add_limbs mul_r
    columns reduce finalize pad_block propagate_carry carry_round h_to_u128 s_to_u128
rfc_vector = refl

-- A tag of zeros is wrong for this record.
pub zero_tag_wrong :
    replicate 16 0
    ≢ mac (new_key (replicate 32 7)) (3 ∷ 1 ∷ 0 ∷ 9 ∷ replicate 7 0 ++ 40 ∷ 0 ∷ 1 ∷ 5 ∷ [])
unfolding mac new_key clamp new update absorb whole_blocks keep_rest process_block add_limbs mul_r
    columns reduce finalize pad_block propagate_carry carry_round h_to_u128 s_to_u128
zero_tag_wrong e = ground arith

rfc_residue : 5 ≤ residue (clamped_r rfc_key) rfc_message
unfolding residue accumulate chunks
rfc_residue = omega arith

mac-rfc_mac_example :
    mac (new_key rfc_key) rfc_message ≡ rfc_mac (clamped_r rfc_key) (pad_s rfc_key) rfc_message
mac-rfc_mac_example = mac-rfc_mac rfc_key rfc_message refl (omega arith) (omega arith) rfc_residue

update-Absorbed_example :
    Absorbed
      (new_key rfc_key)
      (rfc_message ++ (1 ∷ 2 ∷ []))
      (update (update (new (new_key rfc_key)) rfc_message) (1 ∷ 2 ∷ []))
update-Absorbed_example =
    update-Absorbed (new_key rfc_key) rfc_message (update (new (new_key rfc_key)) rfc_message)
      (1 ∷ 2 ∷ []) (new_key_lem rfc_key refl (omega arith)).0.0 (omega arith) (omega arith)
      (update-Absorbed (new_key rfc_key) [] (new (new_key rfc_key)) rfc_message
        (new_key_lem rfc_key refl (omega arith)).0.0 tt (omega arith)
        (new-Absorbed (new_key rfc_key)))

-- Five limbs of 27 bits, and a key with full limbs.
abbrev wide : Limbs
wide = record { l0 = 2 ^ 27; l1 = 2 ^ 27; l2 = 5; l3 = 2 ^ 27; l4 = 2 ^ 27 }

abbrev full : Limbs
full = record {
  l0 = 2 ^ 26 - 1;
  l1 = 2 ^ 26 - 1;
  l2 = 2 ^ 26 - 1;
  l3 = 2 ^ 26 - 1;
  l4 = 2 ^ 26 - 1;
}

full-IsReduced : IsReduced full
full-IsReduced = record {
  b0 = omega arith;
  b1 = omega arith;
  b2 = omega arith;
  b3 = omega arith;
  b4 = omega arith;
}

-- A key and a message whose polynomial is a multiple of the prime.
abbrev one_key : List ℕ
one_key = 1 ∷ replicate 31 0

abbrev bad_message : List ℕ
bad_message = 0xfb ∷ replicate 15 0xff ++ replicate 32 0

one_key-bad : p130 ≤ last_value (update (new (new_key one_key)) bad_message)
unfolding last_value last_limbs new_key clamp new update absorb whole_blocks keep_rest process_block
    add_limbs mul_r columns reduce propagate_carry carry_round
one_key-bad = omega arith

finalize-ne-rfc_mac_example :
    finalize (update (new (new_key one_key)) bad_message)
    ≢ rfc_mac (value (new_key one_key).r) (s_value (new_key one_key).s) bad_message
finalize-ne-rfc_mac_example =
    finalize-ne-rfc_mac (new_key one_key) bad_message (update (new (new_key one_key)) bad_message)
      (new_key_lem one_key refl (omega arith)).0 (omega arith)
      (update-Absorbed (new_key one_key) [] (new (new_key one_key)) bad_message
        (new_key_lem one_key refl (omega arith)).0.0 tt (omega arith)
        (new-Absorbed (new_key one_key)))
      one_key-bad
