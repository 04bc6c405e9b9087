-- ===== src/Net/Tests.antt =====
-- Concrete runs of the theorems on records, headers and checksums.
use project_qlinux.Prelude.{
  ℕ, ◌+◌, ◌<◌, ◌≤◌, ◌≡◌, ◌⊎◌, refl, some, length, List, [], ◌∷◌, ◌++◌, arith, take, drop, ok, err,
  replicate, overwrite,
}
use project_qlinux.Qkey.{KeyLane, insufficient_key}
use project_qlinux.Qkey.Stream.{Tracks}
use project_qlinux.Qkey.Sample.{key_block, fed, used, fed-Tracks, fed-base, used-Tracks, used-base}
use project_qlinux.Uhf.Poly1305.Tests.{zero_tag_wrong}
use project_qlinux.Net.Error.{key_error, auth_failed, payload_too_large}
use project_qlinux.Net.Qtls.{
  app_data, RecordHeader, parse, mac, seal, open_record, record_hdr_len, tag_len, key_cost,
}
use project_qlinux.Net.Qtls.RoundTrip.{seal-open_record, header, sealed}
use project_qlinux.Net.Qtls.Reject.{open_record_forged, seal_cases}
use project_qlinux.Net.Eth.{MacAddr}
use project_qlinux.Net.Ipv4.{
  Ipv4Addr, Ipv4Header, ipv4_hdr_len, default_ttl, checksum_finish, fold_carries,
}
use project_qlinux.Net.Ipv4
use project_qlinux.Net.Ipv4.RoundTrip.{ipv4_parse-write}
use project_qlinux.Net.Udp.{UdpHeader, udp_hdr_len}
use project_qlinux.Net.Udp
use project_qlinux.Net.Udp.RoundTrip.{udp_parse-finish}

abbrev buffer : List ℕ
buffer = replicate 64 0

abbrev hi : List ℕ
hi = 104 ∷ 105 ∷ []

-- The receiver is behind the sender, which has used 40 bytes for a record that was lost.
seal-open_record_example :
    (rec : List ℕ) × (tx' : KeyLane) × (rx' : KeyLane) × (seal used app_data 9 hi buffer
      ≡ ok (record_hdr_len + 2 + tag_len, overwrite rec buffer, tx'))
    × (open_record fed rec buffer ≡ ok (header app_data 9 used.base 2, 2, overwrite hi buffer, rx'))
    × Tracks key_block tx'
    × Tracks key_block rx'
    × (rx'.base ≡ tx'.base)
seal-open_record_example =
    seal-open_record key_block used fed app_data 9 hi buffer buffer used-Tracks fed-Tracks
      (omega (arith, fed-base)) (omega (arith, used-base)) (omega arith) (omega arith) (omega arith)
      (omega arith)

-- A record of one byte with the tag zero, for the key bytes from offset 40 on.
abbrev record_at : ℕ → List ℕ
record_at offset = 3 ∷ 1 ∷ 0 ∷ 9 ∷ replicate 7 0 ++ offset ∷ 0 ∷ 1 ∷ 5 ∷ replicate 16 0

abbrev record_header : ℕ → RecordHeader
record_header offset = header app_data 9 offset 1

open_record_forged_example : open_record fed (record_at 40) buffer ≡ err auth_failed
unfolding parse mac
open_record_forged_example =
    open_record_forged key_block fed (record_at 40) buffer (record_header 40) fed-Tracks refl
      (omega arith) (omega (arith, fed-base)) (omega arith) zero_tag_wrong

-- A payload of 30 bytes, for which the lane has no more keys.
abbrev long : List ℕ
long = replicate 30 1

seal_cases_example :
    ((1400 < 30) ⊎ (64 < 60)) × (seal used app_data 9 long buffer ≡ err payload_too_large)
    ⊎ ((30 ≤ 1400)
          × (60 ≤ 64)
          × (length key_block < used.base + key_cost 30)
          × (seal used app_data 9 long buffer ≡ err (key_error insufficient_key))
        ⊎ (30 ≤ 1400)
          × (60 ≤ 64)
          × (used.base + key_cost 30 ≤ length key_block)
          × ((tx' : KeyLane) × (seal used app_data 9 long buffer
                ≡ ok (60, overwrite (sealed key_block used.base app_data 9 long) buffer, tx'))
              × Tracks key_block tx'
              × (tx'.base ≡ used.base + key_cost 30)))
seal_cases_example = seal_cases key_block used app_data 9 long buffer used-Tracks

abbrev node : MacAddr
node = record { m0 = 2; m1 = 0x51; m2 = 0x4c; m3 = 0; m4 = 0; m5 = 1 }

abbrev addr : Ipv4Addr
addr = record { a0 = 10; a1 = 0; a2 = 0; a3 = 1 }

ipv4_parse-write_example :
    Ipv4.parse (Ipv4.write addr addr 17 7 30 buffer)
    ≡ some (
      record { src = addr; dst = addr; protocol = 17; ttl = default_ttl; id = 7 },
      take 30 (drop ipv4_hdr_len buffer),
    )
ipv4_parse-write_example =
    ipv4_parse-write addr addr 17 7 30 buffer (omega arith) (omega arith) (omega arith)
      (omega arith) (omega arith) (omega arith)

udp_parse-finish_example :
    Udp.parse addr addr (Udp.finish (record { src_port = 5; dst_port = 853 }) addr addr 30 buffer).1
    ≡ some (record { src_port = 5; dst_port = 853 }, take 30 (drop udp_hdr_len buffer))
udp_parse-finish_example =
    udp_parse-finish (record { src_port = 5; dst_port = 853 }) addr addr 30 buffer (omega arith)
      (omega arith) (omega arith) (omega arith) (omega arith) (omega arith) (omega arith)
