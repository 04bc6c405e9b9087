-- ===== src/Net/Ipv4/RoundTrip.antt =====
-- An IPv4 header that was written verifies and is parsed back.
use project_qlinux.Prelude.{
  ℕ, ◌+◌, ◌^◌, ◌≤◌, ◌<◌, ◌≡◌, ◌↔◌, ap, ◌∙◌, inl, some, List, arith, length, take, drop, length-drop,
  true,
}
use project_qlinux.Prelude.Words.{u16}
use project_qlinux.Net.Ipv4.{
  Ipv4Addr, parse, write, header_bytes, ipv4_hdr_len, default_ttl, checksum_add, checksum_finish,
  addr_eq,
}
use project_qlinux.Net.Ipv4.Checksum.{checksum_add_lem, checksum_finish-add, words_sum}

abbrev pub IsAddr : Ipv4Addr → Type 0
IsAddr a = (a.a0 < 256) × (a.a1 < 256) × (a.a2 < 256) × (a.a3 < 256)

pub addr_eq_iff : (a b : Ipv4Addr) → (addr_eq a b ≡ true) ↔ (a ≡ b)
unfolding addr_eq
addr_eq_iff a b = ((λ h. ground arith), (λ h. ground arith))

checksum_finish-lt : (s : ℕ) → checksum_finish s < 2 ^ 16
unfolding checksum_finish
checksum_finish-lt s = omega arith

-- The header with its own checksum in it sums to zero.
header_verifies :
    (src dst : Ipv4Addr) (protocol id total : ℕ)
    → IsAddr src
    → IsAddr dst
    → protocol < 256
    → let c = checksum_finish (checksum_add 0 (header_bytes src dst protocol id total 0)) in
      checksum_finish (checksum_add 0 (header_bytes src dst protocol id total c)) ≡ 0
header_verifies src dst protocol id total hs hd hp =
    let zero_sum : ℕ = words_sum (header_bytes src dst protocol id total 0) in
    let first : checksum_add 0 (header_bytes src dst protocol id total 0) ≡ zero_sum =
      checksum_add_lem (header_bytes src dst protocol id total 0) 0 (omega arith) ∙ (omega arith) in
    let c : ℕ = checksum_finish (checksum_add 0 (header_bytes src dst protocol id total 0)) in
    let small : c < 2 ^ 16 = checksum_finish-lt _ in
    let second : checksum_add 0 (header_bytes src dst protocol id total c) ≡ zero_sum + c =
      checksum_add_lem (header_bytes src dst protocol id total c) 0 (omega arith) ∙ (omega arith) in
    ap checksum_finish second
    ∙ checksum_finish-add zero_sum c (omega arith) (omega arith) (inl (ap checksum_finish first))

-- For two addresses of bytes, an 8-bit protocol, a 16-bit id and a total length below 2 ^ 16 for
-- which the buffer has room, parse accepts the header that write puts there and gives its fields
-- and the payload bytes.
pub ipv4_parse-write :
    (src dst : Ipv4Addr) (protocol id n : ℕ) (out : List ℕ)
    → IsAddr src
    → IsAddr dst
    → protocol < 256
    → id < 2 ^ 16
    → ipv4_hdr_len + n < 2 ^ 16
    → ipv4_hdr_len + n ≤ length out
    → parse (write src dst protocol id n out)
      ≡ some (
        record { src = src; dst = dst; protocol = protocol; ttl = default_ttl; id = id },
        take n (drop ipv4_hdr_len out),
      )
unfolding parse write
ipv4_parse-write src dst protocol id n out hs hd hp hi fits room =
    let total : ℕ = u16 (ipv4_hdr_len + n) in
    let v = header_verifies src dst protocol id total hs hd hp in
    let e : u16 (ipv4_hdr_len + n) ≡ ipv4_hdr_len + n = omega arith in
    ground (arith, v, length-drop ipv4_hdr_len out)
