-- ===== src/Net/Udp.antt =====
-- kernel/net/src/udp.rs: UDP headers with the checksum over the pseudo header.
pub mod RoundTrip
use project_qlinux.Prelude.{
  ℕ, ◌+◌, Bool, not, ◌&&◌, ◌||◌, ◌%◌, ◌^◌, Option, none, some, List, [], ◌∷◌, ◌++◌, ltb, ◌==◌,
  if◌then◌else◌, length, get_or, take, drop, overwrite,
}
use project_qlinux.Prelude.Words.{u16, u32, to_be, from_be}
use project_qlinux.Net.Ipv4.{Ipv4Addr, addr_bytes, checksum_add, checksum_finish, proto_udp}

abbrev pub udp_hdr_len : ℕ
udp_hdr_len = 8

unfoldable pub pseudo_sum : Ipv4Addr → Ipv4Addr → ℕ → ℕ
pseudo_sum src dst len =
    u32 (checksum_add (checksum_add 0 (addr_bytes src)) (addr_bytes dst) + proto_udp + len)

pub record UdpHeader : Type 0 where
  pub src_port : ℕ
  pub dst_port : ℕ

pub parse : Ipv4Addr → Ipv4Addr → List ℕ → Option (UdpHeader × List ℕ)
parse src dst seg =
    let len = from_be (get_or seg 4 0 ∷ get_or seg 5 0 ∷ []) in
    let field = from_be (get_or seg 6 0 ∷ get_or seg 7 0 ∷ []) in
    if ltb (length seg) udp_hdr_len
    then none
    else if ltb len udp_hdr_len || ltb (length seg) len
    then none
    else if not (field == 0)
        && not (checksum_finish (checksum_add (pseudo_sum src dst len) (take len seg)) == 0)
    then none
    else some (
      record {
        src_port = from_be (get_or seg 0 0 ∷ get_or seg 1 0 ∷ []);
        dst_port = from_be (get_or seg 2 0 ∷ get_or seg 3 0 ∷ []);
      },
      drop udp_hdr_len (take len seg),
    )

abbrev pub header_bytes : UdpHeader → ℕ → ℕ → List ℕ
header_bytes h len sum = to_be 2 h.src_port ++ (to_be 2 h.dst_port ++ (to_be 2 len ++ to_be 2 sum))

-- The payload already stands behind the header in `out`. The length written, and the buffer.
pub finish : UdpHeader → Ipv4Addr → Ipv4Addr → ℕ → List ℕ → ℕ × List ℕ
finish h src dst payload_len out =
    let len = u16 (udp_hdr_len + payload_len) in
    let out0 = overwrite (header_bytes h len 0) out in
    let c = checksum_finish (checksum_add (pseudo_sum src dst len) (take len out0)) in
    let field = if c == 0 then 0xffff else c in (len, overwrite (header_bytes h len field) out)
