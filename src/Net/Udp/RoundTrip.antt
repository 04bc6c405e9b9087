-- ===== src/Net/Udp/RoundTrip.antt =====
-- A UDP segment that was finished verifies and is parsed back.
use project_qlinux.Prelude.{
  ℕ, ◌+◌, ◌^◌, ◌≤◌, ◌<◌, ◌≡◌, ◌⊎◌, sym, ap, ◌∙◌, inl, inr, some, List, ◌++◌, arith, length, take,
  drop, length-drop, length-take, ◌==◌, if◌then◌else◌,
}
use project_qlinux.Prelude.Words.{u16, IsBytes, IsBytes-take, IsBytes-drop}
use project_qlinux.Net.Ipv4.{Ipv4Addr, addr_bytes, checksum_add, checksum_finish}
use project_qlinux.Net.Ipv4.Checksum.{
  checksum_add_lem, checksum_finish-add, words_sum, words_sum-le,
}
use project_qlinux.Net.Ipv4.RoundTrip.{IsAddr}
use project_qlinux.Net.Udp.{UdpHeader, parse, finish, header_bytes, pseudo_sum, udp_hdr_len}

pseudo_sum_lem :
    (src dst : Ipv4Addr) (len : ℕ)
    → IsAddr src
    → IsAddr dst
    → len < 2 ^ 16
    → pseudo_sum src dst len ≡ words_sum (addr_bytes src) + words_sum (addr_bytes dst) + 17 + len
unfolding pseudo_sum
pseudo_sum_lem src dst len hs hd hl =
    let a : checksum_add 0 (addr_bytes src) ≡ words_sum (addr_bytes src) =
      checksum_add_lem (addr_bytes src) 0 (omega arith) ∙ (omega arith) in
    rw a (
      let b : checksum_add (words_sum (addr_bytes src)) (addr_bytes dst)
          ≡ words_sum (addr_bytes src) + words_sum (addr_bytes dst) =
        checksum_add_lem (addr_bytes dst) (words_sum (addr_bytes src)) (omega arith) in
      rw b (omega arith))

-- The checksum field that `finish` writes.
abbrev field_of : ℕ → ℕ
field_of c = if c == 0 then 0xffff else c

field_of_lem : (c : ℕ) → (field_of c ≡ c) ⊎ ((c ≡ 0) × (field_of c ≡ 65535))
field_of_lem c = ground arith

finish-lt : (s : ℕ) → checksum_finish s < 2 ^ 16
unfolding checksum_finish
finish-lt s = omega arith

field_of-bounds : (c : ℕ) → c < 2 ^ 16 → (0 < field_of c) × (field_of c < 2 ^ 16)
field_of-bounds c h = ground arith

-- The segment with a checksum field `c`.
abbrev segment : UdpHeader → ℕ → ℕ → List ℕ → List ℕ
segment h len c payload = header_bytes h len c ++ payload

segment_sum :
    (h : UdpHeader) (len c : ℕ) (payload : List ℕ)
    → len < 2 ^ 16
    → h.src_port < 2 ^ 16
    → h.dst_port < 2 ^ 16
    → c < 2 ^ 16
    → words_sum (segment h len c payload) ≡ h.src_port + h.dst_port + len + c + words_sum payload
segment_sum h len c payload hl hs hd hc = omega arith

segment_verifies :
    (h : UdpHeader) (src dst : Ipv4Addr) (len : ℕ) (payload : List ℕ)
    → IsAddr src
    → IsAddr dst
    → h.src_port < 2 ^ 16
    → h.dst_port < 2 ^ 16
    → len < 2 ^ 16
    → words_sum payload < 2 ^ 31
    → let c = checksum_finish (checksum_add (pseudo_sum src dst len) (segment h len 0 payload)) in
      checksum_finish (checksum_add (pseudo_sum src dst len) (segment h len (field_of c) payload))
      ≡ 0
segment_verifies h src dst len payload hs hd p0 p1 hl hp =
    let ps = pseudo_sum_lem src dst len hs hd hl in
    let e0 = segment_sum h len 0 payload hl p0 p1 (omega arith) in
    let sum : ℕ = pseudo_sum src dst len + words_sum (segment h len 0 payload) in
    let first : checksum_add (pseudo_sum src dst len) (segment h len 0 payload) ≡ sum =
      checksum_add_lem (segment h len 0 payload) (pseudo_sum src dst len) (omega arith) in
    let c : ℕ = checksum_finish (checksum_add (pseudo_sum src dst len) (segment h len 0 payload)) in
    let same : c ≡ checksum_finish sum = ap checksum_finish first in
    let small : c < 2 ^ 16 = finish-lt _ in
    let fb = field_of-bounds c small in
    let e1 = segment_sum h len (field_of c) payload hl p0 p1 fb.1 in
    let second : checksum_add (pseudo_sum src dst len) (segment h len (field_of c) payload)
        ≡ sum + field_of c =
      checksum_add_lem (segment h len (field_of c) payload) (pseudo_sum src dst len) (omega arith)
      ∙ (omega arith) in
    ap checksum_finish second
    ∙ checksum_finish-add sum (field_of c) (omega arith) (omega arith)
        (elim (field_of_lem c) [ inl e ↦ inl (e ∙ same) | inr e ↦ inr (sym same ∙ e.0, e.1) ])

-- For two addresses of bytes, 16-bit ports, a buffer of bytes with room for header and payload,
-- and fewer than 2 ^ 15 bytes in all, parse accepts what finish wrote and gives the ports and
-- the payload bytes.
pub udp_parse-finish :
    (h : UdpHeader) (src dst : Ipv4Addr) (n : ℕ) (out : List ℕ)
    → IsAddr src
    → IsAddr dst
    → h.src_port < 2 ^ 16
    → h.dst_port < 2 ^ 16
    → IsBytes out
    → udp_hdr_len + n < 2 ^ 15
    → udp_hdr_len + n ≤ length out
    → parse src dst (finish h src dst n out).1 ≡ some (h, take n (drop udp_hdr_len out))
unfolding parse finish
udp_parse-finish h src dst n out hs hd p0 p1 hb fits room =
    let e : u16 (8 + n) ≡ 8 + n = omega arith in
    let body : List ℕ = take n (drop 8 out) in
    let body_len : length body ≤ n = omega (arith, length-take n (drop 8 out)) in
    let sum_le = words_sum-le body (IsBytes-take n (drop 8 out) (IsBytes-drop 8 out hb)) in
    let v = segment_verifies h src dst (8 + n) body hs hd p0 p1 (omega arith) (omega arith) in
    rw e (ground (arith, v, length-drop 8 out))
