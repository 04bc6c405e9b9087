-- ===== src/Net/Ipv4.antt =====
-- kernel/net/src/ipv4.rs: IPv4 headers and the Internet checksum. A `[u8; 4]` is a record of four
-- bytes. The u32 sum wraps at 2 ^ 32.
pub mod Checksum
pub mod RoundTrip
use project_qlinux.Prelude.{
  ℕ, zero, suc, ◌+◌, ◌*◌, ◌-◌, ◌/◌, ◌%◌, ◌^◌, Bool, not, ◌&&◌, ◌||◌, Option, none, some, List, [],
  ◌∷◌, ◌++◌, ltb, ◌==◌, if◌then◌else◌, length, get_or, take, drop, slice, overwrite,
}
use project_qlinux.Prelude.Words.{u16, u32, to_be, from_be}

pub record Ipv4Addr : Type 0 where
  pub a0 : ℕ
  pub a1 : ℕ
  pub a2 : ℕ
  pub a3 : ℕ

abbrev pub addr_at : List ℕ → ℕ → Ipv4Addr
addr_at p i = record {
  a0 = get_or p i 0;
  a1 = get_or p (i + 1) 0;
  a2 = get_or p (i + 2) 0;
  a3 = get_or p (i + 3) 0;
}

abbrev pub addr_bytes : Ipv4Addr → List ℕ
addr_bytes a = a.a0 ∷ a.a1 ∷ a.a2 ∷ a.a3 ∷ []

unfoldable pub addr_eq : Ipv4Addr → Ipv4Addr → Bool
addr_eq a b = a.a0 == b.a0 && a.a1 == b.a1 && a.a2 == b.a2 && a.a3 == b.a3

abbrev pub ipv4_hdr_len : ℕ
ipv4_hdr_len = 20

abbrev pub proto_udp : ℕ
proto_udp = 17

abbrev pub default_ttl : ℕ
default_ttl = 64

abbrev pub flag_df : ℕ
flag_df = 0x4000

-- Pairs of bytes as big-endian words; a last odd byte is the high half of one.
unfoldable pub checksum_add : ℕ → List ℕ → ℕ
checksum_add sum [] = sum
checksum_add sum (b ∷ []) = u32 (sum + b * 256)
checksum_add sum (b ∷ c ∷ rest) = checksum_add (u32 (sum + (b * 256 + c))) rest

-- `while sum >> 16 != 0`; four rounds are enough for a u32.
unfoldable pub fold_carries : ℕ → ℕ → ℕ
fold_carries zero sum = sum
fold_carries (suc fuel) sum =
    let rest = fold_carries fuel (sum % 2 ^ 16 + sum / 2 ^ 16) in
    if sum / 2 ^ 16 == 0 then sum else rest

-- `!x` of a u16.
unfoldable pub checksum_finish : ℕ → ℕ
unfolding fold_carries
checksum_finish sum = 2 ^ 16 - 1 - u16 (fold_carries 4 sum)

pub record Ipv4Header : Type 0 where
  pub src : Ipv4Addr
  pub dst : Ipv4Addr
  pub protocol : ℕ
  pub ttl : ℕ
  pub id : ℕ

pub parse : List ℕ → Option (Ipv4Header × List ℕ)
parse p =
    let ihl = get_or p 0 0 % 16 * 4 in
    let total = from_be (get_or p 2 0 ∷ get_or p 3 0 ∷ []) in
    let frag = from_be (get_or p 6 0 ∷ get_or p 7 0 ∷ []) in
    if ltb (length p) ipv4_hdr_len || not (get_or p 0 0 / 16 == 4)
    then none
    else if ltb ihl ipv4_hdr_len || ltb total ihl || ltb (length p) total
    then none
    else if not (checksum_finish (checksum_add 0 (take ihl p)) == 0)
    then none
    else if not (frag % 2 ^ 14 == 0)
    then none
    else some (
      record {
        src = addr_at p 12;
        dst = addr_at p 16;
        protocol = get_or p 9 0;
        ttl = get_or p 8 0;
        id = from_be (get_or p 4 0 ∷ get_or p 5 0 ∷ []);
      },
      slice p ihl total,
    )

-- The header with a given checksum field.
abbrev pub header_bytes : Ipv4Addr → Ipv4Addr → ℕ → ℕ → ℕ → ℕ → List ℕ
header_bytes src dst protocol id total sum =
    0x45
    ∷ 0
    ∷ (to_be 2 total
        ++ (to_be 2 id
            ++ (to_be 2 flag_df
                ++ (default_ttl ∷ protocol ∷ (to_be 2 sum ++ (addr_bytes src ++ addr_bytes dst))))))

pub write : Ipv4Addr → Ipv4Addr → ℕ → ℕ → ℕ → List ℕ → List ℕ
write src dst protocol id payload_len out =
    let total = u16 (ipv4_hdr_len + payload_len) in
    let c = checksum_finish (checksum_add 0 (header_bytes src dst protocol id total 0)) in
    overwrite (header_bytes src dst protocol id total c) out
