-- ===== src/Net/Eth/RoundTrip.antt =====
-- A frame whose header was written is parsed back.
use project_qlinux.Prelude.{ℕ, ◌^◌, ◌≤◌, ◌<◌, ◌≡◌, ◌↔◌, some, List, arith, length, drop, true}
use project_qlinux.Net.Eth.{EthHeader, MacAddr, parse, write, eth_hdr_len, mac_eq}

-- For a 16-bit ethertype and a buffer of at least 14 bytes, parse gives back the header that
-- write puts there and the bytes behind it.
pub eth_parse-write :
    (h : EthHeader) (out : List ℕ)
    → h.ethertype < 2 ^ 16
    → eth_hdr_len ≤ length out
    → parse (write h out) ≡ some (h, drop eth_hdr_len out)
unfolding parse write
eth_parse-write h out e room = ground arith

pub mac_eq_iff : (a b : MacAddr) → (mac_eq a b ≡ true) ↔ (a ≡ b)
unfolding mac_eq
mac_eq_iff a b = ((λ h. ground arith), (λ h. ground arith))
