-- ===== src/Net/Eth.antt =====
-- kernel/net/src/eth.rs: Ethernet II frames. A `[u8; 6]` is a record of six bytes.
pub mod RoundTrip
use project_qlinux.Prelude.{
  ℕ, ◌+◌, Bool, ◌&&◌, Option, none, some, List, [], ◌∷◌, ◌++◌, ltb, ◌==◌, if◌then◌else◌, length,
  get_or, drop, overwrite,
}
use project_qlinux.Prelude.Words.{to_be, from_be}

pub record MacAddr : Type 0 where
  pub m0 : ℕ
  pub m1 : ℕ
  pub m2 : ℕ
  pub m3 : ℕ
  pub m4 : ℕ
  pub m5 : ℕ

abbrev pub broadcast : MacAddr
broadcast = record { m0 = 255; m1 = 255; m2 = 255; m3 = 255; m4 = 255; m5 = 255 }

-- The six bytes from index `i` on, and back.
abbrev pub mac_at : List ℕ → ℕ → MacAddr
mac_at p i = record {
  m0 = get_or p i 0;
  m1 = get_or p (i + 1) 0;
  m2 = get_or p (i + 2) 0;
  m3 = get_or p (i + 3) 0;
  m4 = get_or p (i + 4) 0;
  m5 = get_or p (i + 5) 0;
}

abbrev pub mac_bytes : MacAddr → List ℕ
mac_bytes m = m.m0 ∷ m.m1 ∷ m.m2 ∷ m.m3 ∷ m.m4 ∷ m.m5 ∷ []

pub mac_eq : MacAddr → MacAddr → Bool
mac_eq a b =
    a.m0 == b.m0 && a.m1 == b.m1 && a.m2 == b.m2 && a.m3 == b.m3 && a.m4 == b.m4 && a.m5 == b.m5

abbrev pub eth_hdr_len : ℕ
eth_hdr_len = 14

abbrev pub eth_mtu : ℕ
eth_mtu = 1500

abbrev pub max_frame : ℕ
max_frame = eth_hdr_len + eth_mtu

abbrev pub ethertype_ipv4 : ℕ
ethertype_ipv4 = 0x0800

abbrev pub ethertype_arp : ℕ
ethertype_arp = 0x0806

pub record EthHeader : Type 0 where
  pub dst : MacAddr
  pub src : MacAddr
  pub ethertype : ℕ

pub parse : List ℕ → Option (EthHeader × List ℕ)
parse frame =
    if ltb (length frame) eth_hdr_len
    then none
    else some (
      record {
        dst = mac_at frame 0;
        src = mac_at frame 6;
        ethertype = from_be (get_or frame 12 0 ∷ get_or frame 13 0 ∷ []);
      },
      drop eth_hdr_len frame,
    )

pub write : EthHeader → List ℕ → List ℕ
write h out = overwrite (mac_bytes h.dst ++ (mac_bytes h.src ++ to_be 2 h.ethertype)) out
