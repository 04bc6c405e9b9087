-- ===== src/Net/Arp.antt =====
-- kernel/net/src/arp.rs: ARP packets and the cache of addresses.
pub mod RoundTrip
pub mod Cache
use project_qlinux.Prelude.{
  ℕ, ◌+◌, ◌%◌, Bool, true, false, not, ◌||◌, Option, none, some, List, [], ◌∷◌, ◌++◌, ltb, ◌==◌,
  if◌then◌else◌, length, get_or, set, take, replicate, overwrite,
}
use project_qlinux.Prelude.Words.{to_be, from_be}
use project_qlinux.Uhf.CtEq.{ct_eq_slice}
use project_qlinux.Net.Eth.{MacAddr, mac_at, mac_bytes}
use project_qlinux.Net.Ipv4.{Ipv4Addr, addr_at, addr_bytes, addr_eq}

abbrev pub arp_len : ℕ
arp_len = 28

abbrev pub op_request : ℕ
op_request = 1

abbrev pub op_reply : ℕ
op_reply = 2

abbrev pub arp_fixed : List ℕ
arp_fixed = 0 ∷ 1 ∷ 8 ∷ 0 ∷ 6 ∷ 4 ∷ []

abbrev pub cache_size : ℕ
cache_size = 8

-- `==` of two byte slices.
abbrev pub bytes_eq : List ℕ → List ℕ → Bool
bytes_eq [] [] = true
bytes_eq [] (y ∷ ys) = false
bytes_eq (x ∷ xs) [] = false
bytes_eq (x ∷ xs) (y ∷ ys) = let rest = bytes_eq xs ys in if x == y then rest else false

pub record ArpPacket : Type 0 where
  pub op : ℕ
  pub sha : MacAddr
  pub spa : Ipv4Addr
  pub tha : MacAddr
  pub tpa : Ipv4Addr

pub parse : List ℕ → Option ArpPacket
parse p =
    if ltb (length p) arp_len || not (bytes_eq (take 6 p) arp_fixed)
    then none
    else some (record {
      op = from_be (get_or p 6 0 ∷ get_or p 7 0 ∷ []);
      sha = mac_at p 8;
      spa = addr_at p 14;
      tha = mac_at p 18;
      tpa = addr_at p 24;
    })

pub write : ArpPacket → List ℕ → List ℕ
write a out =
    overwrite
      (arp_fixed
        ++ (to_be 2 a.op
            ++ (mac_bytes a.sha ++ (addr_bytes a.spa ++ (mac_bytes a.tha ++ addr_bytes a.tpa)))))
      out

pub record ArpCache : Type 0 where
  pub entries : List (Option (Ipv4Addr × MacAddr))
  pub next : ℕ

pub new : ArpCache
new = record { entries = replicate cache_size none; next = 0 }

-- `flatten` and `find`: the first filled entry with that address.
unfoldable pub find_entry : Ipv4Addr → List (Option (Ipv4Addr × MacAddr)) → Option MacAddr
find_entry ip [] = none
find_entry ip (none ∷ es) = find_entry ip es
find_entry ip (some (i, m) ∷ es) =
    let rest = find_entry ip es in if addr_eq i ip then some m else rest

unfoldable pub lookup : ArpCache → Ipv4Addr → Option MacAddr
unfolding find_entry
lookup c ip = find_entry ip c.entries

-- The entry found has its address replaced through the `iter_mut`.
unfoldable pub replace_entry :
    Ipv4Addr → MacAddr → List (Option (Ipv4Addr × MacAddr)) → List (Option (Ipv4Addr × MacAddr))
replace_entry ip mac [] = []
replace_entry ip mac (none ∷ es) = none ∷ replace_entry ip mac es
replace_entry ip mac (some (i, m) ∷ es) =
    let rest = replace_entry ip mac es in
    if addr_eq i ip then some (i, mac) ∷ es else some (i, m) ∷ rest

-- What `insert` does with what the search found.
abbrev pub insert_found : ArpCache → Ipv4Addr → MacAddr → Option MacAddr → ArpCache
insert_found c ip mac (some m) = record c { entries = replace_entry ip mac c.entries }
insert_found c ip mac none = record {
  entries = set c.entries c.next (some (ip, mac));
  next = (c.next + 1) % cache_size;
}

pub insert : ArpCache → Ipv4Addr → MacAddr → ArpCache
insert c ip mac = insert_found c ip mac (find_entry ip c.entries)
