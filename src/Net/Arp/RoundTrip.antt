-- ===== src/Net/Arp/RoundTrip.antt =====
-- A packet that was written is parsed back.
use project_qlinux.Prelude.{ℕ, ◌^◌, ◌≤◌, ◌<◌, ◌≡◌, some, List, arith, length, length-drop}
use project_qlinux.Net.Arp.{ArpPacket, parse, write, arp_len}

-- Whatever buffer the packet went into, the parser gives it back.
pub arp_parse-write :
    (a : ArpPacket) (out : List ℕ)
    → a.op < 2 ^ 16
    → arp_len ≤ length out
    → parse (write a out) ≡ some a
unfolding parse write
arp_parse-write a out o room = ground (arith, length-drop arp_len out)
