-- ===== src/Net/Stack/Send.antt =====
-- The sending side of kernel/net/src/stack.rs: address resolution, frames and records.
use project_qlinux.Prelude.{
  ℕ, ◌+◌, ◌%◌, ◌^◌, Option, none, some, List, ◌++◌, ltb, if◌then◌else◌, length, take, drop,
  replicate, overwrite, Result, ok, err,
}
use project_qlinux.Qkey.{KeyLane, tx, set_tx}
use project_qlinux.Net.Error.{NetError, arp_pending, payload_too_large}
use project_qlinux.Net.Eth.{
  MacAddr, EthHeader, broadcast, ethertype_arp, ethertype_ipv4, eth_hdr_len, max_frame,
}
use project_qlinux.Net.Eth
use project_qlinux.Net.Ipv4.{Ipv4Addr, ipv4_hdr_len, proto_udp}
use project_qlinux.Net.Ipv4
use project_qlinux.Net.Udp.{UdpHeader, udp_hdr_len}
use project_qlinux.Net.Udp
use project_qlinux.Net.Arp.{ArpPacket, arp_len, op_request}
use project_qlinux.Net.Arp
use project_qlinux.Net.Qtls.{ContentType, max_record_len, seal}
use project_qlinux.Net.Device.{NetDevice}
use project_qlinux.Net.Stack.{NetStack, session, peer, set_keys}

abbrev pub l3 : ℕ
l3 = eth_hdr_len

abbrev pub l4 : ℕ
l4 = l3 + ipv4_hdr_len

abbrev pub l7 : ℕ
l7 = l4 + udp_hdr_len

abbrev zero_mac : MacAddr
zero_mac = record { m0 = 0; m1 = 0; m2 = 0; m3 = 0; m4 = 0; m5 = 0 }

-- `f[o..]` is written.
abbrev pub write_from : ℕ → (List ℕ → List ℕ) → List ℕ → List ℕ
write_from o write f = take o f ++ write (drop o f)

-- The frame that `send_udp` builds.
unfoldable pub udp_frame : MacAddr → MacAddr → Ipv4Addr → Ipv4Addr → ℕ → ℕ → ℕ → List ℕ → List ℕ
udp_frame dst_mac src_mac ip dst sport dport id payload =
    let total = l7 + length payload in
    let f0 =
      Eth.write (record { dst = dst_mac; src = src_mac; ethertype = ethertype_ipv4 })
        (replicate max_frame 0) in
    let f1 = write_from l7 (overwrite payload) f0 in
    let finished =
      Udp.finish (record { src_port = sport; dst_port = dport }) ip dst (length payload)
        (drop l4 f1) in
    let f2 = take l4 f1 ++ finished.1 in
    let f3 = write_from l3 (Ipv4.write ip dst proto_udp id finished.0) f2 in take total f3

module _ {D : Type 0} (dv : NetDevice D) where
  -- A call of the device.
  unfoldable pub transmit : NetStack D → List ℕ → NetStack D × Result NetError (Unit {0})
  transmit st f = let r = dv.transmit st.dev f in (record st { dev = r.0 }, r.1)

  unfoldable pub send_arp :
      NetStack D → MacAddr → ArpPacket → NetStack D × Result NetError (Unit {0})
  unfolding transmit
  send_arp st dst pkt =
      let f0 =
        Eth.write (record { dst = dst; src = dv.mac st.dev; ethertype = ethertype_arp })
          (replicate (eth_hdr_len + arp_len) 0) in
      transmit st (write_from eth_hdr_len (Arp.write pkt) f0)

  abbrev pub asked : NetStack D × Result NetError (Unit {0}) → NetStack D × Result NetError MacAddr
  asked (st, err e) = (st, err e)
  asked (st, ok u) = (st, err arp_pending)

  abbrev pub resolve_found :
      NetStack D → Ipv4Addr → Option MacAddr → NetStack D × Result NetError MacAddr
  resolve_found st ip (some m) = (st, ok m)
  resolve_found st ip none = asked (
      send_arp st broadcast
        (record { op = op_request; sha = dv.mac st.dev; spa = st.ip; tha = zero_mac; tpa = ip }))

  -- An address that is not known is asked for, and the call ends with `ArpPending`.
  unfoldable pub resolve : NetStack D → Ipv4Addr → NetStack D × Result NetError MacAddr
  resolve st ip = resolve_found st ip (Arp.lookup st.arp ip)

  unfoldable pub send_udp :
      NetStack D → MacAddr → Ipv4Addr → ℕ → ℕ → List ℕ → NetStack D × Result NetError (Unit {0})
  unfolding transmit udp_frame
  send_udp st dst_mac dst sport dport payload =
      if ltb max_frame (l7 + length payload)
      then (st, err payload_too_large)
      else transmit (record st { ip_id = (st.ip_id + 1) % 2 ^ 16 })
          (udp_frame dst_mac (dv.mac st.dev) st.ip dst sport dport st.ip_id payload)

  abbrev pub send_on :
      NetStack D
      → ℕ
      → ℕ
      → MacAddr
      → Result NetError (ℕ × List ℕ × KeyLane)
      → NetStack D × Result NetError (Unit {0})
  send_on st pi si dst_mac (err e) = (st, err e)
  send_on st pi si dst_mac (ok (n, rec, lane)) =
      let s = session st si in
      send_udp (set_keys st pi (set_tx (peer st pi).keys lane)) dst_mac s.peer_ip s.local_port
        s.peer_port (take n rec)

  -- What follows a resolved address: the key bytes are used up first, then the record is sent.
  abbrev pub send_sealed :
      NetStack D → ℕ → ℕ → ContentType → List ℕ → MacAddr → NetStack D × Result NetError (Unit {0})
  send_sealed st pi si ctype bytes dst_mac =
      send_on st pi si dst_mac
        (seal (tx (peer st pi).keys) ctype (session st si).id bytes (replicate max_record_len 0))

  abbrev pub send_resolved :
      ℕ
      → ℕ
      → ContentType
      → List ℕ
      → NetStack D × Result NetError MacAddr
      → NetStack D × Result NetError (Unit {0})
  send_resolved pi si ctype bytes (st, err e) = (st, err e)
  send_resolved pi si ctype bytes (st, ok m) = send_sealed st pi si ctype bytes m

  unfoldable pub send_record :
      NetStack D → ℕ → ℕ → ContentType → List ℕ → NetStack D × Result NetError (Unit {0})
  send_record st pi si ctype bytes =
      send_resolved pi si ctype bytes (resolve st (session st si).peer_ip)
