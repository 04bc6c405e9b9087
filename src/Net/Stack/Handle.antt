-- ===== src/Net/Stack/Handle.antt =====
-- The receiving side of kernel/net/src/stack.rs: from a frame down to a session.
use project_qlinux.Prelude.{
  ℕ, zero, suc, ◌+◌, Bool, true, false, not, ◌&&◌, ◌||◌, Option, none, some, List, [], ◌==◌,
  if◌then◌else◌, position, take, replicate, Result, ok, err,
}
use project_qlinux.Qkey.{rx, set_rx, KeyLane}
use project_qlinux.Net.Error.{NetError}
use project_qlinux.Net.Eth.{mac_eq, broadcast, ethertype_arp, ethertype_ipv4, max_frame}
use project_qlinux.Net.Eth
use project_qlinux.Net.Ipv4.{Ipv4Addr, addr_eq, proto_udp}
use project_qlinux.Net.Ipv4
use project_qlinux.Net.Udp
use project_qlinux.Net.Arp.{ArpPacket, op_request, op_reply}
use project_qlinux.Net.Arp
use project_qlinux.Net.Qtls.{
  ContentType, hello, hello_ack, app_data, close, RecordHeader, open_record, max_record_payload,
}
use project_qlinux.Net.Qtls
use project_qlinux.Net.Device.{NetDevice}
use project_qlinux.Net.Stack.{
  NetStack, free, hello_sent, established, closed, state_eq, Session, session, peer, set_session,
  set_keys, empty_queue, push, peer_index,
}
use project_qlinux.Net.Stack.Send.{send_arp, send_record}
use project_qlinux.Net.Stack.Socket.{is_free, is_port}

abbrev pub is_hello : ContentType → Bool
is_hello hello = true
is_hello _ = false

-- The session that a record belongs to.
abbrev pub belongs : Ipv4Addr → ℕ → ℕ → ℕ → Session → Bool
belongs src src_port dst_port id s =
    not (state_eq s.state free)
    && addr_eq s.peer_ip src
    && s.peer_port == src_port
    && s.local_port == dst_port
    && s.id == id

abbrev pub is_none {ℓ} : {A : Type ℓ} → Option A → Bool
is_none none = true
is_none (some a) = false

-- What an authentic record does to the session it belongs to.
abbrev pub on_record : ContentType → List ℕ → Session → Session
on_record hello pt s = s
on_record hello_ack pt s =
    if state_eq s.state hello_sent then record s { state = established } else s
on_record app_data pt s =
    if state_eq s.state established then record s { rx = (push s.rx pt).0 } else s
on_record close pt s = record s { state = closed }

abbrev pub accepted_session : Ipv4Addr → ℕ → ℕ → ℕ → Session
accepted_session src src_port dst_port id = record {
  state = established;
  id = id;
  peer_ip = src;
  peer_port = src_port;
  local_port = dst_port;
  accepted = false;
  rx = empty_queue;
}

module _ {D : Type 0} (dv : NetDevice D) where
  -- A hello from a listening port's client; its answer is sent if it can be.
  abbrev pub open_session : NetStack D → ℕ → Session → Option ℕ → NetStack D
  open_session st pi s none = st
  open_session st pi s (some si) = (send_record dv (set_session st si s) pi si hello_ack []).0

  -- The match on the content type and the session.
  abbrev pub dispatch :
      NetStack D → ℕ → Ipv4Addr → ℕ → ℕ → RecordHeader → List ℕ → Option ℕ → NetStack D
  dispatch st pi src src_port dst_port hdr pt (some si) =
      set_session st si (on_record hdr.ctype pt (session st si))
  dispatch st pi src src_port dst_port hdr pt none =
      let opened =
        open_session st pi (accepted_session src src_port dst_port hdr.session_id)
          (position is_free st.sessions) in
      if is_hello hdr.ctype then opened else st

  abbrev pub on_opened :
      NetStack D
      → ℕ
      → Ipv4Addr
      → ℕ
      → ℕ
      → Option ℕ
      → Result NetError (RecordHeader × ℕ × List ℕ × KeyLane)
      → NetStack D
  on_opened st pi src src_port dst_port existing (err e) = st
  on_opened st pi src src_port dst_port existing (ok (hdr, len, pt, lane)) =
      dispatch (set_keys st pi (set_rx (peer st pi).keys lane)) pi src src_port dst_port hdr
        (take len pt) existing

  -- A record is opened only for a session, or as a hello to a listening port.
  abbrev pub on_header :
      NetStack D → ℕ → Ipv4Addr → ℕ → ℕ → List ℕ → Result NetError RecordHeader → NetStack D
  on_header st pi src src_port dst_port rec (err e) = st
  on_header st pi src src_port dst_port rec (ok hdr) =
      let existing = position (belongs src src_port dst_port hdr.session_id) st.sessions in
      let fresh =
        is_hello hdr.ctype
        && is_none existing
        && not (is_none (position (is_port dst_port) st.ports)) in
      if is_none existing && not fresh
      then st
      else on_opened st pi src src_port dst_port existing
          (open_record (rx (peer st pi).keys) rec (replicate max_record_payload 0))

  -- A host with which no keys are shared is not answered at all.
  abbrev pub on_source : NetStack D → Ipv4Addr → ℕ → ℕ → List ℕ → Option ℕ → NetStack D
  on_source st src src_port dst_port rec none = st
  on_source st src src_port dst_port rec (some pi) =
      on_header st pi src src_port dst_port rec (Qtls.parse rec)

  unfoldable pub handle_qtls : NetStack D → Ipv4Addr → ℕ → ℕ → List ℕ → NetStack D
  handle_qtls st src src_port dst_port rec =
      on_source st src src_port dst_port rec (peer_index st src)

  unfoldable pub handle_ipv4 : NetStack D → List ℕ → NetStack D
  unfolding handle_qtls
  handle_ipv4 st p = elim (Ipv4.parse p) [
    | none ↦ st
    | some (ip, seg) ↦
        let handled : NetStack D = elim (Udp.parse ip.src ip.dst seg) [
          | none ↦ st
          | some (udp, rec) ↦ handle_qtls st ip.src udp.src_port udp.dst_port rec
        ] in
        if not (addr_eq ip.dst st.ip) || not (ip.protocol == proto_udp) then st else handled
  ]

  -- An address is learnt only from a registered peer; every request for this node is answered.
  abbrev pub on_arp : NetStack D → ArpPacket → NetStack D
  on_arp st a =
      let learnt : NetStack D = elim (peer_index st a.spa) [
        | none ↦ st
        | some i ↦ record st { arp = Arp.insert st.arp a.spa a.sha }
      ] in
      if not (addr_eq a.tpa st.ip)
      then st
      else if a.op == op_request
      then (send_arp dv learnt a.sha
          (record { op = op_reply; sha = dv.mac st.dev; spa = st.ip; tha = a.sha; tpa = a.spa })).0
      else learnt

  unfoldable pub handle_arp : NetStack D → List ℕ → NetStack D
  handle_arp st p = elim (Arp.parse p) [ none ↦ st | some a ↦ on_arp st a ]

  unfoldable pub handle_frame : NetStack D → List ℕ → NetStack D
  unfolding handle_arp handle_ipv4
  handle_frame st frame = elim (Eth.parse frame) [
    | none ↦ st
    | some (eth, payload) ↦
        if not (mac_eq eth.dst (dv.mac st.dev)) && not (mac_eq eth.dst broadcast)
        then st
        else if eth.ethertype == ethertype_arp
        then handle_arp st payload
        else if eth.ethertype == ethertype_ipv4
        then handle_ipv4 st payload
        else st
  ]

  -- The loop of `poll`, for at most `fuel` frames: the number handled, and `none` if frames are
  -- left. A device that hears itself may never run dry.
  unfoldable pub poll : ℕ → NetStack D → List ℕ → ℕ → Option (ℕ × NetStack D)
  unfolding handle_frame
  poll zero st frame n = none
  poll (suc fuel) st frame n = elim (dv.receive st.dev frame) [
    | none ↦ some (n, st)
    | some (len, buf, d) ↦
        poll fuel (handle_frame (record st { dev = d }) (take len buf)) buf (n + 1)
  ]
