-- ===== src/Net/Stack/Socket.antt =====
-- The socket interface of kernel/net/src/stack.rs, which the system calls use.
use project_qlinux.Prelude.{
  ℕ, ◌+◌, ◌%◌, ◌^◌, Bool, true, not, ◌&&◌, Option, none, some, List, [], ltb, ◌==◌, if◌then◌else◌,
  length, set, position, take, min, max, Result, ok, err,
}
use project_qlinux.Net.Error.{
  NetError, no_peer, no_session, not_established, would_block, table_full,
}
use project_qlinux.Net.Eth.{MacAddr}
use project_qlinux.Net.Ipv4.{Ipv4Addr}
use project_qlinux.Net.Qtls.{hello, app_data, close, max_record_payload}
use project_qlinux.Net.Device.{NetDevice}
use project_qlinux.Net.Stack.{
  NetStack, SessionState, free, hello_sent, established, closed, state_eq, Session, RxQueue,
  session, set_session, empty_session, empty_queue, pop, peer_index, ephemeral_base,
}
use project_qlinux.Net.Stack.Send.{resolve, send_record}

abbrev pub is_port : ℕ → ℕ → Bool
is_port port p = p == port

abbrev pub is_free : Session → Bool
is_free s = state_eq s.state free

-- Established, not handed out yet, and on this port.
abbrev pub is_waiting : ℕ → Session → Bool
is_waiting port s = state_eq s.state established && not s.accepted && s.local_port == port

abbrev listen_at :
    {D : Type 0} → NetStack D → ℕ → Option ℕ → NetStack D × Result NetError (Unit {0})
listen_at st port none = (st, err table_full)
listen_at st port (some i) = (record st { ports = set st.ports i port }, ok tt)

unfoldable pub listen : {D : Type 0} → NetStack D → ℕ → NetStack D × Result NetError (Unit {0})
listen st port = elim (position (is_port port) st.ports) [
  | some i ↦ (st, ok tt)
  | none ↦ listen_at st port (position (is_port 0) st.ports)
]

abbrev accepted_at : {D : Type 0} → NetStack D → Option ℕ → Option (ℕ × NetStack D)
accepted_at st none = none
accepted_at st (some i) = some (i, set_session st i (record (session st i) { accepted = true }))

-- The handle and the stack.
unfoldable pub accept : {D : Type 0} → NetStack D → ℕ → Option (ℕ × NetStack D)
accept st port = accepted_at st (position (is_waiting port) st.sessions)

unfoldable pub state_of : {D : Type 0} → NetStack D → ℕ → SessionState
state_of st h = if ltb h (length st.sessions) then (session st h).state else free

abbrev pub no_data : SessionState → Result NetError ℕ
no_data closed = ok 0
no_data free = err no_session
no_data hello_sent = err would_block
no_data established = err would_block

abbrev pub received :
    {D : Type 0}
    → NetStack D
    → ℕ
    → List ℕ
    → Option (ℕ × List ℕ × RxQueue)
    → NetStack D × List ℕ × Result NetError ℕ
received st h out none = (st, out, no_data (session st h).state)
received st h out (some (n, out', q)) =
    (set_session st h (record (session st h) { rx = q }), out', ok n)

-- With the buffer that it leaves.
unfoldable pub recv :
    {D : Type 0} → NetStack D → ℕ → List ℕ → NetStack D × List ℕ × Result NetError ℕ
recv st h out =
    if ltb h (length st.sessions)
    then received st h out (pop (session st h).rx out)
    else (st, out, err no_session)

module _ {D : Type 0} (dv : NetDevice D) where
  -- A session whose first record could not be sent is free again.
  abbrev connected : ℕ → NetStack D × Result NetError (Unit {0}) → NetStack D × Result NetError ℕ
  connected si (st, ok u) = (st, ok si)
  connected si (st, err e) = (set_session st si (record (session st si) { state = free }), err e)

  abbrev connect_at : NetStack D → Ipv4Addr → ℕ → ℕ → Option ℕ → NetStack D × Result NetError ℕ
  connect_at st ip port pi none = (st, err table_full)
  connect_at st ip port pi (some si) =
      let id = st.next_session in
      let s : Session = record {
        state = hello_sent;
        id = id;
        peer_ip = ip;
        peer_port = port;
        local_port = ephemeral_base + id % 16384;
        accepted = true;
        rx = empty_queue;
      } in
      let st' = set_session (record st { next_session = max ((id + 1) % 2 ^ 16) 1 }) si s in
      connected si (send_record dv st' pi si hello [])

  abbrev connect_resolved :
      Ipv4Addr → ℕ → ℕ → NetStack D × Result NetError MacAddr → NetStack D × Result NetError ℕ
  connect_resolved ip port pi (st, err e) = (st, err e)
  connect_resolved ip port pi (st, ok m) = connect_at st ip port pi (position is_free st.sessions)

  unfoldable pub connect : NetStack D → Ipv4Addr → ℕ → NetStack D × Result NetError ℕ
  unfolding peer_index
  connect st ip port = elim (peer_index st ip) [
    | none ↦ (st, err no_peer)
    | some pi ↦ connect_resolved ip port pi (resolve dv st ip)
  ]

  abbrev sent : ℕ → NetStack D × Result NetError (Unit {0}) → NetStack D × Result NetError ℕ
  sent n (st, ok u) = (st, ok n)
  sent n (st, err e) = (st, err e)

  abbrev send_to : NetStack D → ℕ → List ℕ → Option ℕ → NetStack D × Result NetError ℕ
  send_to st h bytes none = (st, err no_peer)
  send_to st h bytes (some pi) =
      let n = min (length bytes) max_record_payload in
      sent n (send_record dv st pi h app_data (take n bytes))

  unfoldable pub send : NetStack D → ℕ → List ℕ → NetStack D × Result NetError ℕ
  send st h bytes =
      let s = session st h in
      if ltb h (length st.sessions)
      then if not (state_eq s.state established)
        then (st, err not_established)
        else send_to st h bytes (peer_index st s.peer_ip)
      else (st, err no_session)

  -- The last record is sent if it can be; its error is dropped.
  abbrev notify : NetStack D → ℕ → Option ℕ → NetStack D
  notify st h none = st
  notify st h (some pi) = (send_record dv st pi h close []).0

  -- The queue is wiped and then the whole session is replaced.
  unfoldable pub close_session : NetStack D → ℕ → NetStack D × Result NetError (Unit {0})
  close_session st h =
      let s = session st h in
      let told =
        if state_eq s.state established then notify st h (peer_index st s.peer_ip) else st in
      if ltb h (length st.sessions)
      then (set_session told h empty_session, ok tt)
      else (st, err no_session)
