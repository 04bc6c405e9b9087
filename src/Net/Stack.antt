-- ===== src/Net/Stack.antt =====
-- kernel/net/src/stack.rs: the state of the network stack, its peers, sessions and receive queues.
-- A method returns the stack that it leaves with its result, since some errors come behind a
-- change. The device is the parameter `D` with the operations of `NetDevice`.
pub mod Send
pub mod Socket
pub mod Handle
pub mod Queue
pub mod Steps
pub mod Drop
mod Tests
use project_qlinux.Prelude.{
  ℕ, ◌+◌, ◌-◌, ◌%◌, Bool, true, false, not, Option, none, some, List, [], ◌∷◌, map, ltb, ◌==◌,
  if◌then◌else◌, length, get_or, set, position, take, replicate, overwrite, Result, ok, err,
  map_err,
}
use project_qlinux.Qkey.{LinkRole, role_a, PeerKeys, new_keys, deposit_block, wipe_keys, tx, rx}
use project_qlinux.Net.Error.{NetError, table_full, no_peer, key_error}
use project_qlinux.Net.Ipv4.{Ipv4Addr, addr_eq}
use project_qlinux.Net.Arp.{ArpCache}
use project_qlinux.Net.Arp
use project_qlinux.Net.Qtls.{max_record_payload}

abbrev pub max_peers : ℕ
max_peers = 2

abbrev pub max_sessions : ℕ
max_sessions = 4

abbrev pub max_listen : ℕ
max_listen = 4

abbrev pub rx_slots : ℕ
rx_slots = 4

abbrev pub ephemeral_base : ℕ
ephemeral_base = 49152

pub data SessionState : Type 0 where
  free hello_sent established closed : SessionState

abbrev pub state_eq : SessionState → SessionState → Bool
state_eq free free = true
state_eq hello_sent hello_sent = true
state_eq established established = true
state_eq closed closed = true
state_eq _ _ = false

pub record RxQueue : Type 0 where
  pub msgs : List (List ℕ)
  pub lens : List ℕ
  pub head : ℕ
  pub count : ℕ

abbrev pub empty_queue : RxQueue
empty_queue = record {
  msgs = replicate rx_slots (replicate max_record_payload 0);
  lens = replicate rx_slots 0;
  head = 0;
  count = 0;
}

unfoldable pub push : RxQueue → List ℕ → RxQueue × Bool
push q d =
    let s = (q.head + q.count) % rx_slots in
    if q.count == rx_slots then (q, false) else (
      record q {
        msgs = set q.msgs s (overwrite d (get_or q.msgs s []));
        lens = set q.lens s (length d);
        count = q.count + 1;
      },
      true,
    )

-- The number of bytes, the buffer and the queue.
unfoldable pub pop : RxQueue → List ℕ → Option (ℕ × List ℕ × RxQueue)
pop q out =
    let n = get_or q.lens q.head 0 in
    let slot = get_or q.msgs q.head [] in
    if q.count == 0
    then none
    else if ltb (length out) n
    then none
    else some (
      n,
      overwrite (take n slot) out,
      record q {
        msgs = set q.msgs q.head (replicate (length slot) 0);
        head = (q.head + 1) % rx_slots;
        count = q.count - 1;
      },
    )

abbrev pub wipe_queue : RxQueue → RxQueue
wipe_queue q = record q { msgs = map (λ m. replicate (length m) 0) q.msgs; count = 0 }

pub record Session : Type 0 where
  pub state : SessionState
  pub id : ℕ
  pub peer_ip : Ipv4Addr
  pub peer_port : ℕ
  pub local_port : ℕ
  pub accepted : Bool
  pub rx : RxQueue

abbrev pub zero_addr : Ipv4Addr
zero_addr = record { a0 = 0; a1 = 0; a2 = 0; a3 = 0 }

abbrev pub empty_session : Session
empty_session = record {
  state = free;
  id = 0;
  peer_ip = zero_addr;
  peer_port = 0;
  local_port = 0;
  accepted = true;
  rx = empty_queue;
}

pub record Peer : Type 0 where
  pub ip : Option Ipv4Addr
  pub keys : PeerKeys

abbrev pub empty_peer : Peer
empty_peer = record { ip = none; keys = new_keys role_a }

pub record NetStack (D : Type 0) : Type 0 where
  pub dev : D
  pub ip : Ipv4Addr
  pub arp : ArpCache
  pub peers : List Peer
  pub sessions : List Session
  pub ports : List ℕ  -- the field `listen`
  pub ip_id : ℕ
  pub next_session : ℕ

abbrev pub session : {D : Type 0} → NetStack D → ℕ → Session
session st i = get_or st.sessions i empty_session

abbrev pub peer : {D : Type 0} → NetStack D → ℕ → Peer
peer st i = get_or st.peers i empty_peer

abbrev pub set_session : {D : Type 0} → NetStack D → ℕ → Session → NetStack D
set_session st i s = record st { sessions = set st.sessions i s }

abbrev pub set_keys : {D : Type 0} → NetStack D → ℕ → PeerKeys → NetStack D
set_keys st i k = record st { peers = set st.peers i (record (peer st i) { keys = k }) }

unfoldable pub new : {D : Type 0} → D → NetStack D
new dev = record {
  dev = dev;
  ip = zero_addr;
  arp = Arp.new;
  peers = replicate max_peers empty_peer;
  sessions = replicate max_sessions empty_session;
  ports = replicate max_listen 0;
  ip_id = 1;
  next_session = 1;
}

abbrev pub has_ip : Ipv4Addr → Peer → Bool
has_ip ip p = elim p.ip [ none ↦ false | some a ↦ addr_eq a ip ]

abbrev pub is_vacant : Peer → Bool
is_vacant p = elim p.ip [ none ↦ true | some a ↦ false ]

unfoldable pub peer_index : {D : Type 0} → NetStack D → Ipv4Addr → Option ℕ
peer_index st ip = position (has_ip ip) st.peers

abbrev pub register_at :
    {D : Type 0}
    → NetStack D
    → Ipv4Addr
    → LinkRole
    → Option ℕ
    → NetStack D × Result NetError (Unit {0})
register_at st ip role none = (st, err table_full)
register_at st ip role (some i) = (
  record st {
    peers =
        set st.peers i (record { ip = some ip; keys = record ((peer st i).keys) { role = role } });
  },
  ok tt,
)

-- A peer that is registered stays as it is; else the first free slot is taken.
unfoldable pub register_peer :
    {D : Type 0} → NetStack D → Ipv4Addr → LinkRole → NetStack D × Result NetError (Unit {0})
unfolding peer_index
register_peer st ip role = elim (peer_index st ip) [
  | some i ↦ (st, ok tt)
  | none ↦ register_at st ip role (position is_vacant st.peers)
]

abbrev pub keys_deposited :
    {D : Type 0}
    → NetStack D
    → ℕ
    → Result NetError PeerKeys
    → NetStack D × Result NetError (Unit {0})
keys_deposited st i (ok k) = (set_keys st i k, ok tt)
keys_deposited st i (err e) = (st, err e)

unfoldable pub deposit_key_block :
    {D : Type 0} → NetStack D → Ipv4Addr → ℕ → List ℕ → NetStack D × Result NetError (Unit {0})
unfolding peer_index
deposit_key_block st ip seq key = elim (peer_index st ip) [
  | none ↦ (st, err no_peer)
  | some i ↦ keys_deposited st i (map_err key_error (deposit_block (peer st i).keys seq key))
]

unfoldable pub key_available : {D : Type 0} → NetStack D → Ipv4Addr → Option (ℕ × ℕ)
unfolding peer_index
key_available st ip = elim (peer_index st ip) [
  | none ↦ none
  | some i ↦ some ((tx (peer st i).keys).count, (rx (peer st i).keys).count)
]

unfoldable pub wipe_all : {D : Type 0} → NetStack D → NetStack D
wipe_all st = record st {
  peers = map {A = Peer} (λ p. record p { keys = wipe_keys p.keys }) st.peers;
  sessions = map {A = Session} (λ s. record s { rx = wipe_queue s.rx }) st.sessions;
}
