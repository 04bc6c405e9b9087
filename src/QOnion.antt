-- ===== src/QOnion.antt =====
-- qonion/src/lib.rs: the parser of SOCKS requests, and the pipeline that builds a circuit from keys
-- of the pool and sends through it. `String::from_utf8_lossy` is a parameter. The pool is shared
-- behind an `Arc`; a call takes it with the pipeline and returns it.
pub mod Socks
pub mod Pipeline
mod Tests
use project_qlinux.Prelude.{
  ℕ, zero, suc, ◌+◌, ◌-◌, Bool, true, false, not, Option, none, some, List, [], ◌∷◌, ltb, ◌==◌,
  if◌then◌else◌, length, get_or, slice, Result, ok, err, ◌>>=◌, ◌>>◌, refuse_if, ok_or,
}
use project_qlinux.Prelude.Words.{from_be}
use project_qlinux.KeyPool.{KeyPoolManager, KeyPoolError, acquire}
use project_qlinux.WcAuth.{WcAuthSession, WcAuthError, new_session, sender}
use project_qlinux.QTor.{
  SocketAddr, HopContext, Circuit, ready, QTorNode, QTorError, circuit_not_found, new_node,
  register_circuit, get_circuit_mut, close_circuit, remove_circuit, onion_encrypt,
}
use project_qlinux.QTor

pub data QOnionError : Type 0 where
  auth_failed socks5_protocol timeout init_failed : QOnionError
  circuit_build : QTorError → QOnionError
  key_pool : KeyPoolError → QOnionError
  wc_auth : WcAuthError → QOnionError

pub data Socks5Cmd : Type 0 where
  connect bind udp_assoc : Socks5Cmd

module _ (Text : Type 0) (from_utf8_lossy : List ℕ → Text) where
  pub data Socks5Addr : Type 0 where
    ipv4 ipv6 : List ℕ → Socks5Addr
    domain : Text → Socks5Addr

  pub record Socks5Request : Type 0 where
    pub cmd : Socks5Cmd
    pub addr : Socks5Addr
    pub port : ℕ

  abbrev pub parse_cmd : ℕ → Result QOnionError Socks5Cmd
  parse_cmd b =
      if b == 1
      then ok connect
      else if b == 2
      then ok bind
      else if b == 3
      then ok udp_assoc
      else err socks5_protocol

  -- The address, and where the port begins.
  abbrev pub parse_addr : List ℕ → Result QOnionError (Socks5Addr × ℕ)
  parse_addr buf =
      let len = get_or buf 4 0 in
      if get_or buf 3 0 == 1
      then if ltb (length buf) 10 then err socks5_protocol else ok (ipv4 (slice buf 4 8), 8)
      else if get_or buf 3 0 == 3
      then if ltb (length buf) (5 + len + 2)
        then err socks5_protocol
        else ok (domain (from_utf8_lossy (slice buf 5 (5 + len))), 5 + len)
      else if get_or buf 3 0 == 4
      then if ltb (length buf) 22 then err socks5_protocol else ok (ipv6 (slice buf 4 20), 20)
      else err socks5_protocol

  unfoldable pub parse : List ℕ → Result QOnionError Socks5Request
  parse buf = do
    refuse_if (ltb (length buf) 7) socks5_protocol
    refuse_if (not (get_or buf 0 0 == 5)) socks5_protocol
    refuse_if (not (get_or buf 2 0 == 0)) socks5_protocol
    cmd ← parse_cmd (get_or buf 1 0)
    found ← parse_addr buf
    ok record {
      cmd = cmd;
      addr = found.0;
      port = from_be (get_or buf found.1 0 ∷ get_or buf (found.1 + 1) 0 ∷ []);
    }

pub record QOnionConfig : Type 0 where
  pub socks5_listen : SocketAddr
  pub node_addrs : List SocketAddr
  pub min_key_bytes : ℕ

pub record QOnionPipeline : Type 0 where
  pub config : QOnionConfig
  pub pool : KeyPoolManager
  pub authenticated : Bool
  pub node : Option QTorNode

unfoldable pub new_pipeline : QOnionConfig → KeyPoolManager → QOnionPipeline
new_pipeline config pool = record {
  config = config;
  pool = pool;
  authenticated = false;
  node = none;
}

unfoldable pub complete_auth : QOnionPipeline → Result QOnionError (Unit {0}) × QOnionPipeline
complete_auth p = (ok tt, record p { authenticated = true })

abbrev pub hop_session : Result KeyPoolError (ℕ × List ℕ) → Result QOnionError WcAuthSession
hop_session (err e) = err (key_pool e)
hop_session (ok (id, key)) = elim (new_session key 0 sender) [
  | err e ↦ err (wc_auth e)
  | ok s ↦ ok s
]

abbrev pub hop_added :
    SocketAddr
    → ℕ
    → Result QOnionError WcAuthSession
    → Result QOnionError (List HopContext)
    → Result QOnionError (List HopContext)
hop_added a i (err e) rest = err e
hop_added a i (ok s) (err e) = err e
hop_added a i (ok s) (ok hops) = ok (record { session = s; addr = a; hop_idx = i } ∷ hops)

abbrev pub then_hops :
    Result QOnionError WcAuthSession
    → KeyPoolManager
    → Result QOnionError (List HopContext) × KeyPoolManager
    → KeyPoolManager
then_hops (err e) pool rest = pool
then_hops (ok s) pool rest = rest.1

-- The loop over the addresses, from index i on, with the pool that it leaves.
unfoldable pub build_hops :
    ℕ → List SocketAddr → KeyPoolManager → Result QOnionError (List HopContext) × KeyPoolManager
build_hops i [] pool = (ok [], pool)
build_hops i (a ∷ addrs) pool =
    let got = acquire pool 32 in
    let session = hop_session got.0 in
    let rest = build_hops (i + 1) addrs got.1 in
    (hop_added a i session rest.0, then_hops session got.1 rest)

abbrev pub the_node : QOnionPipeline → QTorNode
the_node p = elim p.node [ none ↦ new_node p.config.socks5_listen | some n ↦ n ]

abbrev pub registered :
    QOnionPipeline
    → QTorNode
    → Result QTorError QTorNode
    → Result QOnionError (Unit {0}) × QOnionPipeline
registered p node (err e) = (err (circuit_build e), record p { node = some node })
registered p node (ok node') = (ok tt, record p { node = some node' })

abbrev pub built :
    QOnionPipeline
    → ℕ
    → Result QOnionError (List HopContext)
    → Result QOnionError (Unit {0}) × QOnionPipeline
built p circuit_id (err e) = (err e, p)
built p circuit_id (ok hops) =
    registered p (the_node p)
      (register_circuit (the_node p) record { id = circuit_id; hops = hops; state = ready })

unfoldable pub build_circuit : QOnionPipeline → ℕ → Result QOnionError (Unit {0}) × QOnionPipeline
unfolding build_hops
build_circuit p circuit_id =
    let made = build_hops 0 p.config.node_addrs p.pool in
    if p.authenticated
    then built (record p { pool = made.1 }) circuit_id made.0
    else (err auth_failed, p)

-- The circuit in the table, after its sessions have moved on.
abbrev pub put_circuit : QTorNode → Circuit → QTorNode
put_circuit node c = record node { circuits = c ∷ remove_circuit node.circuits c.id }

abbrev pub sent :
    QOnionPipeline
    → QTorNode
    → Result QTorError (List ℕ) × Circuit
    → Result QOnionError (List ℕ) × QOnionPipeline
sent p node (err e, c) = (err (circuit_build e), record p { node = some (put_circuit node c) })
sent p node (ok bytes, c) = (ok bytes, record p { node = some (put_circuit node c) })

abbrev pub send_through :
    QOnionPipeline
    → QTorNode
    → Option Circuit
    → List ℕ
    → Result QOnionError (List ℕ) × QOnionPipeline
send_through p node none bytes = (err (circuit_build circuit_not_found), p)
send_through p node (some c) bytes = sent p node (onion_encrypt c bytes)

unfoldable pub send : QOnionPipeline → ℕ → List ℕ → Result QOnionError (List ℕ) × QOnionPipeline
send p circuit_id bytes = elim p.node [
  | none ↦ (err init_failed, p)
  | some node ↦ send_through p node (get_circuit_mut node circuit_id) bytes
]

unfoldable pub close_circuit_of : QOnionPipeline → ℕ → QOnionPipeline
close_circuit_of p circuit_id = elim p.node [
  | none ↦ p
  | some node ↦ record p { node = some (close_circuit node circuit_id) }
]
