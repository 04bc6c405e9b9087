-- ===== src/QTor.antt =====
-- qtor/src/lib.rs: cells, circuits of three hops, the circuits of a node and the directory.
-- A hash map is an association list with one entry for a key. `?` in the loop over the hops leaves
-- the sessions that have sealed already as they are by then.
pub mod Cells
pub mod Onion
pub mod Circuits
mod Tests
use project_qlinux.Prelude.{
  ℕ, zero, suc, ◌+◌, ◌-◌, Bool, true, false, not, ◌||◌, Option, none, some, List, [], ◌∷◌, ◌++◌,
  ltb, leb, ◌==◌, if◌then◌else◌, length, get_or, take, drop, slice, replicate, bit_xor, Result, ok,
  err, map_err,
}
use project_qlinux.Prelude.Words.{to_be, from_be}
use project_qlinux.KeyPool.{KeyPoolError}
use project_qlinux.WcAuth.{WcAuthSession, WcAuthError, seal, open_mar}

abbrev pub cell_size : ℕ
cell_size = 512

abbrev pub cell_header_len : ℕ
cell_header_len = 5

abbrev pub cell_payload : ℕ
cell_payload = cell_size - cell_header_len

abbrev pub circuit_hops : ℕ
circuit_hops = 3

abbrev pub max_circuits : ℕ
max_circuits = 64

pub data CellCmd : Type 0 where
  create created relay destroy padding : CellCmd

abbrev pub cmd_byte : CellCmd → ℕ
cmd_byte create = 1
cmd_byte created = 2
cmd_byte relay = 3
cmd_byte destroy = 4
cmd_byte padding = 7

pub data QTorError : Type 0 where
  circuit_not_found invalid_hop_count invalid_cell_size too_many_circuits connection_failed :
      QTorError
  unknown_command : ℕ → QTorError
  key_pool : KeyPoolError → QTorError
  wc_auth : WcAuthError → QTorError

unfoldable pub try_from : ℕ → Result QTorError CellCmd
try_from v =
    if v == 1
    then ok create
    else if v == 2
    then ok created
    else if v == 3
    then ok relay
    else if v == 4
    then ok destroy
    else if v == 7
    then ok padding
    else err (unknown_command v)

pub record Cell : Type 0 where
  pub circuit_id : ℕ
  pub cmd : ℕ
  pub payload : List ℕ

unfoldable pub new_cell : ℕ → CellCmd → Cell
new_cell circuit_id cmd = record {
  circuit_id = circuit_id;
  cmd = cmd_byte cmd;
  payload = replicate cell_payload 0;
}

unfoldable pub from_bytes : List ℕ → Result QTorError Cell
from_bytes raw =
    ok record { circuit_id = from_be (slice raw 0 4); cmd = get_or raw 4 0; payload = drop 5 raw }

unfoldable pub to_bytes : Cell → List ℕ
to_bytes c = to_be 4 c.circuit_id ++ (c.cmd ∷ c.payload)

-- The zipped loop `*b ^= k`: bytes with no key byte for them stay.
abbrev pub xor_into : List ℕ → List ℕ → List ℕ
xor_into [] ks = []
xor_into (b ∷ bs) [] = b ∷ bs
xor_into (b ∷ bs) (k ∷ ks) = bit_xor b k ∷ xor_into bs ks

unfoldable pub apply_otp : Cell → List ℕ → Result QTorError Cell
apply_otp c key =
    if ltb (length key) cell_payload
    then err invalid_cell_size
    else ok record c { payload = xor_into c.payload key }

-- The address and the port.
pub record SocketAddr : Type 0 where
  pub ip : List ℕ
  pub port : ℕ

pub record HopContext : Type 0 where
  pub session : WcAuthSession
  pub addr : SocketAddr
  pub hop_idx : ℕ

pub data CircuitState : Type 0 where
  building ready closed : CircuitState

pub record Circuit : Type 0 where
  pub id : ℕ
  pub hops : List HopContext
  pub state : CircuitState

-- `hop.session.seal(&data)?`, for one hop of the loop, with what the later hops came to.
abbrev pub seal_hop :
    HopContext
    → Result WcAuthError (List ℕ) × List HopContext
    → Result WcAuthError (List ℕ) × List HopContext
seal_hop h (err e, hs) = (err e, h ∷ hs)
seal_hop h (ok bytes, hs) =
    let out = seal h.session bytes in (out.0, record h { session = out.1 } ∷ hs)

-- The loop over the hops, the last one first.
unfoldable pub seal_hops : List HopContext → List ℕ → Result WcAuthError (List ℕ) × List HopContext
seal_hops [] bytes = (ok bytes, [])
seal_hops (h ∷ hs) bytes = seal_hop h (seal_hops hs bytes)

unfoldable pub onion_encrypt : Circuit → List ℕ → Result QTorError (List ℕ) × Circuit
unfolding seal_hops
onion_encrypt c plaintext =
    let out = seal_hops c.hops plaintext in
    if length c.hops == circuit_hops
    then (map_err wc_auth out.0, record c { hops = out.1 })
    else (err invalid_hop_count, c)

unfoldable pub onion_peel : WcAuthSession → List ℕ → Result QTorError (List ℕ) × WcAuthSession
onion_peel session cell_data =
    let out = open_mar session cell_data in (map_err wc_auth out.0, out.1)

-- The hash map of circuits, by id.
abbrev pub find_circuit : List Circuit → ℕ → Option Circuit
find_circuit [] id = none
find_circuit (c ∷ cs) id = let rest = find_circuit cs id in if c.id == id then some c else rest

abbrev pub remove_circuit : List Circuit → ℕ → List Circuit
remove_circuit [] id = []
remove_circuit (c ∷ cs) id =
    let rest = remove_circuit cs id in if c.id == id then rest else c ∷ rest

-- The key pool of the node is shared with its owner, and no operation of the node uses it.
pub record QTorNode : Type 0 where
  pub listen_addr : SocketAddr
  pub circuits : List Circuit

unfoldable pub new_node : SocketAddr → QTorNode
new_node listen_addr = record { listen_addr = listen_addr; circuits = [] }

unfoldable pub register_circuit : QTorNode → Circuit → Result QTorError QTorNode
register_circuit node c =
    if leb max_circuits (length node.circuits)
    then err too_many_circuits
    else ok record node { circuits = c ∷ remove_circuit node.circuits c.id }

-- The circuit that a caller may then change.
unfoldable pub get_circuit_mut : QTorNode → ℕ → Option Circuit
get_circuit_mut node id = find_circuit node.circuits id

unfoldable pub close_circuit : QTorNode → ℕ → QTorNode
close_circuit node id = record node { circuits = remove_circuit node.circuits id }

unfoldable pub make_padding_cell : ℕ → Cell
unfolding new_cell
make_padding_cell circuit_id = new_cell circuit_id padding

pub data NodeRole : Type 0 where
  guard middle exit any : NodeRole

pub record NodeDescriptor : Type 0 where
  pub addr : SocketAddr
  pub node_id : List ℕ
  pub key_hint : List ℕ
  pub role : NodeRole

abbrev pub role_eq : NodeRole → NodeRole → Bool
role_eq guard guard = true
role_eq middle middle = true
role_eq exit exit = true
role_eq any any = true
role_eq _ _ = false

abbrev pub Directory : Type 0
Directory = List NodeDescriptor

unfoldable pub add_node : Directory → NodeDescriptor → Directory
add_node nodes node = nodes ++ (node ∷ [])

unfoldable pub candidates : Directory → NodeRole → List NodeDescriptor
candidates [] role = []
candidates (n ∷ nodes) role =
    let rest = candidates nodes role in
    if role_eq n.role role || role_eq n.role any then n ∷ rest else rest
