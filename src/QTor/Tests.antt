-- ===== src/QTor/Tests.antt =====
-- qtor/src/lib.rs: runs of cells, circuits and the directory, after the tests of the file.
use project_qlinux.Prelude.{
  ℕ, zero, suc, ◌≢◌, ◌≤◌, ◌<◌, ◌≡◌, ◌⊎◌, refl, List, [], ◌∷◌, ◌++◌, replicate, length, arith, ok,
  err, none,
}
use project_qlinux.Prelude.Words.{IsBytes}
use project_qlinux.WcAuth.{WcAuthSession, sender, receiver}
use project_qlinux.QTor.{
  Cell, SocketAddr, HopContext, Circuit, ready, QTorNode, relay, try_from, unknown_command,
  from_bytes, to_bytes, apply_otp, cell_payload, onion_encrypt, NodeDescriptor, guard, any, exit,
  candidates, add_node, register_circuit, too_many_circuits, max_circuits, close_circuit,
  get_circuit_mut, invalid_cell_size,
}
use project_qlinux.QTor.Cells.{IsCell, cell_to_bytes-from_bytes, apply_otp_twice}
use project_qlinux.QTor.Onion.{Matched, peel_all, onion_encrypt-peel}
use project_qlinux.QTor.Circuits.{IsTable, Registered, circuits_table, Apart, NoCircuit}

commands : (try_from 3 ≡ ok relay) × (try_from 99 ≡ err (unknown_command 99))
unfolding try_from
commands = (refl, refl)

abbrev a_cell : Cell
a_cell = record { circuit_id = 0xDEADBEEF; cmd = 3; payload = 66 ∷ replicate 506 0 }

ones_IsBytes : (n : ℕ) → IsBytes (replicate n 1)
ones_IsBytes zero = tt
ones_IsBytes (suc n) = (omega arith, ones_IsBytes n)

to_bytes-from_bytes_run :
    (c : Cell) × (from_bytes (replicate 512 1) ≡ ok c) × IsCell c × (to_bytes c ≡ replicate 512 1)
to_bytes-from_bytes_run = cell_to_bytes-from_bytes (replicate 512 1) (ones_IsBytes 512) refl

apply_otp_twice_run :
    (cell_payload ≤ 3
      → (c' : Cell) × (apply_otp a_cell (1 ∷ 2 ∷ 3 ∷ []) ≡ ok c')
        × (apply_otp c' (1 ∷ 2 ∷ 3 ∷ []) ≡ ok a_cell))
    × (3 < cell_payload → apply_otp a_cell (1 ∷ 2 ∷ 3 ∷ []) ≡ err invalid_cell_size)
apply_otp_twice_run = apply_otp_twice a_cell (1 ∷ 2 ∷ 3 ∷ [])

abbrev home : SocketAddr
home = record { ip = 127 ∷ 0 ∷ 0 ∷ 1 ∷ []; port = 9001 }

abbrev hop : ℕ → HopContext
hop k = record {
  session = record { master_key = replicate 32 k; word_count = k; role = sender };
  addr = home;
  hop_idx = k;
}

abbrev at_node : ℕ → WcAuthSession
at_node k = record { master_key = replicate 32 k; word_count = k; role = receiver }

abbrev circuit : Circuit
circuit = record { id = 7; hops = hop 0 ∷ hop 1 ∷ hop 2 ∷ []; state = ready }

abbrev nodes : List WcAuthSession
nodes = at_node 0 ∷ at_node 1 ∷ at_node 2 ∷ []

onion_encrypt-peel_example :
    (headers : List ℕ) × (c' : Circuit) × (length headers ≡ 84)
    × (onion_encrypt circuit (5 ∷ 6 ∷ []) ≡ (ok (headers ++ (5 ∷ 6 ∷ [])), c'))
    × (peel_all nodes (headers ++ (5 ∷ 6 ∷ [])) ≡ ok (5 ∷ 6 ∷ []))
unfolding Matched
onion_encrypt-peel_example =
    onion_encrypt-peel circuit nodes (5 ∷ 6 ∷ []) refl
      (
        refl,
        refl,
        refl,
        refl,
        omega arith,
        (refl, refl, refl, refl, omega arith, (refl, refl, refl, refl, omega arith, tt)),
      )
      (omega arith) (omega arith)

abbrev one_circuit : QTorNode
one_circuit = record { listen_addr = home; circuits = circuit ∷ [] }

abbrev one_circuit_table : IsTable one_circuit
unfolding Apart NoCircuit
one_circuit_table = record { bounded = omega arith; apart = (tt, tt) }

circuits_table_example :
    (((node' : QTorNode) × (register_circuit one_circuit circuit ≡ ok node')
        × Registered one_circuit circuit node')
      ⊎ (1 ≡ max_circuits) × (register_circuit one_circuit circuit ≡ err too_many_circuits))
    × IsTable (close_circuit one_circuit 7)
    × (get_circuit_mut (close_circuit one_circuit 7) 7 ≡ none)
    × ((id : ℕ)
        → id ≢ 7
        → get_circuit_mut (close_circuit one_circuit 7) id ≡ get_circuit_mut one_circuit id)
circuits_table_example = circuits_table one_circuit circuit one_circuit_table

abbrev guard_node : NodeDescriptor
guard_node = record {
  addr = home;
  node_id = replicate 32 0;
  key_hint = replicate 8 0;
  role = guard;
}

abbrev any_node : NodeDescriptor
any_node = record { addr = home; node_id = replicate 32 1; key_hint = replicate 8 1; role = any }

candidates_run :
    (candidates (add_node (add_node [] guard_node) any_node) guard ≡ guard_node ∷ any_node ∷ [])
    × (candidates (guard_node ∷ any_node ∷ []) exit ≡ any_node ∷ [])
unfolding candidates add_node
candidates_run = (refl, refl)
