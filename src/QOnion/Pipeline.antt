-- ===== src/QOnion/Pipeline.antt =====
-- qonion/src/lib.rs: build_circuit, and send after it.
use project_qlinux.Prelude.{
  ℕ, suc, ◌+◌, ◌≤◌, ◌<◌, ◌≡◌, refl, ap, ◌∙◌, subst, true, Bool-cases, inl, inr, Option, none, some,
  List, [], ◌∷◌, ◌++◌, arith, ◌==◌, length, Result, ok, err, leb,
}
use project_qlinux.KeyPool.{KeyPoolManager, KeyPoolError, acquire}
use project_qlinux.WcAuth.{WcAuthSession, new_session, sender, receiver, max_msg_len}
use project_qlinux.QTor.{
  SocketAddr, HopContext, Circuit, ready, QTorNode, register_circuit, get_circuit_mut, circuit_hops,
  max_circuits, remove_circuit, onion_encrypt,
}
use project_qlinux.QTor.Onion.{Matched, onion_encrypt-peel}
use project_qlinux.QOnion.{
  QOnionError, QOnionPipeline, hop_session, hop_added, build_hops, the_node, registered, built,
  build_circuit, send, send_through, init_failed, put_circuit, sent,
}

-- Sessions that send, from word count 0 on.
FreshHops : List HopContext → Type 0
FreshHops [] = Unit
FreshHops (h ∷ hs) = (h.session.role ≡ sender) × (h.session.word_count ≡ 0) × FreshHops hs

FreshSession : Result QOnionError WcAuthSession → Type 0
FreshSession (err e) = Unit
FreshSession (ok s) = (s.role ≡ sender) × (s.word_count ≡ 0)

MadeHops : ℕ → Result QOnionError (List HopContext) → Type 0
MadeHops n (err e) = Unit
MadeHops n (ok hops) = FreshHops hops × (length hops ≡ n)

session_fresh : (r : Result KeyPoolError (ℕ × List ℕ)) → FreshSession (hop_session r)
unfolding FreshSession new_session
session_fresh (err e) = tt
session_fresh (ok (id, key)) = elim (Bool-cases (length key == 32)) [
  | inl e ↦ rw (FreshSession, e) (refl, refl)
  | inr e ↦ rw (FreshSession, e) tt
]

added_made :
    (a : SocketAddr) (i n : ℕ) (s : Result QOnionError WcAuthSession)
    (rest : Result QOnionError (List HopContext))
    → FreshSession s
    → MadeHops n rest
    → MadeHops (suc n) (hop_added a i s rest)
unfolding FreshSession MadeHops FreshHops
added_made a i n (err e) rest f m = tt
added_made a i n (ok s) (err e) f m = tt
added_made a i n (ok s) (ok hops) f m = ((f.0, f.1, m.0), ap suc m.1)

hops_made :
    (i : ℕ) (addrs : List SocketAddr) (pool : KeyPoolManager)
    → MadeHops (length addrs) (build_hops i addrs pool).0
unfolding build_hops MadeHops FreshHops
hops_made i [] pool = (tt, refl)
hops_made i (a ∷ addrs) pool =
    let got = acquire pool 32 in
    added_made a i (length addrs) (hop_session got.0) (build_hops (i + 1) addrs got.1).0
      (session_fresh got.0) (hops_made (i + 1) addrs got.1)

-- The session that a node would keep for a hop.
abbrev other_ends : List HopContext → List WcAuthSession
other_ends [] = []
other_ends (h ∷ hs) = record h.session { role = receiver } ∷ other_ends hs

ends_Matched : (hs : List HopContext) → FreshHops hs → Matched hs (other_ends hs)
unfolding FreshHops Matched
ends_Matched [] f = tt
ends_Matched (h ∷ hs) (role, count, f) =
    (role, refl, refl, refl, omega (arith, count), ends_Matched hs f)

-- A pipeline whose node has a fresh circuit of three hops under this id.
record HasCircuit (id : ℕ) (p : QOnionPipeline) : Type 0 where
  node : QTorNode
  stands : p.node ≡ some node
  circuit : Circuit
  found : get_circuit_mut node id ≡ some circuit
  fresh : FreshHops circuit.hops
  three : length circuit.hops ≡ circuit_hops

BuiltWell : ℕ → Result QOnionError (Unit {0}) × QOnionPipeline → Type 0
BuiltWell id (err e, p) = Unit
BuiltWell id (ok u, p) = HasCircuit id p

registered_well :
    (p : QOnionPipeline) (id : ℕ) (hops : List HopContext)
    → FreshHops hops
    → length hops ≡ circuit_hops
    → BuiltWell id (
        registered p
          (the_node p)
          (register_circuit (the_node p) record { id = id; hops = hops; state = ready }))
unfolding BuiltWell register_circuit get_circuit_mut
registered_well p id hops f three =
    let same : (id == id) ≡ true = ground arith in
    let c : Circuit = record { id = id; hops = hops; state = ready } in
    elim (Bool-cases (leb max_circuits (length (the_node p).circuits))) [
      | inl full ↦ rw full tt
      | inr room ↦ rw room record {
        node = record (the_node p) { circuits = c ∷ remove_circuit (the_node p).circuits id };
        stands = refl;
        circuit = c;
        found = rw same refl;
        fresh = f;
        three = three;
      }
    ]

built_well :
    (p : QOnionPipeline) (id : ℕ) (made : Result QOnionError (List HopContext))
    → MadeHops circuit_hops made
    → BuiltWell id (built p id made)
unfolding MadeHops BuiltWell
built_well p id (err e) m = tt
built_well p id (ok hops) m = registered_well p id hops m.0 m.1

build_well :
    (p : QOnionPipeline) (id : ℕ)
    → length p.config.node_addrs ≡ circuit_hops
    → BuiltWell id (build_circuit p id)
unfolding build_circuit BuiltWell
build_well p id three = elim (Bool-cases p.authenticated) [
  | inl a ↦ rw a (
      built_well
        (record p { pool = (build_hops 0 p.config.node_addrs p.pool).1; authenticated = true }) id
        (build_hops 0 p.config.node_addrs p.pool).0
        (subst (λ n. MadeHops n (build_hops 0 p.config.node_addrs p.pool).0) three
          (hops_made 0 p.config.node_addrs p.pool)))
  | inr a ↦ rw a tt
]

send_out :
    (p : QOnionPipeline) (id : ℕ) (bytes out : List ℕ) (node : QTorNode) (c c' : Circuit)
    → p.node ≡ some node
    → get_circuit_mut node id ≡ some c
    → onion_encrypt c bytes ≡ (ok out, c')
    → send p id bytes ≡ (ok out, record p { node = some (put_circuit node c') })
unfolding send
send_out p id bytes out node c c' stands found sealed =
    ap (at_node p) stands ∙ ap (λ o. send_through p node o bytes) found ∙ ap (sent p node) sealed
  where
    at_node : QOnionPipeline → Option QTorNode → Result QOnionError (List ℕ) × QOnionPipeline
    at_node p none = (err init_failed, p)
    at_node p (some node) = send_through p node (get_circuit_mut node id) bytes

-- For a pipeline with three node addresses whose build_circuit answers ok under an id, send
-- under that id answers, for a message of 1 to 65480 bytes, 84 bytes of headers with the message
-- behind them.
pub send-build_circuit :
    (p p' : QOnionPipeline) (id : ℕ) (bytes : List ℕ)
    → length p.config.node_addrs ≡ circuit_hops
    → build_circuit p id ≡ (ok tt, p')
    → 0 < length bytes
    → length bytes + 56 ≤ max_msg_len
    → (headers : List ℕ) × (p'' : QOnionPipeline) × (length headers ≡ 84)
      × (send p' id bytes ≡ (ok (headers ++ bytes), p''))
unfolding BuiltWell
send-build_circuit p p' id bytes three ran pos fits =
    let has : HasCircuit id p' = subst (BuiltWell id) ran (build_well p id three) in
    let o =
      onion_encrypt-peel has.circuit (other_ends has.circuit.hops) bytes has.three
        (ends_Matched has.circuit.hops has.fresh) pos fits in
    (
      o.0,
      record p' { node = some (put_circuit has.node o.1) },
      o.2,
      send_out p' id bytes (o.0 ++ bytes) has.node has.circuit o.1 has.stands has.found o.3,
    )
