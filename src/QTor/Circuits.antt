-- ===== src/QTor/Circuits.antt =====
-- qtor/src/lib.rs: the table of circuits of a node.
use project_qlinux.Prelude.{
  ℕ, ◌≤◌, ◌≡◌, ◌≢◌, refl, ◌∙◌, true, false, Bool-cases, inl, inr, ◌⊎◌, none, some, List, [], ◌∷◌,
  arith, leb, ◌==◌, length, ok, err,
}
use project_qlinux.QTor.{
  Circuit, QTorNode, find_circuit, remove_circuit, register_circuit, get_circuit_mut, close_circuit,
  max_circuits, too_many_circuits,
}

-- No circuit with this id; and no id twice.
unfoldable pub NoCircuit : ℕ → List Circuit → Type 0
NoCircuit id [] = Unit
NoCircuit id (c ∷ cs) = (c.id ≢ id) × NoCircuit id cs

unfoldable pub Apart : List Circuit → Type 0
Apart [] = Unit
Apart (c ∷ cs) = NoCircuit c.id cs × Apart cs

pub record IsTable (node : QTorNode) : Type 0 where
  pub bounded : length node.circuits ≤ max_circuits
  pub apart : Apart node.circuits

remove-NoCircuit : (id : ℕ) (cs : List Circuit) → NoCircuit id (remove_circuit cs id)
unfolding NoCircuit
remove-NoCircuit id [] = tt
remove-NoCircuit id (c ∷ cs) = elim (Bool-cases (c.id == id)) [
  | inl e ↦ rw e (remove-NoCircuit id cs)
  | inr n ↦ rw n ((λ e. ground (arith, e, n)), remove-NoCircuit id cs)
]

NoCircuit-remove :
    (m id : ℕ) (cs : List Circuit) → NoCircuit m cs → NoCircuit m (remove_circuit cs id)
unfolding NoCircuit
NoCircuit-remove m id [] h = tt
NoCircuit-remove m id (c ∷ cs) (ne, h) = elim (Bool-cases (c.id == id)) [
  | inl e ↦ rw e (NoCircuit-remove m id cs h)
  | inr n ↦ rw n (ne, NoCircuit-remove m id cs h)
]

remove-Apart : (id : ℕ) (cs : List Circuit) → Apart cs → Apart (remove_circuit cs id)
unfolding Apart
remove-Apart id [] h = tt
remove-Apart id (c ∷ cs) (alone, h) = elim (Bool-cases (c.id == id)) [
  | inl e ↦ rw e (remove-Apart id cs h)
  | inr n ↦ rw n (NoCircuit-remove c.id id cs alone, remove-Apart id cs h)
]

length-remove : (id : ℕ) (cs : List Circuit) → length (remove_circuit cs id) ≤ length cs
length-remove id [] = omega arith
length-remove id (c ∷ cs) = elim (Bool-cases (c.id == id)) [
  | inl e ↦ rw e (omega (arith, length-remove id cs))
  | inr n ↦ rw n (omega (arith, length-remove id cs))
]

find-remove_self : (id : ℕ) (cs : List Circuit) → find_circuit (remove_circuit cs id) id ≡ none
find-remove_self id [] = refl
find-remove_self id (c ∷ cs) = elim (Bool-cases (c.id == id)) [
  | inl e ↦ rw e (find-remove_self id cs)
  | inr n ↦ rw n (rw n (find-remove_self id cs))
]

find-remove_ne :
    (m id : ℕ) (cs : List Circuit)
    → m ≢ id
    → find_circuit (remove_circuit cs id) m ≡ find_circuit cs m
find-remove_ne m id [] h = refl
find-remove_ne m id (c ∷ cs) h = elim (Bool-cases (c.id == id)) [
  | inl e ↦
      let other : (c.id == m) ≡ false = ground (arith, e, h) in
      rw e (find-remove_ne m id cs h ∙ (rw other refl))
  | inr n ↦ rw n (rw (find-remove_ne m id cs h) refl)
]

-- What a node answers after a circuit was registered.
pub record Registered (node : QTorNode) (c : Circuit) (node' : QTorNode) : Type 0 where
  pub table : IsTable node'
  pub there : get_circuit_mut node' c.id ≡ some c
  pub elsewhere : (id : ℕ) → id ≢ c.id → get_circuit_mut node' id ≡ get_circuit_mut node id

-- On a table of at most 64 circuits with distinct ids, register_circuit with fewer than 64
-- stores the circuit under its id, in place of one that was there, leaves the other ids as they
-- were, and keeps the table so; with 64 it answers TooManyCircuits; close_circuit leaves none
-- under the id and the others as they were, and keeps the table so.
pub circuits_table :
    (node : QTorNode) (c : Circuit)
    → IsTable node
    → (((node' : QTorNode) × (register_circuit node c ≡ ok node') × Registered node c node')
        ⊎ (length node.circuits ≡ max_circuits) × (register_circuit node c ≡ err too_many_circuits))
      × IsTable (close_circuit node c.id)
      × (get_circuit_mut (close_circuit node c.id) c.id ≡ none)
      × ((id : ℕ)
          → id ≢ c.id
          → get_circuit_mut (close_circuit node c.id) id ≡ get_circuit_mut node id)
unfolding register_circuit get_circuit_mut close_circuit Apart
circuits_table node c v = (
  registered (Bool-cases (leb max_circuits (length node.circuits))),
  shrunk,
  find-remove_self c.id node.circuits,
  others,
)
  where
    less : length (remove_circuit node.circuits c.id) ≤ length node.circuits
    less = length-remove c.id node.circuits

    others :
        (id : ℕ)
        → id ≢ c.id
        → find_circuit (remove_circuit node.circuits c.id) id ≡ find_circuit node.circuits id
    others id ne = find-remove_ne id c.id node.circuits ne

    shrunk : IsTable (record node { circuits = remove_circuit node.circuits c.id })
    shrunk = record {
      bounded = omega (arith, less, v.bounded);
      apart = remove-Apart c.id node.circuits v.apart;
    }

    new_node : QTorNode
    new_node = record node { circuits = c ∷ remove_circuit node.circuits c.id }

    new_Registered : leb max_circuits (length node.circuits) ≡ false → Registered node c new_node
    new_Registered room = record {
      table = record {
        bounded = ground (arith, less, room);
        apart = (remove-NoCircuit c.id node.circuits, remove-Apart c.id node.circuits v.apart);
      };
      there = let same : (c.id == c.id) ≡ true = ground arith in rw same refl;
      elsewhere =
          λ id ne. let other : (c.id == id) ≡ false = ground (arith, ne) in rw other (others id ne);
    }

    registered :
        (leb max_circuits (length node.circuits) ≡ true)
          ⊎ (leb max_circuits (length node.circuits) ≡ false)
        → ((node' : QTorNode) × (register_circuit node c ≡ ok node') × Registered node c node')
          ⊎ (length node.circuits ≡ max_circuits)
            × (register_circuit node c ≡ err too_many_circuits)
    registered (inl full) = inr (ground (arith, full, v.bounded), rw full refl)
    registered (inr room) = inl (new_node, rw room refl, new_Registered room)
