-- ===== src/QTor/Cells.antt =====
-- qtor/src/lib.rs: cells and their bytes.
use project_qlinux.Prelude.{
  ℕ, ◌/◌, ◌%◌, ◌^◌, ◌≤◌, ◌<◌, ◌≡◌, refl, ap, ap₂, List, [], ◌∷◌, arith, ltb, false, length, ok, err,
}
use project_qlinux.Prelude.Bits.{bit_xor_cancel}
use project_qlinux.Prelude.Words.{to_be, from_be, IsBytes}
use project_qlinux.QTor.{
  Cell, cell_size, cell_payload, from_bytes, to_bytes, xor_into, apply_otp, invalid_cell_size,
}

-- A cell that fits into its 512 bytes.
pub record IsCell (c : Cell) : Type 0 where
  pub id_fits : c.circuit_id < 2 ^ 32
  pub full : length c.payload ≡ cell_payload

-- A cell with a 32-bit id and a full payload is written to 512 bytes, from which from_bytes
-- reads that cell.
pub cell_from_bytes-to_bytes :
    (c : Cell) → IsCell c → (length (to_bytes c) ≡ cell_size) × (from_bytes (to_bytes c) ≡ ok c)
unfolding from_bytes to_bytes
cell_from_bytes-to_bytes c v =
    let id : from_be (to_be 4 c.circuit_id) ≡ c.circuit_id = omega (arith, v.id_fits) in
    let make : ℕ → Cell = λ i. record { circuit_id = i; cmd = c.cmd; payload = c.payload } in
    (omega (arith, v.full), ap (λ i. ok (make i)) id)

-- Bytes that are 512 are what the cell read from them is written to.
pub cell_to_bytes-from_bytes :
    (raw : List ℕ)
    → IsBytes raw
    → length raw ≡ cell_size
    → (c : Cell) × (from_bytes raw ≡ ok c) × IsCell c × (to_bytes c ≡ raw)
unfolding from_bytes to_bytes
cell_to_bytes-from_bytes [] b e = absurd (omega arith)
cell_to_bytes-from_bytes (a₀ ∷ []) b e = absurd (omega arith)
cell_to_bytes-from_bytes (a₀ ∷ a₁ ∷ []) b e = absurd (omega arith)
cell_to_bytes-from_bytes (a₀ ∷ a₁ ∷ a₂ ∷ []) b e = absurd (omega arith)
cell_to_bytes-from_bytes (a₀ ∷ a₁ ∷ a₂ ∷ a₃ ∷ []) b e = absurd (omega arith)
cell_to_bytes-from_bytes (a₀ ∷ a₁ ∷ a₂ ∷ a₃ ∷ a₄ ∷ raw) (b₀, (b₁, (b₂, (b₃, b₄)))) e =
    let id : ℕ = from_be (a₀ ∷ a₁ ∷ a₂ ∷ a₃ ∷ []) in
    let d₀ : id / 256 / 256 / 256 % 256 ≡ a₀ = omega arith in
    let d₁ : id / 256 / 256 % 256 ≡ a₁ = omega arith in
    let d₂ : id / 256 % 256 ≡ a₂ = omega arith in
    let d₃ : id % 256 ≡ a₃ = omega arith in
    (
      record { circuit_id = from_be (a₀ ∷ a₁ ∷ a₂ ∷ a₃ ∷ []); cmd = a₄; payload = raw },
      refl,
      record { id_fits = omega arith; full = omega (arith, e) },
      ap₂ ◌∷◌ d₀ (ap₂ ◌∷◌ d₁ (ap₂ ◌∷◌ d₂ (ap₂ ◌∷◌ d₃ refl))),
    )

xor_into_cancel : (bs ks : List ℕ) → xor_into (xor_into bs ks) ks ≡ bs
xor_into_cancel [] ks = refl
xor_into_cancel (b ∷ bs) [] = refl
xor_into_cancel (b ∷ bs) (k ∷ ks) = ap₂ ◌∷◌ (bit_xor_cancel b k) (xor_into_cancel bs ks)

-- A key for the whole payload, applied twice, gives the cell back. A shorter key is refused.
pub apply_otp_twice :
    (c : Cell) (key : List ℕ)
    → (cell_payload ≤ length key
        → (c' : Cell) × (apply_otp c key ≡ ok c') × (apply_otp c' key ≡ ok c))
      × (length key < cell_payload → apply_otp c key ≡ err invalid_cell_size)
unfolding apply_otp
apply_otp_twice c key = (
  (λ long.
      let fits : ltb (length key) cell_payload ≡ false = ground (arith, long) in
      (
        record c { payload = xor_into c.payload key },
        rw fits refl,
        rw (fits, xor_into_cancel c.payload key) refl,
      )),
  (λ short. ground (arith, short)),
)
