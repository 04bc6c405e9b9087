-- ===== src/KeyPool/Otp.antt =====
-- otp_engine/src/lib.rs: encryption with key bytes of the pool.
use project_qlinux.Prelude.{
  ℕ, List, [], ◌∷◌, ltb, ◌==◌, if◌then◌else◌, length, bit_xor, Result, ok, err,
}
use project_qlinux.KeyPool.{KeyPoolManager, KeyPoolError, acquire, consume}

pub data OtpError : Type 0 where
  key_too_short empty_input : OtpError
  key_pool : KeyPoolError → OtpError

-- `iter().zip(..).map(|(p, k)| p ^ k)`.
abbrev pub xor_zip : List ℕ → List ℕ → List ℕ
xor_zip [] ks = []
xor_zip (p ∷ ps) [] = []
xor_zip (p ∷ ps) (k ∷ ks) = bit_xor p k ∷ xor_zip ps ks

abbrev pub Sealed : Type 0
Sealed = Result OtpError (ℕ × List ℕ) × KeyPoolManager

-- `self.key_pool.consume(key_id)?; Ok((key_id, ciphertext))`.
abbrev pub finish : ℕ → List ℕ → Result KeyPoolError (Unit {0}) × KeyPoolManager → Sealed
finish id ciphertext (ok _, pool) = (ok (id, ciphertext), pool)
finish id ciphertext (err e, pool) = (err (key_pool e), pool)

abbrev pub encrypt_with : List ℕ → Result KeyPoolError (ℕ × List ℕ) × KeyPoolManager → Sealed
encrypt_with plaintext (err e, pool) = (err (key_pool e), pool)
encrypt_with plaintext (ok (id, key), pool) =
    let after = consume pool id in
    if ltb (length key) (length plaintext)
    then (err key_too_short, after.1)
    else finish id (xor_zip plaintext key) after

unfoldable pub encrypt : KeyPoolManager → List ℕ → Sealed
encrypt pool plaintext =
    if length plaintext == 0
    then (err empty_input, pool)
    else encrypt_with plaintext (acquire pool (length plaintext))

unfoldable pub decrypt_with_key : List ℕ → List ℕ → Result OtpError (List ℕ)
decrypt_with_key ciphertext key =
    if length ciphertext == 0
    then err empty_input
    else if ltb (length key) (length ciphertext)
    then err key_too_short
    else ok (xor_zip ciphertext key)
