-- ===== src/WcAuth/Tests.antt =====
-- wc_auth/src/lib.rs: runs of sessions, after the tests of the file.
use project_qlinux.Prelude.{ℕ, ◌≡◌, refl, List, [], ◌∷◌, ◌++◌, replicate, arith, ok, err}
use project_qlinux.WcAuth.{
  WcAuthSession, sender, receiver, seal, open_mar, create_session_pair, bytes_to_words, to_bytes,
  empty_message, invalid_key, invalid_mar, word_count_mismatch, from_bytes,
}
use project_qlinux.WcAuth.RoundTrip.{Sendable, open_mar-seal, advance, mar_of}
use project_qlinux.WcAuth.Reject.{Opened, open_mar-Opened, open_mar-replay}

abbrev alice : WcAuthSession
alice = record { master_key = replicate 32 90; word_count = 0; role = sender }

abbrev bob : WcAuthSession
bob = record { master_key = replicate 32 90; word_count = 0; role = receiver }

abbrev hello : List ℕ
hello = 72 ∷ 101 ∷ 108 ∷ 108 ∷ 111 ∷ []

pair_made : create_session_pair (replicate 32 90) ≡ ok (alice, bob)
unfolding create_session_pair
pair_made = refl

short_key_refused : create_session_pair (replicate 31 90) ≡ err invalid_key
unfolding create_session_pair
short_key_refused = refl

empty_message_refused : (seal alice []).0 ≡ err empty_message
unfolding seal
empty_message_refused = refl

wrong_role_refused :
    ((seal bob hello).0 ≡ err invalid_key) × ((open_mar alice hello).0 ≡ err invalid_key)
unfolding seal open_mar
wrong_role_refused = (refl, refl)

short_mar_refused : (open_mar bob hello).0 ≡ err invalid_mar
unfolding open_mar from_bytes
short_mar_refused = refl

bytes_to_words_runs : (bytes_to_words 0 ≡ 0) × (bytes_to_words 8 ≡ 1) × (bytes_to_words 9 ≡ 2)
unfolding bytes_to_words
bytes_to_words_runs = (refl, refl, refl)

abbrev hello_sendable : Sendable alice hello
unfolding bytes_to_words
hello_sendable = record { not_empty = omega arith; not_long = omega arith; room = omega arith }

abbrev hello_mar : List ℕ
hello_mar = to_bytes (mar_of alice hello) ++ (1 ∷ 2 ∷ [])

open_mar-seal_example :
    (seal alice hello ≡ (ok (to_bytes (mar_of alice hello)), advance alice (bytes_to_words 5)))
    × (open_mar bob hello_mar ≡ (ok hello, advance bob (bytes_to_words 5)))
open_mar-seal_example =
    open_mar-seal alice bob hello (1 ∷ 2 ∷ []) refl refl refl refl hello_sendable

open_mar-Opened_example : Opened bob (advance bob (bytes_to_words 5)) hello_mar hello
open_mar-Opened_example =
    open_mar-Opened bob (advance bob (bytes_to_words 5)) hello_mar hello
      (open_mar-seal alice bob hello (1 ∷ 2 ∷ []) refl refl refl refl hello_sendable).1

open_mar-replay_example :
    open_mar (advance bob (bytes_to_words 5)) hello_mar
    ≡ (err word_count_mismatch, advance bob (bytes_to_words 5))
open_mar-replay_example =
    open_mar-replay bob (advance bob (bytes_to_words 5)) hello_mar hello
      (open_mar-seal alice bob hello (1 ∷ 2 ∷ []) refl refl refl refl hello_sendable).1
