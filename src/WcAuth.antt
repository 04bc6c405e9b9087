-- ===== src/WcAuth.antt =====
-- wc_auth/src/lib.rs: records authenticated by Poly1305 under a key derived from the words sent so
-- far. A call takes the session and returns its result with the session after it; an error leaves
-- the session as it was. `From<UhfError>` and `Drop` have no part in the values computed.
pub mod RoundTrip
pub mod Reject
mod Tests
use project_qlinux.Prelude.{
  ℕ, zero, suc, ◌+◌, ◌-◌, ◌/◌, ◌^◌, Bool, true, false, not, Option, none, some, List, [], ◌∷◌, ◌++◌,
  ltb, ◌==◌, if◌then◌else◌, length, take, drop, slice, Result, ok, err, ◌>>=◌, ◌>>◌, refuse_if,
  ok_or, checked_add,
}
use project_qlinux.Prelude.Words.{u32, u64, to_le, from_le}
use project_qlinux.Uhf.Poly1305.{Poly1305Key, new_key}
use project_qlinux.Uhf.Poly1305
use project_qlinux.Uhf.CtEq.{ct_eq_16}

abbrev pub word_bytes : ℕ
word_bytes = 8

abbrev pub mar_header_len : ℕ
mar_header_len = 8 + 4 + 16

abbrev pub max_msg_len : ℕ
max_msg_len = 65536

abbrev pub session_key_len : ℕ
session_key_len = 32

pub data WcAuthError : Type 0 where
  tag_mismatch word_count_mismatch message_too_long invalid_mar empty_message invalid_key
        word_count_overflow :
      WcAuthError

pub record Mar : Type 0 where
  pub word_count : ℕ
  pub msg_len : ℕ
  pub tag : List ℕ
  pub payload : List ℕ

unfoldable pub from_bytes : List ℕ → Result WcAuthError Mar
from_bytes raw = do
  let word_count = from_le (slice raw 0 8)
  let msg_len = from_le (slice raw 8 12)
  refuse_if (ltb (length raw) mar_header_len) invalid_mar
  refuse_if (ltb (length raw) (mar_header_len + msg_len)) invalid_mar
  ok record {
    word_count = word_count;
    msg_len = msg_len;
    tag = slice raw 12 28;
    payload = slice raw mar_header_len (mar_header_len + msg_len);
  }

abbrev pub to_bytes : Mar → List ℕ
to_bytes m = to_le 8 m.word_count ++ (to_le 4 m.msg_len ++ (m.tag ++ m.payload))

-- `b"qlinux-wc-auth-v1-r"`, and the same with `s` at the end.
abbrev pub label : ℕ → List ℕ
label last =
    113 ∷ 108 ∷ 105 ∷ 110 ∷ 117 ∷ 120 ∷ 45 ∷ 119 ∷ 99 ∷ 45 ∷ 97 ∷ 117 ∷ 116 ∷ 104 ∷ 45 ∷ 118 ∷ 49
    ∷ 45 ∷ last ∷ []

abbrev pub label_r : List ℕ
label_r = label 114

abbrev pub label_s : List ℕ
label_s = label 115

unfoldable pub derive_subkey : List ℕ → ℕ → List ℕ
derive_subkey master word_count =
    let tag_r = Poly1305.mac (new_key master) (to_le 8 word_count ++ label_r) in
    let tag_s = Poly1305.mac (new_key master) (to_le 8 word_count ++ label_s) in tag_r ++ tag_s

pub data SessionRole : Type 0 where
  sender receiver : SessionRole

abbrev pub is_sender : SessionRole → Bool
is_sender sender = true
is_sender receiver = false

pub record WcAuthSession : Type 0 where
  pub master_key : List ℕ
  pub word_count : ℕ
  pub role : SessionRole

unfoldable pub new_session : List ℕ → ℕ → SessionRole → Result WcAuthError WcAuthSession
new_session master_key initial_wc role =
    if length master_key == session_key_len
    then ok record { master_key = master_key; word_count = initial_wc; role = role }
    else err invalid_key

unfoldable pub bytes_to_words : ℕ → ℕ
bytes_to_words bytes = (bytes + word_bytes - 1) / word_bytes

unfoldable pub compute_tag : Poly1305Key → ℕ → List ℕ → List ℕ
compute_tag key word_count payload =
    let c₁ = Poly1305.update (Poly1305.new key) (to_le 8 word_count) in
    let c₂ = Poly1305.update c₁ (to_le 4 (u32 (length payload))) in
    Poly1305.finalize (Poly1305.update c₂ payload)

-- What a call returns, with the session after it.
abbrev pub settle :
    WcAuthSession → Result WcAuthError (List ℕ × ℕ) → Result WcAuthError (List ℕ) × WcAuthSession
settle s (ok (out, wc)) = (ok out, record s { word_count = wc })
settle s (err e) = (err e, s)

abbrev pub tag_for : WcAuthSession → ℕ → List ℕ → List ℕ
tag_for s wc payload = compute_tag (new_key (derive_subkey s.master_key wc)) wc payload

unfoldable pub seal : WcAuthSession → List ℕ → Result WcAuthError (List ℕ) × WcAuthSession
unfolding bytes_to_words
seal s plaintext = settle s do
  refuse_if (not (is_sender s.role)) invalid_key
  refuse_if (length plaintext == 0) empty_message
  refuse_if (ltb max_msg_len (length plaintext)) message_too_long
  let wc = s.word_count
  let tag = tag_for s wc plaintext
  let mar : Mar = record {
    word_count = wc;
    msg_len = u32 (length plaintext);
    tag = tag;
    payload = plaintext;
  }
  next ← ok_or (checked_add wc (bytes_to_words (length plaintext))) word_count_overflow
  ok (to_bytes mar, next)

unfoldable pub unlock : WcAuthSession → Mar → Result WcAuthError (List ℕ × ℕ)
unfolding bytes_to_words
unlock s mar = do
  refuse_if (not (mar.word_count == s.word_count)) word_count_mismatch
  refuse_if (length mar.payload == 0) empty_message
  refuse_if (ltb max_msg_len (length mar.payload)) message_too_long
  let expected_tag = tag_for s mar.word_count mar.payload
  refuse_if (not (ct_eq_16 expected_tag mar.tag)) tag_mismatch
  next ← ok_or (checked_add s.word_count (bytes_to_words (length mar.payload))) word_count_overflow
  ok (mar.payload, next)

-- `open` of the source, a word of the language.
unfoldable pub open_mar : WcAuthSession → List ℕ → Result WcAuthError (List ℕ) × WcAuthSession
unfolding from_bytes unlock
open_mar s raw_mar =
    settle s do refuse_if (is_sender s.role) invalid_key; mar ← from_bytes raw_mar; unlock s mar

unfoldable pub create_session_pair : List ℕ → Result WcAuthError (WcAuthSession × WcAuthSession)
unfolding new_session
create_session_pair master_key = do
  refuse_if (not (length master_key == session_key_len)) invalid_key
  s ← new_session master_key 0 sender
  r ← new_session master_key 0 receiver
  ok (s, r)
