-- ===== src/Net/Qtls.antt =====
-- kernel/net/src/qtls.rs: records protected by one-time key bytes. A record is
-- header (14 bytes), ciphertext, tag (16 bytes); the header is authenticated too.
-- An output buffer is a list; a call returns it with the bytes written at its front.
pub mod RoundTrip
pub mod Reject
use project_qlinux.Prelude.{
  ℕ, ◌+◌, ◌*◌, ◌-◌, Bool, true, false, not, ◌||◌, Option, none, some, List, [], ◌∷◌, ◌++◌, ltb,
  ◌==◌, length, get_or, take, drop, slice, overwrite, bit_xor, if◌then◌else◌, Result, ok, err,
  ◌>>=◌, ◌>>◌, refuse_if, ok_or, map_err,
}
use project_qlinux.Prelude.Words.{u16, to_be, from_be}
use project_qlinux.Uhf.Poly1305
use project_qlinux.Uhf.CtEq.{ct_eq_16}
use project_qlinux.Qkey.{KeyLane}
use project_qlinux.Qkey
use project_qlinux.Net.Error.{NetError, malformed, payload_too_large, auth_failed, key_error}

abbrev pub qtls_version : ℕ
qtls_version = 1

abbrev pub record_hdr_len : ℕ
record_hdr_len = 14

abbrev pub tag_len : ℕ
tag_len = 16

abbrev pub mac_key_len : ℕ
mac_key_len = 32

abbrev pub max_record_payload : ℕ
max_record_payload = 1400

abbrev pub max_record_len : ℕ
max_record_len = record_hdr_len + max_record_payload + tag_len

-- The key bytes that one record uses up.
abbrev pub key_cost : ℕ → ℕ
key_cost payload_len = mac_key_len + payload_len

-- `Data` is a word of the language, hence `app_data`.
pub data ContentType : Type 0 where
  hello hello_ack app_data close : ContentType

abbrev pub to_u8 : ContentType → ℕ
to_u8 hello = 1
to_u8 hello_ack = 2
to_u8 app_data = 3
to_u8 close = 4

abbrev pub from_u8 : ℕ → Option ContentType
from_u8 v =
    if v == 1
    then some hello
    else if v == 2
    then some hello_ack
    else if v == 3
    then some app_data
    else if v == 4
    then some close
    else none

pub record RecordHeader : Type 0 where
  pub ctype : ContentType
  pub session_id : ℕ
  pub key_offset : ℕ
  pub length_field : ℕ

-- The 14 bytes that `RecordHeader::write` puts into the buffer.
pub header_bytes : RecordHeader → List ℕ
header_bytes h =
    to_u8 h.ctype
    ∷ qtls_version
    ∷ (to_be 2 h.session_id ++ (to_be 8 h.key_offset ++ to_be 2 h.length_field))

unfoldable pub parse : List ℕ → Result NetError RecordHeader
parse rec = do
  refuse_if (ltb (length rec) (record_hdr_len + tag_len) || not (get_or rec 1 0 == qtls_version))
      malformed
  ctype ← ok_or (from_u8 (get_or rec 0 0)) malformed
  let len = from_be (get_or rec 12 0 ∷ get_or rec 13 0 ∷ [])
  refuse_if (ltb max_record_payload len || not (length rec == record_hdr_len + len + tag_len))
      malformed
  ok (record {
    ctype = ctype;
    session_id = from_be (get_or rec 2 0 ∷ get_or rec 3 0 ∷ []);
    key_offset = from_be (slice rec 4 12);
    length_field = len;
  })

-- `mac` of the file: the first 32 key bytes are the one-time key.
unfoldable pub mac : List ℕ → List ℕ → List ℕ
mac key authenticated = Poly1305.mac (Poly1305.new_key (take mac_key_len key)) authenticated

-- The zipped loop: byte by byte with the pad.
abbrev pub xor_pad : List ℕ → List ℕ → List ℕ
xor_pad [] ks = []
xor_pad (p ∷ ps) [] = []
xor_pad (p ∷ ps) (k ∷ ks) = bit_xor p k ∷ xor_pad ps ks

-- The number of bytes written, the buffer, and the lane.
pub seal : KeyLane → ContentType → ℕ → List ℕ → List ℕ → Result NetError (ℕ × List ℕ × KeyLane)
unfolding mac header_bytes
seal tx ctype session_id plaintext out = do
  let len = length plaintext
  refuse_if (ltb max_record_payload len) payload_too_large
  let total = record_hdr_len + len + tag_len
  refuse_if (ltb (length out) total) payload_too_large
  taken ← map_err key_error (Qkey.take tx (key_cost len))
  let (key_offset, key, tx') = taken
  let hdr : RecordHeader = record {
    ctype = ctype;
    session_id = session_id;
    key_offset = key_offset;
    length_field = u16 len;
  }
  let body = header_bytes hdr ++ xor_pad plaintext (slice key mac_key_len (mac_key_len + len))
  ok (total, overwrite (body ++ mac key body) out, tx')

-- The header, the payload's length, the buffer, and the lane. The lane is consumed only behind
-- the tag check.
unfoldable pub open_record :
    KeyLane → List ℕ → List ℕ → Result NetError (RecordHeader × ℕ × List ℕ × KeyLane)
unfolding parse mac
open_record rx rec out = do
  hdr ← parse rec
  let len = hdr.length_field
  refuse_if (ltb (length out) len) payload_too_large
  key ← map_err key_error (Qkey.peek_at rx hdr.key_offset (key_cost len))
  let expected = mac key (take (record_hdr_len + len) rec)
  let tag = drop (record_hdr_len + len) rec
  refuse_if (not (ct_eq_16 expected tag)) auth_failed
  rx' ← map_err key_error (Qkey.consume_through rx hdr.key_offset (key_cost len))
  let pad = slice key mac_key_len (mac_key_len + len)
  ok (hdr, len, overwrite (xor_pad (slice rec record_hdr_len (record_hdr_len + len)) pad) out, rx')
