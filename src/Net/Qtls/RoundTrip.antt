-- ===== src/Net/Qtls/RoundTrip.antt =====
-- What `seal` writes, `open` reads back, through lanes that track one key stream.
use project_qlinux.Prelude.{
  ℕ, suc, ◌+◌, ◌-◌, ◌^◌, ◌≤◌, ◌<◌, ◌≡◌, refl, sym, ap, ap₂, ◌∙◌, true, some, List, [], ◌∷◌, ◌++◌,
  arith, length, take, drop, slice, overwrite, ok, length-append, length-take, length-drop,
  take-append, drop-append, append_assoc,
}
use project_qlinux.Prelude.Bits.{bit_xor_cancel}
use project_qlinux.Prelude.Words.{u16}
use project_qlinux.Uhf.Poly1305
use project_qlinux.Uhf.Poly1305.Mac
use project_qlinux.Uhf.CtEq.{ct_eq_16, ct_eq_16_iff}
use project_qlinux.Qkey.{KeyLane}
use project_qlinux.Qkey
use project_qlinux.Qkey.Stream.{Tracks, take-Tracks, peek_at-stream, consume_through-Tracks}
use project_qlinux.Net.Qtls.{
  ContentType, hello, hello_ack, app_data, close, to_u8, from_u8, RecordHeader, header_bytes, parse,
  mac, xor_pad, seal, open_record, key_cost, mac_key_len, record_hdr_len, tag_len,
  max_record_payload,
}

from_u8-to_u8 : (t : ContentType) → from_u8 (to_u8 t) ≡ some t
from_u8-to_u8 hello = refl
from_u8-to_u8 hello_ack = refl
from_u8-to_u8 app_data = refl
from_u8-to_u8 close = refl

record RecordFits (h : RecordHeader) : Type 0 where
  id_fits : h.session_id < 2 ^ 16
  offset_fits : h.key_offset < 2 ^ 64
  length_fits : h.length_field ≤ max_record_payload

-- A header that fits its fields is parsed back, if the record is as long as the header says.
parse-header_bytes :
    (h : RecordHeader) (rest : List ℕ)
    → RecordFits h
    → length rest ≡ h.length_field + tag_len
    → parse (header_bytes h ++ rest) ≡ ok h
unfolding parse header_bytes
parse-header_bytes h rest f e = ground (arith, from_u8-to_u8 h.ctype)

pub length-mac : (key m : List ℕ) → length (mac key m) ≡ 16
unfolding mac
length-mac key m = Mac.length-mac (Poly1305.new_key (take mac_key_len key)) m

length-xor_pad : (ps ks : List ℕ) → length ps ≡ length ks → length (xor_pad ps ks) ≡ length ps
length-xor_pad [] ks e = refl
length-xor_pad (p ∷ ps) [] e = absurd (omega arith)
length-xor_pad (p ∷ ps) (k ∷ ks) e = ap suc (length-xor_pad ps ks (omega arith))

xor_pad_cancel : (ps ks : List ℕ) → length ps ≡ length ks → xor_pad (xor_pad ps ks) ks ≡ ps
xor_pad_cancel [] ks e = refl
xor_pad_cancel (p ∷ ps) [] e = absurd (omega arith)
xor_pad_cancel (p ∷ ps) (k ∷ ks) e =
    ap₂ ◌∷◌ (bit_xor_cancel p k) (xor_pad_cancel ps ks (omega arith))

-- The key bytes of a record in the stream.
abbrev pub key_at : List ℕ → ℕ → ℕ → List ℕ
key_at stream offset len = take (key_cost len) (drop offset stream)

abbrev pub pad_at : List ℕ → ℕ → ℕ → List ℕ
pad_at stream offset len = slice (key_at stream offset len) mac_key_len (mac_key_len + len)

abbrev pub header : ContentType → ℕ → ℕ → ℕ → RecordHeader
header t id offset len = record {
  ctype = t;
  session_id = id;
  key_offset = offset;
  length_field = len;
}

abbrev body : List ℕ → ℕ → ContentType → ℕ → List ℕ → List ℕ
body stream offset t id pt =
    header_bytes (header t id offset (length pt)) ++ xor_pad pt (pad_at stream offset (length pt))

-- The record for a plaintext at an offset of the stream.
pub sealed : List ℕ → ℕ → ContentType → ℕ → List ℕ → List ℕ
sealed stream offset t id pt =
    body stream offset t id pt
    ++ mac (key_at stream offset (length pt)) (body stream offset t id pt)

length-pad_at :
    (s : List ℕ) (offset len : ℕ)
    → offset + key_cost len ≤ length s
    → length (pad_at s offset len) ≡ len
length-pad_at s offset len h =
    length-take (mac_key_len + len - mac_key_len) (drop mac_key_len (key_at s offset len))
    ∙ (omega (
      arith,
      length-drop mac_key_len (key_at s offset len),
      length-take (key_cost len) (drop offset s),
      length-drop offset s,
    ))

length-header_bytes : (h : RecordHeader) → length (header_bytes h) ≡ 14
unfolding header_bytes
length-header_bytes h = refl

length-body :
    (s : List ℕ) (offset : ℕ) (t : ContentType) (id : ℕ) (pt : List ℕ)
    → offset + key_cost (length pt) ≤ length s
    → length (body s offset t id pt) ≡ 14 + length pt
length-body s offset t id pt h =
    let p = length-pad_at s offset (length pt) h in
    let hb : List ℕ = header_bytes (header t id offset (length pt)) in
    length-append hb (xor_pad pt (pad_at s offset (length pt)))
    ∙ (omega (
      arith,
      length-header_bytes (header t id offset (length pt)),
      length-xor_pad pt (pad_at s offset (length pt)) (sym p),
    ))

-- `seal` at a lane that tracks the stream: the record for the lane's offset.
pub seal_lem :
    (s : List ℕ) (tx : KeyLane) (t : ContentType) (id : ℕ) (pt out : List ℕ)
    → Tracks s tx
    → length pt ≤ max_record_payload
    → record_hdr_len + length pt + tag_len ≤ length out
    → tx.base + key_cost (length pt) ≤ length s
    → (tx' : KeyLane) × (seal tx t id pt out
        ≡ ok (record_hdr_len + length pt + tag_len, overwrite (sealed s tx.base t id pt) out, tx'))
      × Tracks s tx'
      × (tx'.base ≡ tx.base + key_cost (length pt))
unfolding seal sealed
seal_lem s tx t id pt out tr small room keys =
    let k = take-Tracks s tx (key_cost (length pt)) tr (omega arith) keys in
    let e : u16 (length pt) ≡ length pt = omega arith in (k.0, ground (arith, k.1, e), k.2, k.3)

parse-sealed :
    (s : List ℕ) (offset : ℕ) (t : ContentType) (id : ℕ) (pt : List ℕ)
    → length pt ≤ max_record_payload
    → id < 2 ^ 16
    → offset < 2 ^ 64
    → offset + key_cost (length pt) ≤ length s
    → parse (sealed s offset t id pt) ≡ ok (header t id offset (length pt))
unfolding sealed
parse-sealed s offset t id pt small idf off keys =
    let hd = header t id offset (length pt) in
    let ct : List ℕ = xor_pad pt (pad_at s offset (length pt)) in
    let tag : List ℕ = mac (key_at s offset (length pt)) (body s offset t id pt) in
    let p = length-pad_at s offset (length pt) keys in
    ap parse (append_assoc (header_bytes hd) ct tag)
    ∙ parse-header_bytes hd (ct ++ tag)
        (record { id_fits = idf; offset_fits = off; length_fits = small })
        (length-append ct tag
          ∙ (omega (
            arith,
            length-xor_pad pt (pad_at s offset (length pt)) (sym p),
            length-mac (key_at s offset (length pt)) (body s offset t id pt),
          )))

take-sealed :
    (s : List ℕ) (offset : ℕ) (t : ContentType) (id : ℕ) (pt : List ℕ)
    → offset + key_cost (length pt) ≤ length s
    → take (record_hdr_len + length pt) (sealed s offset t id pt) ≡ body s offset t id pt
unfolding sealed
take-sealed s offset t id pt keys =
    take-append (record_hdr_len + length pt) (body s offset t id pt) _
      (sym (length-body s offset t id pt keys))

drop-sealed :
    (s : List ℕ) (offset : ℕ) (t : ContentType) (id : ℕ) (pt : List ℕ)
    → offset + key_cost (length pt) ≤ length s
    → drop (record_hdr_len + length pt) (sealed s offset t id pt)
      ≡ mac (key_at s offset (length pt)) (body s offset t id pt)
unfolding sealed
drop-sealed s offset t id pt keys =
    drop-append (record_hdr_len + length pt) (body s offset t id pt) _
      (sym (length-body s offset t id pt keys))

slice-sealed :
    (s : List ℕ) (offset : ℕ) (t : ContentType) (id : ℕ) (pt : List ℕ)
    → offset + key_cost (length pt) ≤ length s
    → slice (sealed s offset t id pt) record_hdr_len (record_hdr_len + length pt)
      ≡ xor_pad pt (pad_at s offset (length pt))
unfolding sealed
slice-sealed s offset t id pt keys =
    let hd = header t id offset (length pt) in
    let ct : List ℕ = xor_pad pt (pad_at s offset (length pt)) in
    let tag : List ℕ = mac (key_at s offset (length pt)) (body s offset t id pt) in
    let p = length-pad_at s offset (length pt) keys in
    ap (λ l. take (record_hdr_len + length pt - record_hdr_len) (drop record_hdr_len l))
      (append_assoc (header_bytes hd) ct tag)
    ∙ ap (take (record_hdr_len + length pt - record_hdr_len))
        (drop-append record_hdr_len (header_bytes hd) (ct ++ tag) (sym (length-header_bytes hd)))
    ∙ take-append (record_hdr_len + length pt - record_hdr_len) ct tag
        (omega (arith, length-xor_pad pt (pad_at s offset (length pt)) (sym p)))

same_tag : (tag : List ℕ) → length tag ≡ 16 → ct_eq_16 tag tag ≡ true
same_tag tag e = (ct_eq_16_iff tag tag e e).1 refl

-- `open` at a lane that tracks the stream and is not past the record: header and plaintext come
-- back, and the lane moves behind the record's key bytes.
pub open-sealed :
    (s : List ℕ) (rx : KeyLane) (offset : ℕ) (t : ContentType) (id : ℕ) (pt out : List ℕ)
    → Tracks s rx
    → length pt ≤ max_record_payload
    → length pt ≤ length out
    → id < 2 ^ 16
    → rx.base ≤ offset
    → offset + key_cost (length pt) ≤ length s
    → (rx' : KeyLane) × (open_record rx (sealed s offset t id pt) out
        ≡ ok (header t id offset (length pt), length pt, overwrite pt out, rx'))
      × Tracks s rx'
      × (rx'.base ≡ offset + key_cost (length pt))
unfolding open_record
open-sealed s rx offset t id pt out tr small room idf low keys =
    let n : ℕ = key_cost (length pt) in
    let k = consume_through-Tracks s rx offset n tr low keys in
    let key : List ℕ = key_at s offset (length pt) in
    let peek : Qkey.peek_at rx offset n ≡ ok key =
      peek_at-stream s rx offset n tr ∙ (ground arith) in
    let tag : List ℕ = mac key (body s offset t id pt) in
    let ps = pad_at s offset (length pt) in
    let plain : xor_pad (xor_pad pt ps) ps ≡ pt =
      xor_pad_cancel pt ps (sym (length-pad_at s offset (length pt) keys)) in
    let same : ct_eq_16 tag tag ≡ true = same_tag tag (length-mac key (body s offset t id pt)) in
    (
      k.0,
      rw
          (
            parse-sealed s offset t id pt small idf (omega (arith, tr.fits)) keys,
            peek,
            take-sealed s offset t id pt keys,
            drop-sealed s offset t id pt keys,
            same,
            k.1,
            slice-sealed s offset t id pt keys,
          )
          (ground (arith, plain)),
      k.2,
      k.3,
    )

-- When a sending and a receiving lane track the same key stream, the receiver is not past the
-- sender, the keys for the payload are there, the payload is at most 1400 bytes, the session id
-- has 16 bits and both buffers have room, then seal succeeds, open on the bytes written gives
-- the header and the plaintext, and both lanes track the stream and stand at the same offset.
pub seal-open_record :
    (s : List ℕ) (tx rx : KeyLane) (t : ContentType) (id : ℕ) (pt out into : List ℕ)
    → Tracks s tx
    → Tracks s rx
    → rx.base ≤ tx.base
    → tx.base + key_cost (length pt) ≤ length s
    → length pt ≤ max_record_payload
    → id < 2 ^ 16
    → record_hdr_len + length pt + tag_len ≤ length out
    → length pt ≤ length into
    → (rec : List ℕ) × (tx' : KeyLane) × (rx' : KeyLane) × (seal tx t id pt out
        ≡ ok (record_hdr_len + length pt + tag_len, overwrite rec out, tx'))
      × (open_record rx rec into
          ≡ ok (header t id tx.base (length pt), length pt, overwrite pt into, rx'))
      × Tracks s tx'
      × Tracks s rx'
      × (rx'.base ≡ tx'.base)
seal-open_record s tx rx t id pt out into a b low keys small idf room space =
    let w = seal_lem s tx t id pt out a small room keys in
    let r = open-sealed s rx tx.base t id pt into b small space idf low keys in
    (sealed s tx.base t id pt, w.0, r.0, w.1, r.1, w.2, r.2, r.3 ∙ sym w.3)
