-- ===== src/Net/Qtls/Reject.antt =====
-- How `seal` ends, and what `open` refuses: records whose tag is wrong, key bytes used before.
use project_qlinux.Prelude.{
  ℕ, ◌+◌, ◌≤◌, ◌<◌, ◌≡◌, ◌≢◌, ◌⊎◌, sym, ◌∙◌, true, ltb, List, arith, length, take, drop, ok, err,
  length-drop, overwrite, Bool-cases, inl, inr,
}
use project_qlinux.Uhf.CtEq.{ct_eq_16, ct_eq_16_iff}
use project_qlinux.Qkey.{KeyLane, KeyError, already_consumed, insufficient_key}
use project_qlinux.Qkey
use project_qlinux.Qkey.Stream.{Tracks, take-stream, peek_at-stream}
use project_qlinux.Net.Error.{key_error, auth_failed, payload_too_large}
use project_qlinux.Net.Qtls.{
  ContentType, RecordHeader, parse, mac, seal, open_record, key_cost, record_hdr_len, tag_len,
  max_record_payload,
}
use project_qlinux.Net.Qtls.RoundTrip.{key_at, length-mac, sealed, seal_lem}

-- A record that parses has the length that its header says.
pub length-parse :
    (rec : List ℕ) {h : RecordHeader}
    → parse rec ≡ ok h
    → (length rec ≡ record_hdr_len + h.length_field + tag_len)
      × (h.length_field ≤ max_record_payload)
unfolding parse
length-parse rec e = ground arith

-- The tag check passes only for the MAC itself.
tag_passes :
    (key rec : List ℕ) (len : ℕ)
    → length rec ≡ record_hdr_len + len + tag_len
    → ct_eq_16 (mac key (take (record_hdr_len + len) rec)) (drop (record_hdr_len + len) rec) ≡ true
    → drop (record_hdr_len + len) rec ≡ mac key (take (record_hdr_len + len) rec)
tag_passes key rec len n t = sym (
    (ct_eq_16_iff (mac key (take (record_hdr_len + len) rec)) (drop (record_hdr_len + len) rec)
        (length-mac key (take (record_hdr_len + len) rec))
        (length-drop (record_hdr_len + len) rec ∙ (omega arith))).0
      t)

-- A record that parses and fits the buffer, but names an offset below the lane's base, is
-- refused with AlreadyConsumed.
pub open_record_consumed :
    (s : List ℕ) (rx : KeyLane) (rec out : List ℕ) (h : RecordHeader)
    → Tracks s rx
    → parse rec ≡ ok h
    → h.length_field ≤ length out
    → h.key_offset < rx.base
    → open_record rx rec out ≡ err (key_error already_consumed)
unfolding open_record
open_record_consumed s rx rec out h tr p room low =
    ground (arith, peek_at-stream s rx h.key_offset (key_cost h.length_field) tr)

-- For a lane that tracks a stream, seal ends in one of three ways: with PayloadTooLarge, and
-- then the payload is above 1400 bytes or the buffer shorter than the record; with
-- InsufficientKey, and then both sizes fit and the stream ends before the payload's key bytes;
-- or with the record for the lane's offset in the buffer, and then both sizes fit, the stream
-- holds the key bytes, and the lane still tracks it and has moved behind them.
pub seal_cases :
    (s : List ℕ) (tx : KeyLane) (t : ContentType) (id : ℕ) (pt out : List ℕ)
    → Tracks s tx
    → let n : ℕ = length pt in
      let total : ℕ = record_hdr_len + n + tag_len in
      ((max_record_payload < n) ⊎ (length out < total))
        × (seal tx t id pt out ≡ err payload_too_large)
      ⊎ ((n ≤ max_record_payload)
            × (total ≤ length out)
            × (length s < tx.base + key_cost n)
            × (seal tx t id pt out ≡ err (key_error insufficient_key))
          ⊎ (n ≤ max_record_payload)
            × (total ≤ length out)
            × (tx.base + key_cost n ≤ length s)
            × ((tx' : KeyLane) × (seal tx t id pt out
                  ≡ ok (total, overwrite (sealed s tx.base t id pt) out, tx'))
                × Tracks s tx'
                × (tx'.base ≡ tx.base + key_cost n)))
unfolding seal
seal_cases s tx t id pt out tr = elim (Bool-cases (ltb max_record_payload (length pt))) [
  | inl large ↦ inl (inl (ground (arith, large)), ground (arith, large))
  | inr small ↦ elim (Bool-cases (ltb (length out) (record_hdr_len + length pt + tag_len))) [
    | inl short ↦ inl (inr (ground (arith, short)), ground (arith, small, short))
    | inr room ↦ elim (Bool-cases (ltb (length s) (tx.base + key_cost (length pt)))) [
      | inl few ↦ inr (
          inl (
            ground (arith, small),
            ground (arith, room),
            ground (arith, few),
            ground (arith, small, room, few, take-stream s tx (key_cost (length pt)) tr),
          ))
      | inr keys ↦ inr (
          inr (
            ground (arith, small),
            ground (arith, room),
            ground (arith, keys),
            seal_lem s tx t id pt out tr (ground (arith, small)) (ground (arith, room))
                (ground (arith, keys)),
          ))
    ]
  ]
]

-- A record that parses, whose key bytes the lane still holds, and whose last 16 bytes are not
-- the MAC of its header and ciphertext under those key bytes, is refused with AuthFailed.
pub open_record_forged :
    (s : List ℕ) (rx : KeyLane) (rec out : List ℕ) (h : RecordHeader)
    → Tracks s rx
    → parse rec ≡ ok h
    → h.length_field ≤ length out
    → rx.base ≤ h.key_offset
    → h.key_offset + key_cost h.length_field ≤ length s
    → drop (record_hdr_len + h.length_field) rec
      ≢ mac (key_at s h.key_offset h.length_field) (take (record_hdr_len + h.length_field) rec)
    → open_record rx rec out ≡ err auth_failed
unfolding open_record
open_record_forged s rx rec out h tr p room low keys wrong =
    let len : ℕ = h.length_field in
    let key : List ℕ = key_at s h.key_offset len in
    let size = length-parse rec p in
    let peek : Qkey.peek_at rx h.key_offset (key_cost len) ≡ ok key =
      peek_at-stream s rx h.key_offset (key_cost len) tr ∙ (ground arith) in
    elim (Bool-cases
      (ct_eq_16 (mac key (take (record_hdr_len + len) rec)) (drop (record_hdr_len + len) rec))) [
        | inl passes ↦ absurd (wrong (tag_passes key rec len size.0 passes))
        | inr fails ↦ ground (arith, p, peek, fails)
      ]
