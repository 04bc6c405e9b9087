-- ===== src/WcAuth/RoundTrip.antt =====
-- wc_auth/src/lib.rs: seal and open on records that are not changed on the way.
use project_qlinux.Prelude.{
  ℕ, ◌+◌, ◌-◌, ◌^◌, ◌≤◌, ◌<◌, ◌≡◌, refl, sym, ap, ◌∙◌, true, false, List, ◌++◌, arith, ltb, ◌==◌,
  length, take, drop, slice, length-append, take-append, drop-append, append_assoc, ok,
}
use project_qlinux.Prelude.Words.{u32, to_le, from_le, from_le-to_le}
use project_qlinux.Uhf.Poly1305.{new_key}
use project_qlinux.Uhf.Poly1305.Mac.{length-finalize}
use project_qlinux.Uhf.Poly1305
use project_qlinux.Uhf.CtEq.{ct_eq_16_iff}
use project_qlinux.WcAuth.{
  Mar, WcAuthSession, sender, receiver, from_bytes, to_bytes, mar_header_len, max_msg_len, tag_for,
  compute_tag, derive_subkey, bytes_to_words, seal, unlock, open_mar,
}

-- The fields fit their places.
pub record IsMar (m : Mar) : Type 0 where
  pub counted : m.word_count < 2 ^ 64
  pub measured : m.msg_len ≡ length m.payload
  pub short : length m.payload < 2 ^ 32
  pub tagged : length m.tag ≡ 16

-- A record is read field by field.
from_bytes_fields :
    (raw : List ℕ) (m : Mar)
    → mar_header_len + m.msg_len ≤ length raw
    → from_le (slice raw 0 8) ≡ m.word_count
    → from_le (slice raw 8 12) ≡ m.msg_len
    → slice raw 12 28 ≡ m.tag
    → slice raw mar_header_len (mar_header_len + m.msg_len) ≡ m.payload
    → from_bytes raw ≡ ok m
unfolding from_bytes
from_bytes_fields raw m size wc len tag payload =
    let long : ltb (length raw) mar_header_len ≡ false = ground (arith, size) in
    let all : ltb (length raw) (mar_header_len + m.msg_len) ≡ false = ground (arith, size) in
    rw (wc, len, long, all, tag, payload) refl

-- What is behind the payload is not read.
pub from_bytes-to_bytes :
    (m : Mar) (rest : List ℕ) → IsMar m → from_bytes (to_bytes m ++ rest) ≡ ok m
from_bytes-to_bytes m rest v =
    from_bytes_fields (to_bytes m ++ rest) m size
      (from_le-to_le 8 m.word_count (omega (arith, v.counted)))
      (from_le-to_le 4 m.msg_len (omega (arith, v.measured, v.short)))
      (ap (take 16) whole ∙ take-append 16 m.tag (m.payload ++ rest) (sym v.tagged))
      (ap (λ n. take n (drop 16 ((m.tag ++ m.payload) ++ rest))) room
        ∙ ap (λ xs. take m.msg_len (drop 16 xs)) whole
        ∙ ap (take m.msg_len) (drop-append 16 m.tag (m.payload ++ rest) (sym v.tagged))
        ∙ take-append m.msg_len m.payload rest v.measured)
  where
    whole : (m.tag ++ m.payload) ++ rest ≡ m.tag ++ (m.payload ++ rest)
    whole = append_assoc m.tag m.payload rest

    room : mar_header_len + m.msg_len - mar_header_len ≡ m.msg_len
    room = omega arith

    size : mar_header_len + m.msg_len ≤ length (to_bytes m ++ rest)
    size = omega (
      arith,
      length-append (m.tag ++ m.payload) rest,
      length-append m.tag m.payload,
      v.measured,
      v.tagged,
    )

length-compute_tag :
    (key : Poly1305.Poly1305Key) (wc : ℕ) (p : List ℕ) → length (compute_tag key wc p) ≡ 16
unfolding compute_tag
length-compute_tag key wc p = length-finalize (
    Poly1305.update
      (Poly1305.update (Poly1305.update (Poly1305.new key) (to_le 8 wc)) (to_le 4 (u32 (length p))))
      p)

-- The session after `n` more words.
abbrev pub advance : WcAuthSession → ℕ → WcAuthSession
advance s n = record s { word_count = s.word_count + n }

-- What `seal` makes of a message.
abbrev pub mar_of : WcAuthSession → List ℕ → Mar
mar_of s p = record {
  word_count = s.word_count;
  msg_len = u32 (length p);
  tag = tag_for s s.word_count p;
  payload = p;
}

-- A message that may be sent: not empty, not too long, and with words left for it.
pub record Sendable (s : WcAuthSession) (p : List ℕ) : Type 0 where
  pub not_empty : 0 < length p
  pub not_long : length p ≤ max_msg_len
  pub room : s.word_count + bytes_to_words (length p) < 2 ^ 64

pub mar_of-IsMar : (s : WcAuthSession) (p : List ℕ) → Sendable s p → IsMar (mar_of s p)
mar_of-IsMar s p v = record {
  counted = omega (arith, v.room);
  measured = omega (arith, v.not_long);
  short = omega (arith, v.not_long);
  tagged = length-compute_tag (new_key (derive_subkey s.master_key s.word_count)) s.word_count p;
}

pub seal_ok :
    (s : WcAuthSession) (p : List ℕ)
    → s.role ≡ sender
    → Sendable s p
    → seal s p ≡ (ok (to_bytes (mar_of s p)), advance s (bytes_to_words (length p)))
unfolding seal
seal_ok s p role v =
    let c₁ : (length p == 0) ≡ false = ground (arith, v.not_empty) in
    let c₂ : ltb max_msg_len (length p) ≡ false = ground (arith, v.not_long) in
    let c₃ : ltb (s.word_count + bytes_to_words (length p)) (2 ^ 64) ≡ true =
      ground (arith, v.room) in
    simp (role, c₁, c₂, c₃)

module _ (s r : WcAuthSession) (p rest : List ℕ) where
  -- For a sender and a receiver with one key and one word count, and a message of 1 to 65536
  -- bytes for which the word count has room, seal answers a record, open answers the message
  -- from that record with anything behind it, and both word counts go up by the words of the
  -- message.
  pub open_mar-seal :
      s.role ≡ sender
      → r.role ≡ receiver
      → r.master_key ≡ s.master_key
      → r.word_count ≡ s.word_count
      → Sendable s p
      → (seal s p ≡ (ok (to_bytes (mar_of s p)), advance s (bytes_to_words (length p))))
        × (open_mar r (to_bytes (mar_of s p) ++ rest)
            ≡ (ok p, advance r (bytes_to_words (length p))))
  unfolding open_mar unlock
  open_mar-seal is_s is_r same_key same_count v =
      let n = bytes_to_words (length p) in
      let read = from_bytes-to_bytes (mar_of s p) rest (mar_of-IsMar s p v) in
      let c₁ : (length p == 0) ≡ false = ground (arith, v.not_empty) in
      let c₂ : ltb max_msg_len (length p) ≡ false = ground (arith, v.not_long) in
      let c₃ : ltb (s.word_count + n) (2 ^ 64) ≡ true = ground (arith, v.room) in
      let tagged =
        length-compute_tag (new_key (derive_subkey s.master_key s.word_count)) s.word_count p in
      let tag = tag_for s s.word_count p in
      let equal = (ct_eq_16_iff tag tag tagged tagged).1 refl in
      let count : (s.word_count == s.word_count) ≡ true = ground arith in
      (seal_ok s p is_s v, simp (is_r, read, same_count, same_key, c₁, c₂, c₃, equal, count))
