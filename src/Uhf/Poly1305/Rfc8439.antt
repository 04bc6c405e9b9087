-- ===== src/Uhf/Poly1305/Rfc8439.antt =====
-- `Poly1305::mac` with a key of 32 bytes against RFC 8439, and where the two part.
use project_qlinux.Prelude.{
  ℕ, ◌+◌, ◌*◌, ◌/◌, ◌%◌, ◌^◌, ◌≤◌, ◌<◌, ◌≡◌, ◌≢◌, refl, sym, ap, ap₂, ◌∙◌, List, [], arith, length,
  take, drop, length-take, length-drop, drop-drop, drop_all,
}
use project_qlinux.Prelude.Words.{
  u128, to_le, from_le, from_le-lt, from_le_parts, IsBytes, IsBytes-take, IsBytes-drop,
}
use project_qlinux.Uhf.Poly1305.{Limbs, Poly1305, Poly1305Key, new_key, new, update, finalize, mac}
use project_qlinux.Uhf.Poly1305.Clamp.{clamped_r, pad_s, clamp_lem, clamped_r-lt}
use project_qlinux.Uhf.Poly1305.Residue.{p130, value}
use project_qlinux.Uhf.Poly1305.Rfc.{residue, rfc_mac, rfc_mac_lem}
use project_qlinux.Uhf.Poly1305.Stream.{Absorbed, new-Absorbed, update-Absorbed}
use project_qlinux.Uhf.Poly1305.Mac.{
  IsKey, s_value, last_value, last_value_lem, finalize_lem, finalize-rfc_mac,
}

abbrev limbs_of : ℕ → Limbs
limbs_of m = record {
  l0 = m % 2 ^ 26;
  l1 = m / 2 ^ 26 % 2 ^ 26;
  l2 = m / 2 ^ 52 % 2 ^ 26;
  l3 = m / 2 ^ 78 % 2 ^ 26;
  l4 = m / 2 ^ 104 % 2 ^ 26;
}

slice-lt :
    (raw : List ℕ) (lo : ℕ)
    → IsBytes raw
    → lo + 4 ≤ length raw
    → from_le (take 4 (drop lo raw)) < 2 ^ 32
slice-lt raw lo b h =
    let k : length (take 4 (drop lo raw)) ≡ 4 =
      length-take 4 (drop lo raw) ∙ (omega (arith, length-drop lo raw)) in
    rw k at
      (from_le-lt (take 4 (drop lo raw)) (IsBytes-take 4 (drop lo raw) (IsBytes-drop lo raw b)))

new_key-r :
    (raw : List ℕ) → length raw ≡ 32 → IsBytes raw → (new_key raw).r ≡ limbs_of (clamped_r raw)
unfolding new_key
new_key-r raw n b = ap limbs_of (clamp_lem raw n b)

new_key-s :
    (raw : List ℕ)
    → (new_key raw).s ≡ record {
      w0 = from_le (take 4 (drop 16 raw));
      w1 = from_le (take 4 (drop 20 raw));
      w2 = from_le (take 4 (drop 24 raw));
      w3 = from_le (take 4 (drop 28 raw));
    }
unfolding new_key
new_key-s raw = refl

-- Four words at a time.
drop_four :
    (raw : List ℕ) (n m : ℕ)
    → n + 4 ≡ m
    → m ≤ length raw
    → from_le (drop n raw) ≡ from_le (take 4 (drop n raw)) + 2 ^ 32 * from_le (drop m raw)
drop_four raw n m e h =
    from_le_parts 4 (drop n raw) (omega (arith, length-drop n raw))
    ∙ ap (λ t. from_le (take 4 (drop n raw)) + 2 ^ 32 * from_le t)
        (drop-drop 4 n raw ∙ ap (λ k. drop k raw) e)

drop_end : (raw : List ℕ) → length raw ≡ 32 → from_le (drop 32 raw) ≡ 0
drop_end raw n = ap from_le (drop_all 32 raw (omega arith))

-- The limbs of a new key stand for the clamped number, and its words for the second half.
pub new_key_lem :
    (raw : List ℕ)
    → length raw ≡ 32
    → IsBytes raw
    → IsKey (new_key raw)
      × (value (new_key raw).r ≡ clamped_r raw)
      × (s_value (new_key raw).s ≡ pad_s raw)
new_key_lem raw n b =
    let r = clamped_r-lt raw in
    rw (new_key-r raw n b, new_key-s raw)
      (
        (
          omega (arith, r),
          slice-lt raw 16 b (omega arith),
          slice-lt raw 20 b (omega arith),
          slice-lt raw 24 b (omega arith),
          slice-lt raw 28 b (omega arith),
        ),
        omega (arith, r),
        omega (
          arith,
          drop_four raw 16 20 refl (omega arith),
          drop_four raw 20 24 refl (omega arith),
          drop_four raw 24 28 refl (omega arith),
          drop_four raw 28 32 refl (omega arith),
          drop_end raw n,
        ),
      )

-- For a key of 32 bytes and any message of bytes, let r be the first half of the key as a number
-- under the mask 0x0ffffffc0ffffffc0ffffffc0fffffff, and s the second half. If the message's
-- polynomial at r is at least 5 modulo 2 ^ 130 - 5, Poly1305::mac is the tag that RFC 8439
-- describes for r and s.
pub mac-rfc_mac :
    (raw msg : List ℕ)
    → length raw ≡ 32
    → IsBytes raw
    → IsBytes msg
    → 5 ≤ residue (clamped_r raw) msg
    → mac (new_key raw) msg ≡ rfc_mac (clamped_r raw) (pad_s raw) msg
unfolding mac
mac-rfc_mac raw msg n b m large =
    let k = new_key_lem raw n b in
    let key = new_key raw in
    finalize-rfc_mac key msg (update (new key) msg) k.0 m
      (update-Absorbed key [] (new key) msg k.0.0 tt m (new-Absorbed key)) (rw k.1 large)
    ∙ ap₂ (λ r s. rfc_mac r s msg) k.1 k.2

to_le-injective : (x y : ℕ) → to_le 16 x ≡ to_le 16 y → x < 2 ^ 128 → y < 2 ^ 128 → x ≡ y
to_le-injective x y e hx hy = omega (arith, ap from_le e)

-- For a key of 26-bit limbs and 32-bit words and a context that has absorbed a message of bytes
-- under it, if the fully carried number is not below 2 ^ 130 - 5 then the tag of finalize
-- differs from the one of RFC 8439.
pub finalize-ne-rfc_mac :
    (key : Poly1305Key) (msg : List ℕ) (c : Poly1305)
    → IsKey key
    → IsBytes msg
    → Absorbed key msg c
    → p130 ≤ last_value c
    → finalize c ≢ rfc_mac (value key.r) (s_value key.s) msg
finalize-ne-rfc_mac key msg c k b a large e =
    let v = last_value_lem key msg c k.0 b a in
    let tags =
      to_le-injective (u128 (last_value c + s_value key.s))
        (u128 (residue (value key.r) msg + s_value key.s))
        (sym (finalize_lem key msg c k b a) ∙ e ∙ rfc_mac_lem (value key.r) (s_value key.s) msg)
        (omega arith) (omega arith) in
    absurd (omega (arith, v.0, v.1, tags))
