-- ===== src/QTor/Onion.antt =====
-- qtor/src/lib.rs: a message wrapped for the hops of a circuit, and peeled by them one after another.
use project_qlinux.Prelude.{
  ℕ, ◌+◌, ◌*◌, ◌^◌, ◌≤◌, ◌<◌, ◌≡◌, refl, sym, ap, ◌∙◌, List, [], ◌∷◌, ◌++◌, arith, ◌==◌, true,
  length, length-append, append-nil, append_assoc, Result, ok, ◌>>=◌,
}
use project_qlinux.Prelude.Words.{u32, to_le}
use project_qlinux.WcAuth.{
  WcAuthSession, sender, receiver, open_mar, to_bytes, bytes_to_words, tag_for, max_msg_len,
  mar_header_len,
}
use project_qlinux.WcAuth.RoundTrip.{Sendable, open_mar-seal, advance, mar_of, mar_of-IsMar}
use project_qlinux.QTor.{
  HopContext, Circuit, QTorError, circuit_hops, seal_hops, onion_encrypt, onion_peel,
}

-- Each hop with the session at its node: the same key and word count, and words left for a message.
unfoldable pub Matched : List HopContext → List WcAuthSession → Type 0
Matched [] [] = Unit
Matched [] (r ∷ rs) = ⊥
Matched (h ∷ hs) [] = ⊥
Matched (h ∷ hs) (r ∷ rs) =
    (h.session.role ≡ sender)
    × (r.role ≡ receiver)
    × (r.master_key ≡ h.session.master_key)
    × (r.word_count ≡ h.session.word_count)
    × (h.session.word_count + 8192 < 2 ^ 64)
    × Matched hs rs

-- The nodes peel in the order of the hops.
pub peel_all : List WcAuthSession → List ℕ → Result QTorError (List ℕ)
peel_all [] bytes = ok bytes
peel_all (r ∷ rs) bytes = (onion_peel r bytes).0 >>= peel_all rs

-- What wrapping comes to: the headers of the hops before the message itself.
pub record Wrapped (hs : List HopContext) (rs : List WcAuthSession) (p : List ℕ) : Type 0 where
  pub bytes : List ℕ
  pub after : List HopContext
  pub sealed : seal_hops hs p ≡ (ok bytes, after)
  pub headers : List ℕ
  pub visible : bytes ≡ headers ++ p
  pub size : length headers ≡ mar_header_len * length hs
  pub peeled : peel_all rs bytes ≡ ok p

layer_Sendable :
    (s : WcAuthSession) (p : List ℕ)
    → 0 < length p
    → length p ≤ max_msg_len
    → s.word_count + 8192 < 2 ^ 64
    → Sendable s p
unfolding bytes_to_words
layer_Sendable s p pos fits room = record {
  not_empty = pos;
  not_long = fits;
  room = omega (arith, fits, room);
}

-- What `seal` puts before the message.
header : WcAuthSession → List ℕ → List ℕ
header s p = to_le 8 s.word_count ++ (to_le 4 (u32 (length p)) ++ tag_for s s.word_count p)

bytes_header : (s : WcAuthSession) (p : List ℕ) → to_bytes (mar_of s p) ≡ header s p ++ p
unfolding header
bytes_header s p = refl

length-header :
    (s : WcAuthSession) (p : List ℕ) → Sendable s p → length (header s p) ≡ mar_header_len
unfolding header
length-header s p v = omega (arith, (mar_of-IsMar s p v).tagged)

wrap_hops :
    (hs : List HopContext) (rs : List WcAuthSession) (p : List ℕ)
    → Matched hs rs
    → 0 < length p
    → length p + mar_header_len * length hs ≤ max_msg_len + mar_header_len
    → Wrapped hs rs p
unfolding Matched seal_hops peel_all onion_peel
wrap_hops [] [] p m pos fits = record {
  bytes = p;
  after = [];
  sealed = refl;
  headers = [];
  visible = refl;
  size = refl;
  peeled = refl;
}
wrap_hops [] (r ∷ rs) p m pos fits = absurd m
wrap_hops (h ∷ hs) [] p m pos fits = absurd m
wrap_hops (h ∷ hs) (r ∷ rs) p (is_s, is_r, key, count, room, m) pos fits =
    let w = wrap_hops hs rs p m pos (omega arith) in
    let long : length w.bytes ≡ length p + mar_header_len * length hs =
      omega (arith, ap length w.visible, length-append w.headers p, w.size) in
    let v = layer_Sendable h.session w.bytes (omega (arith, long)) (omega (arith, long)) room in
    let both = open_mar-seal h.session r w.bytes [] is_s is_r key count v in
    let opened : open_mar r (to_bytes (mar_of h.session w.bytes))
        ≡ (ok w.bytes, advance r (bytes_to_words (length w.bytes))) =
      ap (open_mar r) (sym (append-nil (to_bytes (mar_of h.session w.bytes)))) ∙ both.1 in
    record {
      bytes = to_bytes (mar_of h.session w.bytes);
      after = record h { session = advance h.session (bytes_to_words (length w.bytes)) } ∷ w.after;
      sealed = simp (w.sealed, both.0);
      headers = header h.session w.bytes ++ w.headers;
      visible =
          bytes_header h.session w.bytes
          ∙ ap (λ t. header h.session w.bytes ++ t) w.visible
          ∙ sym (append_assoc (header h.session w.bytes) w.headers p);
      size = omega (
        arith,
        length-append (header h.session w.bytes) w.headers,
        length-header h.session w.bytes v,
        w.size,
      );
      peeled = simp (opened, w.peeled);
    }

-- For a circuit of three hops, each with the key and the word count of the session at its node
-- and with words left, and a message of 1 to 65480 bytes, onion_encrypt answers 84 bytes of
-- headers with the message itself behind them, and the three nodes, peeling in the order of the
-- hops, come to the message.
pub onion_encrypt-peel :
    (c : Circuit) (rs : List WcAuthSession) (p : List ℕ)
    → length c.hops ≡ circuit_hops
    → Matched c.hops rs
    → 0 < length p
    → length p + 56 ≤ max_msg_len
    → (headers : List ℕ) × (c' : Circuit) × (length headers ≡ 84)
      × (onion_encrypt c p ≡ (ok (headers ++ p), c'))
      × (peel_all rs (headers ++ p) ≡ ok p)
unfolding onion_encrypt
onion_encrypt-peel c rs p three m pos fits =
    let w = wrap_hops c.hops rs p m pos (omega (arith, three, fits)) in
    let hops : (length c.hops == circuit_hops) ≡ true = ground (arith, three) in
    (
      w.headers,
      record c { hops = w.after },
      omega (arith, w.size, three),
      simp (hops, w.sealed, w.visible),
      ap (peel_all rs) (sym w.visible) ∙ w.peeled,
    )
