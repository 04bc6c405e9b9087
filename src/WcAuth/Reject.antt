-- ===== src/WcAuth/Reject.antt =====
-- wc_auth/src/lib.rs: what open accepts, and a record that comes twice.
use project_qlinux.Prelude.{
  ℕ, ◌+◌, ◌^◌, ◌<◌, ◌≡◌, refl, sym, ap, ◌∙◌, subst, Bool, true, false, not, Bool-cases, inl, inr,
  List, arith, ltb, ◌==◌, ==_iff, length, Result, ok, err, ◌>>=◌,
}
use project_qlinux.Uhf.CtEq.{ct_eq_16}
use project_qlinux.WcAuth.{
  Mar, WcAuthError, WcAuthSession, from_bytes, max_msg_len, is_sender, tag_for, bytes_to_words,
  settle, unlock, open_mar, word_count_mismatch,
}

-- What an accepted record has been checked for.
pub record Accepted (s : WcAuthSession) (mar : Mar) (p : List ℕ) (wc : ℕ) : Type 0 where
  pub in_step : mar.word_count ≡ s.word_count
  pub not_empty : 0 < length mar.payload
  pub same_tag : ct_eq_16 (tag_for s mar.word_count mar.payload) mar.tag ≡ true
  pub whole : p ≡ mar.payload
  pub counted : wc ≡ s.word_count + bytes_to_words (length mar.payload)

not-false : (b : Bool) → not b ≡ false → b ≡ true
not-false true e = refl
not-false false e = absurd (ground arith)

pair_injective :
    (a b : List ℕ) (m n : ℕ)
    → Path (Result WcAuthError (List ℕ × ℕ)) (ok (a, m)) (ok (b, n))
    → (a ≡ b) × (m ≡ n)
pair_injective a b m n e = (cc, cc)

unlock-Accepted :
    (s : WcAuthSession) (mar : Mar) (p : List ℕ) (wc : ℕ)
    → unlock s mar ≡ ok (p, wc)
    → Accepted s mar p wc
unfolding unlock
unlock-Accepted s mar p wc e =
    let tag = tag_for s mar.word_count mar.payload in
    let n = bytes_to_words (length mar.payload) in
    elim (Bool-cases (not (mar.word_count == s.word_count))) [
      | inl a ↦ absurd (ground (arith, rw a at e))
      | inr a ↦ elim (Bool-cases (length mar.payload == 0)) [
        | inl b ↦ absurd (ground (arith, rw (a, b) at e))
        | inr b ↦ elim (Bool-cases (ltb max_msg_len (length mar.payload))) [
          | inl c ↦ absurd (ground (arith, rw (a, b, c) at e))
          | inr c ↦ elim (Bool-cases (not (ct_eq_16 tag mar.tag))) [
            | inl d ↦ absurd (ground (arith, rw (a, b, c, d) at e))
            | inr d ↦ elim (Bool-cases (ltb (s.word_count + n) (2 ^ 64))) [
              | inl f ↦
                  let both =
                    pair_injective mar.payload p (s.word_count + n) wc (rw (a, b, c, d, f) at e) in
                  record {
                    in_step =
                        (==_iff mar.word_count s.word_count).0
                          (not-false (mar.word_count == s.word_count) a);
                    not_empty = ground (arith, b);
                    same_tag = not-false (ct_eq_16 tag mar.tag) d;
                    whole = sym both.0;
                    counted = sym both.1;
                  }
              | inr f ↦ absurd (ground (arith, rw (a, b, c, d, f) at e))
            ]
          ]
        ]
      ]
    ]

-- What an accepted input was: a record, checked, and the session moved on by its words.
pub record Opened (s s' : WcAuthSession) (raw p : List ℕ) : Type 0 where
  pub receives : is_sender s.role ≡ false
  pub mar : Mar
  pub read : from_bytes raw ≡ ok mar
  pub wc : ℕ
  pub accepted : Accepted s mar p wc
  pub after : s' ≡ record s { word_count = wc }

module _ (s s' : WcAuthSession) (raw p : List ℕ) where
  same_outcome :
      (q : List ℕ) (t : WcAuthSession)
      → Path (Result WcAuthError (List ℕ) × WcAuthSession) (ok q, t) (ok p, s')
      → (q ≡ p) × (t ≡ s')
  same_outcome q t e = (cc, cc)

  after_unlock :
      (mar : Mar) (r : Result WcAuthError (List ℕ × ℕ))
      → is_sender s.role ≡ false
      → from_bytes raw ≡ ok mar
      → unlock s mar ≡ r
      → settle s r ≡ (ok p, s')
      → Opened s s' raw p
  after_unlock mar (err e) recv rd u h = absurd (ground (arith, h))
  after_unlock mar (ok (q, wc)) recv rd u h =
      let both = same_outcome q (record s { word_count = wc }) h in
      record {
        receives = recv;
        mar = mar;
        read = rd;
        wc = wc;
        accepted = unlock-Accepted s mar p wc (u ∙ ap (λ t. ok (t, wc)) both.0);
        after = sym both.1;
      }

  after_read :
      (r : Result WcAuthError Mar)
      → is_sender s.role ≡ false
      → from_bytes raw ≡ r
      → settle s (r >>= unlock s) ≡ (ok p, s')
      → Opened s s' raw p
  after_read (err e) recv rd h = absurd (ground (arith, h))
  after_read (ok mar) recv rd h = after_unlock mar (unlock s mar) recv rd refl h

  -- If open accepts an input, the session receives, the input is read as a record with the
  -- session's word count whose tag passes the comparison with the tag of its payload under the
  -- session's key, the answer is that payload, and the word count goes up by the payload's
  -- words.
  pub open_mar-Opened : open_mar s raw ≡ (ok p, s') → Opened s s' raw p
  unfolding open_mar
  open_mar-Opened h = elim (Bool-cases (is_sender s.role)) [
    | inl a ↦ absurd (ground (arith, rw a at h))
    | inr a ↦ after_read (from_bytes raw) a refl (rw a at h)
  ]

  -- An input that open has accepted is refused with WordCountMismatch when it comes again to the
  -- session that was left, and the session stays as it is.
  pub open_mar-replay :
      open_mar s raw ≡ (ok p, s') → open_mar s' raw ≡ (err word_count_mismatch, s')
  unfolding open_mar unlock bytes_to_words
  open_mar-replay h =
      let o = open_mar-Opened h in
      let later : (o.mar.word_count == o.wc) ≡ false =
        ground (arith, o.accepted.in_step, o.accepted.counted, o.accepted.not_empty) in
      let again : open_mar (record s { word_count = o.wc }) raw
          ≡ (err word_count_mismatch, record s { word_count = o.wc }) =
        simp (o.receives, o.read, later) in
      subst (λ t. open_mar t raw ≡ (err word_count_mismatch, t)) (sym o.after) again
