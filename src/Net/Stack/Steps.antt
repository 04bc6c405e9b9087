-- ===== src/Net/Stack/Steps.antt =====
-- What a record from the wire may do to a session.
use project_qlinux.Prelude.{position-passes}
use project_qlinux.Prelude.{
  ℕ, ◌+◌, ◌<◌, ◌≡◌, ◌≢◌, refl, sym, ◌∙◌, Bool, true, false, not, ◌&&◌, Bool-cases, inl, inr, Option,
  none, some, List, [], arith, length, position, take, ltb, Result, ok, err, get_or-set_self,
  get_or-set_ne,
}
use native.Mathlib.Decide.{ℕ_discrete}
use project_qlinux.Qkey.{KeyLane, set_rx}
use project_qlinux.Net.Error.{NetError}
use project_qlinux.Net.Eth.{MacAddr, max_frame}
use project_qlinux.Net.Ipv4.{Ipv4Addr}
use project_qlinux.Net.Arp
use project_qlinux.Net.Qtls.{
  ContentType, hello, hello_ack, app_data, close, RecordHeader, open_record, max_record_payload,
}
use project_qlinux.Net.Qtls
use project_qlinux.Net.Device.{NetDevice}
use project_qlinux.Net.Stack.{
  NetStack, SessionState, free, hello_sent, established, closed, state_eq, Session, session, peer,
  set_session, set_keys, empty_session, push, peer_index,
}
use project_qlinux.Net.Stack.Send.{
  transmit, send_arp, asked, resolve_found, resolve, send_udp, send_on, send_resolved, send_record,
  l7,
}
use project_qlinux.Net.Stack.Socket.{is_free, is_port}
use project_qlinux.Net.Stack.Handle.{
  is_hello, on_source, belongs, on_record, open_session, dispatch, on_opened, on_header,
  handle_qtls, is_none,
}

module _ {D : Type 0} (dv : NetDevice D) where
  asked-sessions :
      (r : NetStack D × Result NetError (Unit {0})) → (asked dv r).0.sessions ≡ r.0.sessions
  asked-sessions (st, ok u) = refl
  asked-sessions (st, err e) = refl

  resolve_found-sessions :
      (st : NetStack D) (ip : Ipv4Addr) (o : Option MacAddr)
      → (resolve_found dv st ip o).0.sessions ≡ st.sessions
  unfolding send_arp transmit
  resolve_found-sessions st ip (some m) = refl
  resolve_found-sessions st ip none = asked-sessions _

  send_udp-sessions :
      (st : NetStack D) (m : MacAddr) (dst : Ipv4Addr) (sp dp : ℕ) (b : List ℕ)
      → (send_udp dv st m dst sp dp b).0.sessions ≡ st.sessions
  unfolding send_udp transmit
  send_udp-sessions st m dst sp dp b = elim (Bool-cases (ltb max_frame (l7 + length b))) [
    | inl e ↦ rw e refl
    | inr e ↦ rw e refl
  ]

  send_on-sessions :
      (st : NetStack D) (pi si : ℕ) (m : MacAddr) (r : Result NetError (ℕ × List ℕ × KeyLane))
      → (send_on dv st pi si m r).0.sessions ≡ st.sessions
  send_on-sessions st pi si m (err e) = refl
  send_on-sessions st pi si m (ok t) = send_udp-sessions _ m _ _ _ _

  send_resolved-sessions :
      (pi si : ℕ) (t : ContentType) (b : List ℕ) (r : NetStack D × Result NetError MacAddr)
      → (send_resolved dv pi si t b r).0.sessions ≡ r.0.sessions
  send_resolved-sessions pi si t b (st, err e) = refl
  send_resolved-sessions pi si t b (st, ok m) = send_on-sessions st pi si m _

  pub resolve-sessions :
      (st : NetStack D) (ip : Ipv4Addr) → (resolve dv st ip).0.sessions ≡ st.sessions
  unfolding resolve
  resolve-sessions st ip = resolve_found-sessions st ip (Arp.lookup st.arp ip)

  -- Sending changes no session, whether it succeeds or not.
  pub send_record-sessions :
      (st : NetStack D) (pi si : ℕ) (t : ContentType) (b : List ℕ)
      → (send_record dv st pi si t b).0.sessions ≡ st.sessions
  unfolding send_record
  send_record-sessions st pi si t b =
      send_resolved-sessions pi si t b (resolve dv st (session st si).peer_ip)
      ∙ resolve-sessions st _

-- What may become of a session: the client's is confirmed by an acknowledgement, the server's is
-- opened in a free slot and not handed out yet, data go into the queue of an established one, and
-- one that is not free can be closed.
pub data Step : Session → Session → Type 0 where
  stays : (s : Session) → Step s s
  confirmed : (s : Session) → s.state ≡ hello_sent → Step s (record s { state = established })
  received :
      (s : Session) (pt : List ℕ)
      → s.state ≡ established
      → Step s (record s { rx = (push s.rx pt).0 })
  ended : (s : Session) → s.state ≢ free → Step s (record s { state = closed })
  opened : (s t : Session) → s.state ≡ free → t.state ≡ established → t.accepted ≡ false → Step s t

state_eq_sound : (a b : SessionState) → state_eq a b ≡ true → a ≡ b
state_eq_sound free free e = refl
state_eq_sound hello_sent hello_sent e = refl
state_eq_sound established established e = refl
state_eq_sound closed closed e = refl
state_eq_sound _ _ e = absurd (ground arith)

module _ {D : Type 0} (dv : NetDevice D) where
  -- One session is replaced by a later one of it.
  at_index :
      (st : NetStack D) (i j : ℕ) (t : Session)
      → Step (session st i) t
      → i < length st.sessions
      → Step (session st j) (session (set_session st i t) j)
  at_index st i j t s h = elim (ℕ_discrete i j) [
    | yes e ↦ rw (sym e) (rw (get_or-set_self st.sessions i t empty_session h) s)
    | no n ↦ rw (get_or-set_ne st.sessions i j t empty_session n) (stays (session st j))
  ]

  on_record-Step :
      (c : ContentType) (pt : List ℕ) (s : Session) → s.state ≢ free → Step s (on_record c pt s)
  on_record-Step hello pt s h = stays s
  on_record-Step hello_ack pt s h = elim (Bool-cases (state_eq s.state hello_sent)) [
    | inl e ↦ rw e (confirmed s (state_eq_sound s.state hello_sent e))
    | inr e ↦ rw e (stays s)
  ]
  on_record-Step app_data pt s h = elim (Bool-cases (state_eq s.state established)) [
    | inl e ↦ rw e (received s pt (state_eq_sound s.state established e))
    | inr e ↦ rw e (stays s)
  ]
  on_record-Step close pt s h = ended s h

  belongs-taken :
      (src : Ipv4Addr) (sp dp id : ℕ) (s : Session) → belongs src sp dp id s ≡ true → s.state ≢ free
  belongs-taken src sp dp id s e f = absurd (ground arith)

  open_session-Step :
      (st : NetStack D) (pi : ℕ) (t : Session) (o : Option ℕ) (j : ℕ)
      → position is_free st.sessions ≡ o
      → t.state ≡ established
      → t.accepted ≡ false
      → Step (session st j) (session (open_session dv st pi t o) j)
  open_session-Step st pi t none j e es ac = stays (session st j)
  open_session-Step st pi t (some si) j e es ac =
      let p = position-passes is_free empty_session st.sessions si e in
      rw (send_record-sessions dv (set_session st si t) pi si hello_ack [])
        (at_index st si j t (opened (session st si) t (state_eq_sound _ free p.0) es ac) p.1)

  dispatch-Step :
      (st : NetStack D) (pi : ℕ) (src : Ipv4Addr) (sp dp id : ℕ) (hdr : RecordHeader) (pt : List ℕ)
      (o : Option ℕ) (j : ℕ)
      → position (belongs src sp dp id) st.sessions ≡ o
      → Step (session st j) (session (dispatch dv st pi src sp dp hdr pt o) j)
  dispatch-Step st pi src sp dp id hdr pt (some si) j e =
      let p = position-passes (belongs src sp dp id) empty_session st.sessions si e in
      at_index st si j (on_record hdr.ctype pt (session st si))
        (on_record-Step hdr.ctype pt (session st si)
          (belongs-taken src sp dp id (session st si) p.0))
        p.1
  dispatch-Step st pi src sp dp id hdr pt none j e = elim (Bool-cases (is_hello hdr.ctype)) [
    | inl h ↦ rw h (open_session-Step st pi _ (position is_free st.sessions) j refl refl refl)
    | inr h ↦ rw h (stays (session st j))
  ]

  on_opened-Step :
      (st : NetStack D) (pi : ℕ) (src : Ipv4Addr) (sp dp id : ℕ) (o : Option ℕ)
      (r : Result NetError (RecordHeader × ℕ × List ℕ × KeyLane)) (j : ℕ)
      → position (belongs src sp dp id) st.sessions ≡ o
      → Step (session st j) (session (on_opened dv st pi src sp dp o r) j)
  on_opened-Step st pi src sp dp id o (err x) j e = stays (session st j)
  on_opened-Step st pi src sp dp id o (ok (hdr, len, pt, lane)) j e =
      dispatch-Step (set_keys st pi (set_rx (peer st pi).keys lane)) pi src sp dp id hdr
        (take len pt) o j e

  on_header-Step :
      (st : NetStack D) (pi : ℕ) (src : Ipv4Addr) (sp dp : ℕ) (rec : List ℕ)
      (r : Result NetError RecordHeader) (j : ℕ)
      → Step (session st j) (session (on_header dv st pi src sp dp rec r) j)
  on_header-Step st pi src sp dp rec (err x) j = stays (session st j)
  on_header-Step st pi src sp dp rec (ok hdr) j =
      let o : Option ℕ = position (belongs src sp dp hdr.session_id) st.sessions in
      let fresh : Bool =
        is_hello hdr.ctype && is_none o && not (is_none (position (is_port dp) st.ports)) in
      elim (Bool-cases (is_none o && not fresh)) [
        | inl e ↦ rw e (stays (session st j))
        | inr e ↦ rw e (on_opened-Step st pi src sp dp hdr.session_id o _ j refl)
      ]

  on_source-Step :
      (st : NetStack D) (src : Ipv4Addr) (sp dp : ℕ) (rec : List ℕ) (o : Option ℕ) (j : ℕ)
      → Step (session st j) (session (on_source dv st src sp dp rec o) j)
  on_source-Step st src sp dp rec none j = stays (session st j)
  on_source-Step st src sp dp rec (some pi) j =
      on_header-Step st pi src sp dp rec (Qtls.parse rec) j

  -- For any device, stack, source, ports and record, each session either stays, or is confirmed
  -- from HelloSent to Established, or gets a message pushed while Established, or is Closed when
  -- it was not Free, or is opened from Free as Established and not yet accepted.
  pub handle_qtls-Step :
      (st : NetStack D) (src : Ipv4Addr) (sp dp : ℕ) (rec : List ℕ) (j : ℕ)
      → Step (session st j) (session (handle_qtls dv st src sp dp rec) j)
  unfolding handle_qtls
  handle_qtls-Step st src sp dp rec j = on_source-Step st src sp dp rec (peer_index st src) j
