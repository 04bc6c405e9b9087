-- ===== src/Net/Stack/Drop.antt =====
-- The records that the stack drops.
use project_qlinux.Prelude.{
  ℕ, Bool, not, ◌&&◌, Bool-cases, ◌≡◌, refl, ◌⊎◌, inl, inr, Option, none, some, List, position,
  replicate, Result, ok, err,
}
use project_qlinux.Qkey.{rx}
use project_qlinux.Net.Error.{NetError}
use project_qlinux.Net.Ipv4.{Ipv4Addr}
use project_qlinux.Net.Qtls.{RecordHeader, open_record, max_record_payload}
use project_qlinux.Net.Qtls
use project_qlinux.Net.Device.{NetDevice}
use project_qlinux.Net.Stack.{NetStack, peer, peer_index}
use project_qlinux.Net.Stack.Socket.{is_port}
use project_qlinux.Net.Stack.Handle.{is_hello, is_none, belongs, on_header, handle_qtls}

module _ {D : Type 0} (dv : NetDevice D) where
  on_header_unopened :
      (st : NetStack D) (pi : ℕ) (src : Ipv4Addr) (sp dp : ℕ) (rec : List ℕ) (x : NetError)
      (r : Result NetError RecordHeader)
      → open_record (rx (peer st pi).keys) rec (replicate max_record_payload 0) ≡ err x
      → on_header dv st pi src sp dp rec r ≡ st
  on_header_unopened st pi src sp dp rec x (err y) e = refl
  on_header_unopened st pi src sp dp rec x (ok hdr) e =
      let o : Option ℕ = position (belongs src sp dp hdr.session_id) st.sessions in
      let fresh : Bool =
        is_hello hdr.ctype && is_none o && not (is_none (position (is_port dp) st.ports)) in
      elim (Bool-cases (is_none o && not fresh)) [ inl c ↦ rw c refl | inr c ↦ rw (c, e) refl ]

  -- A record from an address that is no registered peer, or one that open refuses under the
  -- receive lane of its peer, leaves the whole stack as it was.
  pub handle_qtls_dropped :
      (st : NetStack D) (src : Ipv4Addr) (sp dp : ℕ) (rec : List ℕ)
      → (peer_index st src ≡ none)
        ⊎ ((pi : ℕ) × (x : NetError) × (peer_index st src ≡ some pi)
            × (open_record (rx (peer st pi).keys) rec (replicate max_record_payload 0) ≡ err x))
      → handle_qtls dv st src sp dp rec ≡ st
  unfolding handle_qtls
  handle_qtls_dropped st src sp dp rec (inl e) = rw e refl
  handle_qtls_dropped st src sp dp rec (inr h) =
      rw h.2 (on_header_unopened st h.0 src sp dp rec h.1 (Qtls.parse rec) h.3)
