-- ===== src/Syscall/Effects.antt =====
-- kernel/syscall/src/lib.rs: what a system call does apart from the network stack, step by step:
-- what it may write through a user pointer, and when it answers EFAULT.
use project_qlinux.Prelude.{
  ℕ, ◌+◌, ◌-◌, ◌^◌, ◌≤◌, ◌<◌, ◌≡◌, refl, Bool, true, false, inl, inr, ◌⊎◌, Bool-cases, Option, none,
  some, List, arith, ltb, leb, ◌&&◌, ◌||◌, ◌==◌, if◌then◌else◌, Result, ok, err,
}
use project_qlinux.Prelude.Int.{ℤ, pos, negsuc}
use project_qlinux.Net.Error.{
  NetError, arp_pending, no_peer, no_session, not_established, would_block, auth_failed, malformed,
  payload_too_large, device_full, table_full, key_error,
}
use project_qlinux.Net.Device.{NetDevice}
use project_qlinux.Net.Stack.{NetStack}
use project_qlinux.Syscall.{
  Kernel, returns, Answer, answer, after, answer_unit, answer_num, accepted, received, available,
  polled, net_errno, einval, efault, write_mem, port_arg,
}

abbrev is_efault : ℤ → Bool
is_efault (pos n) = false
is_efault (negsuc n) = n == 13

net_errno_other : (e : NetError) → is_efault (net_errno e) ≡ false
net_errno_other arp_pending = refl
net_errno_other no_peer = refl
net_errno_other no_session = refl
net_errno_other not_established = refl
net_errno_other would_block = refl
net_errno_other auth_failed = refl
net_errno_other malformed = refl
net_errno_other payload_too_large = refl
net_errno_other device_full = refl
net_errno_other table_full = refl
net_errno_other (key_error e) = refl

not_efault : (v : ℤ) → is_efault v ≡ false → returns v ≡ returns efault → ⊥
not_efault (pos n) h e = ground (arith, e)
not_efault (negsuc n) h e = ground (arith, h, e)

-- What a call does to `k` apart from the network stack: the bounds of the image stay, a byte of
-- memory stays unless `W` holds of its address, and EFAULT is answered only if `F` holds.
pub record Effect {D : Type 0} (W : ℕ → Type 0) (F : Type 0) (k : Kernel D) (x : Answer D)
    : Type 0 where
  pub same_lo : x.1.lo ≡ k.lo
  pub same_hi : x.1.hi ≡ k.hi
  pub writes : (a : ℕ) → (x.1.mem a ≡ k.mem a) ⊎ W a
  pub faults : x.0 ≡ returns efault → F

module _ {D : Type 0} {W : ℕ → Type 0} {F : Type 0} where
  pub net_Effect :
      (k : Kernel D) (st : NetStack D) (v : ℤ)
      → is_efault v ≡ false
      → Effect W F k (answer (record k { net = st }) v)
  net_Effect k st v h = record {
    same_lo = refl;
    same_hi = refl;
    writes = λ a. inl refl;
    faults = λ e. absurd (not_efault v h e);
  }

  pub value_Effect : (k : Kernel D) (v : ℤ) → is_efault v ≡ false → Effect W F k (answer k v)
  value_Effect k v h = net_Effect k k.net v h

  pub if_Effect :
      (k : Kernel D) (b : Bool) (x y : Answer D)
      → Effect W F k x
      → (b ≡ false → Effect W F k y)
      → Effect W F k (if b then x else y)
  if_Effect k true x y s t = s
  if_Effect k false x y s t = t refl

  pub unit_Effect :
      (k : Kernel D) (x : NetStack D × Result NetError (Unit {0})) → Effect W F k (answer_unit k x)
  unit_Effect k (st, ok u) = net_Effect k st (pos 0) refl
  unit_Effect k (st, err e) = net_Effect k st _ (net_errno_other e)

  pub num_Effect :
      (k : Kernel D) (x : NetStack D × Result NetError ℕ) → Effect W F k (answer_num k x)
  num_Effect k (st, ok n) = net_Effect k st (pos n) refl
  num_Effect k (st, err e) = net_Effect k st _ (net_errno_other e)

  pub accepted_Effect : (k : Kernel D) (o : Option (ℕ × NetStack D)) → Effect W F k (accepted k o)
  accepted_Effect k none = value_Effect k _ refl
  accepted_Effect k (some (h, st)) = net_Effect k st (pos h) refl

  pub available-Effect : (k : Kernel D) (o : Option (ℕ × ℕ)) → Effect W F k (available k o)
  available-Effect k none = value_Effect k _ refl
  available-Effect k (some (tx, rx)) = value_Effect k (pos tx) refl

  -- A bad port is EINVAL.
  pub port-Effect :
      (k : Kernel D) (p : ℕ) (next : ℕ → Answer D)
      → ((port : ℕ) → Effect W F k (next port))
      → Effect W F k (after k (port_arg p) next)
  unfolding port_arg
  port-Effect k p next s = elim (Bool-cases (p == 0 || ltb (2 ^ 16 - 1) p)) [
    | inl bad ↦ rw bad (value_Effect k einval refl)
    | inr good ↦ rw good (s p)
  ]

  pub polled-Effect :
      (dv : NetDevice D) (fuel : ℕ) (k : Kernel D) (o : Option (ℕ × NetStack D))
      (next : Kernel D → Answer D)
      → ((st : NetStack D) → Effect W F (record k { net = st }) (next (record k { net = st })))
      → Effect W F k (polled dv fuel k o next)
  polled-Effect dv fuel k none next s = record {
    same_lo = refl;
    same_hi = refl;
    writes = λ a. inl refl;
    faults = λ e. ground (arith, e);
  }
  polled-Effect dv fuel k (some (n, st)) next s =
      let t = s st in
      record { same_lo = t.same_lo; same_hi = t.same_hi; writes = t.writes; faults = t.faults }

  -- The bytes that `recv` puts into the buffer are the only ones written.
  pub received-Effect :
      (k : Kernel D) (ptr len : ℕ) (x : NetStack D × List ℕ × Result NetError ℕ)
      → ((a : ℕ) → ptr ≤ a → a < ptr + len → W a)
      → Effect W F k (received k ptr len x)
  received-Effect k ptr len (st, out, r) w =
      let s = num_Effect (record k { mem = write_mem k.mem ptr len out }) (st, r) in
      record {
        same_lo = s.same_lo;
        same_hi = s.same_hi;
        writes = λ a. written a (s.writes a);
        faults = s.faults;
      }
    where
      in_buffer : (a : ℕ) → (write_mem k.mem ptr len out a ≡ k.mem a) ⊎ W a
      in_buffer a = elim (Bool-cases (leb ptr a && ltb a (ptr + len))) [
        | inl inside ↦ inr (w a (ground (arith, inside)) (ground (arith, inside)))
        | inr outside ↦ inl (rw outside refl)
      ]

      written : {v : ℕ} (a : ℕ) → (v ≡ write_mem k.mem ptr len out a) ⊎ W a → (v ≡ k.mem a) ⊎ W a
      written a (inr there) = inr there
      written a (inl same) = rw same (in_buffer a)
