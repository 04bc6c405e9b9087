-- ===== src/Syscall/Isolation.antt =====
-- kernel/syscall/src/lib.rs: which memory a system call writes, and when it answers EFAULT.
use project_qlinux.Prelude.{
  ℕ, ◌+◌, ◌≤◌, ◌<◌, ◌≡◌, ◌↔◌, ◌⊎◌, refl, ap, subst, inl, inr, Bool-cases, Option, none, some, arith,
  ltb, get_elem?, err,
}
use project_qlinux.Net.Device.{NetDevice}
use project_qlinux.Syscall.{
  Kernel, returns, answer, run, run_found, syscall_dispatch, calls, max_syscall, Call, number,
  efault, enosys, validate_user_ptr, sys_read, sys_write, sys_open, sys_close, sys_exit, sys_getpid,
  sys_sleep, sys_yield, sys_ipc_send, sys_ipc_recv, sys_mem_alloc, sys_mem_free, sys_qtls_listen,
  sys_qtls_connect, sys_qtls_accept, sys_qtls_send, sys_qtls_recv, sys_qtls_close, sys_qkey_avail,
}
use project_qlinux.Syscall.Pointers.{IsUserRange, validate_user_ptr_cases}
use project_qlinux.Syscall.Numbers.{pointer, BadPointer, pointer-none, call_number, call_at}
use project_qlinux.Syscall.Effects.{value_Effect}
use project_qlinux.Syscall.Arms.{Holds, run_Effect}

module _ {D : Type 0} (dv : NetDevice D) (fuel : ℕ) (k : Kernel D) (a0 a1 a2 : ℕ) where
  found_Effect :
      (nr : ℕ) (o : Option Call)
      → get_elem? calls nr ≡ o
      → Holds dv fuel k a0 a1 a2 nr (run_found dv fuel o k a0 a1 a2)
  found_Effect nr none e = value_Effect k enosys refl
  found_Effect nr (some c) e =
      subst (λ m. Holds dv fuel k a0 a1 a2 m (run dv fuel c k a0 a1 a2)) (call_number nr c e)
        (run_Effect dv fuel k a0 a1 a2 c)

  dispatch_Effect : (nr : ℕ) → Holds dv fuel k a0 a1 a2 nr (syscall_dispatch dv fuel k nr a0 a1 a2)
  unfolding syscall_dispatch
  dispatch_Effect nr = elim (Bool-cases (ltb max_syscall nr)) [
    | inl over ↦ rw over (value_Effect k enosys refl)
    | inr under ↦ rw under (found_Effect nr (get_elem? calls nr) refl)
  ]

  -- For any device, fuel, kernel state, call number and arguments, and any address: a system
  -- call moves neither bound of the kernel image, and the byte at the address as user pointers
  -- read and write it stays, or the call is number 16, sys_qtls_recv, and the address lies in
  -- the buffer that its arguments name, which is a range of user memory apart from the image.
  pub syscall_dispatch-writes :
      (nr a : ℕ)
      → ((syscall_dispatch dv fuel k nr a0 a1 a2).1.lo ≡ k.lo)
        × ((syscall_dispatch dv fuel k nr a0 a1 a2).1.hi ≡ k.hi)
        × (((syscall_dispatch dv fuel k nr a0 a1 a2).1.mem a ≡ k.mem a)
            ⊎ (nr ≡ 16) × (a1 ≤ a) × (a < a1 + a2) × IsUserRange k a1 a2)
  syscall_dispatch-writes nr a = let s = dispatch_Effect nr in (s.same_lo, s.same_hi, s.writes a)

  -- A pointer that is refused ends the call, whichever it is.
  run-efault :
      (c : Call) (ptr size : ℕ)
      → pointer (number c) a0 a1 a2 ≡ some (ptr, size)
      → validate_user_ptr k ptr size ≡ err efault
      → run dv fuel c k a0 a1 a2 ≡ answer k efault
  unfolding run pointer
  run-efault sys_read ptr size p bad = ground (arith, p, bad)
  run-efault sys_write ptr size p bad = ground (arith, p, bad)
  run-efault sys_open ptr size p bad = ground (arith, p, bad)
  run-efault sys_close ptr size p bad = absurd (ground (arith, p))
  run-efault sys_exit ptr size p bad = absurd (ground (arith, p))
  run-efault sys_getpid ptr size p bad = absurd (ground (arith, p))
  run-efault sys_sleep ptr size p bad = absurd (ground (arith, p))
  run-efault sys_yield ptr size p bad = absurd (ground (arith, p))
  run-efault sys_ipc_send ptr size p bad = ground (arith, p, bad)
  run-efault sys_ipc_recv ptr size p bad = ground (arith, p, bad)
  run-efault sys_mem_alloc ptr size p bad = absurd (ground (arith, p))
  run-efault sys_mem_free ptr size p bad = absurd (ground (arith, p))
  run-efault sys_qtls_listen ptr size p bad = absurd (ground (arith, p))
  run-efault sys_qtls_connect ptr size p bad = absurd (ground (arith, p))
  run-efault sys_qtls_accept ptr size p bad = absurd (ground (arith, p))
  run-efault sys_qtls_send ptr size p bad = ground (arith, p, bad)
  run-efault sys_qtls_recv ptr size p bad = ground (arith, p, bad)
  run-efault sys_qtls_close ptr size p bad = absurd (ground (arith, p))
  run-efault sys_qkey_avail ptr size p bad = absurd (ground (arith, p))

  refused :
      (ptr size : ℕ) → (IsUserRange k ptr size → ⊥) → validate_user_ptr k ptr size ≡ err efault
  refused ptr size no_range = elim (validate_user_ptr_cases k ptr size) [
    | inl (good, range) ↦ absurd (no_range range)
    | inr (bad, u) ↦ bad
  ]

  faults_lem :
      (nr : ℕ)
      → BadPointer k nr a0 a1 a2
      → syscall_dispatch dv fuel k nr a0 a1 a2 ≡ (returns efault, k)
  unfolding syscall_dispatch
  faults_lem nr (ptr, size, p, no_range) = elim (Bool-cases (ltb max_syscall nr)) [
    | inl over ↦ absurd (ground (arith, p, pointer-none nr a0 a1 a2 (ground (arith, over))))
    | inr under ↦
        let c = call_at nr under in
        let q : pointer (number c.0) a0 a1 a2 ≡ some (ptr, size) = rw (call_number nr c.0 c.1) p in
        rw (under, c.1) (run-efault c.0 ptr size q (refused ptr size no_range))
  ]

  -- For any device, fuel, kernel state and arguments, a system call answers EFAULT exactly when
  -- it takes a pointer (read, write, qtls_send and qtls_recv with a length above 0, open, and
  -- the two calls of IPC) and the bytes there are not a range of user memory; and then the state
  -- is unchanged.
  pub syscall_dispatch-efault_iff :
      (nr : ℕ)
      → (((syscall_dispatch dv fuel k nr a0 a1 a2).0 ≡ returns efault) ↔ BadPointer k nr a0 a1 a2)
        × ((syscall_dispatch dv fuel k nr a0 a1 a2 ≡ (returns efault, k))
            ↔ BadPointer k nr a0 a1 a2)
  syscall_dispatch-efault_iff nr =
      let s = dispatch_Effect nr in
      (
        (s.faults, λ bad. ap (λ x. x.0) (faults_lem nr bad)),
        (λ e. s.faults (ap (λ x. x.0) e), faults_lem nr),
      )
