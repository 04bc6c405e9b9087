-- ===== src/Syscall/Arms.antt =====
-- kernel/syscall/src/lib.rs: the arms of `syscall_dispatch`, one by one: what each may write
-- through a user pointer, and when it answers EFAULT.
use project_qlinux.Prelude.{
  ℕ, ◌+◌, ◌-◌, ◌*◌, ◌^◌, ◌≤◌, ◌<◌, ◌≡◌, refl, sym, subst, true, false, inl, inr, some, arith, ltb,
  ◌||◌, ◌==◌, if◌then◌else◌, replicate,
}
use project_qlinux.Prelude.Int.{pos}
use project_qlinux.Net.Device.{NetDevice}
use project_qlinux.Net.Eth.{max_frame}
use project_qlinux.Net.Stack.{NetStack}
use project_qlinux.Net.Stack.Socket.{listen, accept, recv, connect}
use project_qlinux.Net.Stack.Handle.{poll}
use project_qlinux.Syscall.{
  Kernel, Answer, answer, after, answer_unit, answer_num, accepted, received, after_poll, read_mem,
  ip_arg, run, Call, number, is_output, is_negative, as_i32, einval, ebadf, validate_user_ptr,
  sys_read, sys_write, sys_open, sys_close, sys_exit, sys_getpid, sys_sleep, sys_yield,
  sys_ipc_send, sys_ipc_recv, sys_mem_alloc, sys_mem_free, sys_qtls_listen, sys_qtls_connect,
  sys_qtls_accept, sys_qtls_send, sys_qtls_recv, sys_qtls_close, sys_qkey_avail,
}
use project_qlinux.Syscall.Numbers.{pointer, BadPointer}
use project_qlinux.Syscall.Pointers.{IsUserRange, validate_user_ptr_cases}
use project_qlinux.Syscall.Effects.{
  Effect, value_Effect, if_Effect, unit_Effect, num_Effect, accepted_Effect, available-Effect,
  port-Effect, polled-Effect, received-Effect,
}

module _ {D : Type 0} (dv : NetDevice D) (fuel : ℕ) (k : Kernel D) (a0 a1 a2 : ℕ) where
  -- Where the call with number `nr` may write: sys_qtls_recv, into its buffer in user memory.
  abbrev pub Writes : ℕ → ℕ → Type 0
  Writes nr a = (nr ≡ 16) × (a1 ≤ a) × (a < a1 + a2) × IsUserRange k a1 a2

  abbrev pub Holds : ℕ → Answer D → Type 0
  Holds nr x = Effect (Writes nr) (BadPointer k nr a0 a1 a2) k x

  guarded :
      (nr ptr size : ℕ) (next : Answer D)
      → pointer nr a0 a1 a2 ≡ some (ptr, size)
      → (IsUserRange k ptr size → Holds nr next)
      → Holds nr (after k (validate_user_ptr k ptr size) (λ _. next))
  guarded nr ptr size next p h = elim (validate_user_ptr_cases k ptr size) [
    | inl (good, range) ↦ subst (λ r. Holds nr (after k r (λ _. next))) (sym good) (h range)
    | inr (bad, no_range) ↦
        subst (λ r. Holds nr (after k r (λ _. next))) (sym bad)
          (record {
            same_lo = refl;
            same_hi = refl;
            writes = λ a. inl refl;
            faults = λ e. (ptr, size, p, no_range);
          })
  ]

  buffer :
      (nr : ℕ)
      → (nr == 0 || nr == 1 || (nr == 15 || nr == 16)) ≡ true
      → (a2 == 0) ≡ false
      → pointer nr a0 a1 a2 ≡ some (a1, a2)
  unfolding pointer
  buffer nr h e = rw (h, e) refl

  after_poll-Effect :
      {W : ℕ → Type 0} {F : Type 0} (next : Kernel D → Answer D)
      → ((st : NetStack D) → Effect W F (record k { net = st }) (next (record k { net = st })))
      → Effect W F k (after_poll dv fuel k next)
  after_poll-Effect next s =
      polled-Effect dv fuel k (poll dv fuel k.net (replicate max_frame 0) 0) next s

  -- What the three calls do that handle the waiting frames first.
  abbrev connecting : ℕ → Kernel D → Answer D
  connecting port k' = answer_num k' (connect dv k'.net (ip_arg a0) port)

  abbrev accepting : ℕ → Kernel D → Answer D
  accepting port k' = accepted k' (accept k'.net port)

  abbrev receiving : Kernel D → Answer D
  receiving k' = received k' a1 a2 (recv k'.net a0 (read_mem k'.mem a1 a2))

  -- Each arm.
  pub run_Effect : (c : Call) → Holds (number c) (run dv fuel c k a0 a1 a2)
  unfolding run pointer
  run_Effect sys_read = if_Effect k _ _ _ (value_Effect k (pos 0) refl) (λ e.
      guarded 0 a1 a2 _ (buffer 0 refl e) (λ r.
        if_Effect k (is_negative (as_i32 a0)) (answer k ebadf) (answer k (pos 0))
          (value_Effect k ebadf refl) (λ u. value_Effect k (pos 0) refl)))
  run_Effect sys_write = if_Effect k _ _ _ (value_Effect k (pos 0) refl) (λ e.
      guarded 1 a1 a2 _ (buffer 1 refl e) (λ r.
        if_Effect k (ltb (2 ^ 63 - 1) a2) (answer k einval)
          (if is_output (as_i32 a0) then answer k (pos a2) else answer k ebadf)
          (value_Effect k einval refl)
          (λ u.
            if_Effect k (is_output (as_i32 a0)) (answer k (pos a2)) (answer k ebadf)
              (value_Effect k (pos a2) refl) (λ u. value_Effect k ebadf refl))))
  run_Effect sys_open = guarded 2 a0 1 _ refl (λ r. value_Effect k _ refl)
  run_Effect sys_close =
      if_Effect k (is_negative (as_i32 a0)) (answer k ebadf) (answer k (pos 0))
        (value_Effect k ebadf refl) (λ u. value_Effect k (pos 0) refl)
  run_Effect sys_exit = record {
    same_lo = refl;
    same_hi = refl;
    writes = λ a. inl refl;
    faults = λ e. ground (arith, e);
  }
  run_Effect sys_getpid = value_Effect k _ refl
  run_Effect sys_sleep = value_Effect k _ refl
  run_Effect sys_yield = value_Effect k _ refl
  run_Effect sys_ipc_send = guarded 8 a1 264 _ refl (λ r. value_Effect k _ refl)
  run_Effect sys_ipc_recv = guarded 9 a1 264 _ refl (λ r. value_Effect k _ refl)
  run_Effect sys_mem_alloc =
      if_Effect k (a0 == 0 || ltb (128 * 1024 * 1024) a0) (answer k einval) (answer k (pos 0))
        (value_Effect k einval refl) (λ u. value_Effect k (pos 0) refl)
  run_Effect sys_mem_free =
      if_Effect k (a0 == 0) (answer k einval) (answer k (pos 0)) (value_Effect k einval refl)
        (λ u. value_Effect k (pos 0) refl)
  run_Effect sys_qtls_listen =
      port-Effect k a0 (λ port. answer_unit k (listen k.net port)) (λ port. unit_Effect k _)
  run_Effect sys_qtls_connect =
      port-Effect k a1 (λ port. after_poll dv fuel k (connecting port))
        (λ port. after_poll-Effect (connecting port) (λ st. num_Effect (record k { net = st }) _))
  run_Effect sys_qtls_accept =
      port-Effect k a0 (λ port. after_poll dv fuel k (accepting port))
        (λ port.
          after_poll-Effect (accepting port) (λ st. accepted_Effect (record k { net = st }) _))
  run_Effect sys_qtls_send =
      if_Effect k _ _ _ (value_Effect k (pos 0) refl)
        (λ e. guarded 15 a1 a2 _ (buffer 15 refl e) (λ r. num_Effect k _))
  run_Effect sys_qtls_recv = if_Effect k _ _ _ (value_Effect k (pos 0) refl) (λ e.
      guarded 16 a1 a2 _ (buffer 16 refl e) (λ r.
        after_poll-Effect receiving
          (λ st. received-Effect (record k { net = st }) a1 a2 _ (λ a l h. (refl, l, h, r)))))
  run_Effect sys_qtls_close = unit_Effect k _
  run_Effect sys_qkey_avail = available-Effect k _
