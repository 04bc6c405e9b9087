-- ===== src/Syscall/Tests.antt =====
-- kernel/syscall/src/lib.rs: system calls on a kernel whose network is at rest, after the tests of the file.
use project_qlinux.Prelude.{ℕ, ◌+◌, ◌≤◌, ◌<◌, ◌≡◌, ◌↔◌, ◌⊎◌, refl, [], ◌∷◌, ok, err, none}
use project_qlinux.Prelude.Int.{pos}
use project_qlinux.Net.Device.{NetDevice}
use project_qlinux.Net.Stack.{Session, established, empty_session, empty_queue, pop}
use project_qlinux.Net.Stack.Socket.{recv}
use project_qlinux.Net.Stack
use project_qlinux.Net.Stack.Handle.{poll}
use project_qlinux.Syscall.{
  Kernel, validate_user_ptr, syscall_dispatch, run, returns, efault, einval, enosys, ebadf,
  port_arg,
}
use project_qlinux.Syscall.Pointers.{IsUserRange, validate_user_ptr_cases}
use project_qlinux.Syscall.Numbers.{BadPointer}
use project_qlinux.Syscall.Isolation.{syscall_dispatch-writes, syscall_dispatch-efault_iff}

-- A device with nothing to receive.
abbrev silent : NetDevice (Unit {0})
silent = record {
  mac = λ d. record { m0 = 2; m1 = 0x51; m2 = 0x4C; m3 = 0; m4 = 0; m5 = 1 };
  transmit = λ d frame. (d, ok tt);
  receive = λ d buf. none;
}

abbrev kernel : Kernel (Unit {0})
kernel = record { lo = 0x100000; hi = 0x200000; net = Stack.new tt; mem = λ a. a }

pointers :
    (validate_user_ptr kernel 0 10 ≡ err efault)
    × (validate_user_ptr kernel 0xFFFF800000000000 1 ≡ err efault)
    × (validate_user_ptr kernel 0x1000 4096 ≡ ok tt)
    × (validate_user_ptr kernel 0xFFFFF 2 ≡ err efault)
unfolding validate_user_ptr
pointers = (refl, refl, refl, refl)

validate_user_ptr_cases_example :
    (validate_user_ptr kernel 0x1000 4096 ≡ ok tt) × IsUserRange kernel 0x1000 4096
    ⊎ (validate_user_ptr kernel 0x1000 4096 ≡ err efault) × (IsUserRange kernel 0x1000 4096 → ⊥)
validate_user_ptr_cases_example = validate_user_ptr_cases kernel 0x1000 4096

bad_calls :
    ((syscall_dispatch silent 1 kernel 9999 0 0 0).0 ≡ returns enosys)
    × ((syscall_dispatch silent 1 kernel 1 99 0x1000 8).0 ≡ returns ebadf)
    × ((syscall_dispatch silent 1 kernel 12 70000 0 0).0 ≡ returns einval)
    × ((syscall_dispatch silent 1 kernel 15 0 0 16).0 ≡ returns efault)
    × ((syscall_dispatch silent 1 kernel 10 0 0 0).0 ≡ returns einval)
unfolding syscall_dispatch run validate_user_ptr port_arg
bad_calls = (refl, refl, refl, refl, refl)

-- Session 0 is established and holds the message 42, 43.
abbrev waiting : Session
waiting = record empty_session {
  state = established;
  rx = record empty_queue { msgs = (42 ∷ 43 ∷ []) ∷ []; lens = 2 ∷ []; count = 1 };
}

abbrev receiver : Kernel (Unit {0})
receiver = record kernel { net = record kernel.net { sessions = waiting ∷ [] } }

-- The call sys_qtls_recv of session 0 into 8 bytes from 0x1000 on writes the message there.
recv_writes :
    ((syscall_dispatch silent 1 receiver 16 0 0x1000 8).0 ≡ returns (pos 2))
    × ((syscall_dispatch silent 1 receiver 16 0 0x1000 8).1.mem 0x1001 ≡ 43)
    × ((syscall_dispatch silent 1 receiver 16 0 0x1000 8).1.mem 0x1002 ≡ 0x1002)
unfolding syscall_dispatch run validate_user_ptr poll recv pop
recv_writes = (refl, refl, refl)

abbrev recv_number : ℕ
recv_number = 16

syscall_dispatch-writes_example :
    ((syscall_dispatch silent 1 receiver 16 0 0x1000 8).1.lo ≡ 0x100000)
    × ((syscall_dispatch silent 1 receiver 16 0 0x1000 8).1.hi ≡ 0x200000)
    × (((syscall_dispatch silent 1 receiver 16 0 0x1000 8).1.mem 0x1001 ≡ 0x1001)
        ⊎ (recv_number ≡ 16)
          × (0x1000 ≤ 0x1001)
          × (0x1001 < 0x1000 + 8)
          × IsUserRange receiver 0x1000 8)
syscall_dispatch-writes_example = syscall_dispatch-writes silent 1 receiver 0 0x1000 8 16 0x1001

-- A buffer that reaches into the image.
syscall_dispatch-efault_iff_example :
    (((syscall_dispatch silent 1 receiver 16 0 0xFFFF8 16).0 ≡ returns efault)
      ↔ BadPointer receiver 16 0 0xFFFF8 16)
    × ((syscall_dispatch silent 1 receiver 16 0 0xFFFF8 16 ≡ (returns efault, receiver))
        ↔ BadPointer receiver 16 0 0xFFFF8 16)
syscall_dispatch-efault_iff_example = syscall_dispatch-efault_iff silent 1 receiver 0 0xFFFF8 16 16
