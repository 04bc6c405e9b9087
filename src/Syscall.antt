-- ===== src/Syscall.antt =====
-- kernel/syscall/src/lib.rs: the system calls over the network stack and user memory. The two
-- static bounds of the kernel image, the stack behind its lock and the memory are one state.
-- `sys_exit` never returns; the loop of `poll` in the stack runs on fuel.
pub mod Pointers
pub mod Numbers
pub mod Effects
pub mod Arms
pub mod Isolation
mod Tests
use project_qlinux.Prelude.{
  ℕ, zero, suc, ◌+◌, ◌-◌, ◌*◌, ◌/◌, ◌%◌, ◌^◌, Bool, true, false, not, ◌&&◌, ◌||◌, Option, none,
  some, List, [], ◌∷◌, ltb, leb, ◌==◌, if◌then◌else◌, length, take, get_or, get_elem?, replicate,
  Result, ok, err, ◌>>=◌, ◌>>◌, refuse_if, ok_or, checked_add,
}
use project_qlinux.Prelude.Int.{ℤ, pos, negsuc, neg}
use project_qlinux.Prelude.Words.{u32}
use project_qlinux.Net.Error.{
  NetError, arp_pending, no_peer, no_session, not_established, would_block, auth_failed, malformed,
  payload_too_large, device_full, table_full, key_error,
}
use project_qlinux.Net.Device.{NetDevice}
use project_qlinux.Net.Eth.{max_frame}
use project_qlinux.Net.Ipv4.{Ipv4Addr}
use project_qlinux.Net.Stack.{NetStack, key_available}
use project_qlinux.Net.Stack.Socket.{listen, accept, recv, connect, send, close_session}
use project_qlinux.Net.Stack.Handle.{poll}

-- The calls, and their numbers in `nr`.
pub data Call : Type 0 where
  sys_read sys_write sys_open sys_close sys_exit sys_getpid sys_sleep sys_yield sys_ipc_send
        sys_ipc_recv sys_mem_alloc sys_mem_free sys_qtls_listen sys_qtls_connect sys_qtls_accept
        sys_qtls_send sys_qtls_recv sys_qtls_close sys_qkey_avail :
      Call

abbrev pub number : Call → ℕ
number sys_read = 0
number sys_write = 1
number sys_open = 2
number sys_close = 3
number sys_exit = 4
number sys_getpid = 5
number sys_sleep = 6
number sys_yield = 7
number sys_ipc_send = 8
number sys_ipc_recv = 9
number sys_mem_alloc = 10
number sys_mem_free = 11
number sys_qtls_listen = 12
number sys_qtls_connect = 13
number sys_qtls_accept = 14
number sys_qtls_send = 15
number sys_qtls_recv = 16
number sys_qtls_close = 17
number sys_qkey_avail = 18

-- The arms of the `match`, in the order of their numbers.
abbrev pub calls : List Call
calls =
    sys_read ∷ sys_write ∷ sys_open ∷ sys_close ∷ sys_exit ∷ sys_getpid ∷ sys_sleep ∷ sys_yield
    ∷ sys_ipc_send ∷ sys_ipc_recv ∷ sys_mem_alloc ∷ sys_mem_free ∷ sys_qtls_listen
    ∷ sys_qtls_connect ∷ sys_qtls_accept ∷ sys_qtls_send ∷ sys_qtls_recv ∷ sys_qtls_close
    ∷ sys_qkey_avail ∷ []

abbrev pub max_syscall : ℕ
max_syscall = 18

abbrev pub enoent : ℤ
enoent = neg 2

abbrev pub einval : ℤ
einval = neg 22

abbrev pub efault : ℤ
efault = neg 14

abbrev pub enomem : ℤ
enomem = neg 12

abbrev pub ebadf : ℤ
ebadf = neg 9

abbrev pub enosys : ℤ
enosys = neg 38

abbrev pub eagain : ℤ
eagain = neg 11

abbrev pub ebadmsg : ℤ
ebadmsg = neg 74

abbrev pub enotconn : ℤ
enotconn = neg 107

abbrev pub ehostunreach : ℤ
ehostunreach = neg 113

abbrev pub enokey : ℤ
enokey = neg 126

abbrev pub user_virt_max : ℕ
user_virt_max = 0x00007FFFFFFFF000

-- `x as i32`.
abbrev pub as_i32 : ℕ → ℤ
as_i32 x = if ltb (u32 x) (2 ^ 31) then pos (u32 x) else negsuc (2 ^ 32 - 1 - u32 x)

abbrev pub is_negative : ℤ → Bool
is_negative (pos n) = false
is_negative (negsuc n) = true

abbrev pub is_output : ℤ → Bool
is_output (pos n) = n == 1 || n == 2
is_output (negsuc n) = false

abbrev pub net_errno : NetError → ℤ
net_errno arp_pending = eagain
net_errno would_block = eagain
net_errno no_peer = ehostunreach
net_errno no_session = ebadf
net_errno not_established = enotconn
net_errno auth_failed = ebadmsg
net_errno (key_error e) = enokey
net_errno table_full = enomem
net_errno device_full = enomem
net_errno malformed = einval
net_errno payload_too_large = einval

unfoldable pub port_arg : ℕ → Result ℤ ℕ
port_arg p = if p == 0 || ltb (2 ^ 16 - 1) p then err einval else ok p

-- `ip.to_be_bytes()`.
abbrev pub ip_arg : ℕ → Ipv4Addr
ip_arg ip = record {
  a0 = u32 ip / 2 ^ 24;
  a1 = u32 ip / 2 ^ 16 % 256;
  a2 = u32 ip / 2 ^ 8 % 256;
  a3 = u32 ip % 256;
}

-- KERNEL_LO, KERNEL_HI, KERNEL_NET, and memory by address as the calls read and write it through
-- user pointers. KERNEL_NET lies inside the image; it is `net`, which the stack's methods change,
-- and no part of `mem`.
pub record Kernel (D : Type 0) : Type 0 where
  pub lo : ℕ
  pub hi : ℕ
  pub net : NetStack D
  pub mem : ℕ → ℕ

unfoldable pub set_kernel_image : {D : Type 0} → Kernel D → ℕ → ℕ → Kernel D
set_kernel_image k lo hi = record k { lo = lo; hi = hi }

unfoldable pub validate_user_ptr : {D : Type 0} → Kernel D → ℕ → ℕ → Result ℤ (Unit {0})
validate_user_ptr k ptr size = do
  refuse_if (ptr == 0 || size == 0) efault
  end ← ok_or (checked_add ptr size) efault
  refuse_if (ltb user_virt_max end) efault
  refuse_if (ltb k.lo k.hi && (ltb ptr k.hi && ltb k.lo end)) efault
  ok tt

-- How a system call ends.
pub data Ending : Type 0 where
  returns : ℤ → Ending
  halts : Ending
  out_of_fuel : Ending

-- A slice of user memory, read, and written: `len` bytes from `ptr` on.
abbrev pub read_mem : (ℕ → ℕ) → ℕ → ℕ → List ℕ
read_mem mem ptr zero = []
read_mem mem ptr (suc len) = mem ptr ∷ read_mem mem (ptr + 1) len

abbrev pub write_mem : (ℕ → ℕ) → ℕ → ℕ → List ℕ → ℕ → ℕ
write_mem mem ptr len bytes a =
    if leb ptr a && ltb a (ptr + len) then get_or bytes (a - ptr) (mem a) else mem a

abbrev pub Answer : Type 0 → Type 0
Answer D = Ending × Kernel D

module _ {D : Type 0} where
  abbrev pub answer : Kernel D → ℤ → Answer D
  answer k v = (returns v, k)

  -- `if let Err(e) = check { return e; }`.
  abbrev pub after : {A : Type 0} → Kernel D → Result ℤ A → (A → Answer D) → Answer D
  after k (err e) next = answer k e
  after k (ok a) next = next a

  abbrev pub answer_unit : Kernel D → NetStack D × Result NetError (Unit {0}) → Answer D
  answer_unit k (st, ok u) = answer (record k { net = st }) (pos 0)
  answer_unit k (st, err e) = answer (record k { net = st }) (net_errno e)

  abbrev pub answer_num : Kernel D → NetStack D × Result NetError ℕ → Answer D
  answer_num k (st, ok n) = answer (record k { net = st }) (pos n)
  answer_num k (st, err e) = answer (record k { net = st }) (net_errno e)

  abbrev pub accepted : Kernel D → Option (ℕ × NetStack D) → Answer D
  accepted k none = answer k eagain
  accepted k (some (h, st)) = answer (record k { net = st }) (pos h)

  abbrev pub received : Kernel D → ℕ → ℕ → NetStack D × List ℕ × Result NetError ℕ → Answer D
  received k ptr len (st, out, r) =
      answer_num (record k { mem = write_mem k.mem ptr len out }) (st, r)

  abbrev pub available : Kernel D → Option (ℕ × ℕ) → Answer D
  available k none = answer k ehostunreach
  available k (some (tx, rx)) = answer k (pos tx)

  module _ (dv : NetDevice D) (fuel : ℕ) where
    -- `s.poll();`, and what comes after it.
    abbrev pub polled : Kernel D → Option (ℕ × NetStack D) → (Kernel D → Answer D) → Answer D
    polled k none next = (out_of_fuel, k)
    polled k (some (n, st)) next = next (record k { net = st })

    abbrev pub after_poll : Kernel D → (Kernel D → Answer D) → Answer D
    after_poll k next = polled k (poll dv fuel k.net (replicate max_frame 0) 0) next

    unfoldable pub run : Call → Kernel D → ℕ → ℕ → ℕ → Answer D
    unfolding validate_user_ptr port_arg
    run sys_read k a0 a1 a2 =
        if a2 == 0
        then answer k (pos 0)
        else after k (validate_user_ptr k a1 a2)
            (λ _. if is_negative (as_i32 a0) then answer k ebadf else answer k (pos 0))
    run sys_write k a0 a1 a2 =
        if a2 == 0
        then answer k (pos 0)
        else after k (validate_user_ptr k a1 a2) (λ _.
          if ltb (2 ^ 63 - 1) a2
          then answer k einval
          else if is_output (as_i32 a0)
          then answer k (pos a2)
          else answer k ebadf)
    run sys_open k a0 a1 a2 = after k (validate_user_ptr k a0 1) (λ _. answer k enoent)
    run sys_close k a0 a1 a2 = if is_negative (as_i32 a0) then answer k ebadf else answer k (pos 0)
    run sys_exit k a0 a1 a2 = (halts, k)
    run sys_getpid k a0 a1 a2 = answer k (pos 1)
    run sys_sleep k a0 a1 a2 = answer k (pos 0)
    run sys_yield k a0 a1 a2 = answer k (pos 0)
    run sys_ipc_send k a0 a1 a2 = after k (validate_user_ptr k a1 264) (λ _. answer k (pos 0))
    run sys_ipc_recv k a0 a1 a2 = after k (validate_user_ptr k a1 264) (λ _. answer k eagain)
    run sys_mem_alloc k a0 a1 a2 =
        if a0 == 0 || ltb (128 * 1024 * 1024) a0 then answer k einval else answer k (pos 0)
    run sys_mem_free k a0 a1 a2 = if a0 == 0 then answer k einval else answer k (pos 0)
    run sys_qtls_listen k a0 a1 a2 =
        after k (port_arg a0) (λ port. answer_unit k (listen k.net port))
    run sys_qtls_connect k a0 a1 a2 =
        after k (port_arg a1)
          (λ port. after_poll k (λ k'. answer_num k' (connect dv k'.net (ip_arg a0) port)))
    run sys_qtls_accept k a0 a1 a2 =
        after k (port_arg a0) (λ port. after_poll k (λ k'. accepted k' (accept k'.net port)))
    run sys_qtls_send k a0 a1 a2 =
        if a2 == 0
        then answer k (pos 0)
        else after k (validate_user_ptr k a1 a2)
            (λ _. answer_num k (send dv k.net a0 (read_mem k.mem a1 a2)))
    run sys_qtls_recv k a0 a1 a2 =
        if a2 == 0
        then answer k (pos 0)
        else after k (validate_user_ptr k a1 a2)
            (λ _. after_poll k (λ k'. received k' a1 a2 (recv k'.net a0 (read_mem k'.mem a1 a2))))
    run sys_qtls_close k a0 a1 a2 = answer_unit k (close_session dv k.net a0)
    run sys_qkey_avail k a0 a1 a2 = available k (key_available k.net (ip_arg a0))

    abbrev pub run_found : Option Call → Kernel D → ℕ → ℕ → ℕ → Answer D
    run_found none k a0 a1 a2 = answer k enosys
    run_found (some c) k a0 a1 a2 = run c k a0 a1 a2

    unfoldable pub syscall_dispatch : Kernel D → ℕ → ℕ → ℕ → ℕ → Answer D
    syscall_dispatch k nr a0 a1 a2 =
        if ltb max_syscall nr then answer k enosys else run_found (get_elem? calls nr) k a0 a1 a2
