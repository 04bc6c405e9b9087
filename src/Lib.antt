-- ===== src/Lib.antt =====
-- Project-QLinux: the kernel's network path and its cryptography, as executable definitions with
-- theorems about them.
--
-- The program's parts. A quantum link delivers key blocks; kernel/qkey keeps them in lanes, one
-- for each direction of a peer. kernel/net carries messages over Ethernet, IPv4 and UDP in QTLS
-- records, each of which is XORed with one-time key bytes and authenticated by Poly1305 (uhf) under
-- one-time keys. The network stack holds the peers, the sessions and the cache of hardware
-- addresses, and sends and receives through a device; the system calls of kernel/syscall drive it.
-- Beside the kernel, key_pool hands out key bytes to otp_engine, and qtor wraps messages in the
-- authenticated records of wc_auth, one for each hop of a circuit.
--
-- Paths are from the repository's directory qlinux.
--   Prelude   results, lists with reads out of range, words, bits and rings of any size
--   Uhf       uhf/src/lib.rs: CtEq (the comparisons), Poly1305, Umac (the 61-bit
--             prime) and Nh (the message code)
--   Qkey      kernel/qkey/src/lib.rs: KeyLane and PeerKeys; Qkey/Stream sees a lane as a window of
--             the stream of all key bytes ever deposited
--   Net       kernel/net/src: Eth, Ipv4, Udp, Arp, Device, Qtls (qtls.rs), Stack (stack.rs: Send,
--             Socket and Handle are its sending side, its socket calls and its receiving side)
--   Ipc       kernel/ipc/src/lib.rs: MessageQueue and Pipe
--   Scheduler kernel/scheduler/src/lib.rs: the task table, spawn, tick, block_current, unblock
--   Memory    kernel/memory/src/lib.rs: Bump (the heap) and Frames (the bitmap of frames)
--   KeyPool   key_pool/src/lib.rs, and in KeyPool/Otp otp_engine/src/lib.rs; History sees every order
--             of calls on a pool
--   WcAuth    wc_auth/src/lib.rs: records authenticated under keys derived from a word count
--   QTor      qtor/src/lib.rs: Cells, Onion (circuits of three hops) and Circuits (a node's table)
--   Syscall   kernel/syscall/src/lib.rs over Net: Pointers (the check of user pointers), Numbers
--             (which arguments are pointers), Effects and Arms
--             (each call) and Isolation (all of them)
--   QOnion    qonion/src/lib.rs: Socks (requests) and Pipeline (circuits from keys of the pool)
--   Ksync     kernel/ksync/src/lib.rs: the spin lock as steps of threads that interleave
--   Qphy      kernel/qphy/src/lib.rs: the reconciliation of two raw keys
--
-- A struct is a record, an enum a data type, a byte a number below 256 and an array a list. Words
-- wrap where the source's do, as % 2 ^ w. A method that changes its object returns the new one; an
-- error leaves it unchanged unless the method returns it next to the error. Clearing local buffers
-- of key bytes is left out, clearing those of the state is not.
--
-- The memory of Syscall is what user pointers reach. The static KERNEL_NET, which lies in the kernel
-- image, is a field of its own, changed by the stack's methods.
--
-- Fuel: the carry loop of the checksum runs four rounds, enough for any u32
-- (Net/Ipv4/Checksum: fold_carries-lt); the block loop of Poly1305 has as much fuel as there are
-- bytes. The loop of poll is on fuel and answers none when frames are left, since a device
-- may never run dry. The halving of an interval in Qphy has as many rounds as the interval has
-- positions, and ends before (Qphy/Parity: narrow-differs).
--
-- Not modelled: the simulator of the quantum channel (kernel/qphy, floating-point) and the Toeplitz
-- hash behind it; port I/O and drivers (kernel/drivers_core, qhal), the boot image and the
-- command-line tools, which are hardware access or glue; the semaphore of kernel/ipc and the global
-- instances, which are atomics; and the parts on which none of the above depends: auth, amnesia, and
-- of uhf GHASH.
pub mod Prelude
pub mod Qkey
pub mod Uhf
pub mod Net
pub mod Ipc
pub mod Scheduler
pub mod Memory
pub mod KeyPool
pub mod WcAuth
pub mod QTor
pub mod Syscall
pub mod Ksync
pub mod Qphy
pub mod QOnion
