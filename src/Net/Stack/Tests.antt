-- ===== src/Net/Stack/Tests.antt =====
-- Concrete runs of the theorems on queues, sessions, the cache and the loopback device.
use project_qlinux.Prelude.{ℕ, ◌≡◌, refl, ◌≢◌, none, some, List, [], ◌∷◌, arith, inr, replicate}
use project_qlinux.Qkey.{role_a}
use project_qlinux.Net.Error.{malformed}
use project_qlinux.Net.Eth.{MacAddr}
use project_qlinux.Net.Ipv4.{Ipv4Addr, addr_eq}
use project_qlinux.Net.Arp.{ArpCache, lookup, find_entry}
use project_qlinux.Net.Arp.Cache
use project_qlinux.Net.Arp.Cache.{lookup-insert, lookup-insert_other}
use project_qlinux.Net.Device.{LoopbackDevice, loopback, transmit, receive, loopback_slots}
use project_qlinux.Net.Device
use project_qlinux.Net.Device.Fifo
use project_qlinux.Net.Device.Fifo.{frames, transmit-frames, receive-frames}
use project_qlinux.Net.Qtls.{open_record, parse}
use project_qlinux.Net.Stack.{NetStack, RxQueue, new, peer_index, register_peer, session}
use project_qlinux.Net.Stack.Queue.{IsValid}
use project_qlinux.Net.Stack.Steps.{Step, handle_qtls-Step}
use project_qlinux.Net.Stack.Drop.{handle_qtls_dropped}
use project_qlinux.Net.Stack.Handle.{handle_qtls}

abbrev message : List ℕ
message = 104 ∷ 105 ∷ []

abbrev filled : RxQueue
filled = record {
  msgs = message ∷ (104 ∷ 0 ∷ []) ∷ message ∷ message ∷ [];
  lens = 2 ∷ 1 ∷ 0 ∷ 2 ∷ [];
  head = 3;
  count = 3;
}

filled-IsValid : IsValid filled
filled-IsValid = record {
  slots_len = refl;
  lens_len = refl;
  head_in = omega arith;
  count_in = omega arith;
}

abbrev node : MacAddr
node = record { m0 = 2; m1 = 0x51; m2 = 0x4c; m3 = 0; m4 = 0; m5 = 1 }

abbrev addr : Ipv4Addr
addr = record { a0 = 10; a1 = 0; a2 = 0; a3 = 2 }

abbrev other : Ipv4Addr
other = record { a0 = 10; a1 = 0; a2 = 0; a3 = 3 }

abbrev stack : NetStack LoopbackDevice
stack = (register_peer (new (Device.new node)) addr role_a).0

handle_qtls-Step_example :
    Step (session stack 1) (session (handle_qtls loopback stack addr 853 853 message) 1)
handle_qtls-Step_example = handle_qtls-Step loopback stack addr 853 853 message 1

stack-peer : peer_index stack addr ≡ some 0
unfolding peer_index register_peer new addr_eq
stack-peer = refl

handle_qtls_dropped_example : handle_qtls loopback stack addr 853 853 message ≡ stack
unfolding open_record parse
handle_qtls_dropped_example =
    handle_qtls_dropped loopback stack addr 853 853 message (inr (0, malformed, stack-peer, refl))

abbrev cache : ArpCache
cache = record { entries = some (addr, node) ∷ replicate 7 none; next = 1 }

cache-IsValid : Cache.IsValid cache
cache-IsValid = record { slots = refl; next_in = omega arith }

abbrev node2 : MacAddr
node2 = record { m0 = 2; m1 = 0x51; m2 = 0x4c; m3 = 0; m4 = 0; m5 = 2 }

cache-addr : lookup cache addr ≡ some node
unfolding lookup find_entry addr_eq
cache-addr = refl

addr_ne : addr ≢ other
addr_ne e = ground arith

abbrev device : LoopbackDevice
device = record {
  mac = node;
  slots = message ∷ message ∷ message ∷ message ∷ [];
  lens = 2 ∷ 1 ∷ 0 ∷ 2 ∷ [];
  head = 1;
  count = 3;
}

device-IsValid : Fifo.IsValid device
device-IsValid = record {
  slots_len = refl;
  lens_len = refl;
  head_in = omega arith;
  count_in = omega arith;
}
