-- ===== src/Net/Device.antt =====
-- kernel/net/src/device.rs: the interface of a network card, and the loopback device that gives
-- back the frames it was told to transmit.
pub mod Fifo
use project_qlinux.Prelude.{
  ℕ, ◌+◌, ◌-◌, ◌%◌, Bool, true, false, Option, none, some, List, [], ◌∷◌, ltb, ◌==◌, if◌then◌else◌,
  length, get_or, set, take, replicate, overwrite, min, Result, ok, err,
}
use project_qlinux.Net.Error.{NetError, payload_too_large, device_full}
use project_qlinux.Net.Eth.{MacAddr, max_frame}

-- The trait `NetDevice`: a call returns the device that it leaves, and `receive` the buffer too.
pub record NetDevice (D : Type 0) : Type 0 where
  pub mac : D → MacAddr
  pub transmit : D → List ℕ → D × Result NetError (Unit {0})
  pub receive : D → List ℕ → Option (ℕ × List ℕ × D)

abbrev pub loopback_slots : ℕ
loopback_slots = 4

pub record LoopbackDevice : Type 0 where
  pub mac : MacAddr
  pub slots : List (List ℕ)
  pub lens : List ℕ
  pub head : ℕ
  pub count : ℕ

pub new : MacAddr → LoopbackDevice
new m = record {
  mac = m;
  slots = replicate loopback_slots (replicate max_frame 0);
  lens = replicate loopback_slots 0;
  head = 0;
  count = 0;
}

pub transmit : LoopbackDevice → List ℕ → LoopbackDevice × Result NetError (Unit {0})
transmit d frame =
    let slot = (d.head + d.count) % loopback_slots in
    if ltb max_frame (length frame)
    then (d, err payload_too_large)
    else if d.count == loopback_slots
    then (d, err device_full)
    else (
      record d {
        slots = set d.slots slot (overwrite frame (get_or d.slots slot []));
        lens = set d.lens slot (length frame);
        count = d.count + 1;
      },
      ok tt,
    )

pub receive : LoopbackDevice → List ℕ → Option (ℕ × List ℕ × LoopbackDevice)
receive d buf =
    let slot = get_or d.slots d.head [] in
    let n = min (get_or d.lens d.head 0) (length buf) in
    if d.count == 0
    then none
    else some (
      n,
      overwrite (take n slot) buf,
      record d {
        slots = set d.slots d.head (overwrite (replicate n 0) slot);
        head = (d.head + 1) % loopback_slots;
        count = d.count - 1;
      },
    )

pub loopback : NetDevice LoopbackDevice
unfolding transmit receive
loopback = record { mac = λ d. d.mac; transmit = transmit; receive = receive }
