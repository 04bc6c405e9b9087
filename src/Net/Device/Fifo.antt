-- ===== src/Net/Device/Fifo.antt =====
-- The loopback device as a queue of frames.
use project_qlinux.Prelude.{
  ℕ, suc, ◌+◌, ◌-◌, ◌%◌, ◌≤◌, ◌<◌, ◌≡◌, refl, sym, ap, ◌∙◌, some, List, [], ◌∷◌, ◌++◌, arith,
  length, get_or, set, take, replicate, overwrite, min, ok, length-set,
}
use project_qlinux.Net.Eth.{MacAddr, max_frame}
use project_qlinux.Net.Slots.{messages, messages-push, messages-pop}
use project_qlinux.Net.Device.{LoopbackDevice, loopback_slots, new, transmit, receive}

abbrev pub frames : LoopbackDevice → List (List ℕ)
frames d = messages d.slots d.lens loopback_slots d.head d.count

pub record IsValid (d : LoopbackDevice) : Type 0 where
  pub slots_len : length d.slots ≡ loopback_slots
  pub lens_len : length d.lens ≡ loopback_slots
  pub head_in : d.head < loopback_slots
  pub count_in : d.count ≤ loopback_slots

-- A valid loopback device with a free slot accepts a frame of at most 1514 bytes, puts it behind
-- the others and stays valid.
pub transmit-frames :
    (d : LoopbackDevice) (frame : List ℕ)
    → IsValid d
    → length frame ≤ max_frame
    → d.count < loopback_slots
    → (d' : LoopbackDevice) × (transmit d frame ≡ (d', ok tt))
      × IsValid d'
      × (frames d' ≡ frames d ++ frame ∷ [])
unfolding transmit
transmit-frames d frame v small room =
    let slot : ℕ = (d.head + d.count) % loopback_slots in
    (
      record d {
        slots = set d.slots slot (overwrite frame (get_or d.slots slot []));
        lens = set d.lens slot (length frame);
        count = d.count + 1;
      },
      ground arith,
      record {
        slots_len = length-set d.slots _ _ ∙ v.slots_len;
        lens_len = length-set d.lens _ _ ∙ v.lens_len;
        head_in = v.head_in;
        count_in = omega arith;
      },
      messages-push d.slots d.lens loopback_slots d.head d.count frame (omega (arith, v.slots_len))
          (omega (arith, v.lens_len)) v.head_in room,
    )

-- From a valid loopback device that holds a frame, into a buffer with room for it, receive gives
-- the oldest frame and leaves the others in a valid device.
pub receive-frames :
    (d : LoopbackDevice) (buf : List ℕ)
    → IsValid d
    → 0 < d.count
    → get_or d.lens d.head 0 ≤ length buf
    → (f : List ℕ) × (d' : LoopbackDevice) × (receive d buf
        ≡ some (get_or d.lens d.head 0, overwrite f buf, d'))
      × IsValid d'
      × (frames d ≡ f ∷ frames d')
unfolding receive
receive-frames d buf v pos room =
    let n : ℕ = get_or d.lens d.head 0 in
    let size : min n (length buf) ≡ n = omega arith in
    let slot : List ℕ = get_or d.slots d.head [] in
    let c : suc (d.count - 1) ≡ d.count = omega arith in
    (
      take n slot,
      record d {
        slots = set d.slots d.head (overwrite (replicate n 0) slot);
        head = (d.head + 1) % loopback_slots;
        count = d.count - 1;
      },
      rw size (ground arith),
      record {
        slots_len = length-set d.slots _ _ ∙ v.slots_len;
        lens_len = v.lens_len;
        head_in = omega arith;
        count_in = omega (arith, v.count_in);
      },
      ap (messages d.slots d.lens loopback_slots d.head) (sym c)
          ∙ messages-pop d.slots d.lens loopback_slots d.head (d.count - 1)
              (overwrite (replicate n 0) slot) (omega (arith, v.slots_len)) v.head_in
              (omega (arith, v.count_in)),
    )

pub new-IsValid : (m : MacAddr) → IsValid (new m) × (frames (new m) ≡ [])
unfolding new
new-IsValid m = (
  record { slots_len = refl; lens_len = refl; head_in = omega arith; count_in = omega arith },
  refl,
)
