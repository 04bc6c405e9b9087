-- ===== src/Net/Stack/Queue.antt =====
-- The receive queue of a session as a queue of messages.
use project_qlinux.Prelude.{
  ℕ, suc, ◌+◌, ◌-◌, ◌%◌, ◌≤◌, ◌<◌, ◌≡◌, refl, sym, ap, ◌∙◌, Bool, true, false, some, List, [], ◌∷◌,
  ◌++◌, arith, ◌==◌, if◌then◌else◌, length, get_or, set, take, replicate, overwrite, length-set,
  Bool-cases, inl, inr,
}
use project_qlinux.Net.Slots.{messages, messages-push, messages-pop}
use project_qlinux.Net.Stack.{RxQueue, rx_slots, push, pop, empty_queue}

-- The messages held, oldest first.
abbrev pub contents : RxQueue → List (List ℕ)
contents q = messages q.msgs q.lens rx_slots q.head q.count

pub record IsValid (q : RxQueue) : Type 0 where
  pub slots_len : length q.msgs ≡ rx_slots
  pub lens_len : length q.lens ≡ rx_slots
  pub head_in : q.head < rx_slots
  pub count_in : q.count ≤ rx_slots

pub empty_queue-IsValid : IsValid empty_queue × (contents empty_queue ≡ [])
empty_queue-IsValid = (
  record { slots_len = refl; lens_len = refl; head_in = omega arith; count_in = omega arith },
  refl,
)

-- On a valid queue, push puts the message behind the others and answers true, or, if four are
-- waiting, answers false and leaves the messages; the queue stays valid.
pub push-contents :
    (q : RxQueue) (d : List ℕ)
    → IsValid q
    → (q' : RxQueue) × (b : Bool) × (push q d ≡ (q', b))
      × IsValid q'
      × (contents q' ≡ (if q.count == rx_slots then contents q else contents q ++ d ∷ []))
      × (b ≡ (if q.count == rx_slots then false else true))
unfolding push
push-contents q d v = elim (Bool-cases (q.count == rx_slots)) [
  | inl full ↦ (q, false, rw full refl, v, rw full refl, rw full refl)
  | inr free ↦
      let s : ℕ = (q.head + q.count) % rx_slots in
      (
        record q {
          msgs = set q.msgs s (overwrite d (get_or q.msgs s []));
          lens = set q.lens s (length d);
          count = q.count + 1;
        },
        true,
        rw free refl,
        record {
          slots_len = length-set q.msgs s _ ∙ v.slots_len;
          lens_len = length-set q.lens s _ ∙ v.lens_len;
          head_in = v.head_in;
          count_in = ground (arith, v.count_in, free);
        },
        rw free (
            messages-push q.msgs q.lens rx_slots q.head q.count d (omega (arith, v.slots_len))
              (omega (arith, v.lens_len)) v.head_in (ground (arith, v.count_in, free))),
        rw free refl,
      )
]

-- From a valid queue that is not empty, into a buffer with room for the oldest message, pop
-- takes that message and leaves the others in a valid queue.
pub pop-contents :
    (q : RxQueue) (out : List ℕ)
    → IsValid q
    → 0 < q.count
    → get_or q.lens q.head 0 ≤ length out
    → (m : List ℕ) × (q' : RxQueue) × (pop q out
        ≡ some (get_or q.lens q.head 0, overwrite m out, q'))
      × IsValid q'
      × (contents q ≡ m ∷ contents q')
unfolding pop
pop-contents q out v pos room =
    let n : ℕ = get_or q.lens q.head 0 in
    let slot : List ℕ = get_or q.msgs q.head [] in
    let c : suc (q.count - 1) ≡ q.count = omega arith in
    (
      take n slot,
      record q {
        msgs = set q.msgs q.head (replicate (length slot) 0);
        head = (q.head + 1) % rx_slots;
        count = q.count - 1;
      },
      ground arith,
      record {
        slots_len = length-set q.msgs _ _ ∙ v.slots_len;
        lens_len = v.lens_len;
        head_in = omega arith;
        count_in = omega (arith, v.count_in);
      },
      ap (messages q.msgs q.lens rx_slots q.head) (sym c)
          ∙ messages-pop q.msgs q.lens rx_slots q.head (q.count - 1) (replicate (length slot) 0)
              (omega (arith, v.slots_len)) v.head_in (omega (arith, v.count_in)),
    )
