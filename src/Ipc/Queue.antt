-- ===== src/Ipc/Queue.antt =====
-- A message queue as a bounded queue.
use project_qlinux.Prelude.{
  suc, ◌+◌, ◌-◌, ◌%◌, ◌≤◌, ◌<◌, ◌≡◌, refl, sym, ap, ◌∙◌, List, [], ◌∷◌, ◌++◌, arith, length, get_or,
  set, length-set, ok,
}
use project_qlinux.Prelude.Ring.{window, store, window-store_end, window-store_after}
use project_qlinux.Ipc.{Message, MessageQueue, empty_message, mq_capacity, new_queue, send, recv}

-- The messages held, oldest first.
abbrev pub messages : MessageQueue → List Message
messages q = window q.buf mq_capacity empty_message q.head q.count

pub record IsValid (q : MessageQueue) : Type 0 where
  pub storage : length q.buf ≡ mq_capacity
  pub head_in : q.head < mq_capacity
  pub count_in : q.count ≤ mq_capacity
  pub tail_at : q.tail ≡ (q.head + q.count) % mq_capacity

pub new_queue-IsValid : IsValid new_queue × (messages new_queue ≡ [])
unfolding new_queue
new_queue-IsValid =
    (record { storage = refl; head_in = omega arith; count_in = omega arith; tail_at = refl }, refl)

-- A valid message queue with a free slot takes a message behind the others and stays valid.
pub send-messages :
    (q : MessageQueue) (m : Message)
    → IsValid q
    → q.count < mq_capacity
    → (q' : MessageQueue) × (send q m ≡ ok q') × IsValid q' × (messages q' ≡ messages q ++ m ∷ [])
unfolding send store
send-messages q m v room = (
  record q { buf = set q.buf q.tail m; tail = (q.tail + 1) % mq_capacity; count = q.count + 1 },
  ground arith,
  record {
    storage = length-set q.buf q.tail m ∙ v.storage;
    head_in = v.head_in;
    count_in = omega arith;
    tail_at = omega (arith, v.tail_at);
  },
  window-store_end (m ∷ []) q.buf mq_capacity empty_message q.count q.head q.tail
      (omega (arith, v.storage)) v.head_in (omega arith) v.tail_at,
)

-- A valid message queue that is not empty gives its oldest message and keeps the others, and
-- stays valid.
pub recv-messages :
    (q : MessageQueue)
    → IsValid q
    → 0 < q.count
    → (m : Message) × (q' : MessageQueue) × (recv q ≡ ok (m, q'))
      × IsValid q'
      × (messages q ≡ m ∷ messages q')
unfolding recv store
recv-messages q v pos =
    let c : suc (q.count - 1) ≡ q.count = omega arith in
    (
      get_or q.buf q.head empty_message,
      record q {
        buf = set q.buf q.head empty_message;
        head = (q.head + 1) % mq_capacity;
        count = q.count - 1;
      },
      ground arith,
      record {
        storage = length-set q.buf q.head empty_message ∙ v.storage;
        head_in = omega arith;
        count_in = omega (arith, v.count_in);
        tail_at = omega (arith, v.tail_at, v.head_in);
      },
      ap (window q.buf mq_capacity empty_message q.head) (sym c)
          ∙ ap (λ t. get_or q.buf q.head empty_message ∷ t)
              (sym (
                window-store_after (empty_message ∷ []) q.buf mq_capacity empty_message q.head
                  (q.count - 1) ((q.head + 1) % mq_capacity) (omega (arith, v.storage)) v.head_in
                  (omega (arith, v.count_in)) refl)),
    )
