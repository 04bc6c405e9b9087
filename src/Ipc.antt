-- ===== src/Ipc.antt =====
-- kernel/ipc/src/lib.rs: message queues and pipes. The atomic counters are read and written by one
-- thread, as the `&mut self` of the methods says.
pub mod Queue
pub mod Stream
mod Tests
use project_qlinux.Prelude.{
  ℕ, zero, suc, ◌+◌, ◌-◌, ◌%◌, Bool, Option, none, some, List, [], ◌∷◌, ltb, leb, ◌==◌,
  if◌then◌else◌, length, get_or, set, take, replicate, overwrite, min, Result, ok, err,
}
use project_qlinux.Prelude.Ring.{store}

abbrev pub mq_capacity : ℕ
mq_capacity = 32

abbrev pub max_msg_payload : ℕ
max_msg_payload = 256

abbrev pub pipe_buf_size : ℕ
pipe_buf_size = 4096

pub data IpcError : Type 0 where
  queue_full queue_empty would_block payload_too_large semaphore_overflow : IpcError

pub record Message : Type 0 where
  pub sender_tid : ℕ
  pub msg_type : ℕ
  pub payload_len : ℕ
  pub payload : List ℕ

abbrev pub empty_message : Message
empty_message = record {
  sender_tid = 0;
  msg_type = 0;
  payload_len = 0;
  payload = replicate max_msg_payload 0;
}

unfoldable pub set_payload : Message → List ℕ → Result IpcError Message
set_payload m bytes =
    if ltb max_msg_payload (length bytes)
    then err payload_too_large
    else ok (record m { payload_len = length bytes; payload = overwrite bytes m.payload })

unfoldable pub payload_bytes : Message → List ℕ
payload_bytes m = take m.payload_len m.payload

pub record MessageQueue : Type 0 where
  pub buf : List Message
  pub head : ℕ
  pub tail : ℕ
  pub count : ℕ

unfoldable pub new_queue : MessageQueue
new_queue = record { buf = replicate mq_capacity empty_message; head = 0; tail = 0; count = 0 }

unfoldable pub send : MessageQueue → Message → Result IpcError MessageQueue
send q msg =
    if leb mq_capacity q.count
    then err queue_full
    else ok (record q {
      buf = set q.buf q.tail msg;
      tail = (q.tail + 1) % mq_capacity;
      count = q.count + 1;
    })

-- The slot is emptied behind the message, and wiped once more.
unfoldable pub recv : MessageQueue → Result IpcError (Message × MessageQueue)
recv q =
    if q.count == 0
    then err queue_empty
    else ok (
      get_or q.buf q.head empty_message,
      record q {
        buf = set q.buf q.head empty_message;
        head = (q.head + 1) % mq_capacity;
        count = q.count - 1;
      },
    )

pub record Pipe : Type 0 where
  pub buf : List ℕ
  pub head : ℕ
  pub tail : ℕ
  pub count : ℕ

unfoldable pub new_pipe : Pipe
new_pipe = record { buf = replicate pipe_buf_size 0; head = 0; tail = 0; count = 0 }

-- The loop of `write`: each byte goes to `tail`, which moves on.
unfoldable pub write_bytes : Pipe → List ℕ → Pipe
write_bytes p [] = p
write_bytes p (b ∷ bs) =
    write_bytes (record p { buf = set p.buf p.tail b; tail = (p.tail + 1) % pipe_buf_size }) bs

-- The number of bytes taken in, and the pipe.
unfoldable pub write : Pipe → List ℕ → ℕ × Pipe
unfolding write_bytes
write p bytes =
    let to_write = min (length bytes) (pipe_buf_size - p.count) in
    let p' = write_bytes p (take to_write bytes) in
    (to_write, record p' { count = p'.count + to_write })

-- The loop of `read`: each byte is copied and overwritten by 0.
unfoldable pub read_bytes : ℕ → Pipe → List ℕ × Pipe
read_bytes zero p = ([], p)
read_bytes (suc n) p =
    let rest =
      read_bytes n (record p { buf = set p.buf p.head 0; head = (p.head + 1) % pipe_buf_size }) in
    (get_or p.buf p.head 0 ∷ rest.0, rest.1)

-- The number of bytes, the buffer and the pipe.
unfoldable pub read : Pipe → List ℕ → ℕ × List ℕ × Pipe
unfolding read_bytes
read p dst =
    let to_read = min (length dst) p.count in
    let r = read_bytes to_read p in
    (to_read, overwrite r.0 dst, record r.1 { count = r.1.count - to_read })
