-- ===== src/Ipc/Tests.antt =====
-- Concrete runs of the theorems on message queues and pipes.
use project_qlinux.Prelude.{
  ℕ, ◌≡◌, refl, List, [], ◌∷◌, arith, take, drop, overwrite, replicate, length-replicate,
}
use project_qlinux.Ipc.{MessageQueue, empty_message, mq_capacity, Pipe, pipe_buf_size, read}
use project_qlinux.Ipc.Queue.{messages, new_queue-IsValid, send-messages, recv-messages}
use project_qlinux.Ipc.Queue
use project_qlinux.Ipc.Stream.{IsValid, contents, read-contents}

abbrev holding : MessageQueue
holding = record { buf = replicate mq_capacity empty_message; head = 31; tail = 1; count = 2 }

holding-IsValid : Queue.IsValid holding
holding-IsValid = record {
  storage = refl;
  head_in = omega arith;
  count_in = omega arith;
  tail_at = refl;
}

-- A pipe about to go round its end.
abbrev pipe : Pipe
pipe = record { buf = replicate pipe_buf_size 5; head = 4090; tail = 4094; count = 4 }

pipe-IsValid : IsValid pipe
pipe-IsValid = record {
  storage = length-replicate {A = ℕ} pipe_buf_size 5;
  head_in = omega arith;
  count_in = omega arith;
  tail_at = refl;
}

abbrev buffer : List ℕ
buffer = 0 ∷ 0 ∷ 0 ∷ []

read-contents_example :
    (p' : Pipe) × (read pipe buffer ≡ (3, overwrite (take 3 (contents pipe)) buffer, p'))
    × IsValid p'
    × (contents p' ≡ drop 3 (contents pipe))
read-contents_example = read-contents pipe buffer pipe-IsValid
