-- ===== src/Scheduler.antt =====
-- kernel/scheduler/src/lib.rs: the table of tasks and round-robin scheduling. The static variables
-- are one record; the calls run with interrupts off, so each is one step. `saved` stands for the
-- registers that the assembly of `context_switch` stores into the task that is left.
pub mod Running
pub mod RoundRobin
mod Tests
use project_qlinux.Prelude.{
  ℕ, zero, suc, ◌+◌, ◌-◌, ◌%◌, ◌^◌, Bool, true, false, ◌&&◌, Option, none, some, List, [], ◌∷◌,
  ◌++◌, ltb, ◌==◌, if◌then◌else◌, length, get_or, set, position, replicate, Result, ok, err,
}
use project_qlinux.Prelude.Words.{u32, u64}

abbrev pub max_tasks : ℕ
max_tasks = 64

abbrev pub default_timeslice : ℕ
default_timeslice = 10

-- `Empty` is `vacant` here.
pub data TaskState : Type 0 where
  vacant ready running blocked zombie : TaskState

abbrev pub state_eq : TaskState → TaskState → Bool
state_eq vacant vacant = true
state_eq ready ready = true
state_eq running running = true
state_eq blocked blocked = true
state_eq zombie zombie = true
state_eq _ _ = false

pub record CpuContext : Type 0 where
  pub rsp : ℕ
  pub r15 : ℕ
  pub r14 : ℕ
  pub r13 : ℕ
  pub r12 : ℕ
  pub rbp : ℕ
  pub rbx : ℕ

abbrev pub zero_context : CpuContext
zero_context = record { rsp = 0; r15 = 0; r14 = 0; r13 = 0; r12 = 0; rbp = 0; rbx = 0 }

pub record TaskControlBlock : Type 0 where
  pub tid : ℕ
  pub state : TaskState
  pub context : CpuContext
  pub stack_top : ℕ
  pub stack_size : ℕ
  pub timeslice : ℕ
  pub priority : ℕ
  pub entry : Option ℕ  -- the address of the function

abbrev pub empty_task : TaskControlBlock
empty_task = record {
  tid = 0;
  state = vacant;
  context = zero_context;
  stack_top = 0;
  stack_size = 0;
  timeslice = default_timeslice;
  priority = 128;
  entry = none;
}

-- The timeslice, the priority and the id stay.
unfoldable pub zeroize_and_release : TaskControlBlock → TaskControlBlock
zeroize_and_release t = record t {
  context = zero_context;
  stack_top = 0;
  stack_size = 0;
  entry = none;
  state = vacant;
}

pub data SpawnError : Type 0 where
  no_slot not_found : SpawnError

pub record Scheduler : Type 0 where
  pub table : List TaskControlBlock
  pub next_tid : ℕ
  pub current : ℕ

unfoldable pub boot : Scheduler
boot = record { table = replicate max_tasks empty_task; next_tid = 1; current = 0 }

abbrev pub task : Scheduler → ℕ → TaskControlBlock
task s i = get_or s.table i empty_task

abbrev pub set_task : Scheduler → ℕ → TaskControlBlock → Scheduler
set_task s i t = record s { table = set s.table i t }

abbrev pub set_state : Scheduler → ℕ → TaskState → Scheduler
set_state s i st = set_task s i (record (task s i) { state = st })

abbrev pub in_state : TaskState → TaskControlBlock → Bool
in_state st t = state_eq t.state st

abbrev pub spawn_at : Scheduler → ℕ → ℕ → ℕ → ℕ → Option ℕ → Scheduler × Result SpawnError ℕ
spawn_at s entry stack_top stack_size priority none = (s, err no_slot)
spawn_at s entry stack_top stack_size priority (some i) =
    let t = task s i in
    (
      record s {
        table = set s.table i (record t {
          tid = s.next_tid;
          state = ready;
          stack_top = stack_top;
          stack_size = stack_size;
          timeslice = default_timeslice;
          priority = priority;
          entry = some entry;
          context = record (t.context) { rsp = u64 (stack_top + stack_size + (2 ^ 64 - 8)) };
        });
        next_tid = u32 (s.next_tid + 1);
      },
      ok s.next_tid,
    )

unfoldable pub spawn : Scheduler → ℕ → ℕ → ℕ → ℕ → Scheduler × Result SpawnError ℕ
spawn s entry stack_top stack_size priority =
    spawn_at s entry stack_top stack_size priority (position (in_state vacant) s.table)

-- `lo`, `lo + 1`, ..., `n` numbers.
abbrev pub range : ℕ → ℕ → List ℕ
range lo zero = []
range lo (suc n) = lo ∷ range (lo + 1) n

-- `(start..MAX_TASKS).chain(0..start)`
abbrev pub rotation : ℕ → List ℕ
rotation start = range start (max_tasks - start) ++ range 0 start

unfoldable pub find_ready : Scheduler → List ℕ → Option ℕ
find_ready s [] = none
find_ready s (i ∷ is) =
    let rest = find_ready s is in if state_eq (task s i).state ready then some i else rest

module _ (saved : CpuContext) where
  -- The task found runs; the registers go into the task that was current.
  abbrev pub switch_to : Scheduler → Option ℕ → Scheduler
  switch_to s none = s
  switch_to s (some i) =
      let s' = set_state s i running in
      let left = set_task s' s.current (record (task s' s.current) { context = saved }) in
      record left { current = i }

  unfoldable pub schedule : Scheduler → Scheduler
  unfolding find_ready
  schedule s = switch_to s (find_ready s (rotation ((s.current + 1) % max_tasks)))

  -- At the end of its timeslice the task is ready again, and the next one is looked for.
  unfoldable pub tick : Scheduler → Scheduler
  unfolding schedule
  tick s =
      let t = task s s.current in
      let left = t.timeslice - 1 in
      let expired =
        schedule
          (set_task s s.current (record t { state = ready; timeslice = default_timeslice })) in
      let shorter = set_task s s.current (record t { timeslice = left }) in
      if ltb s.current max_tasks && state_eq t.state running
      then if left == 0 then expired else shorter
      else s

  unfoldable pub block_current : Scheduler → Scheduler
  unfolding schedule
  block_current s = schedule (if ltb s.current max_tasks then set_state s s.current blocked else s)

abbrev pub is_waiting : ℕ → TaskControlBlock → Bool
is_waiting tid t = t.tid == tid && state_eq t.state blocked

abbrev pub unblock_at : Scheduler → Option ℕ → Scheduler × Result SpawnError (Unit {0})
unblock_at s none = (s, err not_found)
unblock_at s (some i) = (set_state s i ready, ok tt)

unfoldable pub unblock : Scheduler → ℕ → Scheduler × Result SpawnError (Unit {0})
unblock s tid = unblock_at s (position (is_waiting tid) s.table)
