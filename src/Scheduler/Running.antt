-- ===== src/Scheduler/Running.antt =====
-- Only the current task runs.
use project_qlinux.Prelude.{position-passes, replicate, ◌^◌}
use project_qlinux.Prelude.Words.{u64}
use native.Mathlib.Decide.{ℕ_discrete}
use project_qlinux.Prelude.{
  ℕ, zero, suc, ◌+◌, ◌-◌, ◌%◌, ◌<◌, ◌≡◌, ◌≢◌, refl, sym, ap, ◌∙◌, subst, true, ◌&&◌, Bool-cases,
  inl, inr, Option, none, some, List, [], ◌∷◌, arith, ltb, ◌==◌, length, get_or, set, position,
  get_or-set_self, get_or-set_ne, length-set,
}
use project_qlinux.Scheduler.{
  TaskState, vacant, ready, running, blocked, zombie, state_eq, CpuContext, TaskControlBlock,
  empty_task, Scheduler, task, set_task, set_state, max_tasks, default_timeslice, in_state,
  spawn_at, spawn, rotation, find_ready, switch_to, schedule, tick, block_current, unblock_at,
  unblock, boot, is_waiting, zero_context,
}

-- The table has its size, the current index is in it, and whatever runs is the current task.
pub record OnlyCurrent (s : Scheduler) : Type 0 where
  pub storage : length s.table ≡ max_tasks
  pub current_in : s.current < max_tasks
  pub only : (i : ℕ) → (task s i).state ≡ running → i ≡ s.current

-- One task is replaced: the others are as they were.
replace_only :
    (s : Scheduler) (i : ℕ) (t : TaskControlBlock) (c : ℕ)
    → i < length s.table
    → ((j : ℕ) → j ≢ i → (task s j).state ≡ running → j ≡ c)
    → (t.state ≡ running → i ≡ c)
    → ((j : ℕ) → (task (set_task s i t) j).state ≡ running → j ≡ c)
replace_only s i t c h others this j r = elim (ℕ_discrete i j) [
  | yes e ↦
      sym e
      ∙ this (
          ap (λ (x : TaskControlBlock). x.state)
            (sym (get_or-set_self s.table i t empty_task h)
              ∙ ap (λ k. get_or (set s.table i t) k empty_task) e)
          ∙ r)
  | no n ↦
      others j (λ e. n (sym e))
        (ap (λ (x : TaskControlBlock). x.state) (sym (get_or-set_ne s.table i j t empty_task n))
          ∙ r)
]

pub ready_in_table :
    (ts : List TaskControlBlock) (i : ℕ) → (get_or ts i empty_task).state ≡ ready → i < length ts
ready_in_table [] i e = absurd (ground arith)
ready_in_table (t ∷ ts) zero e = omega arith
ready_in_table (t ∷ ts) (suc i) e = omega (arith, ready_in_table ts i e)

state_eq_lem : (a b : TaskState) → state_eq a b ≡ true → a ≡ b
state_eq_lem vacant vacant e = refl
state_eq_lem ready ready e = refl
state_eq_lem running running e = refl
state_eq_lem blocked blocked e = refl
state_eq_lem zombie zombie e = refl
state_eq_lem _ _ e = absurd (ground arith)

some_index : (i j : ℕ) → some i ≡ some j → i ≡ j
some_index i j e = ground arith

-- What is found is ready.
pub find_ready-ready :
    (s : Scheduler) (is : List ℕ) (i : ℕ) → find_ready s is ≡ some i → (task s i).state ≡ ready
unfolding find_ready
find_ready-ready s [] i e = absurd (ground arith)
find_ready-ready s (j ∷ js) i e = elim (Bool-cases (state_eq (task s j).state ready)) [
  | inl y ↦
      subst (λ k. (task s k).state ≡ ready) (some_index j i (rw y at e))
        (state_eq_lem (task s j).state ready y)
  | inr n ↦ find_ready-ready s js i (rw n at e)
]

module _ (saved : CpuContext) where
  -- With nothing running, the switch starts one task at most, and it is the current one.
  switch_to-OnlyCurrent :
      (s : Scheduler) (o : Option ℕ)
      → length s.table ≡ max_tasks
      → s.current < max_tasks
      → ((i : ℕ) → (task s i).state ≢ running)
      → ((i : ℕ) → o ≡ some i → i < max_tasks)
      → OnlyCurrent (switch_to saved s o)
  switch_to-OnlyCurrent s none len cur idle inside = record {
    storage = len;
    current_in = cur;
    only = λ i r. absurd (idle i r);
  }
  switch_to-OnlyCurrent s (some i) len cur idle inside =
      let t : TaskControlBlock = record (task s i) { state = running } in
      let s' : Scheduler = set_task s i t in
      let len' : length s'.table ≡ max_tasks = length-set s.table i t ∙ len in
      let hi : i < max_tasks = inside i refl in
      let one =
        replace_only s i t i (omega (arith, len, hi)) (λ j n r. absurd (idle j r)) (λ r. refl) in
      record {
        storage = length-set s'.table s.current _ ∙ len';
        current_in = hi;
        only =
            replace_only s' s.current (record (task s' s.current) { context = saved }) i
              (omega (arith, len', cur)) (λ j n r. one j r) (λ r. one s.current r);
      }

  schedule-OnlyCurrent :
      (s : Scheduler)
      → length s.table ≡ max_tasks
      → s.current < max_tasks
      → ((i : ℕ) → (task s i).state ≢ running)
      → OnlyCurrent (schedule saved s)
  unfolding schedule
  schedule-OnlyCurrent s len cur idle =
      switch_to-OnlyCurrent s (find_ready s (rotation ((s.current + 1) % max_tasks))) len cur idle
        (λ i e. omega (arith, len, ready_in_table s.table i (find_ready-ready s _ i e)))

  ready_ne : ready ≢ running
  ready_ne e = ground arith

  blocked_ne : blocked ≢ running
  blocked_ne e = ground arith

  -- When the current task is put into another state, nothing runs.
  stopped :
      (s : Scheduler) (t : TaskControlBlock)
      → OnlyCurrent s
      → t.state ≢ running
      → (i : ℕ) → (task (set_task s s.current t) i).state ≢ running
  stopped s t v ne i r =
      let same : i ≡ s.current =
        replace_only s s.current t s.current (omega (arith, v.storage, v.current_in))
          (λ j n q. v.only j q) (λ q. refl) i r in
      ne (
        sym (
          ap (λ (x : TaskControlBlock). x.state)
            (get_or-set_self s.table s.current t empty_task
              (omega (arith, v.storage, v.current_in))))
        ∙ ap (λ k. (task (set_task s s.current t) k).state) (sym same)
        ∙ r)

  block_current-OnlyCurrent : (s : Scheduler) → OnlyCurrent s → OnlyCurrent (block_current saved s)
  unfolding block_current
  block_current-OnlyCurrent s v = elim (Bool-cases (ltb s.current max_tasks)) [
    | inl y ↦ rw y (
        schedule-OnlyCurrent (set_state s s.current blocked) (length-set s.table _ _ ∙ v.storage)
          v.current_in (stopped s _ v blocked_ne))
    | inr n ↦ absurd (ground (arith, v.current_in))
  ]

  tick-OnlyCurrent : (s : Scheduler) → OnlyCurrent s → OnlyCurrent (tick saved s)
  unfolding tick
  tick-OnlyCurrent s v =
      elim (Bool-cases (ltb s.current max_tasks && state_eq (task s s.current).state running)) [
        | inl y ↦ elim (Bool-cases ((task s s.current).timeslice - 1 == 0)) [
          | inl z ↦
              rw (y, z)
                (schedule-OnlyCurrent
                  (set_task s s.current
                    (record (task s s.current) { state = ready; timeslice = default_timeslice }))
                  (length-set s.table _ _ ∙ v.storage) v.current_in (stopped s _ v ready_ne))
          | inr z ↦
              rw (y, z)
                (record {
                  storage = length-set s.table _ _ ∙ v.storage;
                  current_in = v.current_in;
                  only =
                      replace_only s s.current
                        (record (task s s.current) { timeslice = (task s s.current).timeslice - 1 })
                        s.current (omega (arith, v.storage, v.current_in)) (λ j n q. v.only j q)
                        (λ q. refl);
                })
        ]
        | inr n ↦ rw n v
      ]

spawn_at-OnlyCurrent :
    (s : Scheduler) (e top size pr : ℕ) (o : Option ℕ)
    → OnlyCurrent s
    → position (in_state vacant) s.table ≡ o
    → OnlyCurrent (spawn_at s e top size pr o).0
spawn_at-OnlyCurrent s e top size pr none v h = v
spawn_at-OnlyCurrent s e top size pr (some i) v h =
    let p = position-passes (in_state vacant) empty_task s.table i h in
    record {
      storage = length-set s.table i _ ∙ v.storage;
      current_in = v.current_in;
      only =
          replace_only s i
            (record (task s i) {
              tid = s.next_tid;
              state = ready;
              stack_top = top;
              stack_size = size;
              timeslice = default_timeslice;
              priority = pr;
              entry = some e;
              context = record ((task s i).context) { rsp = u64 (top + size + (2 ^ 64 - 8)) };
            })
            s.current p.1 (λ j n q. v.only j q) (λ q. absurd (ready_ne zero_context q));
    }

unblock_at-OnlyCurrent :
    (s : Scheduler) (tid : ℕ) (o : Option ℕ)
    → OnlyCurrent s
    → position (is_waiting tid) s.table ≡ o
    → OnlyCurrent (unblock_at s o).0
unblock_at-OnlyCurrent s tid none v h = v
unblock_at-OnlyCurrent s tid (some i) v h =
    let p = position-passes (is_waiting tid) empty_task s.table i h in
    record {
      storage = length-set s.table i _ ∙ v.storage;
      current_in = v.current_in;
      only =
          replace_only s i (record (task s i) { state = ready }) s.current p.1 (λ j n q. v.only j q)
            (λ q. absurd (ready_ne zero_context q));
    }

-- The states that calls in any order lead to, from the empty table on.
pub data Reachable : Scheduler → Type 0 where
  booted : Reachable boot
  spawned :
      (s : Scheduler) (entry stack_top stack_size priority : ℕ)
      → Reachable s
      → Reachable (spawn s entry stack_top stack_size priority).0
  ticked : (saved : CpuContext) (s : Scheduler) → Reachable s → Reachable (tick saved s)
  blocked_one :
      (saved : CpuContext) (s : Scheduler) → Reachable s → Reachable (block_current saved s)
  unblocked : (s : Scheduler) (tid : ℕ) → Reachable s → Reachable (unblock s tid).0

pub none_runs : (n i : ℕ) → (get_or (replicate n empty_task) i empty_task).state ≢ running
none_runs zero i e = absurd (ground arith)
none_runs (suc n) zero e = absurd (ground arith)
none_runs (suc n) (suc i) e = none_runs n i e

-- After any sequence of spawn, tick, block_current and unblock from boot on, the table has 64
-- slots, the current index is in it, and a task that runs is the current one.
pub Reachable-OnlyCurrent : (s : Scheduler) → Reachable s → OnlyCurrent s
unfolding spawn unblock boot
Reachable-OnlyCurrent _ booted = record {
  storage = refl;
  current_in = omega arith;
  only = λ i r. absurd (none_runs max_tasks i r);
}
Reachable-OnlyCurrent _ (spawned s e top size pr r) =
    spawn_at-OnlyCurrent s e top size pr _ (Reachable-OnlyCurrent s r) refl
Reachable-OnlyCurrent _ (ticked saved s r) = tick-OnlyCurrent saved s (Reachable-OnlyCurrent s r)
Reachable-OnlyCurrent _ (blocked_one saved s r) =
    block_current-OnlyCurrent saved s (Reachable-OnlyCurrent s r)
Reachable-OnlyCurrent _ (unblocked s tid r) =
    unblock_at-OnlyCurrent s tid _ (Reachable-OnlyCurrent s r) refl
