-- ===== src/Scheduler/RoundRobin.antt =====
-- The scheduler finds a ready task wherever it stands in the table.
use native.Mathlib.Decide.{ℕ_discrete, dec_lt}
use project_qlinux.Prelude.{
  ℕ, zero, suc, ◌+◌, ◌-◌, ◌%◌, ◌≤◌, ◌<◌, ◌≡◌, ◌≢◌, refl, sym, ap, ◌∙◌, true, ◌&&◌, ltb, ◌==◌,
  Bool-cases, inl, inr, none, some, Option-cases, List, [], ◌∷◌, ◌++◌, arith, length, get_or, set,
  get_or-set_self, get_or-set_ne, length-set,
}
use project_qlinux.Scheduler.{
  ready, running, state_eq, CpuContext, TaskControlBlock, empty_task, Scheduler, task, set_task,
  max_tasks, default_timeslice, range, rotation, find_ready, switch_to, schedule, tick,
}
use project_qlinux.Scheduler.Running.{find_ready-ready, ready_in_table, OnlyCurrent}

none_append :
    (s : Scheduler) (xs ys : List ℕ)
    → find_ready s (xs ++ ys) ≡ none
    → (find_ready s xs ≡ none) × (find_ready s ys ≡ none)
unfolding find_ready
none_append s [] ys e = (refl, e)
none_append s (x ∷ xs) ys e = elim (Bool-cases (state_eq (task s x).state ready)) [
  | inl y ↦ absurd (ground (arith, rw y at e))
  | inr n ↦ let r = none_append s xs ys (rw n at e) in (rw n r.0, r.1)
]

none_ready :
    (s : Scheduler) (n lo j : ℕ)
    → find_ready s (range lo n) ≡ none
    → lo ≤ j
    → j < lo + n
    → (task s j).state ≢ ready
unfolding find_ready
none_ready s zero lo j e a b r = omega arith
none_ready s (suc n) lo j e a b r = elim (Bool-cases (state_eq (task s lo).state ready)) [
  | inl y ↦ absurd (ground (arith, rw y at e))
  | inr f ↦ elim (ℕ_discrete lo j) [
    | yes same ↦ absurd (ground (arith, f, r, ap (λ k. (task s k).state) same))
    | no other ↦ none_ready s n (lo + 1) j (rw f at e) (omega (arith, other)) (omega arith) r
  ]
]

-- Every slot is on the way round.
rotation-none :
    (s : Scheduler) (start j : ℕ)
    → start < max_tasks
    → j < max_tasks
    → find_ready s (rotation start) ≡ none
    → (task s j).state ≢ ready
rotation-none s start j a b e =
    let parts = none_append s (range start (max_tasks - start)) (range 0 start) e in
    elim (dec_lt j start) [
      | yes low ↦ none_ready s start 0 j parts.1 (omega arith) (omega arith)
      | no high ↦ none_ready s (max_tasks - start) start j parts.0 (omega arith) (omega arith)
    ]

module _ (saved : CpuContext) where
  switch_to-running :
      (s : Scheduler) (i : ℕ)
      → i < length s.table
      → s.current < length s.table
      → (task (switch_to saved s (some i)) i).state ≡ running
  switch_to-running s i h c =
      let t : TaskControlBlock = record (task s i) { state = running } in
      let s' : Scheduler = set_task s i t in
      let started : (task s' i).state ≡ running =
        ap (λ (x : TaskControlBlock). x.state) (get_or-set_self s.table i t empty_task h) in
      let u : TaskControlBlock = record (task s' s.current) { context = saved } in
      elim (ℕ_discrete s.current i) [
        | yes e ↦
            ap (λ k. (get_or (set s'.table s.current u) k empty_task).state) (sym e)
            ∙ ap (λ (x : TaskControlBlock). x.state)
                (get_or-set_self s'.table s.current u empty_task
                  (omega (arith, c, length-set s.table i t)))
            ∙ ap (λ k. (task s' k).state) e
            ∙ started
        | no n ↦
            ap (λ (x : TaskControlBlock). x.state)
              (get_or-set_ne s'.table s.current i u empty_task n)
            ∙ started
      ]

  -- In a table of 64 slots with the current index in it, if some task is ready, then after
  -- schedule the current task is one that was ready, and it runs.
  pub schedule-running :
      (s : Scheduler) (j : ℕ)
      → length s.table ≡ max_tasks
      → s.current < max_tasks
      → (task s j).state ≡ ready
      → let s' = schedule saved s in
        ((task s s'.current).state ≡ ready) × ((task s' s'.current).state ≡ running)
  unfolding schedule
  schedule-running s j len cur r =
      let start : ℕ = (s.current + 1) % max_tasks in
      elim (Option-cases (find_ready s (rotation start))) [
        | inl e ↦ absurd (
            rotation-none s start j (omega arith) (omega (arith, len, ready_in_table s.table j r)) e
              r)
        | inr e ↦
            let found = find_ready-ready s (rotation start) e.0 e.1 in
            rw e.1 (found, switch_to-running s e.0 (ready_in_table s.table e.0 found) (omega arith))
      ]

  -- If only the current task runs, and it does, then after a tick the task that is current runs,
  -- whether the timeslice ended or not.
  pub tick-running :
      (s : Scheduler)
      → OnlyCurrent s
      → (task s s.current).state ≡ running
      → let s' = tick saved s in (task s' s'.current).state ≡ running
  unfolding tick
  tick-running s v r =
      let h : s.current < length s.table = omega (arith, v.storage, v.current_in) in
      let back : TaskControlBlock = record (task s s.current) {
        state = ready;
        timeslice = default_timeslice;
      } in
      let less : TaskControlBlock = record (task s s.current) {
        timeslice = (task s s.current).timeslice - 1;
      } in
      let state_of : (t : TaskControlBlock)
          → (task (set_task s s.current t) s.current).state ≡ t.state =
        λ t.
          ap (λ (x : TaskControlBlock). x.state)
            (get_or-set_self s.table s.current t empty_task h) in
      let y : ltb s.current max_tasks && state_eq (task s s.current).state running ≡ true =
        ground (arith, v.current_in, r) in
      elim (Bool-cases ((task s s.current).timeslice - 1 == 0)) [
        | inl z ↦
            rw (y, z)
              (schedule-running (set_task s s.current back) s.current
                (length-set s.table _ _ ∙ v.storage) v.current_in (state_of back)).1
        | inr z ↦ rw (y, z) (state_of less ∙ r)
      ]
