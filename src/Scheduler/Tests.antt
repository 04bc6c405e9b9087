-- ===== src/Scheduler/Tests.antt =====
-- Concrete runs of the theorems on the scheduler.
use project_qlinux.Prelude.{ℕ, zero, suc, ◌≡◌, refl, arith, ◌∷◌, replicate}
use project_qlinux.Scheduler.{
  ready, running, TaskControlBlock, empty_task, zero_context, Scheduler, boot, spawn, tick,
  block_current, task,
}
use project_qlinux.Scheduler.Running.{
  none_runs, OnlyCurrent, Reachable, booted, spawned, blocked_one, Reachable-OnlyCurrent,
}
use project_qlinux.Scheduler.RoundRobin.{tick-running}

-- Two tasks are started, and the boot code blocks.
abbrev two_tasks : Scheduler
two_tasks =
    block_current zero_context (spawn (spawn boot 0x1000 0x8000 4096 1).0 0x2000 0x9000 4096 1).0

two_tasks-Reachable : Reachable two_tasks
two_tasks-Reachable =
    blocked_one zero_context _
      (spawned _ 0x2000 0x9000 4096 1 (spawned _ 0x1000 0x8000 4096 1 booted))

Reachable-OnlyCurrent_example : OnlyCurrent two_tasks
Reachable-OnlyCurrent_example = Reachable-OnlyCurrent two_tasks two_tasks-Reachable

abbrev busy : TaskControlBlock
busy = record empty_task { tid = 1; state = running; timeslice = 1 }

abbrev waiting : TaskControlBlock
waiting = record empty_task { tid = 2; state = ready }

abbrev mixed : Scheduler
mixed = record {
  table = busy ∷ waiting ∷ waiting ∷ replicate 61 empty_task;
  next_tid = 4;
  current = 0;
}

alone : (i : ℕ) → (task mixed i).state ≡ running → i ≡ 0
alone zero r = refl
alone (suc zero) r = absurd (ground arith)
alone (suc (suc zero)) r = absurd (ground arith)
alone (suc (suc (suc i))) r = absurd (none_runs 61 i r)

tick-running_example :
    (task (tick zero_context mixed) (tick zero_context mixed).current).state ≡ running
tick-running_example =
    tick-running zero_context mixed
      (record { storage = refl; current_in = omega arith; only = alone }) refl
