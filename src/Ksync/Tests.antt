-- ===== src/Ksync/Tests.antt =====
-- kernel/ksync/src/lib.rs: two threads that want the lock.
use project_qlinux.Prelude.{ℕ, ◌≡◌, refl, true, arith, replicate}
use project_qlinux.Ksync.{
  SpinLock, outside, trying, spinning, goes, exchange, Reached, start, next, locking, exchanged,
  new_lock,
}
use project_qlinux.Ksync.Exclusion.{holding_alone}

abbrev start_state : SpinLock ℕ
start_state = new_lock 5 (replicate 2 outside)

abbrev waiting : SpinLock ℕ
waiting = goes start_state 1 trying

abbrev taken : SpinLock ℕ
taken = exchange waiting 1 spinning

taken_reached : Reached start_state taken
unfolding new_lock exchange
taken_reached =
    next start_state waiting taken
      (next start_state start_state waiting (start start_state) (locking start_state 1 refl))
      (exchanged waiting 1 refl (omega arith))

abbrev second : ℕ
second = 1

holding_alone_example : (second ≡ second) × (taken.locked ≡ true)
unfolding new_lock exchange
holding_alone_example = holding_alone 5 2 taken second second taken_reached refl refl
