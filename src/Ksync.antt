-- ===== src/Ksync.antt =====
-- kernel/ksync/src/lib.rs: the spin lock, as steps of threads that share it. One step is one access
-- to the flag or to the value behind it; steps of different threads interleave in any order.
-- `compare_exchange_weak` may fail though the flag is clear. `force_get_mut` is for a panic, when no
-- other thread runs, and is not a step.
pub mod Exclusion
mod Tests
use project_qlinux.Prelude.{
  ℕ, zero, suc, ◌+◌, ◌<◌, ◌≡◌, Bool, true, false, Option, none, some, List, [], ◌∷◌, length, get_or,
  set, if◌then◌else◌,
}

-- Where a thread is: outside, before `compare_exchange_weak`, in the inner loop, or with the guard.
pub data Phase : Type 0 where
  outside trying spinning holding : Phase

pub record SpinLock (T : Type 0) : Type 0 where
  pub locked : Bool
  pub value : T  -- the field `data`
  pub threads : List Phase

abbrev pub phase : {T : Type 0} → SpinLock T → ℕ → Phase
phase s i = get_or s.threads i outside

abbrev pub goes : {T : Type 0} → SpinLock T → ℕ → Phase → SpinLock T
goes s i p = record s { threads = set s.threads i p }

-- n threads, all outside.
unfoldable pub new_lock : {T : Type 0} → T → List Phase → SpinLock T
new_lock v threads = record { locked = false; value = v; threads = threads }

-- `compare_exchange(false, true)`: the thread has the guard, or goes to `otherwise`.
unfoldable pub exchange : {T : Type 0} → SpinLock T → ℕ → Phase → SpinLock T
exchange s i otherwise =
    if s.locked then goes s i otherwise else record (goes s i holding) { locked = true }

-- One look at the flag in the inner loop of `lock`.
unfoldable pub look : {T : Type 0} → SpinLock T → ℕ → SpinLock T
look s i = if s.locked then s else goes s i trying

-- `Drop` of the guard.
unfoldable pub unlock : {T : Type 0} → SpinLock T → ℕ → SpinLock T
unlock s i = record (goes s i outside) { locked = false }

pub data Step {T : Type 0} : SpinLock T → SpinLock T → Type 0 where
  locking : (s : SpinLock T) (i : ℕ) → phase s i ≡ outside → Step s (goes s i trying)
  exchanged :
      (s : SpinLock T) (i : ℕ)
      → phase s i ≡ trying
      → i < length s.threads
      → Step s (exchange s i spinning)
  failed : (s : SpinLock T) (i : ℕ) → phase s i ≡ trying → Step s (goes s i spinning)
  looked : (s : SpinLock T) (i : ℕ) → phase s i ≡ spinning → Step s (look s i)
  tried :
      (s : SpinLock T) (i : ℕ)
      → phase s i ≡ outside
      → i < length s.threads
      → Step s (exchange s i outside)
  wrote : (s : SpinLock T) (i : ℕ) (v : T) → phase s i ≡ holding → Step s (record s { value = v })
  unlocked : (s : SpinLock T) (i : ℕ) → phase s i ≡ holding → Step s (unlock s i)

-- Any number of steps.
pub data Reached {T : Type 0} : SpinLock T → SpinLock T → Type 0 where
  start : (s : SpinLock T) → Reached s s
  next : (s t u : SpinLock T) → Reached s t → Step t u → Reached s u
