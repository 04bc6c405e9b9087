-- ===== src/Syscall/Numbers.antt =====
-- kernel/syscall/src/lib.rs: the number of each call, and which of its arguments is a pointer.
use project_qlinux.Prelude.{
  ℕ, zero, suc, ◌+◌, ◌<◌, ◌≡◌, refl, sym, ap, ◌∙◌, Bool, true, false, ◌&&◌, ◌||◌, Option, none,
  some, List, [], ◌∷◌, arith, ltb, ◌==◌, if◌then◌else◌, length, get_elem?,
}
use project_qlinux.Syscall.{Kernel, Call, number, calls, max_syscall}
use project_qlinux.Syscall.Pointers.{IsUserRange}

-- The address and the size that the call with number `nr` has to check, if there are any: read,
-- write, qtls_send and qtls_recv take a buffer that may be empty, open the first byte of a path,
-- and the two calls of IPC a message of 264 bytes.
unfoldable pub pointer : ℕ → ℕ → ℕ → ℕ → Option (ℕ × ℕ)
pointer nr a0 a1 a2 =
    if nr == 0 || nr == 1 || (nr == 15 || nr == 16)
    then (if a2 == 0 then none else some (a1, a2))
    else if nr == 2
    then some (a0, 1)
    else if nr == 8 || nr == 9
    then some (a1, 264)
    else none

-- The call has a pointer, and what it points to is not user memory.
abbrev pub BadPointer : {D : Type 0} → Kernel D → ℕ → ℕ → ℕ → ℕ → Type 0
BadPointer k nr a0 a1 a2 =
    (ptr : ℕ) × (size : ℕ) × (pointer nr a0 a1 a2 ≡ some (ptr, size)) × (IsUserRange k ptr size → ⊥)

pub pointer-none : (nr a0 a1 a2 : ℕ) → max_syscall < nr → pointer nr a0 a1 a2 ≡ none
unfolding pointer
pointer-none nr a0 a1 a2 h = ground (arith, h)

-- The calls of a list are numbered from `base` on.
abbrev numbered : ℕ → List Call → Bool
numbered base [] = true
numbered base (c ∷ cs) = number c == base && numbered (base + 1) cs

numbers_from :
    (cs : List Call) (base i : ℕ) (c : Call)
    → numbered base cs ≡ true
    → get_elem? cs i ≡ some c
    → number c ≡ base + i
numbers_from [] base i c n e = absurd (ground (arith, e))
numbers_from (d ∷ cs) base zero c n e = ap number (sym (some_injective d c e)) ∙ (ground (arith, n))
  where
    some_injective : (d c : Call) → some d ≡ some c → d ≡ c
    some_injective d c e = cc
numbers_from (d ∷ cs) base (suc i) c n e =
    numbers_from cs (base + 1) i c (ground (arith, n)) e ∙ (omega arith)

-- The arm for a number is the call with that number.
pub call_number : (nr : ℕ) (c : Call) → get_elem? calls nr ≡ some c → number c ≡ nr
call_number nr c e = numbers_from calls 0 nr c refl e ∙ (omega arith)

in_range : (cs : List Call) (i : ℕ) → i < length cs → (c : Call) × (get_elem? cs i ≡ some c)
in_range [] i h = absurd (omega arith)
in_range (c ∷ cs) zero h = (c, refl)
in_range (c ∷ cs) (suc i) h = in_range cs i (omega arith)

-- Every number up to the last has its arm.
pub call_at : (nr : ℕ) → ltb max_syscall nr ≡ false → (c : Call) × (get_elem? calls nr ≡ some c)
call_at nr h = in_range calls nr (ground (arith, h))
