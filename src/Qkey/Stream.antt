-- ===== src/Qkey/Stream.antt =====
-- A lane as a sliding window of the key stream: the bytes deposited so far, in order. The byte at
-- an absolute offset is the byte of the stream there, whatever was consumed or dropped before.
use project_qlinux.Prelude.{
  ℕ, ◌+◌, ◌-◌, ◌%◌, ◌^◌, ◌≤◌, ◌<◌, ◌≡◌, refl, sym, ap, ◌∙◌, List, [], ◌∷◌, ◌++◌, arith, length,
  drop, take as take_first, max, ok, err, if◌then◌else◌, ltb, ◌==◌, length-append, drop-drop,
  drop-append_le, Bool-cases, inl, inr, true, false,
}
use project_qlinux.Prelude.Ring.{window, take-window, drop-window}
use project_qlinux.Qkey.{
  KeyLane, new, lane_capacity, insufficient_key, already_consumed, empty_input, deposit, take,
  peek_at, consume_through, discard, copy_out,
}
use project_qlinux.Qkey.Valid.{
  IsValid, new-IsValid, contents, append_key, contents-append_key, append_key-IsValid,
  discard-IsValid, contents-discard, discard_lem,
}

-- The lane holds the stream from its base on; the stream is shorter than the u64 offsets.
pub record Tracks (stream : List ℕ) (l : KeyLane) : Type 0 where
  pub valid : IsValid l
  pub ends : l.base + l.count ≡ length stream
  pub holds : contents l ≡ drop l.base stream
  pub fits : length stream < 2 ^ 64

-- Reading inside the window reads the stream.
copy_out_lem :
    (s : List ℕ) (l : KeyLane) (skip n : ℕ)
    → Tracks s l
    → skip + n ≤ l.count
    → copy_out l skip n ≡ take_first n (drop (l.base + skip) s)
unfolding copy_out
copy_out_lem s l skip n t h =
    let rest : ℕ = l.count - (skip + n) in
    let e : skip + (n + rest) ≡ l.count = omega arith in
    sym (take-window l.buf lane_capacity 0 ((l.read + skip) % lane_capacity) n rest (omega arith))
    ∙ ap (take_first n) (
        sym (drop-window l.buf lane_capacity 0 l.read skip (n + rest) t.valid.read_in)
        ∙ ap (λ k. drop skip (window l.buf lane_capacity 0 l.read k)) e
        ∙ ap (drop skip) t.holds
        ∙ drop-drop skip l.base s)

-- A new lane tracks the empty stream.
pub new-Tracks : Tracks [] new
unfolding new
new-Tracks = record { valid = new-IsValid; ends = refl; holds = refl; fits = omega arith }

-- Passing bytes moves the base and nothing else.
pub discard-Tracks :
    (s : List ℕ) (l : KeyLane) (n : ℕ)
    → Tracks s l
    → n ≤ l.count
    → Tracks s (discard l n)
      × ((discard l n).base ≡ l.base + n)
      × ((discard l n).count ≡ l.count - n)
discard-Tracks s l n t h =
    let d = discard_lem n l t.valid.read_in in
    let b : (discard l n).base ≡ l.base + n =
      ap (λ k. k.base) d ∙ (omega (arith, t.fits, t.ends)) in
    let c : (discard l n).count ≡ l.count - n = ap (λ k. k.count) d in
    (
      record {
        valid = discard-IsValid n l t.valid h;
        ends = omega (arith, b, c, t.ends);
        holds =
            contents-discard n l t.valid h
            ∙ ap (drop n) t.holds
            ∙ drop-drop n l.base s
            ∙ ap (λ k. drop k s) (sym b);
        fits = t.fits;
      },
      b,
      c,
    )

-- For a lane that tracks a stream and any offset and length, peek_at answers EmptyInput for no
-- bytes, AlreadyConsumed below the base, InsufficientKey past the end of the stream, and else
-- those bytes of the stream.
pub peek_at-stream :
    (s : List ℕ) (l : KeyLane) (offset n : ℕ)
    → Tracks s l
    → peek_at l offset n ≡ (
        if n == 0
        then err empty_input
        else if ltb offset l.base
        then err already_consumed
        else if ltb (length s) (offset + n)
        then err insufficient_key
        else ok (take_first n (drop offset s)))
unfolding peek_at
peek_at-stream s l offset n t =
    ground (arith, t.ends, t.fits, copy_out_lem s l (offset - l.base) n t)

pub consume_through-stream :
    (s : List ℕ) (l : KeyLane) (offset n : ℕ)
    → Tracks s l
    → consume_through l offset n ≡ (
        if ltb offset l.base
        then err already_consumed
        else if ltb (length s) (offset + n)
        then err insufficient_key
        else ok (discard l (offset - l.base + n)))
unfolding consume_through
consume_through-stream s l offset n t = ground (arith, t.ends, t.fits)

pub take-stream :
    (s : List ℕ) (l : KeyLane) (n : ℕ)
    → Tracks s l
    → take l n ≡ (
        if n == 0
        then err empty_input
        else if ltb (length s) (l.base + n)
        then err insufficient_key
        else ok (l.base, take_first n (drop l.base s), discard l n))
unfolding take
take-stream s l n t = ground (
  arith,
  t.ends,
  copy_out_lem s l 0 n t,
  ap (λ k. take_first n (drop k s)) {x = l.base + 0} {y = l.base} (omega arith),
)

-- A lane with room for the key block takes it at the end of its stream.
append_key-Tracks :
    (s : List ℕ) (l : KeyLane) (key : List ℕ)
    → Tracks s l
    → l.count + length key ≤ lane_capacity
    → length s + length key < 2 ^ 64
    → Tracks (s ++ key) (append_key l key)
unfolding append_key
append_key-Tracks s l key t room small =
    let grown : length (s ++ key) ≡ length s + length key = length-append s key in
    record {
      valid = append_key-IsValid l key t.valid room;
      ends = omega (arith, grown, t.ends);
      holds =
          contents-append_key l key t.valid room
          ∙ ap (λ k. k ++ key) t.holds
          ∙ sym (drop-append_le l.base s key (omega (arith, t.ends)));
      fits = omega (arith, grown);
    }

-- What `deposit` does to a block that is neither empty nor too large.
deposit-cons :
    (l : KeyLane) (x : ℕ) (xs : List ℕ)
    → length (x ∷ xs) ≤ lane_capacity
    → deposit l (x ∷ xs)
      ≡ ok (
          append_key
            (if ltb 0 (l.count + length (x ∷ xs) - lane_capacity)
              then discard l (l.count + length (x ∷ xs) - lane_capacity)
              else l)
            (x ∷ xs))
unfolding deposit append_key
deposit-cons l x xs h = ground arith

ltb_pos : (n : ℕ) → ltb 0 n ≡ true → 0 < n
ltb_pos n h = ground arith

ltb_zero : (n : ℕ) → ltb 0 n ≡ false → n ≡ 0
ltb_zero n h = ground arith

-- A lane that tracks a key stream accepts every block of 1 to 16384 bytes if the stream stays
-- shorter than 2 ^ 64; it then tracks the longer stream, and its base is the larger of the old
-- one and the stream's length less the capacity.
pub deposit-Tracks :
    (s : List ℕ) (l : KeyLane) (key : List ℕ)
    → Tracks s l
    → 0 < length key
    → length key ≤ lane_capacity
    → length s + length key < 2 ^ 64
    → (l' : KeyLane) × (deposit l key ≡ ok l')
      × Tracks (s ++ key) l'
      × (l'.base ≡ max l.base (length s + length key - lane_capacity))
deposit-Tracks s l [] t pos fits small = absurd (omega arith)
deposit-Tracks s l (x ∷ xs) t pos fits small =
    let n : ℕ = length (x ∷ xs) in
    let over : ℕ = l.count + n - lane_capacity in
    let d = discard-Tracks s l over t (omega (arith, t.valid.count_in)) in
    let step = deposit-cons l x xs fits in
    elim (Bool-cases (ltb 0 over)) [
      | inl full ↦ (
        append_key (discard l over) (x ∷ xs),
        step ∙ rw full,
        append_key-Tracks s (discard l over) (x ∷ xs) d.0
            (omega (arith, d.2, t.valid.count_in, ltb_pos over full)) small,
        unfold append_key in omega (arith, d.1, t.ends, ltb_pos over full),
      )
      | inr free ↦ (
        append_key l (x ∷ xs),
        step ∙ rw free,
        append_key-Tracks s l (x ∷ xs) t (omega (arith, ltb_zero over free)) small,
        unfold append_key in omega (arith, t.ends, ltb_zero over free),
      )
    ]

-- If at least n bytes of the stream are left and n is not 0, take gives the base as offset with
-- the next n bytes of the stream, and the lane tracks the stream from n bytes on.
pub take-Tracks :
    (s : List ℕ) (l : KeyLane) (n : ℕ)
    → Tracks s l
    → 0 < n
    → l.base + n ≤ length s
    → (l' : KeyLane) × (take l n ≡ ok (l.base, take_first n (drop l.base s), l'))
      × Tracks s l'
      × (l'.base ≡ l.base + n)
take-Tracks s l n t pos fits =
    let d = discard-Tracks s l n t (omega (arith, t.ends)) in
    (discard l n, ground (arith, take-stream s l n t), d.0, d.1)

-- For an offset not below the base and a range inside the stream, consume_through succeeds, the
-- lane still tracks the stream, and its base is the end of the range.
pub consume_through-Tracks :
    (s : List ℕ) (l : KeyLane) (offset n : ℕ)
    → Tracks s l
    → l.base ≤ offset
    → offset + n ≤ length s
    → (l' : KeyLane) × (consume_through l offset n ≡ ok l') × Tracks s l' × (l'.base ≡ offset + n)
consume_through-Tracks s l offset n t low fits =
    let m : ℕ = offset - l.base + n in
    let d = discard-Tracks s l m t (omega (arith, t.ends)) in
    (discard l m, ground (arith, consume_through-stream s l offset n t), d.0, omega (arith, d.1))
