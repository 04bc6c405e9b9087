-- ===== src/Qkey/Valid.antt =====
-- The ring of a lane: what `discard`, `deposit` and `wipe` do to the bytes held and to the slots
-- that hold none, which stay zero.
use project_qlinux.Prelude.{
  ℕ, zero, suc, ◌+◌, ◌-◌, ◌%◌, ◌^◌, ◌≤◌, ◌<◌, ◌≡◌, refl, sym, ap, ap₂, ◌∙◌, List, ◌++◌, arith,
  length, set, drop, replicate, length-replicate, drop-append,
}
use project_qlinux.Prelude.Ring.{
  window, store, length-store, window-store_end, window-store_after, drop-window, window-replicate,
  replicate-append,
}
use project_qlinux.Qkey.{KeyLane, lane_capacity, discard_bytes, discard, wipe, new}

-- The bytes held, oldest first.
abbrev pub contents : KeyLane → List ℕ
contents l = window l.buf lane_capacity 0 l.read l.count

-- The slots that hold no byte, going round from the write index.
abbrev pub vacant : KeyLane → List ℕ
vacant l =
    window l.buf lane_capacity 0 ((l.read + l.count) % lane_capacity) (lane_capacity - l.count)

pub record IsValid (l : KeyLane) : Type 0 where
  pub storage : length l.buf ≡ lane_capacity
  pub read_in : l.read < lane_capacity
  pub count_in : l.count ≤ lane_capacity
  pub wiped : vacant l ≡ replicate (lane_capacity - l.count) 0

abbrev pub after_discard : KeyLane → ℕ → KeyLane
after_discard l n = record l {
  buf = store lane_capacity l.buf l.read (replicate n 0);
  read = (l.read + n) % lane_capacity;
}

abbrev moved : KeyLane → ℕ → KeyLane
moved l i = record l { read = i }

-- The loop of `discard` in closed form.
discard_bytes_lem :
    (n : ℕ) (l : KeyLane) → l.read < lane_capacity → discard_bytes n l ≡ after_discard l n
unfolding discard_bytes store
discard_bytes_lem zero l h = ap (λ t. moved l t) (omega arith)
discard_bytes_lem (suc n) l h =
    discard_bytes_lem n (record l { buf = set l.buf l.read 0; read = (l.read + 1) % lane_capacity })
      (omega arith)
    ∙ ap (λ t. moved (after_discard l (suc n)) t) (omega arith)

abbrev pub passed : KeyLane → ℕ → KeyLane
passed l n = record l { count = l.count - n; base = (l.base + n) % 2 ^ 64 }

pub discard_lem :
    (n : ℕ) (l : KeyLane) → l.read < lane_capacity → discard l n ≡ passed (after_discard l n) n
unfolding discard
discard_lem n l h = ap (λ t. passed t n) (discard_bytes_lem n l h)

-- The slots just passed join the vacant ones, and the bytes behind them stay.
pub contents-discard :
    (n : ℕ) (l : KeyLane) → IsValid l → n ≤ l.count → contents (discard l n) ≡ drop n (contents l)
contents-discard n l v h =
    let e : n + (l.count - n) ≡ l.count = omega arith in
    let zs : List ℕ = replicate n 0 in
    let k : length zs ≡ n = length-replicate n 0 in
    rw (discard_lem n l v.read_in) (
      window-store_after zs l.buf lane_capacity 0 l.read (l.count - n)
        ((l.read + n) % lane_capacity) (omega (arith, v.storage)) v.read_in
        (omega (arith, k, v.count_in)) (ap (λ t. (l.read + t) % lane_capacity) (sym k))
      ∙ sym (drop-window l.buf lane_capacity 0 l.read n (l.count - n) v.read_in)
      ∙ ap (λ t. drop n (window l.buf lane_capacity 0 l.read t)) e)

pub discard-IsValid : (n : ℕ) (l : KeyLane) → IsValid l → n ≤ l.count → IsValid (discard l n)
discard-IsValid n l v h =
    let zs : List ℕ = replicate n 0 in
    let k : length zs ≡ n = length-replicate n 0 in
    let start : ℕ = (l.read + l.count) % lane_capacity in
    let room : ℕ = lane_capacity - l.count in
    rw (discard_lem n l v.read_in) (record {
      storage = length-store lane_capacity l.buf l.read zs ∙ v.storage;
      read_in = omega arith;
      count_in = omega (arith, v.count_in);
      wiped =
          ap₂ (λ s t. window (store lane_capacity l.buf l.read zs) lane_capacity 0 s t)
            (omega arith) (omega (arith, k, v.count_in))
          ∙ window-store_end zs l.buf lane_capacity 0 room start l.read (omega (arith, v.storage))
              (omega arith) (omega (arith, k, v.count_in)) (omega (arith, v.count_in, v.read_in))
          ∙ ap (λ t. t ++ zs) v.wiped
          ∙ replicate-append room n 0
          ∙ ap (λ t. replicate t 0) (omega (arith, v.count_in));
    })

-- A full run of writes behind the bytes held joins them.
unfoldable pub append_key : KeyLane → List ℕ → KeyLane
append_key l key = record l {
  buf = store lane_capacity l.buf ((l.read + l.count) % lane_capacity) key;
  count = l.count + length key;
}

pub contents-append_key :
    (l : KeyLane) (key : List ℕ)
    → IsValid l
    → l.count + length key ≤ lane_capacity
    → contents (append_key l key) ≡ contents l ++ key
unfolding append_key
contents-append_key l key v h =
    window-store_end key l.buf lane_capacity 0 l.count l.read _ (omega (arith, v.storage)) v.read_in
      h refl

pub append_key-IsValid :
    (l : KeyLane) (key : List ℕ)
    → IsValid l
    → l.count + length key ≤ lane_capacity
    → IsValid (append_key l key)
unfolding append_key
append_key-IsValid l key v h =
    let n : ℕ = length key in
    let w : ℕ = (l.read + l.count) % lane_capacity in
    let room : ℕ = lane_capacity - (l.count + n) in
    let split : n + room ≡ lane_capacity - l.count = omega arith in
    let next : (w + n) % lane_capacity ≡ (l.read + (l.count + n)) % lane_capacity = omega arith in
    record {
      storage = length-store lane_capacity l.buf w key ∙ v.storage;
      read_in = v.read_in;
      count_in = h;
      wiped =
          window-store_after key l.buf lane_capacity 0 w room _ (omega (arith, v.storage))
            (omega arith) (omega (arith, v.count_in)) (sym next)
          ∙ ap (λ t. window l.buf lane_capacity 0 t room) (sym next)
          ∙ sym (drop-window l.buf lane_capacity 0 w n room (omega arith))
          ∙ ap (λ t. drop n (window l.buf lane_capacity 0 w t)) split
          ∙ ap (drop n)
              (v.wiped ∙ ap (λ t. replicate t 0) (sym split) ∙ sym (replicate-append n room 0))
          ∙ drop-append n (replicate n 0) _ (sym (length-replicate n 0));
    }

pub new-IsValid : IsValid new
unfolding new
new-IsValid = record {
  storage = length-replicate {A = ℕ} lane_capacity 0;
  read_in = omega arith;
  count_in = omega arith;
  wiped = window-replicate lane_capacity lane_capacity 0 lane_capacity 0;
}

pub wipe-IsValid : (l : KeyLane) → IsValid l → IsValid (wipe l)
unfolding wipe
wipe-IsValid l v = record {
  storage = length-replicate (length l.buf) 0 ∙ v.storage;
  read_in = omega arith;
  count_in = omega arith;
  wiped = window-replicate (length l.buf) lane_capacity 0 lane_capacity 0;
}
