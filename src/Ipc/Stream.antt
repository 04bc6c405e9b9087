-- ===== src/Ipc/Stream.antt =====
-- A pipe as a stream of bytes.
use project_qlinux.Prelude.{
  ℕ, zero, suc, ◌+◌, ◌-◌, ◌%◌, ◌≤◌, ◌<◌, ◌≡◌, refl, sym, ap, ap₂, ◌∙◌, List, [], ◌∷◌, ◌++◌, arith,
  length, get_or, set, take, drop, replicate, overwrite, min, length-set, length-take,
  length-replicate,
}
use project_qlinux.Prelude.Ring.{
  window, store, length-store, window-store_end, window-store_after, take-window, drop-window,
}
use project_qlinux.Ipc.{Pipe, pipe_buf_size, write_bytes, write, read_bytes, read}

-- The bytes in the pipe, oldest first.
abbrev pub contents : Pipe → List ℕ
contents p = window p.buf pipe_buf_size 0 p.head p.count

pub record IsValid (p : Pipe) : Type 0 where
  pub storage : length p.buf ≡ pipe_buf_size
  pub head_in : p.head < pipe_buf_size
  pub count_in : p.count ≤ pipe_buf_size
  pub tail_at : p.tail ≡ (p.head + p.count) % pipe_buf_size

abbrev after_write : Pipe → List ℕ → ℕ → Pipe
after_write p bs t = record p { buf = store pipe_buf_size p.buf p.tail bs; tail = t }

write_bytes_lem :
    (bs : List ℕ) (p : Pipe)
    → p.tail < pipe_buf_size
    → write_bytes p bs ≡ after_write p bs ((p.tail + length bs) % pipe_buf_size)
unfolding write_bytes store
write_bytes_lem [] p h = ap (after_write p []) (omega arith)
write_bytes_lem (b ∷ bs) p h =
    write_bytes_lem bs (record p { buf = set p.buf p.tail b; tail = (p.tail + 1) % pipe_buf_size })
      (omega arith)
    ∙ ap (after_write p (b ∷ bs)) (omega arith)

abbrev counted : Pipe → ℕ → Pipe
counted p n = record p { count = p.count + n }

-- Into a valid pipe, write puts as many of the first bytes as there is room for behind the
-- others, answers their number, and leaves a valid pipe.
pub write-contents :
    (p : Pipe) (bytes : List ℕ)
    → IsValid p
    → let n = min (length bytes) (pipe_buf_size - p.count) in
      (p' : Pipe) × (write p bytes ≡ (n, p'))
      × IsValid p'
      × (contents p' ≡ contents p ++ take n bytes)
unfolding write
write-contents p bytes v =
    let n : ℕ = min (length bytes) (pipe_buf_size - p.count) in
    let size : length (take n bytes) ≡ n = length-take n bytes ∙ (omega arith) in
    let q : Pipe =
      counted (after_write p (take n bytes) ((p.tail + length (take n bytes)) % pipe_buf_size)) n in
    (
      q,
      ap (λ t. (n, counted t n)) (write_bytes_lem (take n bytes) p (omega (arith, v.tail_at))),
      record {
        storage = length-store pipe_buf_size p.buf p.tail (take n bytes) ∙ v.storage;
        head_in = v.head_in;
        count_in = omega (arith, v.count_in);
        tail_at = omega (arith, v.tail_at, size);
      },
      ap (λ k. window q.buf pipe_buf_size 0 p.head (p.count + k)) (sym size)
          ∙ window-store_end (take n bytes) p.buf pipe_buf_size 0 p.count p.head p.tail
              (omega (arith, v.storage)) v.head_in (omega (arith, v.count_in, size)) v.tail_at,
    )

abbrev wiped : Pipe → ℕ → ℕ → Pipe
wiped p n h = record p { buf = store pipe_buf_size p.buf p.head (replicate n 0); head = h }

-- The loop gives the bytes from `head` on and leaves zeros in their place.
read_bytes_lem :
    (n : ℕ) (p : Pipe)
    → length p.buf ≡ pipe_buf_size
    → p.head < pipe_buf_size
    → n ≤ pipe_buf_size
    → read_bytes n p
      ≡ (window p.buf pipe_buf_size 0 p.head n, wiped p n ((p.head + n) % pipe_buf_size))
unfolding read_bytes store
read_bytes_lem zero p s h k = ap (λ t. ([], wiped p 0 t)) (omega arith)
read_bytes_lem (suc n) p s h k =
    let p' : Pipe = record p { buf = set p.buf p.head 0; head = (p.head + 1) % pipe_buf_size } in
    let ih = read_bytes_lem n p' (length-set p.buf p.head 0 ∙ s) (omega arith) (omega arith) in
    let same =
      window-store_after (0 ∷ []) p.buf pipe_buf_size 0 p.head n ((p.head + 1) % pipe_buf_size)
        (omega arith) h (omega arith) refl in
    ap (λ (r : List ℕ × Pipe). (get_or p.buf p.head 0 ∷ r.0, r.1)) ih
    ∙ ap₂ (λ w t. (get_or p.buf p.head 0 ∷ w, wiped p (suc n) t)) same (omega arith)

abbrev uncounted : Pipe → ℕ → Pipe
uncounted p n = record p { count = p.count - n }

-- From a valid pipe, read gives as many of the oldest bytes as there are and the buffer takes,
-- and the rest stays in a valid pipe in order.
pub read-contents :
    (p : Pipe) (dst : List ℕ)
    → IsValid p
    → let n = min (length dst) p.count in
      (p' : Pipe) × (read p dst ≡ (n, overwrite (take n (contents p)) dst, p'))
      × IsValid p'
      × (contents p' ≡ drop n (contents p))
unfolding read
read-contents p dst v =
    let n : ℕ = min (length dst) p.count in
    let rest : ℕ = p.count - n in
    let split : n + rest ≡ p.count = omega arith in
    let zeros : length (replicate {A = ℕ} n 0) ≡ n = length-replicate n 0 in
    let q : Pipe = uncounted (wiped p n ((p.head + n) % pipe_buf_size)) n in
    (
      q,
      ap (λ (r : List ℕ × Pipe). (n, overwrite r.0 dst, uncounted r.1 n))
            (read_bytes_lem n p v.storage v.head_in (omega (arith, v.count_in)))
          ∙ ap (λ t. (n, overwrite t dst, q))
              (sym (take-window p.buf pipe_buf_size 0 p.head n rest v.head_in)
                ∙ ap (λ k. take n (window p.buf pipe_buf_size 0 p.head k)) split),
      record {
        storage = length-store pipe_buf_size p.buf p.head (replicate n 0) ∙ v.storage;
        head_in = omega arith;
        count_in = omega (arith, v.count_in);
        tail_at = omega (arith, v.tail_at, v.head_in, v.count_in);
      },
      window-store_after (replicate n 0) p.buf pipe_buf_size 0 p.head rest
            ((p.head + n) % pipe_buf_size) (omega (arith, v.storage)) v.head_in
            (omega (arith, zeros, v.count_in)) (ap (λ k. (p.head + k) % pipe_buf_size) (sym zeros))
          ∙ sym (drop-window p.buf pipe_buf_size 0 p.head n rest v.head_in)
          ∙ ap (λ k. drop n (window p.buf pipe_buf_size 0 p.head k)) split,
    )
