-- ===== src/Net/Slots.antt =====
-- The rings of messages in kernel/net/src/device.rs and stack.rs: fixed slots, and next to them
-- the lengths of the messages in the slots.
use project_qlinux.Prelude.{
  ℕ, zero, suc, ◌+◌, ◌%◌, ◌≤◌, ◌<◌, ◌≡◌, refl, sym, ap, ap₂, ◌∙◌, List, [], ◌∷◌, ◌++◌, arith,
  length, get_or, set, take, take-append, overwrite,
}
use project_qlinux.Prelude.Ring.{window, store, window-store_end, window-store_after}

abbrev pub cut : List (List ℕ) → List ℕ → List (List ℕ)
cut [] ns = []
cut (m ∷ ms) [] = []
cut (m ∷ ms) (n ∷ ns) = take n m ∷ cut ms ns

-- The messages held, oldest first.
abbrev pub messages : List (List ℕ) → List ℕ → ℕ → ℕ → ℕ → List (List ℕ)
messages slots lens size head count =
    cut (window slots size [] head count) (window lens size 0 head count)

cut-windows_end :
    (slots : List (List ℕ)) (lens : List ℕ) (size h n : ℕ) (m : List ℕ) (k : ℕ)
    → cut (window slots size [] h n ++ m ∷ []) (window lens size 0 h n ++ k ∷ [])
      ≡ cut (window slots size [] h n) (window lens size 0 h n) ++ take k m ∷ []
cut-windows_end slots lens size h zero m k = refl
cut-windows_end slots lens size h (suc n) m k =
    ap (λ t. take (get_or lens h 0) (get_or slots h []) ∷ t)
      (cut-windows_end slots lens size ((h + 1) % size) n m k)

-- A message written into the next free slot is the newest.
pub messages-push :
    (slots : List (List ℕ)) (lens : List ℕ) (size head count : ℕ) (d : List ℕ)
    → size ≤ length slots
    → size ≤ length lens
    → head < size
    → count < size
    → let w = (head + count) % size in
      messages
        (set slots w (overwrite d (get_or slots w [])))
        (set lens w (length d))
        size
        head
        (count + 1)
      ≡ messages slots lens size head count ++ d ∷ []
unfolding store
messages-push slots lens size head count d a b h c =
    let w : ℕ = (head + count) % size in
    let m : List ℕ = overwrite d (get_or slots w []) in
    let ws = window-store_end (m ∷ []) slots size [] count head w a h (omega arith) refl in
    let wl = window-store_end (length d ∷ []) lens size 0 count head w b h (omega arith) refl in
    ap₂ cut ws wl
    ∙ cut-windows_end slots lens size head count m (length d)
    ∙ ap (λ t. messages slots lens size head count ++ t ∷ []) (take-append (length d) d _ refl)

-- Wiping the slot of the oldest message leaves the others.
pub messages-pop :
    (slots : List (List ℕ)) (lens : List ℕ) (size head n : ℕ) (blank : List ℕ)
    → size ≤ length slots
    → head < size
    → suc n ≤ size
    → messages slots lens size head (suc n)
      ≡ take (get_or lens head 0) (get_or slots head [])
        ∷ messages (set slots head blank) lens size ((head + 1) % size) n
unfolding store
messages-pop slots lens size head n blank a h c =
    ap
      (λ t.
        take (get_or lens head 0) (get_or slots head [])
        ∷ cut t (window lens size 0 ((head + 1) % size) n))
      (sym (
        window-store_after (blank ∷ []) slots size [] head n ((head + 1) % size) a h (omega arith)
          refl))
