-- ===== src/Net/Arp/Cache.antt =====
-- The cache as a map: what was inserted last is found, and other addresses keep their entries
-- but for the one that a new entry may evict.
use project_qlinux.Prelude.{
  ℕ, zero, suc, ◌+◌, ◌%◌, ◌<◌, ◌≡◌, ◌≢◌, refl, sym, ap, ◌∙◌, true, false, Bool-cases, inl, inr,
  Option, none, some, Option-cases, List, [], ◌∷◌, arith, length, set, if◌then◌else◌, length-set,
}
use project_qlinux.Net.Eth.{MacAddr}
use project_qlinux.Net.Ipv4.{Ipv4Addr, addr_eq}
use project_qlinux.Net.Ipv4.RoundTrip.{addr_eq_iff}
use project_qlinux.Net.Arp.{
  ArpCache, find_entry, replace_entry, lookup, insert, insert_found, cache_size,
}

pub record IsValid (c : ArpCache) : Type 0 where
  pub slots : length c.entries ≡ cache_size
  pub next_in : c.next < cache_size

addr_eq_self : (a : Ipv4Addr) → addr_eq a a ≡ true
addr_eq_self a = (addr_eq_iff a a).1 refl

addr_eq_ne : (a b : Ipv4Addr) → a ≢ b → addr_eq a b ≡ false
addr_eq_ne a b ne = elim (Bool-cases (addr_eq a b)) [
  | inl t ↦ absurd (ne ((addr_eq_iff a b).0 t))
  | inr f ↦ f
]

find-replace_self :
    (ip : Ipv4Addr) (mac m : MacAddr) (es : List (Option (Ipv4Addr × MacAddr)))
    → find_entry ip es ≡ some m
    → find_entry ip (replace_entry ip mac es) ≡ some mac
unfolding find_entry replace_entry
find-replace_self ip mac m [] e = absurd (ground arith)
find-replace_self ip mac m (none ∷ es) e = find-replace_self ip mac m es e
find-replace_self ip mac m (some (i, k) ∷ es) e = elim (Bool-cases (addr_eq i ip)) [
  | inl t ↦ rw (t, t) refl
  | inr f ↦ rw (f, f) (find-replace_self ip mac m es (rw f at e))
]

length-replace :
    (ip : Ipv4Addr) (mac : MacAddr) (es : List (Option (Ipv4Addr × MacAddr)))
    → length (replace_entry ip mac es) ≡ length es
unfolding replace_entry
length-replace ip mac [] = refl
length-replace ip mac (none ∷ es) = ap suc (length-replace ip mac es)
length-replace ip mac (some (i, k) ∷ es) = elim (Bool-cases (addr_eq i ip)) [
  | inl t ↦ rw t refl
  | inr f ↦ rw f (ap suc (length-replace ip mac es))
]

find-replace_ne :
    (ip other : Ipv4Addr) (mac : MacAddr) (es : List (Option (Ipv4Addr × MacAddr)))
    → ip ≢ other
    → find_entry other (replace_entry ip mac es) ≡ find_entry other es
unfolding find_entry replace_entry
find-replace_ne ip other mac [] ne = refl
find-replace_ne ip other mac (none ∷ es) ne = find-replace_ne ip other mac es ne
find-replace_ne ip other mac (some (i, k) ∷ es) ne = elim (Bool-cases (addr_eq i ip)) [
  | inl t ↦
      let d : addr_eq i other ≡ false =
        addr_eq_ne i other (λ e. ne (sym ((addr_eq_iff i ip).0 t) ∙ e)) in
      rw (t, d) refl
  | inr f ↦
      rw f (ap (λ t. if addr_eq i other then some k else t) (find-replace_ne ip other mac es ne))
]

find-set :
    (ip : Ipv4Addr) (mac : MacAddr) (es : List (Option (Ipv4Addr × MacAddr))) (i : ℕ)
    → find_entry ip es ≡ none
    → i < length es
    → find_entry ip (set es i (some (ip, mac))) ≡ some mac
unfolding find_entry
find-set ip mac [] i e h = absurd (omega arith)
find-set ip mac (x ∷ es) zero e h = rw (addr_eq_self ip) refl
find-set ip mac (none ∷ es) (suc i) e h = find-set ip mac es i e (omega arith)
find-set ip mac (some (j, k) ∷ es) (suc i) e h = elim (Bool-cases (addr_eq j ip)) [
  | inl t ↦ absurd (some_ne k (sym (rw t refl) ∙ e))
  | inr f ↦ rw f (find-set ip mac es i (rw f at e) (omega arith))
]
  where
    some_ne : (k : MacAddr) → some k ≢ none
    some_ne k e = ground arith

insert_new :
    (c : ArpCache) (ip : Ipv4Addr) (mac : MacAddr)
    → find_entry ip c.entries ≡ none
    → insert c ip mac
      ≡ record { entries = set c.entries c.next (some (ip, mac)); next = (c.next + 1) % cache_size }
unfolding insert
insert_new c ip mac e = ap (insert_found c ip mac) e

insert_known :
    (c : ArpCache) (ip : Ipv4Addr) (mac m : MacAddr)
    → find_entry ip c.entries ≡ some m
    → insert c ip mac ≡ record { entries = replace_entry ip mac c.entries; next = c.next }
unfolding insert
insert_known c ip mac m e = ap (insert_found c ip mac) e

-- In a valid cache, the address inserted last is found with its hardware address, whether it was
-- there or not, and the cache stays valid.
pub lookup-insert :
    (c : ArpCache) (ip : Ipv4Addr) (mac : MacAddr)
    → IsValid c
    → (lookup (insert c ip mac) ip ≡ some mac) × IsValid (insert c ip mac)
unfolding lookup
lookup-insert c ip mac v = elim (Option-cases (find_entry ip c.entries)) [
  | inl e ↦ rw (insert_new c ip mac e) (
    find-set ip mac c.entries c.next e (omega (arith, v.slots, v.next_in)),
    record { slots = length-set c.entries _ _ ∙ v.slots; next_in = omega arith },
  )
  | inr e ↦ rw (insert_known c ip mac e.0 e.1) (
    find-replace_self ip mac e.0 c.entries e.1,
    record { slots = length-replace ip mac c.entries ∙ v.slots; next_in = v.next_in },
  )
]

-- Inserting an address that the cache holds leaves the lookup of every other address as it was.
pub lookup-insert_other :
    (c : ArpCache) (ip other : Ipv4Addr) (mac m : MacAddr)
    → lookup c ip ≡ some m
    → ip ≢ other
    → lookup (insert c ip mac) other ≡ lookup c other
unfolding lookup
lookup-insert_other c ip other mac m e ne =
    rw (insert_known c ip mac m e) (find-replace_ne ip other mac c.entries ne)
