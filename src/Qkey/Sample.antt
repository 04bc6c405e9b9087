-- ===== src/Qkey/Sample.antt =====
-- Lanes that the tests run on: one with 96 key bytes, and one of which 40 were used.
use project_qlinux.Prelude.{ℕ, ◌+◌, ◌≡◌, ap, ◌∙◌, List, [], arith, replicate, Result, ok, err}
use project_qlinux.Qkey.{KeyLane, KeyError, new, deposit, take}
use project_qlinux.Qkey.Stream.{Tracks, new-Tracks, deposit-Tracks, take-Tracks}

abbrev pub key_block : List ℕ
key_block = replicate 96 7

abbrev or_new : Result KeyError KeyLane → KeyLane
or_new (ok l) = l
or_new (err e) = new

abbrev lane_of : Result KeyError (ℕ × List ℕ × KeyLane) → KeyLane
lane_of (ok t) = t.2
lane_of (err e) = new

abbrev pub fed : KeyLane
fed = or_new (deposit new key_block)

abbrev pub used : KeyLane
used = lane_of (take fed 40)

fed_lem : Tracks key_block fed × (fed.base ≡ 0)
unfolding new
fed_lem =
    let d = deposit-Tracks [] new key_block new-Tracks (omega arith) (omega arith) (omega arith) in
    let e : fed ≡ d.0 = ap or_new d.1 in (rw e d.2, ap (λ l. l.base) e ∙ d.3)

pub fed-Tracks : Tracks key_block fed
fed-Tracks = fed_lem.0

pub fed-base : fed.base ≡ 0
fed-base = fed_lem.1

used_lem : Tracks key_block used × (used.base ≡ 40)
used_lem =
    let d = take-Tracks key_block fed 40 fed-Tracks (omega arith) (omega (arith, fed-base)) in
    let e : used ≡ d.0 = ap lane_of d.1 in
    (rw e d.2, ap (λ l. l.base) e ∙ d.3 ∙ ap (λ k. k + 40) fed-base)

pub used-Tracks : Tracks key_block used
used-Tracks = used_lem.0

pub used-base : used.base ≡ 40
used-base = used_lem.1
