-- ===== src/Uhf/Tests.antt =====
-- Concrete runs of the theorems on the 61-bit prime and the message code.
use project_qlinux.Prelude.{
  ◌+◌, ◌-◌, ◌*◌, ◌/◌, ◌^◌, ◌%◌, ◌<◌, ◌↔◌, ◌≡◌, ◌++◌, refl, [], ◌∷◌, arith, replicate,
}
use project_qlinux.Uhf.Nh.{UmacKey, umac, umac_prefix}
use project_qlinux.Uhf.Umac.{p61, mod_p61, mod_p61_iff}

-- The least number that is not reduced to its remainder.
mod_p61_iff_example :
    (mod_p61 (2 ^ 122 - 1) ≡ (2 ^ 122 - 1) % p61)
    ↔ ((2 ^ 122 - 1) / 2 ^ 61 + (2 ^ 122 - 1) % 2 ^ 61 < 2 * p61)
mod_p61_iff_example = mod_p61_iff (2 ^ 122 - 1) (omega arith)

abbrev key : UmacKey
key = record { nh_key = replicate 64 9; axu_a = 5; axu_b = 7 }

-- Two messages of 256 equal bytes, one of them with two more.
umac_prefix_example : umac key (replicate 256 1 ++ (2 ∷ 3 ∷ [])) ≡ umac key (replicate 256 1)
umac_prefix_example = umac_prefix key (replicate 256 1) (2 ∷ 3 ∷ []) refl
