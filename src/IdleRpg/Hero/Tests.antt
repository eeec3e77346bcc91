-- ===== src/IdleRpg/Hero/Tests.antt =====
-- The ability scores at concrete inputs.
use annoybots.Base.{◌+◌, ◌-◌, ◌≤◌, ◌≡◌, refl, arith, min}
use annoybots.Base.Int.{ℤ, pos, negsuc, pos_part, ◌≤ℤ◌, ◌+ℤ◌, ◌-ℤ◌}
use annoybots.IdleRpg.Hero.{ability_mod}

low_run : ability_mod (pos 7) ≡ negsuc 1
unfolding ability_mod annoybots.Base.Int.add64 annoybots.Base.Int.quot annoybots.Base.Int.sub64
    annoybots.Base.Int.wrap64 ◌+ℤ◌ ◌-ℤ◌
low_run = refl
