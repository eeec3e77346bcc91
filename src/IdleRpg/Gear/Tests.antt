-- ===== src/IdleRpg/Gear/Tests.antt =====
-- Masks of magical properties at concrete inputs.
use annoybots.Base.{◌≡◌, refl}
use annoybots.IdleRpg.Gear.{awaken_affix}

awaken_run : awaken_affix 5 1 ≡ 13
unfolding awaken_affix
awaken_run = refl
