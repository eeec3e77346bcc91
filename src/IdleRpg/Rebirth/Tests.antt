-- ===== src/IdleRpg/Rebirth/Tests.antt =====
-- A rebirth of a character at level 52.
use annoybots.Base.{
  false, ◌≡◌, ◌⊎◌, refl, [], ◌∷◌, Text, arith, codes, text_eq, text_eq_refl, lookup,
}
use annoybots.Base.Int.{ℤ, pos, add64, ◌≤ℤ◌}
use annoybots.State.{MemStore, z_score, h_get_all}
use annoybots.IdleRpg.{sheet_key, board_key}
use annoybots.IdleRpg.Sheet.{stat, sheet_key_inj}
use annoybots.State.Fields.{field}
use annoybots.IdleRpg.Samples.{ann}
use annoybots.IdleRpg.Rebirth.{rebirth, reborn, level}
use annoybots.IdleRpg.Rebirth.Reset.{IsShown}

-- ann has reached level 52.
abbrev high : MemStore
high = record {
  counters = [];
  zsets = (board_key, (ann, pos 52) ∷ []) ∷ [];
  hashes = (sheet_key ann, (level, pos 52) ∷ []) ∷ [];
  strs = [];
  lists = [];
}

abbrev flat : ℤ → ℤ
flat n = pos 600

reborn_run : (rebirth flat high ann).1 ≡ reborn (pos 1)
unfolding add64 annoybots.Base.Int.wrap64 annoybots.Base.Int.◌+ℤ◌ annoybots.IdleRpg.no_sheet
    annoybots.State.h_incr field h_get_all lookup rebirth sheet_key stat text_eq
reborn_run = refl

shown : IsShown high
unfolding z_score stat field h_get_all lookup
shown k = ground (arith, sheet_key_inj ann k, text_eq_refl level, text_eq_refl board_key)
