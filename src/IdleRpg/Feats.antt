-- ===== src/IdleRpg/Feats.antt =====
-- awardFeat of internal/idlerpg/feats.go and bumpStat of stats.go. A feat mask is not negative, so a
-- bit of it is a digit in base 2.
use annoybots.Base.{ℕ, ◌+◌, ◌/◌, ◌%◌, ◌==◌, ◌++◌, Text, codes, if◌then◌else◌}
use annoybots.Base.Int.{ℤ, pos, pos_part}
use annoybots.State.{MemStore, h_set, incr}
use annoybots.IdleRpg.{sheet_key}
use annoybots.IdleRpg.Sheet.{stat}

abbrev pub feats : Text
feats = codes "feats"

-- `awardFeat`, for a bit that is a power of 2.
unfoldable pub award_feat : MemStore → Text → ℕ → MemStore
award_feat m key bit =
    let mask = pos_part (stat m key feats) in
    if (mask / bit) % 2 == 1 then m else h_set m (sheet_key key) feats (pos (mask + bit))

-- Treasure Hunter.
abbrev pub treasure_feat : ℕ
treasure_feat = 16

unfoldable pub stat_key : Text → Text
stat_key f = codes "rpg:stat:" ++ f

unfoldable pub bump_stat : MemStore → Text → ℤ → MemStore
bump_stat m f n = (incr m (stat_key f) n).0

-- The feat and the tally of a legendary item.
unfoldable pub hail_legendary : MemStore → Text → MemStore
hail_legendary m key = bump_stat (award_feat m key treasure_feat) (codes "legendaries") (pos 1)
