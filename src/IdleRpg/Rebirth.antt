-- ===== src/IdleRpg/Rebirth.antt =====
-- internal/idlerpg/rebirth.go: the reset of a character at a high level. `ttl_for` is the base time of
-- a level in idlerpg.go, which is a float64 power.
use annoybots.Base.{ℕ, ◌*◌, ◌/◌, suc, Bool, true, false, [], ◌∷◌, List, Text, codes, if◌then◌else◌}
use annoybots.Base.Int.{ℤ, pos, negsuc, neg, ltb_ℤ, sub64, mul64}
use annoybots.State.{MemStore, h_incr, h_set, z_incr}
use annoybots.IdleRpg.{sheet_key, board_key, no_sheet}
use annoybots.IdleRpg.Sheet.{stat}
use annoybots.IdleRpg.Quest.{ttl, hundredth}
pub mod Reset
mod Tests

abbrev pub rebirth_level : ℤ
rebirth_level = pos 50

abbrev pub level : Text
level = codes "level"

abbrev pub reb : Text
reb = codes "reb"

unfoldable pub reb_speed : ℤ → ℤ
reb_speed r = let s = sub64 (pos 100) (mul64 r (pos 5)) in if ltb_ℤ s (pos 50) then pos 50 else s

pub data Reply : Type 0 where
  not_playing : Reply
  too_low reborn : ℤ → Reply

module _ (ttl_for : ℤ → ℤ) where
  unfoldable pub ttl_for_reb : ℤ → ℤ → ℤ
  ttl_for_reb lvl r =
      let t = hundredth (mul64 (ttl_for lvl) (reb_speed r)) in if ltb_ℤ t (pos 1) then pos 1 else t

  -- The writes of a rebirth.
  unfoldable pub reset : MemStore → Text → MemStore
  reset m key =
      let (m1, r) = h_incr m (sheet_key key) reb (pos 1) in
      let m2 = h_set m1 (sheet_key key) level (pos 0) in
      let m3 = h_set m2 (sheet_key key) ttl (ttl_for_reb (pos 0) r) in
      (z_incr m3 board_key key (neg (stat m key level))).0

  unfoldable pub rebirth : MemStore → Text → MemStore × Reply
  rebirth m key =
      if no_sheet m key
      then (m, not_playing)
      else if ltb_ℤ (stat m key level) rebirth_level
      then (m, too_low (stat m key level))
      else (reset m key, reborn (h_incr m (sheet_key key) reb (pos 1)).1)
