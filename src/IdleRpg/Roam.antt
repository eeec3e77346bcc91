-- ===== src/IdleRpg/Roam.antt =====
-- moveOnMap of internal/idlerpg/world.go: an online player's step on the map. The rounded unit step
-- of stepToward is the parameter `compass`, and the draws are arguments.
use annoybots.Base.{
  ℕ, ◌+◌, ◌-◌, Bool, true, false, ◌||◌, ◌&&◌, [], ◌∷◌, List, Option, none, some, Text, codes,
  text_eq, get_elem?, if◌then◌else◌,
}
use annoybots.Base.Int.{ℤ, pos, neg, pos_part, leb_ℤ, ltb_ℤ, eq_ℤ, add64, sub64}
use annoybots.State.{MemStore, h_set, get_str}
use annoybots.IdleRpg.{sheet_key}
use annoybots.IdleRpg.Sheet.{stat}
use annoybots.IdleRpg.Quest.{step_toward}
use annoybots.IdleRpg.Town.{Town, towns, mx, my, dest, mount_key}
use annoybots.IdleRpg.Weather.{travel_slow}
pub mod Bounds
mod Tests

abbrev pub world_size : ℤ
world_size = pos 500

abbrev pub world_step : ℤ
world_step = pos 14

unfoldable pub clamp_world : ℤ → ℤ
clamp_world v = if ltb_ℤ v (pos 1) then pos 1 else if ltb_ℤ world_size v then world_size else v

unfoldable pub place : MemStore → Text → ℤ → ℤ → MemStore
place m key x y = h_set (h_set m (sheet_key key) mx x) (sheet_key key) my y

-- The town that a character travels to.
unfoldable pub bound_for : ℤ → Option Town
bound_for d = if ltb_ℤ (pos 0) d then get_elem? towns (pos_part d - 1) else none

-- The length of a step on the road.
unfoldable pub stride : MemStore → Text → Text → ℤ
stride m key sky =
    let quick =
      if text_eq (get_str m (mount_key key)) [] then world_step else add64 world_step world_step in
    let step = sub64 quick (travel_slow sky) in if ltb_ℤ step (pos 2) then pos 2 else step

-- A drift of at most a step, from a draw.
unfoldable pub drift : ℤ → ℕ → ℤ
drift v draw = clamp_world (add64 v (sub64 (pos draw) world_step))

module _ (compass : ℤ → ℤ → ℤ → Option (ℤ × ℤ)) where
  unfoldable pub travel : MemStore → Text → Text → Town → MemStore
  travel m key sky t =
      let ((nx, ny), reached) =
        step_toward (compass (stride m key sky)) (stat m key mx, stat m key my) (t.x, t.y) in
      let after = place m key nx ny in
      if reached then h_set after (sheet_key key) dest (pos 0) else after

  unfoldable pub move_on_map : MemStore → Text → Text → ℕ → ℕ → MemStore
  move_on_map m key sky dx dy =
      let x = stat m key mx in
      let y = stat m key my in
      if eq_ℤ x (pos 0) || eq_ℤ y (pos 0)
      then place m key (pos (dx + 1)) (pos (dy + 1))
      else elim (bound_for (stat m key dest)) [
        | some t ↦ travel m key sky t
        | none ↦ place m key (drift x dx) (drift y dy)
      ]
