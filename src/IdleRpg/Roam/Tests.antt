-- ===== src/IdleRpg/Roam/Tests.antt =====
-- A walk to a town with a compass of single steps, and the theorem on it.
use annoybots.Base.{
  ℕ, zero, suc, ◌≡◌, ◌≤◌, refl, inl, [], ◌∷◌, Option, none, some, Text, codes, arith,
}
use annoybots.Base.Int.{ℤ, pos, negsuc, pos_part, neg_part, ◌≤ℤ◌}
use annoybots.State.{MemStore}
use annoybots.IdleRpg.{sheet_key}
use annoybots.IdleRpg.Sheet.{stat}
use annoybots.IdleRpg.Samples.{ann}
use annoybots.IdleRpg.Town.{mx, my, dest}
use annoybots.IdleRpg.Roam.{move_on_map}
use annoybots.IdleRpg.Roam.Bounds.{IsPlaced, IsShort, move_on_map-IsPlaced}

-- One step along an axis, or none where the way is nothing.
abbrev sign : ℤ → ℤ
sign (pos zero) = pos 0
sign (pos (suc n)) = pos 1
sign (negsuc n) = negsuc 0

abbrev one_step : ℤ → ℤ → ℤ → Option (ℤ × ℤ)
one_step step dx dy = some (sign dx, sign dy)

sign-part : (d : ℤ) → (pos_part (sign d) ≤ pos_part d) × (neg_part (sign d) ≤ neg_part d)
sign-part (pos zero) = (omega arith, omega arith)
sign-part (pos (suc n)) = (omega arith, omega arith)
sign-part (negsuc n) = (omega arith, omega arith)

one_step-IsShort : IsShort one_step
one_step-IsShort step dx dy a b far h = ground (arith, sign-part dx, sign-part dy)

-- ann is on the way from (200, 200) to Lurk Harbor.
abbrev road : MemStore
road = record {
  counters = [];
  zsets = [];
  hashes = (sheet_key ann, (mx, pos 200) ∷ (my, pos 200) ∷ (dest, pos 2) ∷ []) ∷ [];
  strs = [];
  lists = [];
}

walk_run : stat (move_on_map one_step road ann (codes "clear") 0 0) ann mx ≡ pos 199
unfolding annoybots.Base.Int.add64 annoybots.Base.Int.residue64 annoybots.Base.Int.sub64
    annoybots.Base.Int.wrap64 annoybots.Base.Int.◌+ℤ◌ annoybots.Base.Int.◌-ℤ◌ annoybots.Base.insert
    annoybots.Base.lookup annoybots.Base.text_eq annoybots.IdleRpg.Quest.step_toward
    annoybots.IdleRpg.Roam.bound_for annoybots.IdleRpg.Roam.clamp_world annoybots.IdleRpg.Roam.drift
    annoybots.IdleRpg.Roam.place annoybots.IdleRpg.Roam.stride annoybots.IdleRpg.Roam.travel
    annoybots.IdleRpg.Town.mount_key annoybots.IdleRpg.Weather.travel_slow
    annoybots.State.Fields.field annoybots.State.get_str annoybots.State.h_get_all
    annoybots.State.h_set move_on_map sheet_key stat
walk_run = refl

on_map : IsPlaced road ann
unfolding annoybots.Base.lookup annoybots.Base.text_eq annoybots.State.Fields.field
    annoybots.State.h_get_all sheet_key stat
on_map = ((omega arith, omega arith), (omega arith, omega arith))

move_on_map-IsPlaced_example : IsPlaced (move_on_map one_step road ann (codes "clear") 0 0) ann
move_on_map-IsPlaced_example =
    move_on_map-IsPlaced one_step one_step-IsShort road ann (codes "clear") 0 0 (omega arith)
      (omega arith) (inl on_map)
