-- ===== src/IdleRpg/Weather.antt =====
-- internal/idlerpg/weather.go: the sky over each terrain, and what it does to a journey. JSON is the
-- record SkyCodec, and the draws are an argument.
use annoybots.Base.{
  ℕ, ◌≡◌, Bool, false, [], ◌∷◌, List, Option, none, some, Text, Map, codes, text_eq, lookup,
  get_elem?, if◌then◌else◌,
}
use annoybots.Base.Int.{ℤ, pos, ltb_ℤ, add64}
use annoybots.State.{MemStore, set_str, get_str}
pub mod Season
mod Tests

abbrev pub weather_rotate : ℤ
weather_rotate = pos 1200

abbrev pub weather_key : Text
weather_key = codes "rpg:weather"

pub record Sky : Type 0 where
  pub biomes : Map Text
  pub deadline : ℤ

pub record SkyCodec : Type 0 where
  pub encode : Sky → Text
  pub decode : Text → Option Sky
  pub decode-encode : (s : Sky) → decode (encode s) ≡ some s
  pub encode-ne-nil : (s : Sky) → text_eq (encode s) [] ≡ false

abbrev clear : Text
clear = codes "clear"

-- The weather that each terrain can have.
abbrev pub biome_weather : Map (List Text)
biome_weather =
    (codes "coast", clear ∷ codes "rain" ∷ codes "storm" ∷ codes "fog" ∷ [])
    ∷ (codes "mountain", clear ∷ codes "snow" ∷ codes "storm" ∷ codes "fog" ∷ [])
    ∷ (codes "forest", clear ∷ codes "rain" ∷ codes "fog" ∷ [])
    ∷ (codes "swamp", clear ∷ codes "rain" ∷ codes "fog" ∷ codes "storm" ∷ [])
    ∷ (codes "plains", clear ∷ codes "rain" ∷ codes "storm" ∷ [])
    ∷ []

-- The store and the sky in memory.
pub record Heavens : Type 0 where
  pub store : MemStore
  pub weather : Option Sky

unfoldable pub weather_at : Option Sky → Text → Text
weather_at none biome = codes "clear"
weather_at (some sky) biome = elim (lookup biome sky.biomes) [
  | none ↦ codes "clear"
  | some kind ↦ kind
]

-- A sky for each terrain of a table, with a draw for each.
unfoldable pub roll_sky : (Text → ℕ) → Map (List Text) → Map Text
roll_sky draw [] = []
roll_sky draw ((biome, kinds) ∷ rest) = elim (get_elem? kinds (draw biome)) [
  | none ↦ roll_sky draw rest
  | some kind ↦ (biome, kind) ∷ roll_sky draw rest
]

unfoldable pub travel_slow : Text → ℤ
travel_slow kind =
    if text_eq kind (codes "rain")
    then pos 4
    else if text_eq kind (codes "snow")
    then pos 7
    else pos 0

module _ (json : SkyCodec) where
  unfoldable pub load_weather : Heavens → Heavens
  load_weather h =
      let blob = get_str h.store weather_key in
      if text_eq blob []
      then h
      else elim (json.decode blob) [ none ↦ h | some sky ↦ record h { weather = some sky } ]

  -- `saveWeather`, and the sky in memory.
  unfoldable pub turn_sky : Heavens → ℤ → (Text → ℕ) → Heavens
  turn_sky h now draw =
      let next : Sky = record {
        biomes = roll_sky draw biome_weather;
        deadline = add64 now weather_rotate;
      } in
      record { store = set_str h.store weather_key (json.encode next); weather = some next }

  unfoldable pub weather_tick : Heavens → ℤ → (Text → ℕ) → Heavens
  weather_tick h now draw = elim h.weather [
    | none ↦ turn_sky h now draw
    | some sky ↦ if ltb_ℤ now sky.deadline then h else turn_sky h now draw
  ]
