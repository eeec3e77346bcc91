-- ===== src/IdleRpg/Weather/Season.antt =====
-- The skies that internal/idlerpg/weather.go rolls.
use annoybots.Base.{
  ℕ, subst, zero, suc, ◌≡◌, ◌<◌, refl, Bool, true, false, ◌||◌, [], ◌∷◌, List, Option, some, Text,
  Map, text_eq, text_eq_refl, arith, get_elem?, lookup, length, All, get_elem?-some, Bool-cases,
  Option-cases, inl, inr,
}
use annoybots.Base.Int.{ℤ, ltb_ℤ}
use annoybots.IdleRpg.Weather.{
  Sky, SkyCodec, Heavens, biome_weather, weather_at, roll_sky, turn_sky, weather_tick,
}

-- Whether a weather stands in a list.
abbrev pub listed : Text → List Text → Bool
listed kind [] = false
listed kind (k ∷ rest) = text_eq k kind || listed kind rest

listed-get :
    (kinds : List Text) (i : ℕ) (kind : Text)
    → get_elem? kinds i ≡ some kind
    → listed kind kinds ≡ true
listed-get [] i kind h = absurd (cc h)
listed-get (k ∷ rest) zero kind h = ground (arith, text_eq_refl k)
listed-get (k ∷ rest) (suc i) kind h = ground (arith, listed-get rest i kind h)

-- The draw of every terrain is below the number of weathers that it can have.
abbrev pub IsDrawn : (Text → ℕ) → Map (List Text) → Type 0
IsDrawn draw table = All (λ e. draw e.0 < length e.1) table

lookup-roll_sky :
    (draw : Text → ℕ) (table : Map (List Text)) (biome : Text) (kinds : List Text)
    → IsDrawn draw table
    → lookup biome table ≡ some kinds
    → (kind : Text) × (lookup biome (roll_sky draw table) ≡ some kind) × (listed kind kinds ≡ true)
unfolding roll_sky lookup
lookup-roll_sky draw [] biome kinds d h = absurd (cc h)
lookup-roll_sky draw ((b, ks) ∷ rest) biome kinds d h =
    let (kind, e) = get_elem?-some ks (draw b) d.0 in
    let more = lookup-roll_sky draw rest biome kinds d.1 in
    elim (Bool-cases (text_eq b biome)) [
      | inl here ↦
          let same : ks ≡ kinds = cc (rw here at h) in
          rw (e, lookup, here)
            (kind, refl, subst (λ l. listed kind l ≡ true) same (listed-get ks (draw b) kind e))
      | inr other ↦ rw (e, lookup, other) (more (rw other at h))
    ]

-- The weather over every terrain is one that the terrain can have.
abbrev pub IsSeasonal : Option Sky → Type 0
IsSeasonal sky =
    (biome : Text) (kinds : List Text)
    → lookup biome biome_weather ≡ some kinds
    → listed (weather_at sky biome) kinds ≡ true

-- A tick leaves a weather over every terrain that the terrain can have, if that held before and the
-- draws are below the lengths of the lists.
pub weather_tick-IsSeasonal :
    (json : SkyCodec) (h : Heavens) (now : ℤ) (draw : Text → ℕ)
    → IsDrawn draw biome_weather
    → IsSeasonal h.weather
    → IsSeasonal (weather_tick json h now draw).weather
unfolding weather_tick turn_sky weather_at
weather_tick-IsSeasonal json h now draw d s = elim (Option-cases h.weather) [
  | inl first ↦ rw (first, weather_tick) turned
  | inr (sky, e) ↦ elim (Bool-cases (ltb_ℤ now sky.deadline)) [
    | inl early ↦ rw (e, early, weather_tick) s
    | inr due ↦ rw (e, due, weather_tick) turned
  ]
]
  where
    turned : IsSeasonal (turn_sky json h now draw).weather
    turned biome kinds at =
        let (kind, there, ok) = lookup-roll_sky draw biome_weather biome kinds d at in
        rw (weather_at, there) ok
