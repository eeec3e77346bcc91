-- ===== src/IdleRpg/Weather/Tests.antt =====
-- A codec for skies that round-trips, the first sky of a realm, and the theorem on it.
use annoybots.Base.{
  ℕ, All, List, Bool-cases, inl, inr, subst, true, lookup, ◌≡◌, refl, ◌∙◌, false, [], ◌∷◌, Option,
  none, some, Text, Map, codes, length, arith, text_eq,
}
use annoybots.Base.Int.{pos}
use annoybots.State.{new_mem}
use annoybots.IdleRpg.Samples.{
  code_int, code_text, read_int, read_text, read_int-code, read_text-code,
}
use annoybots.IdleRpg.Guild.Samples.{code_each, read_each, read_each-code}
use annoybots.IdleRpg.Weather.{biome_weather, Sky, SkyCodec, Heavens, weather_at, weather_tick}
use annoybots.IdleRpg.Weather.Season.{listed, IsSeasonal, weather_tick-IsSeasonal}

abbrev code_kind : Text × Text → Text → Text
code_kind (biome, kind) t = code_text biome (code_text kind t)

abbrev read_kind : {B : Type 0} → (Text × Text → Text → Option B) → Text → Option B
read_kind k = read_text (λ biome. read_text (λ kind. k (biome, kind)))

read_kind-code :
    {B : Type 0} (k : Text × Text → Text → Option B) (x : Text × Text) (t : Text)
    → read_kind k (code_kind x t) ≡ k x t
read_kind-code k (biome, kind) t =
    read_text-code (λ a. read_text (λ b. k (a, b))) biome (code_text kind t)
    ∙ read_text-code (λ b. k (biome, b)) kind t

abbrev code_sky : Sky → Text
code_sky s = length s.biomes ∷ code_each code_kind s.biomes (code_int s.deadline [])

abbrev read_sky : Text → Option Sky
read_sky [] = none
read_sky (n ∷ t) =
    read_each read_kind n
      (λ biomes. read_int (λ deadline s. some (record { biomes = biomes; deadline = deadline }))) t

read_sky-code : (s : Sky) → read_sky (code_sky s) ≡ some s
read_sky-code s =
    read_each-code code_kind read_kind read_kind-code
      (λ biomes. read_int (λ deadline s. some (record { biomes = biomes; deadline = deadline })))
      s.biomes (code_int s.deadline [])
    ∙ read_int-code (λ deadline t. some (record { biomes = s.biomes; deadline = deadline }))
        s.deadline []

some_bytes : (s : Sky) → text_eq (code_sky s) [] ≡ false
unfolding text_eq
some_bytes s = refl

plain_sky : SkyCodec
plain_sky = record {
  encode = code_sky;
  decode = read_sky;
  decode-encode = read_sky-code;
  encode-ne-nil = some_bytes;
}

abbrev dawn : Heavens
dawn = record { store = new_mem; weather = none }

stormy_run :
    weather_at (weather_tick plain_sky dawn (pos 100) (λ b. 2)).weather (codes "coast")
    ≡ codes "storm"
unfolding annoybots.Base.lookup annoybots.IdleRpg.Weather.roll_sky
    annoybots.IdleRpg.Weather.turn_sky plain_sky text_eq weather_at weather_tick
stormy_run = refl

clear_listed :
    (table : Map (List Text)) (biome : Text) (kinds : List Text)
    → All (λ e. listed (codes "clear") e.1 ≡ true) table
    → lookup biome table ≡ some kinds
    → listed (codes "clear") kinds ≡ true
unfolding lookup
clear_listed [] biome kinds every h = absurd (cc h)
clear_listed ((b, ks) ∷ rest) biome kinds every h = elim (Bool-cases (text_eq b biome)) [
  | inl here ↦ subst (λ l. listed (codes "clear") l ≡ true) (cc (rw here at h)) every.0
  | inr other ↦ clear_listed rest biome kinds every.1 (rw other at h)
]

-- Without a sky every terrain has clear weather.
clear_dawn : IsSeasonal dawn.weather
unfolding weather_at text_eq
clear_dawn biome kinds h =
    clear_listed biome_weather biome kinds (refl, (refl, (refl, (refl, (refl, tt))))) h

weather_tick-IsSeasonal_example :
    IsSeasonal (weather_tick plain_sky dawn (pos 100) (λ b. 2)).weather
weather_tick-IsSeasonal_example =
    weather_tick-IsSeasonal plain_sky dawn (pos 100) (λ b. 2)
      (omega arith, (omega arith, (omega arith, (omega arith, (omega arith, tt))))) clear_dawn
