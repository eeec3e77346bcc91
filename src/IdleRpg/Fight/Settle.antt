-- ===== src/IdleRpg/Fight/Settle.antt =====
-- fightMonster and the end of resolveFight of internal/idlerpg/monsters.go, with checkCombatFeats of
-- feats.go and maybeTamePet of pets.go: what a fight leaves behind.
use annoybots.Base.{
  ℕ, ◌+◌, Bool, true, false, ◌||◌, ◌&&◌, [], ◌∷◌, List, Option, none, some, Text, codes, text_eq,
  get_elem?, ◌==◌, ltb, if◌then◌else◌,
}
use annoybots.Base.Int.{ℤ, pos, neg, leb_ℤ, ltb_ℤ, sub64}
use annoybots.State.{MemStore, h_incr, get_str, set_str}
use annoybots.IdleRpg.{sheet_key, class_key}
use annoybots.IdleRpg.Sheet.{stat}
use annoybots.IdleRpg.Trade.{gold}
use annoybots.IdleRpg.Quest.{QuestCodec, World, ttl, pct_of_ttl, quest_kill_credit}
use annoybots.IdleRpg.Guild.{Book}
use annoybots.IdleRpg.Guild.Perks.{guild_fortune, guild_might}
use annoybots.IdleRpg.Feats.{award_feat, bump_stat}
use annoybots.IdleRpg.Health.{damage, apply_poison, poison_ticks, is_downed}
use annoybots.IdleRpg.Omens.{WorldEvent, harvest_gold}
use annoybots.IdleRpg.Bestiary.{record_kill, char_bestiary}
use annoybots.IdleRpg.Loot.{Find, find_item}
use annoybots.IdleRpg.Game.Gods.{pet_key}
use annoybots.IdleRpg.Fight.{Foe, Pet, Bout, RoundDice, arena, fight}

abbrev pub kills : Text
kills = codes "kills"

-- The foes whose blows poison.
abbrev pub venomous : List Text
venomous =
    codes "a will-o'-wisp"
    ∷ codes "a green hag"
    ∷ codes "a bog zombie"
    ∷ codes "a sahuagin raider"
    ∷ codes "a wyvern"
    ∷ codes "a manticore"
    ∷ []

unfoldable pub among : Text → List Text → Bool
among name [] = false
among name (n ∷ rest) = text_eq n name || among name rest

-- What hurt the hero takes out of the fight.
unfoldable pub bruise : MemStore → Text → Foe → ℤ → MemStore
bruise m key foe taken =
    if ltb_ℤ (pos 0) taken
    then (let m1 = damage m key taken in
        if among foe.name venomous then apply_poison m1 key poison_ticks else m1)
    else m

-- `petKinds`, by name.
abbrev pub pet_kinds : List (Text × Pet)
pet_kinds =
    (codes "wolf", record { atk = pos 1; dmg = pos 1 })
    ∷ (codes "dire boar", record { atk = pos 0; dmg = pos 2 })
    ∷ (codes "hawk", record { atk = pos 2; dmg = pos 0 })
    ∷ (codes "imp", record { atk = pos 1; dmg = pos 1 })
    ∷ (codes "owlbear", record { atk = pos 1; dmg = pos 2 })
    ∷ []

unfoldable pub pet_by_name : Text → List (Text × Pet) → Option Pet
pet_by_name name [] = none
pet_by_name name ((n, p) ∷ rest) = if text_eq n name then some p else pet_by_name name rest

unfoldable pub pet_of : MemStore → Text → Option Pet
pet_of m key =
    let name = get_str m (pet_key key) in
    if text_eq name [] then none else pet_by_name name pet_kinds

-- `maybeTamePet`, with its two rolls.
unfoldable pub maybe_tame_pet : MemStore → Text → ℕ → ℕ → MemStore
maybe_tame_pet m key chance pick = elim (pet_of m key) [
  | some p ↦ m
  | none ↦
      if chance == 0
      then elim (get_elem? pet_kinds pick) [
        | none ↦ m
        | some (name, p) ↦ set_str m (pet_key key) name
      ]
      else m
]

unfoldable pub award_if : Bool → Text → ℕ → MemStore → MemStore
award_if cond key bit m = if cond then award_feat m key bit else m

-- What `checkCombatFeats` reads is read once, at the start.
unfoldable pub check_combat_feats : MemStore → Text → Bool → MemStore
check_combat_feats m key boss =
    let k = stat m key kills in
    let g = stat m key gold in
    let m1 = award_if (leb_ℤ (pos 1) k) key 1 m in
    let m2 = award_if (leb_ℤ (pos 100) k) key 2 m1 in
    let m3 = award_if (leb_ℤ (pos 1000) k) key 4 m2 in
    let m4 = award_if (leb_ℤ (pos 5000) k) key 64 m3 in
    let m5 = award_if boss key 8 m4 in
    let m6 = award_if (leb_ℤ (pos 1000) g) key 32 m5 in
    let m7 = award_if (leb_ℤ (pos 10000) g) key 128 m6 in
    let (seen, total) = char_bestiary m7 key in award_if (ltb 0 total && seen == total) key 1024 m7

-- The time, the gold and the kills of a victory.
unfoldable pub reap : MemStore → Text → ℤ → ℤ → ℤ → MemStore
reap m key reward coins count =
    let m1 = (h_incr m (sheet_key key) ttl (neg reward)).0 in
    let m2 = (h_incr m1 (sheet_key key) gold coins).0 in (h_incr m2 (sheet_key key) kills count).0

-- The draws of the spoils: a percentage, the items, whether a common foe drops one, and the two rolls
-- for a companion.
pub record Spoils : Type 0 where
  pub pct : ℕ
  pub first : Find
  pub second : Find
  pub drops : Bool
  pub tamed : ℕ
  pub kind : ℕ

unfoldable pub boss_spoils : MemStore → Text → Foe → ℤ → Spoils → MemStore
boss_spoils m key foe coins d =
    let m1 = reap m key (pct_of_ttl m key (22 + d.pct)) coins (pos 3) in
    let m2 = find_item (find_item m1 key d.first) key d.second in
    check_combat_feats (record_kill (maybe_tame_pet m2 key d.tamed d.kind) key foe.name) key true

unfoldable pub foe_spoils : MemStore → Text → Foe → ℤ → Spoils → MemStore
foe_spoils m key foe coins d =
    let m1 = reap m key (pct_of_ttl m key (8 + d.pct)) coins (pos 1) in
    let m2 = if d.drops then find_item m1 key d.first else m1 in
    check_combat_feats (record_kill m2 key foe.name) key false

-- The tallies of the realm.
unfoldable pub tally : MemStore → Bool → ℤ → MemStore
tally m boss coins =
    let m1 = bump_stat m (codes "kills") (pos 1) in
    let m2 = if boss then bump_stat m1 (codes "bosses") (pos 1) else m1 in
    bump_stat m2 (codes "gold") coins

module _ (json : QuestCodec) where
  -- The outcome of a fight that began with `start` hit points.
  unfoldable pub settle :
      World → Book → Option WorldEvent → Text → Foe → ℤ → Bout → Spoils → (Text → ℕ) → World
  settle w book event key foe start b d draw =
      let m = bruise w.store key foe (sub64 start b.hp) in
      if leb_ℤ b.foe_hp (pos 0)
      then (let coins = guild_fortune book key (harvest_gold event foe.gold) in
          let won =
            if foe.boss then boss_spoils m key foe coins d else foe_spoils m key foe coins d in
          let credited = quest_kill_credit json (record w { store = won }) key draw in
          record credited { store = tally credited.store foe.boss coins })
      else record w { store = m }

  -- `fightMonster`, for the foe that is picked and the sky where the hero stands.
  unfoldable pub fight_monster :
      World
      → Book
      → Option WorldEvent
      → Text
      → Text
      → Foe
      → (ℕ → RoundDice)
      → Spoils
      → (Text → ℕ)
      → World
  fight_monster w book event key sky foe dice d draw =
      let sheet = stat w.store key in
      let class = get_str w.store (class_key key) in
      let a = arena sheet class sky (pet_of w.store key) (guild_might book key) foe in
      if is_downed sheet class
      then w
      else settle w book event key foe a.start_hp (fight a foe.hp dice) d draw
