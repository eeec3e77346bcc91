-- ===== src/IdleRpg/Game/Verb.antt =====
-- Handle and the switch of command in internal/idlerpg/idlerpg.go: which handler a message goes to.
use annoybots.Base.{
  ℕ, ◌≡◌, refl, Bool, true, false, ◌||◌, [], ◌∷◌, List, none, some, Text, Map, All, codes, text_eq,
  to_lower, fields, fields_from, is_space, lookup, arith, if◌then◌else◌,
}

-- The handlers that a verb can name.
pub data Verb : Type 0 where
  to_top_board to_items to_stash to_equip to_set_align to_set_class to_set_race to_help to_info :
      Verb
  to_who to_weather_status to_bestiary_status to_dungeon_status to_guild_cmd to_guild_board : Verb
  to_quest_status to_status to_sheet to_set_travel to_town_status to_pet_status to_mount_status :
      Verb
  to_duel to_give to_quaff to_feats_status to_rest to_shop to_buy to_enchant to_revive to_bless :
      Verb
  to_rebirth to_admin_verb : Verb

abbrev pub verbs : Map Verb
verbs =
    (codes "top", to_top_board)
    ∷ (codes "items", to_items)
    ∷ (codes "gear", to_items)
    ∷ (codes "stash", to_stash)
    ∷ (codes "equip", to_equip)
    ∷ (codes "align", to_set_align)
    ∷ (codes "class", to_set_class)
    ∷ (codes "race", to_set_race)
    ∷ (codes "help", to_help)
    ∷ (codes "commands", to_help)
    ∷ (codes "?", to_help)
    ∷ (codes "info", to_info)
    ∷ (codes "who", to_who)
    ∷ (codes "online", to_who)
    ∷ (codes "weather", to_weather_status)
    ∷ (codes "sky", to_weather_status)
    ∷ (codes "bestiary", to_bestiary_status)
    ∷ (codes "collection", to_bestiary_status)
    ∷ (codes "dungeon", to_dungeon_status)
    ∷ (codes "delve", to_dungeon_status)
    ∷ (codes "guild", to_guild_cmd)
    ∷ (codes "guilds", to_guild_board)
    ∷ (codes "quest", to_quest_status)
    ∷ (codes "status", to_status)
    ∷ (codes "sheet", to_sheet)
    ∷ (codes "stats", to_sheet)
    ∷ (codes "travel", to_set_travel)
    ∷ (codes "town", to_town_status)
    ∷ (codes "where", to_town_status)
    ∷ (codes "pet", to_pet_status)
    ∷ (codes "companion", to_pet_status)
    ∷ (codes "mount", to_mount_status)
    ∷ (codes "steed", to_mount_status)
    ∷ (codes "duel", to_duel)
    ∷ (codes "spar", to_duel)
    ∷ (codes "give", to_give)
    ∷ (codes "gift", to_give)
    ∷ (codes "quaff", to_quaff)
    ∷ (codes "drink", to_quaff)
    ∷ (codes "feats", to_feats_status)
    ∷ (codes "achievements", to_feats_status)
    ∷ (codes "rest", to_rest)
    ∷ (codes "shop", to_shop)
    ∷ (codes "buy", to_buy)
    ∷ (codes "enchant", to_enchant)
    ∷ (codes "revive", to_revive)
    ∷ (codes "bless", to_bless)
    ∷ (codes "rebirth", to_rebirth)
    ∷ (codes "ascend", to_rebirth)
    ∷ (codes "prestige", to_rebirth)
    ∷ (codes "pause", to_admin_verb)
    ∷ (codes "resume", to_admin_verb)
    ∷ (codes "push", to_admin_verb)
    ∷ (codes "hog", to_admin_verb)
    ∷ (codes "reset", to_admin_verb)
    ∷ (codes "setlevel", to_admin_verb)
    ∷ (codes "gold", to_admin_verb)
    ∷ (codes "raid", to_admin_verb)
    ∷ []

-- What is done with a message. A Go index out of range panics.
pub data Handled : Type 0 where
  ignored panics talked plays : Handled
  does : Verb → Handled

-- `command`, with the words of the message: a verb that is not known is no verb.
unfoldable pub command_of : List Text → Handled
command_of [] = plays
command_of (w ∷ []) = plays
command_of (w ∷ (verb ∷ rest)) = elim (lookup (to_lower verb) verbs) [
  | none ↦ plays
  | some v ↦ does v
]

unfoldable pub handle_words : List Text → Handled
handle_words [] = panics
handle_words (w ∷ rest) =
    if text_eq (to_lower w) (codes "!rpg") then command_of (w ∷ rest) else talked

unfoldable pub handle : Bool → Text → Handled
handle private text = if private || text_eq text [] then ignored else handle_words (fields text)

fields_from-blank : (s : Text) → All (λ c. is_space c ≡ true) s → fields_from [] s ≡ []
unfolding fields_from
fields_from-blank [] h = refl
fields_from-blank (c ∷ s) h = ground (arith, h.0, fields_from-blank s h.1)

-- A message in a channel that is not empty and is all white space panics: it has no first word.
pub handle-panics :
    (c : ℕ) (s : Text) → All (λ b. is_space b ≡ true) (c ∷ s) → handle false (c ∷ s) ≡ panics
unfolding handle handle_words fields text_eq
handle-panics c s h = rw (fields_from-blank (c ∷ s) h) refl
