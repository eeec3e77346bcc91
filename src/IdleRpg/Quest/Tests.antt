-- ===== src/IdleRpg/Quest/Tests.antt =====
-- A quest from its start to its end, and the theorems at concrete inputs.
use annoybots.Base.{
  ℕ, zero, suc, ◌+◌, ◌≤◌, Bool, true, false, ◌&&◌, ◌≡◌, refl, [], ◌∷◌, List, Option, none, some,
  Text, Map, arith, codes, length, lookup, has as is_some, text_eq, if◌then◌else◌,
}
use annoybots.Base.Int.{ℤ, pos}
use annoybots.IdleRpg.Samples.{ann, bob, realm}
use annoybots.IdleRpg.Quest.Samples.{plain_quest}
use annoybots.IdleRpg.Quest.{
  Player, Quest, World, Draws, hunt_quest, activate, drafted, complete_quest, quest_violation,
  quest_kill_credit, pct_of_ttl, ttl,
}
use annoybots.IdleRpg.Quest.Life.{activate-IsLive, IsGood, IsLive}
use annoybots.IdleRpg.Quest.Steps.{here, then_, killed, strayed, Steps-IsLive}
use annoybots.IdleRpg.Quest.Rewards.{Unique, kills, hunt-length}

abbrev ann_player : Player
ann_player = record {
  key = ann;
  nick = codes "ann";
  network = codes "libera";
  channel = codes "#bots";
}

abbrev bob_player : Player
bob_player = record {
  key = bob;
  nick = codes "bob";
  network = codes "libera";
  channel = codes "#bots";
}

abbrev a_hunt : Draws
a_hunt = record {
  kind = 1;
  desc = 2;
  at = (pos 0, pos 0);
  first = (pos 0, pos 0);
  second = (pos 0, pos 0);
}

abbrev hunt : Quest
hunt = drafted a_hunt (pos 100) (pos 60) ann_player (bob_player ∷ [])

unfoldable hunting : World
hunting = activate plain_quest (record { store = realm; quest = none }) hunt

abbrev no_compass : ℤ → ℤ → Option (ℤ × ℤ)
no_compass dx dy = none

abbrev some_draw : Text → ℕ
some_draw k = 3

hunt-IsGood : IsGood hunt
unfolding drafted annoybots.IdleRpg.Quest.new_quest annoybots.IdleRpg.Quest.enlist_all
    annoybots.Base.insert text_eq
hunt-IsGood = record { party = omega arith; hunting = λ h. refl }

live : IsLive plain_quest hunting
unfolding hunting
live = activate-IsLive plain_quest (record { store = realm; quest = none }) hunt hunt-IsGood

-- ann, who is in the party, kills a foe; bob strays and ruins the quest.
Steps-IsLive_example :
    IsLive plain_quest
      (quest_violation (quest_kill_credit plain_quest hunting ann some_draw) bob some_draw)
Steps-IsLive_example =
    Steps-IsLive plain_quest no_compass
      (then_ (then_ here (killed ann some_draw)) (strayed bob some_draw)) live

hunting_quest : hunting.quest ≡ some hunt
unfolding activate hunting
hunting_quest = refl

hunt_of_14 : hunt.target ≡ pos 14
unfolding drafted
hunt_of_14 = refl

hunt_kind : hunt.kind ≡ hunt_quest
unfolding annoybots.IdleRpg.Quest.new_quest drafted
hunt_kind = refl

hunt_progress : hunt.progress ≡ pos 0
unfolding annoybots.IdleRpg.Quest.new_quest drafted
hunt_progress = refl

hunt-Unique : Unique hunt.members
unfolding annoybots.Base.insert annoybots.IdleRpg.Quest.enlist_all annoybots.IdleRpg.Quest.new_quest
    drafted lookup text_eq
hunt-Unique = (refl, (refl, tt))

ann_hunts : is_some (lookup ann hunt.members) ≡ true
unfolding annoybots.Base.insert annoybots.IdleRpg.Quest.enlist_all annoybots.IdleRpg.Quest.new_quest
    drafted lookup text_eq
ann_hunts = refl

abbrev two : List Text
two = ann ∷ (ann ∷ [])

hunt-length_example :
    (length two ≤ 13
      → (kills plain_quest hunting two some_draw).quest ≡ some (record hunt { progress = pos 2 }))
    × (length two ≡ 14 → (kills plain_quest hunting two some_draw).quest ≡ none)
hunt-length_example =
    hunt-length plain_quest hunting hunt two some_draw 0 13 hunting_quest hunt_kind
      (ann_hunts, (ann_hunts, tt)) hunt_progress hunt_of_14 (omega arith)
