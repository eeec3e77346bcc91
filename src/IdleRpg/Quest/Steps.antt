-- ===== src/IdleRpg/Quest/Steps.antt =====
-- The steps of the quest of internal/idlerpg/quest.go: ticks, kills, and words of the players.
use annoybots.Base.{
  ℕ, ◌≤◌, Bool, true, false, ◌≡◌, sym, subst, refl, ◌⊎◌, inl, inr, [], List, Option, none, some,
  Text, arith, length, length-take, if◌then◌else◌, ◌==◌, Option-cases,
}
use annoybots.Base.Int.{ℤ, pos, leb_ℤ, add64}
use annoybots.IdleRpg.Quest.{
  Player, Quest, QuestCodec, World, Draws, party_max, complete_quest, fail_hunt_quest,
  quest_violation, draft_party, dedup, activate, start_quest, quest_kill_credit, step_toward,
  advance_map_quest, quest_tick,
}
use annoybots.IdleRpg.Quest.Life.{
  activate-IsLive, completed-IsLive, complete_quest-IsLive, fail_hunt_quest-IsLive,
  quest_violation-IsLive, start_quest-IsLive, IsGood-quest, IsLive, IsGood,
}

module _ (json : QuestCodec) where
  if_IsLive :
      {w v : World} (b : Bool) → IsLive json w → IsLive json v → IsLive json (if b then w else v)
  if_IsLive true l r = l
  if_IsLive false l r = r

  idle_kill :
      (w : World) (key : Text) (draw : Text → ℕ)
      → w.quest ≡ none
      → w ≡ quest_kill_credit json w key draw
  unfolding quest_kill_credit
  idle_kill w key draw e = ground (arith, e)

  quest-activate : (w : World) (q : Quest) → (activate json w q).quest ≡ some q
  unfolding activate
  quest-activate w q = refl

  kill_cases :
      (w : World) (q : Quest) (key : Text) (draw : Text → ℕ)
      → w.quest ≡ some q
      → let q1 = record q { progress = add64 q.progress (pos 1) } in
        (quest_kill_credit json w key draw ≡ w)
        ⊎ ((leb_ℤ q1.target q1.progress ≡ false)
            × (quest_kill_credit json w key draw ≡ activate json w q1))
        ⊎ (quest_kill_credit json w key draw ≡ complete_quest (activate json w q1) draw)
  unfolding quest_kill_credit
  kill_cases w q key draw e = ground (arith, e)

  quest_kill_credit-IsLive :
      (w : World) (key : Text) (draw : Text → ℕ)
      → IsLive json w
      → IsLive json (quest_kill_credit json w key draw)
  quest_kill_credit-IsLive w key draw v = elim (Option-cases w.quest) [
    | inl e ↦ subst (IsLive json) (idle_kill w key draw e) v
    | inr (q, e) ↦ elim (kill_cases w q key draw e) [
      | inl same ↦ subst (IsLive json) (sym same) v
      | inr (inl (on, same)) ↦
          let q1 = record q { progress = add64 q.progress (pos 1) } in
          subst (IsLive json) (sym same) (
            activate-IsLive json w q1 (record {
              party = (IsGood-quest json w q e v).party;
              hunting = λ h. ground (arith, on);
            }))
      | inr (inr same) ↦
          let q1 = record q { progress = add64 q.progress (pos 1) } in
          subst (IsLive json) (sym same)
            (completed-IsLive json (activate json w q1) q1 draw (quest-activate w q1))
    ]
  ]

  module _ (compass : ℤ → ℤ → Option (ℤ × ℤ)) where
    map_cases :
        (w : World) (q : Quest) (draw : Text → ℕ)
        → w.quest ≡ some q
        → let step = step_toward compass q.at (if q.stage == 0 then q.first else q.second) in
          let q1 = record q { at = step.0 } in
          (advance_map_quest json compass w draw ≡ activate json w q1)
          ⊎ (advance_map_quest json compass w draw ≡ activate json w (record q1 { stage = 1 }))
          ⊎ (advance_map_quest json compass w draw
              ≡ complete_quest (record w { quest = some q1 }) draw)
    unfolding advance_map_quest
    map_cases w q draw e = ground (arith, e)

    moved-IsGood :
        (q : Quest) (at : ℤ × ℤ) (n : ℕ) → IsGood q → IsGood (record q { at = at; stage = n })
    moved-IsGood q at n g = record { party = g.party; hunting = g.hunting }

    advance_map_quest-IsLive :
        (w : World) (q : Quest) (draw : Text → ℕ)
        → w.quest ≡ some q
        → IsLive json w
        → IsLive json (advance_map_quest json compass w draw)
    advance_map_quest-IsLive w q draw e v =
        let step = step_toward compass q.at (if q.stage == 0 then q.first else q.second) in
        let g = IsGood-quest json w q e v in
        elim (map_cases w q draw e) [
          | inl same ↦
              subst (IsLive json) (sym same)
                (activate-IsLive json w _ (moved-IsGood q step.0 q.stage g))
          | inr (inl same) ↦
              subst (IsLive json) (sym same) (activate-IsLive json w _ (moved-IsGood q step.0 1 g))
          | inr (inr same) ↦ subst (IsLive json) (sym same) (
              completed-IsLive json (record w { quest = some (record q { at = step.0 }) })
                (record q { at = step.0 }) draw refl)
        ]

    idle_tick :
        (w : World) (now duration : ℤ) (starts : Bool) (d : Draws) (party : List Player)
        (draw : Text → ℕ)
        → w.quest ≡ none
        → quest_tick json compass w now duration starts d party draw
          ≡ (if starts then start_quest json w d now duration party else w)
    unfolding quest_tick
    idle_tick w now duration starts d party draw e = ground (arith, e)

    busy_tick :
        (w : World) (q : Quest) (now duration : ℤ) (starts : Bool) (d : Draws) (party : List Player)
        (draw : Text → ℕ)
        → w.quest ≡ some q
        → let after = quest_tick json compass w now duration starts d party draw in
          (after ≡ advance_map_quest json compass w draw)
          ⊎ (after ≡ fail_hunt_quest w)
          ⊎ (after ≡ complete_quest w draw)
          ⊎ (after ≡ w)
    unfolding quest_tick
    busy_tick w q now duration starts d party draw e = ground (arith, e)

    quest_tick-IsLive :
        (w : World) (now duration : ℤ) (starts : Bool) (d : Draws) (party : List Player)
        (draw : Text → ℕ)
        → length party ≤ party_max
        → IsLive json w
        → IsLive json (quest_tick json compass w now duration starts d party draw)
    quest_tick-IsLive w now duration starts d party draw room v = elim (Option-cases w.quest) [
      | inl e ↦
          subst (IsLive json) (sym (idle_tick w now duration starts d party draw e))
            (if_IsLive starts (start_quest-IsLive json w d now duration party room v) v)
      | inr (q, e) ↦ elim (busy_tick w q now duration starts d party draw e) [
        | inl same ↦ subst (IsLive json) (sym same) (advance_map_quest-IsLive w q draw e v)
        | inr (inl same) ↦ subst (IsLive json) (sym same) (fail_hunt_quest-IsLive json w v)
        | inr (inr (inl same)) ↦
            subst (IsLive json) (sym same) (complete_quest-IsLive json w draw v)
        | inr (inr (inr same)) ↦ subst (IsLive json) (sym same) v
      ]
    ]

-- What may happen to the quest: a tick, in which a party is drafted if a quest is to start, a kill
-- by a player, or a word or departure of a player.
pub data Step (json : QuestCodec) (compass : ℤ → ℤ → Option (ℤ × ℤ)) : World → World → Type 0 where
  ticked :
      {w : World} (now duration : ℤ) (starts : Bool) (d : Draws)
      (shuffle : List Player → List Player) (roster : List Player) (draw : Text → ℕ)
      → Step json compass w
          (quest_tick json compass w now duration starts d (draft_party shuffle roster) draw)
  killed :
      {w : World} (key : Text) (draw : Text → ℕ)
      → Step json compass w (quest_kill_credit json w key draw)
  strayed :
      {w : World} (key : Text) (draw : Text → ℕ) → Step json compass w (quest_violation w key draw)

pub data Steps (json : QuestCodec) (compass : ℤ → ℤ → Option (ℤ × ℤ)) : World → World → Type 0 where
  here : {w : World} → Steps json compass w w
  then_ : {w v u : World} → Steps json compass w v → Step json compass v u → Steps json compass w u

draft_party-max :
    (shuffle : List Player → List Player) (roster : List Player)
    → length (draft_party shuffle roster) ≤ party_max
unfolding draft_party
draft_party-max shuffle roster = omega (arith, length-take party_max (shuffle (dedup [] roster)))

Step-IsLive :
    (json : QuestCodec) (compass : ℤ → ℤ → Option (ℤ × ℤ)) {w v : World}
    → Step json compass w v
    → IsLive json w
    → IsLive json v
Step-IsLive json compass (ticked {w} now duration starts d shuffle roster draw) l =
    quest_tick-IsLive json compass w now duration starts d (draft_party shuffle roster) draw
      (draft_party-max shuffle roster) l
Step-IsLive json compass (killed {w} key draw) l = quest_kill_credit-IsLive json w key draw l
Step-IsLive json compass (strayed {w} key draw) l = quest_violation-IsLive json w key draw l

-- However ticks, kills and strays follow each other, a bot that starts on the store reads exactly the
-- quest in memory, its party is of four at most, and a hunt has its target still ahead, if that held
-- of the first world.
pub Steps-IsLive :
    (json : QuestCodec) (compass : ℤ → ℤ → Option (ℤ × ℤ)) {w v : World}
    → Steps json compass w v
    → IsLive json w
    → IsLive json v
Steps-IsLive json compass here l = l
Steps-IsLive json compass (then_ steps step) l =
    Step-IsLive json compass step (Steps-IsLive json compass steps l)
