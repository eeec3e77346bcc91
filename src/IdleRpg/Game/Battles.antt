-- ===== src/IdleRpg/Game/Battles.antt =====
-- Fights and quests of internal/idlerpg, on the level board: they leave it alone.
use annoybots.Base.{
  ℕ, ◌+◌, refl, Bool, true, false, ◌==◌, [], ◌∷◌, Option, Text, Map, text_eq, if◌then◌else◌,
  get_elem?, lookup, has as is_some, Bool-cases, Option-cases, inl, inr,
}
use annoybots.Base.Int.{ℤ, pos, neg, leb_ℤ, ltb_ℤ, add64, sub64}
use annoybots.State.{MemStore, h_incr, del, get_str}
use annoybots.IdleRpg.{sheet_key, quest_key, class_key}
use annoybots.IdleRpg.Sheet.{stat}
use annoybots.IdleRpg.Trade.{gold}
use annoybots.IdleRpg.Quest.{
  QuestCodec, QuestKind, Quest, World, ttl, pct_of_ttl, speed_up, complete_quest, save_quest,
  activate, quest_kill_credit, time_quest, map_quest, hunt_quest,
}
use annoybots.IdleRpg.Guild.{Book}
use annoybots.IdleRpg.Guild.Perks.{guild_fortune}
use annoybots.IdleRpg.Health.{damage, apply_poison, dmg, poison, poison_ticks, is_downed}
use annoybots.IdleRpg.Omens.{WorldEvent, harvest_gold}
use annoybots.IdleRpg.Bestiary.{bestiary_key, realm_bestiary_key, is_species, record_kill}
use annoybots.IdleRpg.Loot.{find_item}
use annoybots.IdleRpg.Game.Gods.{pet_key}
use annoybots.IdleRpg.Fight.{Foe, Bout, RoundDice}
use annoybots.IdleRpg.Fight.Settle.{
  kills, venomous, among, bruise, pet_kinds, pet_of, maybe_tame_pet, award_if, check_combat_feats,
  reap, Spoils, boss_spoils, foe_spoils, tally, settle, fight_monster,
}
use annoybots.IdleRpg.Game.Board.{
  IsQuiet, IsQuiet-refl, IsQuiet-trans, h_set-IsQuiet, h_incr-IsQuiet, set_str-IsQuiet, del-IsQuiet,
}
use annoybots.IdleRpg.Game.Finds.{
  tally-IsQuiet, bump_stat-IsQuiet, award_feat-IsQuiet, find_item-IsQuiet,
}

either-IsQuiet :
    {m x y : MemStore} (cond : Bool) → IsQuiet m x → IsQuiet m y → IsQuiet m (if cond then x else y)
either-IsQuiet true p q = p
either-IsQuiet false p q = q

bruise-IsQuiet :
    (m : MemStore) (key : Text) (foe : Foe) (taken : ℤ) → IsQuiet m (bruise m key foe taken)
unfolding bruise damage apply_poison text_eq
bruise-IsQuiet m key foe taken =
    let hurt = h_incr-IsQuiet m key dmg taken refl in
    let m1 = damage m key taken in
    elim (Bool-cases (ltb_ℤ (pos 0) taken)) [
      | inr whole ↦ rw (whole, bruise) (IsQuiet-refl m)
      | inl bled ↦ elim (Bool-cases (among foe.name venomous)) [
        | inr clean ↦ rw (bled, clean, bruise) hurt
        | inl venom ↦ elim (Bool-cases (leb_ℤ poison_ticks (stat m1 key poison))) [
          | inl worse ↦ rw (bled, venom, bruise, apply_poison, worse) hurt
          | inr fresh ↦
              rw (bled, venom, bruise, apply_poison, fresh)
                (IsQuiet-trans hurt (h_set-IsQuiet m1 key poison poison_ticks refl))
        ]
      ]
    ]

maybe_tame_pet-IsQuiet :
    (m : MemStore) (key : Text) (chance pick : ℕ) → IsQuiet m (maybe_tame_pet m key chance pick)
unfolding maybe_tame_pet
maybe_tame_pet-IsQuiet m key chance pick = elim (Option-cases (pet_of m key)) [
  | inr (p, e) ↦ rw (e, maybe_tame_pet) (IsQuiet-refl m)
  | inl alone ↦ elim (Bool-cases (chance == 0)) [
    | inr no_luck ↦ rw (alone, no_luck, maybe_tame_pet) (IsQuiet-refl m)
    | inl luck ↦ elim (Option-cases (get_elem? pet_kinds pick)) [
      | inl out ↦ rw (alone, luck, out, maybe_tame_pet) (IsQuiet-refl m)
      | inr ((name, p), e) ↦
          rw (alone, luck, e, maybe_tame_pet) (set_str-IsQuiet m (pet_key key) name)
    ]
  ]
]

award_if-IsQuiet :
    {m n : MemStore} (cond : Bool) (key : Text) (bit : ℕ)
    → IsQuiet m n
    → IsQuiet m (award_if cond key bit n)
unfolding award_if
award_if-IsQuiet {m} {n} true key bit q = IsQuiet-trans q (award_feat-IsQuiet n key bit)
award_if-IsQuiet {m} {n} false key bit q = q

check_combat_feats-IsQuiet :
    (m : MemStore) (key : Text) (boss : Bool) → IsQuiet m (check_combat_feats m key boss)
unfolding check_combat_feats
check_combat_feats-IsQuiet m key boss = award_if-IsQuiet _ key 1024 (
    award_if-IsQuiet _ key 128 (
      award_if-IsQuiet _ key 32 (
        award_if-IsQuiet boss key 8 (
          award_if-IsQuiet _ key 64 (
            award_if-IsQuiet _ key 4
              (award_if-IsQuiet _ key 2 (award_if-IsQuiet _ key 1 (IsQuiet-refl m))))))))

record_kill-IsQuiet : (m : MemStore) (key name : Text) → IsQuiet m (record_kill m key name)
unfolding record_kill bestiary_key sheet_key text_eq
record_kill-IsQuiet m key name = elim (Bool-cases (is_species name)) [
  | inr other ↦ rw (other, record_kill) (IsQuiet-refl m)
  | inl known ↦
      rw (known, record_kill)
        (IsQuiet-trans (tally-IsQuiet m (bestiary_key key) name (pos 1) (λ k. refl))
          (tally-IsQuiet _ realm_bestiary_key name (pos 1) (λ k. refl)))
]

reap-IsQuiet :
    (m : MemStore) (key : Text) (reward coins count : ℤ) → IsQuiet m (reap m key reward coins count)
unfolding reap text_eq
reap-IsQuiet m key reward coins count =
    IsQuiet-trans (h_incr-IsQuiet m key ttl (neg reward) refl)
      (IsQuiet-trans (h_incr-IsQuiet _ key gold coins refl) (h_incr-IsQuiet _ key kills count refl))

boss_spoils-IsQuiet :
    (m : MemStore) (key : Text) (foe : Foe) (coins : ℤ) (d : Spoils)
    → IsQuiet m (boss_spoils m key foe coins d)
unfolding boss_spoils
boss_spoils-IsQuiet m key foe coins d = IsQuiet-trans (reap-IsQuiet m key _ coins (pos 3)) (
    IsQuiet-trans (find_item-IsQuiet _ key d.first) (
      IsQuiet-trans (find_item-IsQuiet _ key d.second) (
        IsQuiet-trans (maybe_tame_pet-IsQuiet _ key d.tamed d.kind) (
          IsQuiet-trans (record_kill-IsQuiet _ key foe.name)
            (check_combat_feats-IsQuiet _ key true)))))

foe_spoils-IsQuiet :
    (m : MemStore) (key : Text) (foe : Foe) (coins : ℤ) (d : Spoils)
    → IsQuiet m (foe_spoils m key foe coins d)
unfolding foe_spoils
foe_spoils-IsQuiet m key foe coins d =
    let m1 = reap m key (pct_of_ttl m key (8 + d.pct)) coins (pos 1) in
    let dropped : IsQuiet m1 (if d.drops then find_item m1 key d.first else m1) =
      either-IsQuiet d.drops (find_item-IsQuiet m1 key d.first) (IsQuiet-refl m1) in
    IsQuiet-trans (reap-IsQuiet m key _ coins (pos 1)) (
      IsQuiet-trans dropped (
        IsQuiet-trans (record_kill-IsQuiet _ key foe.name)
          (check_combat_feats-IsQuiet _ key false)))

tallied-IsQuiet : (m : MemStore) (boss : Bool) (coins : ℤ) → IsQuiet m (tally m boss coins)
unfolding tally
tallied-IsQuiet m true coins =
    IsQuiet-trans (bump_stat-IsQuiet m _ _)
      (IsQuiet-trans (bump_stat-IsQuiet _ _ _) (bump_stat-IsQuiet _ _ _))
tallied-IsQuiet m false coins = IsQuiet-trans (bump_stat-IsQuiet m _ _) (bump_stat-IsQuiet _ _ _)

speed_up-IsQuiet :
    (m : MemStore) (lo : ℕ) (draw : Text → ℕ) (members : Map Text)
    → IsQuiet m (speed_up m lo draw members)
unfolding speed_up text_eq
speed_up-IsQuiet m lo draw [] = IsQuiet-refl m
speed_up-IsQuiet m lo draw ((key, nick) ∷ rest) =
    IsQuiet-trans (h_incr-IsQuiet m key ttl (neg (pct_of_ttl m key (lo + draw key))) refl) (
      speed_up-IsQuiet (h_incr m (sheet_key key) ttl (neg (pct_of_ttl m key (lo + draw key)))).0 lo
        draw rest)

complete_quest-IsQuiet :
    (w : World) (draw : Text → ℕ) → IsQuiet w.store (complete_quest w draw).store
unfolding complete_quest text_eq sheet_key
complete_quest-IsQuiet w draw = elim (Option-cases w.quest) [
  | inl none_on ↦ rw (none_on, complete_quest) (IsQuiet-refl w.store)
  | inr (q, e) ↦
      rw (e, complete_quest)
        (IsQuiet-trans (del-IsQuiet w.store quest_key (λ k. refl) refl)
          (speed_up-IsQuiet (del w.store quest_key) 20 draw q.members))
]

by_kind :
    (kind : QuestKind) (w x : World)
    → IsQuiet w.store x.store
    → IsQuiet w.store
        (elim kind as (λ k. World) [ time_quest ↦ w | map_quest ↦ w | hunt_quest ↦ x ]).store
by_kind time_quest w x q = IsQuiet-refl w.store
by_kind map_quest w x q = IsQuiet-refl w.store
by_kind hunt_quest w x q = q

module _ (json : QuestCodec) where
  activate-IsQuiet : (w : World) (q : Quest) → IsQuiet w.store (activate json w q).store
  unfolding activate save_quest
  activate-IsQuiet w q = set_str-IsQuiet w.store quest_key (json.encode q)

  quest_kill_credit-IsQuiet :
      (w : World) (key : Text) (draw : Text → ℕ)
      → IsQuiet w.store (quest_kill_credit json w key draw).store
  unfolding quest_kill_credit
  quest_kill_credit-IsQuiet w key draw = elim (Option-cases w.quest) [
    | inl none_on ↦ rw (none_on, quest_kill_credit) (IsQuiet-refl w.store)
    | inr (q, e) ↦
        let q1 = record q { progress = add64 q.progress (pos 1) } in
        let w1 = activate json w q1 in
        let noted = activate-IsQuiet w q1 in
        rw (e, quest_kill_credit)
          (by_kind q.kind w _ (elim (Bool-cases (is_some (lookup key q.members))) [
            | inr stray ↦ rw stray (IsQuiet-refl w.store)
            | inl member ↦ elim (Bool-cases (leb_ℤ q1.target q1.progress)) [
              | inl done ↦ rw (member, done) (IsQuiet-trans noted (complete_quest-IsQuiet w1 draw))
              | inr more ↦ rw (member, more) noted
            ]
          ]))
  ]

  settle-IsQuiet :
      (w : World) (book : Book) (event : Option WorldEvent) (key : Text) (foe : Foe) (start : ℤ)
      (b : Bout) (d : Spoils) (draw : Text → ℕ)
      → IsQuiet w.store (settle json w book event key foe start b d draw).store
  unfolding settle
  settle-IsQuiet w book event key foe start b d draw =
      let m = bruise w.store key foe (sub64 start b.hp) in
      let hurt = bruise-IsQuiet w.store key foe (sub64 start b.hp) in
      let coins = guild_fortune book key (harvest_gold event foe.gold) in
      let spoilt : IsQuiet m
          (if foe.boss then boss_spoils m key foe coins d else foe_spoils m key foe coins d) =
        either-IsQuiet foe.boss (boss_spoils-IsQuiet m key foe coins d)
          (foe_spoils-IsQuiet m key foe coins d) in
      elim (Bool-cases (leb_ℤ b.foe_hp (pos 0))) [
        | inr stands ↦ rw (stands, settle) hurt
        | inl slain ↦
            rw (slain, settle)
              (IsQuiet-trans hurt (
                IsQuiet-trans spoilt (
                  IsQuiet-trans (quest_kill_credit-IsQuiet _ key draw)
                    (tallied-IsQuiet _ foe.boss coins))))
      ]

  pub fight_monster-IsQuiet :
      (w : World) (book : Book) (event : Option WorldEvent) (key sky : Text) (foe : Foe)
      (dice : ℕ → RoundDice) (d : Spoils) (draw : Text → ℕ)
      → IsQuiet w.store (fight_monster json w book event key sky foe dice d draw).store
  unfolding fight_monster
  fight_monster-IsQuiet w book event key sky foe dice d draw =
      elim (Bool-cases (is_downed (stat w.store key) (get_str w.store (class_key key)))) [
        | inl downed ↦ rw (downed, fight_monster) (IsQuiet-refl w.store)
        | inr up ↦ rw (up, fight_monster) (settle-IsQuiet w book event key foe _ _ d draw)
      ]
