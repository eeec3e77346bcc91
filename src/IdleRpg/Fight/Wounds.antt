-- ===== src/IdleRpg/Fight/Wounds.antt =====
-- What a fight that the foe survives does to the hero, in resolveFight of internal/idlerpg/monsters.go.
use annoybots.Base.{
  ℕ, ap, subst, ◌≡◌, ◌≤◌, refl, ◌∙◌, false, ◌&&◌, Text, text_eq, text_eq_refl, arith, if◌then◌else◌,
  Bool-cases, inl, inr, Option,
}
use annoybots.Base.Int.{
  ℤ, pos, negsuc, leb_ℤ, ltb_ℤ, add64, sub64, ◌≤ℤ◌, ◌+ℤ◌, ◌-ℤ◌, wrap64, pos_part, neg_part,
}
use annoybots.State.{MemStore, h_set, h_incr, get_str}
use annoybots.IdleRpg.{class_key, item_field, rarity_field, affix_field}
use annoybots.IdleRpg.Sheet.{stat, stat-h_set, stat-h_incr}
use annoybots.IdleRpg.Rebirth.{level}
use annoybots.IdleRpg.Quest.{QuestCodec, World}
use annoybots.IdleRpg.Guild.{Book}
use annoybots.IdleRpg.Health.{
  dmg, con, poison, poison_ticks, damage, apply_poison, max_hp, cur_hp, is_downed,
}
use annoybots.IdleRpg.Health.Healing.{IsAlike, max_hp-alike}
use annoybots.IdleRpg.Omens.{WorldEvent}
use annoybots.IdleRpg.Guild.Perks.{guild_might}
use annoybots.IdleRpg.Fight.{Foe, Bout, Arena, RoundDice, arena, fight}
use annoybots.IdleRpg.Fight.Rounds.{IsUsual, IsAlive, fight-IsAlive}
use annoybots.IdleRpg.Fight.Settle.{Spoils, venomous, among, bruise, settle, pet_of, fight_monster}

-- A bruise takes the damage and may set the poison; every other field is left.
stat-bruise :
    (m : MemStore) (key g : Text) (foe : Foe) (taken : ℤ)
    → text_eq poison g ≡ false
    → stat (bruise m key foe taken) key g ≡ (
        if ltb_ℤ (pos 0) taken && text_eq dmg g then add64 (stat m key dmg) taken else stat m key g)
unfolding bruise damage apply_poison
stat-bruise m key g foe taken other =
    let m1 = damage m key taken in
    let hit = stat-h_incr m key key dmg g taken in
    elim (Bool-cases (ltb_ℤ (pos 0) taken)) [
      | inr whole ↦ rw (whole, bruise) refl
      | inl bled ↦ elim (Bool-cases (among foe.name venomous)) [
        | inr clean ↦ rw (bled, clean, bruise) (ground (arith, hit, text_eq_refl key))
        | inl venom ↦ elim (Bool-cases (leb_ℤ poison_ticks (stat m1 key poison))) [
          | inl worse ↦
              rw (bled, venom, bruise, apply_poison, worse) (ground (arith, hit, text_eq_refl key))
          | inr fresh ↦
              rw (bled, venom, bruise, apply_poison, fresh)
                (ground (
                  arith,
                  stat-h_set m1 key key poison g poison_ticks,
                  other,
                  hit,
                  text_eq_refl key,
                ))
        ]
      ]
    ]

bruise-IsAlike :
    (m : MemStore) (key : Text) (foe : Foe) (taken : ℤ)
    → IsAlike (stat (bruise m key foe taken) key) (stat m key)
unfolding text_eq item_field rarity_field affix_field
bruise-IsAlike m key foe taken = record {
  levels = ground (arith, stat-bruise m key level foe taken refl);
  cons = ground (arith, stat-bruise m key con foe taken refl);
  items = λ slot. ground (arith, stat-bruise m key (item_field slot) foe taken refl);
  tiers = λ slot. ground (arith, stat-bruise m key (rarity_field slot) foe taken refl);
  masks = λ slot. ground (arith, stat-bruise m key (affix_field slot) foe taken refl);
}

dmg-bruise :
    (m : MemStore) (key : Text) (foe : Foe) (taken : ℤ)
    → stat (bruise m key foe taken) key dmg
      ≡ (if ltb_ℤ (pos 0) taken then add64 (stat m key dmg) taken else stat m key dmg)
unfolding text_eq
dmg-bruise m key foe taken = ground (arith, stat-bruise m key dmg foe taken refl)

class-bruise :
    (m : MemStore) (key k : Text) (foe : Foe) (taken : ℤ)
    → get_str (bruise m key foe taken) k ≡ get_str m k
unfolding bruise damage apply_poison get_str h_incr h_set
class-bruise m key k foe taken = ground arith

-- A number, or 0 for a negative one.
abbrev pub at_least_0 : ℤ → ℤ
at_least_0 z = if ltb_ℤ z (pos 0) then pos 0 else z

-- Far from the ends of int64.
abbrev pub IsTame : ℤ → Type 0
IsTame z = (pos_part z ≤ 1000000000000000000) × (neg_part z ≤ 1000000000000000000)

-- The damage that takes a hero from the hit points of the start to those of the end.
left_with :
    (top old hp : ℤ)
    → IsTame top
    → IsTame old
    → pos 1 ≤ℤ at_least_0 (sub64 top old)
    → hp ≤ℤ at_least_0 (sub64 top old)
    → negsuc 999 ≤ℤ hp
    → at_least_0 (
        sub64 top (
          if ltb_ℤ (pos 0) (sub64 (at_least_0 (sub64 top old)) hp)
          then add64 old (sub64 (at_least_0 (sub64 top old)) hp)
          else old))
      ≡ at_least_0 hp
unfolding add64 sub64 wrap64 ◌+ℤ◌ ◌-ℤ◌
left_with (pos t) (pos o) (pos n) h k a b c = ground arith
left_with (pos t) (pos o) (negsuc n) h k a b c = ground arith
left_with (pos t) (negsuc o) (pos n) h k a b c = ground arith
left_with (pos t) (negsuc o) (negsuc n) h k a b c = ground arith
left_with (negsuc t) (pos o) (pos n) h k a b c = ground arith
left_with (negsuc t) (pos o) (negsuc n) h k a b c = ground arith
left_with (negsuc t) (negsuc o) (pos n) h k a b c = ground arith
left_with (negsuc t) (negsuc o) (negsuc n) h k a b c = ground arith

-- The hit points that a fight leaves are those that the store shows, where the foe is not slain.
pub settle-hp :
    (json : QuestCodec) (w : World) (book : Book) (event : Option WorldEvent) (key : Text)
    (foe : Foe) (b : Bout) (d : Spoils) (draw : Text → ℕ)
    → leb_ℤ b.foe_hp (pos 0) ≡ false
    → IsTame (max_hp (stat w.store key) (get_str w.store (class_key key)))
    → IsTame (stat w.store key dmg)
    → pos 1 ≤ℤ cur_hp (stat w.store key) (get_str w.store (class_key key))
    → b.hp ≤ℤ cur_hp (stat w.store key) (get_str w.store (class_key key))
    → negsuc 999 ≤ℤ b.hp
    → (let start = cur_hp (stat w.store key) (get_str w.store (class_key key)) in
        let after = (settle json w book event key foe start b d draw).store in
        cur_hp (stat after key) (get_str after (class_key key)) ≡ at_least_0 b.hp)
unfolding settle cur_hp
settle-hp json w book event key foe b d draw stands h k up capped deep =
    let class = get_str w.store (class_key key) in
    let start = cur_hp (stat w.store key) class in
    let taken = sub64 start b.hp in
    let m = bruise w.store key foe taken in
    rw
      (
        stands,
        settle,
        class-bruise w.store key (class_key key) foe taken,
        max_hp-alike (stat m key) (stat w.store key) class (bruise-IsAlike w.store key foe taken),
        dmg-bruise w.store key foe taken,
      )
      (left_with (max_hp (stat w.store key) class) (stat w.store key dmg) b.hp h k up capped deep)

-- The arena of a hero and a foe in the store.
abbrev pub arena_of : World → Book → Text → Text → Foe → Arena
arena_of w book key sky foe =
    arena (stat w.store key) (get_str w.store (class_key key)) sky (pet_of w.store key)
      (guild_might book key) foe

start-cur_hp :
    (w : World) (book : Book) (key sky : Text) (foe : Foe)
    → (arena_of w book key sky foe).start_hp
      ≡ cur_hp (stat w.store key) (get_str w.store (class_key key))
unfolding arena
start-cur_hp w book key sky foe = refl

clamped_downed : (z : ℤ) → leb_ℤ (at_least_0 z) (pos 0) ≡ leb_ℤ z (pos 0)
clamped_downed z = ground arith

-- An encounter that the foe survives leaves the hero, in the store, with exactly the hit points that
-- the rounds left (0 for a negative number), and downed exactly if those are not above 0. The numbers of
-- the fight are of the sizes that IsUsual names, and the maximum and the damage of the hero are far from
-- the ends of int64.
pub fight_monster-hp :
    (json : QuestCodec) (w : World) (book : Book) (event : Option WorldEvent) (key sky : Text)
    (foe : Foe) (dice : ℕ → RoundDice) (d : Spoils) (draw : Text → ℕ)
    → IsUsual (arena_of w book key sky foe) dice
    → IsTame (max_hp (stat w.store key) (get_str w.store (class_key key)))
    → IsTame (stat w.store key dmg)
    → leb_ℤ (fight (arena_of w book key sky foe) foe.hp dice).foe_hp (pos 0) ≡ false
    → (let b = fight (arena_of w book key sky foe) foe.hp dice in
        let after = (fight_monster json w book event key sky foe dice d draw).store in
        (cur_hp (stat after key) (get_str after (class_key key)) ≡ at_least_0 b.hp)
        × (is_downed (stat after key) (get_str after (class_key key)) ≡ leb_ℤ b.hp (pos 0)))
unfolding fight_monster is_downed arena
fight_monster-hp json w book event key sky foe dice d draw u h k stands =
    let a = arena_of w book key sky foe in
    let b = fight a foe.hp dice in
    let alive : IsAlive a (negsuc 999) b = fight-IsAlive a dice u foe.hp in
    let same = start-cur_hp w book key sky foe in
    let class = get_str w.store (class_key key) in
    let up : leb_ℤ (cur_hp (stat w.store key) class) (pos 0) ≡ false =
      ground (arith, same, u.start) in
    let hp =
      settle-hp json w book event key foe b d draw stands h k (subst (λ z. pos 1 ≤ℤ z) same u.start)
        (subst (λ z. b.hp ≤ℤ z) same alive.capped) alive.floor in
    rw (up, fight_monster) (hp, ap (λ z. leb_ℤ z (pos 0)) hp ∙ clamped_downed b.hp)
