-- ===== src/IdleRpg/Fight/Rounds.antt =====
-- The hit points of the hero through the rounds of internal/idlerpg/monsters.go.
use annoybots.Base.{ℕ, zero, suc, ◌+◌, ◌<◌, ◌≡◌, Bool, true, ◌||◌, arith, Bool-cases, inl, inr}
use annoybots.Base.Int.{
  ℤ, pos, negsuc, ◌≤ℤ◌, leb_ℤ, add64, sub64, wrap64, ◌+ℤ◌, sub_small, -ℤ_parts, one_part, int_laws,
}
use annoybots.IdleRpg.Fight.{
  Arena, Bout, RoundDice, mend_to, swing, swings, lose_foe_hp, attack, wound, riposte, fighting,
  round, rounds, fight, max_rounds,
}

-- The hero's hit points are at most those at the start, and at least lo.
pub record IsAlive (a : Arena) (lo : ℤ) (b : Bout) : Type 0 where
  pub capped : b.hp ≤ℤ a.start_hp
  pub floor : lo ≤ℤ b.hp

-- Dice and armour of the sizes that the game has.
pub record IsUsual (a : Arena) (dice : ℕ → RoundDice) : Type 0 where
  pub start : pos 1 ≤ℤ a.start_hp
  pub small : a.start_hp ≤ℤ pos 1000000000
  pub ward : pos 0 ≤ℤ a.gear.warded
  pub low_ward : a.gear.warded ≤ℤ pos 1000
  pub drink : a.gear.lifesteal ≤ℤ pos 1000
  pub word : a.mods.self_heal ≤ℤ pos 1000
  pub hurts : (i : ℕ) → (dice i).hurt < 1000

mend_to-bounds :
    (start hp amt : ℤ)
    → hp ≤ℤ start
    → negsuc 999 ≤ℤ hp
    → start ≤ℤ pos 1000000000
    → amt ≤ℤ pos 1000
    → (mend_to start hp amt ≤ℤ start) × (hp ≤ℤ mend_to start hp amt)
unfolding mend_to add64 wrap64 ◌+ℤ◌
mend_to-bounds (pos s) (pos h) (pos a) p q r t = (ground arith, ground arith)
mend_to-bounds (pos s) (negsuc h) (pos a) p q r t = (ground arith, ground arith)
mend_to-bounds (negsuc s) (pos h) (pos a) p q r t = (ground arith, ground arith)
mend_to-bounds (negsuc s) (negsuc h) (pos a) p q r t = (ground arith, ground arith)
mend_to-bounds s h (negsuc a) p q r t = (ground arith, ground arith)

wound-bounds :
    (a : Arena) (hurt : ℕ)
    → hurt < 1000
    → pos 0 ≤ℤ a.gear.warded
    → a.gear.warded ≤ℤ pos 1000
    → (pos 1 ≤ℤ wound a hurt) × (wound a hurt ≤ℤ pos 1000)
unfolding wound
wound-bounds a hurt h p q = ground (
  arith,
  sub_small (pos (hurt + 1)) a.gear.warded,
  -ℤ_parts (pos (hurt + 1)) a.gear.warded,
  one_part a.gear.warded,
)

≤ℤ_trans : (x y z : ℤ) → x ≤ℤ y → y ≤ℤ z → x ≤ℤ z
≤ℤ_trans x y z h k = omega arith

module _ (a : Arena) (dice : ℕ → RoundDice) (u : IsUsual a dice) (lo : ℤ)
    (deep : negsuc 999 ≤ℤ lo) where
  swing-IsAlive : (b : Bout) (d : ℕ × ℕ) → IsAlive a lo b → IsAlive a lo (swing a b d).0
  unfolding swing
  swing-IsAlive b (face, cut) h = ground (
    arith,
    mend_to-bounds a.start_hp b.hp a.gear.lifesteal h.capped
        (≤ℤ_trans (negsuc 999) lo b.hp deep h.floor) u.small u.drink,
    ≤ℤ_trans lo b.hp (mend_to a.start_hp b.hp a.gear.lifesteal) h.floor,
  )

  swings-IsAlive :
      (more : ℕ → ℕ × ℕ) (b : Bout) (hit : Bool) (left : ℕ)
      → IsAlive a lo b
      → IsAlive a lo (swings a more b hit left).0
  unfolding swings
  swings-IsAlive more b hit zero h = h
  swings-IsAlive more b hit (suc left) h =
      swings-IsAlive more (swing a b (more left)).0 ((swing a b (more left)).1 || hit) left
        (swing-IsAlive b (more left) h)

  lose_foe_hp-hp : (cond : Bool) (b : Bout) (amt : ℤ) → (lose_foe_hp cond b amt).hp ≡ b.hp
  unfolding lose_foe_hp
  lose_foe_hp-hp cond b amt = ground arith

  pub attack-IsAlive : (b : Bout) (d : RoundDice) → IsAlive a lo b → IsAlive a lo (attack a b d)
  unfolding attack
  attack-IsAlive b d h =
      let (b1, hit1) = swing a b d.first in
      let (b2, hit) = swings a d.extra b1 hit1 a.mods.extra_attacks in
      let kept : IsAlive a lo b2 =
        swings-IsAlive d.extra b1 hit1 a.mods.extra_attacks (swing-IsAlive b d.first h) in
      ground (
        arith,
        kept.capped,
        kept.floor,
        lose_foe_hp-hp true (lose_foe_hp hit b2 a.mods.bonus_on_hit) a.mods.auto_dmg,
        lose_foe_hp-hp hit b2 a.mods.bonus_on_hit,
      )

module _ (a : Arena) (dice : ℕ → RoundDice) (u : IsUsual a dice) where
  struck-bounds :
      (hp : ℤ) (hurt : ℕ)
      → hurt < 1000
      → hp ≤ℤ a.start_hp
      → pos 1 ≤ℤ hp
      → (sub64 hp (wound a hurt) ≤ℤ a.start_hp) × (negsuc 999 ≤ℤ sub64 hp (wound a hurt))
  struck-bounds hp hurt low capped alive =
      let (least, most) = wound-bounds a hurt low u.ward u.low_ward in
      rw
        (sub_small hp (wound a hurt) (ground (arith, one_part hp, u.small))
          (ground (arith, one_part (wound a hurt))))
        (omega (int_laws, one_part hp, one_part (wound a hurt)))

  riposte-IsAlive :
      (b : Bout) (d : RoundDice)
      → d.hurt < 1000
      → IsAlive a (pos 1) b
      → IsAlive a (negsuc 999) (riposte a b d)
  unfolding riposte
  riposte-IsAlive b d low h =
      let (capped, deep) = struck-bounds b.hp d.hurt low h.capped h.floor in
      ground (
        arith,
        mend_to-bounds a.start_hp b.hp a.mods.self_heal h.capped
            (≤ℤ_trans (negsuc 999) (pos 1) b.hp (omega arith) h.floor) u.small u.word,
        mend_to-bounds a.start_hp (sub64 b.hp (wound a d.hurt)) a.mods.self_heal capped deep u.small
            u.word,
        capped,
        deep,
        h.capped,
        h.floor,
      )

  pub round-IsAlive :
      (b : Bout) (i : ℕ)
      → fighting b ≡ true
      → IsAlive a (negsuc 999) b
      → IsAlive a (negsuc 999) (round a b (dice i))
  unfolding round fighting
  round-IsAlive b i on h =
      let up : IsAlive a (pos 1) b = record { capped = h.capped; floor = ground (arith, on) } in
      let mid : IsAlive a (pos 1) (attack a b (dice i)) =
        attack-IsAlive a dice u (pos 1) (omega arith) b (dice i) up in
      elim (Bool-cases (leb_ℤ (attack a b (dice i)).foe_hp (pos 0))) [
        | inl won ↦
            rw (won, round)
              (record {
                capped = mid.capped;
                floor =
                    ≤ℤ_trans (negsuc 999) (pos 1) (attack a b (dice i)).hp (omega arith) mid.floor;
              })
        | inr more ↦
            rw (more, round) (riposte-IsAlive (attack a b (dice i)) (dice i) (u.hurts i) mid)
      ]

  rounds-IsAlive :
      (left : ℕ) (b : Bout)
      → IsAlive a (negsuc 999) b
      → IsAlive a (negsuc 999) (rounds a left dice b)
  unfolding rounds
  rounds-IsAlive zero b h = h
  rounds-IsAlive (suc left) b h = elim (Bool-cases (fighting b)) [
    | inl on ↦ rw on (rounds-IsAlive left (round a b (dice left)) (round-IsAlive b left on h))
    | inr over ↦ rw over h
  ]

  pub fight-IsAlive : (foe_hp : ℤ) → IsAlive a (negsuc 999) (fight a foe_hp dice)
  unfolding fight
  fight-IsAlive foe_hp =
      rounds-IsAlive max_rounds (record { hp = a.start_hp; foe_hp = foe_hp })
        (record { capped = omega arith; floor = omega (arith, u.start) })
