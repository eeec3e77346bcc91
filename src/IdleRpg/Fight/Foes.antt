-- ===== src/IdleRpg/Fight/Foes.antt =====
-- The hit points of both sides through the rounds of internal/idlerpg/monsters.go.
use annoybots.Base.{
  ℕ, zero, suc, ◌+◌, ◌*◌, ◌<◌, ◌≤◌, ◌≡◌, Bool, true, ◌||◌, ◌&&◌, arith, Bool-cases, inl, inr,
}
use annoybots.Base.Int.{
  ℤ, pos, negsuc, ◌≤ℤ◌, leb_ℤ, ltb_ℤ, neg_part, add64, sub64, mul64, wrap64, ◌+ℤ◌, ◌-ℤ◌, residue64,
  sub_small, one_part, int_laws,
}
use annoybots.IdleRpg.Fight.{
  Arena, Bout, RoundDice, blow, swing, swings, lose_foe_hp, attack, riposte, fighting, round,
  rounds,
}

-- A foe's hit points: at most hi, and at most low of them below 0.
pub record IsHurt (hi : ℤ) (low : ℕ) (f : ℤ) : Type 0 where
  pub capped : f ≤ℤ hi
  pub floor : neg_part f ≤ low

-- Numbers of the hero and of the foe of the sizes that the game has.
pub record IsMatched (a : Arena) (foe_hp : ℤ) (dice : ℕ → RoundDice) : Type 0 where
  pub least : pos 1 ≤ℤ foe_hp
  pub most : foe_hp ≤ℤ pos 1000000000
  pub no_malus : pos 0 ≤ℤ a.bonus
  pub bonus : a.bonus ≤ℤ pos 1000
  pub sneak : a.mods.bonus_on_hit ≤ℤ pos 1000
  pub bolt : a.mods.auto_dmg ≤ℤ pos 1000
  pub no_balm : pos 0 ≤ℤ a.gear.thorns
  pub thorns : a.gear.thorns ≤ℤ pos 1000
  pub flurry : a.mods.extra_attacks ≤ 1000
  pub cuts : (i : ℕ) → (dice i).first.1 < 1000
  pub more_cuts : (i j : ℕ) → ((dice i).extra j).1 < 1000

add_pos : (m n : ℕ) → m ≤ 1000 → n ≤ 1000 → add64 (pos m) (pos n) ≡ pos (m + n)
unfolding add64 wrap64 ◌+ℤ◌ residue64
add_pos m n h k = ground arith

twice_pos : (n : ℕ) → n ≤ 2000 → mul64 (pos n) (pos 2) ≡ pos (n * 2)
unfolding mul64 wrap64 residue64
twice_pos n h = ground arith

hit-bounds :
    (cut : ℕ) (bonus : ℤ)
    → pos 0 ≤ℤ bonus
    → bonus ≤ℤ pos 1000
    → cut < 1000
    → let dmg = add64 (pos (cut + 1)) bonus in
      (pos 0 ≤ℤ dmg)
      × (dmg ≤ℤ pos 2000)
      × (pos 0 ≤ℤ mul64 dmg (pos 2))
      × (mul64 dmg (pos 2) ≤ℤ pos 4000)
hit-bounds cut (pos n) p q c =
    rw (add_pos (cut + 1) n (omega arith) (omega arith), twice_pos (cut + 1 + n) (omega arith))
      (omega arith, omega arith, omega arith, omega arith)
hit-bounds cut (negsuc n) p q c = omega arith

blow-bounds :
    (a : Arena) (face cut : ℕ)
    → pos 0 ≤ℤ a.bonus
    → a.bonus ≤ℤ pos 1000
    → cut < 1000
    → (pos 0 ≤ℤ blow a face cut) × (blow a face cut ≤ℤ pos 4000)
unfolding blow
blow-bounds a face cut p q c = ground (arith, hit-bounds cut a.bonus p q c)

sub-IsHurt :
    (hi f d : ℤ) (low most : ℕ)
    → hi ≤ℤ pos 1000000000
    → low + most ≤ 1000000000
    → pos 0 ≤ℤ d
    → d ≤ℤ pos most
    → IsHurt hi low f
    → IsHurt hi (low + most) (sub64 f d)
sub-IsHurt hi f d low most small room p q h =
    rw (sub_small f d (ground (arith, one_part f, h.capped, h.floor)) (ground (arith, one_part d)))
      (record {
        capped = omega (int_laws, one_part f, one_part d, h.capped);
        floor = grind (int_laws, one_part f, one_part d, one_part (f -ℤ d), h.floor);
      })

IsHurt-weaken : (hi f : ℤ) (low more : ℕ) → low ≤ more → IsHurt hi low f → IsHurt hi more f
IsHurt-weaken hi f low more le h = record { capped = h.capped; floor = omega (arith, h.floor) }

module _ (a : Arena) (foe_hp : ℤ) (dice : ℕ → RoundDice) (u : IsMatched a foe_hp dice) where
  swing-IsHurt :
      (b : Bout) (face cut low : ℕ)
      → cut < 1000
      → low + 4000 ≤ 1000000000
      → IsHurt foe_hp low b.foe_hp
      → IsHurt foe_hp (low + 4000) (swing a b (face, cut)).0.foe_hp
  unfolding swing
  swing-IsHurt b face cut low c room h =
      let (least, most) = blow-bounds a face cut u.no_malus u.bonus c in
      let cost = sub-IsHurt foe_hp b.foe_hp (blow a face cut) low 4000 u.most room least most h in
      let missed = IsHurt-weaken foe_hp b.foe_hp low (low + 4000) (omega arith) h in
      elim (Bool-cases (ltb_ℤ (add64 (pos (face + 1)) a.atk) a.foe_ac)) [
        | inl miss ↦ rw miss missed
        | inr hit ↦ rw hit cost
      ]

  swings-IsHurt :
      (more : ℕ → ℕ × ℕ) (b : Bout) (hit : Bool) (left low : ℕ)
      → ((j : ℕ) → (more j).1 < 1000)
      → low + left * 4000 ≤ 1000000000
      → IsHurt foe_hp low b.foe_hp
      → IsHurt foe_hp (low + left * 4000) (swings a more b hit left).0.foe_hp
  unfolding swings
  swings-IsHurt more b hit zero low c room h = IsHurt-weaken foe_hp b.foe_hp low _ (omega arith) h
  swings-IsHurt more b hit (suc left) low c room h =
      let once = swing-IsHurt b (more left).0 (more left).1 low (c left) (omega (arith, room)) h in
      IsHurt-weaken foe_hp _ (low + 4000 + left * 4000) _ (omega arith) (
        swings-IsHurt more (swing a b (more left)).0 ((swing a b (more left)).1 || hit) left
          (low + 4000) c (omega (arith, room)) once)

  lose-IsHurt :
      (cond : Bool) (b : Bout) (amt : ℤ) (low : ℕ)
      → amt ≤ℤ pos 1000
      → low + 1000 ≤ 1000000000
      → IsHurt foe_hp low b.foe_hp
      → IsHurt foe_hp (low + 1000) (lose_foe_hp cond b amt).foe_hp
  unfolding lose_foe_hp
  lose-IsHurt cond b amt low few room h = elim (Bool-cases (cond && ltb_ℤ (pos 0) amt)) [
    | inl lost ↦
        rw lost (sub-IsHurt foe_hp b.foe_hp amt low 1000 u.most room (ground (arith, lost)) few h)
    | inr kept ↦ rw kept (IsHurt-weaken foe_hp b.foe_hp low (low + 1000) (omega arith) h)
  ]

  pub attack-IsHurt :
      (b : Bout) (i : ℕ)
      → IsHurt foe_hp 0 b.foe_hp
      → IsHurt foe_hp 4006000 (attack a b (dice i)).foe_hp
  unfolding attack
  attack-IsHurt b i h =
      let d = dice i in
      let k = a.mods.extra_attacks in
      let first = swing-IsHurt b d.first.0 d.first.1 0 (u.cuts i) (omega arith) h in
      let (b1, hit1) = swing a b d.first in
      let all =
        swings-IsHurt d.extra b1 hit1 k 4000 (u.more_cuts i) (omega (arith, u.flurry)) first in
      let (b2, hit) = swings a d.extra b1 hit1 k in
      let met = IsHurt-weaken foe_hp b2.foe_hp _ 4004000 (omega (arith, u.flurry)) all in
      let stabbed = lose-IsHurt hit b2 a.mods.bonus_on_hit 4004000 u.sneak (omega arith) met in
      lose-IsHurt true (lose_foe_hp hit b2 a.mods.bonus_on_hit) a.mods.auto_dmg 4005000 u.bolt
        (omega arith) stabbed

  riposte-IsHurt :
      (b : Bout) (d : RoundDice)
      → IsHurt foe_hp 0 b.foe_hp
      → IsHurt foe_hp 4006000 (riposte a b d).foe_hp
  unfolding riposte
  riposte-IsHurt b d h =
      let stung =
        sub-IsHurt foe_hp b.foe_hp a.gear.thorns 0 1000 u.most (omega arith) u.no_balm u.thorns h in
      record {
        capped = ground (arith, stung.capped, h.capped);
        floor = ground (arith, stung.floor, h.floor);
      }

  pub round-IsHurt :
      (b : Bout) (i : ℕ)
      → IsHurt foe_hp 0 b.foe_hp
      → IsHurt foe_hp 4006000 (round a b (dice i)).foe_hp
  unfolding round
  round-IsHurt b i h =
      let mid = attack-IsHurt b i h in
      elim (Bool-cases (leb_ℤ (attack a b (dice i)).foe_hp (pos 0))) [
        | inl won ↦ rw (won, round) mid
        | inr more ↦
            rw (more, round)
              (riposte-IsHurt (attack a b (dice i)) (dice i) (record {
                capped = mid.capped;
                floor = ground (arith, more, one_part (attack a b (dice i)).foe_hp);
              }))
      ]

  pub rounds-IsHurt :
      (left : ℕ) (b : Bout)
      → IsHurt foe_hp 4006000 b.foe_hp
      → IsHurt foe_hp 4006000 (rounds a left dice b).foe_hp
  unfolding rounds fighting
  rounds-IsHurt zero b h = h
  rounds-IsHurt (suc left) b h = elim (Bool-cases (fighting b)) [
    | inl on ↦ rw on (
        rounds-IsHurt left (round a b (dice left)) (
          round-IsHurt b left
            (record { capped = h.capped; floor = ground (arith, on, one_part b.foe_hp) })))
    | inr over ↦ rw over h
  ]
