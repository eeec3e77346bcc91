-- ===== src/IdleRpg/Fight/Ends.antt =====
-- How the rounds of internal/idlerpg/monsters.go end for both sides.
use annoybots.Base.{ℕ, zero, suc, ◌≡◌, ◌⊎◌, true, false, inl, inr, arith, Bool-cases}
use annoybots.Base.Int.{
  ℤ, pos, negsuc, ◌≤ℤ◌, leb_ℤ, ltb_ℤ, sub64, ◌-ℤ◌, sub_small, one_part, int_laws,
}
use annoybots.IdleRpg.Fight.{
  Arena, Bout, RoundDice, attack, riposte, fighting, round, rounds, fight, max_rounds,
}
use annoybots.IdleRpg.Fight.Rounds.{IsAlive, IsUsual, attack-IsAlive, round-IsAlive, fight-IsAlive}
use annoybots.IdleRpg.Fight.Foes.{IsHurt, IsMatched, attack-IsHurt, round-IsHurt, rounds-IsHurt}

-- One of the two is on its feet, or the gear is thorned.
abbrev pub Stands : Arena → Bout → Type 0
Stands a b = (pos 1 ≤ℤ b.hp) ⊎ ((pos 1 ≤ℤ b.foe_hp) ⊎ (pos 1 ≤ℤ a.gear.thorns))

sub_none :
    (f d : ℤ)
    → f ≤ℤ pos 1000000000
    → pos 1 ≤ℤ f
    → pos 0 ≤ℤ d
    → ltb_ℤ (pos 0) d ≡ false
    → pos 1 ≤ℤ sub64 f d
sub_none f d most least p none =
    rw (sub_small f d (ground (arith, one_part f)) (ground (arith, one_part d, none)))
      (grind (int_laws, one_part f, one_part d, one_part (f -ℤ d), none))

riposte-Stands :
    (a : Arena) (b : Bout) (d : RoundDice)
    → b.foe_hp ≤ℤ pos 1000000000
    → pos 1 ≤ℤ b.foe_hp
    → pos 0 ≤ℤ a.gear.thorns
    → Stands a (riposte a b d)
unfolding riposte
riposte-Stands a b d most least p = elim (Bool-cases (ltb_ℤ (pos 0) a.gear.thorns)) [
  | inl thorned ↦ inr (inr (ground (arith, thorned)))
  | inr bare ↦ inr (inl (ground (arith, sub_none b.foe_hp a.gear.thorns most least p bare)))
]

fought :
    {hi : ℤ} {low : ℕ}
    → (b : Bout) → fighting b ≡ true
    → IsHurt hi low b.foe_hp
    → IsHurt hi 0 b.foe_hp
unfolding fighting
fought b on k = record { capped = k.capped; floor = ground (arith, on, one_part b.foe_hp) }

module _ (a : Arena) (foe_hp : ℤ) (dice : ℕ → RoundDice) (u : IsUsual a dice)
    (v : IsMatched a foe_hp dice) where
  round-Stands :
      (b : Bout) (i : ℕ)
      → fighting b ≡ true
      → IsAlive a (negsuc 999) b
      → IsHurt foe_hp 4006000 b.foe_hp
      → Stands a (round a b (dice i))
  unfolding round fighting
  round-Stands b i on h k =
      let up : IsAlive a (pos 1) b = record { capped = h.capped; floor = ground (arith, on) } in
      let mid : IsAlive a (pos 1) (attack a b (dice i)) =
        attack-IsAlive a dice u (pos 1) (omega arith) b (dice i) up in
      let cut : IsHurt foe_hp 4006000 (attack a b (dice i)).foe_hp =
        attack-IsHurt a foe_hp dice v b i (fought b on k) in
      elim (Bool-cases (leb_ℤ (attack a b (dice i)).foe_hp (pos 0))) [
        | inl won ↦ rw (won, round) (inl mid.floor)
        | inr more ↦
            rw (more, round)
              (riposte-Stands a (attack a b (dice i)) (dice i) (omega (arith, cut.capped, v.most))
                (ground (arith, more)) v.no_balm)
      ]

  rounds-Stands :
      (left : ℕ) (b : Bout)
      → IsAlive a (negsuc 999) b
      → IsHurt foe_hp 4006000 b.foe_hp
      → Stands a b
      → Stands a (rounds a left dice b)
  unfolding rounds
  rounds-Stands zero b h k s = s
  rounds-Stands (suc left) b h k s = elim (Bool-cases (fighting b)) [
    | inl on ↦ rw on (
        rounds-Stands left (round a b (dice left)) (round-IsAlive a dice u b left on h)
          (round-IsHurt a foe_hp dice v b left (fought b on k)) (round-Stands b left on h k))
    | inr over ↦ rw over s
  ]

  -- A fight never raises the hit points of either side above those at its start, and it leaves the
  -- hero with at least -1000 and the foe with at least -4,006,000. The hero strikes first: at the end
  -- one of the two has a hit point left, unless the hero's gear is thorned. Both start with 1 to a
  -- billion hit points; of the hero's numbers, life steal, self heal, the bonus on a hit and the
  -- automatic damage are at most 1000, the ward, the thorns and the damage bonus are 0 to 1000, and
  -- there are at most 1000 extra swings; no damage die rolls above 1000. Of the other dice and numbers
  -- nothing is asked.
  pub fight_lem :
      IsAlive a (negsuc 999) (fight a foe_hp dice)
      × IsHurt foe_hp 4006000 (fight a foe_hp dice).foe_hp
      × Stands a (fight a foe_hp dice)
  unfolding fight
  fight_lem =
      let b : Bout = record { hp = a.start_hp; foe_hp = foe_hp } in
      let alive : IsAlive a (negsuc 999) b = record {
        capped = omega arith;
        floor = omega (arith, u.start);
      } in
      let whole : IsHurt foe_hp 4006000 foe_hp = record {
        capped = omega arith;
        floor = grind (arith, v.least, one_part foe_hp);
      } in
      (
        fight-IsAlive a dice u foe_hp,
        rounds-IsHurt a foe_hp dice v max_rounds b whole,
        rounds-Stands max_rounds b alive whole (inl u.start),
      )
