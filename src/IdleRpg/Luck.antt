-- ===== src/IdleRpg/Luck.antt =====
-- maybeEvent and battle of internal/idlerpg/idlerpg.go, with merchant.go: what luck does to a
-- character. The draws are arguments.
use annoybots.Base.{
  ℕ, ◌+◌, [], ◌∷◌, List, none, some, Text, codes, get_elem?, ◌==◌, leb, if◌then◌else◌,
}
use annoybots.Base.Int.{ℤ, pos, neg, ltb_ℤ, eq_ℤ, add64, mul64, quot}
use annoybots.State.{MemStore, h_set, h_incr}
use annoybots.IdleRpg.{sheet_key, item_field, item_slots}
use annoybots.IdleRpg.Sheet.{stat}
use annoybots.IdleRpg.Trade.{gold}
use annoybots.IdleRpg.Quest.{ttl, pct_of_ttl}
use annoybots.IdleRpg.Hero.{Sheet, class_attack_mod}
use annoybots.IdleRpg.Gear.{item_sum}
use annoybots.IdleRpg.Health.{pots, damage}
use annoybots.IdleRpg.Feats.{bump_stat}
use annoybots.IdleRpg.Game.Gods.{hand_of_god}

unfoldable pub godsend : MemStore → Text → ℕ → MemStore
godsend m key pct = (h_incr m (sheet_key key) ttl (neg (pct_of_ttl m key (5 + pct)))).0

-- The slots in which something is worn.
unfoldable pub owned : Sheet → List Text → List Text
owned sheet [] = []
owned sheet (slot ∷ rest) =
    let more = owned sheet rest in
    if ltb_ℤ (pos 0) (sheet (item_field slot)) then slot ∷ more else more

-- An item that loses its luster.
unfoldable pub tarnish : MemStore → Text → Text → MemStore
tarnish m key slot =
    h_set m (sheet_key key) (item_field slot)
      (quot (mul64 (stat m key (item_field slot)) (pos 9)) 10)

unfoldable pub calamity : MemStore → Text → ℕ → ℕ → ℕ → MemStore
calamity m key coin pick pct =
    let hit = if coin == 0 then get_elem? (owned (stat m key) item_slots) pick else none in
    elim hit [
      | none ↦ (h_incr m (sheet_key key) ttl (pct_of_ttl m key (5 + pct))).0
      | some slot ↦ tarnish m key slot
    ]

unfoldable pub merchant : MemStore → Text → ℕ → ℕ → ℕ → MemStore
merchant m key gift draw pct =
    if gift == 0
    then bump_stat (h_incr m (sheet_key key) gold (pos (20 + draw))).0 (codes "gold")
        (pos (20 + draw))
    else if gift == 1
    then (h_incr m (sheet_key key) pots (pos 1)).0
    else (let amt = pct_of_ttl m key (4 + pct) in
        let fair = if ltb_ℤ amt (pos 1) then pos (10 + draw) else amt in
        (h_incr m (sheet_key key) ttl (neg fair)).0)

-- The draws of an event: which one, a coin, a pick and a percentage.
pub record LuckDraws : Type 0 where
  pub which : ℕ
  pub coin : ℕ
  pub pick : ℕ
  pub pct : ℕ

-- `maybeEvent`, on the player who is drawn.
unfoldable pub visit : MemStore → Text → LuckDraws → MemStore
visit m key d =
    if d.which == 0
    then godsend m key d.pct
    else if d.which == 1
    then calamity m key d.coin d.pick d.pct
    else if d.which == 2
    then hand_of_god m key d.pct d.coin
    else merchant m key d.coin d.pick d.pct

abbrev pub battle_sec : ℤ
battle_sec = pos 8

abbrev align : Text
align = codes "align"

-- What the challenger rolls up to.
unfoldable pub eff_power : Sheet → Text → ℤ
eff_power sheet class =
    let mine = item_sum sheet in
    let holy = if eq_ℤ (sheet align) (pos 1) then quot (mul64 mine (pos 111)) 100 else mine in
    let eff = add64 holy (class_attack_mod sheet class) in if ltb_ℤ eff (pos 0) then pos 0 else eff

unfoldable pub crit_odds : Sheet → ℕ
crit_odds sheet = if eq_ℤ (sheet align) (pos 2) then 5 else 10

-- The rolls of a battle: of the challenger, below its power, of the other, the time, the critical
-- strike and the wound.
pub record BattleDraws : Type 0 where
  pub mine : ℕ
  pub theirs : ℕ
  pub time : ℕ
  pub crit : ℕ
  pub hurt : ℕ

unfoldable pub swing_of : BattleDraws → ℤ
swing_of d =
    let amt = mul64 (pos (d.time + 1)) battle_sec in if d.crit == 0 then mul64 amt (pos 5) else amt

-- `battle`, where there is another player online.
unfoldable pub battle : MemStore → Text → BattleDraws → MemStore
battle m key d =
    if leb d.theirs d.mine
    then (h_incr m (sheet_key key) ttl (neg (swing_of d))).0
    else (let hurt = if d.crit == 0 then mul64 (pos (d.hurt + 2)) (pos 2) else pos (d.hurt + 2) in
        (h_incr (damage m key hurt) (sheet_key key) ttl (swing_of d)).0)
