-- ===== src/IdleRpg/Health.antt =====
-- internal/idlerpg/hp.go and statuses.go, and quaff of potions.go: hit points, venom and blessings.
-- The lines that the game says of these are left out but for the replies of commands.
use annoybots.Base.{
  ℕ, Bool, true, false, not, ◌||◌, ◌&&◌, [], ◌∷◌, List, Option, none, some, Text, codes, text_eq,
  if◌then◌else◌,
}
use annoybots.Base.Int.{ℤ, pos, neg, leb_ℤ, ltb_ℤ, eq_ℤ, add64, sub64, mul64, quot}
use annoybots.State.{MemStore, h_set, h_incr, get_str}
use annoybots.IdleRpg.{sheet_key, class_key, no_sheet}
use annoybots.IdleRpg.Sheet.{stat}
use annoybots.IdleRpg.Trade.{Sender}
use annoybots.IdleRpg.Rebirth.{level}
use annoybots.IdleRpg.Hero.{Sheet, ClassDef, class_of, ability_mod, key_of}
use annoybots.IdleRpg.Gear.{affixes_of}
pub mod Healing
pub mod Draught
mod Tests

abbrev pub base_hp : ℤ
base_hp = pos 8

abbrev pub dmg : Text
dmg = codes "dmg"

abbrev pub con : Text
con = codes "con"

abbrev pub poison : Text
poison = codes "poison"

abbrev pub bless : Text
bless = codes "bless"

abbrev pub pots : Text
pots = codes "pots"

unfoldable pub hit_die : Text → ℤ
hit_die class = elim (class_of class) [ none ↦ pos 8 | some c ↦ c.hit_die ]

unfoldable pub max_hp : Sheet → Text → ℤ
max_hp sheet class =
    let gain = add64 (add64 (quot (hit_die class) 2) (pos 1)) (ability_mod (sheet con)) in
    let per_level = if ltb_ℤ gain (pos 1) then pos 1 else gain in
    add64 (add64 base_hp (mul64 per_level (add64 (sheet level) (pos 1)))) (affixes_of sheet).vital

unfoldable pub cur_hp : Sheet → Text → ℤ
cur_hp sheet class =
    let hp = sub64 (max_hp sheet class) (sheet dmg) in if ltb_ℤ hp (pos 0) then pos 0 else hp

unfoldable pub is_downed : Sheet → Text → Bool
is_downed sheet class = leb_ℤ (cur_hp sheet class) (pos 0)

unfoldable pub damage : MemStore → Text → ℤ → MemStore
damage m key amt = (h_incr m (sheet_key key) dmg amt).0

unfoldable pub heal : MemStore → Text → ℤ → MemStore
heal m key amt =
    let (after, d) = h_incr m (sheet_key key) dmg (neg amt) in
    if ltb_ℤ d (pos 0) then h_set after (sheet_key key) dmg (pos 0) else after

unfoldable pub regen : Sheet → ℤ
regen sheet =
    let r = add64 (add64 (quot (sheet level) 2) (ability_mod (sheet con))) (pos 1) in
    if ltb_ℤ r (pos 1) then pos 1 else r

-- The damage that is left after a tick's healing.
unfoldable pub healed : ℤ → ℤ → ℤ
healed d r = let left = sub64 d r in if ltb_ℤ left (pos 0) then pos 0 else left

-- `tickHP`: the store after natural healing, and whether the character is still downed.
unfoldable pub tick_hp : MemStore → Text → MemStore × Bool
tick_hp m key =
    let sheet = stat m key in
    let class = get_str m (class_key key) in
    if ltb_ℤ (pos 0) (sheet dmg)
    then (
      heal m key (regen sheet),
      leb_ℤ (sub64 (max_hp sheet class) (healed (sheet dmg) (regen sheet))) (pos 0),
    )
    else (m, leb_ℤ (sub64 (max_hp sheet class) (sheet dmg)) (pos 0))

unfoldable pub poison_damage : ℤ → ℤ
poison_damage lvl = add64 (pos 1) (quot lvl 12)

abbrev pub poison_ticks : ℤ
poison_ticks = pos 3

abbrev pub bless_ticks : ℤ
bless_ticks = pos 8

unfoldable pub blessed : Sheet → Bool
blessed sheet = ltb_ℤ (pos 0) (sheet bless)

unfoldable pub poisoned : Sheet → Bool
poisoned sheet = ltb_ℤ (pos 0) (sheet poison)

-- `tickStatus`: what is read of the sheet is read once, at the start.
unfoldable pub tick_status : MemStore → Text → MemStore
tick_status m key =
    let sheet = stat m key in
    let m1 =
      if poisoned sheet
      then (h_incr (damage m key (poison_damage (sheet level))) (sheet_key key) poison
          (neg (pos 1))).0
      else m in
    if blessed sheet then (h_incr m1 (sheet_key key) bless (neg (pos 1))).0 else m1

unfoldable pub apply_poison : MemStore → Text → ℤ → MemStore
apply_poison m key n = if leb_ℤ n (stat m key poison) then m else h_set m (sheet_key key) poison n

unfoldable pub cure_poison : MemStore → Text → MemStore
cure_poison m key = h_set m (sheet_key key) poison (pos 0)

-- The two writes that make a character whole.
unfoldable pub mend : MemStore → Text → MemStore
mend m key = cure_poison (h_set m (sheet_key key) dmg (pos 0)) key

pub data QuaffReply : Type 0 where
  not_playing no_potion at_full_health : QuaffReply
  quaffed : ℤ → Bool → QuaffReply

unfoldable pub quaff : MemStore → Sender → MemStore × QuaffReply
quaff m msg =
    let key = key_of m msg in
    let sheet = stat m key in
    let class = get_str m (class_key key) in
    if no_sheet m key
    then (m, not_playing)
    else if leb_ℤ (sheet pots) (pos 0)
    then (m, no_potion)
    else if leb_ℤ (max_hp sheet class) (cur_hp sheet class) && not (poisoned sheet)
    then (m, at_full_health)
    else (let (m2, left) = h_incr (mend m key) (sheet_key key) pots (neg (pos 1)) in
        (m2, quaffed left (poisoned sheet)))
