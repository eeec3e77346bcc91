-- ===== src/IdleRpg/Health/Draught.antt =====
-- quaff of internal/idlerpg/potions.go, on the sheet of the one who drinks.
use annoybots.Base.{
  ◌≡◌, refl, sym, subst, ◌∙◌, Bool, true, false, ◌&&◌, ◌||◌, Text, text_eq, text_eq_refl, arith,
  if◌then◌else◌,
}
use annoybots.Base.Int.{
  ℤ, pos, negsuc, neg, wrap64, wrap64_of_IsInt64, wrap64-IsInt64, IsInt64, ◌-ℤ◌, leb_ℤ, ltb_ℤ,
  add64, sub64,
}
use annoybots.State.{MemStore, h_set, h_incr, get_str}
use annoybots.IdleRpg.{sheet_key, class_key, item_field, rarity_field, affix_field}
use annoybots.IdleRpg.Sheet.{stat, stat-h_set, stat-h_incr}
use annoybots.IdleRpg.Trade.{Sender}
use annoybots.IdleRpg.Rebirth.{level}
use annoybots.IdleRpg.Hero.{Sheet, key_of}
use annoybots.IdleRpg.Health.{
  dmg, con, poison, pots, max_hp, cur_hp, poisoned, mend, cure_poison, quaff, quaffed,
}
use annoybots.IdleRpg.Health.Healing.{IsAlike, max_hp-alike}

-- The sheet that a draught leaves.
drunk : MemStore → Text → MemStore
drunk m key = (h_incr (mend m key) (sheet_key key) pots (neg (pos 1))).0

stat-drunk :
    (m : MemStore) (key k g : Text)
    → stat (drunk m key) k g ≡ (
        if text_eq key k && text_eq pots g
        then add64 (stat m key pots) (neg (pos 1))
        else if text_eq key k && (text_eq poison g)
        then pos 0
        else if text_eq key k && text_eq dmg g
        then pos 0
        else stat m k g)
unfolding drunk mend cure_poison text_eq
stat-drunk m key k g =
    let m1 = h_set m (sheet_key key) dmg (pos 0) in
    let m2 = h_set m1 (sheet_key key) poison (pos 0) in
    ground (
      arith,
      stat-h_incr m2 key k pots g (neg (pos 1)),
      stat-h_set m1 key k poison g (pos 0),
      stat-h_set m1 key key poison pots (pos 0),
      stat-h_set m key k dmg g (pos 0),
      stat-h_set m key key dmg pots (pos 0),
    )

drunk-IsAlike : (m : MemStore) (key : Text) → IsAlike (stat (drunk m key) key) (stat m key)
unfolding text_eq item_field rarity_field affix_field
drunk-IsAlike m key = record {
  levels = ground (arith, stat-drunk m key key level);
  cons = ground (arith, stat-drunk m key key con);
  items = λ slot. ground (arith, stat-drunk m key key (item_field slot));
  tiers = λ slot. ground (arith, stat-drunk m key key (rarity_field slot));
  masks = λ slot. ground (arith, stat-drunk m key key (affix_field slot));
}

sub-zero : (x : ℤ) → x -ℤ pos 0 ≡ x
unfolding ◌-ℤ◌
sub-zero (pos n) = ground arith
sub-zero (negsuc n) = ground arith

undamaged :
    (s : Sheet) (class : Text)
    → s dmg ≡ pos 0
    → IsInt64 (max_hp s class)
    → leb_ℤ (pos 0) (max_hp s class) ≡ true
    → cur_hp s class ≡ max_hp s class
unfolding cur_hp sub64
undamaged s class e range h =
    let whole : wrap64 (max_hp s class -ℤ pos 0) ≡ max_hp s class =
      rw (sub-zero (max_hp s class)) (wrap64_of_IsInt64 (max_hp s class) range) in
    rw (e, whole) (ground (arith, h))

max_hp-IsInt64 : (s : Sheet) (class : Text) → IsInt64 (max_hp s class)
unfolding max_hp add64
max_hp-IsInt64 s class = wrap64-IsInt64 _

quaff_lem :
    (m : MemStore) (msg : Sender) (after : MemStore) (left : ℤ) (cured : Bool)
    → quaff m msg ≡ (after, quaffed left cured)
    → (after ≡ drunk m (key_of m msg)) × (ltb_ℤ (pos 0) (stat m (key_of m msg) pots) ≡ true)
unfolding quaff drunk
quaff_lem m msg after left cured h = ground (arith, h)

class-drunk : (m : MemStore) (key k : Text) → get_str (drunk m key) k ≡ get_str m k
unfolding drunk mend cure_poison get_str h_set h_incr
class-drunk m key k = refl

-- What a draught does: the store before and after, for the character of a key.
abbrev pub Restored : MemStore → Text → MemStore → Type 0
Restored m key after =
    (cur_hp (stat after key) (get_str after (class_key key))
      ≡ max_hp (stat m key) (get_str m (class_key key)))
    × (poisoned (stat after key) ≡ false)
    × (stat after key pots ≡ add64 (stat m key pots) (neg (pos 1)))
    × ((k g : Text)
        → (text_eq key k && (text_eq pots g || (text_eq poison g || text_eq dmg g))) ≡ false
        → stat after k g ≡ stat m k g)

drunk-Restored :
    (m : MemStore) (key : Text)
    → leb_ℤ (pos 0) (max_hp (stat m key) (get_str m (class_key key))) ≡ true
    → Restored m key (drunk m key)
unfolding poisoned text_eq
drunk-Restored m key positive = (
  undamaged (stat (drunk m key) key) (get_str (drunk m key) (class_key key))
        (ground (arith, stat-drunk m key key dmg, text_eq_refl key))
        (max_hp-IsInt64 (stat (drunk m key) key) (get_str (drunk m key) (class_key key)))
        (rw same positive)
      ∙ same,
  ground (arith, stat-drunk m key key poison, text_eq_refl key),
  ground (arith, stat-drunk m key key pots, text_eq_refl key),
  λ k g apart. ground (arith, apart, stat-drunk m key k g),
)
  where
    same :
        max_hp (stat (drunk m key) key) (get_str (drunk m key) (class_key key))
        ≡ max_hp (stat m key) (get_str m (class_key key))
    same = rw (class-drunk m key (class_key key)) (
        max_hp-alike (stat (drunk m key) key) (stat m key) (get_str m (class_key key))
          (drunk-IsAlike m key))

-- A draught that is drunk leaves a character at full hit points and free of venom, and one potion
-- poorer, of which there was at least one. Every other field, and every other sheet, is what it was. The maximum of hit points is not negative by hypothesis.
pub quaff-restores :
    (m : MemStore) (msg : Sender) (after : MemStore) (left : ℤ) (cured : Bool)
    → quaff m msg ≡ (after, quaffed left cured)
    → leb_ℤ (pos 0) (max_hp (stat m (key_of m msg)) (get_str m (class_key (key_of m msg)))) ≡ true
    → (ltb_ℤ (pos 0) (stat m (key_of m msg) pots) ≡ true) × Restored m (key_of m msg) after
quaff-restores m msg after left cured h positive =
    let (same, had) = quaff_lem m msg after left cured h in
    (had, subst (Restored m (key_of m msg)) (sym same) (drunk-Restored m (key_of m msg) positive))
