-- ===== src/IdleRpg/Health/Healing.antt =====
-- What hp.go, statuses.go and potions.go of internal/idlerpg do to the damage of a character.
use annoybots.Base.{
  ◌≡◌, refl, ◌∙◌, false, ◌&&◌, Text, text_eq, text_eq_refl, arith, [], ◌∷◌, List, if◌then◌else◌,
  Bool-cases, inl, inr,
}
use annoybots.Base.Int.{ℤ, pos, negsuc, ◌+ℤ◌, ◌-ℤ◌, neg, leb_ℤ, ltb_ℤ, add64, sub64}
use annoybots.State.{MemStore, h_set, h_incr, get_str}
use annoybots.IdleRpg.{sheet_key, class_key, item_slots, item_field, rarity_field, affix_field}
use annoybots.IdleRpg.Rebirth.{level}
use annoybots.IdleRpg.Gear.{AffixMods, no_affixes, slot_affixes, affixes_from, affixes_of}
use annoybots.IdleRpg.Sheet.{stat, stat-h_set, stat-h_incr, h_incr-stat}
use annoybots.IdleRpg.Hero.{Sheet}
use annoybots.IdleRpg.Health.{dmg, max_hp, cur_hp, is_downed, heal, regen, healed, tick_hp, con}

stat-heal :
    (m : MemStore) (key k g : Text) (amt : ℤ)
    → stat (heal m key amt) k g ≡ (
        if text_eq key k && text_eq dmg g
        then (let d = add64 (stat m key dmg) (neg amt) in if ltb_ℤ d (pos 0) then pos 0 else d)
        else stat m k g)
unfolding heal
stat-heal m key k g amt =
    let (m1, d) = h_incr m (sheet_key key) dmg (neg amt) in
    rw (← h_incr-stat m key dmg (neg amt)) (elim (Bool-cases (ltb_ℤ d (pos 0))) [
      | inl below ↦
          rw (heal, below)
            (stat-h_set m1 key k dmg g (pos 0)
              ∙ ground (arith, stat-h_incr m key k dmg g (neg amt)))
      | inr fine ↦
          rw (heal, fine)
            (stat-h_incr m key k dmg g (neg amt) ∙ ground (arith, h_incr-stat m key dmg (neg amt)))
    ])

-- Two sheets with one level, constitution and equipment.
pub record IsAlike (s t : Sheet) : Type 0 where
  pub levels : s level ≡ t level
  pub cons : s con ≡ t con
  pub items : (slot : Text) → s (item_field slot) ≡ t (item_field slot)
  pub tiers : (slot : Text) → s (rarity_field slot) ≡ t (rarity_field slot)
  pub masks : (slot : Text) → s (affix_field slot) ≡ t (affix_field slot)

slot_affixes-alike :
    (s t : Sheet) (am : AffixMods) (slot : Text)
    → IsAlike s t
    → slot_affixes s am slot ≡ slot_affixes t am slot
unfolding slot_affixes
slot_affixes-alike s t am slot h = rw (h.items slot, h.tiers slot, h.masks slot) refl

affixes_from-alike :
    (s t : Sheet) (am : AffixMods) (slots : List Text)
    → IsAlike s t
    → affixes_from s am slots ≡ affixes_from t am slots
unfolding affixes_from
affixes_from-alike s t am [] h = refl
affixes_from-alike s t am (slot ∷ rest) h =
    rw (slot_affixes-alike s t am slot h) (affixes_from-alike s t (slot_affixes t am slot) rest h)

pub max_hp-alike : (s t : Sheet) (class : Text) → IsAlike s t → max_hp s class ≡ max_hp t class
unfolding max_hp affixes_of
max_hp-alike s t class h = rw (h.levels, h.cons, affixes_from-alike s t no_affixes item_slots h)

-- A field that hit points are not computed from.
pub record IsLoose (f : Text) : Type 0 where
  pub not_level : text_eq f level ≡ false
  pub not_con : text_eq f con ≡ false
  pub not_item : (slot : Text) → text_eq f (item_field slot) ≡ false
  pub not_tier : (slot : Text) → text_eq f (rarity_field slot) ≡ false
  pub not_mask : (slot : Text) → text_eq f (affix_field slot) ≡ false

pub h_set-IsAlike :
    (m : MemStore) (key f : Text) (v : ℤ) (k : Text)
    → IsLoose f
    → IsAlike (stat (h_set m (sheet_key key) f v) k) (stat m k)
h_set-IsAlike m key f v k h = record {
  levels = ground (arith, stat-h_set m key k f level v, h.not_level);
  cons = ground (arith, stat-h_set m key k f con v, h.not_con);
  items = λ slot. ground (arith, stat-h_set m key k f (item_field slot) v, h.not_item slot);
  tiers = λ slot. ground (arith, stat-h_set m key k f (rarity_field slot) v, h.not_tier slot);
  masks = λ slot. ground (arith, stat-h_set m key k f (affix_field slot) v, h.not_mask slot);
}

pub dmg-IsLoose : IsLoose dmg
unfolding item_field rarity_field affix_field text_eq
dmg-IsLoose = record {
  not_level = refl;
  not_con = refl;
  not_item = λ slot. refl;
  not_tier = λ slot. refl;
  not_mask = λ slot. refl;
}

heal-IsAlike :
    (m : MemStore) (key : Text) (amt : ℤ) → IsAlike (stat (heal m key amt) key) (stat m key)
heal-IsAlike m key amt = record {
  levels = ground (arith, stat-heal m key key level amt, dmg-IsLoose.not_level);
  cons = ground (arith, stat-heal m key key con amt, dmg-IsLoose.not_con);
  items =
      λ slot. ground (arith, stat-heal m key key (item_field slot) amt, dmg-IsLoose.not_item slot);
  tiers = λ slot.
      ground (arith, stat-heal m key key (rarity_field slot) amt, dmg-IsLoose.not_tier slot);
  masks =
      λ slot. ground (arith, stat-heal m key key (affix_field slot) amt, dmg-IsLoose.not_mask slot);
}

-- `add64 d (neg r)` is `sub64 d r` on the numbers that occur.
add-neg : (d r : ℤ) → d +ℤ neg r ≡ d -ℤ r
unfolding ◌+ℤ◌ ◌-ℤ◌
add-neg (pos a) (pos b) = ground arith
add-neg (pos a) (negsuc b) = ground arith
add-neg (negsuc a) (pos b) = ground arith
add-neg (negsuc a) (negsuc b) = ground arith

healed_lem :
    (d r : ℤ) → healed d r ≡ (let x = add64 d (neg r) in if ltb_ℤ x (pos 0) then pos 0 else x)
unfolding healed add64 sub64
healed_lem d r = rw (add-neg d r)

class-heal : (m : MemStore) (key k : Text) (amt : ℤ) → get_str (heal m key amt) k ≡ get_str m k
unfolding heal get_str h_incr h_set
class-heal m key k amt = ground arith

downed_lem :
    (hp d : ℤ)
    → leb_ℤ (sub64 hp d) (pos 0)
      ≡ leb_ℤ (if ltb_ℤ (sub64 hp d) (pos 0) then pos 0 else sub64 hp d) (pos 0)
downed_lem hp d = ground arith

-- What `tickHP` reports is whether the character that it leaves in the store is downed, for every
-- store and player.
pub tick_hp-downed :
    (m : MemStore) (key : Text)
    → (tick_hp m key).1
      ≡ is_downed (stat (tick_hp m key).0 key) (get_str (tick_hp m key).0 (class_key key))
unfolding tick_hp is_downed cur_hp
tick_hp-downed m key =
    let class = get_str m (class_key key) in
    let r = regen (stat m key) in
    elim (Bool-cases (ltb_ℤ (pos 0) (stat m key dmg))) [
      | inl hurt ↦
          rw
            (
              hurt,
              tick_hp,
              class-heal m key (class_key key) r,
              max_hp-alike (stat (heal m key r) key) (stat m key) class (heal-IsAlike m key r),
              left r,
            )
            (downed_lem (max_hp (stat m key) class) (healed (stat m key dmg) r))
      | inr whole ↦ rw (whole, tick_hp) (downed_lem (max_hp (stat m key) class) (stat m key dmg))
    ]
  where
    left : (r : ℤ) → stat (heal m key r) key dmg ≡ healed (stat m key dmg) r
    left r = ground (
      arith,
      stat-heal m key key dmg r,
      healed_lem (stat m key dmg) r,
      text_eq_refl key,
      text_eq_refl dmg,
    )
