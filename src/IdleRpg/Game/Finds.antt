-- ===== src/IdleRpg/Game/Finds.antt =====
-- Item finds, luck, travel and feats of internal/idlerpg, on the level board: they leave it alone.
use annoybots.Base.{
  ℕ, ◌+◌, ◌/◌, ◌%◌, ◌||◌, ◌≡◌, refl, false, ◌==◌, Option, none, some, Text, text_eq, arith, leb,
  Bool-cases, Option-cases, inl, inr,
}
use annoybots.Base.Int.{ℤ, pos, neg, leb_ℤ, ltb_ℤ, eq_ℤ, pos_part}
use annoybots.State.{MemStore, h_set, h_incr, incr, z_score}
use annoybots.State.Fields.{field-h_incr, z_score-h_incr}
use annoybots.IdleRpg.{sheet_key, board_key, name_key, item_field, rarity_field, affix_field}
use annoybots.IdleRpg.Sheet.{stat, stat-incr}
use annoybots.IdleRpg.Trade.{gold}
use annoybots.IdleRpg.Quest.{ttl, pct_of_ttl}
use annoybots.IdleRpg.Rebirth.{level}
use annoybots.IdleRpg.Feats.{feats, award_feat, bump_stat, hail_legendary, treasure_feat}
use annoybots.IdleRpg.Health.{damage, pots, dmg}
use annoybots.IdleRpg.Gear.{power, legendary}
use annoybots.IdleRpg.Loot.{
  Find, collection_key, rarity_name, record_find, scrap_for, salvage, don, worn_power, find_item,
}
use annoybots.IdleRpg.Town.{Town, mx, my, dest}
use annoybots.IdleRpg.Quest.{step_toward}
use annoybots.IdleRpg.Roam.{place, travel, stride, bound_for, move_on_map}
use annoybots.IdleRpg.Luck.{
  LuckDraws, BattleDraws, godsend, tarnish, calamity, merchant, visit, battle, swing_of,
}
use annoybots.IdleRpg.Game.Board.{
  IsQuiet, IsQuiet-refl, IsQuiet-trans, h_set-IsQuiet, h_incr-IsQuiet, set_str-IsQuiet, del-IsQuiet,
}
use annoybots.IdleRpg.Game.Verbs.{hand_of_god-IsQuiet}

-- A hash that is not a sheet.
pub tally-IsQuiet :
    (m : MemStore) (key f : Text) (d : ℤ)
    → ((k : Text) → text_eq key (sheet_key k) ≡ false)
    → IsQuiet m (h_incr m key f d).0
unfolding stat
tally-IsQuiet m key f d no_sheet = record {
  levels = λ k. ground (arith, field-h_incr m key (sheet_key k) f level d, no_sheet k);
  scores = λ k. z_score-h_incr m key board_key f k d;
}

pub bump_stat-IsQuiet : (m : MemStore) (f : Text) (n : ℤ) → IsQuiet m (bump_stat m f n)
unfolding bump_stat incr z_score
bump_stat-IsQuiet m f n = record { levels = λ k. stat-incr m _ n k level; scores = λ k. refl }

pub award_feat-IsQuiet : (m : MemStore) (key : Text) (bit : ℕ) → IsQuiet m (award_feat m key bit)
unfolding award_feat text_eq
award_feat-IsQuiet m key bit = elim (Bool-cases ((pos_part (stat m key feats) / bit) % 2 == 1)) [
  | inl had ↦ rw (had, award_feat) (IsQuiet-refl m)
  | inr new ↦ rw (new, award_feat) (h_set-IsQuiet m key feats _ refl)
]

hail_legendary-IsQuiet : (m : MemStore) (key : Text) → IsQuiet m (hail_legendary m key)
unfolding hail_legendary
hail_legendary-IsQuiet m key =
    IsQuiet-trans (award_feat-IsQuiet m key treasure_feat) (bump_stat-IsQuiet _ _ _)

salvage-IsQuiet : (m : MemStore) (key : Text) (cur : ℤ) → IsQuiet m (salvage m key cur)
unfolding salvage text_eq
salvage-IsQuiet m key cur = elim (Bool-cases (ltb_ℤ (pos 0) cur)) [
  | inr none_worn ↦ rw (none_worn, salvage) (IsQuiet-refl m)
  | inl old ↦
      rw (old, salvage)
        (IsQuiet-trans (h_incr-IsQuiet m key gold (scrap_for cur) refl) (bump_stat-IsQuiet _ _ _))
]

don-IsQuiet : (m : MemStore) (key : Text) (f : Find) → IsQuiet m (don m key f)
unfolding don text_eq item_field rarity_field affix_field name_key sheet_key
don-IsQuiet m key f =
    let m1 = h_set m (sheet_key key) (item_field f.slot) f.found in
    let m2 = h_set m1 (sheet_key key) (rarity_field f.slot) (pos f.tier) in
    let m3 = h_set m2 (sheet_key key) (affix_field f.slot) f.mask in
    let worn : IsQuiet m m3 = IsQuiet-trans (h_set-IsQuiet m key (item_field f.slot) f.found refl) (
      IsQuiet-trans (h_set-IsQuiet m1 key (rarity_field f.slot) (pos f.tier) refl)
        (h_set-IsQuiet m2 key (affix_field f.slot) f.mask refl)) in
    elim (Bool-cases (leb 3 f.tier)) [
      | inl named ↦
          rw (named, don) (IsQuiet-trans worn (set_str-IsQuiet m3 (name_key key f.slot) f.name))
      | inr plain ↦
          rw (plain, don)
            (IsQuiet-trans worn (del-IsQuiet m3 (name_key key f.slot) (λ k. refl) refl))
    ]

pub find_item-IsQuiet : (m : MemStore) (key : Text) (f : Find) → IsQuiet m (find_item m key f)
unfolding find_item record_find collection_key sheet_key text_eq
find_item-IsQuiet m key f =
    let cur = worn_power m key f.slot in
    let worn = don (salvage m key cur) key f in
    let noted = record_find worn key f.tier in
    let kept : IsQuiet m noted = IsQuiet-trans (salvage-IsQuiet m key cur) (
      IsQuiet-trans (don-IsQuiet (salvage m key cur) key f)
        (tally-IsQuiet worn (collection_key key) (rarity_name f.tier) (pos 1) (λ k. refl))) in
    elim (Bool-cases (leb_ℤ (power f.found (pos f.tier)) cur)) [
      | inl worse ↦ rw (worse, find_item) (IsQuiet-refl m)
      | inr better ↦ elim (Bool-cases (f.tier == legendary)) [
        | inl gold_one ↦
            rw (better, gold_one, find_item) (IsQuiet-trans kept (hail_legendary-IsQuiet noted key))
        | inr common ↦ rw (better, common, find_item) kept
      ]
    ]

-- What a calamity strikes: a slot, or the clock.
struck-IsQuiet :
    (m : MemStore) (key : Text) (pct : ℕ) (hit : Option Text)
    → IsQuiet m (elim hit [
      | none ↦ (h_incr m (sheet_key key) ttl (pct_of_ttl m key (5 + pct))).0
      | some slot ↦ tarnish m key slot
    ])
unfolding tarnish text_eq item_field
struck-IsQuiet m key pct none = h_incr-IsQuiet m key ttl _ refl
struck-IsQuiet m key pct (some slot) = h_set-IsQuiet m key (item_field slot) _ refl

calamity-IsQuiet :
    (m : MemStore) (key : Text) (coin pick pct : ℕ) → IsQuiet m (calamity m key coin pick pct)
unfolding calamity
calamity-IsQuiet m key coin pick pct = struck-IsQuiet m key pct _

merchant-IsQuiet :
    (m : MemStore) (key : Text) (gift draw pct : ℕ) → IsQuiet m (merchant m key gift draw pct)
unfolding merchant text_eq
merchant-IsQuiet m key gift draw pct = elim (Bool-cases (gift == 0)) [
  | inl purse ↦
      rw (purse, merchant)
        (IsQuiet-trans (h_incr-IsQuiet m key gold (pos (20 + draw)) refl) (bump_stat-IsQuiet _ _ _))
  | inr other ↦ elim (Bool-cases (gift == 1)) [
    | inl draught ↦ rw (other, draught, merchant) (h_incr-IsQuiet m key pots (pos 1) refl)
    | inr way ↦ rw (other, way, merchant) (h_incr-IsQuiet m key ttl _ refl)
  ]
]

pub visit-IsQuiet : (m : MemStore) (key : Text) (d : LuckDraws) → IsQuiet m (visit m key d)
unfolding visit godsend text_eq
visit-IsQuiet m key d = elim (Bool-cases (d.which == 0)) [
  | inl blest ↦ rw (blest, visit) (h_incr-IsQuiet m key ttl _ refl)
  | inr n0 ↦ elim (Bool-cases (d.which == 1)) [
    | inl curst ↦ rw (n0, curst, visit) (calamity-IsQuiet m key d.coin d.pick d.pct)
    | inr n1 ↦ elim (Bool-cases (d.which == 2)) [
      | inl hand ↦ rw (n0, n1, hand, visit) (hand_of_god-IsQuiet m key d.pct d.coin)
      | inr trade ↦ rw (n0, n1, trade, visit) (merchant-IsQuiet m key d.coin d.pick d.pct)
    ]
  ]
]

pub battle-IsQuiet : (m : MemStore) (key : Text) (d : BattleDraws) → IsQuiet m (battle m key d)
unfolding battle damage text_eq
battle-IsQuiet m key d = elim (Bool-cases (leb d.theirs d.mine)) [
  | inl won ↦ rw (won, battle) (h_incr-IsQuiet m key ttl (neg (swing_of d)) refl)
  | inr lost ↦
      rw (lost, battle)
        (IsQuiet-trans (h_incr-IsQuiet m key dmg _ refl)
          (h_incr-IsQuiet _ key ttl (swing_of d) refl))
]

place-IsQuiet : (m : MemStore) (key : Text) (x y : ℤ) → IsQuiet m (place m key x y)
unfolding place text_eq
place-IsQuiet m key x y =
    IsQuiet-trans (h_set-IsQuiet m key mx x refl)
      (h_set-IsQuiet (h_set m (sheet_key key) mx x) key my y refl)

module _ (compass : ℤ → ℤ → ℤ → Option (ℤ × ℤ)) where
  travel-IsQuiet :
      (m : MemStore) (key sky : Text) (t : Town) → IsQuiet m (travel compass m key sky t)
  unfolding travel text_eq
  travel-IsQuiet m key sky t =
      let ((nx, ny), reached) =
        step_toward (compass (stride m key sky)) (stat m key mx, stat m key my) (t.x, t.y) in
      let walked = place-IsQuiet m key nx ny in
      elim (Bool-cases reached) [
        | inl there ↦
            rw (there, travel)
              (IsQuiet-trans walked (h_set-IsQuiet (place m key nx ny) key dest (pos 0) refl))
        | inr far ↦ rw (far, travel) walked
      ]

  pub move_on_map-IsQuiet :
      (m : MemStore) (key sky : Text) (dx dy : ℕ) → IsQuiet m (move_on_map compass m key sky dx dy)
  unfolding move_on_map
  move_on_map-IsQuiet m key sky dx dy =
      elim (Bool-cases (eq_ℤ (stat m key mx) (pos 0) || eq_ℤ (stat m key my) (pos 0))) [
        | inl new ↦ rw (new, move_on_map) (place-IsQuiet m key _ _)
        | inr placed ↦ elim (Option-cases (bound_for (stat m key dest))) [
          | inl idle ↦ rw (placed, idle, move_on_map) (place-IsQuiet m key _ _)
          | inr (t, e) ↦ rw (placed, e, move_on_map) (travel-IsQuiet m key sky t)
        ]
      ]
