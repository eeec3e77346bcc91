-- ===== src/IdleRpg/Town/Solvent.antt =====
-- What the town commands of internal/idlerpg take from a purse, and whose sheets they touch.
use annoybots.Base.{
  ℕ, ◌+◌, ◌*◌, ◌/◌, ◌%◌, ◌==◌, ◌<◌, ◌≤◌, ◌≡◌, refl, sym, subst, ◌∙◌, true, false, not, ◌&&◌, [],
  Text, text_eq, text_eq_refl, arith, Bool-cases, inl, inr, codes,
}
use annoybots.Base.Int.{
  ℤ, pos, negsuc, neg, pos_part, ◌-ℤ◌, add64, wrap64, ◌+ℤ◌, leb_ℤ, ltb_ℤ, eq_ℤ,
}
use annoybots.State.{MemStore, h_set, h_incr, set_str, get_str, del, incr}
use annoybots.IdleRpg.{sheet_key, class_key, name_key, item_field, rarity_field, affix_field}
use annoybots.IdleRpg.Sheet.{
  stat, stat-h_set, stat-h_incr, stat-set_str, stat-del, stat-incr, name-ne-sheet,
}
use annoybots.IdleRpg.Trade.{gold}
use annoybots.IdleRpg.Rebirth.{level}
use annoybots.IdleRpg.Gear.{legendary, power}
use annoybots.IdleRpg.Feats.{award_feat, bump_stat, hail_legendary, feats, treasure_feat, stat_key}
use annoybots.IdleRpg.Health.{
  dmg, poison, bless, pots, cure_poison, mend, bless_ticks, poisoned, blessed, is_downed,
}
use annoybots.IdleRpg.Town.{
  TownReply, paid, already, blessed_already, not_downed, nothing_there, better, at_the_top,
  too_poor, pay, at_rest, sell_potion, sell_mount, sell_item, sell_blessing, raise_dead, christen,
  enchant_item, shop_price, potion_price, mount_price, bless_price, revive_price, enchant_cost,
  mount_key, healthy,
}
use annoybots.IdleRpg.Town.Prices.{high, price_lem, enchant_cost_lem}

-- The gold that a reply says has been paid.
abbrev pub price_of : TownReply → ℤ
price_of (paid p) = p
price_of other = pos 0

-- A store in which nobody's sheet but k's is another, and k's has its level and its gold less a price.
pub record Charged (m : MemStore) (k : Text) (price : ℤ) (after : MemStore) : Type 0 where
  pub others : (q g : Text) → text_eq k q ≡ false → stat after q g ≡ stat m q g
  pub purse : stat after k gold ≡ stat m k gold -ℤ price
  pub rank : stat after k level ≡ stat m k level

sub_zero : (x : ℤ) → x ≡ x -ℤ pos 0
unfolding ◌-ℤ◌
sub_zero (pos n) = ground arith
sub_zero (negsuc n) = ground arith

pub same-Charged : (m : MemStore) (k : Text) → Charged m k (pos 0) m
same-Charged m k = record {
  others = λ q g apart. refl;
  purse = sub_zero (stat m k gold);
  rank = refl;
}

take_gold :
    (g p : ℕ) → g < 9223372036854775808 → p ≤ g → add64 (pos g) (neg (pos p)) ≡ pos g -ℤ pos p
unfolding add64 wrap64 ◌+ℤ◌ ◌-ℤ◌
take_gold g p h k = ground arith

pay-Charged :
    (m : MemStore) (k : Text) (g p : ℕ)
    → stat m k gold ≡ pos g
    → g < 9223372036854775808
    → p ≤ g
    → Charged m k (pos p) (pay m k (pos p))
unfolding pay text_eq
pay-Charged m k g p purse h le = record {
  others = λ q f apart. ground (arith, apart, stat-h_incr m k q gold f (neg (pos p)));
  purse =
      ground (
        arith,
        purse,
        stat-h_incr m k k gold gold (neg (pos p)),
        text_eq_refl k,
        take_gold g p h le,
      );
  rank = ground (arith, stat-h_incr m k k gold level (neg (pos p)));
}

-- Writes that leave gold and level alone.
module _ {m : MemStore} {k : Text} {price : ℤ} {after : MemStore}
    (h : Charged m k price after) where
  pub h_set-Charged :
      (f : Text) (v : ℤ)
      → text_eq f gold ≡ false
      → text_eq f level ≡ false
      → Charged m k price (h_set after (sheet_key k) f v)
  h_set-Charged f v no_gold no_level = record {
    others = λ q g apart. ground (arith, apart, stat-h_set after k q f g v, h.others q g apart);
    purse = ground (arith, stat-h_set after k k f gold v, h.purse);
    rank = ground (arith, stat-h_set after k k f level v, h.rank);
  }

  h_incr-Charged :
      (f : Text) (d : ℤ)
      → text_eq f gold ≡ false
      → text_eq f level ≡ false
      → Charged m k price (h_incr after (sheet_key k) f d).0
  h_incr-Charged f d no_gold no_level = record {
    others = λ q g apart. ground (arith, apart, stat-h_incr after k q f g d, h.others q g apart);
    purse = ground (arith, stat-h_incr after k k f gold d, h.purse);
    rank = ground (arith, stat-h_incr after k k f level d, h.rank);
  }

  set_str-Charged : (key v : Text) → Charged m k price (set_str after key v)
  set_str-Charged key v = record {
    others = λ q g apart. ground (arith, stat-set_str after key v q g, h.others q g apart);
    purse = stat-set_str after key v k gold ∙ h.purse;
    rank = stat-set_str after key v k level ∙ h.rank;
  }

  del-Charged :
      (key : Text)
      → ((q : Text) → text_eq key (sheet_key q) ≡ false)
      → Charged m k price (del after key)
  del-Charged key apart = record {
    others = λ q g other. stat-del after key q g (apart q) ∙ h.others q g other;
    purse = stat-del after key k gold (apart k) ∙ h.purse;
    rank = stat-del after key k level (apart k) ∙ h.rank;
  }

  incr-Charged : (key : Text) (n : ℤ) → Charged m k price (incr after key n).0
  incr-Charged key n = record {
    others = λ q g other. stat-incr after key n q g ∙ h.others q g other;
    purse = stat-incr after key n k gold ∙ h.purse;
    rank = stat-incr after key n k level ∙ h.rank;
  }

mend-Charged :
    (m : MemStore) (k : Text) (price : ℤ) (after : MemStore)
    → Charged m k price after
    → Charged m k price (mend after k)
unfolding mend cure_poison text_eq
mend-Charged m k price after h =
    h_set-Charged (h_set-Charged h dmg (pos 0) refl refl) poison (pos 0) refl refl

hail-Charged :
    (m : MemStore) (k : Text) (price : ℤ) (after : MemStore)
    → Charged m k price after
    → Charged m k price (hail_legendary after k)
unfolding hail_legendary award_feat bump_stat text_eq
hail-Charged m k price after h = incr-Charged feat (stat_key (codes "legendaries")) (pos 1)
  where
    feat : Charged m k price (award_feat after k treasure_feat)
    feat = elim (Bool-cases (pos_part (stat after k feats) / treasure_feat % 2 == 1)) [
      | inl held ↦ rw (held, award_feat) h
      | inr new ↦ rw (new, award_feat) (h_set-Charged h feats _ refl refl)
    ]

christen-Charged :
    (m : MemStore) (k : Text) (price : ℤ) (after : MemStore) (slot : Text) (tier : ℤ) (name : Text)
    → Charged m k price after
    → Charged m k price (christen after k slot tier name)
unfolding christen
christen-Charged m k price after slot tier name h = elim (Bool-cases (leb_ℤ (pos 3) tier)) [
  | inl named ↦ elim (Bool-cases (leb_ℤ (pos legendary) tier)) [
    | inl best ↦
        rw (named, best, christen)
          (hail-Charged m k price _ (set_str-Charged h (name_key k slot) name))
    | inr lower ↦ rw (named, lower, christen) (set_str-Charged h (name_key k slot) name)
  ]
  | inr plain ↦ elim (Bool-cases (leb_ℤ (pos legendary) tier)) [
    | inl best ↦ rw (plain, best, christen) (hail-Charged m k price after h)
    | inr lower ↦ rw (plain, lower, christen) h
  ]
]

-- What a service comes to: its price is not negative and not above the purse, and is taken from it.
abbrev pub Served : MemStore → Text → MemStore × TownReply → Type 0
Served m k r =
    Charged m k (price_of r.1) r.0
    × (leb_ℤ (pos 0) (price_of r.1) ≡ true)
    × (leb_ℤ (price_of r.1) (stat m k gold) ≡ true)

module _ (m : MemStore) (k : Text) (g n : ℕ) (purse : stat m k gold ≡ pos g)
    (small : g < 9223372036854775808) (rank : stat m k level ≡ pos n) (low : n < high) where
  pub free : (reply : TownReply) → price_of reply ≡ pos 0 → Served m k (m, reply)
  free reply e =
      ground (arith, purse, subst (λ (p : ℤ). Charged m k p m) (sym e) (same-Charged m k))

  sold :
      (p : ℕ) (price : ℤ) (after : MemStore)
      → price ≡ pos p
      → ltb_ℤ (stat m k gold) price ≡ false
      → (Charged m k price (pay m k price) → Charged m k price after)
      → Served m k (after, paid price)
  sold p price after e enough next =
      let le : p ≤ g = ground (arith, e, purse, enough) in
      (
        next (
            subst (λ (z : ℤ). Charged m k z (pay m k z)) (sym e)
              (pay-Charged m k g p purse small le)),
        ground (arith, e),
        ground (arith, e, purse, enough),
      )

  pub sell_potion-Served : Served m k (sell_potion m k)
  unfolding sell_potion text_eq
  sell_potion-Served = elim (Bool-cases (ltb_ℤ (stat m k gold) price)) [
    | inl poor ↦ rw (poor, sell_potion) (free (too_poor price) refl)
    | inr enough ↦
        rw (enough, sell_potion)
          (sold (2 * n + 15) price _ priced enough (λ h. h_incr-Charged h pots (pos 1) refl refl))
  ]
    where
      price : ℤ
      price = potion_price (stat m k level)

      priced : potion_price (stat m k level) ≡ pos (2 * n + 15)
      priced = rw rank (price_lem n low).1

  pub sell_mount-Served : (mount : Text) → Served m k (sell_mount mount m k)
  unfolding sell_mount
  sell_mount-Served mount = elim (Bool-cases (text_eq (get_str m (mount_key k)) [])) [
    | inr has_one ↦ rw (has_one, sell_mount) (free already refl)
    | inl none_yet ↦ elim (Bool-cases (ltb_ℤ (stat m k gold) (mount_price (stat m k level)))) [
      | inl poor ↦
          rw (none_yet, poor, sell_mount) (free (too_poor (mount_price (stat m k level))) refl)
      | inr enough ↦
          rw (none_yet, enough, sell_mount)
            (sold (8 * n + 400) (mount_price (stat m k level)) _ (rw rank (price_lem n low).2)
              enough (λ h. set_str-Charged h (mount_key k) mount))
    ]
  ]

  pub sell_blessing-Served : Served m k (sell_blessing m k)
  unfolding sell_blessing text_eq
  sell_blessing-Served = elim (Bool-cases (blessed (stat m k))) [
    | inl held ↦ rw (held, sell_blessing) (free blessed_already refl)
    | inr bare ↦ elim (Bool-cases (ltb_ℤ (stat m k gold) (bless_price (stat m k level)))) [
      | inl poor ↦
          rw (bare, poor, sell_blessing) (free (too_poor (bless_price (stat m k level))) refl)
      | inr enough ↦
          rw (bare, enough, sell_blessing)
            (sold (3 * n + 25) (bless_price (stat m k level)) _ (rw rank (price_lem n low).3) enough
              (λ h. h_set-Charged h bless bless_ticks refl refl))
    ]
  ]

  pub raise_dead-Served : Served m k (raise_dead m k)
  unfolding raise_dead
  raise_dead-Served = elim (Bool-cases (is_downed (stat m k) (get_str m (class_key k)))) [
    | inr up ↦ rw (up, raise_dead) (free not_downed refl)
    | inl down ↦ elim (Bool-cases (ltb_ℤ (stat m k gold) (revive_price (stat m k level)))) [
      | inl poor ↦
          rw (down, poor, raise_dead) (free (too_poor (revive_price (stat m k level))) refl)
      | inr enough ↦
          rw (down, enough, raise_dead)
            (sold (4 * n + 15) (revive_price (stat m k level)) _ (rw rank (price_lem n low).4)
              enough (λ h. mend-Charged m k _ _ h))
    ]
  ]

  pub at_rest-Served : Served m k (at_rest m k)
  unfolding at_rest
  at_rest-Served = elim (Bool-cases (eq_ℤ (stat m k dmg) (pos 0) && not (poisoned (stat m k)))) [
    | inl whole ↦ rw (whole, at_rest) (free healthy refl)
    | inr hurt ↦
        rw (hurt, at_rest)
          (mend-Charged m k (pos 0) m (same-Charged m k), refl, ground (arith, purse))
  ]

  pub sell_item-Served : (slot : Text) → Served m k (sell_item slot m k)
  unfolding sell_item item_field rarity_field text_eq
  sell_item-Served slot = elim (Bool-cases (ltb_ℤ (stat m k gold) (shop_price (stat m k level)))) [
    | inl poor ↦ rw (poor, sell_item) (free (too_poor (shop_price (stat m k level))) refl)
    | inr enough ↦
        elim (Bool-cases (
          leb_ℤ (add64 (stat m k level) (pos 1))
            (power (stat m k (item_field slot)) (stat m k (rarity_field slot))))) [
              | inl worse ↦ rw (enough, worse, sell_item) (free better refl)
              | inr good ↦
                  rw (enough, good, sell_item)
                    (sold (8 * n + 8) (shop_price (stat m k level)) _ (rw rank (price_lem n low).0)
                      enough
                      (λ h.
                        del-Charged
                          (h_set-Charged (h_set-Charged h (item_field slot) _ refl refl)
                            (rarity_field slot) (pos 0) refl refl)
                          (name_key k slot) (λ q. name-ne-sheet k q slot)))
            ]
  ]

  pub enchant_item-Served :
      (slot : Text) (draw : ℕ) (name : Text) (l t : ℕ)
      → stat m k (item_field slot) ≡ pos l
      → l < high
      → stat m k (rarity_field slot) ≡ pos t
      → Served m k (enchant_item slot draw name m k)
  unfolding enchant_item rarity_field affix_field text_eq
  enchant_item-Served slot draw name l t item light tier =
      elim (Bool-cases (leb_ℤ (stat m k (item_field slot)) (pos 0))) [
        | inl none_there ↦ rw (none_there, enchant_item) (free nothing_there refl)
        | inr some_there ↦
            elim (Bool-cases (leb_ℤ (pos legendary) (stat m k (rarity_field slot)))) [
              | inl top ↦ rw (some_there, top, enchant_item) (free at_the_top refl)
              | inr lower ↦ elim (Bool-cases (ltb_ℤ (stat m k gold) cost)) [
                | inl poor ↦ rw (some_there, lower, poor, enchant_item) (free (too_poor cost) refl)
                | inr enough ↦
                    rw (some_there, lower, enough, enchant_item)
                      (sold ((l + 5) * ((t + 1) * (t + 1)) * 25) cost _ (priced lower) enough (λ h.
                        christen-Charged m k _ _ slot _ name (
                          h_set-Charged (h_set-Charged h (rarity_field slot) _ refl refl)
                            (affix_field slot) _ refl refl)))
              ]
            ]
      ]
    where
      cost : ℤ
      cost = enchant_cost (stat m k (item_field slot)) (stat m k (rarity_field slot))

      priced :
          leb_ℤ (pos legendary) (stat m k (rarity_field slot)) ≡ false
          → enchant_cost (stat m k (item_field slot)) (stat m k (rarity_field slot))
            ≡ pos ((l + 5) * ((t + 1) * (t + 1)) * 25)
      priced lower = rw (item, tier) (enchant_cost_lem l t light (ground (arith, tier, lower)))
