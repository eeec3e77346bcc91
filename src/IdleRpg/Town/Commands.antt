-- ===== src/IdleRpg/Town/Commands.antt =====
-- The verbs that a town serves, in command of internal/idlerpg/idlerpg.go, all at once.
use annoybots.Base.{
  ℕ, ◌<◌, ◌≡◌, ◌≢◌, refl, subst, Bool, true, false, [], ◌∷◌, List, Option, none, some, Text,
  text_eq, to_lower, equal_fold, join_space, codes, if◌then◌else◌, Bool-cases, Option-cases, inl,
  inr,
}
use annoybots.Base.Int.{ℤ, pos}
use annoybots.State.{MemStore}
use annoybots.IdleRpg.{item_field, rarity_field, is_item_slot, no_sheet}
use annoybots.IdleRpg.Sheet.{stat}
use annoybots.IdleRpg.Trade.{Sender, gold}
use annoybots.IdleRpg.Rebirth.{level}
use annoybots.IdleRpg.Hero.{key_of}
use annoybots.IdleRpg.Town.{
  Service, inn, market, temple, TownReply, no_service, not_playing, no_town, usage, shown,
  travelling, Serve, at_rest, show_shop, sell_potion, sell_mount, sell_item, sell_blessing,
  raise_dead, enchant_item, enrolled, town_of, same_service, town_service, set_travel, town_by_name,
  rest, shop, buy_potion, buy_mount, bless_at, revive, buy, enchant, town_command, dest,
}
use annoybots.IdleRpg.Town.Prices.{high}
use annoybots.IdleRpg.Town.Solvent.{
  price_of, Served, free, same-Charged, h_set-Charged, sell_potion-Served, sell_mount-Served,
  sell_blessing-Served, raise_dead-Served, at_rest-Served, sell_item-Served, enchant_item-Served,
}

-- A character whose gold is not negative, and whose level and items stay below a billion.
pub record IsModest (m : MemStore) (k : Text) : Type 0 where
  pub coins : ℕ
  pub rank : ℕ
  pub item : Text → ℕ
  pub tier : Text → ℕ
  pub has_coins : stat m k gold ≡ pos coins
  pub small : coins < 9223372036854775808
  pub has_rank : stat m k level ≡ pos rank
  pub low : rank < high
  pub has_item : (slot : Text) → stat m k (item_field slot) ≡ pos (item slot)
  pub light : (slot : Text) → item slot < high
  pub has_tier : (slot : Text) → stat m k (rarity_field slot) ≡ pos (tier slot)

some_inj : {A : Type 0} {a b : A} → some a ≡ some b → a ≡ b
some_inj h = cc

none-ne-some : {A : Type 0} {a : A} → none ≢ some a
none-ne-some h = cc

module _ (hypot : ℤ → ℤ → ℤ) (m : MemStore) (msg : Sender) (ok : IsModest m (key_of m msg)) where
  abbrev Fair : MemStore × TownReply → Type 0
  Fair = Served m (key_of m msg)

  refused : (reply : TownReply) → price_of reply ≡ pos 0 → Fair (m, reply)
  refused reply e =
      free m (key_of m msg) ok.coins ok.rank ok.has_coins ok.small ok.has_rank ok.low reply e

  service-Served :
      (service : Service) (serve : Serve)
      → Fair (serve m (key_of m msg))
      → Fair (town_service hypot m msg service serve)
  unfolding town_service
  service-Served service serve h = elim (Bool-cases (enrolled m (key_of m msg))) [
    | inr out ↦ rw (out, town_service) (refused not_playing refl)
    | inl plays ↦ elim (Option-cases (town_of hypot (stat m (key_of m msg)))) [
      | inl wilds ↦ rw (plays, wilds, town_service) (refused (no_service service) refl)
      | inr (t, there) ↦ elim (Bool-cases (same_service t.service service)) [
        | inl offers ↦ rw (plays, there, offers, town_service) h
        | inr other ↦ rw (plays, there, other, town_service) (refused (no_service service) refl)
      ]
    ]
  ]

  travel-Served : (words : List Text) → Fair (set_travel m msg words)
  unfolding set_travel text_eq
  travel-Served [] = refused usage refl
  travel-Served (w ∷ words) = elim (Option-cases (town_by_name (join_space (w ∷ words)))) [
    | inl unknown ↦ rw (unknown, set_travel) (refused no_town refl)
    | inr ((i, t), e) ↦ elim (Bool-cases (no_sheet m (key_of m msg))) [
      | inl out ↦ rw (e, out, set_travel) (refused not_playing refl)
      | inr plays ↦
          let fine : Fair (m, travelling t) = refused (travelling t) refl in
          rw (e, plays, set_travel)
            (h_set-Charged (same-Charged m (key_of m msg)) dest _ refl refl, fine.1, fine.2)
    ]
  ]

  buy-Served : (mount : Text) (words : List Text) → Fair (buy hypot m msg mount words)
  unfolding buy buy_potion buy_mount
  buy-Served mount [] = refused usage refl
  buy-Served mount (word ∷ words) = elim (Bool-cases (equal_fold word (codes "potion"))) [
    | inl potion ↦
        rw (potion, buy)
          (service-Served market sell_potion (
            sell_potion-Served m (key_of m msg) ok.coins ok.rank ok.has_coins ok.small ok.has_rank
              ok.low))
    | inr no_potion ↦ elim (Bool-cases (equal_fold word (codes "mount"))) [
      | inl horse ↦
          rw (no_potion, horse, buy)
            (service-Served market (sell_mount mount) (
              sell_mount-Served m (key_of m msg) ok.coins ok.rank ok.has_coins ok.small ok.has_rank
                ok.low mount))
      | inr no_horse ↦ elim (Bool-cases (is_item_slot word)) [
        | inr wrong ↦ rw (no_potion, no_horse, wrong, buy) (refused usage refl)
        | inl slot ↦
            rw (no_potion, no_horse, slot, buy)
              (service-Served market (sell_item (to_lower word)) (
                sell_item-Served m (key_of m msg) ok.coins ok.rank ok.has_coins ok.small ok.has_rank
                  ok.low (to_lower word)))
      ]
    ]
  ]

  enchant-Served :
      (draw : ℕ) (name : Text) (words : List Text) → Fair (enchant hypot m msg draw name words)
  unfolding enchant
  enchant-Served draw name [] = refused usage refl
  enchant-Served draw name (word ∷ words) = elim (Bool-cases (is_item_slot word)) [
    | inr wrong ↦ rw (wrong, enchant) (refused usage refl)
    | inl slot ↦
        rw (slot, enchant)
          (service-Served market (enchant_item (to_lower word) draw name) (
            enchant_item-Served m (key_of m msg) ok.coins ok.rank ok.has_coins ok.small ok.has_rank
              ok.low (to_lower word) draw name (ok.item (to_lower word)) (ok.tier (to_lower word))
              (ok.has_item (to_lower word)) (ok.light (to_lower word))
              (ok.has_tier (to_lower word))))
  ]

  either :
      (b : Bool) (x r : MemStore × TownReply) (other : Option (MemStore × TownReply))
      → Fair x
      → (other ≡ some r → Fair r)
      → (if b then some x else other) ≡ some r
      → Fair r
  either true x r other fine next h = subst Fair (some_inj h) fine
  either false x r other fine next h = next h

  -- Whatever a town command does, only the sender's sheet can change, its level stays, and its gold
  -- goes down by exactly the price that the reply names (nothing, where the command is refused), which
  -- is neither negative nor more than the purse: no purchase overdraws. This holds for a sender whose
  -- gold, level, items and rarities are not negative, and whose level and items are below a billion.
  pub town_command-Served :
      (mount : Text) (draw : ℕ) (name verb : Text) (words : List Text) (r : MemStore × TownReply)
      → town_command hypot m msg mount draw name verb words ≡ some r
      → Served m (key_of m msg) r
  unfolding town_command rest shop bless_at revive show_shop
  town_command-Served mount draw name verb words r =
      either _ (set_travel m msg words) r _ (travel-Served words) (
        either _ (rest hypot m msg) r _
          (service-Served inn at_rest
            (at_rest-Served m k ok.coins ok.rank ok.has_coins ok.small ok.has_rank ok.low))
          (either _ (shop hypot m msg) r _ (service-Served market show_shop (refused shown refl)) (
            either _ (buy hypot m msg mount words) r _ (buy-Served mount words) (
              either _ (enchant hypot m msg draw name words) r _ (enchant-Served draw name words) (
                either _ (revive hypot m msg) r _
                  (service-Served temple raise_dead (
                    raise_dead-Served m k ok.coins ok.rank ok.has_coins ok.small ok.has_rank
                      ok.low))
                  (either _ (bless_at hypot m msg) r _
                    (service-Served temple sell_blessing (
                      sell_blessing-Served m k ok.coins ok.rank ok.has_coins ok.small ok.has_rank
                        ok.low))
                    (λ h. absurd (none-ne-some h))))))))
    where
      k : Text
      k = key_of m msg
