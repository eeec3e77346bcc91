-- ===== src/IdleRpg/Trade/Gold.antt =====
-- Gifts of gold of internal/idlerpg/trade.go.
use annoybots.Base.{
  ◌+◌, Bool, true, false, ◌≡◌, ◌∙◌, ◌≢◌, text_eq_sound, refl, inl, inr, ◌⊎◌, [], ◌∷◌, List, Option,
  none, some, Text, arith, text_eq, text_eq_iff, text_eq_refl, if◌then◌else◌, Option-cases,
  parse_int, ◌&&◌,
}
use annoybots.Base.Int.{
  ℤ, pos, negsuc, pos_part, neg_part, neg, leb_ℤ, ltb_ℤ, IsInt64, ◌+ℤ◌, ◌≤ℤ◌, add64, add64_of_range,
  one_part, +ℤ_parts, eq_of_parts,
}
use annoybots.State.{MemStore, h_incr}
use annoybots.Account.{resolve}
use annoybots.IdleRpg.{sheet_key}
use annoybots.IdleRpg.Sheet.{stat, stat-h_incr}
use annoybots.IdleRpg.Stash.{Codec, read_stash, pick}
use annoybots.IdleRpg.Trade.{Sender, gave_gold, gold, give_gold, give_item, give}

give_gold_inv :
    (m : MemStore) (from to : Text) (amt : Option ℤ) (k : ℤ)
    → (give_gold m from to amt).1 ≡ gave_gold k
    → (leb_ℤ k (pos 0) ≡ false)
      × (ltb_ℤ (stat m from gold) k ≡ false)
      × ((give_gold m from to amt).0
          ≡ (h_incr (h_incr m (sheet_key from) gold (neg k)).0 (sheet_key to) gold k).0)
unfolding give_gold
give_gold_inv m from to none k h = ground arith
give_gold_inv m from to (some amt) k h = ground arith

stat-two :
    (m : MemStore) (from to q g : Text) (k : ℤ)
    → stat (h_incr (h_incr m (sheet_key from) gold (neg k)).0 (sheet_key to) gold k).0 q g ≡ (
        if text_eq to q && text_eq gold g
        then add64 (if text_eq from to then add64 (stat m from gold) (neg k) else stat m to gold) k
        else if text_eq from q && text_eq gold g
        then add64 (stat m from gold) (neg k)
        else stat m q g)
stat-two m from to q g k = ground (
  arith,
  text_eq_refl gold,
  stat-h_incr (h_incr m (sheet_key from) gold (neg k)).0 to q gold g k,
  stat-h_incr m from to gold gold (neg k),
  stat-h_incr m from q gold g (neg k),
)

-- Taking k from at least k is exact.
pub add64-neg :
    (a k : ℤ)
    → IsInt64 a
    → leb_ℤ k (pos 0) ≡ false
    → ltb_ℤ a k ≡ false
    → (pos_part (add64 a (neg k)) + pos_part k ≡ pos_part a) × (neg_part (add64 a (neg k)) ≡ 0)
add64-neg (pos x) (pos y) r p h = ground (
  arith,
  +ℤ_parts (pos x) (neg (pos y)),
  add64_of_range (pos x) (neg (pos y)),
  one_part (pos x +ℤ neg (pos y)),
)
add64-neg (negsuc x) k r p h = ground arith
add64-neg a (negsuc y) r p h = ground arith

abbrev moved : MemStore → Text → Text → ℤ → MemStore
moved m from to k = (h_incr (h_incr m (sheet_key from) gold (neg k)).0 (sheet_key to) gold k).0

-- What is taken can be given back.
back_again :
    (a k : ℤ)
    → IsInt64 a
    → leb_ℤ k (pos 0) ≡ false
    → ltb_ℤ a k ≡ false
    → add64 (add64 a (neg k)) k ≡ a
back_again a k r p h =
    let taken = add64-neg a k r p h in
    let b = add64 a (neg k) in
    ground (
      arith,
      +ℤ_parts b k,
      eq_of_parts (b +ℤ k) a,
      add64_of_range b k,
      one_part a,
      one_part (b +ℤ k),
    )

-- The purses of two players after a gift, in numbers.
pub sum_of_parts :
    (a b k : ℤ)
    → IsInt64 a
    → IsInt64 (b +ℤ k)
    → leb_ℤ k (pos 0) ≡ false
    → ltb_ℤ a k ≡ false
    → add64 a (neg k) +ℤ add64 b k ≡ a +ℤ b
sum_of_parts a b k rf rt p h =
    let taken = add64-neg a k rf p h in
    let c = add64 a (neg k) in
    ground (
      arith,
      add64_of_range b k,
      +ℤ_parts b k,
      +ℤ_parts c (b +ℤ k),
      +ℤ_parts a b,
      eq_of_parts (c +ℤ (b +ℤ k)) (a +ℤ b),
    )

moved-sum :
    (m : MemStore) (from to : Text) (k : ℤ)
    → IsInt64 (stat m from gold)
    → IsInt64 (stat m to gold +ℤ k)
    → leb_ℤ k (pos 0) ≡ false
    → ltb_ℤ (stat m from gold) k ≡ false
    → (stat (moved m from to k) from gold +ℤ stat (moved m from to k) to gold
        ≡ stat m from gold +ℤ stat m to gold)
      × (pos 0 ≤ℤ stat (moved m from to k) from gold)
moved-sum m from to k rf rt p h = go (text_eq to from) refl
  where
    go :
        (b : Bool)
        → text_eq to from ≡ b
        → (stat (moved m from to k) from gold +ℤ stat (moved m from to k) to gold
            ≡ stat m from gold +ℤ stat m to gold)
          × (pos 0 ≤ℤ stat (moved m from to k) from gold)
    go true e =
        let same : to ≡ from = text_eq_sound to from e in
        let at : stat (moved m from to k) from gold ≡ stat m from gold = ground (
          arith,
          stat-two m from to from gold k,
          text_eq_refl gold,
          text_eq_refl from,
          back_again (stat m from gold) k rf p h,
        ) in
        (cc (same, at), ground (arith, at))
    go false e =
        let at_from : stat (moved m from to k) from gold ≡ add64 (stat m from gold) (neg k) =
          ground (arith, stat-two m from to from gold k, text_eq_refl gold, text_eq_refl from) in
        let at_to : stat (moved m from to k) to gold ≡ add64 (stat m to gold) k = ground (
          arith,
          stat-two m from to to gold k,
          text_eq_refl gold,
          text_eq_refl to,
          text_eq_iff from to,
          text_eq_iff to from,
        ) in
        (
          rw (at_from, at_to) (sum_of_parts (stat m from gold) (stat m to gold) k rf rt p h),
          ground (arith, at_from, add64-neg (stat m from gold) k rf p h),
        )

moved-to :
    (m : MemStore) (from to : Text) (k : ℤ)
    → text_eq from to ≡ false
    → IsInt64 (stat m to gold +ℤ k)
    → stat (moved m from to k) to gold ≡ stat m to gold +ℤ k
moved-to m from to k n r = ground (
  arith,
  stat-two m from to to gold k,
  text_eq_refl to,
  text_eq_refl gold,
  add64_of_range (stat m to gold) k,
)

moved-frame :
    (m : MemStore) (from to : Text) (k : ℤ) (q g : Text)
    → (text_eq gold g ≡ false) ⊎ ((text_eq from q ≡ false) × (text_eq to q ≡ false))
    → stat (moved m from to k) q g ≡ stat m q g
moved-frame m from to k q g (inl n) = ground (arith, stat-two m from to q g k)
moved-frame m from to k q g (inr n) = ground (arith, stat-two m from to q g k)

give_item-ne-gold :
    (json : Codec) (m : MemStore) (from to : Text) (num : Option Text) (k : ℤ)
    → (give_item json m from to num).1 ≢ gave_gold k
unfolding give_item
give_item-ne-gold json m from to none k h = ground arith
give_item-ne-gold json m from to (some num) k h =
    elim (Option-cases (pick (read_stash json m from) (parse_int num))) [
      | inl e ↦ ground (arith, e)
      | inr (x, e) ↦ ground (arith, e)
    ]

give_inv :
    (json : Codec) (m : MemStore) (msg : Sender) (target what : Text) (more : List Text) (k : ℤ)
    → (give json m msg (target ∷ (what ∷ more))).1 ≡ gave_gold k
    → let from = resolve m msg.network msg.account msg.nick in
      let to = resolve m msg.network [] target in
      ((give json m msg (target ∷ (what ∷ more))).0 ≡ (give_gold m from to (parse_int what)).0)
      × ((give_gold m from to (parse_int what)).1 ≡ gave_gold k)
unfolding give
give_inv json m msg target what more k h = ground (
  arith,
  give_item-ne-gold json m (resolve m msg.network msg.account msg.nick)
      (resolve m msg.network [] target) (elim more [ [] ↦ none | (num ∷ rest) ↦ some num ]) k,
)

-- A gift of gold that the bot announces gives another player exactly the amount, keeps the sum of
-- the two purses, leaves the giver no debt, and changes no other field and nobody else's sheet, if
-- the giver's purse is an int64 and the receiver's does not overflow.
pub give-keeps_gold :
    (json : Codec) (m : MemStore) (msg : Sender) (target what : Text) (more : List Text) (k : ℤ)
    → (give json m msg (target ∷ (what ∷ more))).1 ≡ gave_gold k
    → let from = resolve m msg.network msg.account msg.nick in
      let to = resolve m msg.network [] target in
      let m2 = (give json m msg (target ∷ (what ∷ more))).0 in
      IsInt64 (stat m from gold)
      → IsInt64 (stat m to gold +ℤ k)
      → (stat m2 from gold +ℤ stat m2 to gold ≡ stat m from gold +ℤ stat m to gold)
        × (pos 0 ≤ℤ stat m2 from gold)
        × (text_eq from to ≡ false → stat m2 to gold ≡ stat m to gold +ℤ k)
        × ((q g : Text)
            → (text_eq gold g ≡ false) ⊎ ((text_eq from q ≡ false) × (text_eq to q ≡ false))
            → stat m2 q g ≡ stat m q g)
give-keeps_gold json m msg target what more k h rf rt =
    let from = resolve m msg.network msg.account msg.nick in
    let to = resolve m msg.network [] target in
    let ran = give_inv json m msg target what more k h in
    let gold_inv = give_gold_inv m from to (parse_int what) k ran.1 in
    let store = ran.0 ∙ gold_inv.2 in
    let sums = moved-sum m from to k rf rt gold_inv.0 gold_inv.1 in
    (
      rw store sums.0,
      rw store sums.1,
      λ n. rw store (moved-to m from to k n rt),
      λ q g n. rw store (moved-frame m from to k q g n),
    )
