-- ===== src/IdleRpg/Trade.antt =====
-- internal/idlerpg/trade.go: gifts of gold and of stashed items. The player keys are those of the
-- account registry, which idlerpg calls through `resolve`.
use annoybots.Base.{
  ℕ, zero, suc, Bool, true, false, ◌||◌, not, [], ◌∷◌, ◌++◌, List, Option, none, some, Text, codes,
  text_eq, equal_fold, length, remove_at, leb, if◌then◌else◌, parse_int,
}
use annoybots.Base.Int.{ℤ, pos, neg, leb_ℤ, ltb_ℤ}
use annoybots.State.{MemStore, h_incr}
use annoybots.Account.{resolve}
use annoybots.IdleRpg.{sheet_key, no_sheet}
use annoybots.IdleRpg.Sheet.{stat}
use annoybots.IdleRpg.Stash.{StashItem, Codec, stash_cap, read_stash, write_stash, pick}
pub mod Gold
pub mod Items
mod Tests

-- What the trade commands read of `engine.Message`.
pub record Sender : Type 0 where
  pub network : Text
  pub account : Text
  pub nick : Text

pub data GiveReply : Type 0 where
  give_usage not_playing to_yourself target_not_playing bad_amount item_usage no_such_item :
      GiveReply
  target_full : GiveReply
  too_poor : ℤ → GiveReply
  gave_gold : ℤ → GiveReply
  gave_item : StashItem → GiveReply

abbrev pub gold : Text
gold = codes "gold"

-- `fields[3]` as an amount of gold.
unfoldable pub give_gold : MemStore → Text → Text → Option ℤ → MemStore × GiveReply
give_gold m from to none = (m, bad_amount)
give_gold m from to (some amt) =
    if leb_ℤ amt (pos 0)
    then (m, bad_amount)
    else if ltb_ℤ (stat m from gold) amt
    then (m, too_poor (stat m from gold))
    else (
      (h_incr (h_incr m (sheet_key from) gold (neg amt)).0 (sheet_key to) gold amt).0,
      gave_gold amt,
    )

module _ (json : Codec) where
  -- The two stash writes of a gift, both computed from the store as it was.
  unfoldable pub hand_over : MemStore → Text → Text → ℕ → StashItem → MemStore
  hand_over m from to i it =
      write_stash json (write_stash json m from (remove_at i (read_stash json m from))) to
        (read_stash json m to ++ it ∷ [])

  -- `giveItem`, with `fields[4]` where there is one.
  unfoldable pub give_item : MemStore → Text → Text → Option Text → MemStore × GiveReply
  give_item m from to none = (m, item_usage)
  give_item m from to (some num) = elim (pick (read_stash json m from) (parse_int num)) [
    | none ↦ (m, no_such_item)
    | some (i, it) ↦
        if leb stash_cap (length (read_stash json m to))
        then (m, target_full)
        else (hand_over m from to i it, gave_item it)
  ]

  -- `give`, with `fields[2]` and those after it.
  unfoldable pub give : MemStore → Sender → List Text → MemStore × GiveReply
  give m msg [] = (m, give_usage)
  give m msg (target ∷ []) = (m, give_usage)
  give m msg (target ∷ (what ∷ more)) =
      let from = resolve m msg.network msg.account msg.nick in
      let to = resolve m msg.network [] target in
      if no_sheet m from
      then (m, not_playing)
      else if equal_fold target msg.nick
      then (m, to_yourself)
      else if no_sheet m to
      then (m, target_not_playing)
      else if equal_fold what (codes "item")
      then give_item m from to (elim more [ [] ↦ none | (num ∷ rest) ↦ some num ])
      else give_gold m from to (parse_int what)
