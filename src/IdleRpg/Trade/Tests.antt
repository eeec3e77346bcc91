-- ===== src/IdleRpg/Trade/Tests.antt =====
-- Runs of the stash and trade commands, and their theorems at concrete inputs.
use annoybots.Base.{
  ℕ, zero, suc, ◌≡◌, refl, [], ◌∷◌, ◌++◌, List, Option, none, some, Text, arith, codes, length,
  text_eq, parse_int, get_elem?, remove_at, false, ◌≤◌, ◌<◌, ◌⊎◌,
}
use annoybots.Base.Int.{ℤ, pos, ◌+ℤ◌, ◌≤ℤ◌}
use annoybots.State.{MemStore, new_mem, set_str, h_set}
use annoybots.Account.{link_key, resolve}
use annoybots.IdleRpg.{sheet_key}
use annoybots.IdleRpg.Sheet.{stat}
use annoybots.IdleRpg.Samples.{plain, realm, ann, bob, ring, helm}
use annoybots.IdleRpg.Stash.{
  StashItem, stash, equip, banked, worn, read_stash, write_stash, stash_cap,
}
use annoybots.IdleRpg.Stash.Banking.{bank_then_equip}
use annoybots.IdleRpg.Trade.{Sender, gave_gold, gave_item, give, give_item, gold}
use annoybots.IdleRpg.Trade.Gold.{give-keeps_gold}
use annoybots.IdleRpg.Trade.Items.{give_item-moves, give-duplicates}

abbrev from_ann : Sender
from_ann = record { network = codes "libera"; account = []; nick = codes "Ann" }

banked_run : (stash plain realm ann (some (codes "Weapon"))).1 ≡ banked (codes "weapon") 3
unfolding annoybots.Base.delete annoybots.Base.insert annoybots.Base.lookup
    annoybots.Base.lower_byte annoybots.Base.to_lower annoybots.IdleRpg.Sheet.stat
    annoybots.IdleRpg.Stash.bank annoybots.IdleRpg.Stash.wear annoybots.IdleRpg.Stash.write_stash
    annoybots.IdleRpg.affix_field annoybots.IdleRpg.is_item_slot annoybots.IdleRpg.item_field
    annoybots.IdleRpg.name_key annoybots.IdleRpg.no_sheet annoybots.IdleRpg.rarity_field
    annoybots.IdleRpg.sheet_key annoybots.IdleRpg.stash_key annoybots.State.Fields.field
    annoybots.State.del annoybots.State.get_str annoybots.State.h_get_all annoybots.State.h_set
    new_mem read_stash realm set_str stash text_eq worn
banked_run = refl

gold_run : (give plain realm from_ann (codes "bob" ∷ (codes "40" ∷ []))).1 ≡ gave_gold (pos 40)
unfolding annoybots.Account.identity annoybots.Account.resolve annoybots.Base.Int.add64
    annoybots.Base.Int.residue64 annoybots.Base.Int.wrap64 annoybots.Base.Int.◌+ℤ◌
    annoybots.Base.delete annoybots.Base.digits_from annoybots.Base.equal_fold annoybots.Base.insert
    annoybots.Base.lookup annoybots.Base.lower_byte annoybots.Base.parse_int annoybots.Base.signed
    annoybots.Base.to_lower annoybots.IdleRpg.Sheet.stat annoybots.IdleRpg.Stash.pick
    annoybots.IdleRpg.Stash.write_stash annoybots.IdleRpg.Trade.give_gold
    annoybots.IdleRpg.Trade.hand_over annoybots.IdleRpg.no_sheet annoybots.IdleRpg.sheet_key
    annoybots.IdleRpg.stash_key annoybots.State.Fields.field annoybots.State.bump
    annoybots.State.del annoybots.State.get_str annoybots.State.h_get_all annoybots.State.h_incr
    annoybots.State.h_set give give_item link_key new_mem read_stash realm set_str text_eq
gold_run = refl

item_run : (give_item plain realm ann bob (some (codes "2"))).1 ≡ gave_item helm
unfolding annoybots.Base.insert annoybots.Base.lookup annoybots.Base.parse_int
    annoybots.IdleRpg.Stash.pick annoybots.IdleRpg.Stash.write_stash annoybots.IdleRpg.stash_key
    annoybots.State.get_str annoybots.State.h_set give_item new_mem read_stash realm set_str text_eq
item_run = refl

bank_then_equip_example :
    let m2 =
      (equip plain (stash plain realm ann (some (codes "Weapon"))).0 ann (some (codes "3"))).0 in
    ((s : Text) → worn m2 ann s ≡ worn realm ann s)
    × ((q : Text) → read_stash plain m2 q ≡ read_stash plain realm q)
unfolding annoybots.Base.parse_int
bank_then_equip_example =
    bank_then_equip plain realm ann (codes "Weapon") (codes "weapon") (codes "3") 3 banked_run refl

give-keeps_gold_example :
    let from = resolve realm from_ann.network from_ann.account from_ann.nick in
    let to = resolve realm from_ann.network [] (codes "bob") in
    let m2 = (give plain realm from_ann (codes "bob" ∷ (codes "40" ∷ []))).0 in
    (stat m2 from gold +ℤ stat m2 to gold ≡ stat realm from gold +ℤ stat realm to gold)
    × (pos 0 ≤ℤ stat m2 from gold)
    × (text_eq from to ≡ false → stat m2 to gold ≡ stat realm to gold +ℤ pos 40)
    × ((q g : Text)
        → (text_eq gold g ≡ false) ⊎ ((text_eq from q ≡ false) × (text_eq to q ≡ false))
        → stat m2 q g ≡ stat realm q g)
unfolding annoybots.Account.identity annoybots.Base.delete annoybots.Base.insert
    annoybots.Base.lookup annoybots.Base.lower_byte annoybots.Base.to_lower
    annoybots.IdleRpg.stash_key annoybots.State.Fields.field annoybots.State.del
    annoybots.State.get_str annoybots.State.h_get_all h_set link_key new_mem realm resolve set_str
    sheet_key stat text_eq write_stash ◌+ℤ◌
give-keeps_gold_example =
    give-keeps_gold plain realm from_ann (codes "bob") (codes "40") [] (pos 40) gold_run
      (omega arith, omega arith) (omega arith, omega arith)

give_item-moves_example :
    let m2 = (give_item plain realm ann bob (some (codes "2"))).0 in
    (i : ℕ) × (parse_int (codes "2") ≡ some (pos (suc i)))
    × (get_elem? (read_stash plain realm ann) i ≡ some helm)
    × (length (read_stash plain realm bob) < stash_cap)
    × (read_stash plain m2 ann ≡ remove_at i (read_stash plain realm ann))
    × (read_stash plain m2 bob ≡ read_stash plain realm bob ++ helm ∷ [])
    × ((q : Text)
        → text_eq ann q ≡ false
        → text_eq bob q ≡ false
        → read_stash plain m2 q ≡ read_stash plain realm q)
unfolding text_eq
give_item-moves_example = give_item-moves plain realm ann bob (codes "2") helm refl item_run

-- The realm where the nicks Ann and Zed are linked to the account `ann`.
unfoldable linked_realm : MemStore
unfolding realm
linked_realm =
    write_stash plain
      (h_set
        (set_str (set_str new_mem (link_key (codes "libera|ann")) (codes "ann"))
          (link_key (codes "libera|zed")) (codes "ann"))
        (sheet_key (codes "ann")) (codes "gold") (pos 1))
      (codes "ann") (ring ∷ (helm ∷ []))

same_player :
    resolve linked_realm (codes "libera") [] (codes "Zed")
    ≡ resolve linked_realm from_ann.network from_ann.account from_ann.nick
unfolding annoybots.Account.identity annoybots.Base.insert annoybots.Base.lookup
    annoybots.Base.lower_byte annoybots.Base.to_lower annoybots.IdleRpg.stash_key
    annoybots.State.get_str h_set link_key linked_realm new_mem resolve set_str text_eq write_stash
same_player = refl

duplicate_run :
    (give plain linked_realm from_ann (codes "Zed" ∷ (codes "item" ∷ (codes "1" ∷ [])))).1
    ≡ gave_item ring
unfolding annoybots.Account.identity annoybots.Base.Int.add64 annoybots.Base.Int.residue64
    annoybots.Base.Int.wrap64 annoybots.Base.delete annoybots.Base.digits_from
    annoybots.Base.equal_fold annoybots.Base.insert annoybots.Base.lookup annoybots.Base.lower_byte
    annoybots.Base.signed annoybots.Base.to_lower annoybots.IdleRpg.Stash.pick
    annoybots.IdleRpg.Trade.give_gold annoybots.IdleRpg.Trade.hand_over annoybots.IdleRpg.no_sheet
    annoybots.IdleRpg.stash_key annoybots.State.Fields.field annoybots.State.bump
    annoybots.State.del annoybots.State.get_str annoybots.State.h_get_all annoybots.State.h_incr
    give give_item h_set link_key linked_realm new_mem parse_int read_stash resolve set_str
    sheet_key stat text_eq write_stash ◌+ℤ◌
duplicate_run = refl

give-duplicates_example :
    let me = resolve linked_realm from_ann.network from_ann.account from_ann.nick in
    read_stash plain
      (give plain linked_realm from_ann (codes "Zed" ∷ (codes "item" ∷ (codes "1" ∷ [])))).0
      me
    ≡ read_stash plain linked_realm me ++ ring ∷ []
give-duplicates_example =
    give-duplicates plain linked_realm from_ann (codes "Zed") (codes "1") ring same_player
      duplicate_run
