-- ===== src/IdleRpg/Stash.antt =====
-- internal/idlerpg/stash.go: banking equipped gear and equipping banked gear. encoding/json is a
-- parameter: `encode` and `decode` for a list of items, which round-trip. The `!rpg stash` listing
-- is the list that it shows.
use annoybots.Base.{
  ℕ, zero, suc, ◌-◌, Bool, true, false, ◌&&◌, ◌||◌, not, ◌≡◌, ◌≢◌, [], ◌∷◌, ◌++◌, List, Option,
  none, some, Text, arith, text_eq, to_lower, length, get_elem?, remove_at, leb, ltb, if◌then◌else◌,
  parse_int,
}
use annoybots.Base.Int.{ℤ, pos, negsuc, pos_part, leb_ℤ, ltb_ℤ}
use annoybots.State.{MemStore, get_str, set_str, del, h_set}
use annoybots.IdleRpg.{
  item_field, rarity_field, affix_field, sheet_key, stash_key, name_key, is_item_slot, is_nil,
  no_sheet,
}
use annoybots.IdleRpg.Sheet.{stat}
pub mod Frame
pub mod Banking
pub mod Cap

pub record StashItem : Type 0 where
  pub slot : Text
  pub level : ℤ
  pub rarity : ℤ
  pub affix : ℤ
  pub name : Text

pub record Codec : Type 0 where
  pub encode : List StashItem → Text
  pub decode : Text → Option (List StashItem)
  pub decode-encode : (xs : List StashItem) → decode (encode xs) ≡ some xs
  pub encode-ne-nil : (xs : List StashItem) → encode xs ≢ []

abbrev pub stash_cap : ℕ
stash_cap = 12

pub data Reply : Type 0 where
  not_playing usage no_such_item nothing_equipped stash_full : Reply
  listed : List StashItem → Reply
  banked : Text → ℕ → Reply
  equipped : StashItem → Reply

-- What is equipped in a slot, as a banked item.
unfoldable pub worn : MemStore → Text → Text → StashItem
worn m p slot = record {
  slot = slot;
  level = stat m p (item_field slot);
  rarity = stat m p (rarity_field slot);
  affix = stat m p (affix_field slot);
  name = get_str m (name_key p slot);
}

-- The three sheet fields and the name of a slot. An empty name is deleted.
unfoldable pub wear : MemStore → Text → StashItem → MemStore
wear m p it =
    let k = sheet_key p in
    let m1 = h_set m k (item_field it.slot) it.level in
    let m2 = h_set m1 k (rarity_field it.slot) it.rarity in
    let m3 = h_set m2 k (affix_field it.slot) it.affix in
    if text_eq it.name []
    then del m3 (name_key p it.slot)
    else set_str m3 (name_key p it.slot) it.name

abbrev pub bare : Text → StashItem
bare slot = record { slot = slot; level = pos 0; rarity = pos 0; affix = pos 0; name = [] }

-- The item with the number that a player types, counted from 1, and its index.
unfoldable pub pick : List StashItem → Option ℤ → Option (ℕ × StashItem)
pick items (some (pos (suc i))) = elim (get_elem? items i) [ none ↦ none | some it ↦ some (i, it) ]
pick items _ = none

module _ (json : Codec) where
  unfoldable pub read_stash : MemStore → Text → List StashItem
  read_stash m p =
      let blob = get_str m (stash_key p) in
      if text_eq blob [] then [] else elim (json.decode blob) [ none ↦ [] | some items ↦ items ]

  unfoldable pub write_stash : MemStore → Text → List StashItem → MemStore
  write_stash m p items =
      if is_nil items then del m (stash_key p) else set_str m (stash_key p) (json.encode items)

  -- The writes of a successful `!rpg stash <slot>`: the slot is left bare.
  unfoldable pub bank : MemStore → Text → Text → MemStore
  bank m p slot = wear (write_stash m p (read_stash m p ++ worn m p slot ∷ [])) p (bare slot)

  -- `stash`, with `fields[2]` where there is one.
  unfoldable pub stash : MemStore → Text → Option Text → MemStore × Reply
  stash m p none = if no_sheet m p then (m, not_playing) else (m, listed (read_stash m p))
  stash m p (some arg) =
      let slot = to_lower arg in
      if no_sheet m p
      then (m, not_playing)
      else if not (is_item_slot slot)
      then (m, usage)
      else if leb_ℤ (stat m p (item_field slot)) (pos 0)
      then (m, nothing_equipped)
      else if leb stash_cap (length (read_stash m p))
      then (m, stash_full)
      else (bank m p slot, banked slot (suc (length (read_stash m p))))

  -- The stash after item i has been taken out and what is worn in its slot put in.
  unfoldable pub swapped : MemStore → Text → ℕ → StashItem → List StashItem
  swapped m p i it =
      let rest = remove_at i (read_stash m p) in
      if ltb_ℤ (pos 0) (stat m p (item_field it.slot)) then rest ++ worn m p it.slot ∷ [] else rest

  -- The writes of a successful `!rpg equip <i + 1>`.
  unfoldable pub take_out : MemStore → Text → ℕ → StashItem → MemStore
  take_out m p i it = wear (write_stash m p (swapped m p i it)) p it

  -- `equip`, with `fields[2]` where there is one.
  unfoldable pub equip : MemStore → Text → Option Text → MemStore × Reply
  equip m p none = if no_sheet m p then (m, not_playing) else (m, usage)
  equip m p (some arg) =
      if no_sheet m p then (m, not_playing) else elim (pick (read_stash m p) (parse_int arg)) [
        | none ↦ (m, no_such_item)
        | some (i, it) ↦ (take_out m p i it, equipped it)
      ]
