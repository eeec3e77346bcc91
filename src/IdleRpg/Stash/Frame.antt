-- ===== src/IdleRpg/Stash/Frame.antt =====
-- What the writes of internal/idlerpg/stash.go change and what they leave.
use annoybots.Base.{
  false, ◌≡◌, ◌∙◌, [], ◌∷◌, List, Text, arith, text_eq, text_eq_iff, text_eq_refl, if◌then◌else◌,
}
use annoybots.State.{MemStore, get_str, del, h_set}
use annoybots.State.Fields.{get_str-set_str, get_str-del, get_str-h_set}
use annoybots.IdleRpg.{
  item_field, rarity_field, affix_field, sheet_key, stash_key, name_key, no_sheet,
}
use annoybots.IdleRpg.Sheet.{
  stat, stat-h_set, stat-set_str, stat-del, stash_key_inj, stash-ne-name, name-ne-stash,
  stash-ne-sheet, name-ne-sheet, item-ne-rarity, item-ne-affix, rarity-ne-item, rarity-ne-affix,
  affix-ne-item, affix-ne-rarity, no_sheet-h_set, no_sheet-set_str, no_sheet-del, name_key_slot,
  item_field_inj, rarity_field_inj, affix_field_inj,
}
use annoybots.IdleRpg.Stash.{StashItem, Codec, worn, wear, read_stash, write_stash}

-- The three sheet writes of `wear`.
abbrev fields_set : MemStore → Text → StashItem → MemStore
fields_set m p it =
    h_set
      (h_set (h_set m (sheet_key p) (item_field it.slot) it.level) (sheet_key p)
        (rarity_field it.slot) it.rarity)
      (sheet_key p) (affix_field it.slot) it.affix

get_str-fields_set :
    (m : MemStore) (p k : Text) (it : StashItem) → get_str (fields_set m p it) k ≡ get_str m k
get_str-fields_set m p k it =
    get_str-h_set _ (sheet_key p) k (affix_field it.slot) it.affix
    ∙ get_str-h_set _ (sheet_key p) k (rarity_field it.slot) it.rarity
    ∙ get_str-h_set m (sheet_key p) k (item_field it.slot) it.level

-- A string under another key than the slot's name is left alone.
get_str-wear :
    (m : MemStore) (p k : Text) (it : StashItem)
    → get_str (wear m p it) k ≡ (if text_eq (name_key p it.slot) k then it.name else get_str m k)
unfolding wear
get_str-wear m p k it = ground (
  arith,
  text_eq_iff it.name [],
  get_str-fields_set m p k it,
  get_str-del (fields_set m p it) (name_key p it.slot) k,
  get_str-set_str (fields_set m p it) (name_key p it.slot) k it.name,
)

stat-wear :
    (m : MemStore) (p g : Text) (it : StashItem)
    → stat (wear m p it) p g ≡ stat (fields_set m p it) p g
unfolding wear
stat-wear m p g it = ground (
  arith,
  stat-del (fields_set m p it) (name_key p it.slot) p g (name-ne-sheet p p it.slot),
  stat-set_str (fields_set m p it) (name_key p it.slot) it.name p g,
)

stat-fields_set :
    (m : MemStore) (p g : Text) (it : StashItem)
    → stat (fields_set m p it) p g ≡ (
        if text_eq (affix_field it.slot) g
        then it.affix
        else if text_eq (rarity_field it.slot) g
        then it.rarity
        else if text_eq (item_field it.slot) g
        then it.level
        else stat m p g)
stat-fields_set m p g it = ground (
  arith,
  text_eq_refl p,
  stat-h_set
      (h_set (h_set m (sheet_key p) (item_field it.slot) it.level) (sheet_key p)
        (rarity_field it.slot) it.rarity)
      p p (affix_field it.slot) g it.affix,
  stat-h_set (h_set m (sheet_key p) (item_field it.slot) it.level) p p (rarity_field it.slot) g
      it.rarity,
  stat-h_set m p p (item_field it.slot) g it.level,
)

-- After `wear` the slot holds the item, and every other slot what it held.
pub worn-wear :
    (m : MemStore) (p s : Text) (it : StashItem)
    → worn (wear m p it) p s ≡ (if text_eq it.slot s then it else worn m p s)
unfolding worn
worn-wear m p s it = ground (
  arith,
  text_eq_iff it.slot s,
  stat-wear m p (item_field s) it,
  stat-wear m p (rarity_field s) it,
  stat-wear m p (affix_field s) it,
  stat-fields_set m p (item_field s) it,
  stat-fields_set m p (rarity_field s) it,
  stat-fields_set m p (affix_field s) it,
  item_field_inj it.slot s,
  rarity_field_inj it.slot s,
  affix_field_inj it.slot s,
  item-ne-rarity it.slot s,
  item-ne-affix it.slot s,
  rarity-ne-item it.slot s,
  rarity-ne-affix it.slot s,
  affix-ne-item it.slot s,
  affix-ne-rarity it.slot s,
  get_str-wear m p (name_key p s) it,
  name_key_slot p it.slot s,
)

pub no_sheet-wear : (m : MemStore) (p : Text) (it : StashItem) → no_sheet (wear m p it) p ≡ false
unfolding wear
no_sheet-wear m p it = ground (
  arith,
  no_sheet-del (fields_set m p it) (name_key p it.slot) p (name-ne-sheet p p it.slot),
  no_sheet-set_str (fields_set m p it) (name_key p it.slot) it.name p,
  no_sheet-h_set
      (h_set (h_set m (sheet_key p) (item_field it.slot) it.level) (sheet_key p)
        (rarity_field it.slot) it.rarity)
      p (affix_field it.slot) it.affix,
)

module _ (json : Codec) where
  pub read_stash-write :
      (m : MemStore) (p q : Text) (items : List StashItem)
      → read_stash json (write_stash json m p items) q
        ≡ (if text_eq p q then items else read_stash json m q)
  unfolding read_stash write_stash
  read_stash-write m p q [] = ground (
    arith,
    text_eq_refl [],
    get_str-del m (stash_key p) (stash_key q),
    stash_key_inj p q,
    text_eq_iff (get_str (del m (stash_key p)) (stash_key q)) [],
  )
  read_stash-write m p q (x ∷ xs) = ground (
    arith,
    get_str-set_str m (stash_key p) (stash_key q) (json.encode (x ∷ xs)),
    stash_key_inj p q,
    text_eq_iff (json.encode (x ∷ xs)) [],
    json.encode-ne-nil (x ∷ xs),
    json.decode-encode (x ∷ xs),
  )

  pub stat-write_stash :
      (m : MemStore) (p q g : Text) (items : List StashItem)
      → stat (write_stash json m p items) q g ≡ stat m q g
  unfolding write_stash
  stat-write_stash m p q g [] = stat-del m (stash_key p) q g (stash-ne-sheet p q)
  stat-write_stash m p q g (x ∷ xs) = stat-set_str m (stash_key p) _ q g

  pub name-write_stash :
      (m : MemStore) (p q s : Text) (items : List StashItem)
      → get_str (write_stash json m p items) (name_key q s) ≡ get_str m (name_key q s)
  unfolding write_stash
  name-write_stash m p q s [] =
      ground (arith, get_str-del m (stash_key p) (name_key q s), stash-ne-name p q s)
  name-write_stash m p q s (x ∷ xs) = ground (
    arith,
    get_str-set_str m (stash_key p) (name_key q s) (json.encode (x ∷ xs)),
    stash-ne-name p q s,
  )

  pub worn-write_stash :
      (m : MemStore) (p q s : Text) (items : List StashItem)
      → worn (write_stash json m p items) q s ≡ worn m q s
  unfolding worn
  worn-write_stash m p q s items = ground (
    arith,
    stat-write_stash m p q (item_field s) items,
    stat-write_stash m p q (rarity_field s) items,
    stat-write_stash m p q (affix_field s) items,
    name-write_stash m p q s items,
  )

  pub read_stash-wear :
      (m : MemStore) (p q : Text) (it : StashItem)
      → read_stash json (wear m p it) q ≡ read_stash json m q
  unfolding read_stash
  read_stash-wear m p q it =
      ground (arith, get_str-wear m p (stash_key q) it, name-ne-stash p q it.slot)
