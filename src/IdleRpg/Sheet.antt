-- ===== src/IdleRpg/Sheet.antt =====
-- Reads and writes of character sheets of internal/idlerpg: the store at the keys of the game.
use annoybots.Base.{
  Map, insert, lookup, or_zero, lookup-insert, lookup-delete, false, ◌&&◌, ◌≡◌, refl, [], ◌∷◌, Text,
  arith, codes, text_eq, text_eq-append, text_eq_refl, if◌then◌else◌,
}
use annoybots.Base.Int.{ℤ, add64}
use annoybots.State.{MemStore, incr, h_set, h_incr, h_get_all, set_str, del}
use annoybots.State.Fields.{field, field-h_set, field-h_incr, field-del, h_incr-field}
use annoybots.IdleRpg.{
  item_field, rarity_field, affix_field, sheet_key, stash_key, name_key, is_nil, no_sheet,
}

-- `sheet[f]` of a player.
unfoldable pub stat : MemStore → Text → Text → ℤ
stat m p f = field m (sheet_key p) f

pub sheet_key_inj : (p q : Text) → text_eq (sheet_key p) (sheet_key q) ≡ text_eq p q
unfolding sheet_key
sheet_key_inj p q = text_eq-append (codes "rpg:p:") p q

pub stash_key_inj : (p q : Text) → text_eq (stash_key p) (stash_key q) ≡ text_eq p q
unfolding stash_key
stash_key_inj p q = text_eq-append (codes "rpg:stash:") p q

pub stash-ne-name : (p q s : Text) → text_eq (stash_key p) (name_key q s) ≡ false
unfolding stash_key name_key text_eq
stash-ne-name p q s = refl

pub name-ne-stash : (p q s : Text) → text_eq (name_key p s) (stash_key q) ≡ false
unfolding stash_key name_key text_eq
name-ne-stash p q s = refl

pub stash-ne-sheet : (p q : Text) → text_eq (stash_key p) (sheet_key q) ≡ false
unfolding stash_key sheet_key text_eq
stash-ne-sheet p q = refl

pub name-ne-sheet : (p q s : Text) → text_eq (name_key p s) (sheet_key q) ≡ false
unfolding name_key sheet_key text_eq
name-ne-sheet p q s = refl

pub item-ne-rarity : (s t : Text) → text_eq (item_field s) (rarity_field t) ≡ false
unfolding item_field rarity_field text_eq
item-ne-rarity s t = refl

pub item-ne-affix : (s t : Text) → text_eq (item_field s) (affix_field t) ≡ false
unfolding item_field affix_field text_eq
item-ne-affix s t = refl

pub rarity-ne-item : (s t : Text) → text_eq (rarity_field s) (item_field t) ≡ false
unfolding item_field rarity_field text_eq
rarity-ne-item s t = refl

pub rarity-ne-affix : (s t : Text) → text_eq (rarity_field s) (affix_field t) ≡ false
unfolding affix_field rarity_field text_eq
rarity-ne-affix s t = refl

pub affix-ne-item : (s t : Text) → text_eq (affix_field s) (item_field t) ≡ false
unfolding item_field affix_field text_eq
affix-ne-item s t = refl

pub affix-ne-rarity : (s t : Text) → text_eq (affix_field s) (rarity_field t) ≡ false
unfolding affix_field rarity_field text_eq
affix-ne-rarity s t = refl

module _ (m : MemStore) (p q : Text) where
  pub stat-h_set :
      (f g : Text) (v : ℤ)
      → stat (h_set m (sheet_key p) f v) q g
        ≡ (if text_eq p q && text_eq f g then v else stat m q g)
  unfolding stat
  stat-h_set f g v =
      ground (arith, field-h_set m (sheet_key p) (sheet_key q) f g v, sheet_key_inj p q)

  pub stat-h_incr :
      (f g : Text) (d : ℤ)
      → stat (h_incr m (sheet_key p) f d).0 q g
        ≡ (if text_eq p q && text_eq f g then add64 (stat m p f) d else stat m q g)
  unfolding stat
  stat-h_incr f g d =
      ground (arith, field-h_incr m (sheet_key p) (sheet_key q) f g d, sheet_key_inj p q)

pub stat-set_str : (m : MemStore) (k v q g : Text) → stat (set_str m k v) q g ≡ stat m q g
unfolding stat field set_str h_get_all
stat-set_str m k v q g = refl

pub stat-del :
    (m : MemStore) (k q g : Text)
    → text_eq k (sheet_key q) ≡ false
    → stat (del m k) q g ≡ stat m q g
unfolding stat
stat-del m k q g n = ground (arith, field-del m k (sheet_key q) g)

pub name_key_slot : (p s t : Text) → text_eq (name_key p s) (name_key p t) ≡ text_eq s t
unfolding name_key text_eq
name_key_slot p s t = text_eq-append p (b':' ∷ s) (b':' ∷ t)

pub item_field_inj : (s t : Text) → text_eq (item_field s) (item_field t) ≡ text_eq s t
unfolding item_field
item_field_inj s t = text_eq-append (codes "item:") s t

pub rarity_field_inj : (s t : Text) → text_eq (rarity_field s) (rarity_field t) ≡ text_eq s t
unfolding rarity_field
rarity_field_inj s t = text_eq-append (codes "ir:") s t

pub affix_field_inj : (s t : Text) → text_eq (affix_field s) (affix_field t) ≡ text_eq s t
unfolding affix_field
affix_field_inj s t = text_eq-append (codes "af:") s t

is_nil-insert {ℓ} : {V : Type ℓ} (k : Text) (v : V) (m : Map V) → is_nil (insert k v m) ≡ false
unfolding insert
is_nil-insert k v [] = refl
is_nil-insert k v ((j, w) ∷ m) = ground arith

-- A player whose sheet has been written has a sheet.
pub no_sheet-h_set :
    (m : MemStore) (p f : Text) (v : ℤ) → no_sheet (h_set m (sheet_key p) f v) p ≡ false
unfolding no_sheet h_set h_get_all
no_sheet-h_set m p f v = ground (
  arith,
  text_eq_refl (sheet_key p),
  lookup-insert (sheet_key p) (sheet_key p)
      (insert f v (or_zero [] (lookup (sheet_key p) m.hashes))) m.hashes,
  is_nil-insert f v (or_zero [] (lookup (sheet_key p) m.hashes)),
)

pub no_sheet-set_str : (m : MemStore) (k v p : Text) → no_sheet (set_str m k v) p ≡ no_sheet m p
unfolding no_sheet set_str h_get_all
no_sheet-set_str m k v p = refl

pub no_sheet-del :
    (m : MemStore) (k p : Text)
    → text_eq k (sheet_key p) ≡ false
    → no_sheet (del m k) p ≡ no_sheet m p
unfolding no_sheet del h_get_all
no_sheet-del m k p n = ground (arith, lookup-delete k (sheet_key p) m.hashes)

pub h_incr-stat :
    (m : MemStore) (p f : Text) (d : ℤ) → (h_incr m (sheet_key p) f d).1 ≡ add64 (stat m p f) d
unfolding stat
h_incr-stat m p f d = h_incr-field m (sheet_key p) f d

pub stat-incr :
    (m : MemStore) (k : Text) (n : ℤ) (q g : Text) → stat (incr m k n).0 q g ≡ stat m q g
unfolding stat field incr h_get_all
stat-incr m k n q g = refl
