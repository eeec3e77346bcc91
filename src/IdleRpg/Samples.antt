-- ===== src/IdleRpg/Samples.antt =====
-- A codec for stashes that round-trips, and a small realm, for the runs in the test modules.
use annoybots.Base.{
  ℕ, zero, suc, ◌≡◌, ◌≢◌, refl, [], ◌∷◌, ◌++◌, List, Option, none, some, Text, codes, length, take,
  drop,
}
use annoybots.Base.Int.{ℤ, pos, negsuc}
use annoybots.State.{MemStore, new_mem, h_set}
use annoybots.IdleRpg.{sheet_key}
use annoybots.IdleRpg.Stash.{StashItem, Codec, write_stash}

abbrev pub code_int : ℤ → Text → Text
code_int (pos n) t = 0 ∷ (n ∷ t)
code_int (negsuc n) t = 1 ∷ (n ∷ t)

abbrev pub code_text : Text → Text → Text
code_text s t = length s ∷ (s ++ t)

abbrev pub code_item : StashItem → Text → Text
code_item it t =
    code_text it.slot
      (code_int it.level (code_int it.rarity (code_int it.affix (code_text it.name t))))

abbrev pub code_items : List StashItem → Text
code_items [] = []
code_items (it ∷ items) = code_item it (code_items items)

abbrev pub read_int : {A : Type 0} → (ℤ → Text → Option A) → Text → Option A
read_int k (zero ∷ (n ∷ s)) = k (pos n) s
read_int k (suc t ∷ (n ∷ s)) = k (negsuc n) s
read_int k s = none

abbrev pub read_text : {A : Type 0} → (Text → Text → Option A) → Text → Option A
read_text k [] = none
read_text k (n ∷ s) = k (take n s) (drop n s)

abbrev pub read_item : {A : Type 0} → (StashItem → Text → Option A) → Text → Option A
read_item k = read_text (λ slot. read_int (λ level. read_int (λ rarity. read_int (λ affix.
    read_text (λ name.
      k (record { slot = slot; level = level; rarity = rarity; affix = affix; name = name }))))))

abbrev pub read_items :
    ℕ → (List StashItem → Option (List StashItem)) → Text → Option (List StashItem)
read_items zero k s = k []
read_items (suc n) k s = read_item (λ it. read_items n (λ items. k (it ∷ items))) s

pub read_int-code :
    {A : Type 0} (k : ℤ → Text → Option A) (z : ℤ) (s : Text) → read_int k (code_int z s) ≡ k z s
read_int-code k (pos n) s = refl
read_int-code k (negsuc n) s = refl

take-length : (s t : Text) → take (length s) (s ++ t) ≡ s
take-length [] t = refl
take-length (c ∷ s) t = rw (take-length s t)

drop-length : (s t : Text) → drop (length s) (s ++ t) ≡ t
drop-length [] t = refl
drop-length (c ∷ s) t = drop-length s t

pub read_text-code :
    {A : Type 0} (k : Text → Text → Option A) (s t : Text) → read_text k (code_text s t) ≡ k s t
read_text-code k s t = cc (take-length s t, drop-length s t)

read_item-code :
    {A : Type 0} (k : StashItem → Text → Option A) (it : StashItem) (t : Text)
    → read_item k (code_item it t) ≡ k it t
read_item-code k it t = rw (
  read_text-code _ it.slot _,
  read_int-code _ it.level _,
  read_int-code _ it.rarity _,
  read_int-code _ it.affix _,
  read_text-code _ it.name t,
)

pub read_items-code :
    (items : List StashItem) (k : List StashItem → Option (List StashItem))
    → read_items (length items) k (code_items items) ≡ k items
read_items-code [] k = refl
read_items-code (it ∷ items) k =
    rw
      (read_item-code (λ (x : StashItem). read_items (length items) (λ xs. k (x ∷ xs))) it
        (code_items items))
      (read_items-code items (λ xs. k (it ∷ xs)))

pub items-ne-nil : (items : List StashItem) → length items ∷ code_items items ≢ []
items-ne-nil items e = cc e

abbrev pub plain : Codec
plain = record {
  encode = λ items. length items ∷ code_items items;
  decode = λ s. elim s [ [] ↦ none | (n ∷ t) ↦ read_items n some t ];
  decode-encode = λ items. read_items-code items some;
  encode-ne-nil = items-ne-nil;
}

abbrev pub ring : StashItem
ring = record {
  slot = codes "ring";
  level = pos 7;
  rarity = pos 2;
  affix = pos 0;
  name = codes "One";
}

abbrev pub helm : StashItem
helm = record { slot = codes "helm"; level = pos 3; rarity = pos 1; affix = pos 4; name = [] }

abbrev pub ann : Text
ann = codes "libera|ann"

abbrev pub bob : Text
bob = codes "libera|bob"

-- Two players on one network: ann has 100 gold, wears a weapon and has banked two items.
unfoldable pub realm : MemStore
realm =
    write_stash plain
      (h_set
        (h_set (h_set new_mem (sheet_key ann) (codes "gold") (pos 100)) (sheet_key bob)
          (codes "gold") (pos 5))
        (sheet_key ann) (codes "item:weapon") (pos 9))
      ann (ring ∷ (helm ∷ []))
