-- ===== src/IdleRpg/Trade/Items.antt =====
-- Gifts of items of internal/idlerpg/trade.go.
use annoybots.Base.{
  ℕ, suc, ◌≤◌, ◌<◌, true, false, ◌≡◌, refl, inl, inr, [], ◌∷◌, ◌++◌, Option, none, some, Text,
  arith, codes, text_eq, text_eq_iff, text_eq_refl, equal_fold, to_lower, lower_byte, length,
  get_elem?, remove_at, if◌then◌else◌, Option-cases, parse_int, length-append, length-remove_at,
}
use annoybots.Base.Int.{pos}
use annoybots.State.{MemStore}
use annoybots.Account.{resolve}
use annoybots.IdleRpg.Stash.{
  StashItem, Codec, stash_cap, read_stash, write_stash, pick, stash, equip,
}
use annoybots.IdleRpg.Stash.Frame.{read_stash-write}
use annoybots.IdleRpg.Stash.Cap.{pick_inv, get_elem?-bound, stash_cap_lem, equip_cap}
use annoybots.IdleRpg.Trade.{Sender, gave_item, give_item, hand_over, give}

module _ (json : Codec) (m : MemStore) (from to : Text) where
  read_stash-hand_over :
      (i : ℕ) (it : StashItem) (q : Text)
      → read_stash json (hand_over json m from to i it) q ≡ (
          if text_eq to q
          then read_stash json m to ++ it ∷ []
          else if text_eq from q
          then remove_at i (read_stash json m from)
          else read_stash json m q)
  unfolding hand_over
  read_stash-hand_over i it q = ground (
    arith,
    read_stash-write json (write_stash json m from (remove_at i (read_stash json m from))) to q
        (read_stash json m to ++ it ∷ []),
    read_stash-write json m from q (remove_at i (read_stash json m from)),
  )

  give_item_inv :
      (num : Text) (it : StashItem)
      → (give_item json m from to (some num)).1 ≡ gave_item it
      → (i : ℕ) × (parse_int num ≡ some (pos (suc i)))
        × (get_elem? (read_stash json m from) i ≡ some it)
        × (length (read_stash json m to) < stash_cap)
        × ((give_item json m from to (some num)).0 ≡ hand_over json m from to i it)
  unfolding give_item
  give_item_inv num it h = elim (Option-cases (pick (read_stash json m from) (parse_int num))) [
    | inl e ↦ ground (arith, e)
    | inr ((i, x), e) ↦
        let stands = pick_inv (read_stash json m from) (parse_int num) i x e in
        (i, stands.1, ground (arith, e, stands), ground (arith, e), ground (arith, e))
  ]

  -- A gift of an item between two players that the bot announces takes exactly the item with the
  -- number that the giver typed out of the giver's stash, puts it at the end of the receiver's,
  -- which had room, and leaves the stashes of all others.
  pub give_item-moves :
      (num : Text) (it : StashItem)
      → text_eq from to ≡ false
      → (give_item json m from to (some num)).1 ≡ gave_item it
      → let m2 = (give_item json m from to (some num)).0 in
        (i : ℕ) × (parse_int num ≡ some (pos (suc i)))
        × (get_elem? (read_stash json m from) i ≡ some it)
        × (length (read_stash json m to) < stash_cap)
        × (read_stash json m2 from ≡ remove_at i (read_stash json m from))
        × (read_stash json m2 to ≡ read_stash json m to ++ it ∷ [])
        × ((q : Text)
            → text_eq from q ≡ false
            → text_eq to q ≡ false
            → read_stash json m2 q ≡ read_stash json m q)
  give_item-moves num it n h =
      let (i, parsed, stands, room, store) = give_item_inv num it h in
      (
        i,
        parsed,
        stands,
        room,
        rw store (
            ground (
              arith,
              read_stash-hand_over i it from,
              text_eq_refl from,
              text_eq_iff from to,
              text_eq_iff to from,
            )),
        rw store (ground (arith, read_stash-hand_over i it to, text_eq_refl to)),
        λ q f t. rw store (ground (arith, read_stash-hand_over i it q)),
      )

  give_item_cap :
      (num : Option Text) (q : Text)
      → length (read_stash json m q) ≤ stash_cap
      → length (read_stash json (give_item json m from to num).0 q) ≤ stash_cap
  unfolding give_item
  give_item_cap none q h = ground arith
  give_item_cap (some num) q h =
      elim (Option-cases (pick (read_stash json m from) (parse_int num))) [
        | inl e ↦ ground (arith, e)
        | inr ((i, it), e) ↦ ground (
          arith,
          e,
          pick_inv (read_stash json m from) (parse_int num) i it,
          get_elem?-bound (read_stash json m from) i it,
          read_stash-hand_over i it q,
          length-remove_at i (read_stash json m from),
          length-append (read_stash json m to) (it ∷ []),
          text_eq_iff to q,
          text_eq_iff from q,
        )
      ]

-- Neither banking, nor equipping, nor a gift of an item makes a stash of 12 items or fewer larger
-- than 12.
pub stash_commands-keep_cap :
    (json : Codec) (m : MemStore) (p to q : Text) (arg : Option Text)
    → length (read_stash json m q) ≤ stash_cap
    → (length (read_stash json (stash json m p arg).0 q) ≤ stash_cap)
      × (length (read_stash json (equip json m p arg).0 q) ≤ stash_cap)
      × (length (read_stash json (give_item json m p to arg).0 q) ≤ stash_cap)
stash_commands-keep_cap json m p to q arg h =
    (stash_cap_lem json m p q arg h, equip_cap json m p q arg h, give_item_cap json m p to arg q h)

item_word : equal_fold (codes "item") (codes "item") ≡ true
unfolding equal_fold to_lower lower_byte text_eq
item_word = refl

give_item_of_give :
    (json : Codec) (m : MemStore) (msg : Sender) (target num : Text) (it : StashItem)
    → (give json m msg (target ∷ (codes "item" ∷ (num ∷ [])))).1 ≡ gave_item it
    → let from = resolve m msg.network msg.account msg.nick in
      let to = resolve m msg.network [] target in
      ((give json m msg (target ∷ (codes "item" ∷ (num ∷ [])))).0
        ≡ (give_item json m from to (some num)).0)
      × ((give_item json m from to (some num)).1 ≡ gave_item it)
unfolding give
give_item_of_give json m msg target num it h = ground (arith, item_word)

-- A player who gives an item, in a gift that the bot announces, to a second nick of the same
-- account keeps it and gets a copy: the stash grows by the item.
pub give-duplicates :
    (json : Codec) (m : MemStore) (msg : Sender) (target num : Text) (it : StashItem)
    → resolve m msg.network [] target ≡ resolve m msg.network msg.account msg.nick
    → (give json m msg (target ∷ (codes "item" ∷ (num ∷ [])))).1 ≡ gave_item it
    → let me = resolve m msg.network msg.account msg.nick in
      read_stash json (give json m msg (target ∷ (codes "item" ∷ (num ∷ [])))).0 me
      ≡ read_stash json m me ++ it ∷ []
give-duplicates json m msg target num it same h =
    let me = resolve m msg.network msg.account msg.nick in
    let to = resolve m msg.network [] target in
    let ran = give_item_of_give json m msg target num it h in
    let (i, parsed, stands, room, store) = give_item_inv json m me to num it ran.1 in
    rw (ran.0, store)
      (ground (arith, same, read_stash-hand_over json m me to i it me, text_eq_refl me))
