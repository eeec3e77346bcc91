-- ===== src/IdleRpg/Guild/Vault.antt =====
-- guildJoin, guildLeave, guildDeposit and guildPct of internal/idlerpg/guild.go.
use annoybots.Base.{
  ◌≤◌, false, ◌||◌, ◌≡◌, ap, ◌∙◌, refl, inl, inr, [], ◌∷◌, List, none, some, Text, arith, lookup,
  insert, has as is_some, text_eq, text_eq_iff, text_eq_refl, fields, join_space, if◌then◌else◌,
  Option-cases, Bool-cases, parse_int,
}
use annoybots.Base.Int.{ℤ, pos, neg, leb_ℤ, ltb_ℤ, add64, add64_of_range, IsInt64, ◌+ℤ◌, ◌≤ℤ◌}
use annoybots.State.{h_incr}
use annoybots.IdleRpg.{sheet_key, guilds_key}
use annoybots.IdleRpg.Sheet.{stat, stat-h_incr, stat-set_str}
use annoybots.IdleRpg.Trade.Gold.{sum_of_parts, add64-neg}
use annoybots.IdleRpg.Guild.{
  Guild, Book, BookCodec, Realm, is_member, guild_pct, guild_of, on_guild_of, on_slug, drop_member,
  found, enlist, pay_in, founded, joined, deposited, save_guilds, drop_from_guild, guild_create,
  guild_join, guild_leave, guild_deposit, guild_slug, purse,
}
use annoybots.IdleRpg.Guild.Seats.{guild_of-seats, seats-enlist, seats-found, seats-drop_member}

-- A guild gives its members a bonus of 15 percent at most, and never slows them; a player without
-- a guild gets none.
pub guild_pct-bounds :
    (b : Book) (k : Text) (roster : List Text)
    → (100 ≤ guild_pct b k roster)
      × (guild_pct b k roster ≤ 115)
      × (guild_of b k ≡ none → guild_pct b k roster ≡ 100)
unfolding guild_pct
guild_pct-bounds b k roster = elim (Option-cases (guild_of b k)) [
  | inl e ↦ ground (arith, e)
  | inr (g, e) ↦ ground (arith, e)
]

module _ (json : BookCodec) (r : Realm) (k : Text) where
  left_guild :
      (j : Text)
      → is_some (guild_of (guild_leave json r k).0.book j)
        ≡ (if text_eq k j then false else is_some (guild_of r.book j))
  unfolding guild_leave drop_from_guild save_guilds
  left_guild j = ground (
    arith,
    guild_of-seats r.book j,
    guild_of-seats (drop_member k r.book) j,
    seats-drop_member r.book k j,
    text_eq_iff k j,
  )

  joins :
      (j name g : Text)
      → (guild_join json r k name).1 ≡ joined g
      → is_some (guild_of (guild_join json r k name).0.book j)
        ≡ (text_eq k j || is_some (guild_of r.book j))
  unfolding guild_join save_guilds
  joins j name g h = elim (Option-cases (lookup (guild_slug name) r.book)) [
    | inl e ↦ ground (arith, e)
    | inr (x, e) ↦ ground (
      arith,
      e,
      guild_of-seats r.book j,
      guild_of-seats (on_slug r.book (guild_slug name) (enlist k)) j,
      seats-enlist r.book (guild_slug name) k j x e,
    )
  ]

  founds :
      (j name g : Text)
      → (guild_create json r k name).1 ≡ founded g
      → is_some (guild_of (guild_create json r k name).0.book j)
        ≡ (text_eq k j || is_some (guild_of r.book j))
  unfolding guild_create save_guilds
  founds j name g h =
      let title = join_space (fields name) in
      ground (
        arith,
        guild_of-seats r.book j,
        guild_of-seats (insert (guild_slug title) (found title k) r.book) j,
        seats-found r.book (guild_slug title) k j title,
      )

  -- After `!rpg guild leave` the player is in no guild, and every other player is in one as before.
  -- After a join or a founding that the bot announces the player is in one, the others as before.
  pub guild_of-commands :
      (j name : Text)
      → (is_some (guild_of (guild_leave json r k).0.book j)
          ≡ (if text_eq k j then false else is_some (guild_of r.book j)))
        × ((g : Text)
            → (guild_join json r k name).1 ≡ joined g
            → is_some (guild_of (guild_join json r k name).0.book j)
              ≡ (text_eq k j || is_some (guild_of r.book j)))
        × ((g : Text)
            → (guild_create json r k name).1 ≡ founded g
            → is_some (guild_of (guild_create json r k name).0.book j)
              ≡ (text_eq k j || is_some (guild_of r.book j)))
  guild_of-commands j name = (left_guild j, joins j name, founds j name)

pub guild_of-on_guild_of :
    (b : Book) (k : Text) (f : Guild → Guild) (g : Guild)
    → ((h : Guild) → (f h).members ≡ h.members)
    → guild_of b k ≡ some g
    → guild_of (on_guild_of b k f) k ≡ some (f g)
unfolding guild_of on_guild_of
guild_of-on_guild_of [] k f g same e = ground arith
guild_of-on_guild_of ((slug, h) ∷ b) k f g same e = elim (Bool-cases (is_member h.members k)) [
  | inl t ↦
      let here : h ≡ g = ground (arith, t, e) in
      rw (t, ap (λ (xs : List Text). is_member xs k) (same h) ∙ t)
        (ap (λ (x : Guild). some (f x)) here)
  | inr t ↦ rw (t, t) (guild_of-on_guild_of b k f g same (ground (arith, t, e)))
]

stat-save :
    (json : BookCodec) (r : Realm) (k f : Text)
    → stat (save_guilds json r).store k f ≡ stat r.store k f
unfolding save_guilds
stat-save json r k f = stat-set_str r.store guilds_key (json.encode r.book) k f

pub book-save : (json : BookCodec) (r : Realm) → (save_guilds json r).book ≡ r.book
unfolding save_guilds
book-save json r = refl

deposit_inv :
    (json : BookCodec) (r : Realm) (k num : Text) (amt total : ℤ) (g : Guild)
    → (guild_deposit json r k (some num)).1 ≡ deposited total
    → parse_int num ≡ some amt
    → guild_of r.book k ≡ some g
    → (leb_ℤ amt (pos 0) ≡ false)
      × (ltb_ℤ (stat r.store k purse) amt ≡ false)
      × (total ≡ add64 g.vault amt)
      × ((guild_deposit json r k (some num)).0
          ≡ save_guilds json (record {
            store = (h_incr r.store (sheet_key k) purse (neg amt)).0;
            book = on_guild_of r.book k (pay_in amt);
          }))
unfolding guild_deposit
deposit_inv json r k num amt total g h e f = ground (arith, e, f)

-- A deposit that the bot announces takes the amount out of the player's purse, which had it, and
-- puts it into the vault of the player's guild, if the purse is an int64 and the vault does not
-- overflow; the bot announces what the vault then holds.
pub deposit-keeps_gold :
    (json : BookCodec) (r : Realm) (k num : Text) (amt total : ℤ) (g : Guild)
    → (guild_deposit json r k (some num)).1 ≡ deposited total
    → parse_int num ≡ some amt
    → guild_of r.book k ≡ some g
    → IsInt64 (stat r.store k purse)
    → IsInt64 (g.vault +ℤ amt)
    → let r2 = (guild_deposit json r k (some num)).0 in
      (guild_of r2.book k ≡ some (record g { vault = total }))
      × (stat r2.store k purse +ℤ total ≡ stat r.store k purse +ℤ g.vault)
      × (pos 0 ≤ℤ stat r2.store k purse)
      × (total ≡ g.vault +ℤ amt)
deposit-keeps_gold json r k num amt total g h e f rg rv =
    let (positive, enough, sum, store) = deposit_inv json r k num amt total g h e f in
    let r1 : Realm = record {
      store = (h_incr r.store (sheet_key k) purse (neg amt)).0;
      book = on_guild_of r.book k (pay_in amt);
    } in
    let paid : stat (save_guilds json r1).store k purse ≡ add64 (stat r.store k purse) (neg amt) =
      stat-save json r1 k purse
      ∙ ground (
        arith,
        stat-h_incr r.store k k purse purse (neg amt),
        text_eq_refl k,
        text_eq_refl purse,
      ) in
    (
      rw (store, sum)
          (ap (λ (b : Book). guild_of b k) (book-save json r1)
            ∙ guild_of-on_guild_of r.book k (pay_in amt) g (λ x. refl) f),
      rw (store, sum, paid) (sum_of_parts (stat r.store k purse) g.vault amt rg rv positive enough),
      rw store (ground (arith, paid, add64-neg (stat r.store k purse) amt rg positive enough)),
      sum ∙ add64_of_range g.vault amt rv,
    )
