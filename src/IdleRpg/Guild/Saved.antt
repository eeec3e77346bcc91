-- ===== src/IdleRpg/Guild/Saved.antt =====
-- saveGuilds and loadGuilds of internal/idlerpg/guild.go, under every guild command.
use annoybots.Base.{
  ◌≡◌, inl, inr, [], Option, none, some, Text, arith, insert, text_eq_refl, fields, join_space,
  Option-cases, parse_int,
}
use annoybots.Base.Int.{ℤ, pos, neg}
use annoybots.State.{MemStore, h_incr}
use annoybots.State.Fields.{get_str-set_str, get_str-h_incr}
use annoybots.IdleRpg.{sheet_key, guilds_key}
use annoybots.IdleRpg.Guild.{
  Book, BookCodec, Realm, guild_of, on_guild_of, on_slug, drop_member, found, enlist, pay_in,
  save_guilds, load_guilds, drop_from_guild, guild_create, guild_join, guild_leave, guild_deposit,
  guild_slug, purse, found_cost,
}
use annoybots.IdleRpg.Guild.Perks.{
  perk_by_name, perk_cost, perk_of, level_sum, raid_hp, buy, start_raid, perk_cmd, call_raid,
}

-- The book that a bot reads from the store when it starts.
unfoldable pub at_start : BookCodec → MemStore → Book
at_start json m = (load_guilds json (record { store = m; book = [] })).book

abbrev pub IsSaved : BookCodec → Realm → Type 0
IsSaved json r = at_start json r.store ≡ r.book

save_guilds-IsSaved : (json : BookCodec) (r : Realm) → IsSaved json (save_guilds json r)
unfolding at_start save_guilds load_guilds
save_guilds-IsSaved json r = ground (
  arith,
  text_eq_refl guilds_key,
  get_str-set_str r.store guilds_key guilds_key (json.encode r.book),
  json.encode-ne-nil r.book,
  json.decode-encode r.book,
)

at_start-h_incr :
    (json : BookCodec) (m : MemStore) (key f : Text) (d : ℤ)
    → at_start json (h_incr m key f d).0 ≡ at_start json m
unfolding at_start load_guilds
at_start-h_incr json m key f d = ground (arith, get_str-h_incr m key guilds_key f d)

module _ (json : BookCodec) (r : Realm) (k : Text) (v : IsSaved json r) where
  by_create : (raw : Text) → IsSaved json (guild_create json r k raw).0
  unfolding guild_create
  by_create raw =
      let name = join_space (fields raw) in
      let saved = record r { book = insert (guild_slug name) (found name k) r.book } in
      ground (
        arith,
        v,
        save_guilds-IsSaved json saved,
        at_start-h_incr json (save_guilds json saved).store (sheet_key k) purse
            (neg (pos found_cost)),
      )

  by_join : (name : Text) → IsSaved json (guild_join json r k name).0
  unfolding guild_join
  by_join name = ground (
    arith,
    v,
    save_guilds-IsSaved json (record r { book = on_slug r.book (guild_slug name) (enlist k) }),
  )

  by_leave : IsSaved json (guild_leave json r k).0
  unfolding guild_leave drop_from_guild
  by_leave = ground (arith, v, save_guilds-IsSaved json (record r { book = drop_member k r.book }))

  by_deposit : (arg : Option Text) → IsSaved json (guild_deposit json r k arg).0
  unfolding guild_deposit
  by_deposit none = ground (arith, v)
  by_deposit (some num) = elim (Option-cases (parse_int num)) [
    | inl e ↦ ground (arith, v, e)
    | inr (amt, e) ↦ ground (
      arith,
      v,
      e,
      save_guilds-IsSaved json (record {
        store = (h_incr r.store (sheet_key k) purse (neg amt)).0;
        book = on_guild_of r.book k (pay_in amt);
      }),
    )
  ]

  by_perk : (arg : Option Text) → IsSaved json (perk_cmd json r k arg).0
  unfolding perk_cmd
  by_perk none = ground (arith, v)
  by_perk (some name) = elim (Option-cases (perk_by_name name)) [
    | inl e ↦ ground (arith, v, e)
    | inr (p, e) ↦ elim (Option-cases (guild_of r.book k)) [
      | inl f ↦ ground (arith, v, f)
      | inr (g, f) ↦ ground (
        arith,
        v,
        e,
        f,
        save_guilds-IsSaved json
            (record r { book = on_guild_of r.book k (buy p (perk_cost p (perk_of g p.name))) }),
      )
    ]
  ]

  by_raid : (foe : Text) (now : ℤ) → IsSaved json (call_raid json r k foe now).0
  unfolding call_raid
  by_raid foe now = elim (Option-cases (guild_of r.book k)) [
    | inl f ↦ ground (arith, v, f)
    | inr (g, f) ↦ ground (
      arith,
      v,
      f,
      save_guilds-IsSaved json (record r {
        book = on_guild_of r.book k (start_raid foe (raid_hp (level_sum r.store g.members)) now);
      }),
    )
  ]

-- After each guild command a bot that starts on the store reads exactly the guild book in memory, if
-- it did so before the command.
pub guild_commands-IsSaved :
    (json : BookCodec) (r : Realm) (k name foe : Text) (arg : Option Text) (now : ℤ)
    → IsSaved json r
    → IsSaved json (guild_create json r k name).0
      × IsSaved json (guild_join json r k name).0
      × IsSaved json (guild_leave json r k).0
      × IsSaved json (guild_deposit json r k arg).0
      × IsSaved json (perk_cmd json r k arg).0
      × IsSaved json (call_raid json r k foe now).0
guild_commands-IsSaved json r k name foe arg now v = (
  by_create json r k v name,
  by_join json r k v name,
  by_leave json r k v,
  by_deposit json r k v arg,
  by_perk json r k v arg,
  by_raid json r k v foe now,
)
