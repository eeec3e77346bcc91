-- ===== src/IdleRpg/Guild.antt =====
-- internal/idlerpg/guild.go: guilds, their members and their vaults. The guild book in memory is an
-- association list from slugs, in the order in which a loop over it meets the guilds; a pointer to
-- a guild is the entry that the search found. encoding/json is the parameter `json`.
use annoybots.Base.{
  ℕ, zero, suc, ◌+◌, ◌-◌, ◌*◌, Bool, true, false, ◌||◌, not, ◌≡◌, [], ◌∷◌, ◌++◌, List, Option, none,
  some, Text, Map, codes, lookup, insert, or_zero, has as is_some, text_eq, to_lower, fields,
  join_space, parse_int, length, keep, leb, ltb, if◌then◌else◌,
}
use annoybots.Base.Int.{ℤ, pos, neg, leb_ℤ, ltb_ℤ, add64}
use annoybots.State.{MemStore, h_incr, get_str, set_str}
use annoybots.IdleRpg.{sheet_key, guilds_key, no_sheet, is_nil}
use annoybots.IdleRpg.Sheet.{stat}
pub mod Seats
pub mod Fair
pub mod Vault
pub mod Paid
pub mod Saved
pub mod Samples
mod Tests
pub mod Perks
pub mod Command
pub mod Dispatch

abbrev pub found_cost : ℕ
found_cost = 500

abbrev pub name_max : ℕ
name_max = 24

abbrev pub bonus_per : ℕ
bonus_per = 3

abbrev pub bonus_cap : ℕ
bonus_cap = 15

abbrev pub max_size : ℕ
max_size = 12

abbrev pub raid_cost : ℤ
raid_cost = pos 1000

abbrev pub raid_duration : ℤ
raid_duration = pos 900

pub record GuildRaid : Type 0 where
  pub foe : Text
  pub hp : ℤ
  pub max_hp : ℤ
  pub deadline : ℤ
  pub damage : Map ℤ
  pub last_pct : ℤ

pub record Guild : Type 0 where
  pub name : Text
  pub founder : Text
  pub members : List Text
  pub vault : ℤ
  pub perks : Map ℤ
  pub raid : Option GuildRaid

abbrev pub Book : Type 0
Book = Map Guild

pub record BookCodec : Type 0 where
  pub encode : Book → Text
  pub decode : Text → Option Book
  pub decode-encode : (b : Book) → decode (encode b) ≡ some b
  pub encode-ne-nil : (b : Book) → text_eq (encode b) [] ≡ false

-- The store and the guild book in memory.
pub record Realm : Type 0 where
  pub store : MemStore
  pub book : Book

unfoldable pub guild_slug : Text → Text
guild_slug name = to_lower (join_space (fields name))

unfoldable pub is_member : List Text → Text → Bool
is_member [] k = false
is_member (member ∷ rest) k = text_eq member k || is_member rest k

unfoldable pub guild_of : Book → Text → Option Guild
guild_of [] k = none
guild_of ((slug, g) ∷ b) k = if is_member g.members k then some g else guild_of b k

-- A change of the guild that `guild_of` finds, through its pointer.
unfoldable pub on_guild_of : Book → Text → (Guild → Guild) → Book
on_guild_of [] k f = []
on_guild_of ((slug, g) ∷ b) k f =
    if is_member g.members k then (slug, f g) ∷ b else (slug, g) ∷ on_guild_of b k f

-- A change of the guild under a slug, through its pointer.
unfoldable pub on_slug : Book → Text → (Guild → Guild) → Book
on_slug [] s f = []
on_slug ((slug, g) ∷ b) s f = if text_eq slug s then (slug, f g) ∷ b else (slug, g) ∷ on_slug b s f

-- How many of the roster's entries are members.
unfoldable pub together : List Text → List Text → ℕ
together members [] = 0
together members (k ∷ roster) =
    if is_member members k then suc (together members roster) else together members roster

-- `guildPct`, with the keys of the players online.
unfoldable pub guild_pct : Book → Text → List Text → ℕ
guild_pct b k roster = elim (guild_of b k) [
  | none ↦ 100
  | some g ↦
      let n = together g.members roster in
      if leb n 1
      then 100
      else if ltb bonus_cap ((n - 1) * bonus_per)
      then 100 + bonus_cap
      else 100 + (n - 1) * bonus_per
]

-- One guild without a player: nothing if nobody is left, and the mantle passes on.
unfoldable pub without_member : Text → Guild → Option Guild
without_member k g = elim (keep (λ member. not (text_eq member k)) g.members) [
  | [] ↦ none
  | (first ∷ rest) ↦ some (record g {
    members = first ∷ rest;
    founder = if text_eq g.founder k then first else g.founder;
  })
]

unfoldable pub drop_member : Text → Book → Book
drop_member k [] = []
drop_member k ((slug, g) ∷ b) = elim (without_member k g) [
  | none ↦ drop_member k b
  | some h ↦ (slug, h) ∷ drop_member k b
]

unfoldable pub found : Text → Text → Guild
found name k = record {
  name = name;
  founder = k;
  members = k ∷ [];
  vault = pos 0;
  perks = [];
  raid = none;
}

abbrev pub enlist : Text → Guild → Guild
enlist k g = record g { members = g.members ++ k ∷ [] }

abbrev pub pay_in : ℤ → Guild → Guild
pay_in amt g = record g { vault = add64 g.vault amt }

pub data GuildReply : Type 0 where
  no_name name_too_long already_in name_taken no_such_guild no_guild deposit_usage bad_deposit :
      GuildReply
  guild_full : Text → GuildReply
  costs_more : ℤ → GuildReply
  founded joined left : Text → GuildReply
  deposited : ℤ → GuildReply

abbrev pub purse : Text
purse = codes "gold"

module _ (json : BookCodec) where
  unfoldable pub load_guilds : Realm → Realm
  load_guilds r =
      let blob = get_str r.store guilds_key in
      if text_eq blob []
      then r
      else elim (json.decode blob) [ none ↦ r | some b ↦ record r { book = b } ]

  unfoldable pub save_guilds : Realm → Realm
  save_guilds r = record r { store = set_str r.store guilds_key (json.encode r.book) }

  unfoldable pub drop_from_guild : Realm → Text → Realm
  drop_from_guild r k = save_guilds (record r { book = drop_member k r.book })

  unfoldable pub guild_create : Realm → Text → Text → Realm × GuildReply
  guild_create r k raw =
      let name = join_space (fields raw) in
      let slug = guild_slug name in
      if text_eq name []
      then (r, no_name)
      else if ltb name_max (length name)
      then (r, name_too_long)
      else if is_some (guild_of r.book k)
      then (r, already_in)
      else if ltb_ℤ (stat r.store k purse) (pos found_cost)
      then (r, costs_more (stat r.store k purse))
      else if is_some (lookup slug r.book)
      then (r, name_taken)
      else (let saved = save_guilds (record r { book = insert slug (found name k) r.book }) in
          (
            record saved {
              store = (h_incr saved.store (sheet_key k) purse (neg (pos found_cost))).0;
            },
            founded name,
          ))

  unfoldable pub guild_join : Realm → Text → Text → Realm × GuildReply
  guild_join r k name =
      if text_eq name []
      then (r, no_name)
      else if is_some (guild_of r.book k)
      then (r, already_in)
      else elim (lookup (guild_slug name) r.book) [
        | none ↦ (r, no_such_guild)
        | some g ↦ if leb max_size (length g.members) then (r, guild_full g.name) else (
          save_guilds (record r { book = on_slug r.book (guild_slug name) (enlist k) }),
          joined g.name,
        )
      ]

  unfoldable pub guild_leave : Realm → Text → Realm × GuildReply
  guild_leave r k = elim (guild_of r.book k) [
    | none ↦ (r, no_guild)
    | some g ↦ (drop_from_guild r k, left g.name)
  ]

  -- `guildDeposit`, with `fields[3]` where there is one.
  unfoldable pub guild_deposit : Realm → Text → Option Text → Realm × GuildReply
  guild_deposit r k arg = elim (guild_of r.book k) [
    | none ↦ (r, no_guild)
    | some g ↦ elim arg [
      | none ↦ (r, deposit_usage)
      | some num ↦ elim (parse_int num) [
        | none ↦ (r, bad_deposit)
        | some amt ↦
            if leb_ℤ amt (pos 0)
            then (r, bad_deposit)
            else if ltb_ℤ (stat r.store k purse) amt
            then (r, costs_more (stat r.store k purse))
            else (
              save_guilds (record {
                store = (h_incr r.store (sheet_key k) purse (neg amt)).0;
                book = on_guild_of r.book k (pay_in amt);
              }),
              deposited (add64 g.vault amt),
            )
      ]
    ]
  ]
