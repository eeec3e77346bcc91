-- ===== src/IdleRpg/Guild/Fair.antt =====
-- Memberships in the guild book of internal/idlerpg/guild.go, under every guild command.
use annoybots.Base.{
  ◌≤◌, ◌<◌, false, ◌≡◌, sym, subst, refl, ◌⊎◌, inl, inr, Option, none, some, Text, arith, lookup,
  insert, has as is_some, text_eq_iff, length, fields, join_space, Option-cases, parse_int,
}
use annoybots.Base.Int.{ℤ}
use annoybots.IdleRpg.Guild.{
  Guild, Book, BookCodec, Realm, guild_of, on_guild_of, on_slug, drop_member, found, enlist, pay_in,
  max_size, save_guilds, drop_from_guild, guild_create, guild_join, guild_leave, guild_deposit,
  guild_slug,
}
use annoybots.IdleRpg.Guild.Seats.{
  seats, IsSound, AllSound, guild_of-seats, seats-on_guild_of, seats-enlist, seats-found,
  seats-drop_member, AllSound-on_guild_of, AllSound-enlist, AllSound-found, AllSound-drop_member,
}
use annoybots.IdleRpg.Guild.Perks.{
  PerkDef, perk_by_name, perk_cost, perk_of, level_sum, raid_hp, buy, start_raid, perk_cmd,
  call_raid,
}

-- One seat for each player, and every guild sound.
pub record IsFair (b : Book) : Type 0 where
  pub one_seat : (k : Text) → seats k b ≤ 1
  pub sound : AllSound b

pub on_guild_of-IsFair :
    (b : Book) (k : Text) (f : Guild → Guild)
    → ((g : Guild) → (f g).members ≡ g.members)
    → ((g : Guild) → IsSound g → IsSound (f g))
    → IsFair b
    → IsFair (on_guild_of b k f)
on_guild_of-IsFair b k f same keeps v = record {
  one_seat = λ j. ground (arith, v.one_seat j, seats-on_guild_of b k j f same);
  sound = AllSound-on_guild_of b k f keeps v.sound;
}

drop_member-IsFair : (b : Book) (k : Text) → IsFair b → IsFair (drop_member k b)
drop_member-IsFair b k v = record {
  one_seat = λ j. ground (arith, v.one_seat j, seats-drop_member b k j);
  sound = AllSound-drop_member b k v.sound;
}

enlist-IsFair :
    (b : Book) (s k : Text) (g : Guild)
    → lookup s b ≡ some g
    → length g.members < max_size
    → is_some (guild_of b k) ≡ false
    → IsFair b
    → IsFair (on_slug b s (enlist k))
enlist-IsFair b s k g e room free v = record {
  one_seat = λ j.
      ground
        (arith, v.one_seat j, seats-enlist b s k j g e, free, guild_of-seats b k, text_eq_iff k j);
  sound = AllSound-enlist b s k g e room v.sound;
}

found-IsFair :
    (b : Book) (s k name : Text)
    → lookup s b ≡ none
    → is_some (guild_of b k) ≡ false
    → IsFair b
    → IsFair (insert s (found name k) b)
found-IsFair b s k name new free v = record {
  one_seat = λ j. ground (
    arith,
    v.one_seat j,
    seats-found b s k j name new,
    free,
    guild_of-seats b k,
    text_eq_iff k j,
  );
  sound = AllSound-found b s k name v.sound;
}

-- The perk that an argument names.
abbrev perk_named : Option Text → Option PerkDef
perk_named none = none
perk_named (some name) = perk_by_name name

module _ (json : BookCodec) (r : Realm) (k : Text) where
  book-create :
      (raw : Text)
      → let name = join_space (fields raw) in
        ((guild_create json r k raw).0.book ≡ r.book)
        ⊎ ((lookup (guild_slug name) r.book ≡ none)
            × (is_some (guild_of r.book k) ≡ false)
            × ((guild_create json r k raw).0.book ≡ insert (guild_slug name) (found name k) r.book))
  unfolding guild_create save_guilds
  book-create raw = ground arith

  book-join_at :
      (name : Text) (g : Guild)
      → lookup (guild_slug name) r.book ≡ some g
      → ((guild_join json r k name).0.book ≡ r.book)
        ⊎ ((length g.members < max_size)
            × (is_some (guild_of r.book k) ≡ false)
            × ((guild_join json r k name).0.book ≡ on_slug r.book (guild_slug name) (enlist k)))
  unfolding guild_join save_guilds
  book-join_at name g e = ground (arith, e)

  book-join_nowhere :
      (name : Text)
      → lookup (guild_slug name) r.book ≡ none
      → (guild_join json r k name).0.book ≡ r.book
  unfolding guild_join
  book-join_nowhere name e = ground (arith, e)

  book-leave :
      ((guild_leave json r k).0.book ≡ r.book)
      ⊎ ((guild_leave json r k).0.book ≡ drop_member k r.book)
  unfolding guild_leave drop_from_guild save_guilds
  book-leave = ground arith

  book-deposit_of :
      (num : Text) (amt : ℤ)
      → parse_int num ≡ some amt
      → ((guild_deposit json r k (some num)).0.book ≡ r.book)
        ⊎ ((guild_deposit json r k (some num)).0.book ≡ on_guild_of r.book k (pay_in amt))
  unfolding guild_deposit save_guilds
  book-deposit_of num amt e = ground (arith, e)

  book-deposit_none :
      (num : Text) → parse_int num ≡ none → (guild_deposit json r k (some num)).0.book ≡ r.book
  unfolding guild_deposit
  book-deposit_none num e = ground (arith, e)

  book-deposit_bare : (guild_deposit json r k none).0.book ≡ r.book
  unfolding guild_deposit
  book-deposit_bare = ground arith

  book-perk_at :
      (name : Text) (p : PerkDef)
      → perk_by_name name ≡ some p
      → (g : Guild) → guild_of r.book k ≡ some g
      → let cost = perk_cost p (perk_of g p.name) in
        ((perk_cmd json r k (some name)).0.book ≡ r.book)
        ⊎ ((perk_cmd json r k (some name)).0.book ≡ on_guild_of r.book k (buy p cost))
  unfolding perk_cmd save_guilds
  book-perk_at name p e g f = ground (arith, e, f)

  book-perk_same :
      (arg : Option Text)
      → (guild_of r.book k ≡ none) ⊎ (perk_named arg ≡ none)
      → (perk_cmd json r k arg).0.book ≡ r.book
  unfolding perk_cmd
  book-perk_same none h = ground arith
  book-perk_same (some name) h = ground arith

  book-raid_at :
      (foe : Text) (now : ℤ) (g : Guild)
      → guild_of r.book k ≡ some g
      → ((call_raid json r k foe now).0.book ≡ r.book)
        ⊎ ((call_raid json r k foe now).0.book
            ≡ on_guild_of r.book k (start_raid foe (raid_hp (level_sum r.store g.members)) now))
  unfolding call_raid save_guilds
  book-raid_at foe now g f = ground (arith, f)

  book-raid_none :
      (foe : Text) (now : ℤ)
      → guild_of r.book k ≡ none
      → (call_raid json r k foe now).0.book ≡ r.book
  unfolding call_raid
  book-raid_none foe now f = ground (arith, f)

-- Founding, joining, leaving, paying in, buying a perk and calling a raid keep each player in one
-- guild at most, each guild's founder among its members, and each guild at twelve members or
-- fewer, if that held before.
pub guild_commands-IsFair :
    (json : BookCodec) (r : Realm) (k name foe : Text) (arg : Option Text) (now : ℤ)
    → IsFair r.book
    → IsFair (guild_create json r k name).0.book
      × IsFair (guild_join json r k name).0.book
      × IsFair (guild_leave json r k).0.book
      × IsFair (guild_deposit json r k arg).0.book
      × IsFair (perk_cmd json r k arg).0.book
      × IsFair (call_raid json r k foe now).0.book
guild_commands-IsFair json r k name foe arg now v =
    (by_create, by_join, by_leave, by_deposit arg, by_perk arg, by_raid)
  where
    by_create : IsFair (guild_create json r k name).0.book
    by_create = elim (book-create json r k name) [
      | inl e ↦ subst IsFair (sym e) v
      | inr (new, free, e) ↦ subst IsFair (sym e) (found-IsFair r.book _ k _ new free v)
    ]

    by_join : IsFair (guild_join json r k name).0.book
    by_join = elim (Option-cases (lookup (guild_slug name) r.book)) [
      | inl e ↦ subst IsFair (sym (book-join_nowhere json r k name e)) v
      | inr (g, e) ↦ elim (book-join_at json r k name g e) [
        | inl same ↦ subst IsFair (sym same) v
        | inr (room, free, same) ↦
            subst IsFair (sym same) (enlist-IsFair r.book (guild_slug name) k g e room free v)
      ]
    ]

    by_leave : IsFair (guild_leave json r k).0.book
    by_leave = elim (book-leave json r k) [
      | inl e ↦ subst IsFair (sym e) v
      | inr e ↦ subst IsFair (sym e) (drop_member-IsFair r.book k v)
    ]

    by_deposit : (a : Option Text) → IsFair (guild_deposit json r k a).0.book
    by_deposit none = subst IsFair (sym (book-deposit_bare json r k)) v
    by_deposit (some num) = elim (Option-cases (parse_int num)) [
      | inl e ↦ subst IsFair (sym (book-deposit_none json r k num e)) v
      | inr (amt, e) ↦ elim (book-deposit_of json r k num amt e) [
        | inl same ↦ subst IsFair (sym same) v
        | inr same ↦
            subst IsFair (sym same)
              (on_guild_of-IsFair r.book k (pay_in amt) (λ g. refl) (λ g s. s) v)
      ]
    ]

    by_perk : (a : Option Text) → IsFair (perk_cmd json r k a).0.book
    by_perk none = subst IsFair (sym (book-perk_same json r k none (inr refl))) v
    by_perk (some perk) = elim (Option-cases (perk_by_name perk)) [
      | inl e ↦ subst IsFair (sym (book-perk_same json r k (some perk) (inr e))) v
      | inr (p, e) ↦ elim (Option-cases (guild_of r.book k)) [
        | inl f ↦ subst IsFair (sym (book-perk_same json r k (some perk) (inl f))) v
        | inr (g, f) ↦ elim (book-perk_at json r k perk p e g f) [
          | inl same ↦ subst IsFair (sym same) v
          | inr same ↦ subst IsFair (sym same) (
              on_guild_of-IsFair r.book k (buy p (perk_cost p (perk_of g p.name))) (λ h. refl)
                (λ h s. s) v)
        ]
      ]
    ]

    by_raid : IsFair (call_raid json r k foe now).0.book
    by_raid = elim (Option-cases (guild_of r.book k)) [
      | inl f ↦ subst IsFair (sym (book-raid_none json r k foe now f)) v
      | inr (g, f) ↦ elim (book-raid_at json r k foe now g f) [
        | inl same ↦ subst IsFair (sym same) v
        | inr same ↦ subst IsFair (sym same) (
            on_guild_of-IsFair r.book k (start_raid foe (raid_hp (level_sum r.store g.members)) now)
              (λ h. refl) (λ h s. s) v)
      ]
    ]
