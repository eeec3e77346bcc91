-- ===== src/Account/Tests.antt =====
-- Runs of the account commands, and their theorems at concrete inputs.
use annoybots.Base.{
  Bool, true, ◌||◌, ◌≡◌, refl, [], ◌∷◌, some, Text, codes, text_eq, lookup, insert, if◌then◌else◌,
  to_lower, lower_byte, trim_space, trim_left, is_space,
}
use annoybots.Base.Int.{pos}
use annoybots.State.{MemStore, new_mem, get_str, set_str, h_set}
use annoybots.State.Fields.{field}
use annoybots.Account.{
  Message, registered, identity, id_of, link_key, pw_key, mem_key, norm_name, name_bytes, name_byte,
  join, register, link, unlink,
}
use annoybots.Account.Linking.{
  account_of, plays_as, register_then_link, IsListed, join-IsListed, pw-IsListed, commands-IsListed,
  link_keeps_old,
}

abbrev on_irc : Message
on_irc = record {
  network = codes "libera";
  account = [];
  nick = codes "Zed";
  text = codes "!register zed pw";
  private = true;
}

abbrev on_discord : Message
on_discord = record {
  network = codes "discord";
  account = codes "77";
  nick = codes "zed";
  text = codes "!link zed pw";
  private = true;
}

-- A hash that is the password with a mark before it.
abbrev marked : Text → Text → Bool
marked hash password = text_eq hash (b'$' ∷ password)

register_run :
    (register new_mem on_irc (codes "Zed") (codes "pw") (some (codes "$pw"))).1
    ≡ registered (codes "zed")
unfolding register norm_name trim_space trim_left is_space to_lower lower_byte name_bytes name_byte
    text_eq new_mem get_str lookup identity link_key pw_key
register_run = refl

register_then_link_example :
    plays_as
      (link marked
        (register new_mem on_irc (codes "Zed") (codes "pw") (some (codes "$pw"))).0
        on_discord
        (codes "Zed")
        (codes "pw")).0
      (codes "discord|77")
    ≡ (if text_eq (id_of on_discord) (codes "discord|77")
          || text_eq (id_of on_irc) (codes "discord|77")
        then norm_name (codes "Zed")
        else plays_as new_mem (codes "discord|77"))
unfolding text_eq
register_then_link_example =
    register_then_link marked new_mem on_irc on_discord (codes "Zed") (codes "pw") (codes "$pw")
      (codes "zed") (codes "discord|77") register_run (λ e. cc) refl

abbrev old_account : MemStore
old_account =
    set_str (join new_mem (codes "discord|77") (codes "amy")) (pw_key (codes "zed")) (codes "$pw")

new_mem-IsListed : IsListed new_mem
unfolding new_mem get_str lookup
new_mem-IsListed j n = absurd (n refl)

commands-IsListed_example :
    IsListed (register new_mem on_irc (codes "zed") (codes "pw") (some (codes "$pw"))).0
    × IsListed (link marked new_mem on_irc (codes "zed") (codes "pw")).0
    × IsListed (unlink new_mem on_irc).0
commands-IsListed_example =
    commands-IsListed marked new_mem on_irc (codes "zed") (codes "pw") (some (codes "$pw"))
      new_mem-IsListed

old_account-IsListed : IsListed old_account
old_account-IsListed =
    pw-IsListed _ (codes "zed") (codes "$pw")
      (join-IsListed new_mem (codes "discord|77") (codes "amy") new_mem-IsListed)

link_keeps_old_example :
    (account_of (link marked old_account on_discord (codes "zed") (codes "pw")).0 (id_of on_discord)
      ≡ norm_name (codes "zed"))
    × (field
          (link marked old_account on_discord (codes "zed") (codes "pw")).0
          (mem_key (codes "amy"))
          (id_of on_discord)
        ≡ pos 1)
unfolding link new_mem join set_str h_set insert get_str lookup link_key pw_key text_eq identity
    to_lower lower_byte norm_name trim_space trim_left is_space name_bytes name_byte
link_keeps_old_example =
    link_keeps_old marked old_account on_discord (codes "zed") (codes "pw") (codes "zed")
      (codes "amy") old_account-IsListed refl (λ e. cc) (λ e. cc) refl
