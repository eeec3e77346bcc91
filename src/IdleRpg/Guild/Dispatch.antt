-- ===== src/IdleRpg/Guild/Dispatch.antt =====
-- guildCmd of internal/idlerpg/guild.go over the memberships in the guild book.
use annoybots.Base.{
  codes, ◌||◌, subst, inl, inr, [], ◌∷◌, List, Text, arith, text_eq, to_lower, join_space,
  Bool-cases,
}
use annoybots.Base.Int.{ℤ}
use annoybots.IdleRpg.{no_sheet}
use annoybots.IdleRpg.Guild.{BookCodec, Realm, guild_create}
use annoybots.IdleRpg.Guild.Command.{create_with_feat, run_verb, guild_cmd, next_word}
use annoybots.IdleRpg.Guild.Fair.{IsFair, guild_commands-IsFair}

create_with_feat-IsFair :
    (json : BookCodec) (r : Realm) (k name : Text)
    → IsFair (guild_create json r k name).0.book
    → IsFair (create_with_feat json r k name).0.book
unfolding create_with_feat
create_with_feat-IsFair json r k name v = subst IsFair (ground arith) v

run_verb-IsFair :
    (json : BookCodec) (r : Realm) (k foe : Text) (now : ℤ) (verb : Text) (rest : List Text)
    → IsFair r.book
    → IsFair (run_verb json r k foe now verb rest).0.book
unfolding run_verb
run_verb-IsFair json r k foe now verb rest v =
    let (a, b, c, d, e, f) =
      guild_commands-IsFair json r k (join_space rest) foe (next_word rest) now v in
    elim (Bool-cases (text_eq verb (codes "create") || text_eq verb (codes "found"))) [
      | inl h1 ↦ rw h1 (create_with_feat-IsFair json r k (join_space rest) a)
      | inr h1 ↦ elim (Bool-cases (text_eq verb (codes "join"))) [
        | inl h2 ↦ rw (h1, h2) b
        | inr h2 ↦ elim (Bool-cases (text_eq verb (codes "leave"))) [
          | inl h3 ↦ rw (h1, h2, h3) c
          | inr h3 ↦
              elim (Bool-cases (text_eq verb (codes "deposit") || text_eq verb (codes "donate"))) [
                | inl h4 ↦ rw (h1, h2, h3, h4) d
                | inr h4 ↦ elim (Bool-cases (text_eq verb (codes "raid"))) [
                  | inl h5 ↦ rw (h1, h2, h3, h4, h5) f
                  | inr h5 ↦
                      elim (Bool-cases
                        (text_eq verb (codes "perk") || text_eq verb (codes "perks"))) [
                          | inl h6 ↦ rw (h1, h2, h3, h4, h5, h6) e
                          | inr h6 ↦ rw (h1, h2, h3, h4, h5, h6) v
                        ]
                ]
              ]
        ]
      ]
    ]

-- Every `!rpg guild` command, whatever its words, keeps each player in one guild at most, each
-- guild's founder among its members, and each guild at twelve members or fewer, if that held before.
pub guild_cmd-IsFair :
    (json : BookCodec) (r : Realm) (k foe : Text) (now : ℤ) (words : List Text)
    → IsFair r.book
    → IsFair (guild_cmd json r k foe now words).0.book
unfolding guild_cmd
guild_cmd-IsFair json r k foe now [] v = elim (Bool-cases (no_sheet r.store k)) [
  | inl e ↦ rw e v
  | inr e ↦ rw e v
]
guild_cmd-IsFair json r k foe now (verb ∷ rest) v = elim (Bool-cases (no_sheet r.store k)) [
  | inl e ↦ rw e v
  | inr e ↦ rw e (run_verb-IsFair json r k foe now (to_lower verb) rest v)
]
