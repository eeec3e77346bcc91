-- ===== src/IdleRpg/Game/Gods.antt =====
-- adminVerb of internal/idlerpg/idlerpg.go, with wipeChar, wipeAll and handOfGod: what an operator may
-- do to the realm. Whether the sender is authorised is an argument, and so are the draws. The verb
-- `raid` belongs to the world boss and is left out.
use annoybots.Base.{
  ℕ, ◌+◌, Bool, true, false, not, ◌==◌, [], ◌∷◌, ◌++◌, List, Option, none, some, Text, Map, codes,
  text_eq, to_lower, equal_fold, parse_int, length, keep, if◌then◌else◌,
}
use annoybots.Base.Int.{ℤ, pos, neg, ltb_ℤ, sub64}
use annoybots.State.{MemStore, h_set, h_incr, z_incr, z_rem, z_top, del}
use annoybots.Account.{resolve}
use annoybots.IdleRpg.{
  sheet_key, stash_key, class_key, name_key, board_key, quest_key, guilds_key, item_slots, no_sheet,
}
use annoybots.IdleRpg.Sheet.{stat}
use annoybots.IdleRpg.Trade.{gold}
use annoybots.IdleRpg.Quest.{Player, ttl, pct_of_ttl}
use annoybots.IdleRpg.Rebirth.{level}
use annoybots.IdleRpg.Guild.{BookCodec, drop_from_guild}
use annoybots.IdleRpg.Hero.{race_key}
use annoybots.IdleRpg.Town.{mount_key}
use annoybots.IdleRpg.Game.{Game}

unfoldable pub pet_key : Text → Text
pet_key player = codes "rpg:pet:" ++ player

unfoldable pub dungeon_key : Text → Text
dungeon_key player = codes "rpg:dgn:" ++ player

abbrev pub boss_key : Text
boss_key = codes "rpg:wboss"

unfoldable pub del_names : MemStore → Text → List Text → MemStore
del_names m key [] = m
del_names m key (slot ∷ rest) = del_names (del m (name_key key slot)) key rest

-- The deletions that wipeChar and wipeAll have in common.
unfoldable pub wipe_keys : MemStore → Text → MemStore
wipe_keys m key =
    let m1 = del (del_names m key item_slots) (class_key key) in
    let m2 = del (del m1 (race_key key)) (stash_key key) in
    let m3 = del (del m2 (mount_key key)) (pet_key key) in
    del (del m3 (dungeon_key key)) (sheet_key key)

-- The players online whose key is another.
unfoldable pub without_key : Text → Map Player → Map Player
without_key key = keep (λ (e : Text × Player). not (text_eq e.1.key key))

unfoldable pub wipe_members : MemStore → List (Text × ℤ) → MemStore
wipe_members m [] = m
wipe_members m ((member, score) ∷ rest) = wipe_members (wipe_keys m member) rest

-- What an operator's verb is answered with.
pub data GodReply : Type 0 where
  refused paused_now resumed push_usage bad_number not_playing reset_usage reset_confirm : GodReply
  level_usage bad_level gold_usage nobody unknown_verb : GodReply
  pushed now_has : ℤ → GodReply
  wiped_all : ℕ → GodReply
  wiped touched : Text → GodReply
  now_level : ℤ → GodReply

unfoldable pub hand_of_god : MemStore → Text → ℕ → ℕ → MemStore
hand_of_god m key pct coin =
    let amt = pct_of_ttl m key (15 + pct) in
    (h_incr m (sheet_key key) ttl (if coin == 0 then neg amt else amt)).0

-- The hand falls on the named player, or on the one who was drawn.
unfoldable pub hog : Game → Option Text → Option Player → ℕ → ℕ → Game × GodReply
hog g target drawn pct coin =
    let found : Option Text = elim target [
      | some key ↦ if no_sheet g.store key then none else some key
      | none ↦ elim drawn [ none ↦ none | some p ↦ some p.key ]
    ] in
    elim found [
      | none ↦ (g, nobody)
      | some key ↦ (record g { store = hand_of_god g.store key pct coin }, touched key)
    ]

unfoldable pub push : Game → Text → Text → Game × GodReply
push g key num = elim (parse_int num) [
  | none ↦ (g, bad_number)
  | some secs ↦
      if no_sheet g.store key
      then (g, not_playing)
      else (record g { store = (h_incr g.store (sheet_key key) ttl secs).0 }, pushed secs)
]

unfoldable pub set_gold : Game → Text → Text → Game × GodReply
set_gold g key num = elim (parse_int num) [
  | none ↦ (g, bad_number)
  | some amt ↦
      if no_sheet g.store key
      then (g, not_playing)
      else (let (m, now) = h_incr g.store (sheet_key key) gold amt in
          if ltb_ℤ now (pos 0)
          then (record g { store = h_set m (sheet_key key) gold (pos 0) }, now_has (pos 0))
          else (record g { store = m }, now_has now))
]

module _ (ttl_for : ℤ → ℤ) where
  unfoldable pub write_level : MemStore → Text → ℤ → MemStore
  write_level m key lvl =
      let m1 = (z_incr m board_key key (sub64 lvl (stat m key level))).0 in
      h_set (h_set m1 (sheet_key key) level lvl) (sheet_key key) ttl (ttl_for lvl)

  unfoldable pub set_level : Game → Text → Text → Game × GodReply
  set_level g key num = elim (parse_int num) [
    | none ↦ (g, bad_level)
    | some lvl ↦
        if ltb_ℤ lvl (pos 0)
        then (g, bad_level)
        else if no_sheet g.store key
        then (g, not_playing)
        else (record g { store = write_level g.store key lvl }, now_level lvl)
  ]

module _ (json : BookCodec) where
  unfoldable pub wipe_char : Game → Text → Game
  wipe_char g key =
      let r = drop_from_guild json (record { store = wipe_keys g.store key; book = g.book }) key in
      record g {
        store = z_rem r.store board_key key;
        book = r.book;
        online = without_key key g.online;
      }

  unfoldable pub reset_one : Game → Text → Game × GodReply
  reset_one g key = if no_sheet g.store key then (g, not_playing) else (wipe_char g key, wiped key)

  -- The characters on the board, the quest and the guilds are erased, and the count of them is given.
  unfoldable pub wipe_all : Game → Game × GodReply
  wipe_all g =
      let top = z_top g.store board_key (pos 100000) in
      let m1 = del (wipe_members g.store top) board_key in
      let m2 = del (del (del m1 quest_key) guilds_key) boss_key in
      (
        record { store = m2; online = []; quest = none; book = []; paused = false },
        wiped_all (length top),
      )

  unfoldable pub reset_verb : Game → Text → List Text → Game × GodReply
  reset_verb g network [] = (g, reset_usage)
  reset_verb g network (w ∷ []) =
      if equal_fold w (codes "all")
      then (g, reset_confirm)
      else reset_one g (resolve g.store network [] w)
  reset_verb g network (w ∷ (sure ∷ rest)) =
      if equal_fold w (codes "all")
      then (if text_eq (to_lower sure) (codes "yes") then wipe_all g else (g, reset_confirm))
      else reset_one g (resolve g.store network [] w)

  -- The verbs with a name and a number.
  unfoldable pub with_number :
      Game → Text → GodReply → (Game → Text → Text → Game × GodReply) → List Text → Game × GodReply
  with_number g network usage act [] = (g, usage)
  with_number g network usage act (w ∷ []) = (g, usage)
  with_number g network usage act (w ∷ (num ∷ rest)) = act g (resolve g.store network [] w) num

  unfoldable pub hog_verb : Game → Text → Option Player → ℕ → ℕ → List Text → Game × GodReply
  hog_verb g network drawn pct coin [] = hog g none drawn pct coin
  hog_verb g network drawn pct coin (w ∷ rest) =
      hog g (some (resolve g.store network [] w)) drawn pct coin

  unfoldable pub admin_verb :
      (ℤ → ℤ) → Game → Text → Bool → Option Player → ℕ → ℕ → Text → List Text → Game × GodReply
  admin_verb ttl_for g network authorized drawn pct coin verb words =
      if not authorized
      then (g, refused)
      else if text_eq verb (codes "pause")
      then (record g { paused = true }, paused_now)
      else if text_eq verb (codes "resume")
      then (record g { paused = false }, resumed)
      else if text_eq verb (codes "push")
      then with_number g network push_usage push words
      else if text_eq verb (codes "hog")
      then hog_verb g network drawn pct coin words
      else if text_eq verb (codes "reset")
      then reset_verb g network words
      else if text_eq verb (codes "setlevel")
      then with_number g network level_usage (set_level ttl_for) words
      else if text_eq verb (codes "gold")
      then with_number g network gold_usage set_gold words
      else (g, unknown_verb)
