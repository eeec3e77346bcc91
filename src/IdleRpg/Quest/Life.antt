-- ===== src/IdleRpg/Quest/Life.antt =====
-- The quest of internal/idlerpg/quest.go in memory and in the store, under each of its changes.
use annoybots.Base.{
  ℕ, suc, ◌+◌, ◌≤◌, true, ◌≡◌, subst, ◌∙◌, refl, inl, inr, [], ◌∷◌, List, Option, none, some, Text,
  Map, arith, lookup, insert, has as is_some, text_eq_refl, length, Option-cases, Bool-cases,
}
use annoybots.Base.Int.{ℤ, neg, ltb_ℤ}
use annoybots.State.{MemStore, h_incr, get_str, del}
use annoybots.State.Fields.{get_str-set_str, get_str-h_incr, get_str-del}
use annoybots.IdleRpg.{sheet_key, quest_key}
use annoybots.IdleRpg.Quest.{
  hunt_quest, Player, Quest, QuestCodec, World, Draws, party_max, ttl, pct_of_ttl, speed_up,
  slow_down, complete_quest, fail_hunt_quest, quest_violation, enlist_all, new_quest, drafted,
  load_quest, save_quest, activate, start_quest,
}

get_str-speed_up :
    (m : MemStore) (lo : ℕ) (draw : Text → ℕ) (ms : Map Text) (k : Text)
    → get_str (speed_up m lo draw ms) k ≡ get_str m k
unfolding speed_up
get_str-speed_up m lo draw [] k = refl
get_str-speed_up m lo draw ((key, nick) ∷ ms) k =
    get_str-speed_up (h_incr m (sheet_key key) ttl (neg (pct_of_ttl m key (lo + draw key)))).0 lo
      draw ms k
    ∙ get_str-h_incr m (sheet_key key) k ttl (neg (pct_of_ttl m key (lo + draw key)))

get_str-slow_down :
    (m : MemStore) (lo : ℕ) (draw : Text → ℕ) (ms : Map Text) (k : Text)
    → get_str (slow_down m lo draw ms) k ≡ get_str m k
unfolding slow_down
get_str-slow_down m lo draw [] k = refl
get_str-slow_down m lo draw ((key, nick) ∷ ms) k =
    get_str-slow_down (h_incr m (sheet_key key) ttl (pct_of_ttl m key (lo + draw key))).0 lo draw ms
      k
    ∙ get_str-h_incr m (sheet_key key) k ttl (pct_of_ttl m key (lo + draw key))

-- The quest that a bot reads from the store when it starts.
unfoldable pub at_start : QuestCodec → MemStore → Option Quest
at_start json m = (load_quest json (record { store = m; quest = none })).quest

at_start-cleared :
    (json : QuestCodec) (m : MemStore) → get_str m quest_key ≡ [] → at_start json m ≡ none
unfolding at_start load_quest
at_start-cleared json m e = ground (arith, e, text_eq_refl [])

at_start-save_quest :
    (json : QuestCodec) (m : MemStore) (q : Quest) → at_start json (save_quest json m q) ≡ some q
unfolding at_start load_quest save_quest
at_start-save_quest json m q = ground (
  arith,
  text_eq_refl quest_key,
  get_str-set_str m quest_key quest_key (json.encode q),
  json.encode-ne-nil q,
  json.decode-encode q,
)

del_quest : (m : MemStore) → get_str (del m quest_key) quest_key ≡ []
del_quest m = ground (arith, get_str-del m quest_key quest_key, text_eq_refl quest_key)

-- A party of four at most, and a hunt that is not over.
pub record IsGood (q : Quest) : Type 0 where
  pub party : length q.members ≤ party_max
  pub hunting : q.kind ≡ hunt_quest → ltb_ℤ q.progress q.target ≡ true

abbrev pub GoodQuest : Option Quest → Type 0
GoodQuest none = Unit
GoodQuest (some q) = IsGood q

pub record IsLive (json : QuestCodec) (w : World) : Type 0 where
  pub saved : at_start json w.store ≡ w.quest
  pub good : GoodQuest w.quest

length-insert {ℓ} :
    {V : Type ℓ} (k : Text) (v : V) (m : Map V) → length (insert k v m) ≤ suc (length m)
unfolding insert
length-insert k v [] = omega arith
length-insert k v ((j, w) ∷ m) = ground (arith, length-insert k v m)

length-enlist_all :
    (ms : Map Text) (ps : List Player) → length (enlist_all ms ps) ≤ length ms + length ps
unfolding enlist_all
length-enlist_all ms [] = omega arith
length-enlist_all ms (p ∷ ps) =
    omega (arith, length-enlist_all (insert p.key p.nick ms) ps, length-insert p.key p.nick ms)

drafted-IsGood :
    (d : Draws) (now duration : ℤ) (leader : Player) (party : List Player)
    → suc (length party) ≤ party_max
    → IsGood (drafted d now duration leader party)
unfolding drafted new_quest
drafted-IsGood d now duration leader party room = record {
  party = ground (arith, room, length-enlist_all [] (leader ∷ party));
  hunting = λ h. ground (arith, h);
}

module _ (json : QuestCodec) where
  pub activate-IsLive : (w : World) (q : Quest) → IsGood q → IsLive json (activate json w q)
  unfolding activate
  activate-IsLive w q g = record { saved = at_start-save_quest json w.store q; good = g }

  ended-IsLive :
      (m : MemStore) → get_str m quest_key ≡ [] → IsLive json (record { store = m; quest = none })
  ended-IsLive m e = record { saved = at_start-cleared json m e; good = tt }

  pub completed-IsLive :
      (w : World) (q : Quest) (draw : Text → ℕ)
      → w.quest ≡ some q
      → IsLive json (complete_quest w draw)
  unfolding complete_quest
  completed-IsLive w q draw e =
      let m = del w.store quest_key in
      rw e (
        ended-IsLive (speed_up m 20 draw q.members)
          (get_str-speed_up m 20 draw q.members quest_key ∙ del_quest w.store))

  pub complete_quest-IsLive :
      (w : World) (draw : Text → ℕ) → IsLive json w → IsLive json (complete_quest w draw)
  unfolding complete_quest
  complete_quest-IsLive w draw v = elim (Option-cases w.quest) [
    | inl e ↦ subst (IsLive json) (ground (arith, e)) v
    | inr (q, e) ↦ completed-IsLive w q draw e
  ]

  pub fail_hunt_quest-IsLive : (w : World) → IsLive json w → IsLive json (fail_hunt_quest w)
  unfolding fail_hunt_quest
  fail_hunt_quest-IsLive w v = elim (Option-cases w.quest) [
    | inl e ↦ subst (IsLive json) (ground (arith, e)) v
    | inr (q, e) ↦ rw e (ended-IsLive (del w.store quest_key) (del_quest w.store))
  ]

  pub quest_violation-IsLive :
      (w : World) (key : Text) (draw : Text → ℕ)
      → IsLive json w
      → IsLive json (quest_violation w key draw)
  unfolding quest_violation
  quest_violation-IsLive w key draw v = elim (Option-cases w.quest) [
    | inl e ↦ subst (IsLive json) (ground (arith, e)) v
    | inr (q, e) ↦ elim (Bool-cases (is_some (lookup key q.members))) [
      | inl t ↦
          let m = del w.store quest_key in
          rw (e, t)
            (ended-IsLive (slow_down m 10 draw q.members)
              (get_str-slow_down m 10 draw q.members quest_key ∙ del_quest w.store))
      | inr t ↦ subst (IsLive json) (ground (arith, e, t)) v
    ]
  ]

  pub start_quest-IsLive :
      (w : World) (d : Draws) (now duration : ℤ) (party : List Player)
      → length party ≤ party_max
      → IsLive json w
      → IsLive json (start_quest json w d now duration party)
  unfolding start_quest
  start_quest-IsLive w d now duration [] room v = v
  start_quest-IsLive w d now duration (leader ∷ []) room v = v
  start_quest-IsLive w d now duration (leader ∷ (p ∷ party)) room v =
      activate-IsLive w _ (drafted-IsGood d now duration leader (p ∷ party) room)

  pub IsGood-quest : (w : World) (q : Quest) → w.quest ≡ some q → IsLive json w → IsGood q
  IsGood-quest w q e v = subst GoodQuest e v.good
