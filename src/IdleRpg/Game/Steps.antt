-- ===== src/IdleRpg/Game/Steps.antt =====
-- The handlers of internal/idlerpg/idlerpg.go that change levels, clocks or the board, as the steps of
-- a realm.
use annoybots.Base.{
  ◌≡◌, refl, ◌∙◌, [], ◌∷◌, List, Text, Map, text_eq, arith, if◌then◌else◌, ℕ, ◌+◌, lookup, has,
  Bool-cases, Option-cases, inl, inr,
}
use annoybots.Base.Int.{ℤ, pos}
use annoybots.State.{MemStore, h_incr, del, z_score}
use annoybots.State.Fields.{z_score-del, field-del}
use annoybots.IdleRpg.{sheet_key, board_key, quest_key, name_key, class_key, stash_key, item_slots}
use annoybots.IdleRpg.Sheet.{stat, sheet_key_inj}
use annoybots.IdleRpg.Trade.{Sender}
use annoybots.IdleRpg.Quest.{ttl, slow_down, pct_of_ttl, quest_violation}
use annoybots.IdleRpg.Rebirth.{level}
use annoybots.IdleRpg.Hero.{race_key}
use annoybots.IdleRpg.Town.{mount_key}
use annoybots.IdleRpg.Game.{
  Game, Event, EventKind, joins, parts, quits, kicks, renames, present, set_online, mark_present,
  penalize_online, online_player, violate, fail_quest_by, on_leave, depart, follow, on_nick,
  on_event_of, talk, part_penalty, quit_penalty, kick_penalty, nick_penalty,
}
use annoybots.IdleRpg.Game.Gods.{pet_key, dungeon_key, del_names, wipe_keys}
use annoybots.IdleRpg.Game.Board.{IsQuiet, IsQuiet-refl, IsQuiet-trans, h_incr-IsQuiet, del-IsQuiet}

slow_down-IsQuiet :
    (m : MemStore) (lo : ℕ) (draw : Text → ℕ) (members : Map Text)
    → IsQuiet m (slow_down m lo draw members)
unfolding slow_down text_eq
slow_down-IsQuiet m lo draw [] = IsQuiet-refl m
slow_down-IsQuiet m lo draw ((key, nick) ∷ rest) =
    IsQuiet-trans (h_incr-IsQuiet m key ttl (pct_of_ttl m key (lo + draw key)) refl) (
      slow_down-IsQuiet (h_incr m (sheet_key key) ttl (pct_of_ttl m key (lo + draw key))).0 lo draw
        rest)

violate-IsQuiet :
    (g : Game) (key : Text) (draw : Text → ℕ) → IsQuiet g.store (violate g key draw).store
unfolding violate quest_violation text_eq sheet_key
violate-IsQuiet g key draw = elim (Option-cases g.quest) [
  | inl none_on ↦ rw (none_on, quest_violation) (IsQuiet-refl g.store)
  | inr (q, e) ↦ elim (Bool-cases (has (lookup key q.members))) [
    | inr other ↦ rw (e, other, quest_violation) (IsQuiet-refl g.store)
    | inl mine ↦
        rw (e, mine, quest_violation)
          (IsQuiet-trans (del-IsQuiet g.store quest_key (λ k. refl) refl)
            (slow_down-IsQuiet (del g.store quest_key) 10 draw q.members))
  ]
]

penalize-IsQuiet :
    (g : Game) (network nick : Text) (secs : ℤ)
    → IsQuiet g.store (penalize_online g network nick secs).store
unfolding penalize_online text_eq
penalize-IsQuiet g network nick secs = elim (Option-cases (online_player g network nick)) [
  | inl away ↦ rw (away, penalize_online) (IsQuiet-refl g.store)
  | inr (p, e) ↦ rw (e, penalize_online) (h_incr-IsQuiet g.store p.key ttl secs refl)
]

penalty-IsQuiet :
    (g : Game) (ev : Event) (secs : ℤ) (draw : Text → ℕ)
    → IsQuiet g.store
        (fail_quest_by (penalize_online g ev.network ev.nick secs) ev.network ev.nick draw).store
unfolding fail_quest_by
penalty-IsQuiet g ev secs draw =
    IsQuiet-trans (penalize-IsQuiet g ev.network ev.nick secs)
      (violate-IsQuiet (penalize_online g ev.network ev.nick secs) _ draw)

store-follow : (g : Game) (ev : Event) → (follow g ev).store ≡ g.store
unfolding follow
store-follow g ev = ground arith

store-mark_present : (g : Game) (ev : Event) → (mark_present g ev).store ≡ g.store
unfolding mark_present set_online
store-mark_present g ev = ground arith

pub on_event_of-IsQuiet :
    (kind : EventKind) (g : Game) (ev : Event) (draw : Text → ℕ)
    → IsQuiet g.store (on_event_of kind g ev draw).store
unfolding on_event_of depart on_leave on_nick
on_event_of-IsQuiet joins g ev draw = rw (store-mark_present g ev) (IsQuiet-refl g.store)
on_event_of-IsQuiet present g ev draw = rw (store-mark_present g ev) (IsQuiet-refl g.store)
on_event_of-IsQuiet parts g ev draw = penalty-IsQuiet g ev part_penalty draw
on_event_of-IsQuiet quits g ev draw = penalty-IsQuiet g ev quit_penalty draw
on_event_of-IsQuiet kicks g ev draw = penalty-IsQuiet g ev kick_penalty draw
on_event_of-IsQuiet renames g ev draw =
    rw
      (store-follow
        (fail_quest_by (penalize_online g ev.network ev.nick nick_penalty) ev.network ev.nick draw)
        ev)
      (penalty-IsQuiet g ev nick_penalty draw)

pub talk-IsQuiet :
    (ttl_for : ℤ → ℤ) (g : Game) (msg : Sender) (text : Text) (draw : Text → ℕ)
    → IsQuiet g.store (talk ttl_for g msg text draw).store
unfolding talk text_eq
talk-IsQuiet ttl_for g msg text draw = elim (Option-cases (online_player g msg.network msg.nick)) [
  | inl away ↦ rw (away, talk) (IsQuiet-refl g.store)
  | inr (p, e) ↦
      rw (e, talk)
        (IsQuiet-trans (h_incr-IsQuiet g.store p.key ttl _ refl) (violate-IsQuiet _ p.key draw))
]

del_names-IsQuiet :
    (m : MemStore) (key : Text) (slots : List Text) → IsQuiet m (del_names m key slots)
unfolding del_names name_key sheet_key text_eq
del_names-IsQuiet m key [] = IsQuiet-refl m
del_names-IsQuiet m key (slot ∷ rest) =
    IsQuiet-trans (del-IsQuiet m (name_key key slot) (λ k. refl) refl)
      (del_names-IsQuiet (del m (name_key key slot)) key rest)

del_sheet-levels :
    (m : MemStore) (key k : Text)
    → stat (del m (sheet_key key)) k level ≡ (if text_eq key k then pos 0 else stat m k level)
unfolding stat
del_sheet-levels m key k =
    ground (arith, field-del m (sheet_key key) (sheet_key k) level, sheet_key_inj key k)

pub wipe_keys-levels :
    (m : MemStore) (key : Text)
    → ((k : Text)
        → stat (wipe_keys m key) k level ≡ (if text_eq key k then pos 0 else stat m k level))
      × ((k : Text) → z_score (wipe_keys m key) board_key k ≡ z_score m board_key k)
unfolding wipe_keys class_key race_key stash_key mount_key pet_key dungeon_key sheet_key text_eq
wipe_keys-levels m key = (
  λ k. del_sheet-levels m4 key k ∙ ground (arith, quiet.levels k),
  λ k. ground (arith, z_score-del m4 (sheet_key key) board_key k, quiet.scores k),
)
  where
    m1 : MemStore
    m1 = del (del_names m key item_slots) (class_key key)

    m2 : MemStore
    m2 = del (del m1 (race_key key)) (stash_key key)

    m3 : MemStore
    m3 = del (del m2 (mount_key key)) (pet_key key)

    m4 : MemStore
    m4 = del m3 (dungeon_key key)

    quiet : IsQuiet m m4
    quiet = IsQuiet-trans (del_names-IsQuiet m key item_slots) (
        IsQuiet-trans (del-IsQuiet (del_names m key item_slots) (class_key key) (λ k. refl) refl) (
          IsQuiet-trans (del-IsQuiet m1 (race_key key) (λ k. refl) refl) (
            IsQuiet-trans (del-IsQuiet (del m1 (race_key key)) (stash_key key) (λ k. refl) refl) (
              IsQuiet-trans (del-IsQuiet m2 (mount_key key) (λ k. refl) refl) (
                IsQuiet-trans (del-IsQuiet (del m2 (mount_key key)) (pet_key key) (λ k. refl) refl)
                  (del-IsQuiet m3 (dungeon_key key) (λ k. refl) refl))))))
