-- ===== src/IdleRpg/Quest/Rewards.antt =====
-- completeQuest, questViolation and questKillCredit of internal/idlerpg/quest.go: clocks and
-- kills.
use annoybots.Base.{
  ℕ, zero, suc, ◌+◌, ◌≤◌, ◌<◌, true, false, ◌&&◌, ◌≡◌, ap, ◌∙◌, refl, [], ◌∷◌, List, Option, none,
  some, Text, Map, arith, lookup, has as is_some, text_eq, text_eq_iff, text_eq_refl, length, All,
  if◌then◌else◌, leb,
}
use annoybots.Base.Int.{ℤ, two63, pos, neg, ◌+ℤ◌, add64, wrap64, residue64}
use annoybots.State.{MemStore, h_incr, del}
use annoybots.IdleRpg.{sheet_key, quest_key}
use annoybots.IdleRpg.Sheet.{stat, stat-h_incr, stat-del}
use annoybots.IdleRpg.Quest.{
  hunt_quest, Quest, QuestCodec, World, ttl, pct_of_ttl, speed_up, slow_down, complete_quest,
  quest_violation, activate, quest_kill_credit,
}

-- The keys of a map are all different.
abbrev pub Unique : Map Text → Type 0
Unique [] = Unit
Unique ((k, nick) ∷ ms) = (lookup k ms ≡ none) × Unique ms

pct_of_ttl-h_incr :
    (m : MemStore) (p k : Text) (d : ℤ) (pct : ℕ)
    → text_eq p k ≡ false
    → pct_of_ttl (h_incr m (sheet_key p) ttl d).0 k pct ≡ pct_of_ttl m k pct
unfolding pct_of_ttl
pct_of_ttl-h_incr m p k d pct n =
    let same : stat (h_incr m (sheet_key p) ttl d).0 k ttl ≡ stat m k ttl =
      ground (arith, n, stat-h_incr m p k ttl ttl d) in
    rw same refl

-- A reward moves the clock of each member once, by what the member's own clock and draw give.
stat-speed_up :
    (m : MemStore) (lo : ℕ) (draw : Text → ℕ) (ms : Map Text) (k g : Text)
    → Unique ms
    → stat (speed_up m lo draw ms) k g ≡ (
        if is_some (lookup k ms) && text_eq ttl g
        then add64 (stat m k ttl) (neg (pct_of_ttl m k (lo + draw k)))
        else stat m k g)
unfolding speed_up lookup
stat-speed_up m lo draw [] k g u = refl
stat-speed_up m lo draw ((p, nick) ∷ ms) k g u =
    let d = neg (pct_of_ttl m p (lo + draw p)) in
    let m1 = (h_incr m (sheet_key p) ttl d).0 in
    ground (
      arith,
      u.0,
      stat-speed_up m1 lo draw ms k g u.1,
      stat-h_incr m p k ttl g d,
      stat-h_incr m p k ttl ttl d,
      text_eq_refl ttl,
      text_eq_iff p k,
      pct_of_ttl-h_incr m p k d (lo + draw k),
    )

stat-slow_down :
    (m : MemStore) (lo : ℕ) (draw : Text → ℕ) (ms : Map Text) (k g : Text)
    → Unique ms
    → stat (slow_down m lo draw ms) k g ≡ (
        if is_some (lookup k ms) && text_eq ttl g
        then add64 (stat m k ttl) (pct_of_ttl m k (lo + draw k))
        else stat m k g)
unfolding slow_down lookup
stat-slow_down m lo draw [] k g u = refl
stat-slow_down m lo draw ((p, nick) ∷ ms) k g u =
    let d = pct_of_ttl m p (lo + draw p) in
    let m1 = (h_incr m (sheet_key p) ttl d).0 in
    ground (
      arith,
      u.0,
      stat-slow_down m1 lo draw ms k g u.1,
      stat-h_incr m p k ttl g d,
      stat-h_incr m p k ttl ttl d,
      text_eq_refl ttl,
      text_eq_iff p k,
      pct_of_ttl-h_incr m p k d (lo + draw k),
    )

quest-ne-sheet : (p : Text) → text_eq quest_key (sheet_key p) ≡ false
unfolding sheet_key text_eq
quest-ne-sheet p = refl

stat-del_quest : (m : MemStore) (k g : Text) → stat (del m quest_key) k g ≡ stat m k g
stat-del_quest m k g = stat-del m quest_key k g (quest-ne-sheet k)

pct-del_quest :
    (m : MemStore) (k : Text) (pct : ℕ) → pct_of_ttl (del m quest_key) k pct ≡ pct_of_ttl m k pct
unfolding pct_of_ttl
pct-del_quest m k pct = rw (stat-del_quest m k ttl) refl

-- Of a quest that lists each member once: its completion takes from the clock of each member once
-- what the member's own clock and draw give, a stray by a member adds it; no other field and
-- nobody else's sheet changes, and the quest is over. A stray by somebody who is not in the party
-- does nothing.
pub quest_end-clocks :
    (w : World) (q : Quest) (key : Text) (draw : Text → ℕ)
    → w.quest ≡ some q
    → Unique q.members
    → ((complete_quest w draw).quest ≡ none)
      × ((k g : Text)
          → stat (complete_quest w draw).store k g ≡ (
              if is_some (lookup k q.members) && text_eq ttl g
              then add64 (stat w.store k ttl) (neg (pct_of_ttl w.store k (20 + draw k)))
              else stat w.store k g))
      × (is_some (lookup key q.members) ≡ true
          → ((quest_violation w key draw).quest ≡ none)
            × ((k g : Text)
                → stat (quest_violation w key draw).store k g ≡ (
                    if is_some (lookup k q.members) && text_eq ttl g
                    then add64 (stat w.store k ttl) (pct_of_ttl w.store k (10 + draw k))
                    else stat w.store k g)))
      × (is_some (lookup key q.members) ≡ false → quest_violation w key draw ≡ w)
unfolding complete_quest quest_violation
quest_end-clocks w q key draw e u =
    let m = del w.store quest_key in
    (
      ground (arith, e),
      λ k g. ground (
        arith,
        e,
        stat-speed_up m 20 draw q.members k g u,
        stat-del_quest w.store k g,
        stat-del_quest w.store k ttl,
        pct-del_quest w.store k (20 + draw k),
      ),
      λ t. (
        ground (arith, e, t),
        λ k g. ground (
          arith,
          e,
          t,
          stat-slow_down m 10 draw q.members k g u,
          stat-del_quest w.store k g,
          stat-del_quest w.store k ttl,
          pct-del_quest w.store k (10 + draw k),
        ),
      ),
      λ t. ground (arith, e, t),
    )

-- A store after kills by the players of a list.
unfoldable pub kills : QuestCodec → World → List Text → (Text → ℕ) → World
kills json w [] draw = w
kills json w (k ∷ ks) draw = kills json (quest_kill_credit json w k draw) ks draw

one_more : (a : ℕ) → suc a < two63 → add64 (pos a) (pos 1) ≡ pos (suc a)
unfolding add64 wrap64 residue64 ◌+ℤ◌
one_more a h = ground arith

kill_step :
    (json : QuestCodec) (w : World) (q : Quest) (k : Text) (draw : Text → ℕ) (a n : ℕ)
    → w.quest ≡ some q
    → q.kind ≡ hunt_quest
    → is_some (lookup k q.members) ≡ true
    → q.progress ≡ pos a
    → q.target ≡ pos (a + suc n)
    → a + suc n < two63
    → (quest_kill_credit json w k draw).quest
      ≡ (if leb n 0 then none else some (record q { progress = pos (suc a) }))
unfolding quest_kill_credit activate complete_quest
kill_step json w q k draw a n e h i p t small =
    let next : add64 q.progress (pos 1) ≡ pos (suc a) =
      ap (λ (z : ℤ). add64 z (pos 1)) p ∙ one_more a (omega (arith, small)) in
    rw (e, h, i, next) (ground (arith, t))

not_last {ℓ} : {A : Type ℓ} (n : ℕ) (x : Option A) → (if leb (suc n) 0 then none else x) ≡ x
not_last n x = ground arith

abbrev InParty : Quest → Text → Type 0
InParty q k = is_some (lookup k q.members) ≡ true

-- The kills before the last one leave the hunt on, with the progress counted.
hunt_goes_on :
    (json : QuestCodec) (w : World) (q : Quest) (ks : List Text) (draw : Text → ℕ) (a n : ℕ)
    → w.quest ≡ some q
    → q.kind ≡ hunt_quest
    → All (InParty q) ks
    → q.progress ≡ pos a
    → q.target ≡ pos (a + suc n)
    → a + suc n < two63
    → length ks ≤ n
    → (kills json w ks draw).quest ≡ some (record q { progress = pos (a + length ks) })
unfolding kills
hunt_goes_on json w q [] draw a n e h i p t small l =
    e ∙ ap (λ (z : ℤ). some (record q { progress = z })) (p ∙ ap pos (omega arith))
hunt_goes_on json w q (k ∷ ks) draw a zero e h i p t small l = elim l [ ]
hunt_goes_on json w q (k ∷ ks) draw a (suc n) e h i p t small l =
    hunt_goes_on json (quest_kill_credit json w k draw) (record q { progress = pos (suc a) }) ks
      draw (suc a) n (kill_step json w q k draw a (suc n) e h i.0 p t small ∙ not_last n _) h i.1
      refl (t ∙ ap pos (omega arith)) (omega (arith, small)) (omega (arith, l))
    ∙ ap (λ (z : ℤ). some (record q { progress = z })) (ap pos (omega arith))

hunt_is_done :
    (json : QuestCodec) (w : World) (q : Quest) (ks : List Text) (draw : Text → ℕ) (a n : ℕ)
    → w.quest ≡ some q
    → q.kind ≡ hunt_quest
    → All (InParty q) ks
    → q.progress ≡ pos a
    → q.target ≡ pos (a + suc n)
    → a + suc n < two63
    → length ks ≡ suc n
    → (kills json w ks draw).quest ≡ none
unfolding kills
hunt_is_done json w q [] draw a n e h i p t small l = ground arith
hunt_is_done json w q (k ∷ []) draw a zero e h i p t small l =
    kill_step json w q k draw a zero e h i.0 p t small
hunt_is_done json w q (k ∷ (j ∷ ks)) draw a zero e h i p t small l = ground arith
hunt_is_done json w q (k ∷ ks) draw a (suc n) e h i p t small l =
    hunt_is_done json (quest_kill_credit json w k draw) (record q { progress = pos (suc a) }) ks
      draw (suc a) n (kill_step json w q k draw a (suc n) e h i.0 p t small ∙ not_last n _) h i.1
      refl (t ∙ ap pos (omega arith)) (omega (arith, small)) (omega (arith, l))

-- A hunt whose target, an int64, is suc n kills away goes on, with each kill counted, through n
-- kills by its party or fewer, and is over after suc n kills.
pub hunt-length :
    (json : QuestCodec) (w : World) (q : Quest) (ks : List Text) (draw : Text → ℕ) (a n : ℕ)
    → w.quest ≡ some q
    → q.kind ≡ hunt_quest
    → All (InParty q) ks
    → q.progress ≡ pos a
    → q.target ≡ pos (a + suc n)
    → a + suc n < two63
    → (length ks ≤ n
        → (kills json w ks draw).quest ≡ some (record q { progress = pos (a + length ks) }))
      × (length ks ≡ suc n → (kills json w ks draw).quest ≡ none)
hunt-length json w q ks draw a n e h i p t small = (
  λ l. hunt_goes_on json w q ks draw a n e h i p t small l,
  λ l. hunt_is_done json w q ks draw a n e h i p t small l,
)
