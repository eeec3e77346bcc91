-- ===== src/IdleRpg/Game/Climb.antt =====
-- Enrolment, the climb of a level and setlevel of internal/idlerpg/idlerpg.go, on the level board.
use annoybots.Base.{
  ◌≡◌, refl, ◌∙◌, false, not, [], ◌∷◌, List, Text, text_eq, text_eq_refl, arith, All, Bool-cases,
  inl, inr, codes,
}
use annoybots.Base.Int.{
  ℤ, pos, ltb_ℤ, eq_ℤ, negsuc, neg, IsInt64, wrap64, wrap64-IsInt64, add64, sub64, ◌+ℤ◌, ◌-ℤ◌,
}
use annoybots.State.{MemStore, h_set, h_incr, z_incr}
use annoybots.State.Fields.{field, z_score-z_incr, z_score-h_set, z_score-h_incr}
use annoybots.IdleRpg.{sheet_key, board_key}
use annoybots.IdleRpg.Sheet.{stat, stat-h_set, stat-h_incr}
use annoybots.IdleRpg.Quest.{ttl}
use annoybots.IdleRpg.Rebirth.{level, reb, ttl_for_reb}
use annoybots.IdleRpg.Town.{enrolled}
use annoybots.IdleRpg.Hero.{abilities, write_scores, ensure_abilities}
use annoybots.IdleRpg.Game.Gods.{write_level}
use annoybots.IdleRpg.Game.{level_up, enrol, run_clock}
use annoybots.IdleRpg.Game.Board.{
  IsBoard, IsQuiet, IsMoved, quiet-IsBoard, IsQuiet-refl, IsQuiet-trans, h_set-IsQuiet,
  h_incr-IsQuiet, stat-z_incr, moved-IsBoard, IsMoved-IsQuiet,
}

module _ (ttl_for : ℤ → ℤ) (m : MemStore) (key : Text) (b : IsBoard m) where
  level_up-IsMoved : IsMoved m key (add64 (stat m key level) (pos 1)) (level_up ttl_for m key)
  unfolding level_up text_eq
  level_up-IsMoved =
      let (m1, lvl) = h_incr m (sheet_key key) level (pos 1) in
      let t = ttl_for_reb ttl_for lvl (stat m1 key reb) in
      let m2 = h_set m1 (sheet_key key) ttl t in
      record {
        levels = λ k.
            stat-z_incr m2 key (pos 1) k level
            ∙ ground
                (arith, stat-h_set m1 key k ttl level t, stat-h_incr m key k level level (pos 1));
        scores = λ k. ground (
          arith,
          z_score-z_incr m2 board_key board_key key k (pos 1),
          z_score-h_set m1 (sheet_key key) board_key ttl k t,
          z_score-h_set m1 (sheet_key key) board_key ttl key t,
          z_score-h_incr m (sheet_key key) board_key level k (pos 1),
          z_score-h_incr m (sheet_key key) board_key level key (pos 1),
          b.shown key,
          text_eq_refl board_key,
        );
      }

  pub level_up-IsBoard : IsBoard (level_up ttl_for m key)
  unfolding add64
  level_up-IsBoard =
      moved-IsBoard key (add64 (stat m key level) (pos 1)) level_up-IsMoved (wrap64-IsInt64 _) b

pub run_clock-IsBoard :
    (ttl_for : ℤ → ℤ) (m : MemStore) (key : Text) (pstep : ℤ)
    → IsBoard m
    → IsBoard (run_clock ttl_for m key pstep)
unfolding run_clock text_eq
run_clock-IsBoard ttl_for m key pstep b =
    let (m1, left) = h_incr m (sheet_key key) ttl (neg pstep) in
    let b1 : IsBoard m1 = quiet-IsBoard (h_incr-IsQuiet m key ttl (neg pstep) refl) b in
    elim (Bool-cases (ltb_ℤ (pos 0) left)) [
      | inl more ↦ rw (more, run_clock) b1
      | inr done ↦ rw (done, run_clock) (level_up-IsBoard ttl_for m1 key b1)
    ]

-- No level field, so the level reads 0.
unplayed : (m : MemStore) (key : Text) → enrolled m key ≡ false → stat m key level ≡ pos 0
unfolding enrolled stat field
unplayed m key h = ground (arith, h)

write_scores-IsQuiet :
    (m : MemStore) (key : Text) (dice : Text → ℤ) (names : List Text)
    → All (λ a. text_eq a level ≡ false) names
    → IsQuiet m (write_scores m key dice names)
unfolding write_scores
write_scores-IsQuiet m key dice [] h = IsQuiet-refl m
write_scores-IsQuiet m key dice (a ∷ rest) h =
    IsQuiet-trans (h_set-IsQuiet m key a (dice a) h.0)
      (write_scores-IsQuiet (h_set m (sheet_key key) a (dice a)) key dice rest h.1)

pub ensure_abilities-IsQuiet :
    (m : MemStore) (key : Text) (dice : Text → ℤ) → IsQuiet m (ensure_abilities m key dice)
unfolding ensure_abilities text_eq
ensure_abilities-IsQuiet m key dice =
    elim (Bool-cases (not (eq_ℤ (stat m key (codes "str")) (pos 0)))) [
      | inl rolled ↦ rw (rolled, ensure_abilities) (IsQuiet-refl m)
      | inr fresh ↦
          rw (fresh, ensure_abilities)
            (write_scores-IsQuiet m key dice abilities
              (refl, (refl, (refl, (refl, (refl, (refl, tt)))))))
    ]

zero_zero : add64 (pos 0) (pos 0) ≡ pos 0
unfolding add64 wrap64 ◌+ℤ◌
zero_zero = refl

pub enrol-IsBoard :
    (ttl_for : ℤ → ℤ) (m : MemStore) (key : Text) (scores : Text → ℤ)
    → enrolled m key ≡ false
    → IsBoard m
    → IsBoard (enrol ttl_for m key scores)
unfolding enrol text_eq
enrol-IsBoard ttl_for m key scores new b =
    moved-IsBoard key (pos 0)
      (IsMoved-IsQuiet key (pos 0) written
        (ensure_abilities-IsQuiet (z_incr m2 board_key key (pos 0)).0 key scores))
      (omega arith, omega arith) b
  where
    m1 : MemStore
    m1 = h_set m (sheet_key key) level (pos 0)

    m2 : MemStore
    m2 = h_set m1 (sheet_key key) ttl (ttl_for (pos 0))

    written : IsMoved m key (pos 0) (z_incr m2 board_key key (pos 0)).0
    written = record {
      levels = λ k.
          stat-z_incr m2 key (pos 0) k level
          ∙ ground (
            arith,
            stat-h_set m1 key k ttl level (ttl_for (pos 0)),
            stat-h_set m key k level level (pos 0),
          );
      scores = λ k. ground (
        arith,
        z_score-z_incr m2 board_key board_key key k (pos 0),
        z_score-h_set m1 (sheet_key key) board_key ttl k (ttl_for (pos 0)),
        z_score-h_set m1 (sheet_key key) board_key ttl key (ttl_for (pos 0)),
        z_score-h_set m (sheet_key key) board_key level k (pos 0),
        z_score-h_set m (sheet_key key) board_key level key (pos 0),
        b.shown key,
        unplayed m key new,
        zero_zero,
        text_eq_refl board_key,
      );
    }

-- A difference that is added back, modulo 2^64.
add64-sub64 : (x l : ℤ) → IsInt64 x → IsInt64 l → add64 x (sub64 l x) ≡ l
unfolding add64 sub64 wrap64 ◌+ℤ◌ ◌-ℤ◌
add64-sub64 (pos a) (pos b) h k = ground arith
add64-sub64 (pos a) (negsuc b) h k = ground arith
add64-sub64 (negsuc a) (pos b) h k = ground arith
add64-sub64 (negsuc a) (negsuc b) h k = ground arith

pub write_level-IsBoard :
    (ttl_for : ℤ → ℤ) (m : MemStore) (key : Text) (lvl : ℤ)
    → IsInt64 lvl
    → IsBoard m
    → IsBoard (write_level ttl_for m key lvl)
unfolding write_level text_eq
write_level-IsBoard ttl_for m key lvl range b = moved-IsBoard key lvl written range b
  where
    d : ℤ
    d = sub64 lvl (stat m key level)

    m1 : MemStore
    m1 = (z_incr m board_key key d).0

    m2 : MemStore
    m2 = h_set m1 (sheet_key key) level lvl

    written : IsMoved m key lvl (h_set m2 (sheet_key key) ttl (ttl_for lvl))
    written = record {
      levels = λ k. ground (
        arith,
        stat-h_set m2 key k ttl level (ttl_for lvl),
        stat-h_set m1 key k level level lvl,
        stat-z_incr m key d k level,
      );
      scores = λ k. ground (
        arith,
        z_score-h_set m2 (sheet_key key) board_key ttl k (ttl_for lvl),
        z_score-h_set m1 (sheet_key key) board_key level k lvl,
        z_score-z_incr m board_key board_key key k d,
        b.shown key,
        add64-sub64 (stat m key level) lvl (b.ranged key) range,
        text_eq_refl board_key,
      );
    }
