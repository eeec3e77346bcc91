-- ===== src/IdleRpg/Game/Board.antt =====
-- The level board of internal/idlerpg and the levels in the sheets, through the handlers of the game.
use annoybots.Base.{
  ◌≡◌, refl, sym, ◌∙◌, false, Text, text_eq, arith, if◌then◌else◌, Bool-cases, inl, inr,
}
use annoybots.Base.Int.{ℤ, IsInt64}
use annoybots.State.{MemStore, h_set, h_incr, h_get_all, set_str, del, z_incr, z_rem, z_score}
use annoybots.State.Fields.{field, field-z_incr, z_score-del, z_score-h_set, z_score-h_incr}
use annoybots.IdleRpg.{sheet_key, board_key}
use annoybots.IdleRpg.Sheet.{stat, stat-h_set, stat-h_incr, stat-set_str, stat-del}
use annoybots.IdleRpg.Rebirth.{level}

-- The board shows each player's level, and the levels are int64 values.
pub record IsBoard (m : MemStore) : Type 0 where
  pub shown : (k : Text) → z_score m board_key k ≡ stat m k level
  pub ranged : (k : Text) → IsInt64 (stat m k level)

-- Writes that leave the levels and the board alone.
pub record IsQuiet (m n : MemStore) : Type 0 where
  pub levels : (k : Text) → stat n k level ≡ stat m k level
  pub scores : (k : Text) → z_score n board_key k ≡ z_score m board_key k

pub quiet-IsBoard : {m n : MemStore} → IsQuiet m n → IsBoard m → IsBoard n
quiet-IsBoard {m} {n} q b = record {
  shown = λ k. q.scores k ∙ b.shown k ∙ sym (q.levels k);
  ranged = λ k. rw (q.levels k) (b.ranged k);
}

pub IsQuiet-refl : (m : MemStore) → IsQuiet m m
IsQuiet-refl m = record { levels = λ k. refl; scores = λ k. refl }

pub IsQuiet-trans : {m n o : MemStore} → IsQuiet m n → IsQuiet n o → IsQuiet m o
IsQuiet-trans p q = record {
  levels = λ k. q.levels k ∙ p.levels k;
  scores = λ k. q.scores k ∙ p.scores k;
}

module _ (m : MemStore) where
  pub h_set-IsQuiet :
      (key f : Text) (v : ℤ) → text_eq f level ≡ false → IsQuiet m (h_set m (sheet_key key) f v)
  h_set-IsQuiet key f v no_level = record {
    levels = λ k. ground (arith, stat-h_set m key k f level v, no_level);
    scores = λ k. z_score-h_set m (sheet_key key) board_key f k v;
  }

  pub h_incr-IsQuiet :
      (key f : Text) (d : ℤ) → text_eq f level ≡ false → IsQuiet m (h_incr m (sheet_key key) f d).0
  h_incr-IsQuiet key f d no_level = record {
    levels = λ k. ground (arith, stat-h_incr m key k f level d, no_level);
    scores = λ k. z_score-h_incr m (sheet_key key) board_key f k d;
  }

  pub set_str-IsQuiet : (key v : Text) → IsQuiet m (set_str m key v)
  unfolding set_str z_score
  set_str-IsQuiet key v = record { levels = λ k. stat-set_str m key v k level; scores = λ k. refl }

  pub del-IsQuiet :
      (key : Text)
      → ((k : Text) → text_eq key (sheet_key k) ≡ false)
      → text_eq key board_key ≡ false
      → IsQuiet m (del m key)
  del-IsQuiet key no_sheet no_board = record {
    levels = λ k. stat-del m key k level (no_sheet k);
    scores = λ k. ground (arith, z_score-del m key board_key k, no_board);
  }

pub stat-z_incr :
    (m : MemStore) (key : Text) (d : ℤ) (k g : Text)
    → stat (z_incr m board_key key d).0 k g ≡ stat m k g
unfolding stat
stat-z_incr m key d k g = field-z_incr m board_key (sheet_key k) key g d

pub stat-z_rem : (m : MemStore) (key k g : Text) → stat (z_rem m board_key key) k g ≡ stat m k g
unfolding stat field z_rem h_get_all
stat-z_rem m key k g = ground arith

-- A store that shows a new level of one player, and that level on the board.
pub record IsMoved (m : MemStore) (key : Text) (lvl : ℤ) (n : MemStore) : Type 0 where
  pub levels : (k : Text) → stat n k level ≡ (if text_eq key k then lvl else stat m k level)
  pub scores :
      (k : Text) → z_score n board_key k ≡ (if text_eq key k then lvl else z_score m board_key k)

pub moved-IsBoard :
    {m n : MemStore} (key : Text) (lvl : ℤ)
    → IsMoved m key lvl n
    → IsInt64 lvl
    → IsBoard m
    → IsBoard n
moved-IsBoard {m} {n} key lvl q range b = record {
  shown = λ k. ground (arith, q.scores k, q.levels k, b.shown k);
  ranged = λ k. elim (Bool-cases (text_eq key k)) [
    | inl mine ↦ rw (q.levels k, mine) range
    | inr other ↦ rw (q.levels k, other) (b.ranged k)
  ];
}

-- Quiet writes after it.
pub IsMoved-IsQuiet :
    {m n o : MemStore} (key : Text) (lvl : ℤ)
    → IsMoved m key lvl n
    → IsQuiet n o
    → IsMoved m key lvl o
IsMoved-IsQuiet key lvl q r = record {
  levels = λ k. r.levels k ∙ q.levels k;
  scores = λ k. r.scores k ∙ q.scores k;
}
