-- ===== src/IdleRpg/Game/Verbs.antt =====
-- Enrolment, rebirth and the operator's verbs of internal/idlerpg/idlerpg.go, on the level board.
use annoybots.Base.{
  ℕ, refl, ◌∙◌, Text, text_eq, text_eq_refl, arith, parse_int, parse_int-IsInt64, Bool-cases,
  Option-cases, inl, inr,
}
use annoybots.Base.Int.{ℤ, pos, ltb_ℤ, IsInt64}
use annoybots.State.{MemStore, h_incr, set_str}
use annoybots.State.Fields.{z_score-z_rem}
use annoybots.Account.{resolve}
use annoybots.IdleRpg.{sheet_key, board_key, guilds_key, no_sheet}
use annoybots.IdleRpg.Sheet.{stat}
use annoybots.IdleRpg.Trade.{Sender, gold}
use annoybots.IdleRpg.Quest.{ttl}
use annoybots.IdleRpg.Rebirth.{level, rebirth, reset}
use annoybots.IdleRpg.Rebirth.Reset.{stat-reset, rebirth_cases, rebirth-IsShown}
use annoybots.IdleRpg.Guild.{BookCodec, drop_member, drop_from_guild, save_guilds}
use annoybots.IdleRpg.Town.{enrolled}
use annoybots.IdleRpg.Game.{Game, set_online, play}
use annoybots.IdleRpg.Game.Gods.{
  wipe_keys, wipe_char, reset_one, set_level, set_gold, push, hand_of_god,
}
use annoybots.IdleRpg.Game.Board.{
  IsBoard, IsQuiet, IsMoved, IsQuiet-refl, IsQuiet-trans, h_set-IsQuiet, h_incr-IsQuiet,
  set_str-IsQuiet, stat-z_rem, moved-IsBoard,
}
use annoybots.IdleRpg.Game.Climb.{enrol-IsBoard, write_level-IsBoard}
use annoybots.IdleRpg.Game.Steps.{wipe_keys-levels}

pub hand_of_god-IsQuiet :
    (m : MemStore) (key : Text) (pct coin : ℕ) → IsQuiet m (hand_of_god m key pct coin)
unfolding hand_of_god text_eq
hand_of_god-IsQuiet m key pct coin = h_incr-IsQuiet m key ttl _ refl

pub push-IsQuiet : (g : Game) (key num : Text) → IsQuiet g.store (push g key num).0.store
unfolding push text_eq
push-IsQuiet g key num = elim (Option-cases (parse_int num)) [
  | inl bad ↦ rw (bad, push) (IsQuiet-refl g.store)
  | inr (secs, e) ↦ elim (Bool-cases (no_sheet g.store key)) [
    | inl away ↦ rw (e, away, push) (IsQuiet-refl g.store)
    | inr here ↦ rw (e, here, push) (h_incr-IsQuiet g.store key ttl secs refl)
  ]
]

pub set_gold-IsQuiet : (g : Game) (key num : Text) → IsQuiet g.store (set_gold g key num).0.store
unfolding set_gold text_eq
set_gold-IsQuiet g key num = elim (Option-cases (parse_int num)) [
  | inl bad ↦ rw (bad, set_gold) (IsQuiet-refl g.store)
  | inr (amt, e) ↦ elim (Bool-cases (no_sheet g.store key)) [
    | inl away ↦ rw (e, away, set_gold) (IsQuiet-refl g.store)
    | inr here ↦
        let (m, now) = h_incr g.store (sheet_key key) gold amt in
        let paid = h_incr-IsQuiet g.store key gold amt refl in
        elim (Bool-cases (ltb_ℤ now (pos 0))) [
          | inl broke ↦
              rw (e, here, broke, set_gold)
                (IsQuiet-trans paid (h_set-IsQuiet m key gold (pos 0) refl))
          | inr fine ↦ rw (e, here, fine, set_gold) paid
        ]
  ]
]

pub set_level-IsBoard :
    (ttl_for : ℤ → ℤ) (g : Game) (key num : Text)
    → IsBoard g.store
    → IsBoard (set_level ttl_for g key num).0.store
unfolding set_level
set_level-IsBoard ttl_for g key num b = elim (Option-cases (parse_int num)) [
  | inl bad ↦ rw (bad, set_level) b
  | inr (lvl, e) ↦ elim (Bool-cases (ltb_ℤ lvl (pos 0))) [
    | inl less ↦ rw (e, less, set_level) b
    | inr more ↦ elim (Bool-cases (no_sheet g.store key)) [
      | inl away ↦ rw (e, more, away, set_level) b
      | inr here ↦
          rw (e, more, here, set_level)
            (write_level-IsBoard ttl_for g.store key lvl (parse_int-IsInt64 num lvl e) b)
    ]
  ]
]

pub play-IsBoard :
    (ttl_for : ℤ → ℤ) (g : Game) (msg : Sender) (channel : Text) (scores : Text → ℤ)
    → IsBoard g.store
    → IsBoard (play ttl_for g msg channel scores).store
unfolding play set_online
play-IsBoard ttl_for g msg channel scores b =
    let key = resolve g.store msg.network msg.account msg.nick in
    elim (Bool-cases (enrolled g.store key)) [
      | inl old ↦ rw (old, play, set_online) b
      | inr new ↦ rw (new, play, set_online) (enrol-IsBoard ttl_for g.store key scores new b)
    ]

wipe_char-IsMoved :
    (json : BookCodec) (g : Game) (key : Text)
    → IsMoved g.store key (pos 0) (wipe_char json g key).store
unfolding wipe_char drop_from_guild save_guilds
wipe_char-IsMoved json g key =
    let m1 = wipe_keys g.store key in
    let m2 = set_str m1 guilds_key (json.encode (drop_member key g.book)) in
    let saved = set_str-IsQuiet m1 guilds_key (json.encode (drop_member key g.book)) in
    let (levels, scores) = wipe_keys-levels g.store key in
    record {
      levels = λ k. stat-z_rem m2 key k level ∙ saved.levels k ∙ levels k;
      scores = λ k. ground (
        arith,
        z_score-z_rem m2 board_key board_key key k,
        saved.scores k,
        scores k,
        text_eq_refl board_key,
      );
    }

pub reset_one-IsBoard :
    (json : BookCodec) (g : Game) (key : Text)
    → IsBoard g.store
    → IsBoard (reset_one json g key).0.store
unfolding reset_one
reset_one-IsBoard json g key b = elim (Bool-cases (no_sheet g.store key)) [
  | inl away ↦ rw (away, reset_one) b
  | inr here ↦
      rw (here, reset_one)
        (moved-IsBoard key (pos 0) (wipe_char-IsMoved json g key) (omega arith, omega arith) b)
]

reset-ranged :
    (ttl_for : ℤ → ℤ) (m : MemStore) (key : Text)
    → IsBoard m
    → (k : Text) → IsInt64 (stat (reset ttl_for m key) k level)
unfolding text_eq
reset-ranged ttl_for m key b k = elim (Bool-cases (text_eq key k)) [
  | inl mine ↦ rw (stat-reset ttl_for m key k level, mine) (omega arith, omega arith)
  | inr other ↦ rw (stat-reset ttl_for m key k level, other) (b.ranged k)
]

pub rebirth-IsBoard :
    (ttl_for : ℤ → ℤ) (m : MemStore) (key : Text) → IsBoard m → IsBoard (rebirth ttl_for m key).0
rebirth-IsBoard ttl_for m key b = record {
  shown = (rebirth-IsShown ttl_for m key b.shown).0;
  ranged = λ k. elim (rebirth_cases ttl_for m key) [
    | inl same ↦ rw same (b.ranged k)
    | inr done ↦ rw done (reset-ranged ttl_for m key b k)
  ];
}
