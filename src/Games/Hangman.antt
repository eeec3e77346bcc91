-- ===== src/Games/Hangman.antt =====
-- internal/games/hangman.go: one game of hangman per channel. Words and attempts are ASCII, so runes
-- are bytes; the word drawn for a game is an argument. A reply is a constructor.
use annoybots.Base.{
  ℕ, zero, suc, ◌-◌, Bool, true, false, ◌&&◌, ◌||◌, [], ◌∷◌, ◌++◌, List, Option, none, some, Text,
  Map, lookup, insert, delete, text_eq, to_lower, trim_space, length, leb, ltb, ◌==◌, if◌then◌else◌,
}
pub mod Lives
mod Tests

abbrev pub hangman_lives : ℕ
hangman_lives = 6

pub record Game : Type 0 where
  pub word : Text
  pub got : List ℕ
  pub missed : List ℕ

abbrev pub Board : Type 0
Board = Map Game

unfoldable pub chan_key : Text → Text → Text
chan_key network channel = to_lower network ++ (b'|' ∷ to_lower channel)

unfoldable pub contains_rune : List ℕ → ℕ → Bool
contains_rune [] r = false
contains_rune (x ∷ rs) r = (x == r) || contains_rune rs r

-- The word as it is shown: a letter that has been found, or a blank.
unfoldable pub shown : List ℕ → Text → List (Option ℕ)
shown got [] = []
shown got (r ∷ word) = (if contains_rune got r then some r else none) ∷ shown got word

unfoldable pub all_found : List ℕ → Text → Bool
all_found got [] = true
all_found got (r ∷ word) = contains_rune got r && all_found got word

unfoldable pub solved : Game → Bool
solved g = all_found g.got g.word

pub data Reply : Type 0 where
  usage no_game already_running : Reply
  started tried found : List (Option ℕ) → Reply
  called finished lost : Text → Reply
  wrong_guess : List (Option ℕ) → ℕ → Reply

unfoldable pub render : Game → List (Option ℕ)
render g = shown g.got g.word

unfoldable pub start_hangman : Board → Text → Text → Board × Reply
start_hangman board key word = elim (lookup key board) [
  | some g ↦ (board, already_running)
  | none ↦
      let g : Game = record { word = word; got = []; missed = [] } in
      (insert key g board, started (render g))
]

-- A wrong guess, put down as r: a life is lost, and the game with the last one.
unfoldable pub miss : Board → Text → Game → ℕ → Board × Reply
miss board key g r =
    let h = record g { missed = g.missed ++ r ∷ [] } in
    if leb hangman_lives (length h.missed)
    then (delete key board, lost g.word)
    else (insert key h board, wrong_guess (render h) (hangman_lives - length h.missed))

unfoldable pub guess_letter : Board → Text → Game → ℕ → Board × Reply
guess_letter board key g r =
    if contains_rune g.got r || contains_rune g.missed r
    then (board, tried (render g))
    else if contains_rune g.word r
    then (let h = record g { got = r ∷ g.got } in
        if solved h
        then (delete key board, finished g.word)
        else (insert key h board, found (render h)))
    else miss board key g r

unfoldable pub guess_word : Board → Text → Game → Text → Board × Reply
guess_word board key g attempt =
    if text_eq attempt g.word then (delete key board, called g.word) else miss board key g b'?'

-- An attempt in a channel with a game.
unfoldable pub attempt_in : Board → Text → Game → Text → Board × Reply
attempt_in board key g [] = (board, usage)
attempt_in board key g (r ∷ []) = guess_letter board key g r
attempt_in board key g (r ∷ (s ∷ rest)) = guess_word board key g (r ∷ (s ∷ rest))

unfoldable pub guess : Board → Text → Text → Board × Reply
guess board key raw =
    let attempt = to_lower (trim_space raw) in
    if text_eq attempt [] then (board, usage) else elim (lookup key board) [
      | none ↦ (board, no_game)
      | some g ↦ attempt_in board key g attempt
    ]
