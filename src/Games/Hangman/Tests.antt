-- ===== src/Games/Hangman/Tests.antt =====
-- A game of hangman, and the theorems at concrete inputs.
use annoybots.Base.{
  All, false, ◌+◌, ◌≤◌, ◌<◌, ◌≡◌, ◌≢◌, refl, [], ◌∷◌, List, Option, none, some, Text, arith, codes,
  lookup, length, text_eq,
}
use annoybots.Games.Hangman.{
  Game, Board, hangman_lives, solved, start_hangman, guess, called, finished, chan_key,
}
use annoybots.Games.Hangman.Lives.{AllOpen, IsWrong, wrong_words, wrong_words-lives}

abbrev here : Text
here = codes "libera|#bots"

abbrev word : Text
word = codes "markov"

abbrev game : Game
game = record { word = word; got = []; missed = [] }

abbrev board : Board
board = (here, game) ∷ []

called_run : (guess board here (codes " MARKOV ")).1 ≡ called word
unfolding annoybots.Base.is_space annoybots.Base.lower_byte annoybots.Base.to_lower
    annoybots.Base.trim_left annoybots.Base.trim_space annoybots.Games.Hangman.attempt_in
    annoybots.Games.Hangman.guess_word guess lookup text_eq
called_run = refl

last_letter_run :
    (guess ((here, record game { got = codes "marko" }) ∷ []) here (codes "V")).1 ≡ finished word
unfolding annoybots.Base.is_space annoybots.Base.lower_byte annoybots.Base.to_lower
    annoybots.Base.trim_left annoybots.Base.trim_space annoybots.Games.Hangman.all_found
    annoybots.Games.Hangman.attempt_in annoybots.Games.Hangman.contains_rune
    annoybots.Games.Hangman.guess_letter guess lookup solved text_eq
last_letter_run = refl

game_there : lookup here board ≡ some game
unfolding lookup text_eq
game_there = refl

no_games : AllOpen []
unfolding lookup
no_games k g e = ground (arith, e)

not_empty : word ≢ []
not_empty e = ground (arith, e)

abbrev tries : List Text
tries = codes "botnet" ∷ (codes "eggdrop" ∷ [])

botnet_is_wrong : text_eq (codes "botnet") word ≡ false
unfolding text_eq
botnet_is_wrong = refl

two-IsWrong : All (IsWrong word) tries
unfolding annoybots.Base.is_space annoybots.Base.lower_byte annoybots.Base.to_lower
    annoybots.Base.trim_left annoybots.Base.trim_space text_eq
two-IsWrong = ((omega arith, refl), ((omega arith, refl), tt))

wrong_words-lives_example :
    (length game.missed + length tries < hangman_lives
      → (h : Game) × (lookup here (wrong_words board here tries) ≡ some h)
        × (length h.missed ≡ length game.missed + length tries)
        × (h.got ≡ game.got)
        × (h.word ≡ game.word))
    × (length game.missed < hangman_lives
        → length game.missed + length tries ≡ hangman_lives
        → lookup here (wrong_words board here tries) ≡ none)
wrong_words-lives_example = wrong_words-lives board here game tries game_there two-IsWrong
