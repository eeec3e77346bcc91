-- ===== src/Games.antt =====
-- internal/games: the channel games. Hangman is modelled.
pub mod Hangman
