-- ===== src/Games/Hangman/Lives.antt =====
-- The games on a board of internal/games/hangman.go, and the lives of a game.
use annoybots.Base.{
  ℕ, suc, ◌+◌, ◌≤◌, ◌<◌, false, ◌||◌, ◌≡◌, ◌≢◌, sym, ap, ◌∙◌, refl, inl, inr, ◌⊎◌, [], ◌∷◌, ◌++◌,
  List, none, some, Text, arith, lookup, insert, delete, lookup-insert, lookup-delete, text_eq,
  text_eq_refl, to_lower, trim_space, length, length-append, leb, if◌then◌else◌, Option-cases,
  Bool-cases, All,
}
use annoybots.Games.Hangman.{
  hangman_lives, Game, Board, contains_rune, all_found, solved, start_hangman, miss, guess_letter,
  guess_word, attempt_in, guess,
}

-- Lives are left and letters are missing.
pub record IsOpen (g : Game) : Type 0 where
  pub alive : length g.missed < hangman_lives
  pub hidden : solved g ≡ false

abbrev pub AllOpen : Board → Type 0
AllOpen board = (k : Text) (g : Game) → lookup k board ≡ some g → IsOpen g

IsOpen-after :
    (board after : Board) (key k : Text) (g h : Game)
    → AllOpen board
    → IsOpen h
    → (lookup k after ≡ lookup k board) ⊎ (lookup k after ≡ none) ⊎ (lookup k after ≡ some h)
    → lookup k after ≡ some g
    → IsOpen g
IsOpen-after board after key k g h v o (inl e) f = v k g (sym e ∙ f)
IsOpen-after board after key k g h v o (inr (inl e)) f = ground (arith, e, f)
IsOpen-after board after key k g h v o (inr (inr e)) f =
    let same : h ≡ g = ground (arith, e, f) in
    record { alive = ground (arith, o.alive, same); hidden = ap solved (sym same) ∙ o.hidden }

AllOpen-delete : (board : Board) (key : Text) → AllOpen board → AllOpen (delete key board)
AllOpen-delete board key v k g f = open_from (lookup-delete key k board)
  where
    open_from :
        lookup k (delete key board) ≡ (if text_eq key k then none else lookup k board) → IsOpen g
    open_from e = v k g (ground (arith, e, f))

AllOpen-insert :
    (board : Board) (key : Text) (h : Game)
    → AllOpen board
    → IsOpen h
    → AllOpen (insert key h board)
AllOpen-insert board key h v o k g f =
    IsOpen-after board (insert key h board) key k g h v o
      (ground (arith, lookup-insert key k h board)) f

miss-AllOpen :
    (board : Board) (key : Text) (g : Game) (r : ℕ)
    → AllOpen board
    → IsOpen g
    → AllOpen (miss board key g r).0
unfolding miss solved
miss-AllOpen board key g r v o =
    let h : Game = record g { missed = g.missed ++ r ∷ [] } in
    elim (Bool-cases (leb hangman_lives (length h.missed))) [
      | inl e ↦ rw e (AllOpen-delete board key v)
      | inr e ↦
          rw e
            (AllOpen-insert board key h v (record { alive = ground (arith, e); hidden = o.hidden }))
    ]

guess_letter-AllOpen :
    (board : Board) (key : Text) (g : Game) (r : ℕ)
    → AllOpen board
    → IsOpen g
    → AllOpen (guess_letter board key g r).0
unfolding guess_letter
guess_letter-AllOpen board key g r v o =
    let h : Game = record g { got = r ∷ g.got } in
    elim (Bool-cases (contains_rune g.got r || contains_rune g.missed r)) [
      | inl a ↦ rw a v
      | inr a ↦ elim (Bool-cases (contains_rune g.word r)) [
        | inr b ↦ rw (a, b) (miss-AllOpen board key g r v o)
        | inl b ↦ elim (Bool-cases (solved h)) [
          | inl c ↦ rw (a, b, c) (AllOpen-delete board key v)
          | inr c ↦
              rw (a, b, c) (AllOpen-insert board key h v (record { alive = o.alive; hidden = c }))
        ]
      ]
    ]

attempt_in-AllOpen :
    (board : Board) (key : Text) (g : Game) (attempt : Text)
    → AllOpen board
    → IsOpen g
    → AllOpen (attempt_in board key g attempt).0
unfolding attempt_in guess_word
attempt_in-AllOpen board key g [] v o = v
attempt_in-AllOpen board key g (r ∷ []) v o = guess_letter-AllOpen board key g r v o
attempt_in-AllOpen board key g (r ∷ (s ∷ rest)) v o =
    elim (Bool-cases (text_eq (r ∷ (s ∷ rest)) g.word)) [
      | inl e ↦ rw e (AllOpen-delete board key v)
      | inr e ↦ rw e (miss-AllOpen board key g b'?' v o)
    ]

fresh-IsOpen : (word : Text) → word ≢ [] → IsOpen (record { word = word; got = []; missed = [] })
unfolding solved all_found contains_rune
fresh-IsOpen [] n = ground (arith, n refl)
fresh-IsOpen (r ∷ word) n = record { alive = omega arith; hidden = refl }

start_hangman-AllOpen :
    (board : Board) (key word : Text)
    → AllOpen board
    → word ≢ []
    → AllOpen (start_hangman board key word).0
unfolding start_hangman
start_hangman-AllOpen board key word v n = elim (Option-cases (lookup key board)) [
  | inl e ↦
      (rw (start_hangman, e)
        (AllOpen-insert board key (record { word = word; got = []; missed = [] }) v
          (fresh-IsOpen word n)))
  | inr (g, e) ↦ rw (start_hangman, e) v
]

guess-AllOpen : (board : Board) (key raw : Text) → AllOpen board → AllOpen (guess board key raw).0
unfolding guess
guess-AllOpen board key raw v = elim (Bool-cases (text_eq (to_lower (trim_space raw)) [])) [
  | inl a ↦ rw (guess, a) v
  | inr a ↦ elim (Option-cases (lookup key board)) [
    | inl e ↦ rw (guess, a, e) v
    | inr (g, e) ↦
        rw (guess, a, e) (attempt_in-AllOpen board key g (to_lower (trim_space raw)) v (v key g e))
  ]
]

-- A start with a word that is not empty, and any attempt, leave on the board only games with a life
-- left and a letter to find, if there were only such games before.
pub hangman-AllOpen :
    (board : Board) (key word raw : Text)
    → AllOpen board
    → word ≢ []
    → AllOpen (start_hangman board key word).0 × AllOpen (guess board key raw).0
hangman-AllOpen board key word raw v n =
    (start_hangman-AllOpen board key word v n, guess-AllOpen board key raw v)

-- Wrong words, one after the other, in one channel.
unfoldable pub wrong_words : Board → Text → List Text → Board
wrong_words board key [] = board
wrong_words board key (attempt ∷ more) = wrong_words (guess board key attempt).0 key more

-- A guess of a whole word that is not the word of the game.
abbrev pub IsWrong : Text → Text → Type 0
IsWrong word raw =
    let attempt = to_lower (trim_space raw) in (2 ≤ length attempt) × (text_eq attempt word ≡ false)

abbrev one_wrong : Game → Game
one_wrong g = record g { missed = g.missed ++ b'?' ∷ [] }

attempt_in-long :
    (board : Board) (key : Text) (g : Game) (attempt : Text)
    → 2 ≤ length attempt
    → attempt_in board key g attempt ≡ guess_word board key g attempt
unfolding attempt_in
attempt_in-long board key g [] l = ground arith
attempt_in-long board key g (r ∷ []) l = ground arith
attempt_in-long board key g (r ∷ (s ∷ rest)) l = refl

long_text : (s : Text) → 2 ≤ length s → text_eq s [] ≡ false
unfolding text_eq
long_text [] l = ground arith
long_text (r ∷ s) l = refl

wrong_guess_lem :
    (board : Board) (key : Text) (g : Game) (raw : Text)
    → lookup key board ≡ some g
    → IsWrong g.word raw
    → (guess board key raw).0 ≡ (
        if leb hangman_lives (length (one_wrong g).missed)
        then delete key board
        else insert key (one_wrong g) board)
unfolding guess guess_word miss
wrong_guess_lem board key g raw e w =
    let attempt = to_lower (trim_space raw) in
    ground (arith, e, w.0, w.1, long_text attempt w.0, attempt_in-long board key g attempt w.0)

after_wrong :
    (board : Board) (key : Text) (g : Game) (raw : Text)
    → lookup key board ≡ some g
    → IsWrong g.word raw
    → lookup key (guess board key raw).0
      ≡ (if leb hangman_lives (suc (length g.missed)) then none else some (one_wrong g))
after_wrong board key g raw e w = ground (
  arith,
  wrong_guess_lem board key g raw e w,
  length-append g.missed (b'?' ∷ []),
  text_eq_refl key,
  lookup-delete key key board,
  lookup-insert key key (one_wrong g) board,
)

wrong_words_go_on :
    (board : Board) (key : Text) (g : Game) (ws : List Text)
    → lookup key board ≡ some g
    → All (IsWrong g.word) ws
    → length g.missed + length ws < hangman_lives
    → (h : Game) × (lookup key (wrong_words board key ws) ≡ some h)
      × (length h.missed ≡ length g.missed + length ws)
      × (h.got ≡ g.got)
      × (h.word ≡ g.word)
unfolding wrong_words
wrong_words_go_on board key g [] e w l = (g, e, omega arith, refl, refl)
wrong_words_go_on board key g (raw ∷ ws) e w l =
    let left = length-append g.missed (b'?' ∷ []) in
    let step = after_wrong board key g raw e w.0 in
    let (h, at, count, got, word) =
      wrong_words_go_on (guess board key raw).0 key (one_wrong g) ws (step ∙ ground (arith, l)) w.1
        (omega (arith, l, left)) in
    (h, at, omega (arith, count, left), got, word)

wrong_words_end :
    (board : Board) (key : Text) (g : Game) (ws : List Text)
    → lookup key board ≡ some g
    → All (IsWrong g.word) ws
    → length g.missed < hangman_lives
    → length g.missed + length ws ≡ hangman_lives
    → lookup key (wrong_words board key ws) ≡ none
unfolding wrong_words
wrong_words_end board key g [] e w a l = ground (arith, a, l)
wrong_words_end board key g (raw ∷ []) e w a l =
    after_wrong board key g raw e w.0 ∙ ground (arith, l)
wrong_words_end board key g (raw ∷ (next ∷ ws)) e w a l =
    let left = length-append g.missed (b'?' ∷ []) in
    wrong_words_end (guess board key raw).0 key (one_wrong g) (next ∷ ws)
      (after_wrong board key g raw e w.0 ∙ ground (arith, l)) w.1 (omega (arith, l, left))
      (omega (arith, l, left))

-- In an open game every wrong word costs a life and nothing else: with lives left over the game goes
-- on with the same letters found, and the word that costs the last life ends it.
pub wrong_words-lives :
    (board : Board) (key : Text) (g : Game) (ws : List Text)
    → lookup key board ≡ some g
    → All (IsWrong g.word) ws
    → (length g.missed + length ws < hangman_lives
        → (h : Game) × (lookup key (wrong_words board key ws) ≡ some h)
          × (length h.missed ≡ length g.missed + length ws)
          × (h.got ≡ g.got)
          × (h.word ≡ g.word))
      × (length g.missed < hangman_lives
          → length g.missed + length ws ≡ hangman_lives
          → lookup key (wrong_words board key ws) ≡ none)
wrong_words-lives board key g ws e w =
    (λ l. wrong_words_go_on board key g ws e w l, λ a l. wrong_words_end board key g ws e w a l)
