-- ===== src/Admin/Tests.antt =====
-- Runs of the console's code, and its theorems at concrete inputs.
use annoybots.Base.{
  ℕ, true, false, ◌≡◌, refl, ◌↔◌, ◌≢◌, [], ◌∷◌, none, some, Text, arith, codes, lookup, text_eq,
  trim_space, trim_left, is_space, if◌then◌else◌,
}
use annoybots.Admin.Hostmask.{scan, rounds, wildcard, fits, only_stars, backtrack}
use annoybots.Admin.Hostmask.Pattern.{Matches}
use annoybots.Admin.Hostmask.Correct.{wildcard-Matches}
use annoybots.Admin.Hostmask.Ends.{scan-rounds, wildcard-literal_star}
use annoybots.Admin.Flags.{
  flag_owner, flag_friend, Message, Identity, Console, key, has_flag, flag_rank, index_byte,
  normalize_flags, normalize_loop, recent, throttled,
}
use annoybots.Admin.Flags.Normal.{IsNormal, normalize_flags_lem}
use annoybots.Admin.Console.{
  add_runtime, handle_login, handle_claim, claim_unavailable, tail_after_one, trim_blanks,
  from_blank, is_blank,
}
use annoybots.Admin.Console.Registry.{IsSynced}
use annoybots.Admin.Console.Login.{FailsBounded, attempt-FailsBounded, claim_once}

wildcard_run : wildcard (codes "*!*@*.net") (codes "bob!b@host.net") ≡ true
unfolding wildcard scan fits only_stars backtrack
wildcard_run = refl

wildcard-Matches_example :
    (wildcard (codes "*!?@*.net") (codes "bob!b@a.net") ≡ true)
    ↔ Matches (codes "*!?@*.net") (codes "bob!b@a.net")
wildcard-Matches_example = wildcard-Matches (codes "*!?@*.net") (codes "bob!b@a.net") (omega arith)

scan-rounds_example :
    scan (rounds (codes "*a*") (codes "**b")) (codes "*a*") (codes "**b") none ≢ none
scan-rounds_example = scan-rounds (codes "*a*") (codes "**b")

wildcard-literal_star_example :
    (wildcard (codes "*") (codes "*x!y@z") ≡ false) × Matches (codes "*") (codes "*x!y@z")
wildcard-literal_star_example = wildcard-literal_star b'x' (codes "!y@z")

normalize_flags_run : normalize_flags (codes "xomo") (codes "n") ≡ codes "om"
unfolding normalize_flags normalize_loop flag_rank index_byte
normalize_flags_run = refl

normalize_flags_lem_example :
    (has_flag (codes "xmm") flag_friend ≡ true
      → IsNormal (normalize_flags (codes "xmm") (codes "o"))
        × ((want : ℕ)
            → has_flag (normalize_flags (codes "xmm") (codes "o")) want
              ≡ has_flag (codes "xmm") want))
    × (has_flag (codes "xmm") flag_friend ≡ false
        → normalize_flags (codes "xmm") (codes "o") ≡ codes "o")
normalize_flags_lem_example = normalize_flags_lem (codes "xmm") (codes "o")

abbrev bob : Message
bob = record {
  network = codes "libera";
  nick = codes "bob";
  account = codes "Bob";
  ident = codes "b";
  host = codes "h.net";
}

abbrev fresh : Console
fresh = record {
  password = codes "pw";
  config_keys = [];
  config_masks = [];
  runtime = [];
  claim_code = codes "AB";
  admins = [];
  mask_admins = [];
  sessions = [];
  fails = [];
  ttl = 1800;
}

abbrev ann : Identity
ann = record { network = []; account = codes "ann"; flags = codes "m" }

fresh-IsSynced : IsSynced fresh
unfolding add_runtime
fresh-IsSynced = record { combined = refl; masks = refl; unclaimed = λ _. (refl, refl) }

fresh-FailsBounded : FailsBounded fresh
unfolding lookup
fresh-FailsBounded k = omega arith

attempt-FailsBounded_example :
    FailsBounded (handle_login fresh 3 bob (codes "!login no")).0
    × FailsBounded (handle_claim fresh 3 bob (codes "!login no")).0
attempt-FailsBounded_example =
    attempt-FailsBounded fresh 3 bob (codes "!login no") fresh-FailsBounded

abbrev guessed : Console
guessed = record fresh { fails = (codes "libera|bob", 1 ∷ 2 ∷ 3 ∷ 4 ∷ 5 ∷ []) ∷ [] }

claim_once_example :
    ((j : Text)
      → lookup j (handle_claim fresh 6 bob (codes "!claim AB")).0.admins
        ≡ (if text_eq (key (codes "libera") (codes "Bob")) j then some (flag_owner ∷ []) else none))
    × (handle_claim (handle_claim fresh 6 bob (codes "!claim AB")).0 7 bob (codes "!claim AB")
        ≡ ((handle_claim fresh 6 bob (codes "!claim AB")).0, claim_unavailable))
unfolding handle_claim text_eq throttled recent lookup tail_after_one trim_blanks from_blank
    trim_space trim_left is_space is_blank
claim_once_example =
    claim_once fresh 6 7 bob bob (codes "!claim AB") (codes "!claim AB") fresh-IsSynced refl
