-- ===== src/IdleRpg/Quest/Samples.antt =====
-- A codec for quests that round-trips, for the runs in the tests.
use annoybots.Base.{ℕ, zero, suc, false, ◌≡◌, ◌∙◌, refl, [], ◌∷◌, Option, none, some, Text, text_eq}
use annoybots.Base.Int.{ℤ}
use annoybots.IdleRpg.Samples.{
  code_int, code_text, read_int, read_text, read_int-code, read_text-code,
}
use annoybots.IdleRpg.Guild.Samples.{code_list, read_list, read_each-code}
use annoybots.IdleRpg.Quest.{QuestKind, time_quest, map_quest, hunt_quest, Quest, QuestCodec}

abbrev code_kind : QuestKind → Text → Text
code_kind time_quest t = 0 ∷ t
code_kind map_quest t = 1 ∷ t
code_kind hunt_quest t = 2 ∷ t

abbrev read_kind : (QuestKind → Text → Option Quest) → Text → Option Quest
read_kind k [] = none
read_kind k (zero ∷ s) = k time_quest s
read_kind k (suc zero ∷ s) = k map_quest s
read_kind k (suc (suc n) ∷ s) = k hunt_quest s

read_kind-code :
    (k : QuestKind → Text → Option Quest) (x : QuestKind) (t : Text)
    → read_kind k (code_kind x t) ≡ k x t
read_kind-code k time_quest t = refl
read_kind-code k map_quest t = refl
read_kind-code k hunt_quest t = refl

abbrev code_nick : Text × Text → Text → Text
code_nick (key, nick) t = code_text key (code_text nick t)

abbrev read_nick : (Text × Text → Text → Option Quest) → Text → Option Quest
read_nick k = read_text (λ key. read_text (λ nick. k (key, nick)))

read_nick-code :
    (k : Text × Text → Text → Option Quest) (x : Text × Text) (t : Text)
    → read_nick k (code_nick x t) ≡ k x t
read_nick-code k (key, nick) t =
    read_text-code (λ a. read_text (λ b. k (a, b))) key (code_text nick t)
    ∙ read_text-code (λ b. k (key, b)) nick t

abbrev code_pair : ℤ × ℤ → Text → Text
code_pair (x, y) t = code_int x (code_int y t)

abbrev read_pair : (ℤ × ℤ → Text → Option Quest) → Text → Option Quest
read_pair k = read_int (λ x. read_int (λ y. k (x, y)))

read_pair-code :
    (k : ℤ × ℤ → Text → Option Quest) (p : ℤ × ℤ) (t : Text) → read_pair k (code_pair p t) ≡ k p t
read_pair-code k (x, y) t =
    read_int-code (λ a. read_int (λ b. k (a, b))) x (code_int y t)
    ∙ read_int-code (λ b. k (x, b)) y t

abbrev read_num : (ℕ → Text → Option Quest) → Text → Option Quest
read_num k [] = none
read_num k (n ∷ s) = k n s

abbrev pub code_quest : Quest → Text
code_quest q = code_kind q.kind (
    code_text q.network (
      code_text q.channel (
        code_int q.deadline (
          code_list code_nick q.members (
            q.desc
            ∷ code_pair q.at (
                code_pair q.first
                  (code_pair q.second (q.stage ∷ code_int q.target (code_int q.progress [])))))))))

abbrev pub read_quest : Text → Option Quest
read_quest = read_kind (λ kind. read_text (λ network. read_text (λ channel. read_int (λ deadline.
    read_list read_nick (λ members. read_num (λ desc. read_pair (λ at. read_pair (λ first.
      read_pair (λ second. read_num (λ stage. read_int (λ target. read_int (λ progress rest.
        some (record {
          kind = kind;
          network = network;
          channel = channel;
          deadline = deadline;
          members = members;
          desc = desc;
          at = at;
          first = first;
          second = second;
          stage = stage;
          target = target;
          progress = progress;
        })))))))))))))

pub read_quest-code : (q : Quest) → read_quest (code_quest q) ≡ some q
read_quest-code q =
    rw
      (
        read_kind-code _ q.kind _,
        read_text-code _ q.network _,
        read_text-code _ q.channel _,
        read_int-code _ q.deadline _,
        read_each-code code_nick read_nick read_nick-code _ q.members _,
        read_pair-code _ q.at _,
        read_pair-code _ q.first _,
        read_pair-code _ q.second _,
        read_int-code _ q.target _,
      )
      (read_int-code (λ n rest. some (record q { progress = n })) q.progress [])

pub some_bytes : (q : Quest) → text_eq (0 ∷ code_quest q) [] ≡ false
unfolding text_eq
some_bytes q = refl

abbrev pub plain_quest : QuestCodec
plain_quest = record {
  encode = λ q. 0 ∷ code_quest q;
  decode = λ s. elim s [ [] ↦ none | (n ∷ t) ↦ read_quest t ];
  decode-encode = read_quest-code;
  encode-ne-nil = some_bytes;
}
