-- ===== src/Dispatch/Tests.antt =====
-- Subscriptions and an event, on concrete inputs.
use annoybots.Base.{ℕ, ◌≡◌, refl, [], ◌∷◌, ◌++◌, List, codes}
use annoybots.Dispatch.{Kind, Event, join, part, subscribe, new_dispatcher, emit, split_user_host}
use annoybots.Dispatch.Order.{subscribe_all, heard, emit-subscribe_all}

abbrev arrival : Event
arrival = record {
  kind = join;
  network = codes "libera";
  channel = codes "#c";
  who = codes "ann";
  ident = [];
  host = [];
  account = [];
  actor = [];
  text = [];
}

-- Three handlers that write their numbers down.
abbrev writers : List (Kind × (Event → List ℕ → List ℕ))
writers = (join, λ e s. s ++ 1 ∷ []) ∷ (part, λ e s. s ++ 2 ∷ []) ∷ (join, λ e s. s ++ 3 ∷ []) ∷ []

order_run : emit (subscribe_all new_dispatcher writers) arrival [] ≡ 1 ∷ 3 ∷ []
unfolding annoybots.Dispatch.run_all annoybots.Dispatch.same_kind emit new_dispatcher subscribe
order_run = refl

split_run : split_user_host (codes "ann!~a@example.org") ≡ (codes "~a", codes "example.org")
unfolding annoybots.Dispatch.cut_at split_user_host
split_run = refl

emit-subscribe_all_example :
    emit (subscribe_all new_dispatcher writers) arrival [] ≡ heard writers arrival []
emit-subscribe_all_example = emit-subscribe_all writers arrival []
