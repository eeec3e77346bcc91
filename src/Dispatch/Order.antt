-- ===== src/Dispatch/Order.antt =====
-- Which handlers of internal/event/event.go hear an event, and in which order.
use annoybots.Base.{◌≡◌, refl, ap, ◌∙◌, [], ◌∷◌, ◌++◌, List, if◌then◌else◌, Bool-cases, inl, inr}
use annoybots.Dispatch.{
  Handler, Dispatcher, Kind, Event, same_kind, subscribe, new_dispatcher, run_all, emit,
}

module _ {S : Type 0} where
  -- Subscriptions, one after the other.
  abbrev pub subscribe_all : Dispatcher S → List (Kind × Handler S) → Dispatcher S
  subscribe_all d [] = d
  subscribe_all d ((k, h) ∷ rest) = subscribe_all (subscribe d k h) rest

  -- What an event does by the subscriptions themselves: in their order, each of its kind once.
  abbrev pub heard : List (Kind × Handler S) → Event → S → S
  heard [] e s = s
  heard ((k, h) ∷ rest) e s = heard rest e (if same_kind k e.kind then h e s else s)

  run_all-append :
      (hs : List (Handler S)) (h : Handler S) (e : Event) (s : S)
      → run_all (hs ++ h ∷ []) e s ≡ h e (run_all hs e s)
  unfolding run_all
  run_all-append [] h e s = refl
  run_all-append (x ∷ hs) h e s = run_all-append hs h e (x e s)

  emit-subscribe :
      (d : Dispatcher S) (k : Kind) (h : Handler S) (e : Event) (s : S)
      → emit (subscribe d k h) e s ≡ (if same_kind k e.kind then h e (emit d e s) else emit d e s)
  unfolding emit subscribe
  emit-subscribe d k h e s = elim (Bool-cases (same_kind k e.kind)) [
    | inl mine ↦ rw mine (run_all-append (d e.kind) h e s)
    | inr other ↦ rw other refl
  ]

  after-subscribe_all :
      (subs : List (Kind × Handler S)) (d : Dispatcher S) (e : Event) (s : S)
      → emit (subscribe_all d subs) e s ≡ heard subs e (emit d e s)
  after-subscribe_all [] d e s = refl
  after-subscribe_all ((k, h) ∷ rest) d e s =
      after-subscribe_all rest (subscribe d k h) e s ∙ ap (heard rest e) (emit-subscribe d k h e s)

  -- After any subscriptions, an event runs exactly the handlers that were subscribed to its kind, each
  -- as often as it was subscribed, in the order of their subscription.
  pub emit-subscribe_all :
      (subs : List (Kind × Handler S)) (e : Event) (s : S)
      → emit (subscribe_all new_dispatcher subs) e s ≡ heard subs e s
  unfolding emit new_dispatcher run_all
  emit-subscribe_all subs e s = after-subscribe_all subs new_dispatcher e s
