-- ===== src/Events/Routes.antt =====
-- core/src/transport/events.rs with core/src/transport/subscription.rs: a key to which one subscription alone
-- is routed, and the notifications that the router dispatches.
use mathlib.Core.List.{append-nil}
use redsuite.Prelude.{
  ℕ, ◌≡◌, refl, ap, sym, ◌∙◌, subst, inl, inr, false, List, [], ◌∷◌, ◌++◌, Option, none, some,
  String, arith, eqb, eqb_iff, if◌then◌else◌, Bool-cases, get, get-remove,
}
use redsuite.Socket.{Notification}
use redsuite.Subscription.{
  Topic, Router, ControlFlow, go_on, break_off, notify_waiters, after_callback, route,
}
use redsuite.Events.{EventBuffer, Key, buffer_hooks, flow, store, observe}
use redsuite.Events.Queue.{get-push_back, get-push_back_other}

module _ {Value : Type 0} (parse_value : String → Option Value) where
  abbrev pub Wire : Type 0
  Wire = Router (EventBuffer Value) Key

  -- The subscription alone is routed to the key, whose queue is given.
  pub record Ready (subscription key : ℕ) (topic : Topic) (q : List Value) (r : Wire) : Type 0 where
    pub routed : get subscription r.subscriptions ≡ some (key, topic)
    pub alone : (j : ℕ) (t : Topic) → get j r.subscriptions ≡ some (key, t) → j ≡ subscription
    pub queue : get key r.state.by_key ≡ some q

module _ {Value : Type 0} (parse_id : String → Option ℕ) (parse_value : String → Option Value) where
  after_callback-Ready :
      (subscription key other : ℕ) (topic : Topic) (q : List Value) (b : EventBuffer Value)
      (answer : ControlFlow) (r : Wire parse_value)
      → eqb other subscription ≡ false
      → get key b.by_key ≡ some q
      → Ready parse_value subscription key topic q r
      → Ready parse_value subscription key topic q (
          notify_waiters
            (after_callback buffer_hooks parse_id (observe parse_value) other (b, answer) r))
  unfolding notify_waiters after_callback
  after_callback-Ready subscription key other topic q b go_on r apart at h = record {
    routed = h.routed;
    alone = h.alone;
    queue = at;
  }
  after_callback-Ready subscription key other topic q b break_off r apart at h = record {
    routed = ground (arith, get-remove subscription other r.subscriptions, h.routed);
    alone = λ j t e. h.alone j t (ground (arith, get-remove j other r.subscriptions));
    queue = at;
  }

  own-Ready :
      (subscription key : ℕ) (topic : Topic) (q : List Value) (v : Value) (answer : ControlFlow)
      (r : Wire parse_value)
      → answer ≡ go_on
      → Ready parse_value subscription key topic q r
      → Ready parse_value subscription key topic (q ++ v ∷ []) (
          notify_waiters (
            after_callback buffer_hooks parse_id
              (observe parse_value)
              subscription
              (store key (some v) r.state, answer)
              r))
  unfolding notify_waiters after_callback store
  own-Ready subscription key topic q v go_on r goes h = record {
    routed = h.routed;
    alone = h.alone;
    queue = get-push_back key v q r.state.by_key h.queue;
  }
  own-Ready subscription key topic q v break_off r goes h = absurd (cc)

  -- Another subscription is routed to another key.
  other_key :
      (subscription key other k : ℕ) (topic t : Topic) (q : List Value) (r : Wire parse_value)
      → eqb other subscription ≡ false
      → get other r.subscriptions ≡ some (k, t)
      → Ready parse_value subscription key topic q r
      → eqb k key ≡ false
  other_key subscription key other k topic t q r apart at h = elim (Bool-cases (eqb k key)) [
    | inr no_key ↦ no_key
    | inl same ↦
        let eq = (eqb_iff k key).0 same in
        let mine = h.alone other t (at ∙ ap (λ i. some (i, t)) eq) in absurd (ground (arith, mine))
  ]

  other-Ready :
      (subscription key other : ℕ) (topic : Topic) (q : List Value) (v : Value) (o : Option Key)
      (payload : String) (r : Wire parse_value)
      → parse_value payload ≡ some v
      → eqb other subscription ≡ false
      → get other r.subscriptions ≡ o
      → Ready parse_value subscription key topic q r
      → Ready parse_value subscription key topic q
          (route buffer_hooks parse_id (observe parse_value) o other payload r)
  unfolding route observe store
  other-Ready subscription key other topic q v none payload r read apart at h = h
  other-Ready subscription key other topic q v (some (k, t)) payload r read apart at h =
      let stored : get key (store k (parse_value payload) r.state).by_key ≡ some q =
        subst (λ p. get key (store k p r.state).by_key ≡ some q) (sym read)
          (get-push_back_other key k v r.state.by_key
              (other_key subscription key other k topic t q r apart at h)
            ∙ h.queue) in
      after_callback-Ready subscription key other topic q (store k (parse_value payload) r.state)
        (flow t) r apart stored h

  pub note-Ready :
      (subscription key : ℕ) (topic : Topic) (q : List Value) (v : Value) (params : Notification)
      (r : Wire parse_value)
      → flow topic ≡ go_on
      → parse_value params.result ≡ some v
      → Ready parse_value subscription key topic q r
      → Ready parse_value subscription key topic
          (q ++ (if eqb params.subscription subscription then v ∷ [] else []))
          (route buffer_hooks parse_id
            (observe parse_value)
            (get params.subscription r.subscriptions)
            params.subscription
            params.result
            r)
  unfolding route observe
  note-Ready subscription key topic q v params r goes read h =
      elim (Bool-cases (eqb params.subscription subscription)) [
        | inl same ↦
            rw (same, if◌then◌else◌)
              (subst
                (λ other. Ready parse_value subscription key topic (q ++ v ∷ []) (
                  route buffer_hooks parse_id (observe parse_value) (get other r.subscriptions)
                    other params.result r))
                (sym ((eqb_iff params.subscription subscription).0 same))
                (subst
                  (λ o. Ready parse_value subscription key topic (q ++ v ∷ []) (
                    route buffer_hooks parse_id (observe parse_value) o subscription params.result
                      r))
                  (sym h.routed)
                  (subst
                    (λ p. Ready parse_value subscription key topic (q ++ v ∷ []) (
                      notify_waiters (
                        after_callback buffer_hooks parse_id (observe parse_value) subscription
                          (store key p r.state, flow topic) r)))
                    (sym read) (own-Ready subscription key topic q v (flow topic) r goes h))))
        | inr apart ↦
            rw (apart, if◌then◌else◌, append-nil q)
              (other-Ready subscription key params.subscription topic q v
                (get params.subscription r.subscriptions) params.result r read apart refl h)
      ]
