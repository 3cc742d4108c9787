-- ===== src/Subscription/Acknowledge.antt =====
-- core/src/transport/subscription.rs: the life of one subscription in the router, from the acknowledgment
-- of its request to the end of its route.
use redsuite.Prelude.{
  List, [], ◌∷◌, ◌∙◌, ℕ, ◌+◌, ◌≡◌, ◌≢◌, refl, ap, subst, sym, Option, none, some, String, ok, arith,
  get, remove, get-remove_other, get-insert_other, get-remove, get-insert,
}
use redsuite.Socket.{reply, notification, Dispatched}
use redsuite.Subscription.{
  SubscriptionState, subscribe, Router, ControlFlow, go_on, break_off, settle, acknowledge,
  notify_waiters, after_callback, route, dispatch,
}

-- The route that an answer of the callback leaves.
abbrev pub kept_route : {K : Type 0} → ControlFlow → K → Option K
kept_route go_on key = some key
kept_route break_off key = none

module _ {S K : Type 0} (hooks : SubscriptionState S) (parse_id : String → Option ℕ)
    (on_notification : S → K → String → S × ControlFlow) where
  -- A router after the acknowledgment of request `id` for `key` as `subscription`.
  pub record Routed (r : Router S K) (id : ℕ) (key : K) (subscription : ℕ)
      (d : Dispatched (Router S K)) : Type 0 where
    pub goes_on : d.1 ≡ ok tt
    pub told : d.0.state ≡ hooks.on_subscribed r.state (r.subscribed + 1)
    pub counted : d.0.subscribed ≡ r.subscribed + 1
    pub answered : get id d.0.requests ≡ none
    pub others_pending : (j : ℕ) → id ≢ j → get j d.0.requests ≡ get j r.requests
    pub routed : get subscription d.0.subscriptions ≡ some key
    pub others_routed : (j : ℕ) → subscription ≢ j → get j d.0.subscriptions ≡ get j r.subscriptions

  acknowledge-Routed :
      (id : ℕ) (key : K) (subscription : ℕ) (r : Router S K)
      → Routed r id key subscription (
          acknowledge hooks parse_id on_notification
            (some subscription)
            key
            (record r { last_reply = some id; requests = remove id r.requests }))
  unfolding acknowledge notify_waiters
  acknowledge-Routed id key subscription r = record {
    goes_on = refl;
    told = refl;
    counted = refl;
    answered = ground (arith, get-remove id id r.requests);
    others_pending = λ j. get-remove_other id j r.requests;
    routed = ground (arith, get-insert subscription subscription key r.subscriptions);
    others_routed = λ j. get-insert_other subscription j key r.subscriptions;
  }

  -- A reply that acknowledges a pending request for a key, with a readable number, ends that request
  -- and routes the subscription to the key: the hook is told the new count, the reader goes on, and
  -- the other pending requests and the other routes stay.
  dispatch-Routed :
      (id : ℕ) (key : K) (raw : String) (subscription : ℕ) (r : Router S K)
      → get id r.requests ≡ some (subscribe key)
      → parse_id raw ≡ some subscription
      → Routed r id key subscription (dispatch hooks parse_id on_notification (reply id (ok raw)) r)
  unfolding dispatch settle
  dispatch-Routed id key raw subscription r pending readable =
      let r' = record r { last_reply = some id; requests = remove id r.requests } in
      subst
        (λ o. Routed r id key subscription (settle hooks parse_id on_notification o (ok raw) r'))
        (sym pending)
        (subst
          (λ o. Routed r id key subscription (acknowledge hooks parse_id on_notification o key r'))
          (sym readable) (acknowledge-Routed id key subscription r))

  -- Notifications for one subscription, dispatched in turn.
  unfoldable pub notify_all : String → ℕ → List String → Router S K → Router S K
  unfolding dispatch
  notify_all method subscription [] r = r
  notify_all method subscription (payload ∷ payloads) r =
      notify_all method subscription payloads
        (dispatch hooks parse_id on_notification
          (notification method (record { subscription = subscription; result = payload })) r).0

  abbrev unless_over : S × ControlFlow → (S → S × ControlFlow) → S × ControlFlow
  unless_over (s, go_on) next = next s
  unless_over (s, break_off) next = (s, break_off)

  -- What the callback makes of the payloads for a key, up to the one at which it breaks off.
  unfoldable pub until_break : K → List String → S → S × ControlFlow
  until_break key [] s = (s, go_on)
  until_break key (payload ∷ payloads) s =
      unless_over (on_notification s key payload) (until_break key payloads)

  -- A router whose subscription has been told some payloads, with the state and the answer that they leave.
  pub record Told (r : Router S K) (key : K) (subscription : ℕ) (left : S × ControlFlow)
      (r' : Router S K) : Type 0 where
    pub state : r'.state ≡ left.0
    pub route_left : get subscription r'.subscriptions ≡ kept_route left.1 key
    pub others_routed : (j : ℕ) → subscription ≢ j → get j r'.subscriptions ≡ get j r.subscriptions
    pub pending_left : r'.requests ≡ r.requests

  -- A router after the acknowledgment of a request and some notifications.
  pub record Life (r : Router S K) (id : ℕ) (key : K) (subscription : ℕ) (left : S × ControlFlow)
      (r' : Router S K) : Type 0 where
    pub state : r'.state ≡ left.0
    pub route_left : get subscription r'.subscriptions ≡ kept_route left.1 key
    pub answered : get id r'.requests ≡ none
    pub others_pending : (j : ℕ) → id ≢ j → get j r'.requests ≡ get j r.requests
    pub others_routed : (j : ℕ) → subscription ≢ j → get j r'.subscriptions ≡ get j r.subscriptions

  notify_all-unrouted :
      (method : String) (subscription : ℕ) (payloads : List String) (r : Router S K)
      → get subscription r.subscriptions ≡ none
      → notify_all method subscription payloads r ≡ r
  unfolding notify_all route
  notify_all-unrouted method subscription [] r gone = refl
  notify_all-unrouted method subscription (payload ∷ payloads) r gone =
      rw gone (notify_all-unrouted method subscription payloads r gone)

  after_callback-Told :
      (method : String) (key : K) (subscription : ℕ) (payloads : List String) (r : Router S K)
      (answer : S × ControlFlow)
      → get subscription r.subscriptions ≡ some key
      → ((t : Router S K)
          → get subscription t.subscriptions ≡ some key
          → Told t key subscription
              (until_break key payloads t.state)
              (notify_all method subscription payloads t))
      → Told r key subscription (unless_over answer (until_break key payloads)) (
          notify_all method subscription payloads
            (notify_waiters (after_callback hooks parse_id on_notification subscription answer r)))
  unfolding after_callback notify_waiters
  after_callback-Told method key subscription payloads r (s, go_on) routed rest =
      let told = rest (record r { state = s; changed = r.changed + 1 }) routed in
      record {
        state = told.state;
        route_left = told.route_left;
        others_routed = told.others_routed;
        pending_left = told.pending_left;
      }
  after_callback-Told method key subscription payloads r (s, break_off) routed rest =
      let r' : Router S K = record r {
        state = s;
        subscriptions = remove subscription r.subscriptions;
        changed = r.changed + 1;
      } in
      let gone : get subscription r'.subscriptions ≡ none =
        ground (arith, get-remove subscription subscription r.subscriptions) in
      subst (Told r key subscription (s, break_off))
        (sym (notify_all-unrouted method subscription payloads r' gone))
        (record {
          state = refl;
          route_left = gone;
          others_routed = λ j. get-remove_other subscription j r.subscriptions;
          pending_left = refl;
        })

  notify_all-Told :
      (method : String) (key : K) (subscription : ℕ) (payloads : List String) (r : Router S K)
      → get subscription r.subscriptions ≡ some key
      → Told r key subscription
          (until_break key payloads r.state)
          (notify_all method subscription payloads r)
  unfolding notify_all until_break route
  notify_all-Told method key subscription [] r routed = record {
    state = refl;
    route_left = routed;
    others_routed = λ j apart. refl;
    pending_left = refl;
  }
  notify_all-Told method key subscription (payload ∷ payloads) r routed = rw routed (
      after_callback-Told method key subscription payloads r (on_notification r.state key payload)
        routed (λ t. notify_all-Told method key subscription payloads t))

  -- The life of a subscription, of which a reply to a pending request for a key tells the number. The hook is told
  -- the count of subscriptions. Of the notifications that follow for it, the callback is given for the key,
  -- in their order, those up to the one at which it breaks off, and no later one; the route is left exactly
  -- when it has not broken off. The request is answered, and the other requests and routes stay.
  pub reply-Life :
      (method : String) (id : ℕ) (key : K) (raw : String) (subscription : ℕ)
      (payloads : List String) (r : Router S K)
      → get id r.requests ≡ some (subscribe key)
      → parse_id raw ≡ some subscription
      → Life r id key subscription
          (until_break key payloads (hooks.on_subscribed r.state (r.subscribed + 1)))
          (notify_all method subscription payloads
            (dispatch hooks parse_id on_notification (reply id (ok raw)) r).0)
  reply-Life method id key raw subscription payloads r pending readable =
      let d = dispatch-Routed id key raw subscription r pending readable in
      let acknowledged = (dispatch hooks parse_id on_notification (reply id (ok raw)) r).0 in
      let told = notify_all-Told method key subscription payloads acknowledged d.routed in
      record {
        state = told.state ∙ ap (λ s. (until_break key payloads s).0) d.told;
        route_left =
            told.route_left ∙ ap (λ s. kept_route (until_break key payloads s).1 key) d.told;
        answered = ap (get id) told.pending_left ∙ d.answered;
        others_pending = λ j apart. ap (get j) told.pending_left ∙ d.others_pending j apart;
        others_routed = λ j apart. told.others_routed j apart ∙ d.others_routed j apart;
      }
