-- ===== src/Netfault/Watching.antt =====
-- core/src/netfault/ws.rs: a subscription through the websocket relay, from its request to its
-- notifications.
mod Tests
use redsuite.Prelude.{
  ℕ, ◌≡◌, refl, sym, ap, ◌∙◌, subst, Bool, true, false, List, [], ◌∷◌, ◌++◌, Option, none, some,
  String, ◌==◌, string_eq, arith, if◌then◌else◌, Table, get, insert, remove, get-insert, eqb,
  eqb_iff,
}
use redsuite.Netfault.{Operation, ws, Stage, release}
use redsuite.Netfault.Rpc.{Json, id_of, subscription_of, request_of, notification_of}
use redsuite.Netfault.Relay.{
  WsRelay, ends_with, lookup, drop_key, remember, unsubscribes, text, answered, take_pending,
  open_route, close_route, reply_operation, operation_by, response_operation, request_decided,
  send_server,
}
use redsuite.Netfault as Netfault
use redsuite.Netfault.Relay as Relay

module _ (j : Json) where
  -- A request past its gate is pending under its id.
  released-pending :
      (o : Operation) (t : String) (request : j.Value) (r r' : WsRelay j) (id : String)
      → id_of j request ≡ some id
      → request_decided j release o t request r ≡ some r'
      → lookup id r'.pending ≡ some (o, unsubscribes j o request)
  unfolding request_decided remember lookup send_server
  released-pending o t request r r' id asked released =
      let sent : Option String → WsRelay j =
        λ i. send_server j (text t) (remember j i o request r) in
      let passed : some (sent (some id)) ≡ some r' =
        ap (λ i. some (sent i)) (sym asked) ∙ released in
      let same : sent (some id) ≡ r' = cc in
      subst (λ w. lookup id w.pending ≡ some (o, unsubscribes j o request)) same
        (rw ((string_eq.eq_iff id id).1 refl, if◌then◌else◌) refl)

  route-opened :
      (o : Operation) (n : ℕ) (routes : Table Operation)
      → ends_with o.method "Subscribe" ≡ true
      → get n (open_route j o (some n) routes) ≡ some o
  unfolding open_route
  route-opened o n routes subscribes =
      rw (subscribes, if◌then◌else◌, get-insert n n o routes, (eqb_iff n n).1 refl, if◌then◌else◌)
        refl

  -- A reply to a pending request opens the route of the subscription that it names.
  reply-routed :
      (o : Operation) (reply : j.Value) (r : WsRelay j) (id : String) (n : ℕ) (u : Option ℕ)
      → lookup id r.pending ≡ some (o, u)
      → ends_with o.method "Subscribe" ≡ true
      → subscription_of j reply ≡ none
      → id_of j reply ≡ some id
      → j.as_u64 (j.field "result" reply) ≡ some n
      → j.as_bool (j.field "result" reply) ≡ none
      → get n (response_operation j reply r).0.subscriptions ≡ some o
  unfolding response_operation operation_by reply_operation close_route take_pending answered
  reply-routed o reply r id n u pending subscribes plain same result number =
      rw (plain, operation_by, same, result, number, pending)
        (route-opened o n r.subscriptions subscribes)

  -- A subscription request that the gate releases, its reply and the notification that follows: the
  -- notification reaches its gate with the operation of that request, whatever else the relay keeps.
  pub subscription-notified :
      (o : Operation) (t : String) (request reply event : j.Value) (r r' : WsRelay j) (id : String)
      (n : ℕ)
      → ends_with o.method "Subscribe" ≡ true
      → id_of j request ≡ some id
      → request_decided j release o t request r ≡ some r'
      → subscription_of j reply ≡ none
      → id_of j reply ≡ some id
      → j.as_u64 (j.field "result" reply) ≡ some n
      → j.as_bool (j.field "result" reply) ≡ none
      → subscription_of j event ≡ some n
      → (response_operation j event (response_operation j reply r').0).1
        ≡ notification_of j event (some o)
  unfolding response_operation operation_by
  subscription-notified o t request reply event r r' id n subscribes asked released plain same
        result number routed =
      let found =
        reply-routed o reply r' id n (unsubscribes j o request)
          (released-pending o t request r r' id asked released) subscribes plain same result
          number in
      rw (routed, operation_by, found) refl
