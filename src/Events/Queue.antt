-- ===== src/Events/Queue.antt =====
-- core/src/transport/events.rs: the queue of one key, through any order of notifications and pops for any keys, of
-- new subscriptions, and of the ends of others.
use redsuite.Prelude.{
  ℕ, ◌≡◌, refl, ap, sym, ◌∙◌, subst, inl, inr, false, List, [], ◌∷◌, ◌++◌, Option, none, some,
  String, Result, ok, err, arith, eqb, eqb_iff, if◌then◌else◌, Bool-cases, Table, get, ◌≢◌, ◌≤◌,
  ◌+◌, get-insert_other, get-remove_other,
}
use mathlib.Core.List.{append-nil, append_assoc}
use redsuite.Subscription.{Topic}
use redsuite.Events.{
  EventBuffer, EventError, push_back, pop_front, store, observe, intact, pop, pop_checked, decode,
  register, forget,
}

module _ {Value : Type 0} where
  abbrev rest_of : List Value → List Value
  rest_of [] = []
  rest_of (v ∷ q) = q

  abbrev first_of : List Value → Option Value
  first_of [] = none
  first_of (v ∷ q) = some v

  pub get-push_back :
      (key : ℕ) (v : Value) (q : List Value) (m : Table (List Value))
      → get key m ≡ some q
      → get key (push_back key v m) ≡ some (q ++ v ∷ [])
  unfolding get push_back
  get-push_back key v q [] e = absurd (cc)
  get-push_back key v q ((j, p) ∷ m) e = ground (arith, get-push_back key v q m)

  pub get-push_back_other :
      (key other : ℕ) (v : Value) (m : Table (List Value))
      → eqb other key ≡ false
      → get key (push_back other v m) ≡ get key m
  unfolding get push_back
  get-push_back_other key other v [] h = refl
  get-push_back_other key other v ((j, p) ∷ m) h =
      ground (arith, get-push_back_other key other v m h)

  pub get-pop_front :
      (key : ℕ) (q : List Value) (m : Table (List Value))
      → get key m ≡ some q
      → (get key (pop_front key m).0 ≡ some (rest_of q)) × ((pop_front key m).1 ≡ first_of q)
  unfolding get pop_front
  get-pop_front key q [] e = absurd (cc)
  get-pop_front key q ((j, []) ∷ m) e = ground (arith, get-pop_front key q m)
  get-pop_front key q ((j, v ∷ p) ∷ m) e = ground (arith, get-pop_front key q m)

  pub get-pop_front_other :
      (key other : ℕ) (m : Table (List Value))
      → eqb other key ≡ false
      → get key (pop_front other m).0 ≡ get key m
  unfolding get pop_front
  get-pop_front_other key other [] h = refl
  get-pop_front_other key other ((j, []) ∷ m) h = ground (arith, get-pop_front_other key other m h)
  get-pop_front_other key other ((j, v ∷ p) ∷ m) h =
      ground (arith, get-pop_front_other key other m h)

pub data Use : Type 0 where
  notifies : (key : ℕ) → Topic → (payload : String) → Use
  takes : (key : ℕ) → Use
  registers : Use
  forgets : (key : ℕ) → Use

module _ {Value : Type 0} (parse_value : String → Option Value) where
  abbrev taken :
      ℕ
      → Result EventError (Option Value)
      → EventBuffer Value × List (ℕ × Value)
      → EventBuffer Value × List (ℕ × Value)
  taken key (ok (some v)) (b, out) = (b, (key, v) ∷ out)
  taken key (ok none) (b, out) = (b, out)
  taken key (err why) (b, out) = (b, out)

  -- The buffer after some uses, and the values taken from it with their keys.
  unfoldable pub run : List Use → EventBuffer Value → EventBuffer Value × List (ℕ × Value)
  unfolding observe pop register forget
  run [] b = (b, [])
  run (notifies key topic payload ∷ uses) b =
      run uses (observe parse_value b (key, topic) payload).0
  run (takes key ∷ uses) b =
      let popped = pop (λ v. some v) key b in taken key popped.1 (run uses popped.0)
  run (registers ∷ uses) b = run uses (register b).0
  run (forgets key ∷ uses) b = run uses (forget key b)

  abbrev heard : ℕ → ℕ → Option Value → List Value → List Value
  heard key other none rest = rest
  heard key other (some v) rest = if eqb other key then v ∷ rest else rest

  -- The values that the uses notify for a key.
  unfoldable pub notified : ℕ → List Use → List Value
  notified key [] = []
  notified key (notifies other topic payload ∷ uses) =
      let rest = notified key uses in heard key other (parse_value payload) rest
  notified key (takes other ∷ uses) = notified key uses
  notified key (registers ∷ uses) = notified key uses
  notified key (forgets other ∷ uses) = notified key uses

  -- The values taken for a key.
  unfoldable pub taken_for : ℕ → List (ℕ × Value) → List Value
  taken_for key [] = []
  taken_for key ((other, v) ∷ out) =
      let rest = taken_for key out in if eqb other key then v ∷ rest else rest

  -- The subscription of the key is not dropped.
  abbrev pub Keeps : ℕ → List Use → Type 0
  Keeps key [] = Unit
  Keeps key (notifies other topic payload ∷ uses) = Keeps key uses
  Keeps key (takes other ∷ uses) = Keeps key uses
  Keeps key (registers ∷ uses) = Keeps key uses
  Keeps key (forgets other ∷ uses) = (other ≢ key) × Keeps key uses

  -- What the buffer and the values taken say about a key.
  abbrev pub InOrder : ℕ → List Value → EventBuffer Value × List (ℕ × Value) → Type 0
  InOrder key all (b, out) =
      (q : List Value) × (get key b.by_key ≡ some q) × (taken_for key out ++ q ≡ all)

  taken-InOrder :
      (key other : ℕ) (r : Option Value) (all : List Value)
      (after : EventBuffer Value × List (ℕ × Value))
      → eqb other key ≡ false
      → InOrder key all after
      → InOrder key all (taken other (decode (λ v. some v) r) after)
  unfolding decode taken_for
  taken-InOrder key other none all (b, out) h k = k
  taken-InOrder key other (some v) all (b, out) h k = rw (h, if◌then◌else◌) k

  taken_same-InOrder :
      (key : ℕ) (q : List Value) (more : List Value) (after : EventBuffer Value × List (ℕ × Value))
      → InOrder key (rest_of q ++ more) after
      → InOrder key (q ++ more) (taken key (decode (λ v. some v) (first_of q)) after)
  unfolding decode taken_for
  taken_same-InOrder key [] more (b, out) k = k
  taken_same-InOrder key (v ∷ q) more (b, out) (left, at, all) =
      (left, at, rw ((eqb_iff key key).1 refl, if◌then◌else◌) (ap (◌∷◌ v) all))

  taken_none-InOrder :
      (key other : ℕ) (why : EventError) (all : List Value)
      (after : EventBuffer Value × List (ℕ × Value))
      → InOrder key all after
      → InOrder key all (taken other (err why) after)
  taken_none-InOrder key other why all (b, out) k = k

  heard-append :
      (key other : ℕ) (o : Option Value) (q rest : List Value)
      → (q ++ heard key other o []) ++ rest ≡ q ++ heard key other o rest
  heard-append key other none q rest = ap (λ l. l ++ rest) (append-nil q)
  heard-append key other (some v) q rest = elim (Bool-cases (eqb other key)) [
    | inl same ↦ rw (same, if◌then◌else◌) (append_assoc q (v ∷ []) rest)
    | inr apart ↦ rw (apart, if◌then◌else◌) (ap (λ l. l ++ rest) (append-nil q))
  ]

  get-store :
      (key other : ℕ) (o : Option Value) (b : EventBuffer Value) (q : List Value)
      → get key b.by_key ≡ some q
      → get key (store other o b).by_key ≡ some (q ++ heard key other o [])
  unfolding store
  get-store key other none b q at = at ∙ ap some (sym (append-nil q))
  get-store key other (some v) b q at = elim (Bool-cases (eqb other key)) [
    | inl same ↦
        rw (same, if◌then◌else◌)
          (subst (λ k. get key (push_back k v b.by_key) ≡ some (q ++ v ∷ []))
            (sym ((eqb_iff other key).0 same)) (get-push_back key v q b.by_key at))
    | inr apart ↦
        rw (apart, if◌then◌else◌)
          (get-push_back_other key other v b.by_key apart ∙ at ∙ ap some (sym (append-nil q)))
  ]

  store-last_key :
      (other : ℕ) (o : Option Value) (b : EventBuffer Value)
      → (store other o b).last_key ≡ b.last_key
  unfolding store
  store-last_key other none b = refl
  store-last_key other (some v) b = refl

  -- A pop of any key, with what follows it.
  pop_front-InOrder :
      (key other : ℕ) (b : EventBuffer Value) (q more : List Value)
      (next : EventBuffer Value → EventBuffer Value × List (ℕ × Value))
      → get key b.by_key ≡ some q
      → ((m : Table (List Value)) (left : List Value)
          → get key m ≡ some left
          → InOrder key (left ++ more) (next (record b { by_key = m })))
      → InOrder key (q ++ more) (
          taken other
            (decode (λ v. some v) (pop_front other b.by_key).1)
            (next (record b { by_key = (pop_front other b.by_key).0 })))
  pop_front-InOrder key other b q more next at go_on = elim (Bool-cases (eqb other key)) [
    | inl same ↦
        let (left, front) = get-pop_front key q b.by_key at in
        let after : List (ℕ × List Value) = (pop_front key b.by_key).0 in
        subst
          (λ k. InOrder key (q ++ more) (
            taken k (decode (λ v. some v) (pop_front k b.by_key).1)
              (next (record b { by_key = (pop_front k b.by_key).0 }))))
          (sym ((eqb_iff other key).0 same))
          (subst
            (λ o.
              InOrder key (q ++ more)
                (taken key (decode (λ v. some v) o) (next (record b { by_key = after }))))
            (sym front)
            (taken_same-InOrder key q more (next (record b { by_key = after }))
              (go_on after (rest_of q) left)))
    | inr apart ↦
        taken-InOrder key other (pop_front other b.by_key).1 _ _ apart
          (go_on (pop_front other b.by_key).0 q (get-pop_front_other key other b.by_key apart ∙ at))
  ]

  -- Notifications for any keys, readable or not, in any order with pops of any keys, with new subscriptions and with
  -- the drops of others: the values taken for a key, with what its queue still holds after them, are what
  -- its queue held at first with the readable values notified for it, each once and in order. The key is
  -- registered, and not above the last that was given out, and its subscription is not dropped.
  pub run-InOrder :
      (key : ℕ) (uses : List Use) (b : EventBuffer Value) (q : List Value)
      → Keeps key uses
      → key ≤ b.last_key
      → get key b.by_key ≡ some q
      → InOrder key (q ++ notified key uses) (run uses b)
  unfolding run notified observe pop pop_checked taken_for register forget
  run-InOrder key [] b q h given at = (q, at, sym (append-nil q))
  run-InOrder key (notifies other topic payload ∷ uses) b q h given at =
      let o = parse_value payload in
      subst (λ all. InOrder key all (run uses (store other o b)))
        (heard-append key other o q (notified key uses))
        (run-InOrder key uses (store other o b) (q ++ heard key other o []) h
          (omega (arith, store-last_key other o b)) (get-store key other o b q at))
  run-InOrder key (takes other ∷ uses) b q h given at =
      elim (intact b)
        as (λ c. InOrder key (q ++ notified key uses) (
          taken other (pop_checked (λ v. some v) c other b).1
            (run uses (pop_checked (λ v. some v) c other b).0))) [
              | ok u ↦
                  pop_front-InOrder key other b q (notified key uses) (run uses) at
                    (λ m left at'. run-InOrder key uses (record b { by_key = m }) left h given at')
              | err why ↦
                  taken_none-InOrder key other why (q ++ notified key uses) (run uses b)
                    (run-InOrder key uses b q h given at)
            ]
  run-InOrder key (registers ∷ uses) b q h given at =
      run-InOrder key uses (register b).0 q h (omega arith) (
        get-insert_other (b.last_key + 1) key [] b.by_key (λ same. absurd (omega (arith, same)))
        ∙ at)
  run-InOrder key (forgets other ∷ uses) b q (apart, h) given at =
      run-InOrder key uses (forget other b) q h given
        (get-remove_other other key b.by_key apart ∙ at)
