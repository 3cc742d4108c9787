-- ===== src/Netfault.antt =====
-- core/src/netfault/mod.rs: the fault proxy's traps and rules, and the gate that every operation
-- passes. The reference-counted cells are written out: a `Hits` cell is an address in `Counters`,
-- and the state of the active scope is passed along. A one-shot channel is the number of the
-- intercepted operation, which is its `sequence`.
pub mod Select
pub mod Selecting
pub mod Gating
pub mod Scope
pub mod Ledger
pub mod Hits
pub mod Rpc
pub mod Relay
pub mod Exchange
pub mod Watching
mod Tests
use redsuite.Prelude.{
  ℕ, ◌+◌, ◌-◌, ◌≡◌, ◌↔◌, Bool, true, false, not, ◌&&◌, ◌||◌, List, [], ◌∷◌, ◌++◌, map, Option, none,
  some, String, PartialEq, ◌==◌, string_eq, contains, if◌then◌else◌, eqb, find, retain, arith,
}

pub data Transport : Type 0 where
  http ws : Transport

pub data Stage : Type 0 where
  request response notification : Stage

abbrev pub transport_beq : Transport → Transport → Bool
transport_beq http http = true
transport_beq ws ws = true
transport_beq _ _ = false

pub transport_beq_iff : (a b : Transport) → (transport_beq a b ≡ true) ↔ (a ≡ b)
transport_beq_iff a b = ground arith

abbrev pub stage_beq : Stage → Stage → Bool
stage_beq request request = true
stage_beq response response = true
stage_beq notification notification = true
stage_beq _ _ = false

pub stage_beq_iff : (a b : Stage) → (stage_beq a b ≡ true) ↔ (a ≡ b)
stage_beq_iff a b = ground arith

instance abbrev pub transport_eq : PartialEq Transport
transport_eq = record { eq = transport_beq; eq_iff = transport_beq_iff }

instance abbrev pub stage_eq : PartialEq Stage
stage_eq = record { eq = stage_beq; eq_iff = stage_beq_iff }

pub record Operation : Type 0 where
  pub transport : Transport
  pub stage : Stage
  pub method : String
  pub signatures : List String
  pub accounts : List String

pub record Selector : Type 0 where
  pub transport : Option Transport
  pub stages : List Stage
  pub methods : List String
  pub signature : Option String
  pub account : Option String

abbrev pub default_selector : Selector
default_selector = record {
  transport = none;
  stages = [];
  methods = [];
  signature = none;
  account = none;
}

abbrev pub is_none_or {ℓ} : {A : Type ℓ} → Option A → (A → Bool) → Bool
is_none_or none p = true
is_none_or (some a) p = p a

abbrev pub is_empty {ℓ} : {A : Type ℓ} → List A → Bool
is_empty [] = true
is_empty (_ ∷ _) = false

unfoldable pub matches : Selector → Operation → Bool
matches s o =
    is_none_or s.transport (λ t. t == o.transport)
    && (is_empty s.stages || contains s.stages o.stage)
    && (is_empty s.methods || contains s.methods o.method)
    && is_none_or s.signature (λ g. contains o.signatures g)
    && is_none_or s.account (λ a. contains o.accounts a)

pub data Decision : Type 0 where
  release discard : Decision
  reject : (message : String) → Decision

-- `armed` is whether the trap's sender is still there.
pub record Interception : Type 0 where
  pub selector : Selector
  pub armed : Bool

pub data Effect : Type 0 where
  observe stall : Effect
  reject_with : (message : String) → Effect

abbrev pub is_observe : Effect → Bool
is_observe observe = true
is_observe _ = false

-- `hits` is the address of the rule's counter, and by it a handle tells the rule from others.
pub record Rule : Type 0 where
  pub selector : Selector
  pub effect : Effect
  pub hits : ℕ

-- How many operations were seen at each stage.
pub record Observed : Type 0 where
  pub requests : ℕ
  pub responses : ℕ
  pub notifications : ℕ

abbrev pub see : Stage → Observed → Observed
see request o = record o { requests = o.requests + 1 }
see response o = record o { responses = o.responses + 1 }
see notification o = record o { notifications = o.notifications + 1 }

-- `unfired` holds the selectors whose text the code keeps. `resets` is the version of the watch
-- channel `reset`.
pub record State : Type 0 where
  pub traps : List Interception
  pub rules : List Rule
  pub unfired : List Selector
  pub observed : Observed
  pub holding : ℕ
  pub sequence : ℕ
  pub resets : ℕ

pub record Held : Type 0 where
  pub operation : Operation
  pub sequence : ℕ

abbrev pub Counters : Type 0
Counters = ℕ → ℕ

-- `Hits::record`
abbrev pub record_hit : ℕ → Counters → Counters
record_hit a c b = if eqb a b then c b + 1 else c b

-- `held n` waits for the decision on interception `n` and for a reset, `stalled a` for the end of
-- the rule with counter `a`.
pub data Gate : Type 0 where
  decided : Decision → Gate
  held : (sequence : ℕ) → Gate
  stalled : (hits : ℕ) → Gate

-- The loop over the rules that records the observers' hits.
unfoldable pub record_observers : Operation → List Rule → Counters → Counters
record_observers o [] c = c
record_observers o (r ∷ rs) c =
    record_observers o rs
      (if is_observe r.effect && matches r.selector o then record_hit r.hits c else c)

-- The first rule that decides about the operation.
unfoldable pub deciding : Operation → List Rule → Option Rule
deciding o = find (λ r. not (is_observe r.effect) && matches r.selector o)

-- The first armed trap for the operation, disarmed, in its place among the others.
unfoldable pub take_trap : Operation → List Interception → Option (List Interception)
take_trap o [] = none
take_trap o (t ∷ ts) =
    let rest = take_trap o ts in
    if t.armed && matches t.selector o
    then some (record t { armed = false } ∷ ts)
    else elim rest [ none ↦ none | some ts' ↦ some (t ∷ ts') ]

-- What a call of `gate` leaves and answers. `sent` is the interception handed to its trap.
pub record Passed : Type 0 where
  pub state : State
  pub counters : Counters
  pub gate : Gate
  pub sent : Option Held

-- The part of `gate` after the observers, for the deciding rule if there is one.
unfoldable pub apply_rule : State → Counters → Operation → Rule → Effect → Passed
apply_rule s c o r observe = record { state = s; counters = c; gate = decided release; sent = none }
apply_rule s c o r (reject_with message) = record {
  state = s;
  counters = record_hit r.hits c;
  gate = decided (reject message);
  sent = none;
}
apply_rule s c o r stall = record {
  state = record s { holding = s.holding + 1 };
  counters = record_hit r.hits c;
  gate = stalled r.hits;
  sent = none;
}

unfoldable pub apply_trap : State → Counters → Operation → Option (List Interception) → Passed
apply_trap s c o none = record { state = s; counters = c; gate = decided release; sent = none }
apply_trap s c o (some traps) = record {
  state = record s { traps = traps; sequence = s.sequence + 1; holding = s.holding + 1 };
  counters = c;
  gate = held (s.sequence + 1);
  sent = some (record { operation = o; sequence = s.sequence + 1 });
}

unfoldable pub judge : State → Counters → Operation → Option Rule → Passed
unfolding apply_rule apply_trap
judge s c o (some r) = apply_rule s c o r r.effect
judge s c o none = apply_trap s c o (take_trap o s.traps)

-- `gate` with an active scope.
unfoldable pub gate : State → Counters → Operation → Passed
unfolding judge
gate s c o =
    let seen = record s { observed = see o.stage s.observed } in
    judge seen (record_observers o s.rules c) o (deciding o s.rules)

-- What ends the wait of a gate: a decision, the loss of the channel, or the reset.
pub data Wake : Type 0 where
  sent : Decision → Wake
  dropped reset : Wake

-- `Gate::resolve`: the decision, and whether it comes with a `Holding`.
unfoldable pub resolve : Gate → Wake → Decision × Bool
resolve (decided d) w = (d, false)
resolve (held n) (sent d) = (d, true)
resolve (held n) dropped = (release, true)
resolve (held n) reset = (release, true)
resolve (stalled a) w = (release, true)

-- `Drop for Holding`; `none` is the panic of a subtraction below zero.
unfoldable pub drop_holding : State → Option State
drop_holding s = if eqb s.holding 0 then none else some (record s { holding = s.holding - 1 })

unfoldable pub intercept : Selector → State → State
intercept sel s = record s { traps = s.traps ++ record { selector = sel; armed = true } ∷ [] }

-- `rule`, for `observe`, `reject` and `stall`, with the address of the fresh counter.
unfoldable pub add_rule : Selector → Effect → ℕ → State → State
add_rule sel effect a s = record s {
  rules = s.rules ++ record { selector = sel; effect = effect; hits = a } ∷ [];
}

-- `RuleHandle::remove`
unfoldable pub remove_rule : ℕ → State → State
remove_rule a s = record s { rules = retain (λ r. not (eqb r.hits a)) s.rules }

-- The selectors of the traps that are still armed, in their order.
unfoldable pub armed_selectors : List Interception → List Selector
armed_selectors [] = []
armed_selectors (t ∷ ts) = if t.armed then t.selector ∷ armed_selectors ts else armed_selectors ts

unfoldable pub restore : State → State
restore s = record s {
  traps = [];
  rules = [];
  unfired = s.unfired ++ armed_selectors s.traps;
  resets = s.resets + 1;
}

-- The end of `Faults::reset`, once nothing is held: the unfired selectors are the error.
unfoldable pub take_unfired : State → State × List Selector
take_unfired s = (record s { unfired = [] }, s.unfired)

-- The state of a new scope.
unfoldable pub scope : State
scope = record {
  traps = [];
  rules = [];
  unfired = [];
  observed = record { requests = 0; responses = 0; notifications = 0 };
  holding = 0;
  sequence = 0;
  resets = 0;
}
