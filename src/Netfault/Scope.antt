-- ===== src/Netfault/Scope.antt =====
-- core/src/netfault/mod.rs: a fault scope in use. Its state, the gates that wait or are still being
-- forwarded, the counters of its rules, and the requests made of it, through any order of steps of
-- the scenario and of the relays.
use redsuite.Prelude.{ℕ, ◌+◌, ◌≡◌, List, [], ◌∷◌, ◌++◌, some, length}
use redsuite.Netfault.{
  Operation, Selector, Effect, State, Counters, Gate, decided, held, stalled, gate, drop_holding,
  intercept, add_rule, remove_rule, restore, take_unfired, scope,
}

-- `live` are the gates that own a `Holding`, newest first. `requested` counts the calls of
-- `intercept`, `reported` the unfired selectors that a reset has returned, `next_hits` the counters
-- made.
pub record System : Type 0 where
  pub state : State
  pub counters : Counters
  pub live : List Gate
  pub requested : ℕ
  pub reported : ℕ
  pub next_hits : ℕ

-- A gate that has decided owns no `Holding`.
abbrev pub with_gate : Gate → List Gate → List Gate
with_gate (decided d) live = live
with_gate (held n) live = held n ∷ live
with_gate (stalled a) live = stalled a ∷ live

abbrev pub fresh : System
fresh = record {
  state = scope;
  counters = λ _. 0;
  live = [];
  requested = 0;
  reported = 0;
  next_hits = 0;
}

pub data Step : System → System → Type 0 where
  pass :
      (s : System) (o : Operation)
      → Step s (record s {
        state = (gate s.state s.counters o).state;
        counters = (gate s.state s.counters o).counters;
        live = with_gate (gate s.state s.counters o).gate s.live;
      })
  -- A live gate has been resolved and its operation forwarded: its `Holding` is dropped.
  finish :
      (s : System) (before : List Gate) (g : Gate) (after : List Gate) (t : State)
      → s.live ≡ before ++ g ∷ after
      → drop_holding s.state ≡ some t
      → Step s (record s { state = t; live = before ++ after })
  intercepts :
      (s : System) (sel : Selector)
      → Step s (record s { state = intercept sel s.state; requested = s.requested + 1 })
  adds_rule :
      (s : System) (sel : Selector) (e : Effect)
      → Step s
          (record s { state = add_rule sel e s.next_hits s.state; next_hits = s.next_hits + 1 })
  removes_rule : (s : System) (a : ℕ) → Step s (record s { state = remove_rule a s.state })
  restores : (s : System) → Step s (record s { state = restore s.state })
  -- The end of `reset`: it waits until nothing is held.
  resets :
      (s : System)
      → s.state.holding ≡ 0
      → Step s (record s {
        state = (take_unfired s.state).0;
        reported = s.reported + length (take_unfired s.state).1;
      })

pub data Reach : System → Type 0 where
  start : Reach fresh
  next : {s t : System} → Reach s → Step s t → Reach t
