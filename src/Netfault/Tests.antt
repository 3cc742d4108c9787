-- ===== src/Netfault/Tests.antt =====
-- A small fault scope of core/src/netfault/mod.rs in use: one observing rule, one interception, and a
-- request that meets both.
use redsuite.Prelude.{suc, ◌+◌, ◌≡◌, refl, ◌↔◌, true, [], ◌∷◌, some, All, if◌then◌else◌}
use redsuite.Netfault.{
  Operation, http, request, Selector, default_selector, matches, Rule, observe, reject_with, State,
  decided, held, release, deciding, gate, drop_holding, intercept, add_rule, restore, take_unfired,
  scope, judge, apply_trap, take_trap,
}
use redsuite.Netfault.Selecting.{Selects, matches_iff}
use redsuite.Netfault.Gating.{LetsPass, Ignores, RuleFirst, gate_released_iff, gate-RuleFirst}
use redsuite.Netfault.Scope.{System, Reach, start, next, pass, intercepts, adds_rule, fresh}
use redsuite.Netfault.Ledger.{Inv, Reach-Inv, drop_holding-total, take_unfired-restore}
use redsuite.Netfault.Hits.{gate-observer}

abbrev send : Operation
send = record {
  transport = http;
  stage = request;
  method = "sendTransaction";
  signatures = "sig" ∷ [];
  accounts = [];
}

abbrev sends : Selector
sends = record default_selector { methods = "sendTransaction" ∷ [] }

abbrev watching : System
watching = record fresh { state = add_rule sends observe 0 fresh.state; next_hits = 1 }

abbrev trapping : System
trapping = record watching { state = intercept sends watching.state; requested = 1 }

watching-Reach : Reach watching
watching-Reach = next start (adds_rule fresh sends observe)

trapping-Reach : Reach trapping
trapping-Reach = next watching-Reach (intercepts watching sends)

abbrev caught : System
caught = record trapping {
  state = (gate trapping.state trapping.counters send).state;
  counters = (gate trapping.state trapping.counters send).counters;
  live = held 1 ∷ [];
}

caught-Reach : Reach caught
unfolding gate judge apply_trap take_trap deciding matches intercept add_rule scope
caught-Reach = next trapping-Reach (pass trapping send)

matches_iff_example : (matches sends send ≡ true) ↔ Selects sends send
matches_iff_example = matches_iff sends send

gate_released_iff_example :
    ((gate trapping.state trapping.counters send).gate ≡ decided release)
    ↔ (All (LetsPass send) trapping.state.rules × All (Ignores send) trapping.state.traps)
gate_released_iff_example = gate_released_iff trapping.state trapping.counters send

abbrev refusing : Rule
refusing = record { selector = sends; effect = reject_with "refused"; hits = 4 }

abbrev refusing_state : State
refusing_state = record trapping.state { rules = refusing ∷ [] }

gate-RuleFirst_example :
    RuleFirst refusing_state refusing (gate refusing_state trapping.counters send)
unfolding deciding matches
gate-RuleFirst_example = gate-RuleFirst refusing_state trapping.counters send refusing refl

Reach-Inv_example : Inv caught
Reach-Inv_example = Reach-Inv caught-Reach

drop_holding-total_example :
    (t : State) × (drop_holding caught.state ≡ some t) × (suc t.holding ≡ caught.state.holding)
drop_holding-total_example = drop_holding-total [] (held 1) [] caught-Reach refl

take_unfired-restore_example :
    ((take_unfired (restore trapping.state)).1 ≡ [])
    ↔ (trapping.requested ≡ trapping.state.sequence + trapping.reported)
take_unfired-restore_example = take_unfired-restore trapping-Reach

abbrev watcher : Rule
watcher = record { selector = sends; effect = observe; hits = 0 }

gate-observer_example :
    (gate trapping.state trapping.counters send).counters watcher.hits
    ≡ trapping.counters watcher.hits + (if matches watcher.selector send then 1 else 0)
unfolding add_rule intercept scope
gate-observer_example = gate-observer send [] watcher [] trapping-Reach refl refl
