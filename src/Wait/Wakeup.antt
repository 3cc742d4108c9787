-- ===== src/Wait/Wakeup.antt =====
-- core/src/wait.rs: `on_change` between the changes that other tasks make to the state it observes.
use redsuite.Prelude.{◌≡◌, refl, ap, ◌∙◌, Bool, true, false, Option, none, some, Result, ok, err}
use redsuite.Wait.{Phase, starting, enabled, waiting, returned, observed, turn, notify}

pub record Shared (W E T : Type 0) : Type 0 where
  pub world : W
  pub phase : Phase E T

module _ {W E T : Type 0} (observe : W → Result E (Option T)) where
  pub data Step : Shared W E T → Shared W E T → Type 0 where
    turns : (s : Shared W E T) → Step s (record s { phase = turn observe s.world s.phase })
    -- A change, of which the waiters are notified.
    changes : (s : Shared W E T) (w : W) → Step s (record { world = w; phase = notify s.phase })
    -- A change without notice, which makes no difference to what is observed.
    passes :
        (s : Shared W E T) (w : W) → observe w ≡ observe s.world → Step s (record s { world = w })

  pub data Reach : Shared W E T → Type 0 where
    begin : (w : W) → Reach (record { world = w; phase = starting })
    next : {s t : Shared W E T} → Reach s → Step s t → Reach t

  -- A waiter that sleeps without notice sleeps for a reason.
  abbrev Awake : W → Phase E T → Type 0
  Awake w starting = Unit
  Awake w (enabled notified) = Unit
  Awake w (waiting true) = Unit
  Awake w (waiting false) = observe w ≡ ok none
  Awake w (returned result) = Unit

  -- Since it was enabled, without notice, the observation has not changed.
  observed-Awake :
      (w : W) (o : Result E (Option T)) (notified : Bool)
      → observe w ≡ o
      → Awake w (observed observe o notified)
  unfolding observed
  observed-Awake w (ok (some v)) notified e = tt
  observed-Awake w (ok none) true e = tt
  observed-Awake w (ok none) false e = e
  observed-Awake w (err why) notified e = tt

  turn-Awake : (w : W) (p : Phase E T) → Awake w p → Awake w (turn observe w p)
  unfolding turn
  turn-Awake w starting h = tt
  turn-Awake w (enabled notified) h = observed-Awake w (observe w) notified refl
  turn-Awake w (waiting true) h = tt
  turn-Awake w (waiting false) h = h
  turn-Awake w (returned result) h = tt

  notify-Awake : (w : W) (p : Phase E T) → Awake w (notify p)
  unfolding notify
  notify-Awake w starting = tt
  notify-Awake w (enabled notified) = tt
  notify-Awake w (waiting notified) = tt
  notify-Awake w (returned result) = tt

  pass-Awake : (w w' : W) (p : Phase E T) → observe w' ≡ observe w → Awake w p → Awake w' p
  pass-Awake w w' starting e h = tt
  pass-Awake w w' (enabled notified) e h = tt
  pass-Awake w w' (waiting true) e h = tt
  pass-Awake w w' (waiting false) e h = e ∙ h
  pass-Awake w w' (returned result) e h = tt

  Reach-Awake : {s : Shared W E T} → Reach s → Awake s.world s.phase
  Reach-Awake (begin w) = tt
  Reach-Awake (next r (turns s)) = turn-Awake s.world s.phase (Reach-Awake r)
  Reach-Awake (next r (changes s w)) = notify-Awake w s.phase
  Reach-Awake (next r (passes s w e)) = pass-Awake s.world w s.phase e (Reach-Awake r)

  abbrev pub IsWaiting : Phase E T → Type 0
  IsWaiting starting = Unit
  IsWaiting (enabled notified) = Unit
  IsWaiting (waiting notified) = Unit
  IsWaiting (returned result) = ⊥

  settle :
      (w : W) (p : Phase E T) (v : T)
      → observe w ≡ ok (some v)
      → IsWaiting p
      → Awake w p
      → turn observe w (turn observe w (turn observe w p)) ≡ returned (ok v)
  unfolding turn observed
  settle w starting v e i h = ap (λ o. turn observe w (observed observe o false)) e
  settle w (enabled notified) v e i h =
      ap (λ o. turn observe w (turn observe w (observed observe o notified))) e
  settle w (waiting true) v e i h = ap (λ o. observed observe o false) e
  settle w (waiting false) v e i h = absurd (cc)
  settle w (returned result) v e i h = absurd i

  -- No wakeup is lost: whatever changes other tasks have made, and in whatever order with the turns of
  -- the waiter, once the observed state is ready with a value, three turns of a waiter that has not
  -- returned make it return that value. Every change that makes a difference is notified.
  pub turn-Settles :
      {s : Shared W E T} (v : T)
      → Reach s
      → observe s.world ≡ ok (some v)
      → IsWaiting s.phase
      → turn observe s.world (turn observe s.world (turn observe s.world s.phase)) ≡ returned (ok v)
  turn-Settles {s} v r e i = settle s.world s.phase v e i (Reach-Awake r)
