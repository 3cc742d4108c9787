-- ===== src/Clock/Tests.antt =====
-- A window of core/src/transport/clock.rs with the ids 5 to 7.
use redsuite.Prelude.{ℕ, ◌-◌, ◌≡◌, ◌≢◌, refl, [], ◌∷◌, some, min, arith}
use redsuite.Clock.{SendClock, u32_max, micros, new, stamp, elapsed_micros}
use redsuite.Clock.Window.{elapsed_micros-stamp}

abbrev window : SendClock
window = record { epoch = 1000; first_id = 5; sent_micros = 0 ∷ 0 ∷ 0 ∷ [] }

elapsed_micros-stamp_example :
    (c' : SendClock) × (stamp 6 3000 window ≡ some c')
    × (elapsed_micros 9000 6 c' ≡ some (min (micros 1000 9000 - micros 1000 3000) u32_max))
    × (◌≢◌ {A = ℕ} 6 7 → elapsed_micros 9000 7 c' ≡ elapsed_micros 9000 7 window)
elapsed_micros-stamp_example = elapsed_micros-stamp window 6 3000 9000 7 (omega arith)

six_micros : elapsed_micros 9000 6 (record window { sent_micros = 0 ∷ 3 ∷ 0 ∷ [] }) ≡ some 6
unfolding elapsed_micros
six_micros = refl

first_window : new 1000 5 3 ≡ window
unfolding new
first_window = refl
