-- ===== src/Admission/Tests.antt =====
-- core/src/transport/rate.rs: four admissions over three seconds, the second of which is idle.
use redsuite.Prelude.{ℕ, List, [], ◌∷◌, arith}
use redsuite.Stats.{new}
use redsuite.Stats.Samples.{whole, counter}
use redsuite.Admission.{start}
use redsuite.Admission.Seconds.{admitted_in, Ordered, admit_all, Tallied, admit_all-Tallied}

abbrev instants : List ℕ
instants = 10 ∷ 500_000_000 ∷ 2_100_000_000 ∷ 2_200_000_000 ∷ []

instants-Ordered : Ordered 0 0 instants
instants-Ordered = (omega arith, (omega arith, (omega arith, (omega arith, tt))))

admit_all-Tallied_example :
    Tallied whole counter
      (new whole counter 0)
      (admitted_in 0 instants)
      (admit_all whole counter (start whole counter 0 0) instants)
admit_all-Tallied_example = admit_all-Tallied whole counter 0 0 instants instants-Ordered
