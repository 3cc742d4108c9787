-- ===== src/Stats/Tests.antt =====
-- Runs of core/src/stats.rs with whole numbers for the reals and a counter for the generator.
use redsuite.Prelude.{◌^◌, ◌-◌, pos, negsuc, ◌≡◌, refl, [], ◌∷◌, some, false, arith}
use redsuite.Stats.{
  ObservationsStats, Stats, with_reservoir_size, push, merge, finalize, draw_all, sort, insert,
}
use redsuite.Stats.Samples.{whole, counter}
use redsuite.Stats.Reservoir.{Samples, draw_all-Samples}
use redsuite.Stats.Valid.{IsValid, with_reservoir_size-IsValid, push-IsValid, merge-IsValid}
use redsuite.Stats.Quantile.{IsCast, finalize-Within}

abbrev empty : Stats whole counter
empty = with_reservoir_size whole counter 2 0

abbrev seven : Stats whole counter
seven = push whole counter empty 7

seven-IsValid : IsValid seven
seven-IsValid = push-IsValid whole counter empty 7 (with_reservoir_size-IsValid whole counter 2 0)

merge-IsValid_example : IsValid (merge whole counter seven seven)
unfolding push with_reservoir_size
merge-IsValid_example = merge-IsValid whole counter seven seven refl seven-IsValid seven-IsValid

draw_all-Samples_example :
    Samples whole counter 2
      (1 ∷ 2 ∷ [])
      (3 ∷ [])
      []
      (draw_all whole counter 1 1 2 (1 ∷ 2 ∷ []) (3 ∷ []) [] 0).0
draw_all-Samples_example = draw_all-Samples whole counter 1 1 2 (1 ∷ 2 ∷ []) (3 ∷ []) [] 0

finalize-Within_example :
    (o : ObservationsStats) × (finalize whole counter seven false ≡ some o)
    × (o.count ≡ seven.count)
    × (o.min ≡ seven.least)
    × (o.max ≡ seven.greatest)
    × IsCast o.min o.max o.median
    × IsCast o.min o.max o.quantile95
unfolding push with_reservoir_size
finalize-Within_example =
    finalize-Within whole counter seven false seven-IsValid (omega arith) (omega arith)

abbrev large : Stats whole counter
large = push whole counter empty (2 ^ 31)

-- A value from 2^31 on is reported as a negative median, below the minimum that is reported beside it.
large_median :
    finalize whole counter large false
    ≡ some (record {
      count = 1;
      median = negsuc (2 ^ 31 - 1);
      min = 2 ^ 31;
      max = 2 ^ 31;
      avg = pos (2 ^ 30);
      quantile95 = negsuc (2 ^ 31 - 1);
      stddev = 0;
    })
unfolding finalize sort insert push with_reservoir_size
large_median = refl
