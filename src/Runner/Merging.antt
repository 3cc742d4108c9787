-- ===== src/Runner/Merging.antt =====
-- core/src/runner/mod.rs: the outcomes of several drivers as one.
use redsuite.Prelude.{
  All, refl, sym, ◌∙◌, ℕ, ◌+◌, max, ◌≡◌, Bool, true, false, List, [], ◌∷◌, map, Option, none, some,
  String, arith, sum,
}
use redsuite.Stats as S
use redsuite.Stats.{Floats, Rng, Stats, merge_reservoir, merge_moments}
use redsuite.Runner.{Raw, merge, merge_from, merge_sync, or_own}
use redsuite.Runner.Tallies.{IsTally, SyncCount, ErrorKept}

-- The first error in the order of the outcomes, and the longest of some times.
abbrev pub first_of : List (Option String) → Option String
first_of [] = none
first_of (e ∷ es) = or_own e (first_of es)

abbrev pub longest : List ℕ → ℕ
longest [] = 0
longest (t ∷ ts) = max t (longest ts)

module _ (f : Floats) (r : Rng f) where
  merge_reservoir-count :
      (s : Stats f r) (other : List ℕ) (n : ℕ) → (merge_reservoir f r s other n).count ≡ s.count
  unfolding merge_reservoir
  merge_reservoir-count s other n = ground arith

  pub merge-count :
      (own other : Stats f r) → (S.merge f r own other).count ≡ own.count + other.count
  unfolding S.merge merge_moments
  merge-count own other =
      ground
        (arith, merge_reservoir-count (merge_moments f r own other) other.reservoir other.count)

  merge_sync-SyncCount :
      (syncs : Bool) (a b : ℕ) (own other : Option (Stats f r))
      → SyncCount f r syncs a own
      → SyncCount f r syncs b other
      → SyncCount f r syncs (a + b) (merge_sync f r own other)
  unfolding merge_sync
  merge_sync-SyncCount true a b (some own) (some other) h k = omega (arith, merge-count own other)
  merge_sync-SyncCount true a b (some own) none h k = absurd k
  merge_sync-SyncCount true a b none other h k = absurd h
  merge_sync-SyncCount false a b (some own) other h k = absurd h
  merge_sync-SyncCount false a b none (some other) h k = absurd k
  merge_sync-SyncCount false a b none none h k = tt

  or_own-ErrorKept :
      (a b : ℕ) (own other : Option String)
      → ErrorKept f r a own
      → ErrorKept f r b other
      → ErrorKept f r (a + b) (or_own own other)
  or_own-ErrorKept a b none none h k = omega arith
  or_own-ErrorKept a b none (some why) h k = omega arith
  or_own-ErrorKept a b (some why) other h k = omega arith

  pub merge-IsTally :
      (syncs : Bool) (own other : Raw f r)
      → IsTally f r syncs own
      → IsTally f r syncs other
      → IsTally f r syncs (merge f r own other)
  unfolding merge
  merge-IsTally syncs own other h k = record {
    scheduled =
        omega (arith, merge-count own.scheduling other.scheduling, h.scheduled, k.scheduled);
    delivery_least =
        omega (arith, merge-count own.delivery other.delivery, h.delivery_least, k.delivery_least);
    delivery_most =
        omega (arith, merge-count own.delivery other.delivery, h.delivery_most, k.delivery_most);
    synced =
        merge_sync-SyncCount syncs own.delivered other.delivered own.sync other.sync h.synced
          k.synced;
    error =
        or_own-ErrorKept own.failed other.failed own.first_error other.first_error h.error k.error;
  }

  -- What several outcomes come to.
  pub record Totals (syncs : Bool) (os : List (Raw f r)) (t : Raw f r) : Type 0 where
    pub tally : IsTally f r syncs t
    pub delivered : t.delivered ≡ sum (map (λ (o : Raw f r). o.delivered) os)
    pub failed : t.failed ≡ sum (map (λ (o : Raw f r). o.failed) os)
    pub scheduled : t.scheduling.count ≡ sum (map (λ (o : Raw f r). o.scheduling.count) os)
    pub first_error : t.first_error ≡ first_of (map (λ (o : Raw f r). o.first_error) os)
    pub wall : t.wall ≡ longest (map (λ (o : Raw f r). o.wall) os)
    pub admission_wall : t.admission_wall ≡ longest (map (λ (o : Raw f r). o.admission_wall) os)

  or_own_assoc : (a b c : Option String) → or_own (or_own a b) c ≡ or_own a (or_own b c)
  or_own_assoc none b c = refl
  or_own_assoc (some e) b c = refl

  or_own-none : (a : Option String) → or_own a none ≡ a
  or_own-none none = refl
  or_own-none (some e) = refl

  single-Totals : (syncs : Bool) (t : Raw f r) → IsTally f r syncs t → Totals syncs (t ∷ []) t
  single-Totals syncs t v = record {
    tally = v;
    delivered = omega arith;
    failed = omega arith;
    scheduled = omega arith;
    first_error = sym (or_own-none t.first_error);
    wall = omega arith;
    admission_wall = omega arith;
  }

  -- The first two outcomes merged stand for both.
  merged-Totals :
      (syncs : Bool) (a b t : Raw f r) (os : List (Raw f r))
      → Totals syncs (merge f r a b ∷ os) t
      → Totals syncs (a ∷ b ∷ os) t
  unfolding merge
  merged-Totals syncs a b t os v = record {
    tally = v.tally;
    delivered = omega (arith, v.delivered);
    failed = omega (arith, v.failed);
    scheduled = omega (arith, v.scheduled, merge-count a.scheduling b.scheduling);
    first_error = v.first_error ∙ or_own_assoc a.first_error b.first_error _;
    wall = omega (arith, v.wall);
    admission_wall = omega (arith, v.admission_wall);
  }

  -- Of the tallies of one or more drivers, which all have a sync or all have none, the merge is a tally. It
  -- counts the jobs delivered, failed and scheduled by them all, keeps the first error in their order,
  -- and lasts as long as the longest.
  pub merge_from-Totals :
      (syncs : Bool) (t : Raw f r) (os : List (Raw f r))
      → IsTally f r syncs t
      → All (IsTally f r syncs) os
      → Totals syncs (t ∷ os) (merge_from f r t os)
  unfolding merge_from
  merge_from-Totals syncs t [] v vs = single-Totals syncs t v
  merge_from-Totals syncs t (o ∷ os) v vs =
      merged-Totals syncs t o _ os
        (merge_from-Totals syncs (merge f r t o) os (merge-IsTally syncs t o v vs.0) vs.1)
