-- ===== src/Suite/Accounted.antt =====
-- cli/src/suite/mod.rs: the records that `run_entries` leaves, over the entries it was given.
use redsuite.Prelude.{
  ℕ, suc, ◌+◌, ◌≤◌, ◌≡◌, ◌≢◌, refl, ap, Bool, not, ◌&&◌, ◌||◌, List, [], ◌∷◌, ◌++◌, String, ◌==◌,
  string_eq, map, arith, if◌then◌else◌, length, length-append, length-map, any,
}
use redsuite.Suite.{Family, ScenarioEntry, name, RunRecord, passed, not_run, failed_record}
use redsuite.Suite.Entries.{
  over, Entries, begin, scenario_finished, launch, wait_for_end, collect, mark_rest, Step, launches,
  waits, collects, marks, Reach, start, next, meanwhile,
}

-- How often a name stands in a list.
unfoldable pub occurs : String → List String → ℕ
occurs n [] = 0
occurs n (m ∷ ms) = (if m == n then 1 else 0) + occurs n ms

occurs-append : (n : String) (xs ys : List String) → occurs n (xs ++ ys) ≡ occurs n xs + occurs n ys
unfolding occurs
occurs-append n [] ys = omega arith
occurs-append n (x ∷ xs) ys = omega (arith, occurs-append n xs ys)

abbrev pub record_name : RunRecord → String
record_name r = r.name

abbrev pub is_failure : RunRecord → Bool
is_failure r = not (passed r)

any-append :
    (p : RunRecord → Bool) (xs ys : List RunRecord) → any p (xs ++ ys) ≡ (any p xs || any p ys)
any-append p [] ys = refl
any-append p (x ∷ xs) ys = ground (arith, any-append p xs ys)

pub names-records :
    (n : String) (xs ys : List RunRecord)
    → occurs n (map record_name (xs ++ ys))
      ≡ occurs n (map record_name xs) + occurs n (map record_name ys)
unfolding occurs
names-records n [] ys = omega arith
names-records n (x ∷ xs) ys = omega (arith, names-records n xs ys)

pub names-not_run :
    (family : Family) (n reason : String) (xs : List ScenarioEntry)
    → occurs n (map record_name (map (not_run family reason) xs)) ≡ occurs n (map (name family) xs)
unfolding occurs not_run failed_record
names-not_run family n reason [] = refl
names-not_run family n reason (x ∷ xs) = omega (arith, names-not_run family n reason xs)

module _ (family : Family) (limit : ℕ) (stop_on_failure : Bool) where
  abbrev pub names : List ScenarioEntry → List String
  names = map (name family)

  -- How often a name stands among the entries, by where they are, and what the suite's progress counts: what it was at
  -- the start, what the other lanes have finished since, and the records.
  pub record IsAccounted (n : String) (finished : ℕ) (entries : List ScenarioEntry) (others : ℕ)
      (e : Entries) : Type 0 where
    pub named :
        occurs n (map record_name e.records)
          + occurs n (names e.running)
          + occurs n (names e.pending)
        ≡ occurs n (names entries)
    pub counted : length e.records + length e.running + length e.pending ≡ length entries
    pub progress : e.finished ≡ finished + others + length e.records
    pub capped : length e.running ≤ limit
    pub stopping : e.stage ≢ over → e.failed ≡ (stop_on_failure && any is_failure e.records)
    pub all_over : e.stage ≡ over → (e.running ≡ []) × (e.pending ≡ [])

  names-append :
      (n : String) (xs ys : List ScenarioEntry)
      → occurs n (names (xs ++ ys)) ≡ occurs n (names xs) + occurs n (names ys)
  unfolding occurs
  names-append n [] ys = omega arith
  names-append n (x ∷ xs) ys = omega (arith, names-append n xs ys)

  Step-IsAccounted :
      {n : String} {finished : ℕ} {entries : List ScenarioEntry} {others : ℕ} {e e' : Entries}
      → Step family limit stop_on_failure e e'
      → IsAccounted n finished entries others e
      → IsAccounted n finished entries others e'
  unfolding launch wait_for_end collect scenario_finished mark_rest occurs
  Step-IsAccounted {n} (launches e entry rest stopped at fine free room head) v = record {
    named = omega (
      arith,
      v.named,
      ap (λ xs. occurs n (names xs)) head,
      names-append n e.running (entry ∷ []),
    );
    counted = omega (arith, v.counted, ap length head, length-append e.running (entry ∷ []));
    progress = v.progress;
    capped = omega (arith, length-append e.running (entry ∷ []));
    stopping = v.stopping;
    all_over = λ ended. absurd (cc);
  }
  Step-IsAccounted (waits e stopped at why) v = record {
    named = v.named;
    counted = v.counted;
    progress = v.progress;
    capped = v.capped;
    stopping = λ going. v.stopping (λ ended. absurd (cc));
    all_over = λ ended. absurd (cc);
  }
  Step-IsAccounted {n} (collects e before entry after r at running same_name) v = record {
    named = omega (
      arith,
      v.named,
      ap (λ xs. occurs n (names xs)) running,
      names-append n before (entry ∷ after),
      names-append n before after,
      names-records n e.records (r ∷ []),
      ap (λ m. occurs n (m ∷ [])) same_name,
    );
    counted = omega (
      arith,
      v.counted,
      ap length running,
      length-append before (entry ∷ after),
      length-append before after,
      length-append e.records (r ∷ []),
    );
    progress = omega (arith, v.progress, length-append e.records (r ∷ []));
    capped = omega (
      arith,
      v.capped,
      ap length running,
      length-append before (entry ∷ after),
      length-append before after,
    );
    stopping = λ going.
        let earlier = v.stopping (λ ended. absurd (cc)) in
        ground (arith, earlier, any-append is_failure e.records (r ∷ []));
    all_over = λ ended. absurd (cc);
  }
  Step-IsAccounted {n} (marks e stopped at idle) v =
      let reason =
        if stopped then "run interrupted" else "earlier scenario in this ER group failed" in
      let rest = map (not_run family reason) e.pending in
      record {
        named = omega (
          arith,
          v.named,
          names-records n e.records rest,
          names-not_run family n reason e.pending,
        );
        counted = omega (
          arith,
          v.counted,
          length-append e.records rest,
          length-map (not_run family reason) e.pending,
        );
        progress = omega (
          arith,
          v.progress,
          length-append e.records rest,
          length-map (not_run family reason) e.pending,
        );
        capped = v.capped;
        stopping = λ going. absurd (going refl);
        all_over = λ ended. (idle, refl);
      }

  begin-IsAccounted :
      (n : String) (finished : ℕ) (entries : List ScenarioEntry)
      → IsAccounted n finished entries 0 (begin finished entries)
  unfolding begin occurs
  begin-IsAccounted n finished entries = record {
    named = omega arith;
    counted = omega arith;
    progress = omega arith;
    capped = omega arith;
    stopping = λ going. ground arith;
    all_over = λ ended. absurd (cc);
  }

  scenario_finished-IsAccounted :
      {n : String} {finished : ℕ} {entries : List ScenarioEntry} {others : ℕ} {e : Entries}
      → IsAccounted n finished entries others e
      → IsAccounted n finished entries (suc others) (scenario_finished e)
  unfolding scenario_finished
  scenario_finished-IsAccounted v = record {
    named = v.named;
    counted = v.counted;
    progress = omega (arith, v.progress);
    capped = v.capped;
    stopping = v.stopping;
    all_over = v.all_over;
  }

  -- In every state of running some entries, each entry is recorded, running or pending, as often as its
  -- name stands among them; the suite's progress counts what it counted at the start, what the other lanes have
  -- finished since, and the records; no more run than the limit; a failure is noted exactly when one is recorded in a
  -- lane that stops on failures; and once it is over nothing is running or pending.
  pub Reach-IsAccounted :
      (n : String) {finished : ℕ} {entries : List ScenarioEntry} {others steps : ℕ} {e : Entries}
      → Reach family limit stop_on_failure finished entries others steps e
      → IsAccounted n finished entries others e
  Reach-IsAccounted n start = begin-IsAccounted n _ _
  Reach-IsAccounted n (next r s) = Step-IsAccounted s (Reach-IsAccounted n r)
  Reach-IsAccounted n (meanwhile r) = scenario_finished-IsAccounted (Reach-IsAccounted n r)
