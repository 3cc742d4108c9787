-- ===== src/Runner/Joining.antt =====
-- core/src/runner/workers.rs: the ids that the workers of a plan request, and what joining them gives.
use redsuite.Prelude.{
  ℕ, zero, suc, ◌+◌, ◌-◌, ◌≤◌, ◌<◌, ◌^◌, ◌≡◌, ◌↔◌, refl, ap, ap₂, ◌∙◌, List, [], ◌∷◌, ◌++◌, map,
  Option, some, ok, err, ◌>>=◌, >>=-eq-ok, subst, arith, length, get_elem?, range_from,
}
use redsuite.Rate.{Pacing, per_second}
use redsuite.Workers.{WorkerBudgets, workers, partition_budgets}
use redsuite.Workers.Spans.{Covers}
use redsuite.Rate.Shares.{IsPaced}
use redsuite.Workers.Budgets.{partition_budgets-IsPlan}
use redsuite.Runner.Threads.{
  Ended, returned, panicked, thread_result, collect, RunConfig, worker_config, worker_ids, all_ids,
}

map-range_from :
    (base start count : ℕ)
    → map (λ i. base + i) (range_from start count) ≡ range_from (base + start) count
map-range_from base start zero = refl
map-range_from base start (suc count) =
    ap (◌∷◌ (base + start))
      (map-range_from base (suc start) count ∙ ap (λ s. range_from s count) (omega arith))

range_from-append :
    (start a b : ℕ) → range_from start a ++ range_from (start + a) b ≡ range_from start (a + b)
range_from-append start zero b = ap₂ range_from (omega arith) (omega arith)
range_from-append start (suc a) b =
    let moved : range_from (start + suc a) b ≡ range_from (suc start + a) b =
      ap (λ s. range_from s b) (omega arith) in
    let all : suc (a + b) ≡ suc a + b = omega arith in
    ap (λ rest. start ∷ (range_from (suc start) a ++ rest)) moved
    ∙ ap (◌∷◌ start) (range_from-append (suc start) a b)
    ∙ ap (range_from start) all

Covers-le : (first last : ℕ) (spans : List (ℕ × ℕ)) → Covers first last spans → first ≤ last
Covers-le first last [] c = omega arith
Covers-le first last ((id, count) ∷ spans) c =
    omega (arith, Covers-le (first + count) last spans c.2)

all_ids-Covers :
    (first last : ℕ) (spans : List (ℕ × ℕ))
    → Covers first last spans
    → all_ids spans ≡ range_from (first + 1) (last - first)
unfolding all_ids worker_ids
all_ids-Covers first last [] c =
    let none_left : 0 ≡ last - first = omega arith in ap (range_from (first + 1)) none_left
all_ids-Covers first last ((id, count) ∷ spans) (at, some_left, c) =
    let own : map (λ i. id + i) (range_from 1 count) ≡ range_from (first + 1) count =
      map-range_from id 1 count ∙ ap (λ s. range_from (s + 1) count) at in
    let later = all_ids-Covers (first + count) last spans c in
    let bound = Covers-le (first + count) last spans c in
    ap₂ ◌++◌ own (later ∙ ap (λ s. range_from s (last - (first + count))) (omega arith))
    ∙ range_from-append (first + 1) count (last - (first + count))
    ∙ ap (range_from (first + 1)) (omega arith)

get_elem?-lt :
    {A : Type 0} (xs : List A) (i : ℕ) → i < length xs → (x : A) × (get_elem? xs i ≡ some x)
get_elem?-lt [] i h = absurd (omega arith)
get_elem?-lt (x ∷ xs) zero h = (x, refl)
get_elem?-lt (x ∷ xs) (suc i) h = get_elem?-lt xs i (omega arith)

-- With a 32-bit pacing that has an interval and a concurrency above zero, a run is divided over workers
-- which all have a configuration, and which together request each of the ids from 1 to the number of
-- iterations once, in the order of the workers.
pub all_ids-partition_budgets :
    (threads iterations : ℕ) (rate : Pacing) (concurrency : ℕ)
    → IsPaced rate
    → ((offered : ℕ) → rate ≡ per_second offered → offered < 2 ^ 32)
    → 0 < concurrency
    → (b : WorkerBudgets) × (partition_budgets threads iterations rate concurrency ≡ ok b)
      × (all_ids b.iterations ≡ range_from 1 iterations)
      × ((until : Option ℕ) (index : ℕ)
          → index < workers b
          → (part : ℕ × RunConfig) × (worker_config b until index ≡ some part))
unfolding worker_config
all_ids-partition_budgets threads iterations rate concurrency paced fits h =
    let from_one : ◌≡◌ {A = ℕ} (0 + 1) 1 = omega arith in
    let all_left : iterations - 0 ≡ iterations = omega arith in
    let (b, made, plan) =
      partition_budgets-IsPlan threads iterations rate concurrency paced fits h in
    (
      b,
      made,
      all_ids-Covers 0 iterations b.iterations plan.covered ∙ ap₂ range_from from_one all_left,
      λ until index below.
          let ((first_id, count), span) = get_elem?-lt b.iterations index below in
          let (pace, paced_at) = get_elem?-lt b.rate index (omega (arith, plan.one_rate_each)) in
          let (limit, limited) =
            get_elem?-lt b.concurrency index (omega (arith, plan.one_share_each)) in
          (
            (
              first_id,
              record { until = until; iterations = count; rate = pace; concurrency = limit },
            ),
            rw (span, paced_at, limited, worker_config) refl,
          ),
    )

collect_values :
    {T : Type 0} (ts : List T) → collect (map thread_result (map (λ t. returned (ok t)) ts)) ≡ ok ts
unfolding collect thread_result
collect_values [] = refl
collect_values (t ∷ ts) = ap (λ rest. rest >>= λ others. ok (t ∷ others)) (collect_values ts)

collect_all :
    {T : Type 0} (ends : List (Ended T)) (ts : List T)
    → collect (map thread_result ends) ≡ ok ts
    → ends ≡ map (λ t. returned (ok t)) ts
unfolding collect thread_result
collect_all [] [] h = refl
collect_all [] (t ∷ ts) h = absurd (cc)
collect_all (panicked payload ∷ ends) ts h = absurd (cc)
collect_all (returned (err why) ∷ ends) ts h = absurd (cc)
collect_all (returned (ok t) ∷ ends) ts h =
    let (others, rest, all) =
      >>=-eq-ok (collect (map thread_result ends)) (λ others. ok (t ∷ others)) h in
    let whole : t ∷ others ≡ ts = cc in
    subst (λ us. returned (ok t) ∷ ends ≡ map (λ u. returned (ok u)) us) whole
      (ap (◌∷◌ (returned (ok t))) (collect_all ends others rest))

-- Joining workers that run on threads gives the values exactly when each of them has returned one; they
-- stand in the order of the workers.
pub collect-ok_iff :
    {T : Type 0} (ends : List (Ended T)) (ts : List T)
    → (collect (map thread_result ends) ≡ ok ts) ↔ (ends ≡ map (λ t. returned (ok t)) ts)
unfolding collect thread_result
collect-ok_iff ends ts = (
  collect_all ends ts,
  λ same. ap (λ es. collect (map thread_result es)) same ∙ collect_values ts,
)
