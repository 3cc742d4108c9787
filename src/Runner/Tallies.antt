-- ===== src/Runner/Tallies.antt =====
-- core/src/runner/mod.rs: the counts of a tally, over the jobs that it has recorded.
use redsuite.Prelude.{
  ℕ, suc, ◌+◌, ◌<◌, ◌≤◌, ◌≡◌, refl, ap, sym, subst, ◌∙◌, Bool, true, false, Option, none, some,
  String, Result, ok, err, ◌>>◌, if◌then◌else◌, arith,
}
use redsuite.Stats as S
use redsuite.Stats.{Floats, Rng, Stats, push, keep}
use redsuite.Runner.{
  Job, Encounter, run_job, Raw, fresh, push_some, push_both, count_outcome, record_job, or_own,
}
use redsuite.Runner.Jobs.{is_ok, is_some, sync_result, run_job-Reports}

-- A job that succeeds was delivered, and was synced exactly if the run has a sync.
pub record Consistent (syncs : Bool) (job : Job) : Type 0 where
  pub delivers : is_ok job.outcome ≡ true → is_some job.delivery ≡ true
  pub synced : is_some job.sync ≡ (if syncs then is_ok job.outcome else false)

delivered_first :
    (request deliver sync : Result String (Unit {0})) (at : ℕ)
    → is_ok (request >> (deliver >> sync)) ≡ true
    → is_some (if is_ok (request >> deliver) then some at else none) ≡ true
delivered_first (ok u) (ok v) sync at h = refl
delivered_first (ok u) (err why) sync at h = absurd (cc)
delivered_first (err why) deliver sync at h = absurd (cc)

synced_if :
    (wanted good : Bool) (at : ℕ)
    → is_some (if wanted then (if good then some at else none) else none)
      ≡ (if wanted then good else false)
synced_if true true at = refl
synced_if true false at = refl
synced_if false good at = refl

pub run_job-Consistent :
    (admitted : ℕ) (e : Encounter) (syncs : Bool)
    → is_some e.sync ≡ syncs
    → Consistent syncs (run_job admitted e)
run_job-Consistent admitted e syncs h =
    let reports = run_job-Reports admitted e in
    record {
      delivers = λ good.
          ap is_some reports.delivery
          ∙ delivered_first e.request e.deliver (sync_result e.sync) _
              (sym (ap is_ok reports.outcome) ∙ good);
      synced =
          ap is_some reports.sync
          ∙ synced_if (is_some e.sync) _ _
          ∙ ap (λ w. if w then is_ok (run_job admitted e).outcome else false) h;
    }

module _ (f : Floats) (r : Rng f) where
  keep-count : (value : ℕ) (s : Stats f r) → (keep f r value s).count ≡ s.count
  unfolding keep
  keep-count value s = ground arith

  pub push-count : (s : Stats f r) (value : ℕ) → (push f r s value).count ≡ s.count + 1
  unfolding push
  push-count s value = keep-count value _

  abbrev pub SyncCount : Bool → ℕ → Option (Stats f r) → Type 0
  SyncCount true delivered (some s) = s.count ≡ delivered
  SyncCount true delivered none = ⊥
  SyncCount false delivered (some s) = ⊥
  SyncCount false delivered none = Unit

  abbrev pub ErrorKept : ℕ → Option String → Type 0
  ErrorKept failed none = failed ≡ 0
  ErrorKept failed (some why) = 0 < failed

  -- What the counts of a tally say of one another.
  pub record IsTally (syncs : Bool) (t : Raw f r) : Type 0 where
    pub scheduled : t.scheduling.count ≡ t.delivered + t.failed
    pub delivery_least : t.delivered ≤ t.delivery.count
    pub delivery_most : t.delivery.count ≤ t.delivered + t.failed
    pub synced : SyncCount syncs t.delivered t.sync
    pub error : ErrorKept t.failed t.first_error

  push_both-SyncCount :
      (syncs : Bool) (delivered : ℕ) (good : Result String (Unit {0})) (s : Option (Stats f r))
      (o : Option ℕ)
      → is_some o ≡ (if syncs then is_ok good else false)
      → SyncCount syncs delivered s
      → SyncCount syncs (delivered + (if is_ok good then 1 else 0)) (push_both f r s o)
  unfolding push_both
  push_both-SyncCount true delivered (ok u) (some s) (some micros) e h =
      push-count s micros ∙ ap (λ n. n + 1) h
  push_both-SyncCount true delivered (ok u) (some s) none e h = absurd (cc)
  push_both-SyncCount true delivered (err why) (some s) (some micros) e h = absurd (cc)
  push_both-SyncCount true delivered (err why) (some s) none e h = omega arith
  push_both-SyncCount true delivered good none o e h = absurd h
  push_both-SyncCount false delivered good (some s) o e h = absurd h
  push_both-SyncCount false delivered good none o e h = tt

  -- What recording a job does to a tally.
  pub record Recorded (syncs : Bool) (t t' : Raw f r) : Type 0 where
    pub tally : IsTally syncs t'
    pub one_more : t'.delivered + t'.failed ≡ suc (t.delivered + t.failed)

  or_own-ErrorKept :
      (failed : ℕ) (first : Option String) (why : String)
      → ErrorKept (failed + 1) (or_own first (some why))
  or_own-ErrorKept failed none why = omega arith
  or_own-ErrorKept failed (some first) why = omega arith

  count_outcome-Recorded :
      (syncs : Bool) (t : Raw f r) (scheduling : ℕ) (delivery sync : Option ℕ)
      (result : Result String (Unit {0}))
      → Consistent syncs
          (record { scheduling = scheduling; delivery = delivery; sync = sync; outcome = result })
      → IsTally syncs t
      → Recorded syncs t (
          record_job f r
            (record { scheduling = scheduling; delivery = delivery; sync = sync; outcome = result })
            t)
  unfolding record_job count_outcome push_some
  count_outcome-Recorded syncs t scheduling (some micros) sync (ok u) c v = record {
    tally = record {
      scheduled = omega (arith, push-count t.scheduling scheduling, v.scheduled);
      delivery_least = omega (arith, push-count t.delivery micros, v.delivery_least);
      delivery_most = omega (arith, push-count t.delivery micros, v.delivery_most);
      synced = push_both-SyncCount syncs t.delivered (ok u) t.sync sync c.synced v.synced;
      error = v.error;
    };
    one_more = omega arith;
  }
  count_outcome-Recorded syncs t scheduling none sync (ok u) c v =
      let delivered = c.delivers refl in absurd (cc)
  count_outcome-Recorded syncs t scheduling (some micros) sync (err why) c v = record {
    tally = record {
      scheduled = omega (arith, push-count t.scheduling scheduling, v.scheduled);
      delivery_least = omega (arith, push-count t.delivery micros, v.delivery_least);
      delivery_most = omega (arith, push-count t.delivery micros, v.delivery_most);
      synced =
          subst (λ n. SyncCount syncs n (push_both f r t.sync sync)) (omega arith)
            (push_both-SyncCount syncs t.delivered (err why) t.sync sync c.synced v.synced);
      error = or_own-ErrorKept t.failed t.first_error why;
    };
    one_more = omega arith;
  }
  count_outcome-Recorded syncs t scheduling none sync (err why) c v = record {
    tally = record {
      scheduled = omega (arith, push-count t.scheduling scheduling, v.scheduled);
      delivery_least = v.delivery_least;
      delivery_most = omega (arith, v.delivery_most);
      synced =
          subst (λ n. SyncCount syncs n (push_both f r t.sync sync)) (omega arith)
            (push_both-SyncCount syncs t.delivered (err why) t.sync sync c.synced v.synced);
      error = or_own-ErrorKept t.failed t.first_error why;
    };
    one_more = omega arith;
  }

  pub record_job-Recorded :
      (syncs : Bool) (job : Job) (t : Raw f r)
      → Consistent syncs job
      → IsTally syncs t
      → Recorded syncs t (record_job f r job t)
  record_job-Recorded syncs job t c v =
      count_outcome-Recorded syncs t job.scheduling job.delivery job.sync job.outcome c v

  pub fresh-IsTally :
      (origin : String) (syncs : Bool) (seed : r.Seed) → IsTally syncs (fresh f r origin syncs seed)
  unfolding fresh S.new S.with_reservoir_size
  fresh-IsTally origin true seed = record {
    scheduled = refl;
    delivery_least = omega arith;
    delivery_most = omega arith;
    synced = refl;
    error = refl;
  }
  fresh-IsTally origin false seed = record {
    scheduled = refl;
    delivery_least = omega arith;
    delivery_most = omega arith;
    synced = tt;
    error = refl;
  }
