-- ===== src/Runner/Jobs.antt =====
-- core/src/runner/mod.rs: a job from its request to its outcome, and what a tally counts of it.
use Prim.Native.String.{◌++◌ as ◌<>◌}
use redsuite.Prelude.{
  ℕ, ◌≡◌, refl, Bool, true, false, Option, none, some, String, Result, ok, err, ◌>>◌, if◌then◌else◌,
}
use redsuite.Runner.{Job, Encounter, after_sync, after_deliver, after_request, run_job, micros32}

abbrev pub is_ok : {E T : Type 0} → Result E T → Bool
is_ok (ok value) = true
is_ok (err why) = false

abbrev pub is_some : {T : Type 0} → Option T → Bool
is_some none = false
is_some (some value) = true

-- A sync that is not wanted succeeds, and one that fails says that it is the sync.
abbrev pub sync_result : Option (Result String (Unit {0})) → Result String (Unit {0})
sync_result none = ok tt
sync_result (some (ok u)) = ok u
sync_result (some (err why)) = err ("sync: " <> why)

-- What a job reports of what it met.
pub record Reports (admitted : ℕ) (e : Encounter) (job : Job) : Type 0 where
  pub scheduled : job.scheduling ≡ micros32 admitted e.polled
  pub outcome : job.outcome ≡ (e.request >> (e.deliver >> sync_result e.sync))
  pub delivery :
      job.delivery
      ≡ (if is_ok (e.request >> e.deliver) then some (micros32 e.started e.delivered_at) else none)
  pub sync : job.sync ≡ (
      if is_some e.sync
      then (if is_ok job.outcome then some (micros32 e.started e.synced_at) else none)
      else none)

module _ (admitted : ℕ) (e : Encounter) where
  abbrev begun : Job
  begun = record {
    scheduling = micros32 admitted e.polled;
    delivery = none;
    sync = none;
    outcome = ok tt;
  }

  after_request-Reports :
      (request deliver : Result String (Unit {0})) (sync : Option (Result String (Unit {0})))
      → Reports admitted
          (record e { request = request; deliver = deliver; sync = sync })
          (after_request
            (record e { request = request; deliver = deliver; sync = sync })
            request
            begun)
  unfolding after_request after_deliver after_sync
  after_request-Reports (err why) deliver none = record {
    scheduled = refl;
    outcome = refl;
    delivery = refl;
    sync = refl;
  }
  after_request-Reports (err why) deliver (some result) = record {
    scheduled = refl;
    outcome = refl;
    delivery = refl;
    sync = refl;
  }
  after_request-Reports (ok u) (err why) none = record {
    scheduled = refl;
    outcome = refl;
    delivery = refl;
    sync = refl;
  }
  after_request-Reports (ok u) (err why) (some result) = record {
    scheduled = refl;
    outcome = refl;
    delivery = refl;
    sync = refl;
  }
  after_request-Reports (ok u) (ok v) none = record {
    scheduled = refl;
    outcome = refl;
    delivery = refl;
    sync = refl;
  }
  after_request-Reports (ok u) (ok v) (some (ok w)) = record {
    scheduled = refl;
    outcome = refl;
    delivery = refl;
    sync = refl;
  }
  after_request-Reports (ok u) (ok v) (some (err why)) = record {
    scheduled = refl;
    outcome = refl;
    delivery = refl;
    sync = refl;
  }

-- A job stops at the first failure of its request, its delivery and the sync it may have, which is its
-- outcome. It has a time of delivery when the request and the delivery succeed, and a time of sync
-- when there is a sync to wait for and all succeed.
pub run_job-Reports : (admitted : ℕ) (e : Encounter) → Reports admitted e (run_job admitted e)
unfolding run_job
run_job-Reports admitted e = after_request-Reports admitted e e.request e.deliver e.sync
