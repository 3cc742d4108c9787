-- ===== src/Wait/Retry.antt =====
-- core/src/wait.rs: the loop of `retry_every`, with the fuel that is enough for it.
use redsuite.Prelude.{
  subst, sym, leb→le, ℕ, zero, suc, ◌+◌, ◌*◌, ◌/◌, ◌≤◌, ◌<◌, ◌≡◌, refl, min, Option, some, Result,
  ok, err, inl, inr, arith, leb, if◌then◌else◌, Bool-cases,
}
use native.Mathlib.Decide.{ℕ_discrete}
use redsuite.Wait.{Attempt, Retried, after_failure, after_attempt, retry_loop, retry_every}

module _ {E T : Type 0} (operation : ℕ → Attempt E T) (interval deadline : ℕ) where
  abbrev pub Failed : ℕ → Type 0
  Failed n = (why : E) × ((operation n).result ≡ err why)

  -- The result is that of the last attempt, all before it have failed, and a failure is reported only
  -- once the deadline has passed.
  pub record Outcome (first : ℕ) (r : Retried E T) : Type 0 where
    pub some_attempt : first < r.attempts
    pub earlier_failed : (n : ℕ) → first ≤ n → suc n < r.attempts → Failed n
    pub last : (n : ℕ) → suc n ≡ r.attempts → (operation n).result ≡ r.result
    pub in_time : (why : E) → r.result ≡ err why → deadline ≤ r.now

  abbrev pub Returns : ℕ → ℕ → Option (Retried E T) → Type 0
  Returns fuel first o =
      (r : Retried E T) × (o ≡ some r) × (r.attempts ≤ first + fuel) × Outcome first r

  here :
      (n now : ℕ) (result : Result E T)
      → (operation n).result ≡ result
      → ((why : E) → result ≡ err why → deadline ≤ now)
      → Outcome n (record { result = result; attempts = suc n; now = now })
  here n now result at late = record {
    some_attempt = omega arith;
    earlier_failed = λ m from below. absurd (omega arith);
    last = λ m e.
        let same : m ≡ n = omega arith in subst (λ i. (operation i).result ≡ result) (sym same) at;
    in_time = late;
  }

  further : (n : ℕ) (r : Retried E T) → Failed n → Outcome (suc n) r → Outcome n r
  further n r failed o = record {
    some_attempt = omega (arith, o.some_attempt);
    earlier_failed = λ m from below. elim (ℕ_discrete n m) [
      | yes same ↦ subst Failed same failed
      | no apart ↦ o.earlier_failed m (omega arith) below
    ];
    last = λ m e. o.last m e;
    in_time = o.in_time;
  }

  after_failure-Returns :
      (fuel n now lag : ℕ) (why : E) (next : ℕ → Option (Retried E T))
      → (operation n).result ≡ err why
      → (now < deadline → Returns fuel (suc n) (next (min (now + interval) deadline + lag)))
      → Returns (suc fuel) n (after_failure operation interval deadline why (suc n) now lag next)
  unfolding after_failure
  after_failure-Returns fuel n now lag why next at go_on = elim (Bool-cases (leb deadline now)) [
    | inl late ↦
        rw (late, if◌then◌else◌)
          (_, refl, omega arith, here n now (err why) at (λ why' e. leb→le deadline now late))
    | inr early ↦
        let (r, returns, few, o) = go_on (ground arith) in
        rw (early, if◌then◌else◌) (r, returns, omega arith, further n r (why, at) o)
  ]

  after_attempt-Returns :
      (fuel n now lag : ℕ) (result : Result E T) (next : ℕ → Option (Retried E T))
      → (operation n).result ≡ result
      → (now < deadline → Returns fuel (suc n) (next (min (now + interval) deadline + lag)))
      → Returns (suc fuel) n (after_attempt operation interval deadline result (suc n) now lag next)
  unfolding after_attempt
  after_attempt-Returns fuel n now lag (ok value) next at go_on =
      (_, refl, omega arith, here n now (ok value) at (λ why e. absurd (cc)))
  after_attempt-Returns fuel n now lag (err why) next at go_on =
      after_failure-Returns fuel n now lag why next at go_on

  pub retry_loop-Returns :
      (k n now : ℕ)
      → deadline ≤ now + k * interval
      → Returns (suc k) n (retry_loop operation interval deadline (suc k) n now)
  unfolding retry_loop
  retry_loop-Returns zero n now h =
      after_attempt-Returns 0 n _ _ (operation n).result _ refl (λ early. absurd (omega arith))
  retry_loop-Returns (suc k) n now h =
      let attempt = operation n in
      let after = now + attempt.took in
      after_attempt-Returns (suc k) n after attempt.lag attempt.result _ refl (λ early.
        retry_loop-Returns k (suc n) (min (after + interval) deadline + attempt.lag) (grind arith))

-- However long its attempts and its sleeps take, a retry with an interval above zero returns after at
-- most timeout / interval + 2 attempts: with the result of its last attempt, which all the earlier ones
-- failed before, and with a failure only once the timeout has passed.
pub retry_every-Returns :
    {E T : Type 0} (operation : ℕ → Attempt E T) (timeout interval now : ℕ)
    → 0 < interval
    → Returns operation interval
        (now + timeout)
        (timeout / interval + 2)
        0
        (retry_every operation timeout interval (timeout / interval + 2) now)
unfolding retry_every
retry_every-Returns operation timeout interval now pos =
    let k = timeout / interval + 1 in
    let enough : timeout ≤ k * interval = grind arith in
    subst
      (λ fuel.
        Returns operation interval (now + timeout) fuel 0
          (retry_loop operation interval (now + timeout) fuel 0 now))
      (omega arith) (retry_loop-Returns operation interval (now + timeout) k 0 now (omega arith))
