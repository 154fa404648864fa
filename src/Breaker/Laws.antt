-- ===== src/Breaker/Laws.antt =====
-- What the circuit breaker promises: its states, when it refuses, when it opens, and the probe that
-- it lets through after the timeout.
use ferres_db.Base.{
  ℕ, suc, ◌+◌, ◌-◌, ◌≤◌, ◌<◌, ◌≡◌, refl, sym, subst, ◌⊎◌, inl, List, [], ◌∷◌, min, arith, leb,
  if◌then◌else◌, length,
}
use ferres_db.Error.{FerresError, Result, ok, err, storage, circuit_open}
use ferres_db.Breaker.{
  Breaker, cb_closed, cb_open, cb_half_open, u64_mod, with_config, on_success, on_failure, call,
  settle,
}

-- Between two calls the circuit is closed or open, and closed only below the threshold.
pub record IsValid (b : Breaker) : Type 0 where
  pub settled : (b.state ≡ cb_closed) ⊎ (b.state ≡ cb_open)
  pub below : b.state ≡ cb_closed → b.failure_count < b.failure_threshold

pub with_config-IsValid :
    (threshold timeout : ℕ) → 0 < threshold → IsValid (with_config threshold timeout)
unfolding with_config
with_config-IsValid threshold timeout h = record { settled = inl refl; below = λ _. h }

module _ {W T : Type 0} where
  settle-IsValid :
      (done : ℕ) (b : Breaker) (r : Result T × W)
      → 0 < b.failure_threshold
      → b.state ≤ cb_half_open
      → IsValid (settle done b r).1
  unfolding on_success on_failure
  settle-IsValid done b (ok v, w) pos s = record { settled = inl refl; below = λ _. pos }
  settle-IsValid done b (err e, w) pos s = record { settled = ground arith; below = ground arith }

  -- A call, whatever it runs and whenever, leaves the circuit closed below the threshold or open.
  pub call-IsValid :
      (now done : ℕ) (f : W → Result T × W) (b : Breaker) (w : W)
      → 0 < b.failure_threshold
      → IsValid b
      → IsValid (call now done f b w).1
  unfolding call
  call-IsValid now done f b w pos v = ground (
    arith,
    settle-IsValid done b (f w),
    settle-IsValid done (record b { state = cb_half_open }) (f w),
  )

  -- Before the timeout an open circuit answers with an error: the operation does not run, and
  -- neither the world nor the circuit changes.
  pub call_refused :
      (now done : ℕ) (f : W → Result T × W) (b : Breaker) (w : W)
      → b.state ≡ cb_open
      → now < min (b.last_failure + b.reset_timeout_secs) (u64_mod - 1)
      → call now done f b w ≡ (err (storage circuit_open), b, w)
  unfolding call
  call_refused now done f b w o h = ground arith

  -- After the timeout the operation runs once: a success closes the circuit and clears the count,
  -- a failure opens it again and restarts the timeout.
  pub call_probes :
      (now done : ℕ) (f : W → Result T × W) (b : Breaker) (w : W)
      → b.state ≡ cb_open
      → min (b.last_failure + b.reset_timeout_secs) (u64_mod - 1) ≤ now
      → ((call now done f b w).0 ≡ (f w).0)
        × ((call now done f b w).2 ≡ (f w).1)
        × ((v : T)
            → (f w).0 ≡ ok v
            → ((call now done f b w).1.state ≡ cb_closed)
              × ((call now done f b w).1.failure_count ≡ 0))
        × ((e : FerresError)
            → (f w).0 ≡ err e
            → ((call now done f b w).1.state ≡ cb_open)
              × ((call now done f b w).1.last_failure ≡ done))
  unfolding call on_success on_failure
  call_probes now done f b w o h =
      (ground arith, ground arith, λ v e. ground arith, λ x e. ground arith)

-- A row of calls that fail, each with the two times at which it reads the clock.
abbrev pub fail_all : FerresError → List (ℕ × ℕ) → Breaker → Breaker
fail_all e [] b = b
fail_all e ((now, done) ∷ times) b =
    fail_all e times (call {W = Unit {0}} {T = Unit {0}} now done (λ v. (err e, v)) b tt).1

call_fails :
    (e : FerresError) (now done : ℕ) (b : Breaker)
    → b.state ≡ cb_closed
    → b.failure_threshold < u64_mod
    → b.failure_count < b.failure_threshold
    → (call {W = Unit {0}} {T = Unit {0}} now done (λ v. (err e, v)) b tt).1 ≡ record b {
      failure_count = b.failure_count + 1;
      last_failure = done;
      state = if leb b.failure_threshold (b.failure_count + 1) then cb_open else cb_closed;
    }
unfolding call on_failure
call_fails e now done b c u h = ground arith

call_stays :
    (e : FerresError) (now done : ℕ) (b : Breaker)
    → b.state ≡ cb_closed
    → b.failure_threshold < u64_mod
    → b.failure_count + 1 < b.failure_threshold
    → (call {W = Unit {0}} {T = Unit {0}} now done (λ v. (err e, v)) b tt).1
      ≡ record b { failure_count = b.failure_count + 1; last_failure = done; state = cb_closed }
unfolding call on_failure
call_stays e now done b c u h = ground arith

add-suc-one : (a n : ℕ) → a + 1 + n ≡ a + suc n
add-suc-one a n = omega arith

-- From a closed circuit with `failure_count` failures so far, failures in a row open it exactly
-- when they reach the threshold.
pub fail_all_opens :
    (e : FerresError) (times : List (ℕ × ℕ)) (b : Breaker)
    → b.state ≡ cb_closed
    → b.failure_threshold < u64_mod
    → b.failure_count < b.failure_threshold
    → b.failure_count + length times ≤ b.failure_threshold
    → ((fail_all e times b).failure_count ≡ b.failure_count + length times)
      × ((fail_all e times b).state ≡ (
          if leb b.failure_threshold (b.failure_count + length times) then cb_open else cb_closed))
fail_all_opens e [] b c u l h = (omega arith, ground arith)
fail_all_opens e ((now, done) ∷ []) b c u l h = rw (call_fails e now done b c u l) ground arith
fail_all_opens e ((now, done) ∷ t ∷ times) b c u l h =
    let more : b.failure_count + 1 < b.failure_threshold = omega arith in
    subst
      (λ (x : Breaker).
        ((fail_all e (t ∷ times) x).failure_count ≡ b.failure_count + suc (suc (length times)))
        × ((fail_all e (t ∷ times) x).state ≡ (
            if leb b.failure_threshold (b.failure_count + suc (suc (length times)))
            then cb_open
            else cb_closed)))
      (sym (call_stays e now done b c u more))
      (let rest =
          fail_all_opens e (t ∷ times)
            (record b {
              failure_count = b.failure_count + 1;
              last_failure = done;
              state = cb_closed;
            })
            refl u more (omega arith) in
        (omega arith, rw (add-suc-one b.failure_count (suc (length times))) at (rest.1)))
