-- ===== src/Breaker.antt =====
-- `StorageCircuitBreaker` of crates/core/src/storage.rs: after a number of failures in a row the
-- calls to the disk are refused until a timeout has passed. A call is one step: its atomic loads
-- and stores are not interleaved with those of another thread.
pub mod Laws
use ferres_db.Base.{ℕ, ◌+◌, ◌-◌, ◌%◌, ◌^◌, Bool, true, false, min, leb, ◌==◌, if◌then◌else◌}
use ferres_db.Error.{FerresError, Result, ok, err, storage, circuit_open}

abbrev pub cb_closed : ℕ
cb_closed = 0

abbrev pub cb_open : ℕ
cb_open = 1

abbrev pub cb_half_open : ℕ
cb_half_open = 2

abbrev pub u64_mod : ℕ
u64_mod = 2 ^ 64

pub record Breaker : Type 0 where
  pub failure_count : ℕ
  pub last_failure : ℕ
  pub state : ℕ
  pub failure_threshold : ℕ
  pub reset_timeout_secs : ℕ

unfoldable pub with_config : ℕ → ℕ → Breaker
with_config threshold timeout = record {
  failure_count = 0;
  last_failure = 0;
  state = cb_closed;
  failure_threshold = threshold;
  reset_timeout_secs = timeout;
}

-- The threshold and the timeout of `new`.
abbrev pub default_breaker : Breaker
unfolding with_config
default_breaker = with_config 5 60

-- `last.saturating_add(timeout) <= now`.
unfoldable pub should_attempt_reset : ℕ → Breaker → Bool
should_attempt_reset now b = leb (min (b.last_failure + b.reset_timeout_secs) (u64_mod - 1)) now

unfoldable pub on_success : Breaker → Breaker
on_success b = record b { failure_count = 0; state = cb_closed }

-- `fetch_add` wraps; `prev + 1` does so in a release build.
unfoldable pub on_failure : ℕ → Breaker → Breaker
on_failure now b =
    let count : ℕ = (b.failure_count + 1) % u64_mod in
    let counted : Breaker = record b { failure_count = count; last_failure = now } in
    if leb b.failure_threshold count
    then record counted { state = cb_open }
    else if b.state == cb_half_open
    then record counted { state = cb_open }
    else counted

module _ {W T : Type 0} where
  -- The state after `f` has returned at the time `done`.
  abbrev pub settle : ℕ → Breaker → Result T × W → Result T × Breaker × W
  settle done b (ok v, w) = (ok v, on_success b, w)
  settle done b (err e, w) = (err e, on_failure done b, w)

  -- `f` runs on the world `w`. The clock is read at `now`, and again at `done` if `f` fails.
  unfoldable pub call : ℕ → ℕ → (W → Result T × W) → Breaker → W → Result T × Breaker × W
  unfolding should_attempt_reset on_success on_failure
  call now done f b w =
      if b.state == cb_open
      then (if should_attempt_reset now b
          then settle done (record b { state = cb_half_open }) (f w)
          else (err (storage circuit_open), b, w))
      else settle done b (f w)
