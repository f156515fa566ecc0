-- ===== src/Limiter/Lockout.antt =====
-- When a user is locked out, and for how long.
use bartimaeus_app.Base.{
  ℕ, ◌+◌, ◌-◌, ◌/◌, ◌≤◌, ◌<◌, ◌≡◌, refl, ap, ◌∙◌, ◌≢◌, List, [], ◌∷◌, arith, length,
}
use bartimaeus_app.Base.Bytes.{Bytes, bytes_discrete}
use bartimaeus_app.Base.Map.{find, find-erase, find-insert}
use bartimaeus_app.Clock.{second}
use bartimaeus_app.Limiter.{
  LoginAttempt, LoginLimiter, new_attempt, max_failed_attempts, lockout_duration, cooldown_duration,
  get_remaining_lockout_time, attempt_or_new, fail_attempt, record_failure, reset_attempts,
}

abbrev pub entry : LoginLimiter → Bytes → LoginAttempt
entry l username = attempt_or_new (find bytes_discrete username l.attempts)

-- The answer is the whole seconds left of the user's lockout, and 0 when it is over or never was.
pub get_remaining_lockout_time_lem :
    (l : LoginLimiter) (username : Bytes) (now : ℕ)
    → (get_remaining_lockout_time l username now).0
      ≡ ((entry l username).lockout_until - now) / second
unfolding get_remaining_lockout_time
get_remaining_lockout_time_lem l username now = ground arith

entry-record_failure :
    (l : LoginLimiter) (username : Bytes) (now later : ℕ)
    → entry (record_failure l username now later) username
      ≡ fail_attempt now later (entry l username)
unfolding record_failure
entry-record_failure l username now later = ground (
  arith,
  find-insert bytes_discrete username username (fail_attempt now later (entry l username))
      l.attempts,
)

-- Failures at given pairs of clock readings, oldest first.
pub record_failures : LoginLimiter → Bytes → List (ℕ × ℕ) → LoginLimiter
record_failures l username [] = l
record_failures l username ((now, later) ∷ ts) =
    record_failures (record_failure l username now later) username ts

-- Each failure comes less than the cooldown after the one before it.
abbrev pub Burst : ℕ → List (ℕ × ℕ) → Type 0
Burst prev [] = Unit
Burst prev ((now, later) ∷ ts) = (now - prev < cooldown_duration) × Burst now ts

abbrev pub last_later : ℕ → List (ℕ × ℕ) → ℕ
last_later d [] = d
last_later d ((now, later) ∷ ts) = last_later later ts

module _ (now later : ℕ) (it : LoginAttempt) where
  fail_attempt_last : (fail_attempt now later it).last_fail_time ≡ now
  unfolding fail_attempt
  fail_attempt_last = ground arith

  fail_attempt_pos : 0 < (fail_attempt now later it).failed_attempts
  unfolding fail_attempt
  fail_attempt_pos = ground arith

  fail_attempt_counts :
      now - it.last_fail_time < cooldown_duration
      → (fail_attempt now later it).failed_attempts ≡ it.failed_attempts + 1
  unfolding fail_attempt
  fail_attempt_counts h = ground arith

  fail_attempt_locks :
      max_failed_attempts ≤ (fail_attempt now later it).failed_attempts
      → (fail_attempt now later it).lockout_until ≡ later + lockout_duration
  unfolding fail_attempt
  fail_attempt_locks h = ground arith

record_failures_keep_lock :
    (ts : List (ℕ × ℕ)) (l : LoginLimiter) (username : Bytes) (d : ℕ)
    → Burst (entry l username).last_fail_time ts
    → (max_failed_attempts ≤ (entry l username).failed_attempts
        → (entry l username).lockout_until ≡ d + lockout_duration)
    → max_failed_attempts ≤ (entry l username).failed_attempts + length ts
    → (entry (record_failures l username ts) username).lockout_until
      ≡ last_later d ts + lockout_duration
unfolding record_failures
record_failures_keep_lock [] l username d b i m = i (omega arith)
record_failures_keep_lock ((now, later) ∷ ts) l username d (b, bs) i m =
    let e = entry-record_failure l username now later in
    record_failures_keep_lock ts (record_failure l username now later) username later
      (rw (e, fail_attempt_last now later (entry l username)) bs)
      (rw e (fail_attempt_locks now later (entry l username)))
      (rw (e, fail_attempt_counts now later (entry l username) b) (omega arith))

-- Whatever happened before, after five or more failures, each less than a minute after the one
-- before it, the seconds that are left of the lockout are those until 30 seconds after the last
-- failure.
pub record_failures_lock :
    (l : LoginLimiter) (username : Bytes) (now later : ℕ) (ts : List (ℕ × ℕ)) (t : ℕ)
    → Burst now ts
    → max_failed_attempts ≤ length ts + 1
    → (get_remaining_lockout_time (record_failures l username ((now, later) ∷ ts)) username t).0
      ≡ (last_later later ts + lockout_duration - t) / second
unfolding record_failures
record_failures_lock l username now later ts t b m =
    let e = entry-record_failure l username now later in
    let l' = record_failure l username now later in
    let locked =
      record_failures_keep_lock ts l' username later
        (rw (e, fail_attempt_last now later (entry l username)) b)
        (rw e (fail_attempt_locks now later (entry l username)))
        (rw e (omega (arith, fail_attempt_pos now later (entry l username)))) in
    rw (get_remaining_lockout_time_lem (record_failures l' username ts) username t, locked) refl

fail_attempt_few :
    (now later : ℕ) (it : LoginAttempt)
    → it.failed_attempts + 1 < max_failed_attempts
    → ((fail_attempt now later it).lockout_until ≡ it.lockout_until)
      × ((fail_attempt now later it).failed_attempts ≤ it.failed_attempts + 1)
unfolding fail_attempt
fail_attempt_few now later it h = ground arith

few_failures :
    (ts : List (ℕ × ℕ)) (l : LoginLimiter) (username : Bytes)
    → (entry l username).failed_attempts + length ts < max_failed_attempts
    → (entry (record_failures l username ts) username).lockout_until
      ≡ (entry l username).lockout_until
unfolding record_failures
few_failures [] l username h = refl
few_failures ((now, later) ∷ ts) l username h =
    let e = entry-record_failure l username now later in
    let few = fail_attempt_few now later (entry l username) (omega arith) in
    few_failures ts (record_failure l username now later) username (rw e (omega arith))
    ∙ ap (λ (a : LoginAttempt). a.lockout_until) e
    ∙ few.0

-- resetAttempts lifts the lockout, and after it up to four failures, at whatever times, bring none
-- back.
reset_attempts_lem :
    (l : LoginLimiter) (username : Bytes) (ts : List (ℕ × ℕ)) (t : ℕ)
    → length ts < max_failed_attempts
    → (get_remaining_lockout_time
        (record_failures (reset_attempts l username) username ts)
        username
        t).0
      ≡ 0
unfolding reset_attempts
reset_attempts_lem l username ts t h =
    let fresh : entry (reset_attempts l username) username ≡ new_attempt =
      ground (arith, find-erase bytes_discrete username username l.attempts) in
    rw
      (
        get_remaining_lockout_time_lem (record_failures (reset_attempts l username) username ts)
            username t,
        few_failures ts (reset_attempts l username) username (rw fresh (omega arith)),
        fresh,
      )
      (omega arith)

-- What is recorded or reset of one user does not change another user's lockout.
pub other_user :
    (l : LoginLimiter) (username other : Bytes) (now later t : ℕ)
    → username ≢ other
    → ((get_remaining_lockout_time (record_failure l username now later) other t).0
        ≡ (get_remaining_lockout_time l other t).0)
      × ((get_remaining_lockout_time (reset_attempts l username) other t).0
          ≡ (get_remaining_lockout_time l other t).0)
unfolding get_remaining_lockout_time record_failure reset_attempts
other_user l username other now later t h = ground (
  arith,
  find-erase bytes_discrete username other l.attempts,
  find-insert bytes_discrete username other (fail_attempt now later (entry l username)) l.attempts,
)
