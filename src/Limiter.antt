-- ===== src/Limiter.antt =====
-- src/services/login_limiter.hpp. Readings of the clock are arguments of each call; the mutex makes
-- every method one step. `failed_attempts` is an int whose overflow would take 2^31 failures.
pub mod Lockout
pub mod Cleanup
use bartimaeus_app.Base.{
  ℕ, ◌+◌, ◌-◌, ◌*◌, ◌/◌, Bool, not, ◌&&◌, Option, none, some, ltb, leb, if◌then◌else◌,
}
use bartimaeus_app.Base.Bytes.{Bytes, bytes_discrete}
use bartimaeus_app.Base.Map.{Map, find, insert, erase, retain}
use bartimaeus_app.Clock.{second}

pub record LoginAttempt : Type 0 where
  pub failed_attempts : ℕ
  pub lockout_until : ℕ
  pub last_fail_time : ℕ

pub record LoginLimiter : Type 0 where
  pub attempts : Map Bytes LoginAttempt

abbrev pub max_failed_attempts : ℕ
max_failed_attempts = 5

abbrev pub lockout_duration : ℕ
lockout_duration = 30 * second

abbrev pub cooldown_duration : ℕ
cooldown_duration = 60 * second

-- The default member initialisers: a time_point starts at the epoch.
abbrev pub new_attempt : LoginAttempt
new_attempt = record { failed_attempts = 0; lockout_until = 0; last_fail_time = 0 }

-- now >= lockout_until && now - last_fail_time >= COOLDOWN_DURATION. A difference that would be
-- negative is 0 here, and is below the duration as well.
abbrev pub is_stale : ℕ → LoginAttempt → Bool
is_stale now it = leb it.lockout_until now && leb cooldown_duration (now - it.last_fail_time)

-- duration_cast<seconds> rounds down.
unfoldable pub get_remaining_lockout_time : LoginLimiter → Bytes → ℕ → ℕ × LoginLimiter
get_remaining_lockout_time l username now = elim (find bytes_discrete username l.attempts) [
  | none ↦ (0, l)
  | some it ↦
      if is_stale now it
      then (0, record { attempts = erase bytes_discrete username l.attempts })
      else if ltb now it.lockout_until
      then ((it.lockout_until - now) / second, l)
      else (0, l)
]

-- attempts_[username], which makes a new entry for a missing key
abbrev pub attempt_or_new : Option LoginAttempt → LoginAttempt
attempt_or_new none = new_attempt
attempt_or_new (some it) = it

abbrev cool_down : ℕ → LoginAttempt → LoginAttempt
cool_down now it =
    if leb it.last_fail_time now && leb cooldown_duration (now - it.last_fail_time)
    then record it { failed_attempts = 0 }
    else it

abbrev count_failure : ℕ → LoginAttempt → LoginAttempt
count_failure now it = record it { failed_attempts = it.failed_attempts + 1; last_fail_time = now }

-- `later` is the second reading of the clock.
abbrev lock_out : ℕ → LoginAttempt → LoginAttempt
lock_out later it =
    if leb max_failed_attempts it.failed_attempts
    then record it { lockout_until = later + lockout_duration }
    else it

unfoldable pub fail_attempt : ℕ → ℕ → LoginAttempt → LoginAttempt
fail_attempt now later it = lock_out later (count_failure now (cool_down now it))

unfoldable pub record_failure : LoginLimiter → Bytes → ℕ → ℕ → LoginLimiter
record_failure l username now later = record {
  attempts =
      insert bytes_discrete username
        (fail_attempt now later (attempt_or_new (find bytes_discrete username l.attempts)))
        l.attempts;
}

unfoldable pub reset_attempts : LoginLimiter → Bytes → LoginLimiter
reset_attempts l username = record { attempts = erase bytes_discrete username l.attempts }

unfoldable pub cleanup_expired_attempts : LoginLimiter → ℕ → LoginLimiter
cleanup_expired_attempts l now = record {
  attempts = retain bytes_discrete (λ it. not (is_stale now it)) l.attempts;
}
