-- ===== src/Tests/ServiceTests.antt =====
-- The theorems on sessions and on the limiter, at a short history.
use bartimaeus_app.Base.{ℕ, ◌+◌, ◌-◌, ◌*◌, ◌/◌, ◌≡◌, refl, ite, List, [], ◌∷◌, none, some, arith}
use bartimaeus_app.Base.Bytes.{Bytes, bytes, bytes_discrete}
use bartimaeus_app.Base.Map.{find}
use bartimaeus_app.Clock.{second}
use bartimaeus_app.Hex.{hex}
use bartimaeus_app.Session.{SessionManager, new_session, destroy_session}
use bartimaeus_app.Session.View.{active, active-destroy_session}
use bartimaeus_app.Session.History
use bartimaeus_app.Limiter.{
  LoginLimiter, lockout_duration, get_remaining_lockout_time, attempt_or_new,
}
use bartimaeus_app.Limiter.Lockout.{
  entry, record_failures, last_later, get_remaining_lockout_time_lem, record_failures_lock,
}
use bartimaeus_app.Limiter.Cleanup

abbrev no_sessions : SessionManager
no_sessions = record { sessions = [] }

abbrev alice : Bytes
alice = bytes "alice"

abbrev id_bytes : List ℕ
id_bytes = 1 ∷ 2 ∷ []

abbrev csrf_bytes : List ℕ
csrf_bytes = 3 ∷ 4 ∷ []

abbrev one_session : SessionManager
one_session = record { sessions = (hex id_bytes, new_session alice (hex csrf_bytes) 0) ∷ [] }

active-destroy_session_example :
    active (destroy_session one_session (hex id_bytes)) (hex id_bytes) 5
    ≡ ite (bytes_discrete (hex id_bytes) (hex id_bytes)) none (active one_session (hex id_bytes) 5)
active-destroy_session_example = active-destroy_session one_session (hex id_bytes) (hex id_bytes) 5

-- A session is made, used and swept over.
abbrev visits : List (ℕ × History.Call)
visits =
    (1, History.create alice (some id_bytes) (some csrf_bytes))
    ∷ (2, History.validate (hex id_bytes))
    ∷ (9, History.cleanup)
    ∷ []

no_sessions-Refines : History.Refines 0 no_sessions (λ k. none)
no_sessions-Refines = record { functional = tt; shows = λ k t h. unfold find in refl }

History_run-Refines_example :
    History.Refines
      (History.last_time 0 visits)
      (History.run no_sessions visits)
      (History.table_run (λ k. none) visits)
History_run-Refines_example =
    History.run-Refines 0 no_sessions (λ k. none) visits
      (omega arith, (omega arith, (omega arith, tt))) no_sessions-Refines

abbrev no_attempts : LoginLimiter
no_attempts = record { attempts = [] }

-- Four failures after the first, a second apart.
abbrev failures : List (ℕ × ℕ)
failures =
    (2 * second, 2 * second)
    ∷ (3 * second, 3 * second)
    ∷ (4 * second, 4 * second)
    ∷ (5 * second, 5 * second)
    ∷ []

record_failures_lock_example :
    (get_remaining_lockout_time
      (record_failures no_attempts alice ((second, second) ∷ failures))
      alice
      (6 * second)).0
    ≡ (last_later second failures + lockout_duration - 6 * second) / second
record_failures_lock_example =
    record_failures_lock no_attempts alice second second failures (6 * second)
      (omega arith, (omega arith, (omega arith, (omega arith, tt)))) (omega arith)

get_remaining_lockout_time_lem_example :
    (get_remaining_lockout_time (record_failures no_attempts alice failures) alice (6 * second)).0
    ≡ ((entry (record_failures no_attempts alice failures) alice).lockout_until - 6 * second)
      / second
get_remaining_lockout_time_lem_example =
    get_remaining_lockout_time_lem (record_failures no_attempts alice failures) alice (6 * second)

-- A failure, a sweep and a look.
abbrev tries : List (ℕ × Cleanup.Call)
tries = (1, Cleanup.fail alice 2) ∷ (3, Cleanup.cleanup) ∷ (4, Cleanup.get_remaining alice) ∷ []

no_attempts-Refines : Cleanup.Refines 0 no_attempts (λ k. none)
no_attempts-Refines = record { functional = tt; counts = λ k. unfold find in refl }

run-remaining_example :
    (get_remaining_lockout_time (Cleanup.run no_attempts tries) alice 5).0
    ≡ ((attempt_or_new (Cleanup.table_run (λ k. none) tries alice)).lockout_until - 5) / second
run-remaining_example =
    Cleanup.run-remaining 0 no_attempts (λ k. none) tries alice 5
      (omega arith, omega arith, (omega arith, tt, (omega arith, tt, tt))) no_attempts-Refines
      (omega arith)
