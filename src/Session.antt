-- ===== src/Session.antt =====
-- src/services/session_manager.hpp. The clock's reading and the bytes that RAND_bytes delivers are
-- arguments of each call; the mutex makes every method one step.
pub mod View
pub mod History
use bartimaeus_app.Base.{
  ℕ, ◌+◌, ◌*◌, Bool, false, true, not, ◌&&◌, List, [], Option, none, some, ltb, if◌then◌else◌,
  is_empty,
}
use bartimaeus_app.Base.Bytes.{Bytes, bytes_discrete, is_eq}
use bartimaeus_app.Base.Map.{Map, find, insert, erase, retain}
use bartimaeus_app.Clock.{second}
use bartimaeus_app.Hex.{hex}

pub record Session : Type 0 where
  pub username : Bytes
  pub expires_at : ℕ
  pub csrf_token : Bytes

pub record SessionManager : Type 0 where
  pub sessions : Map Bytes Session

abbrev pub session_lifetime : ℕ
session_lifetime = 30 * 60 * second

-- The buffer that RAND_bytes filled, `none` for its failure: then the source throws.
unfoldable pub generate_session_id : Option (List ℕ) → Option Bytes
generate_session_id none = none
generate_session_id (some buffer) = some (hex buffer)

abbrev pub new_session : Bytes → Bytes → ℕ → Session
new_session username csrf_token now = record {
  username = username;
  expires_at = now + session_lifetime;
  csrf_token = csrf_token;
}

-- `none` for the exception, which leaves the store as it was.
unfoldable pub create_session :
    SessionManager → Bytes → Option (List ℕ) → Option (List ℕ) → ℕ → Option (Bytes × SessionManager)
unfolding generate_session_id
create_session s username id_buffer csrf_buffer now = elim (generate_session_id id_buffer) [
  | none ↦ none
  | some session_id ↦ elim (generate_session_id csrf_buffer) [
    | none ↦ none
    | some csrf_token ↦ some (
      session_id,
      record {
        sessions =
            insert bytes_discrete session_id (new_session username csrf_token now) s.sessions;
      },
    )
  ]
]

-- The three outcomes that validateSession and getCsrfToken share: no entry, an expired one, which
-- is erased, and a live one.
unfoldable pub validate_session : SessionManager → Bytes → ℕ → Bytes × SessionManager
validate_session s session_id now = elim (find bytes_discrete session_id s.sessions) [
  | none ↦ ([], s)
  | some it ↦
      if ltb it.expires_at now
      then ([], record { sessions = erase bytes_discrete session_id s.sessions })
      else (it.username, s)
]

unfoldable pub get_csrf_token : SessionManager → Bytes → ℕ → Bytes × SessionManager
get_csrf_token s session_id now = elim (find bytes_discrete session_id s.sessions) [
  | none ↦ ([], s)
  | some it ↦
      if ltb it.expires_at now
      then ([], record { sessions = erase bytes_discrete session_id s.sessions })
      else (it.csrf_token, s)
]

unfoldable pub validate_csrf_token : SessionManager → Bytes → Bytes → ℕ → Bool × SessionManager
unfolding get_csrf_token
validate_csrf_token s session_id token now =
    if is_empty token
    then (false, s)
    else (let (actual_token, s') = get_csrf_token s session_id now in
        (not (is_empty actual_token) && is_eq actual_token token, s'))

unfoldable pub destroy_session : SessionManager → Bytes → SessionManager
destroy_session s session_id = record { sessions = erase bytes_discrete session_id s.sessions }

unfoldable pub cleanup_expired_sessions : SessionManager → ℕ → SessionManager
cleanup_expired_sessions s now = record {
  sessions = retain bytes_discrete (λ it. not (ltb it.expires_at now)) s.sessions;
}
