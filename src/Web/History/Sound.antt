-- ===== src/Web/History/Sound.antt =====
-- What holds of the two stores between any two requests, and that every request keeps it.
use bartimaeus_app.Base.{ℕ, ◌≡◌, List, [], ◌∷◌, Option, none, some, arith, ltb, not, refl}
use bartimaeus_app.Base.Bytes.{Bytes, bytes_discrete}
use bartimaeus_app.Base.Map.{
  erase, IsFunctional, HoldsOf, erase-IsFunctional, insert-IsFunctional, retain-IsFunctional,
  erase-HoldsOf, insert-HoldsOf, retain-HoldsOf,
}
use bartimaeus_app.Hex.{hex}
use bartimaeus_app.Limiter.{
  LoginLimiter, is_stale, get_remaining_lockout_time, record_failure, reset_attempts,
  cleanup_expired_attempts,
}
use bartimaeus_app.Session.{
  Session, SessionManager, new_session, create_session, validate_session, get_csrf_token,
  validate_csrf_token, destroy_session, cleanup_expired_sessions,
}
use bartimaeus_app.Web.Services.{App}

module _ (P : Bytes → Bytes → Type 0) where
  abbrev Owned : Bytes → Session → Type 0
  Owned session_id it = P session_id it.username

  -- Each id is there once, and the property holds of every id with its user.
  pub record AreOwned (s : SessionManager) : Type 0 where
    pub functional : IsFunctional bytes_discrete s.sessions
    pub owned : HoldsOf bytes_discrete Owned s.sessions

  erase-AreOwned :
      (s : SessionManager) (k : Bytes)
      → AreOwned s
      → AreOwned (record { sessions = erase bytes_discrete k s.sessions })
  erase-AreOwned s k h = record {
    functional = erase-IsFunctional bytes_discrete k s.sessions h.functional;
    owned = erase-HoldsOf bytes_discrete Owned k s.sessions h.owned;
  }

  pub destroy_session-AreOwned :
      (s : SessionManager) (k : Bytes) → AreOwned s → AreOwned (destroy_session s k)
  destroy_session-AreOwned s k h = unfold destroy_session in erase-AreOwned s k h

  pub validate_session-AreOwned :
      (s : SessionManager) (k : Bytes) (now : ℕ)
      → AreOwned s
      → AreOwned (validate_session s k now).1
  unfolding validate_session
  validate_session-AreOwned s k now h = ground (arith, erase-AreOwned s k h)

  pub get_csrf_token-AreOwned :
      (s : SessionManager) (k : Bytes) (now : ℕ) → AreOwned s → AreOwned (get_csrf_token s k now).1
  unfolding get_csrf_token
  get_csrf_token-AreOwned s k now h = ground (arith, erase-AreOwned s k h)

  pub validate_csrf_token-AreOwned :
      (s : SessionManager) (k token : Bytes) (now : ℕ)
      → AreOwned s
      → AreOwned (validate_csrf_token s k token now).1
  unfolding validate_csrf_token
  validate_csrf_token-AreOwned s k [] now h = h
  validate_csrf_token-AreOwned s k (c ∷ token) now h = get_csrf_token-AreOwned s k now h

  -- What createSession leaves when it does not throw.
  abbrev pub CreatedOwned : Option (Bytes × SessionManager) → Type 0
  CreatedOwned none = Unit
  CreatedOwned (some (session_id, s)) = AreOwned s

  pub create_session-CreatedOwned :
      (s : SessionManager) (username : Bytes) (i j : Option (List ℕ)) (now : ℕ)
      → ((id_buffer : List ℕ) → i ≡ some id_buffer → P (hex id_buffer) username)
      → AreOwned s
      → CreatedOwned (create_session s username i j now)
  unfolding create_session
  create_session-CreatedOwned s username none j now p h = tt
  create_session-CreatedOwned s username (some i) none now p h = tt
  create_session-CreatedOwned s username (some i) (some j) now p h = record {
    functional =
        insert-IsFunctional bytes_discrete (hex i) (new_session username (hex j) now) s.sessions
          h.functional;
    owned =
        insert-HoldsOf bytes_discrete Owned (hex i) (new_session username (hex j) now) s.sessions
          (p i refl) h.owned;
  }

  pub cleanup_expired_sessions-AreOwned :
      (s : SessionManager) (now : ℕ) → AreOwned s → AreOwned (cleanup_expired_sessions s now)
  unfolding cleanup_expired_sessions
  cleanup_expired_sessions-AreOwned s now h = record {
    functional =
        retain-IsFunctional bytes_discrete (λ it. not (ltb it.expires_at now)) s.sessions
          h.functional;
    owned =
        retain-HoldsOf bytes_discrete Owned (λ it. not (ltb it.expires_at now)) s.sessions h.owned;
  }

pub get_remaining-IsFunctional :
    (l : LoginLimiter) (username : Bytes) (now : ℕ)
    → IsFunctional bytes_discrete l.attempts
    → IsFunctional bytes_discrete (get_remaining_lockout_time l username now).1.attempts
unfolding get_remaining_lockout_time
get_remaining-IsFunctional l username now h =
    ground (arith, erase-IsFunctional bytes_discrete username l.attempts h)

pub record_failure-IsFunctional :
    (l : LoginLimiter) (username : Bytes) (now later : ℕ)
    → IsFunctional bytes_discrete l.attempts
    → IsFunctional bytes_discrete (record_failure l username now later).attempts
unfolding record_failure
record_failure-IsFunctional l username now later h =
    insert-IsFunctional bytes_discrete username _ l.attempts h

pub reset_attempts-IsFunctional :
    (l : LoginLimiter) (username : Bytes)
    → IsFunctional bytes_discrete l.attempts
    → IsFunctional bytes_discrete (reset_attempts l username).attempts
unfolding reset_attempts
reset_attempts-IsFunctional l username h = erase-IsFunctional bytes_discrete username l.attempts h

pub cleanup_expired_attempts-IsFunctional :
    (l : LoginLimiter) (now : ℕ)
    → IsFunctional bytes_discrete l.attempts
    → IsFunctional bytes_discrete (cleanup_expired_attempts l now).attempts
unfolding cleanup_expired_attempts
cleanup_expired_attempts-IsFunctional l now h =
    retain-IsFunctional bytes_discrete (λ it. not (is_stale now it)) l.attempts h

-- The invariant of the two stores.
pub record IsSound {D : Type 0} (P : Bytes → Bytes → Type 0) (app : App D) : Type 0 where
  pub sessions : AreOwned P app.session_manager
  pub attempts : IsFunctional bytes_discrete app.login_limiter.attempts

module _ {D : Type 0} (P : Bytes → Bytes → Type 0) (app : App D) (h : IsSound P app) where
  pub with_db : (db : D) → IsSound P (record app { db = db })
  with_db db = record { sessions = h.sessions; attempts = h.attempts }

  pub with_sessions :
      (s : SessionManager) → AreOwned P s → IsSound P (record app { session_manager = s })
  with_sessions s k = record { sessions = k; attempts = h.attempts }

  pub with_attempts :
      (l : LoginLimiter)
      → IsFunctional bytes_discrete l.attempts
      → IsSound P (record app { login_limiter = l })
  with_attempts l k = record { sessions = h.sessions; attempts = k }
