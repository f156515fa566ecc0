-- ===== src/Session/View.antt =====
-- What a caller can see of the session store, and what each method does to it.
use bartimaeus_app.Base.{
  ℕ, ◌≤◌, ◌≡◌, refl, ◌↔◌, ◌≢◌, ite, true, not, List, [], ◌∷◌, Option, none, some, arith, ltb,
  if◌then◌else◌,
}
use bartimaeus_app.Base.Bytes.{Bytes, bytes_discrete}
use bartimaeus_app.Base.Map.{find, IsFunctional, find-erase, find-insert, find-retain}
use bartimaeus_app.Hex.{hex}
use bartimaeus_app.Session.{
  Session, SessionManager, new_session, create_session, validate_session, get_csrf_token,
  validate_csrf_token, destroy_session, cleanup_expired_sessions,
}

-- An entry counts until its time is past.
abbrev pub live : ℕ → Option Session → Option Session
live now none = none
live now (some it) = if ltb it.expires_at now then none else some it

-- The session that an id stands for at a time.
abbrev pub active : SessionManager → Bytes → ℕ → Option Session
active s session_id now = live now (find bytes_discrete session_id s.sessions)

abbrev pub username_of : Option Session → Bytes
username_of none = []
username_of (some it) = it.username

abbrev pub token_of : Option Session → Bytes
token_of none = []
token_of (some it) = it.csrf_token

-- `s'` shows from the time `now` on what `s` shows.
abbrev pub SameView : ℕ → SessionManager → SessionManager → Type 0
SameView now s s' = (k : Bytes) (t : ℕ) → now ≤ t → active s' k t ≡ active s k t

-- validateSession returns the owner of the live session, and nothing for any other id; the
-- entry that it may drop was dead already.
pub validate_session_lem :
    (s : SessionManager) (session_id : Bytes) (now : ℕ)
    → ((validate_session s session_id now).0 ≡ username_of (active s session_id now))
      × SameView now s (validate_session s session_id now).1
unfolding validate_session
validate_session_lem s session_id now =
    (ground arith, λ k t h. ground (arith, find-erase bytes_discrete session_id k s.sessions))

-- So does getCsrfToken with the session's token.
pub get_csrf_token_lem :
    (s : SessionManager) (session_id : Bytes) (now : ℕ)
    → ((get_csrf_token s session_id now).0 ≡ token_of (active s session_id now))
      × SameView now s (get_csrf_token s session_id now).1
unfolding get_csrf_token
get_csrf_token_lem s session_id now =
    (ground arith, λ k t h. ground (arith, find-erase bytes_discrete session_id k s.sessions))

-- validateCsrfToekn accepts exactly a token that is not empty and is the one of the live session.
pub validate_csrf_token_iff :
    (s : SessionManager) (session_id token : Bytes) (now : ℕ)
    → ((validate_csrf_token s session_id token now).0 ≡ true)
      ↔ ((token ≢ []) × (token_of (active s session_id now) ≡ token))
unfolding validate_csrf_token
validate_csrf_token_iff s session_id [] now = ground (arith, get_csrf_token_lem s session_id now)
validate_csrf_token_iff s session_id (c ∷ token) now = (
  λ h. (λ e. cc, ground (arith, (get_csrf_token_lem s session_id now).0)),
  λ h. ground (arith, (get_csrf_token_lem s session_id now).0),
)

pub validate_csrf_token-SameView :
    (s : SessionManager) (session_id token : Bytes) (now : ℕ)
    → SameView now s (validate_csrf_token s session_id token now).1
unfolding validate_csrf_token
validate_csrf_token-SameView s session_id [] now k t h = refl
validate_csrf_token-SameView s session_id (c ∷ token) now k t h =
    (get_csrf_token_lem s session_id now).1 k t h

-- When createSession answers, it is with the hexadecimal form of the random bytes; that id stands
-- for a session of the user, with the other bytes' form as its token, until the end of its
-- lifetime, and no other id changes.
pub active-create_session :
    (s : SessionManager) (username : Bytes) (id_buffer csrf_buffer : List ℕ) (now t : ℕ) (k : Bytes)
    {session_id : Bytes} {s' : SessionManager}
    → create_session s username (some id_buffer) (some csrf_buffer) now ≡ some (session_id, s')
    → (session_id ≡ hex id_buffer)
      × (active s' k t
          ≡ ite
              (bytes_discrete session_id k)
              (live t (some (new_session username (hex csrf_buffer) now)))
              (active s k t))
unfolding create_session
active-create_session s username id_buffer csrf_buffer now t k e = (
  cc,
  ground (
    arith,
    find-insert bytes_discrete (hex id_buffer) k (new_session username (hex csrf_buffer) now)
        s.sessions,
  ),
)

-- After destroySession the id stands for nothing, and no other id changes.
pub active-destroy_session :
    (s : SessionManager) (session_id k : Bytes) (t : ℕ)
    → active (destroy_session s session_id) k t
      ≡ ite (bytes_discrete session_id k) none (active s k t)
unfolding destroy_session
active-destroy_session s session_id k t =
    ground (arith, find-erase bytes_discrete session_id k s.sessions)

-- In a store with one entry for an id, the garbage collector's sweep changes nothing of what an id
-- stands for when it runs, or later.
pub cleanup_expired_sessions-SameView :
    (s : SessionManager) (now : ℕ)
    → IsFunctional bytes_discrete s.sessions
    → SameView now s (cleanup_expired_sessions s now)
unfolding cleanup_expired_sessions
cleanup_expired_sessions-SameView s now f k t h =
    ground (arith, find-retain bytes_discrete (λ it. not (ltb it.expires_at now)) k s.sessions f)

-- A live session is answered with its owner and its token, and nothing changes.
pub validate_session-active :
    (s : SessionManager) (session_id : Bytes) (now : ℕ) (it : Session)
    → active s session_id now ≡ some it
    → validate_session s session_id now ≡ (it.username, s)
unfolding validate_session
validate_session-active s session_id now it h = ground arith

get_csrf_token-active :
    (s : SessionManager) (session_id : Bytes) (now : ℕ) (it : Session)
    → active s session_id now ≡ some it
    → get_csrf_token s session_id now ≡ (it.csrf_token, s)
unfolding get_csrf_token
get_csrf_token-active s session_id now it h = ground arith

pub validate_csrf_token-active :
    (s : SessionManager) (session_id token : Bytes) (now : ℕ) (it : Session)
    → active s session_id now ≡ some it
    → (validate_csrf_token s session_id token now).1 ≡ s
unfolding validate_csrf_token
validate_csrf_token-active s session_id [] now it h = refl
validate_csrf_token-active s session_id (c ∷ token) now it h =
    rw (get_csrf_token-active s session_id now it h) refl
