-- ===== src/Web/Login.antt =====
-- From a login to the requests that follow it.
use bartimaeus_app.Base.{
  ℕ, ◌+◌, ◌-◌, ◌/◌, ◌≤◌, ◌<◌, ◌≡◌, refl, ◌≢◌, true, List, [], ◌++◌, some, arith, ite, lt→ltb,
  is_empty-of_ne,
}
use bartimaeus_app.Base.Bytes.{Bytes, bytes, bytes_discrete}
use bartimaeus_app.Base.Map.{insert}
use bartimaeus_app.Clock.{second}
use bartimaeus_app.Hex.{hex}
use bartimaeus_app.Session.{SessionManager, new_session, create_session}
use bartimaeus_app.Session.View.{live, active, active-create_session}
use bartimaeus_app.Limiter.{get_remaining_lockout_time, reset_attempts}
use bartimaeus_app.Limiter.Lockout.{entry, get_remaining_lockout_time_lem}
use bartimaeus_app.Web.Http.{Request, Response, reply, set_content, set_header, set_status, json}
use bartimaeus_app.Web.Services.{AuthService, success, App, Env, done}
use bartimaeus_app.Web.AuthController.{is_valid_username, handle_login, locked_body}

-- The store with a new session.
abbrev with_session : SessionManager → Bytes → List ℕ → List ℕ → ℕ → SessionManager
with_session s username id_buffer csrf_buffer now = record {
  sessions =
      insert bytes_discrete (hex id_buffer) (new_session username (hex csrf_buffer) now) s.sessions;
}

create_session-with_session :
    (s : SessionManager) (username : Bytes) (id_buffer csrf_buffer : List ℕ) (now : ℕ)
    → create_session s username (some id_buffer) (some csrf_buffer) now
      ≡ some (hex id_buffer, with_session s username id_buffer csrf_buffer now)
unfolding create_session
create_session-with_session s username id_buffer csrf_buffer now = refl

-- The cookie that a login sends.
abbrev pub login_cookie : Bytes → Bytes
login_cookie session_id =
    bytes "auth_session=" ++ (session_id ++ bytes "; Path=/; HttpOnly; SameSite=Lax; Secure;")

module _ {D : Type 0} (auth_service : AuthService D) (env : Env) (req : Request) (app : App D)
    (res : Response) where
  -- While a whole second or more of the user's lockout is left, a login with a valid name and any
  -- password that is not empty answers 429 with the seconds that are left: the database is as it
  -- was, and no session is made.
  pub handle_login-locked :
      req.get_param_value (bytes "username") ≢ []
      → req.get_param_value (bytes "password") ≢ []
      → is_valid_username (req.get_param_value (bytes "username")) ≡ true
      → env.clock 0 + second
        ≤ (entry app.login_limiter (req.get_param_value (bytes "username"))).lockout_until
      → handle_login auth_service env req app res
        ≡ done
            (record app {
              login_limiter =
                  (get_remaining_lockout_time app.login_limiter
                    (req.get_param_value (bytes "username"))
                    (env.clock 0)).1;
            })
            (reply 429
              (locked_body (
                ((entry app.login_limiter (req.get_param_value (bytes "username"))).lockout_until
                  - env.clock 0)
                / second))
              res)
  unfolding handle_login
  handle_login-locked u p v h =
      let remaining =
        get_remaining_lockout_time_lem app.login_limiter (req.get_param_value (bytes "username"))
          (env.clock 0) in
      let positive : 0
          < ((entry app.login_limiter (req.get_param_value (bytes "username"))).lockout_until
              - env.clock 0)
            / second =
        omega (arith, h) in
      rw (is_empty-of_ne _ u, is_empty-of_ne _ p, v, remaining, lt→ltb 0 _ positive) refl

  -- When less than a second of the user's lockout is left, name and password are there and the
  -- name is valid, the database accepts them and RAND_bytes works, the answer is 200 with the
  -- cookie of a new session and the limiter resets the user; the session's id stands for the user
  -- for the session's lifetime, and the other ids, also the one in the request's cookie, stand for
  -- what they stood for: no session is erased.
  pub handle_login-success :
      (db : D) (id_buffer csrf_buffer : List ℕ)
      → req.get_param_value (bytes "username") ≢ []
      → req.get_param_value (bytes "password") ≢ []
      → is_valid_username (req.get_param_value (bytes "username")) ≡ true
      → (entry app.login_limiter (req.get_param_value (bytes "username"))).lockout_until
        < env.clock 0 + second
      → auth_service.login
          (req.get_param_value (bytes "username"))
          (req.get_param_value (bytes "password"))
          app.db
        ≡ (success, db)
      → env.random 0 ≡ some id_buffer
      → env.random 1 ≡ some csrf_buffer
      → (sm : SessionManager) × (handle_login auth_service env req app res
          ≡ done
              (record {
                session_manager = sm;
                login_limiter =
                    reset_attempts
                      (get_remaining_lockout_time app.login_limiter
                        (req.get_param_value (bytes "username"))
                        (env.clock 0)).1
                      (req.get_param_value (bytes "username"));
                db = db;
              })
              (set_content
                (bytes "{\"status\":\"success\", \"message\":\"Login successful\"}")
                json
                (set_header
                  (bytes "Set-Cookie")
                  (login_cookie (hex id_buffer))
                  (set_status 200 res))))
        × ((k : Bytes) (t : ℕ)
            → active sm k t
              ≡ ite
                  (bytes_discrete (hex id_buffer) k)
                  (live t (
                    some (
                      new_session
                        (req.get_param_value (bytes "username"))
                        (hex csrf_buffer)
                        (env.clock 3))))
                  (active app.session_manager k t))
  unfolding handle_login
  handle_login-success db id_buffer csrf_buffer u p v h accepted r0 r1 =
      let username = req.get_param_value (bytes "username") in
      let remaining = get_remaining_lockout_time_lem app.login_limiter username (env.clock 0) in
      let none_left : ((entry app.login_limiter username).lockout_until - env.clock 0) / second
          ≡ 0 =
        omega (arith, h) in
      let created : create_session app.session_manager username (env.random 0) (env.random 1)
            (env.clock 3)
          ≡ some (
            hex id_buffer,
            with_session app.session_manager username id_buffer csrf_buffer (env.clock 3),
          ) =
        rw (r0, r1)
          (create_session-with_session app.session_manager username id_buffer csrf_buffer
            (env.clock 3)) in
      (
        with_session app.session_manager username id_buffer csrf_buffer (env.clock 3),
        rw (is_empty-of_ne _ u, is_empty-of_ne _ p, v, remaining, none_left, accepted, created)
            refl,
        λ k t.
            (active-create_session app.session_manager username id_buffer csrf_buffer (env.clock 3)
              t k
              (create_session-with_session app.session_manager username id_buffer csrf_buffer
                (env.clock 3))).1,
      )
