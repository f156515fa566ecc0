-- ===== src/Tests/LoginTests.antt =====
-- The theorems on the login, for a user who is locked out and for one who is not.
use bartimaeus_app.Base.{
  ℕ, ◌+◌, ◌-◌, ◌/◌, ◌≤◌, ◌<◌, ◌≡◌, refl, ◌≢◌, true, false, [], ◌∷◌, none, some, arith, ite,
  ℕ_discrete,
}
use bartimaeus_app.Base.Bytes.{Bytes, bytes, bytes_discrete}
use bartimaeus_app.Base.Map.{find}
use bartimaeus_app.Clock.{second}
use bartimaeus_app.Hex.{hex}
use bartimaeus_app.Session.{SessionManager, new_session}
use bartimaeus_app.Session.View.{live, active}
use bartimaeus_app.Limiter.{LoginAttempt, get_remaining_lockout_time, reset_attempts}
use bartimaeus_app.Limiter.Lockout.{entry}
use bartimaeus_app.Web.Http.{Request, Response, reply, set_content, set_header, set_status, json}
use bartimaeus_app.Web.Services.{AuthService, success, App, Env, done}
use bartimaeus_app.Web.AuthController.{is_valid_username, handle_login, locked_body}
use bartimaeus_app.Web.Login.{login_cookie, handle_login-locked, handle_login-success}

-- The database is the number of calls so far.
abbrev auth_service : AuthService ℕ
auth_service = record {
  sign_up = λ u p d. (some success, d + 1);
  login = λ u p d. (success, d + 1);
  get_user_role = λ u d. (bytes "USER", d + 1);
  get_all_users = λ d. ([], d + 1);
}

abbrev alice : Bytes
alice = bytes "alice"

abbrev env : Env
env = record { clock = λ n. n; random = λ n. some (n ∷ 7 ∷ []) }

abbrev request : Request
request = record {
  method = bytes "POST";
  path = bytes "/login";
  has_header = λ n. false;
  get_header_value = λ n. [];
  get_param_value = λ n. alice;
}

abbrev response : Response
response = record { status = none; headers = []; body = []; content_type = [] }

abbrev attempt : LoginAttempt
attempt = record { failed_attempts = 5; lockout_until = 7000000000; last_fail_time = 0 }

abbrev locked : App ℕ
locked = record {
  session_manager = record { sessions = [] };
  login_limiter = record { attempts = (alice, attempt) ∷ [] };
  db = 0;
}

abbrev unlocked : App ℕ
unlocked = record locked { login_limiter = record { attempts = [] } }

alice-not_empty : alice ≢ []
unfolding bytes
alice-not_empty e = cc

alice-valid : is_valid_username alice ≡ true
unfolding is_valid_username bytes
alice-valid = refl

locked-entry : env.clock 0 + second ≤ (entry locked.login_limiter alice).lockout_until
unfolding find bytes_discrete bytes ℕ_discrete
locked-entry = omega arith

unlocked-entry : (entry unlocked.login_limiter alice).lockout_until < env.clock 0 + second
unfolding find
unlocked-entry = omega arith

handle_login-locked_example :
    handle_login auth_service env request locked response
    ≡ done
        (record locked {
          login_limiter = (get_remaining_lockout_time locked.login_limiter alice (env.clock 0)).1;
        })
        (reply 429
          (locked_body (((entry locked.login_limiter alice).lockout_until - env.clock 0) / second))
          response)
handle_login-locked_example =
    handle_login-locked auth_service env request locked response alice-not_empty alice-not_empty
      alice-valid locked-entry

handle_login-success_example :
    (sm : SessionManager) × (handle_login auth_service env request unlocked response
      ≡ done
          (record {
            session_manager = sm;
            login_limiter =
                reset_attempts
                  (get_remaining_lockout_time unlocked.login_limiter alice (env.clock 0)).1
                  alice;
            db = 1;
          })
          (set_content (bytes "{\"status\":\"success\", \"message\":\"Login successful\"}") json (
            set_header
              (bytes "Set-Cookie")
              (login_cookie (hex (0 ∷ 7 ∷ [])))
              (set_status 200 response))))
    × ((k : Bytes) (t : ℕ)
        → active sm k t
          ≡ ite
              (bytes_discrete (hex (0 ∷ 7 ∷ [])) k)
              (live t (some (new_session alice (hex (1 ∷ 7 ∷ [])) (env.clock 3))))
              (active unlocked.session_manager k t))
handle_login-success_example =
    handle_login-success auth_service env request unlocked response 1 (0 ∷ 7 ∷ []) (1 ∷ 7 ∷ [])
      alice-not_empty alice-not_empty alice-valid unlocked-entry refl refl refl
