-- ===== src/Tests/HistoryTests.antt =====
-- The theorem on histories, for a user who logs in, a sweep, and a request for the list of posts.
use bartimaeus_app.Base.{
  ℕ, ◌+◌, ◌≡◌, refl, sym, ◌∙◌, ◌≢◌, ◌⊎◌, true, [], ◌∷◌, none, some, ℕ_discrete, List, if◌then◌else◌,
}
use bartimaeus_app.Base.Bytes.{Bytes, bytes, bytes_discrete, is_eq}
use bartimaeus_app.Base.Int.{pos}
use bartimaeus_app.Base.Map.{IsFunctional, find, insert, erase, retain}
use bartimaeus_app.Helpers.Cookie.{get_cookie_value}
use bartimaeus_app.Hex.{hex}
use bartimaeus_app.Limiter.{
  get_remaining_lockout_time, record_failure, fail_attempt, reset_attempts,
}
use bartimaeus_app.Session.{create_session, cleanup_expired_sessions}
use bartimaeus_app.Web.Http.{Request, Response}
use bartimaeus_app.Web.Services.{AuthService, BoardService, Post, success, fail, App, Env, done}
use bartimaeus_app.Web.Middleware.{session_cookie}
use bartimaeus_app.Web.AuthController.{handle_login}
use bartimaeus_app.Web.Routes.{post_login, get_posts, serve}
use bartimaeus_app.Web.Access.{unauthorized, looked_up, current_user}
use bartimaeus_app.Web.Granted.{ServesUser}
use bartimaeus_app.Web.History.{Event, request, sweep, started, run, Admits, afterwards}
use bartimaeus_app.AuthService as Auth
use bartimaeus_app.DbManager.{get_connection, release_connection}
use bartimaeus_app.Database.{acquire, prepare_statement, bind_and_execute}
use bartimaeus_app.Helpers.Password.{verify_password_argon2id}
use bartimaeus_app.Web.History.Proven.{web}
use bartimaeus_app.Tests.DatabaseTests.{table, argon2, salt, ready}
use bartimaeus_app.Web.History.Served.{application, serve-admitted}
use bartimaeus_app.Web.History.Revoked.{after, serve-revoked}

-- The database is the number of calls so far; one password is accepted.
abbrev auth_service : AuthService ℕ
auth_service = record {
  sign_up = λ u p d. (some success, d + 1);
  login = λ u p d. (if is_eq p (bytes "open") then success else fail, d + 1);
  get_user_role = λ u d. (bytes "USER", d + 1);
  get_all_users = λ d. ([], d + 1);
}

abbrev post : Post
post = record { id = pos 7; title = []; content = []; author = []; created_at = [] }

abbrev board_service : BoardService ℕ
board_service = record {
  write_post = λ t c a d. (true, d + 1);
  get_all_posts = λ d. (post ∷ [], d + 1);
  get_post_by_id = λ i d. (post, d + 1);
  delete_post = λ i u r d. (true, d + 1);
}

abbrev env : Env
env = record { clock = λ n. n; random = λ n. some (n ∷ 7 ∷ []) }

-- A login of "alice"; `cookie` is what the other requests send.
abbrev sent : Bytes → Bytes → Request
sent cookie password = record {
  method = bytes "POST";
  path = bytes "/login";
  has_header = λ n. true;
  get_header_value = λ n. cookie;
  get_param_value = λ n. if is_eq n (bytes "username") then bytes "alice" else password;
}

abbrev response : Response
response = record { status = none; headers = []; body = []; content_type = [] }

abbrev login : List Event
login =
    request env (sent [] (bytes "guess")) post_login response
    ∷ request env (sent [] (bytes "open")) post_login response
    ∷ sweep 5 6
    ∷ []

abbrev with_cookie : Request
with_cookie = sent (bytes "auth_session=0007") []

-- The session that the login made is there for the request behind it.
served_as_alice :
    current_user env with_cookie (application auth_service board_service 0 login) ≡ bytes "alice"
unfolding run serve handle_login session_cookie find insert erase retain bytes bytes_discrete
    ℕ_discrete get_cookie_value cleanup_expired_sessions get_remaining_lockout_time record_failure
    fail_attempt create_session hex
served_as_alice = refl

serve-admitted_example :
    ((serve auth_service board_service env with_cookie get_posts
          (application auth_service board_service 0 login)
          response
        ≡ done
            (looked_up env with_cookie (application auth_service board_service 0 login))
            (unauthorized response))
      ⊎ (ServesUser auth_service board_service env with_cookie get_posts
            (application auth_service board_service 0 login)
            response
            (serve auth_service board_service env with_cookie get_posts
              (application auth_service board_service 0 login)
              response)
          × Admits auth_service board_service
              (started 0)
              login
              (session_cookie with_cookie)
              (current_user env with_cookie (application auth_service board_service 0 login))))
    × IsFunctional bytes_discrete
        (application auth_service board_service 0 login).session_manager.sessions
    × IsFunctional bytes_discrete
        (application auth_service board_service 0 login).login_limiter.attempts
serve-admitted_example =
    serve-admitted auth_service board_service 0 login env with_cookie get_posts response refl

-- The same login, with the services of the program over a database of one row.
proven_as_alice : current_user env with_cookie (web table argon2 salt ready login) ≡ bytes "alice"
unfolding run serve handle_login session_cookie find insert erase retain bytes bytes_discrete
    ℕ_discrete get_cookie_value cleanup_expired_sessions get_remaining_lockout_time record_failure
    fail_attempt create_session hex acquire get_connection prepare_statement bind_and_execute
    verify_password_argon2id Auth.login reset_attempts release_connection
proven_as_alice = refl

-- After that login, a logout with the cookie, and then a sweep and another request.
abbrev later : List Event
later = sweep 9 9 ∷ request env with_cookie get_posts response ∷ []

later-lets_nobody_in :
    (app : App ℕ) (session_id username : Bytes)
    → ¬ Admits auth_service board_service app later session_id username
later-lets_nobody_in app session_id username (afterwards (afterwards a)) = elim a [ ]

alice-not_empty : bytes "alice" ≢ []
unfolding bytes
alice-not_empty e = cc

serve-revoked_example :
    serve auth_service board_service env with_cookie get_posts
      (after auth_service board_service 0 login env with_cookie response later)
      response
    ≡ done
        (looked_up env with_cookie
          (after auth_service board_service 0 login env with_cookie response later))
        (unauthorized response)
serve-revoked_example =
    serve-revoked auth_service board_service 0 login env with_cookie response later env with_cookie
      get_posts response (λ e. alice-not_empty (sym served_as_alice ∙ e)) (later-lets_nobody_in _ _)
      refl refl
