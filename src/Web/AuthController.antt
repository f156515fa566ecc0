-- ===== src/Web/AuthController.antt =====
-- src/controllers/auth_controller.hpp.
use bartimaeus_app.Base.{
  ℕ, Bool, false, not, ◌&&◌, ◌||◌, ◌++◌, map, Option, none, some, ltb, leb, ◌==◌, if◌then◌else◌,
  is_empty, length, all,
}
use bartimaeus_app.Base.Bytes.{Bytes, bytes}
use bartimaeus_app.Helpers.Json.{escape_json}
use bartimaeus_app.Helpers.Number.{decimal}
use bartimaeus_app.Limiter.{get_remaining_lockout_time, record_failure, reset_attempts}
use bartimaeus_app.Session.{SessionManager, create_session, get_csrf_token, destroy_session}
use bartimaeus_app.Web.Http.{
  Request, Response, json, json_array, set_status, set_content, set_header, reply,
}
use bartimaeus_app.Web.Services.{
  AuthResult, success, fail, db_error, AuthService, App, Env, Handled, done, threw, Handler,
}
use bartimaeus_app.Web.Middleware.{expired_cookie}

-- std::isalnum in the "C" locale, or one of the two other characters
unfoldable pub is_name_char : ℕ → Bool
is_name_char c =
    leb 48 c && leb c 57 || leb 65 c && leb c 90 || leb 97 c && leb c 122 || c == b'_' || c == b'-'

unfoldable pub is_valid_username : Bytes → Bool
unfolding is_name_char
is_valid_username username =
    if ltb (length username) 3 || ltb 32 (length username) then false else all is_name_char username

unfoldable pub user_json : Bytes → Bytes
user_json username = bytes "{\"username\":\"" ++ (escape_json username ++ bytes "\"}")

-- The body of a 429, as the two raw strings and the number make it.
abbrev pub locked_body : ℕ → Bytes
locked_body remaining_time =
    bytes
      "{\"status\":\"error\", \"message\":\"Account is temporarily locked. Please try again in \""
    ++ (decimal remaining_time ++ bytes " seconds.\"}")

module _ {D : Type 0} (auth_service : AuthService D) (env : Env) (req : Request) where
  abbrev username_param : Bytes
  username_param = req.get_param_value (bytes "username")

  abbrev password_param : Bytes
  password_param = req.get_param_value (bytes "password")

  -- The switch on the result of signUp; `none` is its exception, which passes through.
  unfoldable pub sign_up_reply : Response → App D → Option AuthResult → Handled D
  sign_up_reply res app none = threw app res
  sign_up_reply res app (some success) = done app (
      reply 201 (bytes "{\"status\":\"success\", \"message\":\"User registered successfully\"}")
        res)
  sign_up_reply res app (some fail) =
      done app
        (reply 409 (bytes "{\"status\":\"error\", \"message\":\"Username already exists\"}") res)
  sign_up_reply res app (some db_error) = done app (
      reply 503 (bytes "{\"status\":\"error\", \"message\":\"Service temporarily unavailable\"}")
        res)

  unfoldable pub handle_sign_up : App D → Response → Handled D
  unfolding sign_up_reply is_valid_username
  handle_sign_up app res =
      if is_empty username_param || is_empty password_param
      then done app (
          reply 400
            (bytes "{\"status\":\"error\", \"message\":\"Username or password are required\"}") res)
      else if not (is_valid_username username_param)
      then done app (
          reply 400
            (bytes "{\"status\":\"error\", \"message\":\"Username must be 3-32 characters\"}") res)
      else (let (result, db) = auth_service.sign_up username_param password_param app.db in
          sign_up_reply res (record app { db = db }) result)

  -- The end of a login, after createSession; `none` is its exception.
  unfoldable pub logged_in : App D → Response → Option (Bytes × SessionManager) → Handled D
  logged_in app res none = threw app res
  logged_in app res (some (session_id, sm)) =
      done (record app { session_manager = sm })
        (set_content (bytes "{\"status\":\"success\", \"message\":\"Login successful\"}") json (
          set_header (bytes "Set-Cookie")
            (bytes "auth_session="
              ++ (session_id ++ bytes "; Path=/; HttpOnly; SameSite=Lax; Secure;"))
            res))

  -- A login that the database accepted. Clock reading 3 is createSession's; when RAND_bytes fails
  -- the status and the limiter are already changed.
  unfoldable pub login_success : App D → Response → Handled D
  unfolding logged_in
  login_success app res =
      logged_in (record app { login_limiter = reset_attempts app.login_limiter username_param })
        (set_status 200 res)
        (create_session app.session_manager username_param (env.random 0) (env.random 1)
          (env.clock 3))

  -- The switch on the result of login; the failure's clock readings are 1 and 2.
  unfoldable pub login_reply : App D → Response → AuthResult → Handled D
  unfolding login_success
  login_reply app res success = login_success app res
  login_reply app res fail =
      done
        (record app {
          login_limiter =
              record_failure app.login_limiter username_param (env.clock 1) (env.clock 2);
        })
        (reply 401 (bytes "{\"status\":\"error\", \"message\":\"Invalid username or password\"}")
          res)
  login_reply app res db_error = done app (
      reply 503 (bytes "{\"status\":\"error\", \"message\":\"Service temporarily unavailable\"}")
        res)

  unfoldable pub handle_login : App D → Response → Handled D
  unfolding login_reply is_valid_username
  handle_login app res =
      if is_empty username_param || is_empty password_param
      then done app (
          reply 400
            (bytes "{\"status\":\"error\", \"message\":\"Username and password are required\"}")
            res)
      else if not (is_valid_username username_param)
      then done app
          (reply 400 (bytes "{\"status\":\"error\", \"message\":\"Invalid username format\"}") res)
      else (let (remaining_time, limiter) =
            get_remaining_lockout_time app.login_limiter username_param (env.clock 0) in
          let app' = record app { login_limiter = limiter } in
          let (result, db) = auth_service.login username_param password_param app.db in
          if ltb 0 remaining_time
          then done app' (reply 429 (locked_body remaining_time) res)
          else login_reply (record app' { db = db }) res result)

  unfoldable pub handle_get_users : Handler D
  unfolding user_json
  handle_get_users ctx app res =
      let (users, db) = auth_service.get_all_users app.db in
      done (record app { db = db })
        (set_content (json_array (map user_json users)) json (set_status 200 res))

  -- Clock reading 2 is getCsrfToken's.
  unfoldable pub handle_get_me : Handler D
  handle_get_me ctx app res =
      let (role, db) = auth_service.get_user_role ctx.username app.db in
      let (csrf_token, sm) = get_csrf_token app.session_manager ctx.session_id (env.clock 2) in
      done (record app { db = db; session_manager = sm })
        (reply 200
          (bytes "{\"status\":\"success\", \"username\":\""
            ++ (escape_json ctx.username
                ++ (bytes "\", \"role\":\""
                    ++ (escape_json role
                        ++ (bytes "\", \"csrf_token\":\""
                            ++ (escape_json csrf_token ++ bytes "\"}"))))))
          res)

  unfoldable pub handle_logout : Handler D
  handle_logout ctx app res =
      done (record app { session_manager = destroy_session app.session_manager ctx.session_id })
        (reply 200 (bytes "{\"status\":\"success\", \"message\":\"Logged out successfully\"}")
          (set_header (bytes "Set-Cookie") expired_cookie res))
