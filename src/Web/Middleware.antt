-- ===== src/Web/Middleware.antt =====
-- src/middleware.hpp. Within a request, requireAuth reads the clock first (0), the CSRF check second
-- (1); the handlers go on from 2.
use bartimaeus_app.Base.{[], Option, none, some, if◌then◌else◌, is_empty}
use bartimaeus_app.Base.Bytes.{Bytes, bytes, is_eq}
use bartimaeus_app.Helpers.Cookie.{get_cookie_value}
use bartimaeus_app.Session.{validate_session, validate_csrf_token, destroy_session}
use bartimaeus_app.Web.Http.{Request, Response, reply, set_header}
use bartimaeus_app.Web.Services.{AuthService, App, Env, Handled, done, Handler}

abbrev value_or_empty : Option Bytes → Bytes
value_or_empty none = []
value_or_empty (some v) = v

-- getCookieValue(req.get_header_value("Cookie"), "auth_session")
unfoldable pub session_cookie : Request → Bytes
session_cookie req =
    value_or_empty (get_cookie_value (req.get_header_value (bytes "Cookie")) (bytes "auth_session"))

-- What a logout or a failed CSRF check sends, to expire the cookie.
unfoldable pub expired_cookie : Bytes
expired_cookie = bytes "auth_session=; Path=/; HttpOnly; SameSite=Lax; Max-Age=0; Secure;"

module _ {D : Type 0} (env : Env) (req : Request) where
  unfoldable pub require_auth : Handler D → App D → Response → Handled D
  require_auth handler app res =
      let session_id = session_cookie req in
      let (username, sm) = validate_session app.session_manager session_id (env.clock 0) in
      let app' = record app { session_manager = sm } in
      if is_empty username
      then done app' (reply 401 (bytes "{\"status\":\"error\", \"message\":\"Unauthorized\"}") res)
      else handler (record { username = username; session_id = session_id }) app' res

  unfoldable pub check_csrf : Handler D → Handler D
  check_csrf handler ctx app res =
      let csrf_token_header = req.get_header_value (bytes "X-CSRF-TOKEN") in
      let (valid, sm) =
        validate_csrf_token app.session_manager ctx.session_id csrf_token_header (env.clock 1) in
      if valid
      then handler ctx (record app { session_manager = sm }) res
      else done (record app { session_manager = destroy_session sm ctx.session_id })
          (reply 403 (bytes "{\"status\":\"error\", \"message\":\"CSRF token is invalid\"}")
            (set_header (bytes "Set-Cookie") expired_cookie res))

  unfoldable pub require_auth_and_csrf : Handler D → App D → Response → Handled D
  unfolding require_auth check_csrf
  require_auth_and_csrf handler = require_auth (check_csrf handler)

  unfoldable pub check_admin : AuthService D → Handler D → Handler D
  check_admin auth_service handler ctx app res =
      let (role, db) = auth_service.get_user_role ctx.username app.db in
      if is_eq role (bytes "ADMIN")
      then handler ctx (record app { db = db }) res
      else done (record app { db = db })
          (reply 403
            (bytes "{\"status\":\"error\", \"message\":\"Not authorized to access this function\"}")
            res)

  unfoldable pub require_admin : AuthService D → Handler D → App D → Response → Handled D
  unfolding require_auth check_admin
  require_admin auth_service handler = require_auth (check_admin auth_service handler)
